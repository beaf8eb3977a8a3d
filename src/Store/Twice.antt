-- ===== src/Store/Twice.antt =====
-- internal/store/rekey.go, commitRekey: a rotation after an interrupted one.
use angou.Prelude.{ℕ, ◌≡◌, refl, true, false, some, [], ◌∷◌, arith}
use angou.Prelude.{ok}
use angou.Prelude.Bytes.{Bytes, bytes_eq}
use angou.Prelude.Bytes.Laws.{bytes_eq_iff}
use angou.External.{External}
use angou.Store.Rekey.{superseded_name, retain_bundle, swap}
use angou.Store.Rotation.{bundle_fits, IsOpenable}
use angou.Store.Swap.{swap_dead}
use angou.Store.Types.{meta_name, key_bundle_name}
use angou.World.{
  works, dies, store_root, bootstrap_dir, staging_dir, dir_eq, file, Disk, World, file_at, has_dir,
  stat, rename, ◌>>◌,
}
use angou.World.Calls.{moved, file_at-moved}

module _ (x : External) (recovery fp cur meta_raw : Bytes) (d : Disk) where
  -- Of the bundles, at most the one of the name that the current one gets opens the metadata.
  abbrev pub OnlySuperseded : Type 0
  OnlySuperseded =
      (name raw : Bytes)
      → bytes_eq (superseded_name fp) name ≡ false
      → file_at d bootstrap_dir name ≡ some (file raw)
      → bundle_fits x recovery raw meta_raw ≡ false

  moved_shut :
      file_at d bootstrap_dir key_bundle_name ≡ some (file cur)
      → file_at d store_root meta_name ≡ some (file meta_raw)
      → bundle_fits x recovery cur meta_raw ≡ false
      → OnlySuperseded
      → IsOpenable x recovery
          (moved bootstrap_dir key_bundle_name bootstrap_dir (superseded_name fp) (file cur) d)
      → ⊥
  unfolding dir_eq
  moved_shut bundle meta shut only o = ground (
    arith,
    only o.name o.raw,
    bytes_eq_iff (superseded_name fp) o.name,
    file_at-moved bootstrap_dir key_bundle_name bootstrap_dir (superseded_name fp) (file cur) d
        bootstrap_dir o.name,
    file_at-moved bootstrap_dir key_bundle_name bootstrap_dir (superseded_name fp) (file cur) d
        store_root meta_name,
  )

-- The world in which two calls work, and then the program is killed.
abbrev pub killed_third : Disk → ℕ → World
killed_third d n = record { disk = d; schedule = works ∷ works ∷ dies ∷ []; draws = n }

retained :
    (name cur : Bytes) (d : Disk) (n : ℕ)
    → d.has_bootstrap ≡ true
    → file_at d bootstrap_dir key_bundle_name ≡ some (file cur)
    → retain_bundle name (killed_third d n) ≡ (
      ok tt,
      record {
        disk = moved bootstrap_dir key_bundle_name bootstrap_dir name (file cur) d;
        schedule = dies ∷ [];
        draws = n;
      },
    )
unfolding retain_bundle stat rename has_dir
retained name cur d n there bundle = simp (bundle, there) refl

-- The current bundle does not open the metadata, and no bundle does but perhaps the one whose name the
-- current bundle gets, as an interrupted rotation leaves it. If the program is killed when commitRekey
-- has retained the current bundle, then no bundle opens the metadata: the one that did has been
-- replaced.
pub swap-not-IsOpenable :
    (x : External) (recovery : Bytes) (digits : ℕ → Bytes) (fp cur meta_raw bundle : Bytes)
    (d : Disk) (n : ℕ)
    → d.has_bootstrap ≡ true
    → file_at d bootstrap_dir key_bundle_name ≡ some (file cur)
    → file_at d store_root meta_name ≡ some (file meta_raw)
    → bundle_fits x recovery cur meta_raw ≡ false
    → OnlySuperseded x recovery fp cur meta_raw d
    → ¬ IsOpenable x recovery
        ((retain_bundle (superseded_name fp) >> swap digits staging_dir store_root bundle)
          (killed_third d n)).1.disk
swap-not-IsOpenable x recovery digits fp cur meta_raw bundle d n there current meta shut only =
    rw
      (
        retained (superseded_name fp) cur d n there current,
        swap_dead digits bundle
            (record {
              disk =
                  moved bootstrap_dir key_bundle_name bootstrap_dir (superseded_name fp) (file cur)
                    d;
              schedule = dies ∷ [];
              draws = n;
            })
            tt,
      )
      (moved_shut x recovery fp cur meta_raw d current meta shut only)
