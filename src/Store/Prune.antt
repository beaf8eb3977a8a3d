-- ===== src/Store/Prune.antt =====
-- internal/store/rekey.go, PruneSupersededBundles: whatever fails, the store is opened.
use angou.Prelude.{
  ◌≡◌, inl, inr, Bool, true, false, ◌||◌, Bool-cases, none, some, List, [], ◌∷◌, arith,
}
use angou.Prelude.{Result, ok, err}
use angou.Prelude.Bytes.{Bytes, bytes_eq}
use angou.Prelude.Bytes.Laws.{bytes_eq_iff, bytes_eq_refl}
use angou.External.{External}
use angou.Store.Bundles.{is_superseded, superseded_names, order_bundles}
use angou.Store.Opens.{among, among-insert_descending}
use angou.Store.Rekey.{promote, remove_others}
use angou.Store.Rotation.{bundle_fits, is_bundle_name, IsOpenable, current_bundle}
use angou.Store.Types.{meta_name, key_bundle_name}
use angou.World.{
  store_root, bootstrap_dir, dir_eq, Node, file, Entry, Disk, World, file_at, rename,
  remove_if_there,
}
use angou.World.Calls.{
  moved, without, file_at-moved, file_at-without, Post-rename, Post-remove_if_there,
}
use angou.World.Triple.{Post, Post-bind}

superseded_names_sound :
    (name : Bytes) (es : List Entry)
    → among name (superseded_names es) ≡ true
    → is_superseded name ≡ true
unfolding superseded_names
superseded_names_sound name [] h = cc
superseded_names_sound name (e ∷ es) h = ground (
  arith,
  superseded_names_sound name es,
  among-insert_descending name e.name (superseded_names es),
  bytes_eq_iff e.name name,
)

pub order_bundles_sound :
    (name : Bytes) (es : List Entry)
    → among name (order_bundles es) ≡ true
    → is_bundle_name name ≡ true
unfolding order_bundles
order_bundles_sound name es h = ground (
  arith,
  superseded_names_sound name es,
  bytes_eq_iff key_bundle_name name,
  bytes_eq_iff name key_bundle_name,
)

module _ (x : External) (recovery meta_raw : Bytes) where
  -- The bundle `name` opens the metadata on the disk.
  pub record Opening (name : Bytes) (d : Disk) : Type 0 where
    pub raw : Bytes
    pub bundle : file_at d bootstrap_dir name ≡ some (file raw)
    pub meta : file_at d store_root meta_name ≡ some (file meta_raw)
    pub fits : bundle_fits x recovery raw meta_raw ≡ true
    pub there : d.has_bootstrap ≡ true

  pub Opening-IsOpenable :
      {name : Bytes} {d : Disk}
      → is_bundle_name name ≡ true
      → Opening name d
      → IsOpenable x recovery d
  Opening-IsOpenable {name} n o = record {
    name = name;
    raw = o.raw;
    meta_raw = meta_raw;
    named = n;
    bundle = o.bundle;
    meta = o.meta;
    fits = o.fits;
    there = o.there;
  }

  without-Opening :
      (name other : Bytes) {d : Disk}
      → bytes_eq other name ≡ false
      → Opening name d
      → Opening name (without bootstrap_dir other d)
  unfolding dir_eq
  without-Opening name other {d} apart o = record {
    raw = o.raw;
    bundle = ground (arith, o.bundle, file_at-without bootstrap_dir other d bootstrap_dir name);
    meta = ground (arith, o.meta, file_at-without bootstrap_dir other d store_root meta_name);
    fits = o.fits;
    there = o.there;
  }

  moved-Opening :
      (keep : Bytes) {d : Disk} (o : Opening keep d)
      → Opening key_bundle_name
          (moved bootstrap_dir keep bootstrap_dir key_bundle_name (file o.raw) d)
  unfolding dir_eq
  moved-Opening keep {d} o = record {
    raw = o.raw;
    bundle = ground (
      arith,
      bytes_eq_refl key_bundle_name,
      file_at-moved bootstrap_dir keep bootstrap_dir key_bundle_name (file o.raw) d bootstrap_dir
          key_bundle_name,
    );
    meta = ground (
      arith,
      o.meta,
      file_at-moved bootstrap_dir keep bootstrap_dir key_bundle_name (file o.raw) d store_root
          meta_name,
    );
    fits = o.fits;
    there = o.there;
  }

  -- The files of the bootstrap directory but the current bundle: none is new.
  abbrev pub NoneNew : Disk → Disk → Type 0
  NoneNew d d' =
      (name : Bytes)
      → bytes_eq name key_bundle_name ≡ false
      → file_at d bootstrap_dir name ≡ none
      → file_at d' bootstrap_dir name ≡ none

  without-NoneNew : (other : Bytes) (d : Disk) → NoneNew d (without bootstrap_dir other d)
  without-NoneNew other d name n h =
      ground (arith, file_at-without bootstrap_dir other d bootstrap_dir name)

  moved-NoneNew :
      (keep raw : Bytes) (d : Disk)
      → NoneNew d (moved bootstrap_dir keep bootstrap_dir key_bundle_name (file raw) d)
  moved-NoneNew keep raw d name n h = ground (
    arith,
    bytes_eq_iff key_bundle_name name,
    bytes_eq_iff name key_bundle_name,
    file_at-moved bootstrap_dir keep bootstrap_dir key_bundle_name (file raw) d bootstrap_dir name,
  )

  abbrev pub Promoted : Disk → Result (Unit {0}) → Disk → Type 0
  Promoted d0 (ok u) d = Opening key_bundle_name d × NoneNew d0 d
  Promoted d0 (err e) d = IsOpenable x recovery d

  rename_kept_lem :
      (keep : Bytes) (d0 : Disk) (w : World)
      → is_bundle_name keep ≡ true
      → Opening keep w.disk
      → NoneNew d0 w.disk
      → Post (rename bootstrap_dir keep bootstrap_dir key_bundle_name) w (Promoted d0)
  rename_kept_lem keep d0 w b o n =
      Post-rename bootstrap_dir keep bootstrap_dir key_bundle_name (Promoted d0) w
        (λ e. Opening-IsOpenable b o) (λ node at. taken node (from_keep node at))
    where
      from_keep : (node : Node) → file_at w.disk bootstrap_dir keep ≡ some node → node ≡ file o.raw
      from_keep node at = cc o.bundle

      taken :
          (node : Node)
          → node ≡ file o.raw
          → Promoted d0 (ok tt) (moved bootstrap_dir keep bootstrap_dir key_bundle_name node w.disk)
      taken node e =
          rw e
            (moved-Opening keep o, λ name a h. moved-NoneNew keep o.raw w.disk name a (n name a h))

  -- The bundle that is kept is there, and the current one has been taken away.
  abbrev Vacated : Bytes → Disk → Result (Unit {0}) → Disk → Type 0
  Vacated keep d0 r d = Opening keep d × NoneNew d0 d

  vacate_lem :
      (keep : Bytes) (w : World)
      → bytes_eq key_bundle_name keep ≡ false
      → Opening keep w.disk
      → Post (remove_if_there bootstrap_dir key_bundle_name) w (Vacated keep w.disk)
  vacate_lem keep w apart o =
      Post-remove_if_there bootstrap_dir key_bundle_name (Vacated keep w.disk) w (o, λ name a h. h)
        (λ missing. (o, λ name a h. h))
        (without-Opening keep key_bundle_name apart o, without-NoneNew key_bundle_name w.disk)

  pub promote-Promoted :
      (keep : Bytes) (w : World)
      → is_bundle_name keep ≡ true
      → Opening keep w.disk
      → Post (promote keep) w (Promoted w.disk)
  unfolding promote
  promote-Promoted keep w b o = elim (Bool-cases (bytes_eq keep key_bundle_name)) [
    | inl same ↦ rw same (current ((bytes_eq_iff keep key_bundle_name).0 same))
    | inr other ↦ rw other (
        Post-bind _ (Vacated keep w.disk) (Promoted w.disk)
          (remove_if_there bootstrap_dir key_bundle_name) w (vacate_lem keep w (apart other) o)
          (λ a w1 h1. rename_kept_lem keep w.disk w1 b h1.0 h1.1)
          (λ e d h. Opening-IsOpenable b h.0))
  ]
    where
      current : keep ≡ key_bundle_name → Promoted w.disk (ok tt) w.disk
      current e = (rw (← e) o, λ name a h. h)

      apart : bytes_eq keep key_bundle_name ≡ false → bytes_eq key_bundle_name keep ≡ false
      apart h = ground (arith, bytes_eq_iff keep key_bundle_name, bytes_eq_iff key_bundle_name keep)

  -- No file but the current bundle is left at the names that pass `p`.
  abbrev pub Cleared : (Bytes → Bool) → Disk → Type 0
  Cleared p d =
      (name : Bytes)
      → bytes_eq name key_bundle_name ≡ false
      → p name ≡ true
      → file_at d bootstrap_dir name ≡ none

  abbrev pub Left : (Bytes → Bool) → Result (Unit {0}) → Disk → Type 0
  Left p (ok u) d = Opening key_bundle_name d × Cleared p d
  Left p (err e) d = IsOpenable x recovery d

  Cleared-missing :
      (p : Bytes → Bool) (n : Bytes) (d : Disk)
      → file_at d bootstrap_dir n ≡ none
      → Cleared p d
      → Cleared (λ m. p m || bytes_eq n m) d
  Cleared-missing p n d missing h m a t = ground (arith, h m a, bytes_eq_iff n m)

  Cleared-without :
      (p : Bytes → Bool) (n : Bytes) (d : Disk)
      → Cleared p d
      → Cleared (λ m. p m || bytes_eq n m) (without bootstrap_dir n d)
  unfolding dir_eq
  Cleared-without p n d h m a t =
      ground (arith, h m a, bytes_eq_iff n m, file_at-without bootstrap_dir n d bootstrap_dir m)

  remove_one_lem :
      (p : Bytes → Bool) (n : Bytes) (w : World)
      → bytes_eq n key_bundle_name ≡ false
      → Opening key_bundle_name w.disk
      → Cleared p w.disk
      → Post (remove_if_there bootstrap_dir n) w (Left (λ m. p m || bytes_eq n m))
  remove_one_lem p n w a o h =
      Post-remove_if_there bootstrap_dir n (Left (λ m. p m || bytes_eq n m)) w
        (Opening-IsOpenable current_bundle o) (λ missing. (o, Cleared-missing p n w.disk missing h))
        (without-Opening key_bundle_name n a o, Cleared-without p n w.disk h)

  Left-mono :
      (p q : Bytes → Bool) (r : Result (Unit {0})) (d : Disk)
      → ((m : Bytes) → bytes_eq m key_bundle_name ≡ false → q m ≡ true → p m ≡ true)
      → Left p r d
      → Left q r d
  Left-mono p q (ok u) d sub h = (h.0, λ m a t. h.1 m a (sub m a t))
  Left-mono p q (err e) d sub h = h

  pub remove_others_lem :
      (p : Bytes → Bool) (names : List Bytes) (w : World)
      → Opening key_bundle_name w.disk
      → Cleared p w.disk
      → Post (remove_others names) w (Left (λ m. p m || among m names))
  unfolding remove_others
  remove_others_lem p [] w o h = (o, λ m a t. h m a (ground arith))
  remove_others_lem p (n ∷ ns) w o h = elim (Bool-cases (bytes_eq n key_bundle_name)) [
    | inl same ↦ rw same (
        Left-mono (λ m. p m || among m ns) (λ m. p m || among m (n ∷ ns)) _ _
          (λ m a t. ground (
            arith,
            bytes_eq_iff n key_bundle_name,
            bytes_eq_iff n m,
            bytes_eq_iff m key_bundle_name,
          ))
          (remove_others_lem p ns w o h))
    | inr other ↦ rw other (
        Post-bind _ (Left (λ m. p m || bytes_eq n m)) (Left (λ m. p m || among m (n ∷ ns)))
          (remove_if_there bootstrap_dir n) w (remove_one_lem p n w other o h)
          (λ a w1 h1.
            Left-mono (λ m. (p m || bytes_eq n m) || among m ns) (λ m. p m || among m (n ∷ ns)) _ _
              (λ m b t. ground arith)
              (remove_others_lem (λ m. p m || bytes_eq n m) ns w1 h1.0 h1.1))
          (λ e d k. k))
  ]
