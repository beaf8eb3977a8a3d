-- ===== src/Store/Survival.antt =====
-- internal/store/rekey.go: what an interruption of a rotation, or of a change of the recovery
-- passphrase, leaves of the bundles.
use angou.Prelude.{
  ℕ, ◌+◌, ◌++◌, Bool-cases, Option, none, ◌≡◌, ◌⊎◌, inl, inr, refl, ◌∙◌, false, true, some, List,
  length, All, arith,
}
use angou.Prelude.{Result, ok, err}
use angou.Prelude.Bytes.{Bytes, bytes_eq}
use angou.External.{External}
use angou.KeyBundle
use angou.KeyBundle.{Bundle, Ciphers, bundle_nonce_size}
use angou.KeyBundle.Floor.{open_bundle-seal}
use angou.Store.Bundles.{open_bytes, identity_opens, new_bundle, open_identity_for}
use angou.Store.Commit.{commit_lem}
use angou.Store.Core.{Store}
use angou.Store.GetPut.{calm}
use angou.Store.Opens.{IsOpenable-opens}
use angou.Store.Rekey.{commit_rekey, rewrap_recovery}
use angou.Store.Retire.{IsRetired, Pruned, prune_superseded-Pruned}
use angou.Store.Rotation.{
  bundle_fits, IsOpenable, is_bundle_name, current_bundle, current_lasting, meta_lasting,
}
use angou.Prelude.Bytes.{has_prefix, cut_prefix}
use angou.Prelude.Bytes.Laws.{bytes_eq_iff, bytes_eq_refl, cut_prefix_sound}
use angou.Store.Types.{key_bundle_prefix, meta_name, key_bundle_name}
use angou.World.{
  temp_prefix, dir_eq, store_root, bootstrap_dir, staging_dir, file, Disk, World, file_at,
  write_file_atomic,
}
use angou.World.Atomic.{AtomicWrite, Unchanged, is_temp, write_file_atomic_lem}
use angou.World.Calls.{IsOnlyKilled}
use angou.World.Triple.{Post, Post-bind}

-- commitRekey may be interrupted anywhere. The current bundle opens the metadata under the recovery
-- passphrase, the new bundle opens the staged metadata under it, none of the old blobs is the
-- metadata, and no call fails but that the program is killed, at whichever call. Then the store is
-- opened by that passphrase from what is left on the disk.
pub commit_rekey-opens :
    (x : External) (recovery : Bytes) (s : Store x) (cur old_meta new new_meta : Bytes)
    (old_names : List Bytes) (w : World)
    → s.root ≡ store_root
    → w.disk.has_bootstrap ≡ true
    → file_at w.disk bootstrap_dir key_bundle_name ≡ some (file cur)
    → file_at w.disk store_root meta_name ≡ some (file old_meta)
    → file_at w.disk staging_dir meta_name ≡ some (file new_meta)
    → bundle_fits x recovery cur old_meta ≡ true
    → bundle_fits x recovery new new_meta ≡ true
    → All (λ name. bytes_eq name meta_name ≡ false) old_names
    → IsOnlyKilled w.schedule
    → (let after = (commit_rekey x s staging_dir new old_names w).1 in
        (exported : Bytes) × (open_identity_for x store_root recovery (calm after)
          ≡ (ok exported, calm after)))
commit_rekey-opens x recovery s cur old_meta new new_meta old_names w root there bundle meta staged
      old_fits new_fits apart killed =
    IsOpenable-opens x recovery (commit_rekey x s staging_dir new old_names w).1 (
      commit_lem
        (record {
          fp = x.fingerprint s.identity;
          cur = cur;
          old_meta = old_meta;
          new = new;
          new_meta = new_meta;
          old_fits = old_fits;
          new_fits = new_fits;
        })
        s old_names w root refl
        (record { bundle = bundle; meta = meta; staged = staged; there = there }) killed apart)

-- What a change of the passphrase relies on: the coding of a bundle, the cipher and the lengths of
-- random values.
pub record IsBundleLawful (x : External) : Type 0 where
  pub decode-encode_bundle : (b : Bundle) → x.decode_bundle (x.encode_bundle b) ≡ some b
  pub gcm_inverse :
      (key nonce plain : Bytes)
      → x.ciphers.gcm_open key nonce (x.ciphers.gcm_seal key nonce plain) ≡ some plain
  pub length-random : (n seed : ℕ) → length (x.random n seed) ≡ n

module _ (x : External) (l : IsBundleLawful x) (exported recovery : Bytes) where
  abbrev Sealed : Disk → Result Bundle → Disk → Type 0
  Sealed d (ok b) d' = (d' ≡ d) × (open_bytes x recovery (x.encode_bundle b) ≡ ok exported)
  Sealed d (err e) d' = d' ≡ d

  new_bundle-Sealed : (w : World) → Post (new_bundle x exported recovery) w (Sealed w.disk)
  unfolding new_bundle open_bytes
  new_bundle-Sealed w = sealed _ refl
    where
      sealed :
          (r : Result Bundle)
          → KeyBundle.seal x.ciphers
              (x.random 16 w.draws)
              (x.random 32 (w.draws + 1))
              (x.random 12 (w.draws + 1 + 1))
              (x.random 12 (w.draws + 1 + 1 + 1))
              exported
              recovery
            ≡ r
          → Sealed w.disk r w.disk
      sealed (ok b) e = (
        refl,
        rw (l.decode-encode_bundle b) (
            open_bundle-seal x.ciphers l.gcm_inverse (x.random 16 w.draws)
              (x.random 32 (w.draws + 1)) (x.random 12 (w.draws + 1 + 1))
              (x.random 12 (w.draws + 1 + 1 + 1)) exported recovery (l.length-random 16 _)
              (l.length-random 12 _) (l.length-random 12 _) e),
      )
      sealed (err _) e = refl

prefix_lasting : (r : Bytes) → is_temp (key_bundle_prefix ++ r) ≡ false
unfolding has_prefix cut_prefix temp_prefix key_bundle_prefix
prefix_lasting r = refl

cut-lasting :
    (name : Bytes) (o : Option Bytes)
    → cut_prefix name key_bundle_prefix ≡ o
    → has_prefix name key_bundle_prefix ≡ true
    → is_temp name ≡ false
unfolding has_prefix
cut-lasting name none e h = ground arith
cut-lasting name (some r) e h = rw (cut_prefix_sound name key_bundle_prefix e) (prefix_lasting r)

bundle_lasting : (name : Bytes) → is_bundle_name name ≡ true → is_temp name ≡ false
bundle_lasting name b = elim (Bool-cases (bytes_eq name key_bundle_name)) [
  | inl same ↦ rw ((bytes_eq_iff name key_bundle_name).0 same) current_lasting
  | inr other ↦ cut-lasting name _ refl (ground arith)
]

Unchanged-IsOpenable :
    (x : External) (recovery : Bytes) {d d' : Disk}
    → Unchanged d d'
    → IsOpenable x recovery d
    → IsOpenable x recovery d'
Unchanged-IsOpenable x recovery u o = record {
  name = o.name;
  raw = o.raw;
  meta_raw = o.meta_raw;
  named = o.named;
  bundle = u.files bootstrap_dir o.name (bundle_lasting o.name o.named) ∙ o.bundle;
  meta = u.files store_root meta_name meta_lasting ∙ o.meta;
  fits = o.fits;
  there = u.bootstrap ∙ o.there;
}

module _ (x : External) (old new : Bytes) where
  -- What a change of the passphrase leaves: a store that opens by the new one from one bundle only, or,
  -- where it failed, by the old one or the new one.
  abbrev pub Rewrapped : Result (Unit {0}) → Disk → Type 0
  Rewrapped (ok u) d = IsRetired x new d
  Rewrapped (err e) d = IsOpenable x old d ⊎ IsOpenable x new d

  Pruned-Rewrapped : (r : Result (Unit {0})) (d : Disk) → Pruned x new r d → Rewrapped r d
  Pruned-Rewrapped (ok u) d h = h
  Pruned-Rewrapped (err e) d h = inr h

  abbrev Replaced : Result (Unit {0}) → Disk → Type 0
  Replaced (ok u) d = IsOpenable x new d
  Replaced (err e) d = IsOpenable x old d

  module _ (raw meta_raw : Bytes) (fits : bundle_fits x new raw meta_raw ≡ true) (d : Disk)
      (meta : file_at d store_root meta_name ≡ some (file meta_raw))
      (there : d.has_bootstrap ≡ true) (o : IsOpenable x old d) where
    replace_lem :
        (r : Result (Unit {0})) (d' : Disk)
        → AtomicWrite bootstrap_dir key_bundle_name raw d r d'
        → Replaced r d'
    unfolding dir_eq
    replace_lem (ok _) d' a = record {
      name = key_bundle_name;
      raw = raw;
      meta_raw = meta_raw;
      named = current_bundle;
      bundle = ground (
        arith,
        a.files bootstrap_dir key_bundle_name,
        current_lasting,
        bytes_eq_refl key_bundle_name,
      );
      meta = ground (arith, a.files store_root meta_name, meta_lasting);
      fits = fits;
      there = a.bootstrap ∙ there;
    }
    replace_lem (err _) d' a = Unchanged-IsOpenable x old a o

  -- A store opens under the old passphrase, and the unlocked identity opens its metadata. Whichever
  -- calls of RewrapRecovery fail: where it returns no error, the current bundle opens the store
  -- under the new passphrase and there is no other bundle; where it returns one, some bundle opens
  -- the store under the old passphrase, or some bundle does under the new one.
  pub rewrap_recovery-Rewrapped :
      (l : IsBundleLawful x) (s : Store x) (exported meta_raw : Bytes) (w : World)
      → s.root ≡ store_root
      → x.serialize_private s.identity ≡ some exported
      → identity_opens x exported meta_raw ≡ true
      → file_at w.disk store_root meta_name ≡ some (file meta_raw)
      → IsOpenable x old w.disk
      → Post (rewrap_recovery x s new) w Rewrapped
  unfolding rewrap_recovery
  rewrap_recovery-Rewrapped l s exported meta_raw w root serialized opens meta o =
      rw (root, serialized)
        (Post-bind _ (Sealed x l exported new w.disk) Rewrapped (new_bundle x exported new) w
          (new_bundle-Sealed x l exported new w)
          (λ b w1 (e1, sealed).
            Post-bind _ Replaced Rewrapped
              (write_file_atomic x.temp_digits bootstrap_dir key_bundle_name (x.encode_bundle b)) w1
              (written b w1 e1 sealed)
              (λ a w2 h2. Pruned-Rewrapped _ _ (prune_superseded-Pruned x new w2 h2))
              (λ e d h. inl h))
          (λ e d h. inl (rw h o)))
    where
      written :
          (b : Bundle) (w1 : World)
          → w1.disk ≡ w.disk
          → open_bytes x new (x.encode_bundle b) ≡ ok exported
          → Post
              (write_file_atomic x.temp_digits bootstrap_dir key_bundle_name (x.encode_bundle b))
              w1
              Replaced
      written b w1 e sealed =
          replace_lem (x.encode_bundle b) meta_raw (rw (sealed, bundle_fits) opens) w1.disk
            (rw e meta) (rw e o.there) (rw e o) _ _
            (write_file_atomic_lem x.temp_digits bootstrap_dir key_bundle_name (x.encode_bundle b)
              w1)
