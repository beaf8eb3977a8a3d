-- ===== src/Store/Rotation.antt =====
-- A rotation of the identity that is interrupted at any of its steps leaves a store that opens.
use angou.Prelude.{◌≡◌, refl, ◌∙◌, Bool, true, false, ◌||◌, some, ◌++◌, arith}
use angou.Prelude.{ok, err}
use angou.Prelude.Bytes.{Bytes, bytes, bytes_eq, has_prefix, cut_prefix}
use angou.Prelude.Bytes.Laws.{bytes_eq_refl, has_prefix-append, has_suffix-append}
use angou.Container.{extension}
use angou.External.{External}
use angou.Store.Bundles.{open_bytes, identity_opens, is_superseded}
use angou.Store.Rekey.{is_swapped_later, superseded_name}
use angou.Store.Types.{meta_name, key_bundle_name, key_bundle_prefix}
use mathlib.Core.List.{append_assoc}
use angou.World.{
  store_root, bootstrap_dir, staging_dir, dir_eq, Node, file, Disk, file_at, temp_prefix,
}
use angou.World.Atomic.{is_temp, Unchanged, Written}
use angou.World.Calls.{moved, file_at-moved}

-- Whether a bundle's bytes give, under the passphrase, an identity that opens the metadata.
abbrev pub bundle_fits : (x : External) → Bytes → Bytes → Bytes → Bool
bundle_fits x recovery raw meta_raw = elim (open_bytes x recovery raw) [
  | ok exported ↦ identity_opens x exported meta_raw
  | err e ↦ false
]

abbrev pub is_bundle_name : Bytes → Bool
is_bundle_name name = bytes_eq name key_bundle_name || is_superseded name

-- Some bundle of the store opens its metadata.
pub record IsOpenable (x : External) (recovery : Bytes) (d : Disk) : Type 0 where
  pub name : Bytes
  pub raw : Bytes
  pub meta_raw : Bytes
  pub named : is_bundle_name name ≡ true
  pub bundle : file_at d bootstrap_dir name ≡ some (file raw)
  pub meta : file_at d store_root meta_name ≡ some (file meta_raw)
  pub fits : bundle_fits x recovery raw meta_raw ≡ true
  pub there : d.has_bootstrap ≡ true

true_right : (b : Bool) → (b || true) ≡ true
true_right true = refl
true_right false = refl

superseded_name_bundle : (fp : Bytes) → is_bundle_name (superseded_name fp) ≡ true
unfolding superseded_name
superseded_name_bundle fp =
    rw
      (
        has_prefix-append key_bundle_prefix (fp ++ bytes ".json"),
        ← append_assoc key_bundle_prefix fp (bytes ".json"),
        has_suffix-append (key_bundle_prefix ++ fp) (bytes ".json"),
      )
      (true_right (bytes_eq ((key_bundle_prefix ++ fp) ++ bytes ".json") key_bundle_name))

pub current_bundle : is_bundle_name key_bundle_name ≡ true
current_bundle = rw (bytes_eq_refl key_bundle_name) refl

current-superseded : (fp : Bytes) → bytes_eq key_bundle_name (superseded_name fp) ≡ false
unfolding bytes_eq key_bundle_name superseded_name key_bundle_prefix
current-superseded fp = refl

superseded-current : (fp : Bytes) → bytes_eq (superseded_name fp) key_bundle_name ≡ false
unfolding bytes_eq key_bundle_name superseded_name key_bundle_prefix
superseded-current fp = refl

superseded_lasting : (fp : Bytes) → is_temp (superseded_name fp) ≡ false
unfolding has_prefix cut_prefix temp_prefix superseded_name key_bundle_prefix
superseded_lasting fp = refl

pub meta_lasting : is_temp meta_name ≡ false
unfolding has_prefix cut_prefix temp_prefix meta_name extension
meta_lasting = refl

pub current_lasting : is_temp key_bundle_name ≡ false
unfolding has_prefix cut_prefix temp_prefix key_bundle_name
current_lasting = refl

-- The two bundles and the two versions of the metadata of a rotation.
pub record Change (x : External) (recovery : Bytes) : Type 0 where
  pub fp : Bytes
  pub cur : Bytes
  pub old_meta : Bytes
  pub new : Bytes
  pub new_meta : Bytes
  pub old_fits : bundle_fits x recovery cur old_meta ≡ true
  pub new_fits : bundle_fits x recovery new new_meta ≡ true

module _ {x : External} {recovery : Bytes} (c : Change x recovery) where
  -- Before the swap, the current bundle opens the metadata, and new metadata is staged.
  pub record IsBefore (d : Disk) : Type 0 where
    pub bundle : file_at d bootstrap_dir key_bundle_name ≡ some (file c.cur)
    pub meta : file_at d store_root meta_name ≡ some (file c.old_meta)
    pub staged : file_at d staging_dir meta_name ≡ some (file c.new_meta)
    pub there : d.has_bootstrap ≡ true

  -- The old bundle has its other name.
  pub record IsRetained (d : Disk) : Type 0 where
    pub bundle : file_at d bootstrap_dir (superseded_name c.fp) ≡ some (file c.cur)
    pub meta : file_at d store_root meta_name ≡ some (file c.old_meta)
    pub staged : file_at d staging_dir meta_name ≡ some (file c.new_meta)
    pub there : d.has_bootstrap ≡ true

  -- Both bundles are there.
  pub record HasBoth (d : Disk) : Type 0 where
    pub retained : IsRetained d
    pub current : file_at d bootstrap_dir key_bundle_name ≡ some (file c.new)

  pub record IsAfter (d : Disk) : Type 0 where
    pub bundle : file_at d bootstrap_dir key_bundle_name ≡ some (file c.new)
    pub meta : file_at d store_root meta_name ≡ some (file c.new_meta)
    pub there : d.has_bootstrap ≡ true

  abbrev pub Openable : Disk → Type 0
  Openable d = IsOpenable x recovery d

  pub IsBefore-IsOpenable : {d : Disk} → IsBefore d → Openable d
  IsBefore-IsOpenable b = record {
    name = key_bundle_name;
    raw = c.cur;
    meta_raw = c.old_meta;
    named = current_bundle;
    bundle = b.bundle;
    meta = b.meta;
    fits = c.old_fits;
    there = b.there;
  }

  pub IsRetained-IsOpenable : {d : Disk} → IsRetained d → Openable d
  IsRetained-IsOpenable b = record {
    name = superseded_name c.fp;
    raw = c.cur;
    meta_raw = c.old_meta;
    named = superseded_name_bundle c.fp;
    bundle = b.bundle;
    meta = b.meta;
    fits = c.old_fits;
    there = b.there;
  }

  pub IsAfter-IsOpenable : {d : Disk} → IsAfter d → Openable d
  IsAfter-IsOpenable b = record {
    name = key_bundle_name;
    raw = c.new;
    meta_raw = c.new_meta;
    named = current_bundle;
    bundle = b.bundle;
    meta = b.meta;
    fits = c.new_fits;
    there = b.there;
  }

  pub moved-IsBefore :
      (name : Bytes) (node : Node) {d : Disk}
      → is_swapped_later name ≡ false
      → IsBefore d
      → IsBefore (moved staging_dir name store_root name node d)
  unfolding is_swapped_later dir_eq
  moved-IsBefore name node {d} other b = record {
    bundle = ground (
      arith,
      file_at-moved staging_dir name store_root name node d bootstrap_dir key_bundle_name,
    );
    meta =
        ground (arith, file_at-moved staging_dir name store_root name node d store_root meta_name);
    staged =
        ground (arith, file_at-moved staging_dir name store_root name node d staging_dir meta_name);
    there = b.there;
  }

  pub moved-IsRetained :
      {d : Disk}
      → IsBefore d
      → IsRetained
          (moved bootstrap_dir key_bundle_name bootstrap_dir (superseded_name c.fp) (file c.cur) d)
  unfolding dir_eq
  moved-IsRetained {d} b = record {
    bundle = ground (
      arith,
      bytes_eq_refl (superseded_name c.fp),
      file_at-moved bootstrap_dir key_bundle_name bootstrap_dir (superseded_name c.fp) (file c.cur)
          d bootstrap_dir (superseded_name c.fp),
    );
    meta = ground (
      arith,
      file_at-moved bootstrap_dir key_bundle_name bootstrap_dir (superseded_name c.fp) (file c.cur)
          d store_root meta_name,
    );
    staged = ground (
      arith,
      file_at-moved bootstrap_dir key_bundle_name bootstrap_dir (superseded_name c.fp) (file c.cur)
          d staging_dir meta_name,
    );
    there = b.there;
  }

  pub Unchanged-IsRetained : {d d' : Disk} → Unchanged d d' → IsRetained d → IsRetained d'
  Unchanged-IsRetained u b = record {
    bundle = u.files bootstrap_dir (superseded_name c.fp) (superseded_lasting c.fp) ∙ b.bundle;
    meta = u.files store_root meta_name meta_lasting ∙ b.meta;
    staged = u.files staging_dir meta_name meta_lasting ∙ b.staged;
    there = u.bootstrap ∙ b.there;
  }

  pub Written-HasBoth :
      {d d' : Disk} → Written bootstrap_dir key_bundle_name c.new d d' → IsRetained d → HasBoth d'
  unfolding dir_eq
  Written-HasBoth u b = record {
    retained = record {
      bundle = ground (
        arith,
        u.files bootstrap_dir (superseded_name c.fp),
        superseded_lasting c.fp,
        current-superseded c.fp,
      );
      meta = ground (arith, u.files store_root meta_name, meta_lasting);
      staged = ground (arith, u.files staging_dir meta_name, meta_lasting);
      there = u.bootstrap ∙ b.there;
    };
    current = ground (
      arith,
      u.files bootstrap_dir key_bundle_name,
      current_lasting,
      bytes_eq_refl key_bundle_name,
    );
  }

  pub moved-IsAfter :
      {d : Disk}
      → HasBoth d
      → IsAfter (moved staging_dir meta_name store_root meta_name (file c.new_meta) d)
  unfolding dir_eq
  moved-IsAfter {d} h = record {
    bundle = ground (
      arith,
      file_at-moved staging_dir meta_name store_root meta_name (file c.new_meta) d bootstrap_dir
          key_bundle_name,
    );
    meta = ground (
      arith,
      bytes_eq_refl meta_name,
      file_at-moved staging_dir meta_name store_root meta_name (file c.new_meta) d store_root
          meta_name,
    );
    there = h.retained.there;
  }
