-- ===== src/Store/Opens.antt =====
-- internal/store/bundles.go: a store of which some bundle works is opened.
use angou.Prelude.{
  ◌≡◌, refl, Bool, true, false, ◌||◌, Bool-cases, inl, inr, some, List, [], ◌∷◌, arith,
  if◌then◌else◌,
}
use angou.Prelude.{Result, ok, err, Error, no_usable_bundle, not_exist}
use angou.Prelude.Bytes.{Bytes, bytes_eq}
use angou.Prelude.Bytes.Laws.{bytes_eq_iff}
use angou.External.{External}
use angou.Store.Bundles.{
  insert_descending, is_superseded, superseded_names, has_current, order_bundles, bundle_paths,
  open_bytes, read_bundle, identity_opens, fits, round, last_error, try_bundles, try_listed,
  open_identity_for, or_no_store,
}
use angou.Store.GetPut.{calm}
use angou.Store.Rotation.{bundle_fits, is_bundle_name, IsOpenable}
use angou.Store.Types.{meta_name, key_bundle_name}
use angou.World.{
  Dir, store_root, bootstrap_dir, Node, file, Entry, World, M, continue, find_entry, is_at, file_at,
  list_dir, read_file, read_dir, has_dir, lift, pure,
}

abbrev pub among : Bytes → List Bytes → Bool
among name [] = false
among name (n ∷ ns) = bytes_eq n name || among name ns

abbrev pub has_name : Bytes → List Entry → Bool
has_name name [] = false
has_name name (e ∷ es) = bytes_eq e.name name || has_name name es

pub find_entry-listed :
    (dir : Dir) (name : Bytes) (es : List Entry) {node : Node}
    → find_entry dir name es ≡ some node
    → has_name name (list_dir dir es) ≡ true
unfolding find_entry list_dir is_at
find_entry-listed dir name [] h = cc
find_entry-listed dir name (e ∷ es) {node} h =
    ground (arith, find_entry-listed dir name es {node = node})

has_current_lem : (es : List Entry) → has_current es ≡ has_name key_bundle_name es
unfolding has_current
has_current_lem [] = refl
has_current_lem (e ∷ es) = ground (arith, has_current_lem es)

pub among-insert_descending :
    (name n : Bytes) (ns : List Bytes)
    → among name (insert_descending n ns) ≡ (bytes_eq n name || among name ns)
unfolding insert_descending
among-insert_descending name n [] = refl
among-insert_descending name n (m ∷ ms) = ground (arith, among-insert_descending name n ms)

superseded_names_complete :
    (name : Bytes) (es : List Entry)
    → is_superseded name ≡ true
    → bytes_eq name key_bundle_name ≡ false
    → has_name name es ≡ true
    → among name (superseded_names es) ≡ true
unfolding superseded_names
superseded_names_complete name [] s other h = cc
superseded_names_complete name (e ∷ es) s other h = ground (
  arith,
  superseded_names_complete name es s other,
  among-insert_descending name e.name (superseded_names es),
  bytes_eq_iff e.name name,
)

pub order_bundles_complete :
    (name : Bytes) (es : List Entry)
    → is_bundle_name name ≡ true
    → has_name name es ≡ true
    → among name (order_bundles es) ≡ true
unfolding order_bundles
order_bundles_complete name es b h = ground (
  arith,
  has_current_lem es,
  superseded_names_complete name es,
  bytes_eq_iff name key_bundle_name,
  bytes_eq_iff key_bundle_name name,
)

-- A value that only a result gives leaves the world alone.
lift_keeps :
    {A B : Type 0} (r : Result A) (f : A → Result B) (w : World)
    → (continue (r, w) (λ a w'. (f a, w'))).1 ≡ w
lift_keeps (ok a) f w = refl
lift_keeps (err e) f w = refl

module _ (x : External) (recovery meta_raw : Bytes) where
  abbrev Opened : M Bytes → World → Type 0
  Opened m w = (exported : Bytes) × (m w ≡ (ok exported, w))

  abbrev accepted : Result Bytes → Bool
  accepted (ok exported) = identity_opens x exported meta_raw
  accepted (err e) = false

  read_bundle-calm : (name : Bytes) (w : World) → (read_bundle x recovery name (calm w)).1 ≡ calm w
  unfolding read_bundle read_file
  read_bundle-calm name w = lift_keeps _ (open_bytes x recovery) (calm w)

  read_bundle-accepted :
      (name raw : Bytes) (w : World)
      → file_at w.disk bootstrap_dir name ≡ some (file raw)
      → bundle_fits x recovery raw meta_raw ≡ true
      → accepted (read_bundle x recovery name (calm w)).0 ≡ true
  unfolding read_bundle read_file
  read_bundle-accepted name raw w at f = rw at (same (open_bytes x recovery raw) f)
    where
      same :
          (o : Result Bytes)
          → (elim o [ ok exported ↦ identity_opens x exported meta_raw | err e ↦ false ]) ≡ true
          → accepted o ≡ true
      same (ok exported) h = h
      same (err e) h = h

  round-Opened :
      (o : Result Bytes) (rest : M Bytes) (w : World)
      → (accepted o ≡ false → Opened rest w)
      → Opened (round x (ok meta_raw) o rest) w
  unfolding fits
  round-Opened (err e) rest w later = later refl
  round-Opened (ok exported) rest w later = elim (Bool-cases (identity_opens x exported meta_raw)) [
    | inl opens ↦ (exported, rw opens refl)
    | inr shut ↦ rw shut (later shut)
  ]

  module _ (name raw : Bytes) (w : World) (at : file_at w.disk bootstrap_dir name ≡ some (file raw))
      (works : bundle_fits x recovery raw meta_raw ≡ true) where
    try_bundles-Opened :
        (last : Error) (names : List Bytes)
        → among name names ≡ true
        → Opened (try_bundles x recovery (ok meta_raw) last names) (calm w)
    unfolding try_bundles
    try_bundles-Opened last [] h = cc
    try_bundles-Opened last (n ∷ ns) h = rw (read_bundle-calm n w) (
        round-Opened (read_bundle x recovery n (calm w)).0
          (try_bundles x recovery (ok meta_raw) (last_error x (read_bundle x recovery n (calm w)).0)
            ns)
          (calm w)
          (λ shut.
            try_bundles-Opened (last_error x (read_bundle x recovery n (calm w)).0) ns
              (behind n ns h shut)))
      where
        clash : (n : Bytes) → n ≡ name → accepted (read_bundle x recovery n (calm w)).0 ≡ false → ⊥
        clash n e shut = cc (read_bundle-accepted name raw w at works)

        behind :
            (n : Bytes) (ns : List Bytes)
            → among name (n ∷ ns) ≡ true
            → accepted (read_bundle x recovery n (calm w)).0 ≡ false
            → among name ns ≡ true
        behind n ns h shut = elim (Bool-cases (bytes_eq n name)) [
          | inl same ↦ absurd (clash n ((bytes_eq_iff n name).0 same) shut)
          | inr other ↦ rw other at h
        ]

    try_listed-Opened :
        (names : List Bytes)
        → among name names ≡ true
        → file_at w.disk store_root meta_name ≡ some (file meta_raw)
        → Opened (try_listed x store_root recovery names) (calm w)
    unfolding try_listed read_file
    try_listed-Opened [] h m = cc
    try_listed-Opened (n ∷ ns) h m = rw m (try_bundles-Opened no_usable_bundle (n ∷ ns) h)

bundle_paths-calm :
    (w : World)
    → w.disk.has_bootstrap ≡ true
    → bundle_paths (calm w) ≡ (ok (order_bundles (list_dir bootstrap_dir w.disk.entries)), calm w)
unfolding bundle_paths read_dir has_dir
bundle_paths-calm w there = listed w.disk.has_bootstrap there
  where
    listed :
        (b : Bool)
        → b ≡ true
        → continue
            (lift
              (or_no_store
                (if b then ok (list_dir bootstrap_dir w.disk.entries) else err not_exist))
              (calm w))
            (λ entries. pure (order_bundles entries))
          ≡ (ok (order_bundles (list_dir bootstrap_dir w.disk.entries)), calm w)
    listed true e = refl
    listed false e = cc

-- A store is opened where no call fails if one of its bundles opens its metadata.
pub IsOpenable-opens :
    (x : External) (recovery : Bytes) (w : World)
    → IsOpenable x recovery w.disk
    → (exported : Bytes) × (open_identity_for x store_root recovery (calm w)
        ≡ (ok exported, calm w))
unfolding open_identity_for file_at
IsOpenable-opens x recovery w o = rw (bundle_paths-calm w o.there) (
    try_listed-Opened x recovery o.meta_raw o.name o.raw w o.bundle o.fits
      (order_bundles (list_dir bootstrap_dir w.disk.entries))
      (order_bundles_complete o.name _ o.named
        (find_entry-listed bootstrap_dir o.name w.disk.entries o.bundle))
      o.meta)
