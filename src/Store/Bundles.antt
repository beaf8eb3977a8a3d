-- ===== src/Store/Bundles.antt =====
-- internal/store/bundles.go, and Init and Open of store.go.
use angou.Prelude.{
  ℕ, Bool, true, false, not, ◌&&◌, Option, none, some, List, [], ◌∷◌, ◌++◌, if◌then◌else◌,
}
use angou.Prelude.{
  Result, ok, err, Error, not_exist, not_a_store, no_usable_bundle, already_exists, crypto_error,
  parse_error, or_err,
}
use angou.Prelude
use angou.Prelude.Bytes.{Bytes, bytes, bytes_eq, bytes_lt, has_prefix, has_suffix}
use angou.External.{External}
use angou.KeyBundle
use angou.PgpCrypto.{parse_private}
use angou.Store.BlobId.{name_key_len}
use angou.Store.Core.{
  Store, open_container, write_meta, write_index, read_meta, read_index_best_effort,
}
use angou.Store.Types.{meta_name, key_bundle_name, key_bundle_prefix}
use angou.World.{
  Dir, Entry, bootstrap_dir, M, pure, fail, lift, try, draw, ◌>>=◌, ◌>>◌, read_dir, read_file, stat,
  mkdir_all, write_file_atomic,
}

-- sort.Reverse: the greatest name first.
unfoldable pub insert_descending : Bytes → List Bytes → List Bytes
unfolding bytes_lt
insert_descending n [] = n ∷ []
insert_descending n (m ∷ ms) =
    let later = m ∷ insert_descending n ms in if bytes_lt n m then later else n ∷ m ∷ ms

abbrev pub is_superseded : Bytes → Bool
is_superseded name = has_prefix name key_bundle_prefix && has_suffix name (bytes ".json")

unfoldable pub superseded_names : List Entry → List Bytes
superseded_names [] = []
superseded_names (e ∷ es) =
    let rest = superseded_names es in
    if bytes_eq e.name key_bundle_name
    then rest
    else if is_superseded e.name
    then insert_descending e.name rest
    else rest

unfoldable pub has_current : List Entry → Bool
has_current [] = false
has_current (e ∷ es) =
    let rest = has_current es in if bytes_eq e.name key_bundle_name then true else rest

-- The bundles of a directory, the current one first.
unfoldable pub order_bundles : List Entry → List Bytes
order_bundles es =
    if has_current es then key_bundle_name ∷ superseded_names es else superseded_names es

abbrev pub or_no_store : {A : Type 0} → Result A → Result A
or_no_store (ok a) = ok a
or_no_store (err not_exist) = err not_a_store
or_no_store (err e) = err e

unfoldable pub bundle_paths : M (List Bytes)
unfolding order_bundles
bundle_paths = do
  result ← try (read_dir bootstrap_dir)
  entries ← lift (or_no_store result)
  pure (order_bundles entries)

module _ (x : External) where
  unfoldable pub open_bytes : Bytes → Bytes → Result Bytes
  open_bytes recovery raw =
      Prelude.◌>>=◌ (or_err (x.decode_bundle raw) parse_error)
        (λ b. KeyBundle.open_bundle x.ciphers b recovery)

  unfoldable pub read_bundle : Bytes → Bytes → M Bytes
  read_bundle recovery name = do raw ← read_file bootstrap_dir name; lift (open_bytes recovery raw)

  abbrev succeeded : {A : Type 0} → Result A → Bool
  succeeded (ok a) = true
  succeeded (err e) = false

  unfoldable pub identity_opens : Bytes → Bytes → Bool
  identity_opens exported meta_raw =
      succeeded (Prelude.◌>>=◌ (parse_private x exported) (λ id. open_container x id meta_raw))

  -- Whether a bundle's identity is accepted: there is no metadata to test it on, or it opens it.
  unfoldable pub fits : Result Bytes → Bytes → Bool
  fits (err e) exported = true
  fits (ok meta_raw) exported = identity_opens exported meta_raw

  -- One round of the loop, on what the bundle gave: the answer, or the last error so far.
  abbrev pub round : Result Bytes → Result Bytes → M Bytes → M Bytes
  round meta_raw (err e) rest = rest
  round meta_raw (ok exported) rest = if fits meta_raw exported then pure exported else rest

  abbrev pub last_error : Result Bytes → Error
  last_error (err e) = e
  last_error (ok exported) = no_usable_bundle

  unfoldable pub try_bundles : Bytes → Result Bytes → Error → List Bytes → M Bytes
  try_bundles recovery meta_raw last [] = fail last
  try_bundles recovery meta_raw last (name ∷ names) = do
    outcome ← try (read_bundle recovery name)
    round meta_raw outcome (try_bundles recovery meta_raw (last_error outcome) names)

  unfoldable pub try_listed : Dir → Bytes → List Bytes → M Bytes
  try_listed root recovery [] = fail not_a_store
  try_listed root recovery (name ∷ names) = do
    meta_raw ← try (read_file root meta_name)
    try_bundles recovery meta_raw no_usable_bundle (name ∷ names)

  unfoldable pub open_identity_for : Dir → Bytes → M Bytes
  open_identity_for root recovery = do names ← bundle_paths; try_listed root recovery names

  abbrev carries : Bytes → Result Bytes → M Bytes → M Bytes
  carries fingerprint (err e) rest = rest
  carries fingerprint (ok exported) rest = elim (parse_private x exported) [
    | err e ↦ rest
    | ok id ↦ if bytes_eq (x.fingerprint id) fingerprint then pure exported else rest
  ]

  unfoldable pub find_fingerprint : Bytes → Bytes → List Bytes → M Bytes
  find_fingerprint fingerprint recovery [] = fail no_usable_bundle
  find_fingerprint fingerprint recovery (name ∷ names) = do
    outcome ← try (read_bundle recovery name)
    carries fingerprint outcome (find_fingerprint fingerprint recovery names)

  unfoldable pub export_by_fingerprint : Bytes → Bytes → M Bytes
  export_by_fingerprint fingerprint recovery = do
    names ← bundle_paths
    find_fingerprint fingerprint recovery names

  -- A Store before readMeta.
  abbrev pub unread : Dir → x.Entity → Store x
  unread root identity = record {
    root = root;
    identity = identity;
    meta = record {
      name_key = [];
      bootstrap_sha256 = [];
      bootstrap_ps1_sha256 = [];
      version_floor = [];
    };
    index = [];
    index_trusted = false;
    skipped_on_reindex = [];
    unreadable_on_reindex = [];
  }

  unfoldable pub open_with_exported_identity : Dir → Bytes → M (Store x)
  open_with_exported_identity root exported = do
    identity ← lift (parse_private x exported)
    s ← read_meta x (unread root identity)
    read_index_best_effort x s

  unfoldable pub open_store : Dir → Bytes → M (Store x)
  open_store root recovery = do
    exported ← open_identity_for root recovery
    open_with_exported_identity root exported

  unfoldable pub exists : Dir → M Bool
  exists root = do found ← try (stat root meta_name); pure (succeeded found)

  -- keybundle.Seal with the values that it draws.
  unfoldable pub new_bundle : Bytes → Bytes → M KeyBundle.Bundle
  new_bundle exported recovery = do
    salt ← draw
    key ← draw
    nonce1 ← draw
    nonce2 ← draw
    lift (
        KeyBundle.seal x.ciphers (x.random 16 salt) (x.random 32 key) (x.random 12 nonce1)
          (x.random 12 nonce2) exported recovery)

  -- Init, once the directory is there and holds no store.
  unfoldable pub init_empty : Dir → Bytes → M (Store x)
  init_empty root recovery = do
    seed ← draw
    identity ← lift (or_err (x.new_entity seed) crypto_error)
    exported ← lift (or_err (x.serialize_private identity) crypto_error)
    bundle ← new_bundle exported recovery
    mkdir_all bootstrap_dir
    write_file_atomic x.temp_digits bootstrap_dir key_bundle_name (x.encode_bundle bundle)
    key ← draw
    let s = fresh_store root identity (x.random name_key_len key)
    write_meta x s
    write_index x s
    pure s
    where
      fresh_store : Dir → x.Entity → Bytes → Store x
      fresh_store root identity name_key = record (unread root identity) {
        meta = record {
          name_key = name_key;
          bootstrap_sha256 = [];
          bootstrap_ps1_sha256 = [];
          version_floor = [];
        };
        index_trusted = true;
      }

  unfoldable pub init : Dir → Bytes → M (Store x)
  init root recovery = do
    mkdir_all root
    taken ← exists root
    lift (Prelude.guard (not taken) already_exists)
    init_empty root recovery
