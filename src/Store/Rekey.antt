-- ===== src/Store/Rekey.antt =====
-- internal/store/rekey.go: the rotation of the identity, and the key bundles' own changes.
use angou.Prelude.{ℕ, Bool, true, ◌||◌, ◌==◌, List, [], ◌∷◌, ◌++◌, length, if◌then◌else◌}
use angou.Prelude.{Result, ok, err, no_usable_bundle, not_verified, crypto_error, guard, or_err}
use angou.Prelude.Bytes.{Bytes, bytes, bytes_eq}
use angou.Container.{armor}
use angou.Envelope.{Envelope}
use angou.External.{External}
use angou.PgpCrypto.{parse_private}
use angou.Store.Act
use angou.Store.Act.{Cell, Act}
use angou.Store.BlobId.{name_key_len}
use angou.Store.Bundles.{bundle_paths, read_bundle, identity_opens, new_bundle, unread}
use angou.Store.Core.{Store, write_meta, read_meta}
use angou.Store.Ops.{put_with_origin}
use angou.Store.Scan.{is_folder, blob_file_names, read_all}
use angou.Store.Types.{meta_name, index_name, key_bundle_name, key_bundle_prefix}
use angou.World.{
  Dir, bootstrap_dir, staging_dir, Entry, World, M, pure, fail, lift, try, draw, finally, ◌>>=◌,
  ◌>>◌, read_dir, read_file, stat, rename, remove_if_there, mkdir_all, remove_all,
  write_file_atomic,
}

-- What commitRekey leaves for the swap.
unfoldable pub is_swapped_later : Bytes → Bool
unfolding bytes_eq
is_swapped_later name = bytes_eq name meta_name || bytes_eq name index_name

unfoldable pub move_staged : Dir → Dir → List Entry → M (Unit {0})
move_staged staged root [] = pure tt
move_staged staged root (e ∷ es) =
    let rest = move_staged staged root es in
    if is_folder e.node || is_swapped_later e.name
    then rest
    else (rename staged e.name root e.name >> rest)

unfoldable pub superseded_name : Bytes → Bytes
superseded_name fingerprint = key_bundle_prefix ++ (fingerprint ++ bytes ".json")

abbrev pub retain_if : Result (Unit {0}) → Bytes → M (Unit {0})
retain_if (ok u) name = rename bootstrap_dir key_bundle_name bootstrap_dir name
retain_if (err e) name = pure tt

-- The current bundle goes under another name, if there is one.
unfoldable pub retain_bundle : Bytes → M (Unit {0})
retain_bundle name = do found ← try (stat bootstrap_dir key_bundle_name); retain_if found name

-- The new bundle, the metadata and the index.
unfoldable pub swap : (ℕ → Bytes) → Dir → Dir → Bytes → M (Unit {0})
swap digits staged root bundle = do
  write_file_atomic digits bootstrap_dir key_bundle_name bundle
  rename staged meta_name root meta_name
  rename staged index_name root index_name

unfoldable pub remove_each : Dir → List Bytes → M (Unit {0})
remove_each dir [] = pure tt
remove_each dir (name ∷ names) = remove_if_there dir name >> remove_each dir names

module _ (x : External) where
  unfoldable pub commit_rekey : Store x → Dir → Bytes → List Bytes → M (Unit {0})
  commit_rekey s staged bundle old_names = do
    entries ← read_dir staged
    move_staged staged s.root entries
    retain_bundle (superseded_name (x.fingerprint s.identity))
    swap x.temp_digits staged s.root bundle
    remove_each s.root old_names

  unfoldable pub verify_staged : Dir → Bytes → ℕ → M (Unit {0})
  verify_staged root exported want = do
    identity ← lift (parse_private x exported)
    check ← read_meta x (unread x root identity)
    blobs ← read_all x check
    lift (guard (length blobs == want) not_verified)

  unfoldable pub put_all : List Envelope → Act x (Unit {0})
  put_all [] = Act.pure tt
  put_all (env ∷ envs) =
      Act.◌>>◌
        (Act.◌>>=◌
          (put_with_origin x env.path env.content env.mode env.mtime env.mime env.origin armor)
          (λ id. Act.pure tt))
        (put_all envs)

  -- The staged store's metadata, once its blobs are there.
  abbrev pub finish_staging : Result (Unit {0}) × Cell x → Result (Store x) × World
  finish_staging (ok u, c) = (write_meta x c.store >> pure c.store) c.world
  finish_staging (err e, c) = (err e, c.world)

  unfoldable pub fill_staging : Store x → List Envelope → M (Store x)
  fill_staging staged envs w = finish_staging (put_all envs (record { store = staged; world = w }))

  abbrev pub staged_store : Store x → x.Entity → Bytes → Store x
  staged_store s identity name_key = record {
    root = staging_dir;
    identity = identity;
    meta = record (s.meta) { name_key = name_key };
    index = [];
    index_trusted = true;
    skipped_on_reindex = [];
    unreadable_on_reindex = [];
  }

  pub record RekeyResult : Type 0 where
    pub old_fingerprint : Bytes
    pub new_fingerprint : Bytes
    pub blobs : ℕ
    pub old_blob_names : List Bytes

  -- Everything that is discarded if it fails: the staged store, verified, and the bundle.
  unfoldable pub stage : Store x → List Envelope → Bytes → M (Store x × Bytes)
  stage empty existing recovery = do
    staged ← fill_staging empty existing
    exported ← lift (or_err (x.serialize_private staged.identity) crypto_error)
    bundle ← new_bundle x exported recovery
    verify_staged staged.root exported (length existing)
    pure (staged, x.encode_bundle bundle)

  -- RekeyIdentity behind MkdirAll, but for the deferred RemoveAll.
  unfoldable pub rekey_staged :
      Store x → Store x → List Envelope → Bytes → M (Store x × RekeyResult)
  rekey_staged s empty existing recovery = do
    (staged, bundle) ← stage empty existing recovery
    old_names ← blob_file_names x s
    commit_rekey s staged.root bundle old_names
    pure (
      staged,
      record {
        old_fingerprint = x.fingerprint s.identity;
        new_fingerprint = x.fingerprint staged.identity;
        blobs = length existing;
        old_blob_names = old_names;
      },
    )

  unfoldable pub rekey : Store x → Bytes → M (Store x × RekeyResult)
  rekey s recovery = do
    existing ← read_all x s
    seed ← draw
    identity ← lift (or_err (x.new_entity seed) crypto_error)
    key ← draw
    mkdir_all staging_dir
    finally (rekey_staged s (staged_store s identity (x.random name_key_len key)) existing recovery)
        (remove_all staging_dir)

  -- The fields of the store are assigned at the very end.
  abbrev pub adopt : Store x → Store x → Store x
  adopt s staged = record s {
    identity = staged.identity;
    meta = staged.meta;
    index = staged.index;
    index_trusted = true;
  }

  abbrev pub adopt_result :
      Store x → Result (Store x × RekeyResult) × World → Result RekeyResult × Cell x
  adopt_result s (ok (staged, result), w) =
      (ok result, record { store = adopt s staged; world = w })
  adopt_result s (err e, w) = (err e, record { store = s; world = w })

  unfoldable pub rekey_identity : Bytes → Act x RekeyResult
  rekey_identity recovery c = adopt_result c.store (rekey c.store recovery c.world)

  -- The switch of PruneSupersededBundles on what a bundle gave.
  abbrev pub keep_or : Bytes → Bytes → Result Bytes → M Bytes → M Bytes
  keep_or meta_raw name (err e) rest = rest
  keep_or meta_raw name (ok exported) rest =
      if identity_opens x exported meta_raw then pure name else rest

  unfoldable pub find_keep : Bytes → Bytes → List Bytes → M Bytes
  find_keep recovery meta_raw [] = fail no_usable_bundle
  find_keep recovery meta_raw (name ∷ names) = do
    outcome ← try (read_bundle x recovery name)
    keep_or meta_raw name outcome (find_keep recovery meta_raw names)

-- The bundle that works takes the current name.
unfoldable pub promote : Bytes → M (Unit {0})
unfolding bytes_eq
promote keep =
    if bytes_eq keep key_bundle_name
    then pure tt
    else (remove_if_there bootstrap_dir key_bundle_name
        >> rename bootstrap_dir keep bootstrap_dir key_bundle_name)

unfoldable pub remove_others : List Bytes → M (Unit {0})
unfolding bytes_eq
remove_others [] = pure tt
remove_others (name ∷ names) =
    let rest = remove_others names in
    if bytes_eq name key_bundle_name then rest else (remove_if_there bootstrap_dir name >> rest)

module _ (x : External) where
  unfoldable pub prune_superseded : Dir → Bytes → M (Unit {0})
  prune_superseded root recovery = do
    names ← bundle_paths
    meta_raw ← read_file root meta_name
    keep ← find_keep x recovery meta_raw names
    promote keep
    remove_others names

  unfoldable pub rewrap_recovery : Store x → Bytes → M (Unit {0})
  rewrap_recovery s new_recovery = do
    exported ← lift (or_err (x.serialize_private s.identity) crypto_error)
    bundle ← new_bundle x exported new_recovery
    write_file_atomic x.temp_digits bootstrap_dir key_bundle_name (x.encode_bundle bundle)
    prune_superseded s.root new_recovery
