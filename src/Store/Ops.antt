-- ===== src/Store/Ops.antt =====
-- internal/store/store.go: the operations that change a store.
use angou.Prelude.{ℕ, Bool, true, false, not, ◌&&◌, List, [], ◌∷◌, if◌then◌else◌}
use angou.Prelude.{Result, ok, err, not_exist, no_such_path}
use angou.Prelude.Bytes.{Bytes, bytes_eq, bytes_lt, is_empty}
use angou.Container.{Encoding, armor}
use angou.Envelope
use angou.Envelope.{Envelope}
use angou.External.{External}
use angou.Store.LogicalPath.{normalize_path}
use angou.Store.Types.{IndexEntry, Index, entry_from_envelope}
use angou.Store.Core.{Store, seal_container, write_meta, write_index, store_blob_id, blob_path, get}
use angou.Store.Act.{Act, pure, lift, ◌>>=◌, ◌>>◌, reads, modify}
use angou.World.{try, write_file_atomic, remove}

unfoldable pub index_insert : Bytes → IndexEntry → Index → Index
unfolding bytes_eq
index_insert id e [] = (id, e) ∷ []
index_insert id e ((j, f) ∷ rest) =
    let later = (j, f) ∷ index_insert id e rest in if bytes_eq j id then (id, e) ∷ rest else later

unfoldable pub index_delete : Bytes → Index → Index
unfolding bytes_eq
index_delete id [] = []
index_delete id ((j, f) ∷ rest) =
    let later = index_delete id rest in if bytes_eq j id then later else (j, f) ∷ later

-- Insertion by path, for List's sort.
unfoldable pub insert_by_path : IndexEntry → List IndexEntry → List IndexEntry
unfolding bytes_lt
insert_by_path e [] = e ∷ []
insert_by_path e (f ∷ rest) =
    let later = f ∷ insert_by_path e rest in if bytes_lt f.path e.path then later else e ∷ f ∷ rest

unfoldable pub sort_by_path : List IndexEntry → List IndexEntry
unfolding insert_by_path
sort_by_path [] = []
sort_by_path (e ∷ rest) = insert_by_path e (sort_by_path rest)

unfoldable pub index_values : Index → List IndexEntry
index_values [] = []
index_values ((id, e) ∷ rest) = e ∷ index_values rest

module _ (x : External) where
  -- List
  unfoldable pub list_entries : Store x → List IndexEntry
  unfolding sort_by_path index_values
  list_entries s = sort_by_path (index_values s.index)

  -- The last steps of PutWithOrigin: the blob's file, then the index.
  unfoldable pub commit_blob : Bytes → Envelope → Bytes → Act x Bytes
  commit_blob id env blob = do
    reads (λ s. write_file_atomic x.temp_digits s.root (blob_path x id) blob)
    modify (λ s. record s { index = index_insert id (entry_from_envelope env) s.index })
    reads (λ s. write_index x s)
    pure id

  unfoldable pub put_envelope : Bytes → Envelope → Encoding → Act x Bytes
  put_envelope id env enc = do
    blob ← reads (λ s. seal_container x s.identity (x.encode_envelope env) enc)
    commit_blob id env blob

  unfoldable pub put_with_origin : Bytes → Bytes → ℕ → ℕ → Bytes → Bytes → Encoding → Act x Bytes
  put_with_origin logical_path content mode mtime mime origin enc = do
    normalized ← lift (normalize_path x.nfc logical_path)
    id ← (λ c. (store_blob_id x c.store normalized, c))
    put_envelope id (Envelope.new x.sha256 normalized mime mode mtime content origin) enc

  unfoldable pub put : Bytes → Bytes → ℕ → ℕ → Bytes → Encoding → Act x Bytes
  unfolding put_with_origin
  put logical_path content mode mtime mime enc =
      put_with_origin logical_path content mode mtime mime [] enc

  abbrev pub missing_path : Result (Unit {0}) → Result (Unit {0})
  missing_path (ok u) = ok u
  missing_path (err not_exist) = err no_such_path
  missing_path (err e) = err e

  -- Remove, behind os.Remove.
  unfoldable pub forget_blob : Bytes → Result (Unit {0}) → Act x (Unit {0})
  forget_blob id removed = do
    lift (missing_path removed)
    modify (λ s. record s { index = index_delete id s.index })
    reads (λ s. write_index x s)

  unfoldable pub remove_id : Bytes → Act x (Unit {0})
  remove_id id = do
    removed ← reads (λ s. try (remove s.root (blob_path x id)))
    forget_blob id removed

  unfoldable pub remove_path : Bytes → Act x (Unit {0})
  remove_path logical_path = do
    normalized ← lift (normalize_path x.nfc logical_path)
    id ← (λ c. (store_blob_id x c.store normalized, c))
    remove_id id

  -- Move, behind the Get.
  unfoldable pub put_moved : Envelope → Bytes → Act x Bytes
  put_moved env to = do
    normalized ← lift (normalize_path x.nfc to)
    put_with_origin normalized env.content env.mode env.mtime env.mime env.origin armor

  unfoldable pub move : Bytes → Bytes → Act x (Unit {0})
  move from to = do env ← reads (λ s. get x s from); put_moved env to; remove_path from

  unfoldable pub set_bootstrap_sha256 : Bytes → Act x (Unit {0})
  set_bootstrap_sha256 digest = do
    modify (λ s. record s { meta = record (s.meta) { bootstrap_sha256 = digest } })
    reads (λ s. write_meta x s)

  unfoldable pub set_bootstrap_ps1_sha256 : Bytes → Act x (Unit {0})
  set_bootstrap_ps1_sha256 digest = do
    modify (λ s. record s { meta = record (s.meta) { bootstrap_ps1_sha256 = digest } })
    reads (λ s. write_meta x s)

  -- `newer` returns a number that is negative, zero or positive; here whether it is positive.
  unfoldable pub raise_version_floor : Bytes → (Bytes → Bytes → Bool) → Act x Bool
  raise_version_floor version newer c =
      let raised = (do
        modify (λ s. record s { meta = record (s.meta) { version_floor = version } })
        reads (λ s. write_meta x s)
        pure true) in
      if not (is_empty c.store.meta.version_floor) && not (newer version c.store.meta.version_floor)
      then (ok false, c)
      else raised c
