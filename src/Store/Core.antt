-- ===== src/Store/Core.antt =====
-- internal/store/store.go: an opened store, its containers, its metadata and index files, and
-- retrieval.
use angou.Prelude.{
  ℕ, Bool, true, false, not, ◌&&◌, ◌||◌, Option, none, some, List, [], ◌∷◌, ◌++◌, ◌+◌, ◌==◌, length,
  if◌then◌else◌,
}
use angou.Prelude.{
  Result, ok, err, Error, not_exist, not_a_store, no_such_path, name_binding, parse_error, or_err,
  guard,
}
use angou.Prelude
use angou.Prelude.Bytes.{Bytes, bytes_eq}
use angou.Container
use angou.Container.{Encoding, armor, extension}
use angou.Envelope
use angou.Envelope.{Envelope}
use angou.External.{External}
use angou.PgpCrypto
use angou.Store.LogicalPath.{normalize_path}
use angou.Store.BlobId.{blob_id, name_key_len}
use angou.Store.Types.{Meta, Index, meta_name, index_name}
use angou.World.{Dir, M, pure, lift, try, draw, ◌>>=◌, read_file, write_file_atomic}

pub record Store (x : External) : Type 0 where
  pub root : Dir
  pub identity : x.Entity
  pub meta : Meta
  pub index : Index
  pub index_trusted : Bool
  pub skipped_on_reindex : List Bytes
  pub unreadable_on_reindex : List Bytes

module _ (x : External) where
  unfoldable pub is_armor : Encoding → Bool
  unfolding bytes_eq armor
  is_armor enc = bytes_eq enc armor

  unfoldable pub seal_container : x.Entity → Bytes → Encoding → M Bytes
  seal_container identity plaintext enc = do
    seed ← draw
    payload ← lift (PgpCrypto.seal x identity plaintext (is_armor enc) seed)
    lift (Container.marshal (record { encoding = enc; payload = payload }))

  unfoldable pub open_container : x.Entity → Bytes → Result Bytes
  open_container identity raw =
      Prelude.◌>>=◌ (Container.unmarshal raw)
        (λ blob. PgpCrypto.open_payload x identity blob.payload (is_armor blob.encoding))

  unfoldable pub write_meta : Store x → M (Unit {0})
  write_meta s = do
    blob ← seal_container s.identity (x.encode_meta s.meta) armor
    write_file_atomic x.temp_digits s.root meta_name blob

  unfoldable pub write_index : Store x → M (Unit {0})
  write_index s = do
    blob ← seal_container s.identity (x.encode_index s.index) armor
    write_file_atomic x.temp_digits s.root index_name blob

  -- os.IsNotExist(err) is told apart, and any other error is passed on.
  abbrev pub or_missing : Error → Result Bytes → Result Bytes
  or_missing e (ok b) = ok b
  or_missing e (err not_exist) = err e
  or_missing e (err other) = err other

  -- The metadata that a raw container holds.
  unfoldable pub parse_meta : x.Entity → Bytes → Result Meta
  parse_meta identity raw = Prelude.◌>>=◌ (open_container identity raw) (λ plaintext.
      Prelude.◌>>=◌ (or_err (x.decode_meta plaintext) parse_error)
        (λ meta. Prelude.◌>>◌ (guard (length meta.name_key == name_key_len) not_a_store) (ok meta)))

  unfoldable pub read_meta : Store x → M (Store x)
  read_meta s = do
    result ← try (read_file s.root meta_name)
    raw ← lift (or_missing not_a_store result)
    meta ← lift (parse_meta s.identity raw)
    pure (record s { meta = meta })

  -- What a raw index file gives, if it opens and parses.
  unfoldable pub parse_index : x.Entity → Result Bytes → Option Index
  parse_index identity (err e) = none
  parse_index identity (ok raw) = elim (open_container identity raw) [
    | ok plaintext ↦ x.decode_index plaintext
    | err e ↦ none
  ]

  abbrev with_index : Store x → Option Index → Store x
  with_index s none = record s { index = []; index_trusted = false }
  with_index s (some index) = record s { index = index; index_trusted = true }

  -- Every failure is a cache miss.
  unfoldable pub read_index_best_effort : Store x → M (Store x)
  read_index_best_effort s = do
    result ← try (read_file s.root index_name)
    pure (with_index s (parse_index s.identity result))

  unfoldable pub store_blob_id : Store x → Bytes → Result Bytes
  store_blob_id s path = blob_id x.nfc x.hmac_sha256 s.meta.name_key path

  unfoldable pub blob_path : Bytes → Bytes
  blob_path id = id ++ extension

  -- The checks on a blob's bytes: the container, the signature, the envelope, and that the name is
  -- the one that the envelope's path addresses.
  unfoldable pub check_blob : Store x → Bytes → Bytes → Result Envelope
  check_blob s id raw = Prelude.◌>>=◌ (open_container s.identity raw) (λ plaintext.
      Prelude.◌>>=◌ (Envelope.unmarshal x.sha256 x.decode_envelope plaintext) (λ env.
        Prelude.◌>>=◌ (store_blob_id s env.path)
          (λ want. Prelude.◌>>◌ (guard (bytes_eq want id) name_binding) (ok env))))

  unfoldable pub read_blob : Store x → Bytes → M Envelope
  read_blob s id = do
    result ← try (read_file s.root (blob_path id))
    raw ← lift (or_missing no_such_path result)
    lift (check_blob s id raw)

  unfoldable pub get : Store x → Bytes → M Envelope
  get s logical_path = do
    normalized ← lift (normalize_path x.nfc logical_path)
    id ← lift (store_blob_id s normalized)
    read_blob s id
