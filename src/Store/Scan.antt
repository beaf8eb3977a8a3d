-- ===== src/Store/Scan.antt =====
-- internal/store: the passes over the files of a store. Reindex of store.go, and blobFileNames,
-- readAll, PruneOrphans and OldKeyOpensAnything of rekey.go.
use angou.Prelude.{Bool, true, false, not, ◌||◌, List, [], ◌∷◌, ◌++◌, if◌then◌else◌}
use angou.Prelude.{Result, ok, err, name_binding}
use angou.Prelude.Bytes.{Bytes, bytes_eq, has_suffix, trim_suffix}
use angou.Container.{extension}
use angou.Envelope.{Envelope}
use angou.External.{External}
use angou.PgpCrypto.{parse_private}
use angou.Store.Act.{Cell, Act}
use angou.Store.Act
use angou.Store.BlobId.{looks_like_blob_id}
use angou.Store.Core.{Store, open_container, read_blob, write_index}
use angou.Store.Ops.{index_insert}
use angou.Store.Types.{Index, meta_name, index_name, entry_from_envelope}
use angou.World.{
  Dir, Entry, Node, file, folder, M, pure, lift, try, ◌>>=◌, ◌>>◌, read_dir, read_file, remove,
}

abbrev pub is_folder : Node → Bool
is_folder (file content) = false
is_folder folder = true

-- What both passes skip without a word.
unfoldable pub is_passed_over : Entry → Bool
unfolding bytes_eq has_suffix
is_passed_over e =
    is_folder e.node
    || bytes_eq e.name meta_name
    || bytes_eq e.name index_name
    || not (has_suffix e.name extension)

abbrev pub id_of : Bytes → Bytes
id_of name = trim_suffix name extension

unfoldable pub blob_names : List Entry → List Bytes
blob_names [] = []
blob_names (e ∷ es) =
    let rest = blob_names es in
    if is_passed_over e
    then rest
    else if looks_like_blob_id (id_of e.name)
    then e.name ∷ rest
    else rest

-- What Reindex has gathered.
pub record Rebuilt : Type 0 where
  pub index : Index
  pub skipped : List Bytes
  pub unreadable : List Bytes

module _ (x : External) where
  unfoldable pub blob_file_names : Store x → M (List Bytes)
  unfolding blob_names
  blob_file_names s = do entries ← read_dir s.root; pure (blob_names entries)

  unfoldable pub read_each : Store x → List Bytes → M (List Envelope)
  read_each s [] = pure []
  read_each s (name ∷ names) = do
    env ← read_blob x s (id_of name)
    rest ← read_each s names
    pure (env ∷ rest)

  unfoldable pub read_all : Store x → M (List Envelope)
  read_all s = do names ← blob_file_names s; read_each s names

  -- The switch on what readBlob returned: only a blob under another's name ends the rebuild.
  unfoldable pub file_blob : Bytes → Result Envelope → Rebuilt → Result Rebuilt
  file_blob name (ok env) r =
      ok (record r { index = index_insert (id_of name) (entry_from_envelope env) r.index })
  file_blob name (err name_binding) r = err name_binding
  file_blob name (err e) r = ok (record r { unreadable = r.unreadable ++ (name ∷ []) })

  unfoldable pub reindex_file : Store x → Bytes → Rebuilt → M Rebuilt
  reindex_file s name r = do
    outcome ← try (read_blob x s (id_of name))
    lift (file_blob name outcome r)

  unfoldable pub reindex_entry : Store x → Entry → Rebuilt → M Rebuilt
  reindex_entry s e r =
      if is_passed_over e
      then pure r
      else if looks_like_blob_id (id_of e.name)
      then reindex_file s e.name r
      else pure (record r { skipped = r.skipped ++ (e.name ∷ []) })

  unfoldable pub reindex_entries : Store x → List Entry → Rebuilt → M Rebuilt
  reindex_entries s [] r = pure r
  reindex_entries s (e ∷ es) r = do r' ← reindex_entry s e r; reindex_entries s es r'

  unfoldable pub rebuild : Store x → M Rebuilt
  rebuild s = do
    entries ← read_dir s.root
    reindex_entries s entries (record { index = []; skipped = []; unreadable = [] })

  abbrev pub with_rebuilt : Rebuilt → Store x → Store x
  with_rebuilt r s = record s {
    index = r.index;
    index_trusted = true;
    skipped_on_reindex = r.skipped;
    unreadable_on_reindex = r.unreadable;
  }

  unfoldable pub reindex : Act x (Unit {0})
  reindex =
      Act.◌>>=◌ (Act.reads (rebuild))
        (λ r. Act.◌>>◌ (Act.modify (with_rebuilt r)) (Act.reads (λ s. write_index x s)))

  -- What PruneOrphans has removed, and what it has found misnamed. Of the lists that it returns
  -- together with an error nothing is kept here.
  pub record Pruned : Type 0 where
    pub removed : List Bytes
    pub misnamed : List Bytes

  -- The switch of PruneOrphans on what readBlob returned.
  unfoldable pub prune_file : Store x → Bytes → Result Envelope → Pruned → M Pruned
  prune_file s name (ok env) p = pure p
  prune_file s name (err name_binding) p = pure (record p { misnamed = p.misnamed ++ (name ∷ []) })
  prune_file s name (err e) p = do
    remove s.root name
    pure (record p { removed = p.removed ++ (name ∷ []) })

  unfoldable pub prune_names : Store x → List Bytes → Pruned → M Pruned
  prune_names s [] p = pure p
  prune_names s (name ∷ names) p = do
    outcome ← try (read_blob x s (id_of name))
    p' ← prune_file s name outcome p
    prune_names s names p'

  unfoldable pub prune_orphans : Store x → M Pruned
  prune_orphans s = do
    names ← blob_file_names s
    prune_names s names (record { removed = []; misnamed = [] })

  abbrev opens : x.Entity → Bytes → Result Bytes → List Bytes
  opens identity name (err e) = []
  opens identity name (ok raw) = elim (open_container x identity raw) [
    | ok plain ↦ name ∷ []
    | err e ↦ []
  ]

  unfoldable pub opened_by : Dir → x.Entity → List Entry → M (List Bytes)
  unfolding has_suffix
  opened_by root identity [] = pure []
  opened_by root identity (e ∷ es) =
      let rest = opened_by root identity es in
      if is_folder e.node || not (has_suffix e.name extension) then rest else (do
        raw ← try (read_file root e.name)
        names ← rest
        pure (opens identity e.name raw ++ names))

  unfoldable pub old_key_opens_anything : Dir → Bytes → M (List Bytes)
  old_key_opens_anything root exported = do
    identity ← lift (parse_private x exported)
    entries ← read_dir root
    opened_by root identity entries
