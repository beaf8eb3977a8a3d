-- ===== src/Store/Frame.antt =====
-- Get of one path after a change at another, and after a Remove or a Move.
use angou.Prelude.{ℕ, ◌≡◌, refl, sym, ◌∙◌, ◌≢◌, false, Option, none, some, ◌++◌, arith}
use angou.Prelude.{Result, ok, err, Error, no_such_path}
use angou.Prelude.Bytes.{Bytes}
use angou.Prelude.Bytes.Laws.{bytes_eq_ne}
use mathlib.Core.List.{append_cancel_right}
use angou.Container.{Encoding, extension}
use angou.Envelope.{Envelope}
use angou.External.{External}
use angou.Store.Act.{Cell}
use angou.Store.Core.{Store, store_blob_id, blob_path, read_blob, check_blob, get}
use angou.Store.GetPut.{calm, get-calm, same_id}
use angou.Store.Lawful.{IsLawful}
use angou.Store.LogicalPath.{normalize_path}
use angou.Store.Ops.{put_with_origin, remove_path}
use angou.Store.PutEffect.{put_effect, store_blob_id-shape, blob_path-is_scratch}
use angou.Store.RemoveEffect.{remove_effect}
use angou.World.{World, Dir, Node, file, file_at, read_file}
use angou.World.Files.{same_file}

module _ (x : External) (l : IsLawful x) where
  check_blob-same :
      (s s' : Store x) (id raw : Bytes)
      → s'.identity ≡ s.identity
      → s'.meta ≡ s.meta
      → check_blob x s' id raw ≡ check_blob x s id raw
  unfolding check_blob store_blob_id
  check_blob-same s s' id raw e m = rw (e, m) refl

  -- What a read of a blob returns where no call fails, from the file at its name.
  abbrev from_file : Store x → Bytes → Option Node → Result Envelope
  from_file s id none = err no_such_path
  from_file s id (some (file raw)) = check_blob x s id raw
  from_file s id (some Node.folder) = err Error.io_error

  read_calm :
      (s : Store x) (id : Bytes) (w : World) (o : Option Node)
      → file_at w.disk s.root (blob_path x id) ≡ o
      → (read_blob x s id (calm w)).0 ≡ from_file s id o
  unfolding read_blob read_file
  read_calm s id w none e = rw e refl
  read_calm s id w (some (file raw)) e = rw e refl
  read_calm s id w (some Node.folder) e = rw e refl

  from_file-same :
      (s s' : Store x) (id : Bytes) (o : Option Node)
      → s'.identity ≡ s.identity
      → s'.meta ≡ s.meta
      → from_file s' id o ≡ from_file s id o
  from_file-same s s' id none e m = refl
  from_file-same s s' id (some (file raw)) e m = check_blob-same s s' id raw e m
  from_file-same s s' id (some Node.folder) e m = refl

  pub get_same :
      (s s' : Store x) (w w' : World) (path q id : Bytes)
      → normalize_path x.nfc path ≡ ok q
      → store_blob_id x s q ≡ ok id
      → s'.root ≡ s.root
      → s'.identity ≡ s.identity
      → s'.meta ≡ s.meta
      → file_at w'.disk s.root (blob_path x id) ≡ file_at w.disk s.root (blob_path x id)
      → (get x s' path (calm w')).0 ≡ (get x s path (calm w)).0
  get_same s s' w w' path q id normal addressed er ei em same =
      get-calm x s' path q id w' normal (same_id x s s' q em ∙ addressed)
      ∙ (read_calm s' id w' (file_at w.disk s.root (blob_path x id)) (rw er same)
          ∙ (from_file-same s s' id (file_at w.disk s.root (blob_path x id)) ei em
              ∙ (sym (read_calm s id w (file_at w.disk s.root (blob_path x id)) refl)
                  ∙ sym (get-calm x s path q id w normal addressed))))

  other_file :
      (root : Dir) (id id' : Bytes)
      → id ≢ id'
      → same_file root (blob_path x id) root (blob_path x id') ≡ false
  unfolding blob_path
  other_file root id id' ne = ground (
    arith,
    bytes_eq_ne (id ++ extension) (id' ++ extension)
        (λ e. ne (append_cancel_right id id' extension e)),
  )

  -- A Put of one path changes nothing of what Get says of a path with another name.
  pub get-put_ne :
      (c : Cell x) (path content : Bytes) (mode mtime : ℕ) (mime origin : Bytes) (enc : Encoding)
      (path' q' id' : Bytes) {id : Bytes} {c' : Cell x}
      → put_with_origin x path content mode mtime mime origin enc c ≡ (ok id, c')
      → normalize_path x.nfc path' ≡ ok q'
      → store_blob_id x c.store q' ≡ ok id'
      → id ≢ id'
      → (get x c'.store path' (calm c'.world)).0 ≡ (get x c.store path' (calm c.world)).0
  get-put_ne c path content mode mtime mime origin enc path' q' id' {id} {c'} h normal addressed
        ne =
      let p = put_effect x l c path content mode mtime mime origin enc h in
      get_same c.store c'.store c.world c'.world path' q' id' normal addressed p.root p.identity
        p.meta
        (p.others c.store.root (blob_path x id')
          (blob_path-is_scratch x l c.store.root id' (store_blob_id-shape x l c.store q' addressed))
          (other_file c.store.root id id' ne))

  -- After a Remove that returned no error, Get of the path reports that it is not in the store, if
  -- none of its own calls fails.
  pub get-remove :
      (c : Cell x) (path q id : Bytes) {u : Unit {0}} {c' : Cell x}
      → remove_path x path c ≡ (ok u, c')
      → normalize_path x.nfc path ≡ ok q
      → store_blob_id x c.store q ≡ ok id
      → (get x c'.store path (calm c'.world)).0 ≡ err no_such_path
  get-remove c path q id {u} {c'} h normal addressed =
      let r = remove_effect x l c path q normal addressed h in
      get-calm x c'.store path q id c'.world normal
        (same_id x c.store c'.store q r.meta ∙ addressed)
      ∙ read_calm c'.store id c'.world none (rw r.root r.gone)

  -- A Remove that returned no error changes nothing of what Get says of a path with another name.
  pub get-remove_ne :
      (c : Cell x) (path q id : Bytes) {u : Unit {0}} {c' : Cell x}
      → remove_path x path c ≡ (ok u, c')
      → normalize_path x.nfc path ≡ ok q
      → store_blob_id x c.store q ≡ ok id
      → (path' q' id' : Bytes) → normalize_path x.nfc path' ≡ ok q'
      → store_blob_id x c.store q' ≡ ok id'
      → id ≢ id'
      → (get x c'.store path' (calm c'.world)).0 ≡ (get x c.store path' (calm c.world)).0
  get-remove_ne c path q id {u} {c'} h normal addressed path' q' id' normal' addressed' ne =
      let r = remove_effect x l c path q normal addressed h in
      get_same c.store c'.store c.world c'.world path' q' id' normal' addressed' r.root r.identity
        r.meta
        (r.others c.store.root (blob_path x id')
          (blob_path-is_scratch x l c.store.root id'
            (store_blob_id-shape x l c.store q' addressed'))
          (other_file c.store.root id id' ne))
