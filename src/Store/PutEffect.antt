-- ===== src/Store/PutEffect.antt =====
-- What PutWithOrigin leaves on the disk and in the store when it returns no error.
use angou.Prelude.{ℕ, ◌≡◌, refl, sym, ap, ◌∙◌, Bool, true, false, some, arith, ◌||◌}
use angou.Prelude.{Result, ok, ok-injective}
use angou.Prelude.Bytes.{Bytes}
use angou.Prelude.Bytes.Laws.{bytes_eq_refl, bytes_eq_ne}
use mathlib.Core.Path.{subst}
use angou.Container.{Encoding, armor}
use angou.Envelope
use angou.Envelope.{Envelope}
use angou.External.{External}
use angou.Store.Act.{Cell, lift-eq-ok, reads-eq-ok}
use angou.Store.BlobId.Shape.{blob_id-looks_like_blob_id}
use angou.Store.BlobId.{looks_like_blob_id}
use angou.Store.Blobs.{seal_container_lem, world-eq-ok}
use angou.Store.Core.{Store, seal_container, open_container, store_blob_id, blob_path, write_index}
use angou.Store.Lawful.{IsLawful}
use angou.Store.LogicalPath.{normalize_path}
use angou.Store.Names.{blob_path-IsTemp, blob_path-ne-index_name}
use angou.Store.Ops.{put_with_origin, put_envelope, commit_blob, index_insert}
use angou.Store.Types.{Index, index_name, entry_from_envelope}
use angou.World.{World, Disk, Dir, file, file_at, write_file_atomic}
use angou.World.Atomic.{is_temp, Written, AtomicWrite, write_file_atomic_lem}
use angou.World.Files.{same_file, dir_eq_refl}

-- The file with this name in this directory is the index or a temporary file.
abbrev pub is_scratch : Dir → Dir → Bytes → Bool
is_scratch root dir name = is_temp name || same_file root index_name dir name

module _ (x : External) (l : IsLawful x) where
  atomic-Written :
      (dir : Dir) (name content : Bytes) (w : World) {w' : World} {u : Unit {0}}
      → write_file_atomic x.temp_digits dir name content w ≡ (ok u, w')
      → Written dir name content w.disk w'.disk
  atomic-Written dir name content w e =
      subst (λ (p : Result (Unit {0}) × World). AtomicWrite dir name content w.disk p.0 p.1.disk) e
        (write_file_atomic_lem x.temp_digits dir name content w)

  -- The index file is written, and no other but temporary ones.
  pub write_index_lem :
      (s : Store x) (w : World) {w' : World} {u : Unit {0}}
      → write_index x s w ≡ (ok u, w')
      → (dir : Dir) (name : Bytes) → is_scratch s.root dir name ≡ false
      → file_at w'.disk dir name ≡ file_at w.disk dir name
  unfolding write_index
  write_index_lem s w h dir name n =
      let (blob, w1, sealed, h1) =
        world-eq-ok (seal_container x s.identity (x.encode_index s.index) armor w) _ h in
      let (same, opens) =
        seal_container_lem x l s.identity (x.encode_index s.index) armor w sealed in
      let written = atomic-Written s.root index_name blob w1 h1 in
      let here = written.files dir name (ground arith) in
      here ∙ ground (arith, ap (λ (d : Disk). file_at d dir name) same)

  -- The blob's name, its bytes, which open to the envelope, and what is left of the other files.
  pub record PutEffect (c c' : Cell x) (path : Bytes) (env : Bytes → Envelope) (id : Bytes)
      : Type 0 where
    pub normalized : Bytes
    pub blob : Bytes
    pub normalizes : normalize_path x.nfc path ≡ ok normalized
    pub addressed : store_blob_id x c.store normalized ≡ ok id
    pub opens : open_container x c.store.identity blob ≡ ok (x.encode_envelope (env normalized))
    pub written : file_at c'.world.disk c.store.root (blob_path x id) ≡ some (file blob)
    pub others :
        (dir : Dir) (name : Bytes)
        → is_scratch c.store.root dir name ≡ false
        → same_file c.store.root (blob_path x id) dir name ≡ false
        → file_at c'.world.disk dir name ≡ file_at c.world.disk dir name
    pub root : c'.store.root ≡ c.store.root
    pub identity : c'.store.identity ≡ c.store.identity
    pub meta : c'.store.meta ≡ c.store.meta

  pub blob_path-is_scratch :
      (root : Dir) (id : Bytes)
      → looks_like_blob_id id ≡ true
      → is_scratch root root (blob_path x id) ≡ false
  blob_path-is_scratch root id shape = ground (
    arith,
    blob_path-IsTemp x id shape,
    bytes_eq_ne index_name (blob_path x id) (λ e. blob_path-ne-index_name x id shape (sym e)),
  )

  -- The part of PutWithOrigin behind the sealing: the blob is written, then the index.
  record TailEffect (s : Store x) (w w' : World) (id blob : Bytes) : Type 0 where
    written : file_at w'.disk s.root (blob_path x id) ≡ some (file blob)
    others :
        (dir : Dir) (name : Bytes)
        → is_scratch s.root dir name ≡ false
        → same_file s.root (blob_path x id) dir name ≡ false
        → file_at w'.disk dir name ≡ file_at w.disk dir name

  tail_effect :
      (s : Store x) (ix : Index) (w w1 w2 : World) (id blob : Bytes) {u v : Unit {0}}
      → looks_like_blob_id id ≡ true
      → write_file_atomic x.temp_digits s.root (blob_path x id) blob w ≡ (ok u, w1)
      → write_index x (record s { index = ix }) w1 ≡ (ok v, w2)
      → TailEffect s w w2 id blob
  tail_effect s ix w w1 w2 id blob shape put_blob put_index =
      let written = atomic-Written s.root (blob_path x id) blob w put_blob in
      let kept = λ (dir : Dir) (name : Bytes).
        write_index_lem (record s { index = ix }) w1 put_index dir name in
      record {
        written =
            kept s.root (blob_path x id) (blob_path-is_scratch s.root id shape)
            ∙ (written.files s.root (blob_path x id) (blob_path-IsTemp x id shape)
                ∙ ground (arith, dir_eq_refl s.root, bytes_eq_refl (blob_path x id)));
        others =
            λ dir name n o. kept dir name n ∙ (written.files dir name (ground arith) ∙ rw o refl);
      }

  -- What the commit returns: the same name, and the store with a new index.
  commit_blob_lem :
      (s : Store x) (w : World) (id blob : Bytes) (env : Envelope) {id' : Bytes} {c' : Cell x}
      → looks_like_blob_id id ≡ true
      → commit_blob x id env blob (record { store = s; world = w }) ≡ (ok id', c')
      → (ix : Index) × (w' : World) × TailEffect s w w' id blob
        × (id' ≡ id)
        × (c' ≡ record { store = record s { index = ix }; world = w' })
  unfolding commit_blob
  commit_blob_lem s w id blob env {id'} {c'} shape h =
      let (u, w1, put_blob, h1) =
        reads-eq-ok s (write_file_atomic x.temp_digits s.root (blob_path x id) blob w) _ h in
      let ix = index_insert id (entry_from_envelope env) s.index in
      let (v, w2, put_index, h2) =
        reads-eq-ok (record s { index = ix }) (write_index x (record s { index = ix }) w1) _ h1 in
      (
        ix,
        w2,
        tail_effect s ix w w1 w2 id blob shape put_blob put_index,
        sym (ok-injective (ap (λ (p : Result Bytes × Cell x). p.0) h2)),
        sym (ap (λ (p : Result Bytes × Cell x). p.1) h2),
      )

  put_envelope_lem :
      (s : Store x) (w : World) (id : Bytes) (env : Envelope) (enc : Encoding) {id' : Bytes}
      {c' : Cell x}
      → looks_like_blob_id id ≡ true
      → put_envelope x id env enc (record { store = s; world = w }) ≡ (ok id', c')
      → (blob : Bytes) × (ix : Index) × (w1 : World) × (w' : World) × (open_container x s.identity
            blob
          ≡ ok (x.encode_envelope env))
        × (w1.disk ≡ w.disk)
        × TailEffect s w1 w' id blob
        × (id' ≡ id)
        × (c' ≡ record { store = record s { index = ix }; world = w' })
  unfolding put_envelope
  put_envelope_lem s w id env enc shape h =
      let (blob, w1, sealed, h1) =
        reads-eq-ok s (seal_container x s.identity (x.encode_envelope env) enc w) _ h in
      let (same, opens) = seal_container_lem x l s.identity (x.encode_envelope env) enc w sealed in
      let (ix, w2, tail, ids, cells) = commit_blob_lem s w1 id blob env shape h1 in
      (blob, ix, w1, w2, opens, same, tail, ids, cells)

  pub store_blob_id-shape :
      (s : Store x) (path : Bytes) {id : Bytes}
      → store_blob_id x s path ≡ ok id
      → looks_like_blob_id id ≡ true
  unfolding store_blob_id
  store_blob_id-shape s path h =
      blob_id-looks_like_blob_id x.nfc x.hmac_sha256 l.length-hmac s.meta.name_key path h

  put_parts :
      (c : Cell x) (q i blob : Bytes) (ix : Index) (w1 w2 : World) (env : Bytes → Envelope)
      (path : Bytes) {id : Bytes} {c' : Cell x}
      → normalize_path x.nfc path ≡ ok q
      → store_blob_id x c.store q ≡ ok i
      → open_container x c.store.identity blob ≡ ok (x.encode_envelope (env q))
      → w1.disk ≡ c.world.disk
      → TailEffect c.store w1 w2 i blob
      → id ≡ i
      → c' ≡ record { store = record (c.store) { index = ix }; world = w2 }
      → PutEffect c c' path env id
  put_parts c q i blob ix w1 w2 env path {id} {c'} normal addressed opens same tail ids cells =
      record {
        normalized = q;
        blob = blob;
        normalizes = normal;
        addressed = addressed ∙ ap ok (sym ids);
        opens = opens;
        written = rw (ids, cells) tail.written;
        others = λ dir name n o.
            rw cells
              (tail.others dir name n (rw ids at o) ∙ ap (λ (d : Disk). file_at d dir name) same);
        root = ap (λ (k : Cell x). k.store.root) cells;
        identity = ap (λ (k : Cell x). k.store.identity) cells;
        meta = ap (λ (k : Cell x). k.store.meta) cells;
      }

  -- Where PutWithOrigin returns no error, whichever of its calls were refused on the way: the blob
  -- at the path's name opens to the envelope, and nothing but the index and temporary files has
  -- changed beside it.
  pub put_effect :
      (c : Cell x) (path content : Bytes) (mode mtime : ℕ) (mime origin : Bytes) (enc : Encoding)
      {id : Bytes} {c' : Cell x}
      → put_with_origin x path content mode mtime mime origin enc c ≡ (ok id, c')
      → PutEffect c c' path (λ p. Envelope.new x.sha256 p mime mode mtime content origin) id
  unfolding put_with_origin
  put_effect c path content mode mtime mime origin enc {id} {c'} h =
      let (q, normal, h1) = lift-eq-ok (normalize_path x.nfc path) c _ h in
      let (i, addressed, h2) = lift-eq-ok (store_blob_id x c.store q) c _ h1 in
      let (blob, ix, w1, w2, opens, same, tail, ids, cells) =
        put_envelope_lem c.store c.world i (Envelope.new x.sha256 q mime mode mtime content origin)
          enc (store_blob_id-shape c.store q addressed) h2 in
      put_parts c q i blob ix w1 w2 (λ p. Envelope.new x.sha256 p mime mode mtime content origin)
        path normal addressed opens same tail ids cells
