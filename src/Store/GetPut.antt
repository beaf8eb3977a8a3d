-- ===== src/Store/GetPut.antt =====
-- Put, then Get.
use angou.Prelude.{
  ℕ, ◌≡◌, refl, sym, ap, ◌∙◌, ◌≢◌, Bool, true, false, Option, none, some, List, [], ◌∷◌, arith,
  if◌then◌else◌, length,
}
use angou.Prelude
use angou.Prelude.{Result, ok, err, ok-injective, name_binding, guard}
use angou.Prelude.Bytes.{Bytes, bytes_eq}
use angou.Prelude.Bytes.Laws.{bytes_eq_refl}
use angou.Prelude.Bytes.Utf8.{to_valid_utf8}
use angou.Container.{Encoding}
use angou.Envelope
use angou.Envelope.{Envelope}
use angou.Envelope.Laws.{check_of_content}
use angou.External.{External}
use angou.Store.Act.{Cell}
use angou.Store.Blobs.{check_blob-binding}
use angou.Store.Core.{
  Store, open_container, store_blob_id, blob_path, check_blob, read_blob, get, seal_container,
  write_index,
}
use angou.Store.Lawful.{IsLawful, as_json}
use angou.Store.LogicalPath.{normalize_path}
use angou.Store.Ops.{put_with_origin, put_envelope, commit_blob, index_insert}
use angou.Store.Types.{entry_from_envelope}
use angou.Store.PutEffect.{PutEffect, put_effect}
use angou.World.{World, file, file_at, read_file, write_file_atomic}

-- From here on no call fails.
abbrev pub calm : World → World
calm w = record w { schedule = [] }

module _ (x : External) where
  read_calm :
      (s : Store x) (id blob : Bytes) (w : World)
      → file_at w.disk s.root (blob_path x id) ≡ some (file blob)
      → (read_blob x s id (calm w)).0 ≡ check_blob x s id blob
  unfolding read_blob read_file
  read_calm s id blob w at = rw at refl

  pub get-calm :
      (s : Store x) (path q id : Bytes) (w : World)
      → normalize_path x.nfc path ≡ ok q
      → store_blob_id x s q ≡ ok id
      → (get x s path (calm w)).0 ≡ (read_blob x s id (calm w)).0
  unfolding get
  get-calm s path q id w normal addressed = rw (normal, addressed) refl

  -- The name depends on the store by its naming key only.
  pub same_id :
      (s s' : Store x) (q : Bytes) → s'.meta ≡ s.meta → store_blob_id x s' q ≡ store_blob_id x s q
  unfolding store_blob_id
  same_id s s' q e = rw e refl

module _ (x : External) (l : IsLawful x) where
  unmarshal-encode :
      (e : Envelope)
      → e.size ≡ length e.content
      → e.sha256 ≡ Envelope.hex (x.sha256 e.content)
      → Envelope.unmarshal x.sha256 x.decode_envelope (x.encode_envelope e) ≡ ok (as_json e)
  unfolding Envelope.unmarshal
  unmarshal-encode e sized summed =
      rw (l.decode-encode_envelope e) (check_of_content x.sha256 (as_json e) sized summed)

  checked_blob :
      (s : Store x) (e : Envelope) (id blob : Bytes)
      → e.size ≡ length e.content
      → e.sha256 ≡ Envelope.hex (x.sha256 e.content)
      → open_container x s.identity blob ≡ ok (x.encode_envelope e)
      → store_blob_id x s (to_valid_utf8 e.path) ≡ ok id
      → check_blob x s id blob ≡ ok (as_json e)
  unfolding check_blob
  checked_blob s e id blob sized summed opens addressed =
      rw (opens, unmarshal-encode e sized summed, addressed, bytes_eq_refl id) refl

  checked_path :
      (s : Store x) (e : Envelope) (id blob : Bytes) {env : Envelope}
      → e.size ≡ length e.content
      → e.sha256 ≡ Envelope.hex (x.sha256 e.content)
      → open_container x s.identity blob ≡ ok (x.encode_envelope e)
      → check_blob x s id blob ≡ ok env
      → env.path ≡ to_valid_utf8 e.path
  unfolding check_blob
  checked_path s e id blob {env} sized summed opens h =
      let h0 = rw (opens, unmarshal-encode e sized summed) at h in
      let (want, named, h1) = Prelude.>>=-eq-ok (store_blob_id x s (to_valid_utf8 e.path)) _ h0 in
      let (u, same, h2) = Prelude.>>=-eq-ok (guard (bytes_eq want id) name_binding) _ h1 in
      ap (λ (k : Envelope). k.path) (sym (ok-injective h2))

  module _ (c : Cell x) (path content : Bytes) (mode mtime : ℕ) (mime origin : Bytes)
      (enc : Encoding) {id : Bytes} {c' : Cell x}
      (h : put_with_origin x path content mode mtime mime origin enc c ≡ (ok id, c')) where
    -- What Get reads after a Put that returned no error, if none of its own calls fails: the bytes
    -- that the Put wrote, under the checks of readBlob.
    get_checks :
        (p : PutEffect x l c c' path
          (λ q. Envelope.new x.sha256 q mime mode mtime content origin)
          id)
        → (get x c'.store path (calm c'.world)).0 ≡ check_blob x c'.store id p.blob
    get_checks p =
        get-calm x c'.store path p.normalized id c'.world p.normalizes
          (same_id x c.store c'.store p.normalized p.meta ∙ p.addressed)
        ∙ read_calm x c'.store id p.blob c'.world (rw p.root p.written)

    blob_opens :
        (p : PutEffect x l c c' path
          (λ q. Envelope.new x.sha256 q mime mode mtime content origin)
          id)
        (q : Bytes)
        → p.normalized ≡ q
        → open_container x c'.store.identity p.blob
          ≡ ok (x.encode_envelope (Envelope.new x.sha256 q mime mode mtime content origin))
    blob_opens p q e = rw p.identity (
        p.opens
        ∙ ap
            (λ (r : Bytes).
              ok (x.encode_envelope (Envelope.new x.sha256 r mime mode mtime content origin)))
            e)

    put_opens :
        (p : PutEffect x l c c' path
          (λ q. Envelope.new x.sha256 q mime mode mtime content origin)
          id)
        (q : Bytes)
        → p.normalized ≡ q
        → store_blob_id x c'.store (to_valid_utf8 q) ≡ ok id
        → check_blob x c'.store id p.blob
          ≡ ok (as_json (Envelope.new x.sha256 q mime mode mtime content origin))
    unfolding Envelope.new
    put_opens p q e addressed =
        checked_blob c'.store (Envelope.new x.sha256 q mime mode mtime content origin) id p.blob
          refl refl (blob_opens p q e) addressed

    put_path :
        (p : PutEffect x l c c' path
          (λ q. Envelope.new x.sha256 q mime mode mtime content origin)
          id)
        (q : Bytes) {env : Envelope}
        → p.normalized ≡ q
        → check_blob x c'.store id p.blob ≡ ok env
        → env.path ≡ to_valid_utf8 q
    unfolding Envelope.new
    put_path p q e checked =
        checked_path c'.store (Envelope.new x.sha256 q mime mode mtime content origin) id p.blob
          refl refl (blob_opens p q e) checked

    -- After PutWithOrigin has returned no error, Get of the same path, if none of its calls fails,
    -- returns the content, mode and time that were put, under the path's normal form. The MIME type
    -- and the origin come back as encoding/json keeps them. The path's normal form has to be valid
    -- UTF-8.
    pub get-put_with_origin :
        (q : Bytes)
        → normalize_path x.nfc path ≡ ok q
        → to_valid_utf8 q ≡ q
        → (get x c'.store path (calm c'.world)).0
          ≡ ok (as_json (Envelope.new x.sha256 q mime mode mtime content origin))
    get-put_with_origin q normal valid =
        let p = put_effect x l c path content mode mtime mime origin enc h in
        let e : p.normalized ≡ q = ok-injective (sym p.normalizes ∙ normal) in
        get_checks p
        ∙ put_opens p q e (rw valid (same_id x c.store c'.store q p.meta ∙ rw (← e) p.addressed))

    -- A path whose blob name json's reading of it does not have is put where Get does not find it.
    misfiled :
        (q : Bytes) (env : Envelope)
        → normalize_path x.nfc path ≡ ok q
        → store_blob_id x c.store (to_valid_utf8 q) ≢ store_blob_id x c.store q
        → (get x c'.store path (calm c'.world)).0 ≢ ok env
    misfiled q env normal differs read =
        let p = put_effect x l c path content mode mtime mime origin enc h in
        let e : p.normalized ≡ q = ok-injective (sym p.normalizes ∙ normal) in
        let checked : check_blob x c'.store id p.blob ≡ ok env = sym (get_checks p) ∙ read in
        let here = check_blob-binding x c'.store id p.blob checked in
        let there = ap (λ (r : Bytes). store_blob_id x c'.store r) (put_path p q e checked) in
        differs (
          sym (same_id x c.store c'.store (to_valid_utf8 q) p.meta)
          ∙ (sym there
              ∙ (here ∙ sym (ap (λ (r : Bytes). store_blob_id x c.store r) (sym e) ∙ p.addressed))))

  module _ (c : Cell x) (path content : Bytes) (mode mtime : ℕ) (mime origin : Bytes)
      (enc : Encoding) (q id blob : Bytes) (w1 w2 w3 : World) where
    abbrev pub envelope_put : Envelope
    envelope_put = Envelope.new x.sha256 q mime mode mtime content origin

    -- The store with the entry of the envelope, and the world behind the last write.
    abbrev pub cell_put : Cell x
    cell_put = record {
      store = record (c.store) {
        index = index_insert id (entry_from_envelope envelope_put) c.store.index;
      };
      world = w3;
    }

    -- What PutWithOrigin calls, none of which fails: the sealing and the two writes.
    pub record Succeeds : Type 0 where
      pub normal : normalize_path x.nfc path ≡ ok q
      pub addressed : store_blob_id x c.store q ≡ ok id
      pub sealed :
          seal_container x c.store.identity (x.encode_envelope envelope_put) enc c.world
          ≡ (ok blob, w1)
      pub written :
          write_file_atomic x.temp_digits c.store.root (blob_path x id) blob w1 ≡ (ok tt, w2)
      pub indexed : write_index x cell_put.store w2 ≡ (ok tt, w3)

    put_accepts :
        Succeeds → put_with_origin x path content mode mtime mime origin enc c ≡ (ok id, cell_put)
    unfolding put_with_origin put_envelope commit_blob
    put_accepts s = rw (s.normal, s.addressed, s.sealed, s.written, s.indexed) refl

    -- The path's normal form is not valid UTF-8, and what encoding/json makes of it addresses another
    -- blob. Where the sealing of the envelope and the writes of the blob and of the index return no
    -- error, neither does PutWithOrigin; and then Get of the same path returns an error, though none
    -- of its calls fails.
    pub get-put_invalid :
        (env : Envelope)
        → Succeeds
        → store_blob_id x c.store (to_valid_utf8 q) ≢ store_blob_id x c.store q
        → (put_with_origin x path content mode mtime mime origin enc c ≡ (ok id, cell_put))
          × ((get x cell_put.store path (calm cell_put.world)).0 ≢ ok env)
    get-put_invalid env s differs =
        let h = put_accepts s in
        (h, misfiled c path content mode mtime mime origin enc h q env s.normal differs)
