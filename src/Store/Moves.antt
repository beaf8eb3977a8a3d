-- ===== src/Store/Moves.antt =====
-- Move, from what Put and Remove do.
use angou.Prelude.{◌≡◌, sym, ap, ◌∙◌, ◌≢◌}
use angou.Prelude.{Result, ok, err, no_such_path, ok-injective}
use angou.Prelude.Bytes.{Bytes}
use angou.Prelude.Bytes.Utf8.{to_valid_utf8}
use angou.Container.{armor}
use angou.Envelope
use angou.Envelope.{Envelope}
use angou.External.{External}
use angou.Store.Act.{Cell, lift-eq-ok, reads-eq-ok, act-eq-ok}
use angou.Store.Core.{store_blob_id, get}
use angou.Store.Frame.{get-remove, get-remove_ne}
use angou.Store.GetPut.{calm, get-calm, same_id, get-put_with_origin}
use angou.Store.Lawful.{IsLawful, as_json}
use angou.Store.LogicalPath.{normalize_path}
use angou.Store.Ops.{put_with_origin, remove_path, put_moved, move}
use angou.Store.PutEffect.{put_effect}
use angou.Store.LogicalPath.Grammar.{normalize_path_idem}
use angou.Store.RemoveEffect.{remove_effect}
use angou.World.{World}

module _ (x : External) (l : IsLawful x) where
  -- A Move that returned no error is a Get, a Put and a Remove that did.
  pub record MoveParts (c c' : Cell x) (from to : Bytes) : Type 0 where
    pub env : Envelope
    pub w : World
    pub got : get x c.store from c.world ≡ (ok env, w)
    pub target : Bytes
    pub normalizes : normalize_path x.nfc to ≡ ok target
    pub id : Bytes
    pub between : Cell x
    pub stored :
        put_with_origin x target env.content env.mode env.mtime env.mime env.origin armor
          (record { store = c.store; world = w })
        ≡ (ok id, between)
    pub removed : remove_path x from between ≡ (ok tt, c')

  -- Move's put, with the target's normal form.
  put_moved_parts :
      (c : Cell x) (env : Envelope) (to : Bytes) {id : Bytes} {c' : Cell x}
      → put_moved x env to c ≡ (ok id, c')
      → (target : Bytes) × (normalize_path x.nfc to ≡ ok target)
        × (put_with_origin x target env.content env.mode env.mtime env.mime env.origin armor c
            ≡ (ok id, c'))
  unfolding put_moved
  put_moved_parts c env to h = lift-eq-ok (normalize_path x.nfc to) c _ h

  pub move_parts :
      (c : Cell x) (from to : Bytes) {c' : Cell x}
      → move x from to c ≡ (ok tt, c')
      → MoveParts c c' from to
  unfolding move
  move_parts c from to {c'} h =
      let (env, w, got, h1) = reads-eq-ok c.store (get x c.store from c.world) _ h in
      let (id, between, put, removed) =
        act-eq-ok (put_moved x env to (record { store = c.store; world = w })) _ h1 in
      let (target, normal, stored) =
        put_moved_parts (record { store = c.store; world = w }) env to put in
      record {
        env = env;
        w = w;
        got = got;
        target = target;
        normalizes = normal;
        id = id;
        between = between;
        stored = stored;
        removed = removed;
      }

  module _ (c : Cell x) (from to : Bytes) {c' : Cell x} (m : MoveParts c c' from to) where
    moved_meta : m.between.store.meta ≡ c.store.meta
    moved_meta =
        (put_effect x l (record { store = c.store; world = m.w }) m.target m.env.content m.env.mode
          m.env.mtime m.env.mime m.env.origin armor m.stored).meta

    source_gone :
        (q idf : Bytes)
        → normalize_path x.nfc from ≡ ok q
        → store_blob_id x c.store q ≡ ok idf
        → (get x c'.store from (calm c'.world)).0 ≡ err no_such_path
    source_gone q idf normal addressed =
        get-remove x l m.between from q idf m.removed normal
          (same_id x c.store m.between.store q moved_meta ∙ addressed)

    final_meta :
        (q idf : Bytes)
        → normalize_path x.nfc from ≡ ok q
        → store_blob_id x c.store q ≡ ok idf
        → c'.store.meta ≡ c.store.meta
    final_meta q idf normal addressed =
        (remove_effect x l m.between from q normal
          (same_id x c.store m.between.store q moved_meta ∙ addressed) m.removed).meta
        ∙ moved_meta

    target_kept :
        (q idf : Bytes)
        → normalize_path x.nfc from ≡ ok q
        → store_blob_id x c.store q ≡ ok idf
        → (qt idt : Bytes) → normalize_path x.nfc to ≡ ok qt
        → store_blob_id x c.store qt ≡ ok idt
        → idf ≢ idt
        → to_valid_utf8 qt ≡ qt
        → (get x c'.store to (calm c'.world)).0
          ≡ ok (
              as_json (
                Envelope.new x.sha256 qt m.env.mime m.env.mode m.env.mtime m.env.content
                  m.env.origin))
    target_kept q idf normal addressed qt idt normal_to addressed_to ne valid =
        let same : m.target ≡ qt = ok-injective (sym m.normalizes ∙ normal_to) in
        let again : normalize_path x.nfc m.target ≡ ok qt =
          rw same (normalize_path_idem x.nfc l.nfc_idem to qt normal_to).2 in
        let here = same_id x c.store m.between.store qt moved_meta ∙ addressed_to in
        get-remove_ne x l m.between from q idf m.removed normal
          (same_id x c.store m.between.store q moved_meta ∙ addressed) to qt idt normal_to here ne
        ∙ (get-calm x m.between.store to qt idt m.between.world normal_to here
            ∙ (sym (get-calm x m.between.store m.target qt idt m.between.world again here)
                ∙ get-put_with_origin x l (record { store = c.store; world = m.w }) m.target
                    m.env.content m.env.mode m.env.mtime m.env.mime m.env.origin armor m.stored qt
                    again valid))

  -- After a Move that returned no error, between paths of different names: what Get read of the
  -- source is what Get, if none of its calls fails, returns at the target, under the target's
  -- normal form and with its MIME type and origin as encoding/json keeps them; and the source is
  -- gone. The target's normal form has to be valid UTF-8.
  pub move_lem :
      (c : Cell x) (from to qf qt idf idt : Bytes) {c' : Cell x}
      → move x from to c ≡ (ok tt, c')
      → normalize_path x.nfc from ≡ ok qf
      → store_blob_id x c.store qf ≡ ok idf
      → normalize_path x.nfc to ≡ ok qt
      → store_blob_id x c.store qt ≡ ok idt
      → idf ≢ idt
      → to_valid_utf8 qt ≡ qt
      → (env : Envelope) × ((get x c.store from c.world).0 ≡ ok env)
        × ((get x c'.store to (calm c'.world)).0
            ≡ ok (
                as_json
                  (Envelope.new x.sha256 qt env.mime env.mode env.mtime env.content env.origin)))
        × ((get x c'.store from (calm c'.world)).0 ≡ err no_such_path)
  move_lem c from to qf qt idf idt h nf af nt at ne valid =
      let m = move_parts c from to h in
      (
        m.env,
        ap (λ (p : Result Envelope × World). p.0) m.got,
        target_kept c from to m qf idf nf af qt idt nt at ne valid,
        source_gone c from to m qf idf nf af,
      )

  -- A Move that returned no error between two spellings of one path has destroyed the file: Get
  -- read it before, and afterwards neither spelling is in the store.
  pub move_onto_itself :
      (c : Cell x) (from to q id : Bytes) {c' : Cell x}
      → move x from to c ≡ (ok tt, c')
      → normalize_path x.nfc from ≡ ok q
      → normalize_path x.nfc to ≡ ok q
      → store_blob_id x c.store q ≡ ok id
      → (env : Envelope) × ((get x c.store from c.world).0 ≡ ok env)
        × ((get x c'.store from (calm c'.world)).0 ≡ err no_such_path)
        × ((get x c'.store to (calm c'.world)).0 ≡ err no_such_path)
  move_onto_itself c from to q id {c'} h nf nt addressed =
      let m = move_parts c from to h in
      let gone = source_gone c from to m q id nf addressed in
      let here =
        same_id x c.store c'.store q (final_meta c from to m q id nf addressed) ∙ addressed in
      (
        m.env,
        ap (λ (p : Result Envelope × World). p.0) m.got,
        gone,
        get-calm x c'.store to q id c'.world nt here
            ∙ (sym (get-calm x c'.store from q id c'.world nf here) ∙ gone),
      )
