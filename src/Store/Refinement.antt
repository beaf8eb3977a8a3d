-- ===== src/Store/Refinement.antt =====
-- The store against the map from paths to envelopes.
use mathlib.Core.List.{Memᴰ}
use angou.Prelude.{
  ℕ, ◌≡◌, ◌≢◌, refl, sym, ap, ◌∙◌, Bool, true, false, Bool-cases, inl, inr, Option, none, some,
  List, [], ◌∷◌, All, arith, if◌then◌else◌,
}
use angou.Prelude
use angou.Prelude.{Result, ok, err, io_error, no_such_path, ok-injective}
use angou.Prelude.Bytes.{Bytes, bytes_eq}
use angou.Prelude.Bytes.Laws.{bytes_eq_iff}
use angou.Container.{Encoding, armor}
use angou.Envelope
use angou.Envelope.{Envelope}
use angou.External.{External}
use angou.Store.Act
use angou.Store.Act.{Cell, Act}
use angou.Store.Core.{Store, store_blob_id, read_blob, get, or_missing, check_blob, blob_path}
use angou.Store.Frame.{get_same, get-put_ne, get-remove, get-remove_ne}
use angou.Store.GetPut.{calm, get-put_with_origin, get-calm}
use angou.Store.Lawful.{IsLawful, as_json}
use angou.Store.LogicalPath.{normalize_path}
use angou.Store.Moves.{move_parts}
use angou.Store.Ops.{put_with_origin, remove_path, move}
use angou.Store.PutEffect.{put_effect}
use angou.Store.RemoveEffect.{remove_effect}
use angou.World.{World, read_file, Disk, file_at, continue, contents}
use angou.World.Triple.{Post-call}
use angou.Store.History.{
  Op, write, delete, readdress, Files, update, apply, run, file_op, file_ops, reply, IsNamed,
  IsNamed-same, Represents, KeepsTo,
}

module _ (x : External) where
  module _ (l : IsLawful x) (paths : List Bytes) (c : Cell x) (u : IsNamed x c.store paths)
      (files : Files) (r : Represents x paths c files) where
    write-Represents :
        (p content : Bytes) (mode mtime : ℕ) (mime origin : Bytes) (enc : Encoding) {id : Bytes}
        {c' : Cell x}
        → Memᴰ p paths
        → put_with_origin x p content mode mtime mime origin enc c ≡ (ok id, c')
        → (c'.store.meta ≡ c.store.meta)
          × Represents x paths c' (file_op x (write p content mode mtime mime origin enc) files)
    unfolding file_op
    write-Represents p content mode mtime mime origin enc {id} {c'} m h =
        let e = put_effect x l c p content mode mtime mime origin enc h in
        (
          e.meta,
          view (
              ok-injective (
                sym e.addressed
                ∙ (ap (λ (q : Bytes). store_blob_id x c.store q)
                      (ok-injective (sym e.normalizes ∙ u.normal p m))
                    ∙ u.addressed p m))),
        )
      where
        view :
            id ≡ u.name p
            → Represents x paths c' (
                update files p
                  (some (as_json (Envelope.new x.sha256 p mime mode mtime content origin))))
        view named q k = elim (Bool-cases (bytes_eq p q)) [
          | inl same ↦ rw same (
              rw (← (bytes_eq_iff p q).0 same) (
                get-put_with_origin x l c p content mode mtime mime origin enc h p (u.normal p m)
                  (u.valid p m)))
          | inr other ↦ rw other (
              get-put_ne x l c p content mode mtime mime origin enc q q (u.name q) h (u.normal q k)
                (u.addressed q k) (λ i. u.apart p q m k other (sym named ∙ i))
              ∙ r q k)
        ]

    delete-Represents :
        (p : Bytes) {c' : Cell x}
        → Memᴰ p paths
        → remove_path x p c ≡ (ok tt, c')
        → (c'.store.meta ≡ c.store.meta) × Represents x paths c' (file_op x (delete p) files)
    unfolding file_op
    delete-Represents p {c'} m h =
        ((remove_effect x l c p p (u.normal p m) (u.addressed p m) h).meta, view)
      where
        view : Represents x paths c' (update files p none)
        view q k = elim (Bool-cases (bytes_eq p q)) [
          | inl same ↦ rw same (
              rw (← (bytes_eq_iff p q).0 same)
                (get-remove x l c p p (u.name p) h (u.normal p m) (u.addressed p m)))
          | inr other ↦ rw other (
              get-remove_ne x l c p p (u.name p) h (u.normal p m) (u.addressed p m) q q (u.name q)
                (u.normal q k) (u.addressed q k) (u.apart p q m k other)
              ∙ r q k)
        ]

  result_of :
      {A B : Type 0} (r : Result A) (g : A → Result B) (w : World)
      → (continue (r, w) (λ a w'. (g a, w'))).0 ≡ Prelude.◌>>=◌ r g
  result_of (ok a) g w = refl
  result_of (err e) g w = refl

  -- What a read of a blob gives, it gives also where no call fails.
  read_blob_any :
      (s : Store x) (id : Bytes) (w : World) {e : Envelope}
      → (read_blob x s id w).0 ≡ ok e
      → (read_blob x s id (calm w)).0 ≡ ok e
  unfolding read_blob read_file
  read_blob_any s id w {e} h =
      result_of _ (check_blob x s id) (calm w)
      ∙ Post-call _
          (λ r d.
            Prelude.◌>>=◌ (or_missing x no_such_path r) (check_blob x s id) ≡ ok e
            → Prelude.◌>>=◌
                (or_missing x no_such_path (contents (file_at w.disk s.root (blob_path x id))))
                (check_blob x s id)
              ≡ ok e)
          w (λ k. cc) (λ k. k) (sym (result_of _ (check_blob x s id) _) ∙ h)

  world_of :
      {A B : Type 0} (r : Result A) (g : A → Result B) (w : World)
      → (continue (r, w) (λ a w'. (g a, w'))).1 ≡ w
  world_of (ok a) g w = refl
  world_of (err e) g w = refl

  get-disk :
      (s : Store x) (p q id : Bytes) (w : World)
      → normalize_path x.nfc p ≡ ok q
      → store_blob_id x s q ≡ ok id
      → (get x s p w).1.disk ≡ w.disk
  unfolding get read_blob read_file
  get-disk s p q id w normal addressed =
      rw (normal, addressed)
        (ap (λ (v : World). v.disk) (world_of _ (check_blob x s id) _)
          ∙ Post-call _ (λ r d. d ≡ w.disk) w refl refl)

  get_any :
      (s : Store x) (p q id : Bytes) (w : World) {e : Envelope}
      → normalize_path x.nfc p ≡ ok q
      → store_blob_id x s q ≡ ok id
      → (get x s p w).0 ≡ ok e
      → (get x s p (calm w)).0 ≡ ok e
  unfolding get
  get_any s p q id w normal addressed h =
      get-calm x s p q id w normal addressed ∙ read_blob_any s id w (sym (direct w) ∙ h)
    where
      direct : (v : World) → (get x s p v).0 ≡ (read_blob x s id v).0
      direct v = rw (normal, addressed) refl

  module _ (l : IsLawful x) (paths : List Bytes) (c : Cell x) (u : IsNamed x c.store paths)
      (files : Files) (r : Represents x paths c files) where
    read_source :
        (p : Bytes) {env : Envelope}
        → Memᴰ p paths
        → (get x c.store p c.world).0 ≡ ok env
        → files p ≡ some env
    read_source p m h =
        replied (files p)
          (sym (r p m) ∙ get_any c.store p p (u.name p) c.world (u.normal p m) (u.addressed p m) h)
      where
        replied : (o : Option Envelope) {env : Envelope} → reply x o ≡ ok env → o ≡ some env
        replied none k = cc
        replied (some e) k = cc

    -- Get leaves the files as they are.
    after_read :
        (p : Bytes) {env : Envelope} {w : World}
        → Memᴰ p paths
        → get x c.store p c.world ≡ (ok env, w)
        → Represents x paths (record { store = c.store; world = w }) files
    after_read p {env} {w} m got q k =
        get_same x l c.store c.store c.world w q q (u.name q) (u.normal q k) (u.addressed q k) refl
          refl refl (ap (λ (d : Disk). file_at d c.store.root (blob_path x (u.name q))) kept)
        ∙ r q k
      where
        kept : w.disk ≡ c.world.disk
        kept =
            sym (ap (λ (v : Result Envelope × World). v.1.disk) got)
            ∙ get-disk c.store p p (u.name p) c.world (u.normal p m) (u.addressed p m)

    readdress-Represents :
        (from to : Bytes) {c' : Cell x}
        → Memᴰ from paths
        → Memᴰ to paths
        → bytes_eq from to ≡ false
        → move x from to c ≡ (ok tt, c')
        → (c'.store.meta ≡ c.store.meta)
          × Represents x paths c' (file_op x (readdress from to) files)
    unfolding file_op
    readdress-Represents from to {c'} mf mt apart h =
        let m = move_parts x l c from to h in
        let env = m.env in
        let same : m.target ≡ to = ok-injective (sym m.normalizes ∙ u.normal to mt) in
        let here : Cell x = record { store = c.store; world = m.w } in
        let source : files from ≡ some env =
          read_source from mf (ap (λ (p : Result Envelope × World). p.0) m.got) in
        let stored : put_with_origin x to env.content env.mode env.mtime env.mime env.origin armor
              here
            ≡ (ok m.id, m.between) =
          rw (← same) m.stored in
        let put =
          write-Represents l paths here u files (after_read from mf m.got) to env.content env.mode
            env.mtime env.mime env.origin armor mt stored in
        let removed =
          delete-Represents l paths m.between (IsNamed-same x c.store m.between.store paths put.0 u)
            _ put.1 from mf m.removed in
        (removed.0 ∙ put.0, rw source removed.1)

  apply-Represents :
      (l : IsLawful x) (paths : List Bytes) (op : Op) (c : Cell x) (files : Files) {c' : Cell x}
      → IsNamed x c.store paths
      → Represents x paths c files
      → KeepsTo x paths op
      → apply x op c ≡ (ok tt, c')
      → (c'.store.meta ≡ c.store.meta) × Represents x paths c' (file_op x op files)
  unfolding apply
  apply-Represents l paths (write p content mode mtime mime origin enc) c files u r k h =
      let (id, c1, stored, h1) =
        Act.act-eq-ok (put_with_origin x p content mode mtime mime origin enc c) _ h in
      write-Represents l paths c u files r p content mode mtime mime origin enc k
        (stored ∙ ap (λ (q : Result (Unit {0}) × Cell x). (ok id, q.1)) h1)
  apply-Represents l paths (delete p) c files u r k h = delete-Represents l paths c u files r p k h
  apply-Represents l paths (readdress from to) c files u r (mf, mt, a) h =
      readdress-Represents l paths c u files r from to mf mt a h

  -- Take a run of PutWithOrigin, Remove and Move that returns no error, on paths in normal form and in
  -- UTF-8 that have blob names of their own, with no Move from a path to itself. If Get returned at
  -- each of these paths what a map has, then after the run it returns what the map has on which the
  -- same operations have been made; each Get under the condition that none of its own calls fails.
  pub run-Represents :
      (l : IsLawful x) (paths : List Bytes) (ops : List Op) (c : Cell x) (files : Files)
      {c' : Cell x}
      → IsNamed x c.store paths
      → Represents x paths c files
      → All (KeepsTo x paths) ops
      → run x ops c ≡ (ok tt, c')
      → Represents x paths c' (file_ops x ops files)
  unfolding run file_ops
  run-Represents l paths [] c files u r k h =
      rw (← ap (λ (q : Result (Unit {0}) × Cell x). q.1) h) r
  run-Represents l paths (op ∷ ops) c files u r (k, ks) h =
      let (done, c1, first, rest) = Act.act-eq-ok (apply x op c) _ h in
      let (kept, view) = apply-Represents l paths op c files u r k first in
      run-Represents l paths ops c1 (file_op x op files)
        (IsNamed-same x c.store c1.store paths kept u) view ks rest
