-- ===== src/Store/RemoveEffect.antt =====
-- Remove, and what Get says afterwards.
use angou.Prelude.{◌≡◌, refl, sym, ap, ◌∙◌, Bool, true, false, none, arith, if◌then◌else◌}
use mathlib.Core.Path.{subst}
use angou.Prelude.{Result, ok, err, not_exist}
use angou.Prelude.Bytes.{Bytes}
use angou.Prelude.Bytes.Laws.{bytes_eq_refl}
use angou.External.{External}
use angou.Store.Act.{Cell, lift-eq-ok}
use angou.Store.BlobId.{looks_like_blob_id}
use angou.Store.Core.{Store, store_blob_id, blob_path, write_index}
use angou.Store.Lawful.{IsLawful}
use angou.Store.LogicalPath.{normalize_path}
use angou.Store.Ops.{remove_path, remove_id, forget_blob, missing_path, index_delete}
use angou.Store.PutEffect.{is_scratch, write_index_lem, store_blob_id-shape, blob_path-is_scratch}
use angou.Store.Types.{Index}
use angou.World.{World, Disk, Dir, file_at, remove, remove_entry, present}
use angou.World.Files.{same_file, find-remove_entry, dir_eq_refl}
use angou.World.Triple.{Post-call}

abbrev Removed : Dir → Bytes → Disk → Result (Unit {0}) → Disk → Type 0
Removed dir name d (ok u) d' = d' ≡ record d { entries = remove_entry dir name d.entries }
Removed dir name d (err e) d' = Unit

remove_lem :
    (dir : Dir) (name : Bytes) (w : World)
    → Removed dir name w.disk (remove dir name w).0 (remove dir name w).1.disk
unfolding remove
remove_lem dir name w =
    Post-call _ (Removed dir name w.disk) w tt (done (present (file_at w.disk dir name)))
  where
    done :
        (b : Bool)
        → (let p : Result (Unit {0}) × Disk =
              (if b
                then (ok tt, record w.disk { entries = remove_entry dir name w.disk.entries })
                else (err not_exist, w.disk)) in
            Removed dir name w.disk p.0 p.1)
    done true = refl
    done false = tt

file_at-removed :
    (dir : Dir) (name : Bytes) (d : Disk) (dir' : Dir) (name' : Bytes)
    → file_at (record d { entries = remove_entry dir name d.entries }) dir' name'
      ≡ (if same_file dir name dir' name' then none else file_at d dir' name')
unfolding file_at
file_at-removed dir name d dir' name' = find-remove_entry dir' name' dir name d.entries

module _ (x : External) (l : IsLawful x) where
  -- What a successful Remove leaves: no file at the name, the others as they were.
  pub record RemoveEffect (c c' : Cell x) (id : Bytes) : Type 0 where
    pub gone : file_at c'.world.disk c.store.root (blob_path x id) ≡ none
    pub others :
        (dir : Dir) (name : Bytes)
        → is_scratch c.store.root dir name ≡ false
        → same_file c.store.root (blob_path x id) dir name ≡ false
        → file_at c'.world.disk dir name ≡ file_at c.world.disk dir name
    pub root : c'.store.root ≡ c.store.root
    pub identity : c'.store.identity ≡ c.store.identity
    pub meta : c'.store.meta ≡ c.store.meta

  missing_path-eq-ok : (r : Result (Unit {0})) {u : Unit {0}} → missing_path x r ≡ ok u → r ≡ ok tt
  missing_path-eq-ok (ok u) h = refl
  missing_path-eq-ok (err e) h = absurd (ground arith)

  forget_parts :
      (s : Store x) (w w1 : World) (id : Bytes) (ix : Index) (p : Result (Unit {0}) × World)
      {u : Unit {0}} {c' : Cell x}
      → looks_like_blob_id id ≡ true
      → w1.disk ≡ record (w.disk) { entries = remove_entry s.root (blob_path x id) w.disk.entries }
      → write_index x (record s { index = ix }) w1 ≡ p
      → ◌≡◌ {A = Result (Unit {0}) × Cell x}
          (p.0, record { store = record s { index = ix }; world = p.1 })
          (ok u, c')
      → RemoveEffect (record { store = s; world = w }) c' id
  forget_parts s w w1 id ix (r, w2) {u} {c'} shape less wrote h =
      let cells : c' ≡ record { store = record s { index = ix }; world = w2 } =
        sym (ap (λ (k : Result (Unit {0}) × Cell x). k.1) h) in
      let written : write_index x (record s { index = ix }) w1 ≡ (ok u, w2) =
        wrote ∙ ap (λ (k : Result (Unit {0}) × Cell x). (k.0, w2)) h in
      let kept = λ (dir : Dir) (name : Bytes).
        write_index_lem x l (record s { index = ix }) w1 written dir name in
      let on_disk = λ (dir : Dir) (name : Bytes).
        ap (λ (d : Disk). file_at d dir name) less
        ∙ file_at-removed s.root (blob_path x id) w.disk dir name in
      record {
        gone = rw cells (
            kept s.root (blob_path x id) (blob_path-is_scratch x l s.root id shape)
            ∙ (on_disk s.root (blob_path x id)
                ∙ ground (arith, dir_eq_refl s.root, bytes_eq_refl (blob_path x id))));
        others = λ dir name n o. rw cells (kept dir name n ∙ (on_disk dir name ∙ rw o refl));
        root = ap (λ (k : Cell x). k.store.root) cells;
        identity = ap (λ (k : Cell x). k.store.identity) cells;
        meta = ap (λ (k : Cell x). k.store.meta) cells;
      }

  forget_effect :
      (s : Store x) (w w1 : World) (id : Bytes) (r : Result (Unit {0})) {u : Unit {0}} {c' : Cell x}
      → looks_like_blob_id id ≡ true
      → Removed s.root (blob_path x id) w.disk r w1.disk
      → forget_blob x id r (record { store = s; world = w1 }) ≡ (ok u, c')
      → RemoveEffect (record { store = s; world = w }) c' id
  unfolding forget_blob
  forget_effect s w w1 id r {u} {c'} shape done h =
      let (v, found, h1) = lift-eq-ok (missing_path x r) (record { store = s; world = w1 }) _ h in
      let less : w1.disk
          ≡ record (w.disk) { entries = remove_entry s.root (blob_path x id) w.disk.entries } =
        subst (λ (t : Result (Unit {0})). Removed s.root (blob_path x id) w.disk t w1.disk)
          (missing_path-eq-ok r found) done in
      forget_parts s w w1 id (index_delete id s.index)
        (write_index x (record s { index = index_delete id s.index }) w1) shape less refl h1

  remove_id_effect :
      (c : Cell x) (id : Bytes) {u : Unit {0}} {c' : Cell x}
      → looks_like_blob_id id ≡ true
      → remove_id x id c ≡ (ok u, c')
      → RemoveEffect c c' id
  unfolding remove_id
  remove_id_effect c id shape h =
      forget_effect c.store c.world (remove c.store.root (blob_path x id) c.world).1 id
        (remove c.store.root (blob_path x id) c.world).0 shape
        (remove_lem c.store.root (blob_path x id) c.world) h

  pub remove_effect :
      (c : Cell x) (path q : Bytes) {id : Bytes} {u : Unit {0}} {c' : Cell x}
      → normalize_path x.nfc path ≡ ok q
      → store_blob_id x c.store q ≡ ok id
      → remove_path x path c ≡ (ok u, c')
      → RemoveEffect c c' id
  unfolding remove_path
  remove_effect c path q {id} {u} {c'} normal addressed h =
      let h1 : remove_id x id c ≡ (ok u, c') = rw (normal, addressed) at h in
      remove_id_effect c id (store_blob_id-shape x l c.store q addressed) h1
