-- ===== src/Store/Rebuild.antt =====
-- What Reindex files.
use angou.Prelude.{
  ◌≡◌, refl, sym, ap, ◌∙◌, true, false, Bool-cases, inl, inr, List, [], ◌∷◌, All, arith,
  if◌then◌else◌,
}
use angou.Prelude.{Result, ok, err, Error, name_binding, ok-injective}
use angou.Prelude.Bytes.{Bytes, bytes_eq}
use angou.Envelope.{Envelope}
use angou.External.{External}
use angou.Store.BlobId.{looks_like_blob_id}
use angou.Store.Blobs.{world-eq-ok}
use angou.Store.Core.{Store, read_blob, check_blob, blob_path}
use angou.Store.Ops.{index_insert}
use angou.Store.Scan.{
  Rebuilt, id_of, is_passed_over, file_blob, reindex_file, reindex_entry, reindex_entries, rebuild,
}
use angou.Store.Types.{Index, IndexEntry, entry_from_envelope}
use angou.World.{
  Fate, works, fails, dies, Dir, Entry, Disk, World, read_file, read_dir, continue, outcome,
}

module _ (x : External) where
  -- An entry of the index that the envelope of a blob of that name gives, read without error from
  -- the disk.
  abbrev pub IsFiled : Store x → Disk → Bytes × IndexEntry → Type 0
  IsFiled s d p =
      (env : Envelope) × (w : World) × (w.disk ≡ d)
      × ((read_blob x s p.0 w).0 ≡ ok env)
      × (p.1 ≡ entry_from_envelope env)

  looked_keeps :
      {A : Type 0} (f : Disk → Result A) (schedule : List Fate) (w : World)
      → (outcome (λ d. (f d, d)) schedule w).1.disk ≡ w.disk
  looked_keeps f [] w = refl
  looked_keeps f (works ∷ s) w = refl
  looked_keeps f (fails ∷ s) w = refl
  looked_keeps f (dies ∷ s) w = refl

  read_dir_keeps : (dir : Dir) (w : World) → (read_dir dir w).1.disk ≡ w.disk
  unfolding read_dir
  read_dir_keeps dir w = looked_keeps _ w.schedule w

  read_file_keeps : (dir : Dir) (name : Bytes) (w : World) → (read_file dir name w).1.disk ≡ w.disk
  unfolding read_file
  read_file_keeps dir name w = looked_keeps _ w.schedule w

  lifts_keep :
      (r : Result Bytes) (f : Bytes → Result Envelope) (w : World)
      → (continue (r, w) (λ raw v. (f raw, v))).1 ≡ w
  lifts_keep (ok raw) f w = refl
  lifts_keep (err e) f w = refl

  pub read_blob_keeps :
      (s : Store x) (id : Bytes) (w : World) → (read_blob x s id w).1.disk ≡ w.disk
  unfolding read_blob
  read_blob_keeps s id w =
      ap (λ (v : World). v.disk)
        (lifts_keep _ (check_blob x s id) (read_file s.root (blob_path x id) w).1)
      ∙ read_file_keeps s.root (blob_path x id) w

  index_insert-IsFiled :
      (s : Store x) (d : Disk) (id : Bytes) (e : IndexEntry) (index : Index)
      → IsFiled s d (id, e)
      → All (IsFiled s d) index
      → All (IsFiled s d) (index_insert id e index)
  unfolding index_insert
  index_insert-IsFiled s d id e [] h hs = (h, tt)
  index_insert-IsFiled s d id e ((j, f) ∷ rest) h (k, ks) =
      elim (bytes_eq j id)
        as (λ b.
          All (IsFiled s d) (if b then (id, e) ∷ rest else (j, f) ∷ index_insert id e rest)) [
            | true ↦ (h, ks)
            | false ↦ (k, index_insert-IsFiled s d id e rest h ks)
          ]

  file_blob-failed :
      (name : Bytes) (e : Error) (r : Rebuilt) {r' : Rebuilt}
      → file_blob x name (err e) r ≡ ok r'
      → r'.index ≡ r.index
  unfolding file_blob
  file_blob-failed name name_binding r h = cc
  file_blob-failed name e r h = ground arith

  file_blob-IsFiled :
      (s : Store x) (d : Disk) (name : Bytes) (w : World) (outcome : Result Envelope) (r : Rebuilt)
      {r' : Rebuilt}
      → w.disk ≡ d
      → (read_blob x s (id_of name) w).0 ≡ outcome
      → file_blob x name outcome r ≡ ok r'
      → All (IsFiled s d) r.index
      → All (IsFiled s d) r'.index
  unfolding file_blob
  file_blob-IsFiled s d name w (ok env) r at read h hs = rw (← ok-injective h) (
      index_insert-IsFiled s d (id_of name) (entry_from_envelope env) r.index
        (env, w, at, read, refl) hs)
  file_blob-IsFiled s d name w (err e) r at read h hs = rw (file_blob-failed name e r h) hs

  reindex_entry-IsFiled :
      (s : Store x) (d : Disk) (e : Entry) (r : Rebuilt) (w : World) {r' : Rebuilt} {w' : World}
      → w.disk ≡ d
      → reindex_entry x s e r w ≡ (ok r', w')
      → All (IsFiled s d) r.index
      → All (IsFiled s d) r'.index
  unfolding reindex_entry reindex_file
  reindex_entry-IsFiled s d e r w at h hs = elim (Bool-cases (is_passed_over e)) [
    | inl passed ↦ rw (← same_index (rw passed at h)) hs
    | inr read ↦ elim (Bool-cases (looks_like_blob_id (id_of e.name))) [
      | inl blob ↦
          file_blob-IsFiled s d e.name w (read_blob x s (id_of e.name) w).0 r at refl
            (ap (λ (p : Result Rebuilt × World). p.0) (rw (read, blob) at h)) hs
      | inr other ↦ rw (← same_index (rw (read, other) at h)) hs
    ]
  ]
    where
      same_index :
          {q r' : Rebuilt} {v w' : World}
          → ◌≡◌ {A = Result Rebuilt × World} (ok q, v) (ok r', w')
          → q.index ≡ r'.index
      same_index h = ap Rebuilt.index (ok-injective (ap (λ (p : Result Rebuilt × World). p.0) h))

  reindex_entry_keeps :
      (s : Store x) (e : Entry) (r : Rebuilt) (w : World)
      → (reindex_entry x s e r w).1.disk ≡ w.disk
  unfolding reindex_entry reindex_file
  reindex_entry_keeps s e r w = elim (Bool-cases (is_passed_over e)) [
    | inl passed ↦ rw passed refl
    | inr read ↦ elim (Bool-cases (looks_like_blob_id (id_of e.name))) [
      | inl blob ↦ rw (read, blob) (read_blob_keeps s (id_of e.name) w)
      | inr other ↦ rw (read, other) refl
    ]
  ]

  reindex_entries-IsFiled :
      (s : Store x) (d : Disk) (es : List Entry) (r : Rebuilt) (w : World) {r' : Rebuilt}
      {w' : World}
      → w.disk ≡ d
      → reindex_entries x s es r w ≡ (ok r', w')
      → All (IsFiled s d) r.index
      → All (IsFiled s d) r'.index
  unfolding reindex_entries
  reindex_entries-IsFiled s d [] r w at h hs =
      rw (← ok-injective (ap (λ (p : Result Rebuilt × World). p.0) h)) hs
  reindex_entries-IsFiled s d (e ∷ es) r w at h hs =
      let (r1, w1, first, rest) = world-eq-ok (reindex_entry x s e r w) _ h in
      reindex_entries-IsFiled s d es r1 w1
        (ap (λ (p : Result Rebuilt × World). p.1.disk) (sym first)
          ∙ (reindex_entry_keeps s e r w ∙ at))
        rest (reindex_entry-IsFiled s d e r w at first hs)

  -- Whatever calls fail: where Reindex's pass over the files returns no error, every entry of the
  -- index that it makes is what the envelope says of a blob of that name on the disk, which was read
  -- without error.
  pub rebuild-IsFiled :
      (s : Store x) (w : World) {r : Rebuilt} {w' : World}
      → rebuild x s w ≡ (ok r, w')
      → All (IsFiled s w.disk) r.index
  unfolding rebuild
  rebuild-IsFiled s w h =
      let (entries, w1, listed, rest) = world-eq-ok (read_dir s.root w) _ h in
      reindex_entries-IsFiled s w.disk entries _ w1
        (ap (λ (p : Result (List Entry) × World). p.1.disk) (sym listed) ∙ read_dir_keeps s.root w)
        rest tt
