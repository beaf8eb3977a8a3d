-- ===== src/Store/Orphans.antt =====
-- What PruneOrphans takes away.
use angou.Prelude.{ℕ, ◌≡◌, ap, none, List, [], ◌∷◌, ◌++◌, arith}
use angou.Prelude.{Result, ok, err, name_binding}
use angou.Prelude.Bytes.{Bytes}
use angou.Prelude.Bytes.Laws.{bytes_eq_refl}
use angou.World.Files.{find-remove_entry, dir_eq_refl}
use angou.Envelope.{Envelope}
use angou.External.{External}
use angou.Store.Core.{Store, read_blob}
use angou.Store.Rebuild.{read_blob_keeps}
use angou.Store.Scan.{Pruned, prune_file, prune_names, prune_orphans, blob_file_names, id_of}
use angou.World.{
  works, fails, Fate, Dir, Disk, World, M, ◌>>=◌, pure, file_at, read_file, remove, continue,
}
use angou.World.Shrinks.{Shrinks, Shrinks-refl, Shrinks-trans, Gone, remove-Gone}
use angou.World.Triple.{Post, Post-bind}

module _ (x : External) where
  -- PruneOrphans makes no file.
  removed-Shrinks :
      (s : Store x) (name : Bytes) (p : Pruned x) (w : World)
      → Post (remove s.root name >>= λ _. pure p) w (λ r d. Shrinks w.disk d)
  removed-Shrinks s name p w =
      Post-bind _ (Gone s.root name w.disk) (λ r d. Shrinks w.disk d) (remove s.root name) w
        (remove-Gone s.root name w) (λ _ w' (t, gone). t) (λ e d t. t)

  prune_file-Shrinks :
      (s : Store x) (name : Bytes) (r : Result Envelope) (p : Pruned x) (w : World)
      → Post (prune_file x s name r p) w (λ r d. Shrinks w.disk d)
  unfolding prune_file
  prune_file-Shrinks s name (ok env) p w = Shrinks-refl w.disk
  prune_file-Shrinks s name (err name_binding) p w = Shrinks-refl w.disk
  prune_file-Shrinks s name (err _) p w = removed-Shrinks s name _ w

  prune_names-Shrinks :
      (s : Store x) (names : List Bytes) (p : Pruned x) (w : World)
      → Post (prune_names x s names p) w (λ r d. Shrinks w.disk d)
  unfolding prune_names
  prune_names-Shrinks s [] p w = Shrinks-refl w.disk
  prune_names-Shrinks s (name ∷ names) p w =
      let (outcome, w') = read_blob x s (id_of name) w in
      Post-bind _ (λ r d. Shrinks w.disk d) (λ r d. Shrinks w.disk d)
        (prune_file x s name outcome p) w'
        (Shrinks-trans w.disk w'.disk _ read (prune_file-Shrinks s name outcome p w'))
        (λ p' w2 t. Shrinks-trans w.disk w2.disk _ t (prune_names-Shrinks s names p' w2))
        (λ e d t. t)
    where
      read : Shrinks w.disk (read_blob x s (id_of name) w).1.disk
      read = rw (read_blob_keeps x s (id_of name) w) (Shrinks-refl w.disk)

  remove_gone :
      (dir : Dir) (name : Bytes) (d : Disk) (rest : List Fate) (n : ℕ)
      → file_at
          (remove dir name (record { disk = d; schedule = works ∷ rest; draws = n })).1.disk
          dir
          name
        ≡ none
  unfolding remove file_at
  remove_gone dir name d rest n =
      ground
        (arith, find-remove_entry dir name dir name d.entries, dir_eq_refl dir, bytes_eq_refl name)

  -- The read of one file fails, its removal works, and then nothing makes the file again.
  gone_later :
      (s : Store x) (name : Bytes) (names : List Bytes) (p : Pruned x) (d : Disk) (rest : List Fate)
      (n : ℕ)
      → Post
          (prune_names x s (name ∷ names) p)
          (record { disk = d; schedule = fails ∷ works ∷ rest; draws = n })
          (λ r d'. file_at d' s.root name ≡ none)
  unfolding prune_names prune_file read_blob read_file
  gone_later s name names p d rest n =
      let w : World = record { disk = d; schedule = works ∷ rest; draws = n } in
      Post-bind _ (λ r d'. file_at d' s.root name ≡ none) (λ r d'. file_at d' s.root name ≡ none)
        (remove s.root name >>= λ _. pure _) w
        (Post-bind _ (λ r d'. file_at d' s.root name ≡ none) (λ r d'. file_at d' s.root name ≡ none)
          (remove s.root name) w (remove_gone s.root name d rest n) (λ _ w' g. g) (λ e d' g. g))
        (λ p' w2 g. prune_names-Shrinks s names p' w2 s.root name g) (λ e d' g. g)

  continue_same :
      {A B : Type 0} (q : Result A × World) (f g : A → M B) (r : Result B × World) {b : B}
      {w1 : World}
      → ((a : A) (w2 : World) → f a w2 ≡ (ok b, w1) → g a w2 ≡ r)
      → continue q f ≡ (ok b, w1)
      → continue q g ≡ r
  continue_same (ok a, w2) f g r same h = same a w2 h
  continue_same (err e, w2) f g r same h = cc

  prune_names-append :
      (s : Store x) (before after : List Bytes) (p : Pruned x) (w : World) {p1 : Pruned x}
      {w1 : World}
      → prune_names x s before p w ≡ (ok p1, w1)
      → prune_names x s (before ++ after) p w ≡ prune_names x s after p1 w1
  unfolding prune_names
  prune_names-append s [] after p w h =
      ap (λ (q : Result (Pruned x) × World). continue q (λ p'. prune_names x s after p')) h
  prune_names-append s (name ∷ before) after p w h =
      let (outcome, w') = read_blob x s (id_of name) w in
      continue_same (prune_file x s name outcome p w') (λ p'. prune_names x s before p')
        (λ p'. prune_names x s (before ++ after) p') _
        (λ p' w2 k. prune_names-append s before after p' w2 k) h

  -- PruneOrphans has listed the files and come as far as one of them without an error. If the call
  -- that reads this file fails, and the call that removes it works, then the file is gone in the
  -- end, whatever becomes of the later calls, and whatever it holds: a blob of the store's own that
  -- its key opens, too.
  pub prune_orphans-failed_read :
      (s : Store x) (before : List Bytes) (name : Bytes) (after : List Bytes) (w w0 : World)
      (p : Pruned x) (d : Disk) (rest : List Fate) (n : ℕ)
      → blob_file_names x s w ≡ (ok (before ++ (name ∷ after)), w0)
      → prune_names x s before (record { removed = []; misnamed = [] }) w0
        ≡ (ok p, record { disk = d; schedule = fails ∷ works ∷ rest; draws = n })
      → file_at (prune_orphans x s w).1.disk s.root name ≡ none
  unfolding prune_orphans
  prune_orphans-failed_read s before name after w w0 p d rest n listed reached =
      rw (listed, prune_names-append s before (name ∷ after) _ w0 reached)
        (gone_later s name after p d rest n)
