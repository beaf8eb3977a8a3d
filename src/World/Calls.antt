-- ===== src/World/Calls.antt =====
-- What rename and remove leave behind, and what a program meets that is only ever killed.
use angou.Prelude.{
  ◌≡◌, refl, Bool, true, false, Option, none, some, List, [], ◌∷◌, arith, if◌then◌else◌,
}
use angou.Prelude.{Result, ok, err, Error, io_error, not_exist}
use angou.Prelude.Bytes.{Bytes}
use angou.World.{
  Fate, works, fails, dies, Dir, Node, Entry, Disk, World, M, file_at, has_dir, insert_entry,
  remove_entry, move_node, present, rename, remove, remove_if_there, unless_missing, continue, call,
  outcome, contents, read_file, read_dir, list_dir, file, folder,
}
use angou.World.Files.{same_file, find-insert_entry, find-remove_entry}
use angou.World.Triple.{Post, Post-call}

-- The disk on which one file has been moved, and that without one.
abbrev pub moved : Dir → Bytes → Dir → Bytes → Node → Disk → Disk
moved dir name dir' name' node d = record d {
  entries =
      insert_entry (record { dir = dir'; name = name'; node = node })
        (remove_entry dir name d.entries);
}

abbrev pub without : Dir → Bytes → Disk → Disk
without dir name d = record d { entries = remove_entry dir name d.entries }

pub file_at-moved :
    (dir : Dir) (name : Bytes) (dir' : Dir) (name' : Bytes) (node : Node) (d : Disk) (at : Dir)
    (this : Bytes)
    → file_at (moved dir name dir' name' node d) at this ≡ (
        if same_file dir' name' at this
        then some node
        else if same_file dir name at this
        then none
        else file_at d at this)
unfolding file_at
file_at-moved dir name dir' name' node d at this = ground (
  arith,
  find-insert_entry at this (record { dir = dir'; name = name'; node = node })
      (remove_entry dir name d.entries),
  find-remove_entry at this dir name d.entries,
)

pub file_at-without :
    (dir : Dir) (name : Bytes) (d : Disk) (at : Dir) (this : Bytes)
    → file_at (without dir name d) at this
      ≡ (if same_file dir name at this then none else file_at d at this)
unfolding file_at
file_at-without dir name d at this = find-remove_entry at this dir name d.entries

module _ (dir : Dir) (name : Bytes) (dir' : Dir) (name' : Bytes)
    (Q : Result (Unit {0}) → Disk → Type 0) where
  -- A rename has failed, or found nothing, or moved what was there.
  pub Post-rename :
      (w : World)
      → ((e : Error) → Q (err e) w.disk)
      → ((node : Node)
          → file_at w.disk dir name ≡ some node
          → Q (ok tt) (moved dir name dir' name' node w.disk))
      → Post (rename dir name dir' name') w Q
  unfolding rename
  Post-rename w left taken = Post-call _ Q w (left io_error) (go (has_dir w.disk dir'))
    where
      found :
          (o : Option Node)
          → file_at w.disk dir name ≡ o
          → (let p = move_node o dir name dir' name' w.disk in Q p.0 p.1)
      found none e = left not_exist
      found (some node) e = taken node e

      go :
          (b : Bool)
          → (let p =
                (if b
                  then move_node (file_at w.disk dir name) dir name dir' name' w.disk
                  else (err not_exist, w.disk)) in
              Q p.0 p.1)
      go true = found (file_at w.disk dir name) refl
      go false = left not_exist

module _ (dir : Dir) (name : Bytes) where
  -- A removal has failed, or found nothing, or is made.
  pub Post-remove :
      (Q : Result (Unit {0}) → Disk → Type 0) (w : World)
      → Q (err io_error) w.disk
      → (file_at w.disk dir name ≡ none → Q (err not_exist) w.disk)
      → Q (ok tt) (without dir name w.disk)
      → Post (remove dir name) w Q
  unfolding remove
  Post-remove Q w failed missing gone =
      Post-call _ Q w failed (found (file_at w.disk dir name) refl)
    where
      found :
          (o : Option Node)
          → file_at w.disk dir name ≡ o
          → (let p : Result (Unit {0}) × Disk =
                (if present o then (ok tt, without dir name w.disk) else (err not_exist, w.disk)) in
              Q p.0 p.1)
      found none e = missing e
      found (some node) e = gone

  -- Where it is no error that the file was missing.
  pub Post-remove_if_there :
      (Q : Result (Unit {0}) → Disk → Type 0) (w : World)
      → Q (err io_error) w.disk
      → (file_at w.disk dir name ≡ none → Q (ok tt) w.disk)
      → Q (ok tt) (without dir name w.disk)
      → Post (remove_if_there dir name) w Q
  unfolding remove_if_there
  Post-remove_if_there Q w failed missing gone =
      Post-remove (λ r d. Q (unless_missing r) d) w failed missing gone

  -- A file is read, or the read has failed.
  pub Post-read_file :
      (Q : Result Bytes → Disk → Type 0) (w : World)
      → ((e : Error) → Q (err e) w.disk)
      → ((raw : Bytes) → file_at w.disk dir name ≡ some (file raw) → Q (ok raw) w.disk)
      → Post (read_file dir name) w Q
  unfolding read_file
  Post-read_file Q w failed done =
      Post-call _ Q w (failed io_error) (found (file_at w.disk dir name) refl)
    where
      found : (o : Option Node) → file_at w.disk dir name ≡ o → Q (contents o) w.disk
      found none e = failed not_exist
      found (some (file raw)) e = done raw e
      found (some folder) e = failed io_error

-- A directory is listed, or that has failed.
pub Post-read_dir :
    (dir : Dir) (Q : Result (List Entry) → Disk → Type 0) (w : World)
    → ((e : Error) → Q (err e) w.disk)
    → (has_dir w.disk dir ≡ true → Q (ok (list_dir dir w.disk.entries)) w.disk)
    → Post (read_dir dir) w Q
unfolding read_dir
Post-read_dir dir Q w failed done =
    Post-call _ Q w (failed io_error) (found (has_dir w.disk dir) refl)
  where
    found :
        (b : Bool)
        → has_dir w.disk dir ≡ b
        → Q (if b then ok (list_dir dir w.disk.entries) else err not_exist) w.disk
    found true e = done e
    found false e = failed not_exist

-- No call fails by itself: at most the program is killed.
abbrev pub IsOnlyKilled : List Fate → Type 0
IsOnlyKilled [] = Unit
IsOnlyKilled (works ∷ s) = IsOnlyKilled s
IsOnlyKilled (fails ∷ s) = ⊥
IsOnlyKilled (dies ∷ s) = Unit

module _ {A : Type 0} (act : Disk → Result A × Disk) where
  outcome-IsOnlyKilled :
      (s : List Fate) (w : World)
      → w.schedule ≡ s
      → IsOnlyKilled s
      → IsOnlyKilled (outcome act s w).1.schedule
  outcome-IsOnlyKilled [] w e h = rw e tt
  outcome-IsOnlyKilled (works ∷ s) w e h = h
  outcome-IsOnlyKilled (fails ∷ s) w e h = absurd h
  outcome-IsOnlyKilled (dies ∷ s) w e h = rw e tt

  pub call-IsOnlyKilled :
      (w : World) → IsOnlyKilled w.schedule → IsOnlyKilled (call act w).1.schedule
  call-IsOnlyKilled w h = outcome-IsOnlyKilled w.schedule w refl h

-- The rule for a bind with conditions on the whole world.
pub continue_lem {ℓ κ} :
    {A : Type ℓ} {B : Type κ} (f : A → M B) (R : Result A → World → Type 0)
    (Q : Result B → World → Type 0) (p : Result A × World)
    → R p.0 p.1
    → ((a : A) (w : World) → R (ok a) w → Q (f a w).0 (f a w).1)
    → ((e : Error) (w : World) → R (err e) w → Q (err e) w)
    → Q (continue p f).0 (continue p f).1
continue_lem f R Q (ok a, w) h next stop = next a w h
continue_lem f R Q (err e, w) h next stop = stop e w h

-- The program has been killed.
abbrev pub IsDead : List Fate → Type 0
IsDead [] = ⊥
IsDead (works ∷ s) = ⊥
IsDead (fails ∷ s) = ⊥
IsDead (dies ∷ s) = Unit

module _ {ℓ} {A : Type ℓ} (act : Disk → Result A × Disk) where
  outcome_dead : (s : List Fate) (w : World) → IsDead s → outcome act s w ≡ (err io_error, w)
  outcome_dead [] w h = absurd h
  outcome_dead (works ∷ s) w h = absurd h
  outcome_dead (fails ∷ s) w h = absurd h
  outcome_dead (dies ∷ s) w h = refl

  pub call_dead : (w : World) → IsDead w.schedule → call act w ≡ (err io_error, w)
  call_dead w h = outcome_dead w.schedule w h

  -- Where no call fails by itself, it does what it does, or the program has been killed.
  outcome_killed :
      (s : List Fate) (w : World) (Q : Result A → World → Type 0)
      → w.schedule ≡ s
      → IsOnlyKilled s
      → (IsDead w.schedule → Q (err io_error) w)
      → ((w' : World) → w'.disk ≡ (act w.disk).1 → Q (act w.disk).0 w')
      → Q (outcome act s w).0 (outcome act s w).1
  outcome_killed [] w Q e h dead done = done _ refl
  outcome_killed (works ∷ s) w Q e h dead done = done _ refl
  outcome_killed (fails ∷ s) w Q e h dead done = absurd h
  outcome_killed (dies ∷ s) w Q e h dead done = dead (rw e tt)

  pub call_killed :
      (w : World) (Q : Result A → World → Type 0)
      → IsOnlyKilled w.schedule
      → (IsDead w.schedule → Q (err io_error) w)
      → ((w' : World) → w'.disk ≡ (act w.disk).1 → Q (act w.disk).0 w')
      → Q (call act w).0 (call act w).1
  call_killed w Q h dead done = outcome_killed w.schedule w Q refl h dead done
