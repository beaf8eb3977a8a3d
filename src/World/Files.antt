-- ===== src/World/Files.antt =====
-- What each change of the entries does to the file at a name.
use angou.Prelude.{
  ◌≡◌, refl, ◌↔◌, Bool, true, ◌&&◌, none, some, List, [], ◌∷◌, arith, if◌then◌else◌,
}
use angou.Prelude.Bytes.{Bytes, bytes_eq}
use angou.Prelude.Bytes.Laws.{bytes_eq_iff}
use angou.World.{
  Dir, store_root, bootstrap_dir, staging_dir, dir_eq, Entry, is_at, find_entry, insert_entry,
  remove_entry, drop_dir,
}

pub dir_eq_refl : (a : Dir) → dir_eq a a ≡ true
unfolding dir_eq
dir_eq_refl store_root = refl
dir_eq_refl bootstrap_dir = refl
dir_eq_refl staging_dir = refl

dir_eq_sound : (a b : Dir) → dir_eq a b ≡ true → a ≡ b
unfolding dir_eq
dir_eq_sound store_root b h = ground arith
dir_eq_sound bootstrap_dir b h = ground arith
dir_eq_sound staging_dir b h = ground arith

pub dir_eq_iff : (a b : Dir) → (dir_eq a b ≡ true) ↔ (a ≡ b)
dir_eq_iff a b = (dir_eq_sound a b, λ e. rw e (dir_eq_refl b))

-- Whether two names are one file.
abbrev pub same_file : Dir → Bytes → Dir → Bytes → Bool
same_file dir name dir' name' = dir_eq dir dir' && bytes_eq name name'

pub find-insert_entry :
    (dir : Dir) (name : Bytes) (new : Entry) (es : List Entry)
    → find_entry dir name (insert_entry new es)
      ≡ (if same_file new.dir new.name dir name then some new.node else find_entry dir name es)
unfolding find_entry insert_entry is_at
find-insert_entry dir name new [] = ground arith
find-insert_entry dir name new (e ∷ es) = ground (
  arith,
  find-insert_entry dir name new es,
  bytes_eq_iff e.name name,
  bytes_eq_iff e.name new.name,
  bytes_eq_iff new.name name,
  dir_eq_iff e.dir dir,
  dir_eq_iff e.dir new.dir,
  dir_eq_iff new.dir dir,
)

pub find-remove_entry :
    (dir : Dir) (name : Bytes) (dir' : Dir) (name' : Bytes) (es : List Entry)
    → find_entry dir name (remove_entry dir' name' es)
      ≡ (if same_file dir' name' dir name then none else find_entry dir name es)
unfolding find_entry remove_entry is_at
find-remove_entry dir name dir' name' [] = ground arith
find-remove_entry dir name dir' name' (e ∷ es) = ground (
  arith,
  find-remove_entry dir name dir' name' es,
  bytes_eq_iff e.name name,
  bytes_eq_iff e.name name',
  bytes_eq_iff name' name,
  dir_eq_iff e.dir dir,
  dir_eq_iff e.dir dir',
  dir_eq_iff dir' dir,
)

pub find-drop_dir :
    (dir : Dir) (name : Bytes) (dir' : Dir) (es : List Entry)
    → find_entry dir name (drop_dir dir' es)
      ≡ (if dir_eq dir' dir then none else find_entry dir name es)
unfolding find_entry drop_dir is_at
find-drop_dir dir name dir' [] = ground arith
find-drop_dir dir name dir' (e ∷ es) = ground (
  arith,
  find-drop_dir dir name dir' es,
  bytes_eq_iff e.name name,
  dir_eq_iff e.dir dir,
  dir_eq_iff e.dir dir',
  dir_eq_iff dir' dir,
)
