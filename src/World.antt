-- ===== src/World.antt =====
-- The operating system as the store uses it: files in the store's root, in its bootstrap directory
-- and in the staging directory of a rekey; calls that may fail; and random draws.
pub mod Files
pub mod Triple
pub mod Atomic
pub mod Calls
pub mod Shrinks
use angou.Prelude.{
  ℕ, suc, Bool, true, false, ◌&&◌, Option, none, some, List, [], ◌∷◌, ◌++◌, ◌+◌, if◌then◌else◌, not,
}
use angou.Prelude.{Result, ok, err, Error, not_exist, io_error, already_exists, parse_error}
use angou.Prelude.Bytes.{Bytes, bytes, bytes_eq, bytes_lt}

-- The three directories, by what they are to the store.
pub data Dir : Type 0 where
  store_root bootstrap_dir staging_dir : Dir

unfoldable pub dir_eq : Dir → Dir → Bool
dir_eq store_root store_root = true
dir_eq bootstrap_dir bootstrap_dir = true
dir_eq staging_dir staging_dir = true
dir_eq _ _ = false

pub data Node : Type 0 where
  file : Bytes → Node
  folder : Node

pub record Entry : Type 0 where
  pub dir : Dir
  pub name : Bytes
  pub node : Node

pub record Disk : Type 0 where
  pub has_root : Bool
  pub has_bootstrap : Bool
  pub has_staging : Bool
  pub entries : List Entry

unfoldable pub has_dir : Disk → Dir → Bool
has_dir d store_root = d.has_root
has_dir d bootstrap_dir = d.has_bootstrap
has_dir d staging_dir = d.has_staging

unfoldable pub is_at : Dir → Bytes → Entry → Bool
unfolding dir_eq bytes_eq
is_at dir name e = dir_eq e.dir dir && bytes_eq e.name name

unfoldable pub find_entry : Dir → Bytes → List Entry → Option Node
find_entry dir name [] = none
find_entry dir name (e ∷ es) = if is_at dir name e then some e.node else find_entry dir name es

-- Entries of one directory are kept in the order of their names, in which ReadDir lists them.
unfoldable pub insert_entry : Entry → List Entry → List Entry
unfolding bytes_lt
insert_entry new [] = new ∷ []
insert_entry new (e ∷ es) =
    let later = e ∷ insert_entry new es in
    if is_at new.dir new.name e
    then new ∷ es
    else if dir_eq e.dir new.dir && bytes_lt new.name e.name
    then new ∷ e ∷ es
    else later

unfoldable pub remove_entry : Dir → Bytes → List Entry → List Entry
remove_entry dir name [] = []
remove_entry dir name (e ∷ es) =
    let rest = remove_entry dir name es in if is_at dir name e then rest else e ∷ rest

unfoldable pub drop_dir : Dir → List Entry → List Entry
unfolding dir_eq
drop_dir dir [] = []
drop_dir dir (e ∷ es) = let rest = drop_dir dir es in if dir_eq e.dir dir then rest else e ∷ rest

unfoldable pub list_dir : Dir → List Entry → List Entry
unfolding dir_eq
list_dir dir [] = []
list_dir dir (e ∷ es) = let rest = list_dir dir es in if dir_eq e.dir dir then e ∷ rest else rest

unfoldable pub file_at : Disk → Dir → Bytes → Option Node
file_at d dir name = find_entry dir name d.entries

-- What becomes of a system call: it does what it does; it fails, and the program goes on; or the
-- program has been killed, and neither it nor any call behind it has an effect any more.
pub data Fate : Type 0 where
  works fails dies : Fate

-- `schedule` says what becomes of the calls to come, and every call behind its end works; `draws`
-- counts what has been taken from crypto/rand.
pub record World : Type 0 where
  pub disk : Disk
  pub schedule : List Fate
  pub draws : ℕ

abbrev pub M {ℓ} : Type ℓ → Type ℓ
M A = World → Result A × World

abbrev pub pure {ℓ} : {A : Type ℓ} → A → M A
pure a w = (ok a, w)

abbrev pub fail {ℓ} : {A : Type ℓ} → Error → M A
fail e w = (err e, w)

abbrev pub lift {ℓ} : {A : Type ℓ} → Result A → M A
lift r w = (r, w)

abbrev pub continue {ℓ κ} :
    {A : Type ℓ} {B : Type κ} → Result A × World → (A → M B) → Result B × World
continue (ok a, w) f = f a w
continue (err e, w) f = (err e, w)

infixl 5 ◌>>=◌ ◌>>◌
abbrev pub ◌>>=◌ {ℓ κ} : {A : Type ℓ} {B : Type κ} → M A → (A → M B) → M B
◌>>=◌ m f w = continue (m w) f

abbrev pub ◌>>◌ {ℓ κ} : {A : Type ℓ} {B : Type κ} → M A → M B → M B
m >> k = m >>= λ _. k

-- defer: the clean-up runs whatever `m` returned, and its own failure is ignored.
abbrev pub finally {ℓ κ} : {A : Type ℓ} {B : Type κ} → M A → M B → M A
finally m cleanup w = let (r, w') = m w in (r, (cleanup w').1)

-- err, handled: the result is a value
abbrev pub try {ℓ} : {A : Type ℓ} → M A → M (Result A)
try m w = let (r, w') = m w in (ok r, w')

abbrev pub draw : M ℕ
draw w = (ok w.draws, record w { draws = w.draws + 1 })

abbrev pub outcome {ℓ} :
    {A : Type ℓ} → (Disk → Result A × Disk) → List Fate → World → Result A × World
outcome act [] w = let (r, d) = act w.disk in (r, record w { disk = d })
outcome act (works ∷ s) w = let (r, d) = act w.disk in (r, record w { disk = d; schedule = s })
outcome act (fails ∷ s) w = (err io_error, record w { schedule = s })
outcome act (dies ∷ s) w = (err io_error, w)

-- One system call: it fails and changes nothing, or does what it does.
abbrev pub call {ℓ} : {A : Type ℓ} → (Disk → Result A × Disk) → M A
call act w = outcome act w.schedule w

abbrev pub contents : Option Node → Result Bytes
contents none = err not_exist
contents (some (file b)) = ok b
contents (some folder) = err io_error

-- os.ReadFile
unfoldable pub read_file : Dir → Bytes → M Bytes
read_file dir name = call (λ d. (contents (file_at d dir name), d))

abbrev pub present : Option Node → Bool
present none = false
present (some n) = true

-- os.Stat
unfoldable pub stat : Dir → Bytes → M (Unit {0})
stat dir name = call (λ d. (if present (file_at d dir name) then ok tt else err not_exist, d))

-- os.ReadDir
unfoldable pub read_dir : Dir → M (List Entry)
read_dir dir = call (λ d. (if has_dir d dir then ok (list_dir dir d.entries) else err not_exist, d))

-- os.Remove
unfoldable pub remove : Dir → Bytes → M (Unit {0})
remove dir name = call (λ d.
    if present (file_at d dir name)
    then (ok tt, record d { entries = remove_entry dir name d.entries })
    else (err not_exist, d))

abbrev pub unless_missing : Result (Unit {0}) → Result (Unit {0})
unless_missing (ok u) = ok u
unless_missing (err not_exist) = ok tt
unless_missing (err e) = err e

-- os.Remove, where it is no error that the file is not there.
unfoldable pub remove_if_there : Dir → Bytes → M (Unit {0})
unfolding remove
remove_if_there dir name = do outcome ← try (remove dir name); lift (unless_missing outcome)

abbrev pub move_node : Option Node → Dir → Bytes → Dir → Bytes → Disk → Result (Unit {0}) × Disk
move_node none dir name dir' name' d = (err not_exist, d)
move_node (some node) dir name dir' name' d = (
  ok tt,
  record d {
    entries =
        insert_entry (record { dir = dir'; name = name'; node = node })
          (remove_entry dir name d.entries);
  },
)

-- os.Rename, which replaces what the new name held. fsx.Rename is this call on every system but
-- Windows.
unfoldable pub rename : Dir → Bytes → Dir → Bytes → M (Unit {0})
rename dir name dir' name' = call (λ d.
    if has_dir d dir'
    then move_node (file_at d dir name) dir name dir' name' d
    else (err not_exist, d))

abbrev set_dir : Dir → Bool → Disk → Disk
set_dir store_root b d = record d { has_root = b }
set_dir bootstrap_dir b d = record d { has_bootstrap = b }
set_dir staging_dir b d = record d { has_staging = b }

-- os.MkdirAll
unfoldable pub mkdir_all : Dir → M (Unit {0})
mkdir_all dir = call (λ d. (ok tt, set_dir dir true d))

-- os.RemoveAll
unfoldable pub remove_all : Dir → M (Unit {0})
remove_all dir =
    call (λ d. (ok tt, record (set_dir dir false d) { entries = drop_dir dir d.entries }))

abbrev pub put_file : Dir → Bytes → Bytes → Disk → Disk
put_file dir name content d = record d {
  entries = insert_entry (record { dir = dir; name = name; node = file content }) d.entries;
}

unfoldable pub temp_prefix : Bytes
temp_prefix = bytes ".angou-tmp-"

-- os.CreateTemp: an empty file under the prefix and random digits. Where the name is taken it would
-- draw others; here that is an error.
unfoldable pub create_temp : (ℕ → Bytes) → Dir → M Bytes
create_temp digits dir = do
  n ← draw
  let name = temp_prefix ++ digits n
  call (λ d.
      if has_dir d dir && not (present (file_at d dir name))
      then (ok name, put_file dir name [] d)
      else (err already_exists, d))

-- A call on the open temporary file that changes nothing the store reads: chmod, fsync, close.
unfoldable pub touch : M (Unit {0})
touch = call (λ d. (ok tt, d))

unfoldable pub write_temp : Dir → Bytes → Bytes → M (Unit {0})
write_temp dir name content = call (λ d. (ok tt, put_file dir name content d))

-- writeFileAtomic, behind os.CreateTemp
unfoldable pub commit_temp : Dir → Bytes → Bytes → Bytes → M (Unit {0})
unfolding touch write_temp rename
commit_temp dir tmp name content = do
  touch
  write_temp dir tmp content
  touch
  touch
  rename dir tmp dir name

unfoldable pub write_file_atomic : (ℕ → Bytes) → Dir → Bytes → Bytes → M (Unit {0})
unfolding create_temp commit_temp remove
write_file_atomic digits dir name content = do
  tmp ← create_temp digits dir
  finally (commit_temp dir tmp name content) (remove dir tmp)
