-- ===== src/Scan/Walk.antt =====
-- internal/core/scan.go, Scan: the walk of a directory tree.
use angou.Prelude.{
  ℕ, ◌+◌, Bool, true, false, not, ◌||◌, ◌==◌, ltb, Option, none, some, List, [], ◌∷◌, ◌++◌, take,
  if◌then◌else◌,
}
use angou.Prelude.Bytes.{Bytes, bytes, mem_bytes}
use angou.Scan.{looks_secret}

-- What DirEntry says of an entry that is no directory, its Info if that could be had, and its
-- content if it can be read. The content does not change while it is looked at.
pub data Kind : Type 0 where
  regular symlink special : Kind

pub record File : Type 0 where
  pub name : Bytes
  pub kind : Kind
  pub size : Option ℕ
  pub content : Option Bytes

-- A tree as filepath.WalkDir meets it: entries in the order of their names, and of a directory that
-- cannot be read those that could.
mutual
  pub data Tree : Type 0 where
    leaf : File → Tree
    branch : Bytes → Trees → Tree

  pub data Trees : Type 0 where
    nil : Trees
    cons : Tree → Trees → Trees

-- The path below the root, outermost first.
pub record Candidate : Type 0 where
  pub path : List Bytes
  pub reason : Bytes
  pub size : ℕ

abbrev pub max_scan_size : ℕ
max_scan_size = 1048576

abbrev pub scan_depth : ℕ
scan_depth = 4

abbrev pub head_bytes : ℕ
head_bytes = 512

abbrev pub skip_dirs : List Bytes
skip_dirs =
    bytes ".git"
    ∷ bytes "node_modules"
    ∷ bytes ".cache"
    ∷ bytes ".venv"
    ∷ bytes "venv"
    ∷ bytes "vendor"
    ∷ bytes "target"
    ∷ bytes "build"
    ∷ bytes ".gradle"
    ∷ bytes ".cargo"
    ∷ bytes ".rustup"
    ∷ bytes ".npm"
    ∷ bytes ".local"
    ∷ bytes ".mozilla"
    ∷ bytes "Downloads"
    ∷ bytes "snap"
    ∷ bytes ".claude"
    ∷ bytes ".vscode"
    ∷ bytes ".idea"
    ∷ bytes ".pki"
    ∷ bytes "__pycache__"
    ∷ bytes ".pytest_cache"
    ∷ bytes ".terraform"
    ∷ bytes "site-packages"
    ∷ bytes "dist-packages"
    ∷ bytes "pkgconfig"
    ∷ bytes "man"
    ∷ bytes "share"
    ∷ bytes "miniforge3"
    ∷ bytes "miniconda3"
    ∷ bytes ".pyenv"
    ∷ bytes ".nvm"
    ∷ bytes ".sdkman"
    ∷ bytes ".goenv"
    ∷ []

-- readHead
unfoldable pub read_head : File → Bytes
read_head f = elim f.content [ none ↦ [] | some content ↦ take head_bytes content ]

abbrev pub is_regular : Kind → Bool
is_regular regular = true
is_regular symlink = false
is_regular special = false

-- A directory below the root at this depth is entered.
unfoldable pub is_entered : ℕ → Bytes → Bool
unfolding mem_bytes
is_entered depth name = not (mem_bytes name skip_dirs || ltb scan_depth depth)

module _ (lower : Bytes → Bytes) where
  abbrev pub offered : List Bytes → ℕ → Option Bytes → List Candidate
  offered path size none = []
  offered path size (some reason) = record { path = path; reason = reason; size = size } ∷ []

  abbrev pub sized : List Bytes → Bytes → File → Option ℕ → List Candidate
  sized path parent f none = []
  sized path parent f (some size) =
      if size == 0 || ltb max_scan_size size
      then []
      else offered path size (looks_secret lower parent f.name (read_head f) (λ r. read_head f))

  -- The callback on an entry that is no directory, in the directory `parent`.
  unfoldable pub visit : List Bytes → Bytes → File → List Candidate
  unfolding read_head looks_secret
  visit dirs parent f =
      if is_regular f.kind then sized (dirs ++ (f.name ∷ [])) parent f f.size else []

  unfoldable mutual
    unfolding visit is_entered

    pub walk : List Bytes → Bytes → ℕ → Tree → List Candidate
    walk dirs parent depth (leaf f) = visit dirs parent f
    walk dirs parent depth (branch name entries) =
        let below = walk_all (dirs ++ (name ∷ [])) name (depth + 1) entries in
        if is_entered depth name then below else []

    pub walk_all : List Bytes → Bytes → ℕ → Trees → List Candidate
    walk_all dirs parent depth nil = []
    walk_all dirs parent depth (cons t ts) =
        walk dirs parent depth t ++ walk_all dirs parent depth ts

  -- Scan of a directory with this name and these entries.
  unfoldable pub scan : Bytes → Trees → List Candidate
  unfolding walk_all
  scan root entries = walk_all [] root 1 entries
