-- ===== src/Scan/Reach.antt =====
-- internal/core/scan.go, Scan: which files of a tree it offers.
use mathlib.Core.List.{append_assoc}
use mathlib.Core.List.Memᴰ
use mathlib.Core.List.{Memᴰ}
use angou.Prelude.{
  ℕ, ◌+◌, ◌≤◌, ◌<◌, ◌≡◌, ◌↔◌, inl, inr, refl, sym, ◌∙◌, true, false, ◌||◌, ◌==◌, ltb, Option, none,
  some, List, [], ◌∷◌, ◌++◌, length, All, Bool-cases, arith,
}
use angou.Prelude.Bytes.{Bytes, mem_bytes}
use angou.Scan.{looks_secret}
use angou.Scan.Walk.{
  File, Tree, leaf, branch, Trees, nil, cons, Candidate, max_scan_size, scan_depth, skip_dirs,
  read_head, is_regular, is_entered, offered, sized, visit, walk, walk_all, scan,
}

-- The file `f` stands in the tree, in the directory that one comes to by `dirs`.
pub data At : Trees → List Bytes → File → Type 0 where
  here : {f : File} {ts : Trees} → At (cons (leaf f) ts) [] f
  later :
      {t : Tree} {ts : Trees} {dirs : List Bytes} {f : File} → At ts dirs f → At (cons t ts) dirs f
  inside :
      {name : Bytes} {kids ts : Trees} {dirs : List Bytes} {f : File}
      → At kids dirs f
      → At (cons (branch name kids) ts) (name ∷ dirs) f

-- The name of the directory that one comes to by `dirs`.
abbrev pub last_dir : Bytes → List Bytes → Bytes
last_dir root [] = root
last_dir root (d ∷ ds) = last_dir d ds

module _ (lower : Bytes → Bytes) where
  -- A regular file that is neither empty nor too large, offered for a reason that its name and its
  -- first bytes give.
  pub record IsOffered (parent : Bytes) (f : File) (c : Candidate) : Type 0 where
    pub regular : is_regular f.kind ≡ true
    pub size : f.size ≡ some c.size
    pub filled : 0 < c.size
    pub small : c.size ≤ max_scan_size
    pub reason : looks_secret lower parent f.name (read_head f) (λ q. read_head f) ≡ some c.reason

  module _ (dirs : List Bytes) (parent : Bytes) (f : File) (c : Candidate) where
    abbrev Visited : Type 0
    Visited = (c.path ≡ dirs ++ (f.name ∷ [])) × IsOffered parent f c

    offered_sound :
        (size : ℕ) (r : Option Bytes)
        → is_regular f.kind ≡ true
        → f.size ≡ some size
        → 0 < size
        → size ≤ max_scan_size
        → looks_secret lower parent f.name (read_head f) (λ q. read_head f) ≡ r
        → Memᴰ c (offered lower (dirs ++ (f.name ∷ [])) size r)
        → Visited
    offered_sound size none k s p q r m = absurd (Memᴰ.not-nil m)
    offered_sound size (some reason) k s p q r m =
        rw (Memᴰ.eq_of_singleton m)
          (refl, record { regular = k; size = s; filled = p; small = q; reason = r })

    sized_sound :
        (o : Option ℕ)
        → is_regular f.kind ≡ true
        → f.size ≡ o
        → Memᴰ c (sized lower (dirs ++ (f.name ∷ [])) parent f o)
        → Visited
    sized_sound none k s m = absurd (Memᴰ.not-nil m)
    sized_sound (some size) k s m = elim (Bool-cases (size == 0 || ltb max_scan_size size)) [
      | inl out ↦ absurd (Memᴰ.not-nil (rw out at m))
      | inr fits ↦ offered_sound size _ k s (ground arith) (ground arith) refl (rw fits at m)
    ]

    visit_sound : Memᴰ c (visit lower dirs parent f) → Visited
    unfolding visit
    visit_sound m = elim (Bool-cases (is_regular f.kind)) [
      | inl k ↦ sized_sound f.size k refl (rw k at m)
      | inr k ↦ absurd (Memᴰ.not-nil (rw k at m))
    ]

    visit_complete : Visited → Memᴰ c (visit lower dirs parent f)
    unfolding visit
    visit_complete (p, o) =
        rw (o.regular, o.size, fits c.size o.filled o.small, o.reason, ← p) (Memᴰ.head refl)
      where
        fits : (n : ℕ) → 0 < n → n ≤ max_scan_size → (n == 0 || ltb max_scan_size n) ≡ false
        fits n a b = ground arith

  -- Every directory that one goes through is entered, the first of them at this depth.
  abbrev Entered : ℕ → List Bytes → Type 0
  Entered depth [] = Unit
  Entered depth (d ∷ ds) = (is_entered depth d ≡ true) × Entered (depth + 1) ds

  -- Where a candidate comes from.
  record Source (dirs : List Bytes) (parent : Bytes) (depth : ℕ) (ts : Trees) (c : Candidate)
      : Type 0 where
    pub below : List Bytes
    pub f : File
    pub at : At ts below f
    pub entered : Entered depth below
    pub path : c.path ≡ dirs ++ (below ++ (f.name ∷ []))
    pub offered : IsOffered (last_dir parent below) f c

  module _ (c : Candidate) where
    Source-later :
        (dirs : List Bytes) (parent : Bytes) (depth : ℕ) (t : Tree) (ts : Trees)
        → Source dirs parent depth ts c
        → Source dirs parent depth (cons t ts) c
    Source-later dirs parent depth t ts s = record {
      below = s.below;
      f = s.f;
      at = later s.at;
      entered = s.entered;
      path = s.path;
      offered = s.offered;
    }

    Source-here :
        (dirs : List Bytes) (parent : Bytes) (depth : ℕ) (f : File) (ts : Trees)
        → Visited dirs parent f c
        → Source dirs parent depth (cons (leaf f) ts) c
    Source-here dirs parent depth f ts (p, o) = record {
      below = [];
      f = f;
      at = here;
      entered = tt;
      path = p;
      offered = o;
    }

    Source-inside :
        (dirs : List Bytes) (parent : Bytes) (depth : ℕ) (name : Bytes) (kids ts : Trees)
        → is_entered depth name ≡ true
        → Source (dirs ++ (name ∷ [])) name (depth + 1) kids c
        → Source dirs parent depth (cons (branch name kids) ts) c
    Source-inside dirs parent depth name kids ts e s = record {
      below = name ∷ s.below;
      f = s.f;
      at = inside s.at;
      entered = (e, s.entered);
      path = s.path ∙ append_assoc dirs (name ∷ []) (s.below ++ (s.f.name ∷ []));
      offered = s.offered;
    }

    walk_all_sound :
        (dirs : List Bytes) (parent : Bytes) (depth : ℕ) (ts : Trees)
        → Memᴰ c (walk_all lower dirs parent depth ts)
        → Source dirs parent depth ts c
    unfolding walk_all
    walk_all_sound dirs parent depth nil m = absurd (Memᴰ.not-nil m)
    walk_all_sound dirs parent depth (cons (leaf f) ts) m =
        elim (Memᴰ.append_cases (visit lower dirs parent f) m) [
          | inl k ↦ Source-here dirs parent depth f ts (visit_sound dirs parent f c k)
          | inr k ↦
              Source-later dirs parent depth (leaf f) ts (walk_all_sound dirs parent depth ts k)
        ]
    walk_all_sound dirs parent depth (cons (branch name kids) ts) m =
        elim (Memᴰ.append_cases (walk lower dirs parent depth (branch name kids)) m) [
          | inl k ↦ elim (Bool-cases (is_entered depth name)) [
            | inl e ↦
                Source-inside dirs parent depth name kids ts e
                  (walk_all_sound (dirs ++ (name ∷ [])) name (depth + 1) kids (rw e at k))
            | inr e ↦ absurd (Memᴰ.not-nil (rw e at k))
          ]
          | inr k ↦
              Source-later dirs parent depth (branch name kids) ts
                (walk_all_sound dirs parent depth ts k)
        ]

    walk_all_complete :
        (dirs : List Bytes) (parent : Bytes) (depth : ℕ) (ts : Trees) (below : List Bytes)
        (f : File)
        → At ts below f
        → Entered depth below
        → c.path ≡ dirs ++ (below ++ (f.name ∷ []))
        → IsOffered (last_dir parent below) f c
        → Memᴰ c (walk_all lower dirs parent depth ts)
    unfolding walk_all
    walk_all_complete dirs parent depth _ _ f (here {ts = ts}) e p o =
        Memᴰ.append_left (walk_all lower dirs parent depth ts)
          (visit_complete dirs parent f c (p, o))
    walk_all_complete dirs parent depth _ below f (later {t = t} {ts = ts} at) e p o =
        Memᴰ.append_right (walk lower dirs parent depth t)
          (walk_all_complete dirs parent depth ts below f at e p o)
    walk_all_complete dirs parent depth _ _ f
          (inside {name = name} {kids = kids} {ts = ts} {dirs = below} at) (e, es) p o =
        Memᴰ.append_left (walk_all lower dirs parent depth ts) (
          rw e (
            walk_all_complete (dirs ++ (name ∷ [])) name (depth + 1) kids below f at es
              (p ∙ sym (append_assoc dirs (name ∷ []) (below ++ (f.name ∷ [])))) o))

  abbrev Unskipped : List Bytes → Type 0
  Unskipped dirs = All (λ d. mem_bytes d skip_dirs ≡ false) dirs

  entered_lem :
      (depth : ℕ) (d : Bytes)
      → is_entered depth d ≡ true
      → (mem_bytes d skip_dirs ≡ false) × (depth ≤ 4)
  unfolding is_entered
  entered_lem depth d h = (ground arith, ground arith)

  enters_lem :
      (depth : ℕ) (d : Bytes)
      → mem_bytes d skip_dirs ≡ false
      → depth ≤ 4
      → is_entered depth d ≡ true
  unfolding is_entered
  enters_lem depth d h k = ground arith

  Entered-sound :
      (depth : ℕ) (dirs : List Bytes)
      → depth ≤ 5
      → Entered depth dirs
      → Unskipped dirs × (depth + length dirs ≤ 5)
  Entered-sound depth [] h e = (tt, omega arith)
  Entered-sound depth (d ∷ ds) h (e, es) =
      let (u, k) = entered_lem depth d e in
      let (us, b) = Entered-sound (depth + 1) ds (omega arith) es in ((u, us), omega arith)

  Entered-complete :
      (depth : ℕ) (dirs : List Bytes)
      → Unskipped dirs
      → depth + length dirs ≤ 5
      → Entered depth dirs
  Entered-complete depth [] u h = tt
  Entered-complete depth (d ∷ ds) (u, us) h =
      (enters_lem depth d u (omega arith), Entered-complete (depth + 1) ds us (omega arith))

  -- A file of the tree under no directory that is skipped and at most four directories down.
  pub record Origin (root : Bytes) (ts : Trees) (c : Candidate) : Type 0 where
    pub dirs : List Bytes
    pub f : File
    pub at : At ts dirs f
    pub unskipped : Unskipped dirs
    pub shallow : length dirs ≤ scan_depth
    pub path : c.path ≡ dirs ++ (f.name ∷ [])
    pub offered : IsOffered (last_dir root dirs) f c

  -- Scan returns a candidate exactly when it comes from a regular file of the tree, of 1 byte to
  -- 1 MiB, at most four directories down, below no directory whose name is on the list of those that
  -- are skipped, whose name, parent directory and first 512 bytes give the reason.
  pub scan_iff :
      (root : Bytes) (ts : Trees) (c : Candidate) → Memᴰ c (scan lower root ts) ↔ Origin root ts c
  unfolding scan
  scan_iff root ts c = (sound, complete)
    where
      sound : Memᴰ c (walk_all lower [] root 1 ts) → Origin root ts c
      sound m =
          let s = walk_all_sound c [] root 1 ts m in
          let (u, b) = Entered-sound 1 s.below (omega arith) s.entered in
          record {
            dirs = s.below;
            f = s.f;
            at = s.at;
            unskipped = u;
            shallow = omega arith;
            path = s.path;
            offered = s.offered;
          }

      complete : Origin root ts c → Memᴰ c (walk_all lower [] root 1 ts)
      complete o =
          walk_all_complete c [] root 1 ts o.dirs o.f o.at
            (Entered-complete 1 o.dirs o.unskipped (omega (arith, o.shallow))) o.path o.offered
