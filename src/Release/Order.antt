-- ===== src/Release/Order.antt =====
-- CompareVersions is a total order up to versions that it does not tell apart.
use angou.Prelude.{ℕ, ◌≡◌, refl, Bool, true, false, not, List, [], ◌∷◌, arith}
use angou.Prelude.Bytes.{Bytes, bytes_eq, bytes_lt}
use angou.Prelude.Bytes.Laws.{bytes_eq_iff, bytes_eq_refl}
use angou.Release.Versions.{
  Sign, below, same, above, step, split_version, compare_numbers, compare_suffixes,
  compare_versions,
}

abbrev pub opposite : Sign → Sign
opposite below = above
opposite same = same
opposite above = below

bytes_lt_refl : (s : Bytes) → bytes_lt s s ≡ false
unfolding bytes_lt
bytes_lt_refl [] = refl
bytes_lt_refl (x ∷ s) = ground (arith, bytes_lt_refl s)

bytes_lt-swap : (s t : Bytes) → bytes_eq s t ≡ false → bytes_lt s t ≡ not (bytes_lt t s)
unfolding bytes_lt bytes_eq
bytes_lt-swap [] [] h = cc
bytes_lt-swap [] (y ∷ t) h = refl
bytes_lt-swap (x ∷ s) [] h = refl
bytes_lt-swap (x ∷ s) (y ∷ t) h = ground (arith, bytes_lt-swap s t)

bytes_lt_trans : (s t u : Bytes) → bytes_lt s t ≡ true → bytes_lt t u ≡ true → bytes_lt s u ≡ true
unfolding bytes_lt
bytes_lt_trans [] [] u h k = cc
bytes_lt_trans [] (y ∷ t) [] h k = cc
bytes_lt_trans [] (y ∷ t) (z ∷ u) h k = refl
bytes_lt_trans (x ∷ s) [] u h k = cc
bytes_lt_trans (x ∷ s) (y ∷ t) [] h k = cc
bytes_lt_trans (x ∷ s) (y ∷ t) (z ∷ u) h k = ground (arith, bytes_lt_trans s t u)

bytes_eq_swap : (s t : Bytes) → bytes_eq s t ≡ bytes_eq t s
unfolding bytes_eq
bytes_eq_swap [] [] = refl
bytes_eq_swap [] (y ∷ t) = refl
bytes_eq_swap (x ∷ s) [] = refl
bytes_eq_swap (x ∷ s) (y ∷ t) = ground (arith, bytes_eq_swap s t)

step_swap : (n m : ℕ) (r : Sign) → step m n (opposite r) ≡ opposite (step n m r)
step_swap n m r = ground arith

numbers_swap :
    (ns ms : List ℕ) (r : Sign)
    → compare_numbers ms ns (opposite r) ≡ opposite (compare_numbers ns ms r)
unfolding compare_numbers
numbers_swap [] [] r = refl
numbers_swap [] (m ∷ ms) r = rw (numbers_swap [] ms r) (step_swap 0 m (compare_numbers [] ms r))
numbers_swap (n ∷ ns) [] r = rw (numbers_swap ns [] r) (step_swap n 0 (compare_numbers ns [] r))
numbers_swap (n ∷ ns) (m ∷ ms) r =
    rw (numbers_swap ns ms r) (step_swap n m (compare_numbers ns ms r))

suffixes_swap : (p q : Bytes) → compare_suffixes q p ≡ opposite (compare_suffixes p q)
unfolding compare_suffixes bytes_eq
suffixes_swap [] [] = refl
suffixes_swap [] (y ∷ q) = refl
suffixes_swap (x ∷ p) [] = refl
suffixes_swap (x ∷ p) (y ∷ q) =
    ground (arith, bytes_eq_swap (x ∷ p) (y ∷ q), bytes_lt-swap (x ∷ p) (y ∷ q))

-- The order of two versions the other way round is the opposite one.
pub compare_versions_swap : (a b : Bytes) → compare_versions b a ≡ opposite (compare_versions a b)
unfolding compare_versions
compare_versions_swap a b = rw (suffixes_swap (split_version a).1 (split_version b).1) (
    numbers_swap (split_version a).0 (split_version b).0
      (compare_suffixes (split_version a).1 (split_version b).1))

-- Not above
abbrev pub at_most : Sign → Bool
at_most below = true
at_most same = true
at_most above = false

abbrev pub is_above : Sign → Bool
is_above above = true
is_above same = false
is_above below = false

step_chain :
    (n m k : ℕ) (r s t : Sign)
    → (at_most r ≡ true → at_most s ≡ true → at_most t ≡ true)
    → at_most (step n m r) ≡ true
    → at_most (step m k s) ≡ true
    → at_most (step n k t) ≡ true
step_chain n m k r s t chain h g = ground (arith, chain)

numbers_chain :
    (ns ms ks : List ℕ) (r s t : Sign)
    → (at_most r ≡ true → at_most s ≡ true → at_most t ≡ true)
    → at_most (compare_numbers ns ms r) ≡ true
    → at_most (compare_numbers ms ks s) ≡ true
    → at_most (compare_numbers ns ks t) ≡ true
unfolding compare_numbers
numbers_chain [] [] [] r s t chain h g = chain h g
numbers_chain [] [] (k ∷ ks) r s t chain h g =
    step_chain 0 0 k _ _ _ (numbers_chain [] [] ks r s t chain) h g
numbers_chain [] (m ∷ ms) [] r s t chain h g =
    step_chain 0 m 0 _ _ _ (numbers_chain [] ms [] r s t chain) h g
numbers_chain [] (m ∷ ms) (k ∷ ks) r s t chain h g =
    step_chain 0 m k _ _ _ (numbers_chain [] ms ks r s t chain) h g
numbers_chain (n ∷ ns) [] [] r s t chain h g =
    step_chain n 0 0 _ _ _ (numbers_chain ns [] [] r s t chain) h g
numbers_chain (n ∷ ns) [] (k ∷ ks) r s t chain h g =
    step_chain n 0 k _ _ _ (numbers_chain ns [] ks r s t chain) h g
numbers_chain (n ∷ ns) (m ∷ ms) [] r s t chain h g =
    step_chain n m 0 _ _ _ (numbers_chain ns ms [] r s t chain) h g
numbers_chain (n ∷ ns) (m ∷ ms) (k ∷ ks) r s t chain h g =
    step_chain n m k _ _ _ (numbers_chain ns ms ks r s t chain) h g

suffixes_chain :
    (p q r : Bytes)
    → at_most (compare_suffixes p q) ≡ true
    → at_most (compare_suffixes q r) ≡ true
    → at_most (compare_suffixes p r) ≡ true
unfolding compare_suffixes
suffixes_chain p q r h g =
    ground (arith, bytes_eq_iff p q, bytes_eq_iff q r, bytes_eq_refl p, bytes_lt_trans p q r)

-- If one version is at most a second, and that at most a third, then the first is at most the third.
pub compare_versions_trans :
    (a b c : Bytes)
    → at_most (compare_versions a b) ≡ true
    → at_most (compare_versions b c) ≡ true
    → at_most (compare_versions a c) ≡ true
unfolding compare_versions
compare_versions_trans a b c =
    numbers_chain (split_version a).0 (split_version b).0 (split_version c).0 _ _ _
      (suffixes_chain (split_version a).1 (split_version b).1 (split_version c).1)

pub compare_versions_refl : (a : Bytes) → compare_versions a a ≡ same
unfolding compare_versions compare_suffixes compare_numbers
compare_versions_refl a = rw (bytes_eq_refl (split_version a).1) (numbers_refl (split_version a).0)
  where
    numbers_refl : (ns : List ℕ) → compare_numbers ns ns same ≡ same
    numbers_refl [] = refl
    numbers_refl (n ∷ ns) = rw (numbers_refl ns) (ground arith)
