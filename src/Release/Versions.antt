-- ===== src/Release/Versions.antt =====
-- internal/release/release.go: CompareVersions and splitVersion.
use angou.Prelude.{ℕ, Option, none, some, List, [], ◌∷◌, ◌==◌, ltb, if◌then◌else◌}
use angou.Prelude.Bytes.{Bytes, bytes, bytes_eq, bytes_lt, cut, cut_prefix, split, is_empty}
use angou.Prelude.Bytes.Numerals.{parse_int}

-- The results -1, 0 and 1.
pub data Sign : Type 0 where
  below same above : Sign

-- strings.TrimPrefix(v, "v")
abbrev without_v : Bytes → Option Bytes → Bytes
without_v v none = v
without_v v (some rest) = rest

abbrev first_cut : Bytes → Option (Bytes × Bytes) → Bytes × Bytes
first_cut s none = (s, [])
first_cut s (some p) = p

abbrev prepend : Option ℕ → List ℕ → List ℕ
prepend none rest = []
prepend (some n) rest = n ∷ rest

-- The numbers up to the first part that is none.
unfoldable pub leading_numbers : List Bytes → List ℕ
leading_numbers [] = []
leading_numbers (part ∷ parts) = prepend (parse_int part) (leading_numbers parts)

unfoldable pub split_version : Bytes → List ℕ × Bytes
split_version v =
    let (numeric, pre) =
      first_cut (without_v v (cut_prefix v (bytes "v")))
        (cut (without_v v (cut_prefix v (bytes "v"))) (bytes "-")) in
    (leading_numbers (split b'.' numeric), pre)

abbrev pub step : ℕ → ℕ → Sign → Sign
step n m rest = if n == m then rest else if ltb n m then below else above

-- The loop: a number that is missing counts as zero.
unfoldable pub compare_numbers : List ℕ → List ℕ → Sign → Sign
compare_numbers [] [] otherwise = otherwise
compare_numbers [] (m ∷ ms) otherwise = step 0 m (compare_numbers [] ms otherwise)
compare_numbers (n ∷ ns) [] otherwise = step n 0 (compare_numbers ns [] otherwise)
compare_numbers (n ∷ ns) (m ∷ ms) otherwise = step n m (compare_numbers ns ms otherwise)

-- The switch on the pre-release suffixes.
unfoldable pub compare_suffixes : Bytes → Bytes → Sign
unfolding bytes_eq
compare_suffixes p q =
    if bytes_eq p q
    then same
    else if is_empty p
    then above
    else if is_empty q
    then below
    else if bytes_lt p q
    then below
    else above

unfoldable pub compare_versions : Bytes → Bytes → Sign
unfolding compare_numbers compare_suffixes
compare_versions a b =
    let (a_num, a_pre) = split_version a in
    let (b_num, b_pre) = split_version b in
    compare_numbers a_num b_num (compare_suffixes a_pre b_pre)
