-- ===== src/Prelude/Bytes/Numerals.antt =====
-- strconv: decimal numbers in 64 bits. A signed word is the natural number below 2 ^ 64 of the same
-- bits.
use Prim.Native.Nat.{ℕ, ◌+◌, ◌-◌, ◌*◌, ◌%◌, ◌^◌}
use mathlib.Core.Bool.{Bool, true, false, ◌&&◌}
use mathlib.Core.Option.{Option, none, some}
use mathlib.Core.List.{[], ◌∷◌}
use angou.Prelude.Tests.{◌==◌, leb, ltb, if◌then◌else◌}
use angou.Prelude.Bytes.{Bytes}

abbrev pub words : ℕ
words = 2 ^ 64

abbrev pub half : ℕ
half = 2 ^ 63

abbrev is_digit : ℕ → Bool
is_digit c = leb 48 c && leb c 57

-- The value of digits behind others of the value `n`, if each is a digit.
unfoldable pub digits_from : ℕ → Bytes → Option ℕ
digits_from n [] = some n
digits_from n (c ∷ s) =
    let rest = digits_from (n * 10 + (c - 48)) s in if is_digit c then rest else none

unfoldable pub magnitude : Bytes → Option ℕ
unfolding digits_from
magnitude [] = none
magnitude (c ∷ s) = digits_from 0 (c ∷ s)

abbrev signed_word : Bool → Option ℕ → Option ℕ
signed_word negative none = none
signed_word false (some m) = if ltb m half then some m else none
signed_word true (some m) = if leb m half then some ((words - m) % words) else none

-- strconv.ParseInt(text, 10, 64), and strconv.Atoi where an int has 64 bits
unfoldable pub parse_int : Bytes → Option ℕ
unfolding magnitude
parse_int [] = none
parse_int (c ∷ s) =
    if c == 45
    then signed_word true (magnitude s)
    else if c == 43
    then signed_word false (magnitude s)
    else signed_word false (magnitude (c ∷ s))
