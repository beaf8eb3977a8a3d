-- ===== src/Prelude/Bytes/Space.antt =====
-- `strings.TrimSpace`: the code points with the property White_Space, by their UTF-8 bytes.
use Prim.Native.Nat.{ℕ, zero, suc, ◌-◌}
use mathlib.Core.Bool.{Bool, ◌&&◌, ◌||◌}
use mathlib.Core.List.{[], ◌∷◌, reverse}
use angou.Prelude.Tests.{◌==◌, between, if◌then◌else◌}
use angou.Prelude.Bytes.{Bytes}

abbrev space1 : ℕ → Bool
space1 a = between 9 13 a || a == 32

-- U+0085 and U+00A0
abbrev space2 : ℕ → ℕ → Bool
space2 a b = a == 0xC2 && (b == 0x85 || b == 0xA0)

-- U+1680, U+2000 to U+200A, U+2028, U+2029, U+202F, U+205F, U+3000
abbrev space3 : ℕ → ℕ → ℕ → Bool
space3 a b c =
    (a == 0xE1 && b == 0x9A && c == 0x80)
    || (a == 0xE2 && b == 0x80 && (between 0x80 0x8A c || c == 0xA8 || c == 0xA9 || c == 0xAF))
    || (a == 0xE2 && b == 0x81 && c == 0x9F)
    || (a == 0xE3 && b == 0x80 && c == 0x80)

-- How many bytes the white space at the front takes, 0 if there is none.
space_size : Bytes → ℕ
space_size [] = 0
space_size (a ∷ []) = if space1 a then 1 else 0
space_size (a ∷ b ∷ []) = if space1 a then 1 else if space2 a b then 2 else 0
space_size (a ∷ b ∷ c ∷ _) =
    if space1 a then 1 else if space2 a b then 2 else if space3 a b c then 3 else 0

-- The same at the end of a text, which is given in reverse.
space_size_end : Bytes → ℕ
space_size_end [] = 0
space_size_end (a ∷ []) = if space1 a then 1 else 0
space_size_end (b ∷ a ∷ []) = if space1 b then 1 else if space2 a b then 2 else 0
space_size_end (c ∷ b ∷ a ∷ _) =
    if space1 c then 1 else if space2 b c then 2 else if space3 a b c then 3 else 0

trim_by : (Bytes → ℕ) → ℕ → Bytes → Bytes
trim_by size skip [] = []
trim_by size (suc skip) (x ∷ s) = trim_by size skip s
trim_by size zero (x ∷ s) =
    let rest = trim_by size (size (x ∷ s) - 1) s in if size (x ∷ s) == 0 then x ∷ s else rest

unfoldable pub trim_space : Bytes → Bytes
unfolding space_size space_size_end trim_by
trim_space s = reverse (trim_by space_size_end 0 (reverse (trim_by space_size 0 s)))
