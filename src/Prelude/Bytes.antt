-- ===== src/Prelude/Bytes.antt =====
-- Go strings and byte slices are lists of bytes. The operations of `strings` and `bytes` that the
-- program uses, on separators that are not empty.
pub mod Laws
pub mod Space
pub mod Utf8
pub mod Numerals
use Prim.Native.Nat.{ℕ, zero, suc, ◌+◌}
use Prim.Native.Char.{code}
use Prim.Native.String.{String}
use mathlib.Core.Bool.{Bool, true, false, ◌&&◌, ◌||◌}
use mathlib.Core.Option.{Option, none, some}
use mathlib.Core.List.{List, [], ◌∷◌, ◌++◌}
use angou.Prelude.Tests.{◌==◌, ltb, between, if◌then◌else◌}

abbrev pub Bytes : Type 0
Bytes = List ℕ

-- The bytes of an ASCII literal.
abbrev pub bytes : String → Bytes
bytes String.[] = []
bytes (String.◌∷◌ c s) = code c ∷ bytes s

unfoldable pub bytes_eq : Bytes → Bytes → Bool
bytes_eq [] [] = true
bytes_eq [] (y ∷ t) = false
bytes_eq (x ∷ s) [] = false
bytes_eq (x ∷ s) (y ∷ t) = x == y && bytes_eq s t

-- Go's `<` on strings
unfoldable pub bytes_lt : Bytes → Bytes → Bool
bytes_lt s [] = false
bytes_lt [] (y ∷ t) = true
bytes_lt (x ∷ s) (y ∷ t) = ltb x y || (x == y && bytes_lt s t)

abbrev pub is_empty : Bytes → Bool
is_empty [] = true
is_empty (x ∷ s) = false

-- strings.CutPrefix: the rest, if the prefix was there
unfoldable pub cut_prefix : Bytes → Bytes → Option Bytes
cut_prefix s [] = some s
cut_prefix [] (y ∷ p) = none
cut_prefix (x ∷ s) (y ∷ p) = let rest = cut_prefix s p in if x == y then rest else none

abbrev pub present : Option Bytes → Bool
present none = false
present (some s) = true

unfoldable pub has_prefix : Bytes → Bytes → Bool
unfolding cut_prefix
has_prefix s p = present (cut_prefix s p)

unfoldable pub has_suffix : Bytes → Bytes → Bool
unfolding bytes_eq
has_suffix [] p = is_empty p
has_suffix (x ∷ s) p = bytes_eq (x ∷ s) p || has_suffix s p

-- strings.TrimSuffix
unfoldable pub trim_suffix : Bytes → Bytes → Bytes
unfolding bytes_eq
trim_suffix [] p = []
trim_suffix (x ∷ s) p = let rest = trim_suffix s p in if bytes_eq (x ∷ s) p then [] else x ∷ rest

-- strings.Contains
unfoldable pub contains : Bytes → Bytes → Bool
unfolding has_prefix
contains [] p = is_empty p
contains (x ∷ s) p = has_prefix (x ∷ s) p || contains s p

abbrev pub push_front : ℕ → Option (Bytes × Bytes) → Option (Bytes × Bytes)
push_front x none = none
push_front x (some (before, after)) = some (x ∷ before, after)

-- strings.Cut: what stands before and after the first occurrence
unfoldable pub cut : Bytes → Bytes → Option (Bytes × Bytes)
unfolding cut_prefix
cut [] sep = none
cut (x ∷ s) sep =
    let later = push_front x (cut s sep) in
    elim (cut_prefix (x ∷ s) sep) [ some after ↦ some ([], after) | none ↦ later ]

-- bytes.LastIndex, with the two sides of the last occurrence
unfoldable pub cut_last : Bytes → Bytes → Option (Bytes × Bytes)
unfolding cut_prefix
cut_last [] sep = none
cut_last (x ∷ s) sep = elim (cut_last s sep) [
  | some (before, after) ↦ some (x ∷ before, after)
  | none ↦ elim (cut_prefix (x ∷ s) sep) [ some after ↦ some ([], after) | none ↦ none ]
]

abbrev pub cons_head : ℕ → List Bytes → List Bytes
cons_head x [] = (x ∷ []) ∷ []
cons_head x (s ∷ rest) = (x ∷ s) ∷ rest

-- strings.Split at a one-byte separator
unfoldable pub split : ℕ → Bytes → List Bytes
split c [] = [] ∷ []
split c (x ∷ s) = let rest = split c s in if x == c then [] ∷ rest else cons_head x rest

-- the ASCII part of strings.ToLower
unfoldable pub to_lower : Bytes → Bytes
to_lower [] = []
to_lower (x ∷ s) = (if between b'A' b'Z' x then x + 32 else x) ∷ to_lower s

unfoldable pub mem_bytes : Bytes → List Bytes → Bool
unfolding bytes_eq
mem_bytes s [] = false
mem_bytes s (t ∷ ts) = bytes_eq s t || mem_bytes s ts
