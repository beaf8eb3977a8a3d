-- ===== src/Prelude/Bytes/Laws.antt =====
-- Laws of the operations on bytes.
use Prim.Native.Nat.{ℕ}
use mathlib.Core.Path.{◌≡◌, refl, ap}
use mathlib.Core.Logic.{◌↔◌, ◌≢◌, inl, inr}
use mathlib.Core.Bool.{true, false}
use mathlib.Core.Option.{some}
use mathlib.Core.List.{[], ◌∷◌, ◌++◌}
use native.Mathlib.Omega.{arith}
use angou.Prelude.Tests.{Option-cases}
use angou.Prelude.Lists.{length, length-append}
use angou.Prelude.Bytes.{
  Bytes, bytes_eq, cut_prefix, has_prefix, has_suffix, trim_suffix, cut, cut_last,
}

pub bytes_eq_iff : (s t : Bytes) → (bytes_eq s t ≡ true) ↔ (s ≡ t)
unfolding bytes_eq
bytes_eq_iff [] [] = (λ h. refl, λ h. refl)
bytes_eq_iff [] (y ∷ t) = (λ h. cc, λ h. cc)
bytes_eq_iff (x ∷ s) [] = (λ h. cc, λ h. cc)
bytes_eq_iff (x ∷ s) (y ∷ t) = ground (arith, bytes_eq_iff s t)

pub bytes_eq_refl : (s : Bytes) → bytes_eq s s ≡ true
bytes_eq_refl s = (bytes_eq_iff s s).1 refl

pub bytes_eq_ne : (s t : Bytes) → s ≢ t → bytes_eq s t ≡ false
bytes_eq_ne s t h = ground (arith, bytes_eq_iff s t)

pub bytes_eq-false : (s t : Bytes) → bytes_eq s t ≡ false → s ≢ t
bytes_eq-false s t h e = ground (arith, bytes_eq_iff s t)

pub cut_prefix-append : (p s : Bytes) → cut_prefix (p ++ s) p ≡ some s
unfolding cut_prefix
cut_prefix-append [] s = refl
cut_prefix-append (x ∷ p) s = ground (arith, cut_prefix-append p s)

pub cut_prefix_sound : (s p : Bytes) {r : Bytes} → cut_prefix s p ≡ some r → s ≡ p ++ r
unfolding cut_prefix
cut_prefix_sound s [] h = ground arith
cut_prefix_sound [] (y ∷ p) h = cc
cut_prefix_sound (x ∷ s) (y ∷ p) {r} h = ground (arith, cut_prefix_sound s p {r = r})

pub has_prefix-append : (p s : Bytes) → has_prefix (p ++ s) p ≡ true
unfolding has_prefix
has_prefix-append p s = rw (cut_prefix-append p s)

pub cut_sound :
    (s sep : Bytes) {before after : Bytes}
    → cut s sep ≡ some (before, after)
    → s ≡ before ++ (sep ++ after)
unfolding cut
cut_sound [] sep h = cc
cut_sound (x ∷ s) sep {before} {after} h = elim (Option-cases (cut_prefix (x ∷ s) sep)) [
  | inl miss ↦ elim (Option-cases (cut s sep)) [
    | inl none_later ↦ ground arith
    | inr ((b, a), later) ↦ ground (arith, cut_sound s sep {before = b} {after = a} later)
  ]
  | inr (r, hit) ↦ ground (arith, cut_prefix_sound (x ∷ s) sep hit)
]

pub cut_last_sound :
    (s sep : Bytes) {before after : Bytes}
    → cut_last s sep ≡ some (before, after)
    → s ≡ before ++ (sep ++ after)
unfolding cut_last
cut_last_sound [] sep h = cc
cut_last_sound (x ∷ s) sep {before} {after} h = elim (Option-cases (cut_last s sep)) [
  | inl none_later ↦ elim (Option-cases (cut_prefix (x ∷ s) sep)) [
    | inl miss ↦ ground arith
    | inr (r, hit) ↦ ground (arith, cut_prefix_sound (x ∷ s) sep hit)
  ]
  | inr ((b, a), later) ↦ ground (arith, cut_last_sound s sep {before = b} {after = a} later)
]

pub has_suffix-append : (s p : Bytes) → has_suffix (s ++ p) p ≡ true
unfolding has_suffix
has_suffix-append [] [] = refl
has_suffix-append [] (x ∷ p) = ground (arith, bytes_eq_refl (x ∷ p))
has_suffix-append (x ∷ s) p = ground (arith, has_suffix-append s p)

longer_ne : (x : ℕ) (s p : Bytes) → bytes_eq (x ∷ (s ++ p)) p ≡ false
longer_ne x s p =
    bytes_eq_ne (x ∷ (s ++ p)) p
      (λ e. omega (arith, ap (λ (l : Bytes). length l) e, length-append {0} s p))

pub trim_suffix-append : (s p : Bytes) → trim_suffix (s ++ p) p ≡ s
unfolding trim_suffix
trim_suffix-append [] [] = refl
trim_suffix-append [] (x ∷ p) = ground (arith, bytes_eq_refl (x ∷ p))
trim_suffix-append (x ∷ s) p = ground (arith, trim_suffix-append s p, longer_ne x s p)
