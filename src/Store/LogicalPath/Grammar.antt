-- ===== src/Store/LogicalPath/Grammar.antt =====
-- What the grammar accepts, said without the checks that other checks imply.
use angou.Prelude.{
  ℕ, ◌≡◌, refl, sym, ap, ◌∙◌, ◌≢◌, ◌↔◌, inl, inr, true, false, not, List, [], ◌∷◌, arith, ◌==◌,
  Bool-cases, any, all, All,
}
use angou.Prelude.{ok, guard, >>=-eq-ok}
use angou.Prelude.Bytes.{Bytes, bytes, has_prefix, has_suffix, contains, split, is_empty}
use angou.Prelude.Bytes.Laws.{bytes_eq_iff}
use angou.Prelude.Bytes.Utf8.{runes}
use angou.Store.LogicalPath.{
  slash, backslash, is_control, drive_letter, is_drive_or_unc, good_segment, check_path,
  normalize_path,
}

-- A component is good if it is none of the three that the grammar refuses.
abbrev pub IsComponent : Bytes → Type 0
IsComponent seg = (seg ≢ []) × (seg ≢ bytes ".") × (seg ≢ bytes "..")

good_segment_iff : (seg : Bytes) → (good_segment seg ≡ true) ↔ IsComponent seg
unfolding good_segment
good_segment_iff [] = ground arith
good_segment_iff (x ∷ s) =
    ground (arith, bytes_eq_iff (x ∷ s) (bytes "."), bytes_eq_iff (x ∷ s) (bytes ".."))

all_iff : (segs : List Bytes) → (all good_segment segs ≡ true) ↔ All IsComponent segs
all_iff [] = (λ h. tt, λ h. refl)
all_iff (seg ∷ segs) = ground (arith, good_segment_iff seg, all_iff segs)

-- No byte of the text is `c`.
abbrev pub Lacks : ℕ → Bytes → Type 0
Lacks c = All (λ b. b ≢ c)

Lacks-iff : (c : ℕ) (s : Bytes) → (contains s (c ∷ []) ≡ false) ↔ Lacks c s
unfolding contains
Lacks-iff c [] = (λ h. tt, λ h. refl)
Lacks-iff c (x ∷ s) = ground (arith, Lacks-iff c s)

split-cons : (c : ℕ) (s : Bytes) → (h : Bytes) × (t : List Bytes) × (split c s ≡ h ∷ t)
unfolding split
split-cons c [] = ([], [], refl)
split-cons c (x ∷ s) =
    let (h, t, e) = split-cons c s in
    elim (Bool-cases (x == c)) [
      | inl here ↦ ([], split c s, rw here refl)
      | inr later ↦ (x ∷ h, t, rw (later, e) refl)
    ]

-- A leading separator leaves an empty first component.
leading_slash :
    (p : Bytes) → has_prefix p (slash ∷ []) ≡ true → all good_segment (split slash p) ≡ false
unfolding has_prefix split good_segment
leading_slash [] h = cc
leading_slash (x ∷ s) h = ground arith

-- A trailing separator leaves an empty component behind the first.
trailing_slash :
    (p : Bytes) (h : Bytes) (t : List Bytes)
    → has_suffix p (slash ∷ []) ≡ true
    → split slash p ≡ h ∷ t
    → all good_segment t ≡ false
unfolding has_suffix split good_segment
trailing_slash [] h t ends e = cc
trailing_slash (x ∷ []) h t ends e = ground arith
trailing_slash (x ∷ y ∷ s) h t ends e =
    let (h', t', parts) = split-cons slash (y ∷ s) in
    ground (arith, trailing_slash (y ∷ s) h' t', parts)

unc_backslash :
    (p : Bytes)
    → has_prefix p (backslash ∷ backslash ∷ []) ≡ true
    → contains p (backslash ∷ []) ≡ true
unfolding has_prefix contains
unc_backslash [] h = cc
unc_backslash (x ∷ s) h = ground arith

-- The paths that the grammar describes.
pub record IsLogicalPath (p : Bytes) : Type 0 where
  pub no_nul : Lacks 0 p
  pub no_control : any is_control (runes p) ≡ false
  pub no_backslash : Lacks backslash p
  pub no_drive : drive_letter p ≡ false
  pub components : All IsComponent (split slash p)

check_path-accepts : (p q : Bytes) → check_path p ≡ ok q → IsLogicalPath p × (q ≡ p)
unfolding check_path is_drive_or_unc
check_path-accepts p q h = (
  record {
    no_nul = (Lacks-iff 0 p).0 (ground arith);
    no_control = ground arith;
    no_backslash = (Lacks-iff backslash p).0 (ground arith);
    no_drive = ground arith;
    components = (all_iff (split slash p)).0 (ground arith);
  },
  ground arith,
)

check_path_complete : (p : Bytes) → IsLogicalPath p → check_path p ≡ ok p
unfolding check_path is_drive_or_unc
check_path_complete p l =
    let (h, t, parts) = split-cons slash p in
    let clean : contains p (0 ∷ []) ≡ false = (Lacks-iff 0 p).1 l.no_nul in
    let plain : contains p (backslash ∷ []) ≡ false = (Lacks-iff backslash p).1 l.no_backslash in
    let good : all good_segment (split slash p) ≡ true = (all_iff (split slash p)).1 l.components in
    ground (arith, leading_slash p, trailing_slash p h t, parts, unc_backslash p)

-- The check accepts exactly the paths of the grammar, and returns them unchanged: the code's
-- tests for a leading or trailing separator and for a UNC prefix refuse nothing more.
pub check_path_iff : (p q : Bytes) → (check_path p ≡ ok q) ↔ (IsLogicalPath p × (q ≡ p))
check_path_iff p q = (check_path-accepts p q, λ (l, e). rw e (check_path_complete p l))

IsLogicalPath-nonempty : (p : Bytes) → IsLogicalPath p → is_empty p ≡ false
unfolding split
IsLogicalPath-nonempty [] l = absurd (l.components.0.0 refl)
IsLogicalPath-nonempty (x ∷ p) l = refl

pub normalize_path-stable :
    (nfc : Bytes → Bytes) (p : Bytes) → IsLogicalPath p → nfc p ≡ p → normalize_path nfc p ≡ ok p
unfolding normalize_path
normalize_path-stable nfc p l e = rw (IsLogicalPath-nonempty p l, e) (check_path_complete p l)

module _ (nfc : Bytes → Bytes) (nfc_idem : (s : Bytes) → nfc (nfc s) ≡ nfc s) where
  -- Where NFC normalisation is idempotent, a path that `NormalizePath` returns is in the grammar,
  -- is the NFC form of the input, and is returned unchanged when it is normalised again.
  pub normalize_path_idem :
      (p q : Bytes)
      → normalize_path nfc p ≡ ok q
      → IsLogicalPath q × (q ≡ nfc p) × (normalize_path nfc q ≡ ok q)
  unfolding normalize_path
  normalize_path_idem p q h =
      let (u, nonempty, checked) = >>=-eq-ok (guard (not (is_empty p)) _) _ h in
      let (l, e) = check_path-accepts (nfc p) q checked in
      let l' : IsLogicalPath q = rw e l in
      (l', e, normalize_path-stable nfc q l' (ap nfc e ∙ nfc_idem p ∙ sym e))
