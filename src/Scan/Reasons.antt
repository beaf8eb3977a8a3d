-- ===== src/Scan/Reasons.antt =====
-- internal/core/scan.go, looksSecret: what the reasons rest on.
use mathlib.Core.List.{append_assoc}
use angou.Prelude.{
  ◌≡◌, ◌≢◌, inl, inr, refl, ◌∙◌, Bool, true, false, ◌&&◌, ◌||◌, Option, none, some, List, [], ◌∷◌,
  ◌++◌, All, Bool-cases, arith, if◌then◌else◌,
}
use angou.Prelude.Bytes.{Bytes, bytes, bytes_eq, has_prefix, has_suffix, contains}
use angou.Prelude.Bytes.Laws.{has_prefix-append, bytes_eq-false}
use angou.Scan.{
  Pattern, secret_patterns, is_template, looks_like_private_key, applies, first_reason,
  looks_secret,
}

contains-append : (a p s : Bytes) → contains (a ++ (p ++ s)) p ≡ true
unfolding contains
contains-append [] [] [] = refl
contains-append [] [] (x ∷ s) = rw (has_prefix-append [] (x ∷ s)) refl
contains-append [] (x ∷ p) s = rw (has_prefix-append (x ∷ p) s) refl
contains-append (y ∷ a) p s =
    rw (contains-append a p s) (true_right (has_prefix (y ∷ (a ++ (p ++ s))) p))
  where
    true_right : (b : Bool) → (b || true) ≡ true
    true_right true = refl
    true_right false = refl

some-injective : {v w : Bytes} → Option.some v ≡ some w → v ≡ w
some-injective e = cc

module _ (lower : Bytes → Bytes) (parent name : Bytes) where
  -- looksLikePrivateKey does not ask that the first bytes begin with a key's header: any file that is
  -- no public key or template by its name is offered as a private key if the armour of anything
  -- begins in its first bytes, and the words "PRIVATE KEY" stand anywhere behind that, whatever is
  -- read of it later.
  pub looks_secret-apart :
      (before between after : Bytes) (again : Bytes → Bytes)
      → has_suffix name (bytes ".pub") ≡ false
      → is_template lower name ≡ false
      → looks_secret lower parent name
          (before ++ (bytes "-----BEGIN" ++ (between ++ (bytes "PRIVATE KEY" ++ after))))
          again
        ≡ some (bytes "private key header")
  unfolding looks_secret looks_like_private_key
  looks_secret-apart before between after again p t =
      rw
        (
          p,
          t,
          contains-append before (bytes "-----BEGIN") (between ++ (bytes "PRIVATE KEY" ++ after)),
          words,
        )
        refl
    where
      words :
          contains
            (before ++ (bytes "-----BEGIN" ++ (between ++ (bytes "PRIVATE KEY" ++ after))))
            (bytes "PRIVATE KEY")
          ≡ true
      words =
          rw
            (
              ← append_assoc before (bytes "-----BEGIN")
                  (between ++ (bytes "PRIVATE KEY" ++ after)),
              ← append_assoc (before ++ bytes "-----BEGIN") between (bytes "PRIVATE KEY" ++ after),
            )
            (contains-append ((before ++ bytes "-----BEGIN") ++ between) (bytes "PRIVATE KEY")
              after)

  module _ (head : Bytes) where
    abbrev OtherReason : Pattern → Type 0
    OtherReason p = applies lower p parent name (λ r. head) ≡ true → p.reason ≢ bytes "private key"

    first_reason-ne :
        (ps : List Pattern) {r : Bytes}
        → All OtherReason ps
        → first_reason lower ps parent name (λ r. head) ≡ some r
        → r ≢ bytes "private key"
    unfolding first_reason
    first_reason-ne [] a h = cc
    first_reason-ne (p ∷ ps) {r} (a, as_) h =
        elim (Bool-cases (applies lower p parent name (λ r. head))) [
          | inl t ↦ λ e. a t (some-injective (rw t at h) ∙ e)
          | inr t ↦ first_reason-ne ps as_ (rw t at h)
        ]

    secret_patterns-OtherReason :
        looks_like_private_key head ≡ false → All OtherReason (secret_patterns lower)
    unfolding bytes_eq applies
    secret_patterns-OtherReason h = (
      λ t. bytes_eq-false _ _ refl,
      (
        λ t. bytes_eq-false _ _ refl,
        (
          λ t. bytes_eq-false _ _ refl,
          (
            λ t. bytes_eq-false _ _ refl,
            (
              λ t. bytes_eq-false _ _ refl,
              (
                λ t. bytes_eq-false _ _ refl,
                (
                  λ t. bytes_eq-false _ _ refl,
                  (
                    λ t. bytes_eq-false _ _ refl,
                    (
                      λ t. bytes_eq-false _ _ refl,
                      (
                        λ t. bytes_eq-false _ _ refl,
                        (
                          λ t. bytes_eq-false _ _ refl,
                          (
                            λ t. absurd (no_header _ t),
                            (λ t. bytes_eq-false _ _ refl, (λ t. bytes_eq-false _ _ refl, tt)),
                          ),
                        ),
                      ),
                    ),
                  ),
                ),
              ),
            ),
          ),
        ),
      ),
    )
      where
        no_header : (a : Bool) → (a && looks_like_private_key head) ≡ true → ⊥
        no_header a t = ground arith

    decided :
        (passed header : Bool) (rest : Option Bytes) {r : Bytes}
        → (if passed then none else if header then some (bytes "private key header") else rest)
          ≡ some r
        → (header ≡ false → rest ≡ some r → r ≢ bytes "private key")
        → r ≢ bytes "private key"
    decided true header rest h other = cc
    decided false true rest h other = λ e. header_ne (some-injective h ∙ e)
      where
        header_ne : bytes "private key header" ≢ bytes "private key"
        header_ne e = cc
    decided false false rest h other = other refl h

    -- The rule on the extensions .pem, .key, .crt and .cer decides nothing: whatever the name, the
    -- directory and the first bytes are, if they are the same at each read, the reason that
    -- looksSecret gives is never that rule's.
    pub looks_secret-ne :
        {r : Bytes}
        → looks_secret lower parent name head (λ q. head) ≡ some r
        → r ≢ bytes "private key"
    unfolding looks_secret first_reason
    looks_secret-ne h =
        decided (has_suffix name (bytes ".pub") || is_template lower name)
          (looks_like_private_key head)
          (first_reason lower (secret_patterns lower) parent name (λ r. head)) h
          (λ k. first_reason-ne (secret_patterns lower) (secret_patterns-OtherReason k))
