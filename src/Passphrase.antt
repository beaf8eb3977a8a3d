-- ===== src/Passphrase.antt =====
-- internal/passphrase/passphrase.go: Generate, which draws words without replacement.
pub mod Words
use angou.Prelude.{
  ℕ, zero, suc, ◌-◌, Bool, true, false, ◌==◌, Option, none, some, List, [], ◌∷◌, length,
  if◌then◌else◌,
}
use angou.Prelude.{Result, ok, err, bad_argument, crypto_error}
use angou.Prelude.Bytes.{Bytes}

-- What stands behind the words that have been picked, once the word at position k of it has been
-- swapped to its front: that word, and the rest. `none` is an index out of range.
abbrev pub keep_first : Bytes → Option (Bytes × List Bytes) → Option (Bytes × List Bytes)
keep_first y none = none
keep_first y (some (w, rest)) = some (w, y ∷ rest)

-- The word at position k of a list, and the list with x in its place.
unfoldable pub exchange : Bytes → ℕ → List Bytes → Option (Bytes × List Bytes)
exchange x k [] = none
exchange x zero (y ∷ ys) = some (y, x ∷ ys)
exchange x (suc k) (y ∷ ys) = keep_first y (exchange x k ys)

unfoldable pub swap_front : ℕ → List Bytes → Option (Bytes × List Bytes)
unfolding exchange
swap_front k [] = none
swap_front zero (x ∷ xs) = some (x, xs)
swap_front (suc k) (x ∷ xs) = exchange x k xs

abbrev pub put_first : Bytes → Result (List Bytes) → Result (List Bytes)
put_first w (ok ws) = ok (w ∷ ws)
put_first w (err e) = err e

-- `reaches n` says whether n words drawn without replacement carry MinBits.
unfoldable pub count_from : (ℕ → Bool) → ℕ → ℕ → ℕ
count_from reaches n zero = 0
count_from reaches n (suc left) =
    let later = count_from reaches (suc n) left in if reaches n then n else later

unfoldable pub generated_word_count : (ℕ → Bool) → List Bytes → ℕ
unfolding count_from
generated_word_count reaches words = count_from reaches 1 (length words)

-- `choose i max` is the i-th rand.Int below max; `none` is its error. Of the words still to pick.
module _ (choose : ℕ → ℕ → Option ℕ) where
  unfoldable pub pick : ℕ → ℕ → List Bytes → Result (List Bytes)
  unfolding swap_front
  pick zero i pool = ok []
  pick (suc n) i pool = elim (choose i (length pool)) [
    | none ↦ err crypto_error
    | some k ↦ elim (swap_front k pool) [
      | none ↦ err bad_argument
      | some (w, rest) ↦ put_first w (pick n (suc i) rest)
    ]
  ]

  -- Generate, before the words are joined.
  unfoldable pub generate : (ℕ → Bool) → List Bytes → Result (List Bytes)
  unfolding generated_word_count pick
  generate reaches words =
      if generated_word_count reaches words == 0
      then err bad_argument
      else pick (generated_word_count reaches words) 0 words
