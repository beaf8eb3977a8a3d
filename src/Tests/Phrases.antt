-- ===== src/Tests/Phrases.antt =====
-- The passphrase that is generated, at a short list of words.
use angou.Prelude.{
  ℕ, ◌<◌, ◌-◌, ◌≡◌, refl, Bool, true, ◌==◌, Option, some, List, [], ◌∷◌, length, All, arith,
}
use angou.Prelude.{ok}
use angou.Prelude.Bytes.{Bytes, bytes_eq, mem_bytes}
use angou.Passphrase.{count_from, generated_word_count, generate}
use angou.Passphrase.Words.{Distinct, generate-Distinct}

abbrev three_words : List Bytes
three_words = (97 ∷ 98 ∷ []) ∷ (97 ∷ 99 ∷ []) ∷ (100 ∷ []) ∷ []

-- Two words are enough.
abbrev two : ℕ → Bool
two n = n == 2

-- The last word of those that are left.
abbrev last_one : ℕ → ℕ → Option ℕ
last_one i max = some (max - 1)

last_one-below : (i max : ℕ) → 0 < max → (k : ℕ) × (last_one i max ≡ some k) × (k < max)
last_one-below i max h = (max - 1, refl, omega (arith, h))

generate-Distinct_example :
    (picked : List Bytes) × (generate last_one two three_words ≡ ok picked)
    × (length picked ≡ generated_word_count two three_words)
    × All (λ w. mem_bytes w three_words ≡ true) picked
    × Distinct picked
unfolding bytes_eq generated_word_count count_from
generate-Distinct_example =
    generate-Distinct last_one last_one-below two three_words
      (((refl, refl), ((refl, refl), tt)), (((refl, refl), tt), (tt, tt))) (omega arith)
