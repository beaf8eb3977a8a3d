-- ===== src/Passphrase/Words.antt =====
-- internal/passphrase/passphrase.go, Generate: the words that it picks.
use angou.Prelude.{
  ℕ, zero, suc, ◌+◌, ◌≤◌, ◌<◌, ◌≢◌, ◌||◌, ◌≡◌, refl, sym, ap, Bool, true, false, Bool-cases, inl,
  inr, Option, none, some, List, [], ◌∷◌, length, All, arith,
}
use angou.Prelude.{Result, ok, err, ok-injective, bad_argument, crypto_error}
use angou.Prelude.Bytes.{Bytes, bytes_eq, mem_bytes}
use angou.Prelude.Bytes.Laws.{bytes_eq_refl}
use angou.Passphrase.{
  keep_first, exchange, swap_front, put_first, pick, count_from, generated_word_count, generate,
}

abbrev pub Apart : Bytes → List Bytes → Type 0
Apart w ws = All (λ v. (bytes_eq v w ≡ false) × (bytes_eq w v ≡ false)) ws

-- No word stands twice in the list.
abbrev pub Distinct : List Bytes → Type 0
Distinct [] = Unit
Distinct (w ∷ ws) = Apart w ws × Distinct ws

word_of : Option (Bytes × List Bytes) → Bytes
word_of none = []
word_of (some (w, rest)) = w

rest_of : Option (Bytes × List Bytes) → List Bytes
rest_of none = []
rest_of (some (w, rest)) = rest

pair-injective :
    {v w : Bytes} {r s : List Bytes}
    → ◌≡◌ {A = Option (Bytes × List Bytes)} (some (v, r)) (some (w, s))
    → (v ≡ w) × (r ≡ s)
unfolding word_of rest_of
pair-injective h = (ap word_of h, ap rest_of h)

-- What a swap gives of a list: a word of it, and the rest.
record Split (ws : List Bytes) (w : Bytes) (rest : List Bytes) : Type 1 where
  pub keeps : (P : Bytes → Type 0) → All P ws → P w × All P rest
  pub apart : Distinct ws → Apart w rest × Distinct rest

Split-front : (x y : Bytes) (ys : List Bytes) → Split (x ∷ y ∷ ys) y (x ∷ ys)
Split-front x y ys = record {
  keeps = λ P (px, (py, pys)). (py, (px, pys));
  apart = λ ((yx, xys), (yys, d)). (((yx.1, yx.0), yys), (xys, d));
}

Split-behind :
    (x y : Bytes) (ys : List Bytes) (w : Bytes) (rest : List Bytes)
    → Split (x ∷ ys) w rest
    → Split (x ∷ y ∷ ys) w (y ∷ rest)
Split-behind x y ys w rest s = record {
  keeps = λ P (px, (py, pys)). let (pw, pr) = s.keeps P (px, pys) in (pw, (py, pr));
  apart = λ ((yx, xys), (yys, d)).
      let (wr, dr) = s.apart (xys, d) in
      let (wy, yr) =
        s.keeps (λ v. (bytes_eq v y ≡ false) × (bytes_eq y v ≡ false)) ((yx.1, yx.0), yys) in
      (((wy.1, wy.0), wr), (yr, dr));
}

exchange-Split :
    (x : Bytes) (k : ℕ) (ws : List Bytes) (w : Bytes) (rest : List Bytes)
    → exchange x k ws ≡ some (w, rest)
    → Split (x ∷ ws) w rest
unfolding exchange
exchange-Split x k [] w rest h = cc
exchange-Split x zero (y ∷ ys) w rest h =
    let e = pair-injective h in rw (← e.0, ← e.1) (Split-front x y ys)
exchange-Split x (suc k) (y ∷ ys) w rest h =
    behind (exchange x k ys) refl h (λ v r. exchange-Split x k ys v r)
  where
    behind :
        (o : Option (Bytes × List Bytes))
        → exchange x k ys ≡ o
        → keep_first y o ≡ some (w, rest)
        → ((v : Bytes) (r : List Bytes) → exchange x k ys ≡ some (v, r) → Split (x ∷ ys) v r)
        → Split (x ∷ y ∷ ys) w rest
    behind none e g ih = cc
    behind (some (v, r)) e g ih =
        let i = pair-injective g in rw (← i.0, ← i.1) (Split-behind x y ys v r (ih v r e))

swap_front-Split :
    (k : ℕ) (pool : List Bytes) (w : Bytes) (rest : List Bytes)
    → swap_front k pool ≡ some (w, rest)
    → Split pool w rest
unfolding swap_front
swap_front-Split k [] w rest h = cc
swap_front-Split zero (x ∷ xs) w rest h =
    let e = pair-injective h in rw (← e.0, ← e.1) (record { keeps = λ P p. p; apart = λ d. d })
swap_front-Split (suc k) (x ∷ xs) w rest h = exchange-Split x k xs w rest h

module _ (choose : ℕ → ℕ → Option ℕ) where
  -- What has been picked of a pool.
  record Picked (n : ℕ) (pool picked : List Bytes) : Type 1 where
    pub count : length picked ≡ n
    pub keeps : (P : Bytes → Type 0) → All P pool → All P picked
    pub distinct : Distinct pool → Distinct picked

  pick-Picked :
      (n i : ℕ) (pool picked : List Bytes) → pick choose n i pool ≡ ok picked → Picked n pool picked
  unfolding pick
  pick-Picked zero i pool picked h =
      rw (← ok-injective h) (record { count = refl; keeps = λ P a. tt; distinct = λ d. tt })
  pick-Picked (suc n) i pool picked h =
      chosen (choose i (length pool)) h (λ k w rest more e g. pick-Picked n (suc i) rest more g)
    where
      Later : Type 1
      Later =
          (k : ℕ) (w : Bytes) (rest more : List Bytes)
          → swap_front k pool ≡ some (w, rest)
          → pick choose n (suc i) rest ≡ ok more
          → Picked n rest more

      put :
          (k : ℕ) (w : Bytes) (rest : List Bytes) (r : Result (List Bytes))
          → swap_front k pool ≡ some (w, rest)
          → pick choose n (suc i) rest ≡ r
          → put_first w r ≡ ok picked
          → Later
          → Picked (suc n) pool picked
      put k w rest (ok more) e g done later =
          let s = swap_front-Split k pool w rest e in
          let p = later k w rest more e g in
          rw (← ok-injective done) (record {
            count = ap suc p.count;
            keeps = λ P a. let (pw, pr) = s.keeps P a in (pw, p.keeps P pr);
            distinct = λ d.
                let (wr, dr) = s.apart d in
                (p.keeps (λ v. (bytes_eq v w ≡ false) × (bytes_eq w v ≡ false)) wr, p.distinct dr);
          })
      put k w rest (err x) e g done later = cc

      swapped :
          (k : ℕ) (o : Option (Bytes × List Bytes))
          → swap_front k pool ≡ o
          → elim o [
            | none ↦ err bad_argument
            | some (w, rest) ↦ put_first w (pick choose n (suc i) rest)
          ]
            ≡ ok picked
          → Later
          → Picked (suc n) pool picked
      swapped k none e done later = cc
      swapped k (some (w, rest)) e done later =
          put k w rest (pick choose n (suc i) rest) e refl done later

      chosen :
          (o : Option ℕ)
          → elim o [
            | none ↦ err crypto_error
            | some k ↦ elim (swap_front k pool) [
              | none ↦ err bad_argument
              | some (w, rest) ↦ put_first w (pick choose n (suc i) rest)
            ]
          ]
            ≡ ok picked
          → Later
          → Picked (suc n) pool picked
      chosen none done later = cc
      chosen (some k) done later = swapped k (swap_front k pool) refl done later

exchange-total :
    (x : Bytes) (k : ℕ) (ws : List Bytes)
    → k < length ws
    → (w : Bytes) × (rest : List Bytes) × (exchange x k ws ≡ some (w, rest))
      × (length rest ≡ length ws)
unfolding exchange
exchange-total x k [] h = absurd (omega arith)
exchange-total x zero (y ∷ ys) h = (y, x ∷ ys, refl, refl)
exchange-total x (suc k) (y ∷ ys) h =
    let (w, rest, e, l) = exchange-total x k ys (omega arith) in (w, y ∷ rest, rw e refl, ap suc l)

swap_front-total :
    (k : ℕ) (pool : List Bytes)
    → k < length pool
    → (w : Bytes) × (rest : List Bytes) × (swap_front k pool ≡ some (w, rest))
      × (length pool ≡ suc (length rest))
unfolding swap_front
swap_front-total k [] h = absurd (omega arith)
swap_front-total zero (x ∷ xs) h = (x, xs, refl, refl)
swap_front-total (suc k) (x ∷ xs) h =
    let (w, rest, e, l) = exchange-total x k xs (omega arith) in (w, rest, e, ap suc (sym l))

All-mem :
    (ws all : List Bytes)
    → ((w : Bytes) → mem_bytes w ws ≡ true → mem_bytes w all ≡ true)
    → All (λ w. mem_bytes w all ≡ true) ws
unfolding mem_bytes
All-mem [] all sub = tt
All-mem (v ∷ ws) all sub =
    (sub v (rw (bytes_eq_refl v) refl), All-mem ws all (λ w m. sub w (true_right (bytes_eq w v) m)))
  where
    true_right : (b : Bool) {c : Bool} → c ≡ true → (b || c) ≡ true
    true_right b e = ground arith

count_from-le : (reaches : ℕ → Bool) (m left : ℕ) → count_from reaches (suc m) left ≤ m + left
unfolding count_from
count_from-le reaches m zero = omega arith
count_from-le reaches m (suc left) = elim (Bool-cases (reaches (suc m))) [
  | inl e ↦ rw e (omega arith)
  | inr e ↦ rw e (omega (arith, count_from-le reaches (suc m) left))
]

module _ (choose : ℕ → ℕ → Option ℕ)
    (in_range : (i max : ℕ) → 0 < max → (k : ℕ) × (choose i max ≡ some k) × (k < max)) where
  pick_step :
      (n i : ℕ) (pool : List Bytes) (k : ℕ) (w : Bytes) (rest more : List Bytes)
      → choose i (length pool) ≡ some k
      → swap_front k pool ≡ some (w, rest)
      → pick choose n (suc i) rest ≡ ok more
      → pick choose (suc n) i pool ≡ ok (w ∷ more)
  unfolding pick
  pick_step n i pool k w rest more chosen swapped e = rw (chosen, pick) (rw (swapped) (rw e refl))

  pick-total :
      (n i : ℕ) (pool : List Bytes)
      → n ≤ length pool
      → (picked : List Bytes) × (pick choose n i pool ≡ ok picked)
  unfolding pick
  pick-total zero i pool h = ([], refl)
  pick-total (suc n) i pool h =
      let (k, chosen, below) = in_range i (length pool) (omega arith) in
      let (w, rest, swapped, l) = swap_front-total k pool below in
      let (more, e) = pick-total n (suc i) rest (omega arith) in
      (w ∷ more, pick_step n i pool k w rest more chosen swapped e)

  -- The words of the list are all different, rand.Int returns a number in its range and no error, and
  -- generatedWordCount finds a number of words. Then Generate returns so many words; they are words
  -- of the list, and no two of them are the same.
  pub generate-Distinct :
      (reaches : ℕ → Bool) (words : List Bytes)
      → Distinct words
      → generated_word_count reaches words ≢ 0
      → (picked : List Bytes) × (generate choose reaches words ≡ ok picked)
        × (length picked ≡ generated_word_count reaches words)
        × All (λ w. mem_bytes w words ≡ true) picked
        × Distinct picked
  unfolding generate generated_word_count
  generate-Distinct reaches words d some_count =
      let n = generated_word_count reaches words in
      let (picked, e) = pick-total n 0 words (count_le reaches words) in
      let p = pick-Picked choose n 0 words picked e in
      (
        picked,
        started e,
        p.count,
        p.keeps (λ w. mem_bytes w words ≡ true) (All-mem words words (λ w m. m)),
        p.distinct d,
      )
    where
      count_le :
          (reaches : ℕ → Bool) (words : List Bytes)
          → generated_word_count reaches words ≤ length words
      count_le reaches words = omega (arith, count_from-le reaches 0 (length words))

      started :
          {picked : List Bytes}
          → pick choose (generated_word_count reaches words) 0 words ≡ ok picked
          → generate choose reaches words ≡ ok picked
      started e = ground (arith, some_count)
