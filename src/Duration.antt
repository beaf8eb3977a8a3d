-- ===== src/Duration.antt =====
-- internal/cli/duration.go: parseDuration and expandLargeUnits. A time.Duration is 64 bits of
-- nanoseconds, and the products wrap around.
use angou.Prelude.{
  ℕ, ◌≡◌, refl, sym, Bool, true, false, not, ◌&&◌, ◌*◌, ◌%◌, ◌<◌, ◌≤◌, Option, none, some, [], ◌∷◌,
  ◌++◌, arith, ltb, if◌then◌else◌,
}
use angou.Prelude.{
  Result, ok, bad_argument, ◌>>=◌, ◌>>◌, guard, or_err, >>=-eq-ok, guard-eq-ok, ok-injective,
}
use angou.Prelude.Bytes.{Bytes, bytes, bytes_eq, is_empty}
use angou.Prelude.Bytes.Space.{trim_space}
use angou.Prelude.Bytes.Numerals.{parse_int, words, half}

abbrev pub second : ℕ
second = 1000000000

-- strings.CutSuffix
unfoldable pub cut_suffix : Bytes → Bytes → Option Bytes
unfolding bytes_eq
cut_suffix [] p = if is_empty p then some [] else none
cut_suffix (x ∷ s) p =
    let rest = cut_suffix s p in if bytes_eq (x ∷ s) p then some [] else with_front x rest
  where
    with_front : ℕ → Option Bytes → Option Bytes
    with_front x none = none
    with_front x (some t) = some (x ∷ t)

parse_int-filled : (s : Bytes) {n : ℕ} → parse_int s ≡ some n → is_empty s ≡ false
unfolding parse_int
parse_int-filled [] h = cc
parse_int-filled (c ∷ s) h = refl

-- What the code takes from the standard library: strconv.FormatInt of a signed word, and
-- time.ParseDuration as a signed word of nanoseconds.
pub record Units : Type 0 where
  pub format_int : ℕ → Bytes
  pub parse : Bytes → Option ℕ

module _ (u : Units) where
  abbrev scaled : ℕ → Option ℕ → Option Bytes
  scaled hours none = none
  scaled hours (some n) = some (u.format_int (n * hours % words) ++ bytes "h")

  abbrev days : Option Bytes → Option Bytes
  days none = none
  days (some body) = scaled 24 (parse_int body)

  abbrev weeks : Bytes → Option Bytes → Option Bytes
  weeks text none = days (cut_suffix text (bytes "d"))
  weeks text (some body) = scaled (24 * 7) (parse_int body)

  unfoldable pub expand_large_units : Bytes → Option Bytes
  expand_large_units text = weeks text (cut_suffix text (bytes "w"))

  abbrev or_text : Bytes → Option Bytes → Bytes
  or_text text none = text
  or_text text (some expanded) = expanded

  -- The lifetime before its sign is looked at.
  abbrev nanoseconds : Bytes → Option ℕ → Result ℕ
  nanoseconds text (some n) = ok (n * second % words)
  nanoseconds text none = or_err (u.parse (or_text text (expand_large_units text))) bad_argument

  -- d > 0, of a signed word
  abbrev pub is_positive : ℕ → Bool
  is_positive d = ltb 0 d && ltb d half

  unfoldable pub parse_duration : Bytes → Result ℕ
  parse_duration input = do
    let text = trim_space input
    guard (not (is_empty text)) bad_argument
    d ← nanoseconds text (parse_int text)
    guard (is_positive d) bad_argument
    ok d

  parts :
      (input : Bytes) {d : ℕ}
      → parse_duration input ≡ ok d
      → (nanoseconds (trim_space input) (parse_int (trim_space input)) ≡ ok d)
        × (is_positive d ≡ true)
  unfolding parse_duration
  parts input {d} h =
      let (v, filled, h1) =
        >>=-eq-ok (guard (not (is_empty (trim_space input))) bad_argument) _ h in
      let (e, measured, h2) =
        >>=-eq-ok (nanoseconds (trim_space input) (parse_int (trim_space input))) _ h1 in
      let (w, positive, h3) = >>=-eq-ok (guard (is_positive e) bad_argument) _ h2 in
      let p = guard-eq-ok (is_positive e) bad_argument positive in
      (rw (← ok-injective h3) measured, rw (← ok-injective h3) p)

  -- A lifetime that is accepted is positive and no more than a time.Duration holds.
  pub parse_duration-positive :
      (input : Bytes) {d : ℕ} → parse_duration input ≡ ok d → (0 < d) × (d < half)
  parse_duration-positive input h = let (m, p) = parts input h in (ground arith, ground arith)

  -- A bare number of seconds above zero that a time.Duration holds is taken as that number of
  -- seconds.
  pub parse_duration-seconds :
      (input : Bytes) {n : ℕ}
      → parse_int (trim_space input) ≡ some n
      → 0 < n
      → n * second < half
      → parse_duration input ≡ ok (n * second)
  unfolding parse_duration
  parse_duration-seconds input {n} h low high =
      let filled = parse_int-filled (trim_space input) h in
      let same : n * second % words ≡ n * second = omega arith in
      rw (filled, h, same) (ground arith)

  -- A bare number of seconds that a time.Duration does not hold, where it is accepted at all, is
  -- taken as what is left of its nanoseconds modulo 2^64, which is less than what was asked for.
  pub parse_duration-wraps :
      (input : Bytes) {n d : ℕ}
      → parse_int (trim_space input) ≡ some n
      → n < half
      → half ≤ n * second
      → parse_duration input ≡ ok d
      → (d ≡ n * second % 18446744073709551616) × (d < n * second)
  parse_duration-wraps input {n} {d} h range over accepted =
      let (m, p) = parts input accepted in
      let wrapped : Result.ok (n * second % words) ≡ ok d = rw (← m, h) refl in
      (sym (ok-injective wrapped), ground arith)
