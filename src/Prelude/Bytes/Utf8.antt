-- ===== src/Prelude/Bytes/Utf8.antt =====
-- `for _, r := range s`: the runes of a string. A byte that starts no valid UTF-8 sequence is read
-- as U+FFFD, one byte wide.
use Prim.Native.Nat.{ℕ, zero, suc, ◌+◌, ◌-◌, ◌*◌}
use mathlib.Core.Bool.{Bool, ◌&&◌}
use mathlib.Core.List.{List, [], ◌∷◌}
use angou.Prelude.Tests.{◌==◌, between, if◌then◌else◌}
use angou.Prelude.Bytes.{Bytes}

abbrev Rune : Type 0
Rune = record { rune : ℕ; size : ℕ }

abbrev invalid : Rune
invalid = record { rune = 0xFFFD; size = 1 }

abbrev continues : ℕ → Bool
continues c = between 0x80 0xBF c

decode2 : ℕ → Bytes → Rune
decode2 b [] = invalid
decode2 b (c ∷ _) =
    if continues c then record { rune = (b - 0xC0) * 64 + (c - 0x80); size = 2 } else invalid

-- The second byte's range excludes overlong forms and surrogates.
decode3 : ℕ → Bytes → Rune
decode3 b (c ∷ d ∷ _) =
    if between (if b == 0xE0 then 0xA0 else 0x80) (if b == 0xED then 0x9F else 0xBF) c
      && continues d
    then record { rune = (b - 0xE0) * 4096 + (c - 0x80) * 64 + (d - 0x80); size = 3 }
    else invalid
decode3 b _ = invalid

decode4 : ℕ → Bytes → Rune
decode4 b (c ∷ d ∷ e ∷ _) =
    if between (if b == 0xF0 then 0x90 else 0x80) (if b == 0xF4 then 0x8F else 0xBF) c
      && continues d
      && continues e
    then record {
      rune = (b - 0xF0) * 262144 + (c - 0x80) * 4096 + (d - 0x80) * 64 + (e - 0x80);
      size = 4;
    }
    else invalid
decode4 b _ = invalid

-- utf8.DecodeRune of `b ∷ s`
unfoldable pub decode_rune : ℕ → Bytes → Rune
unfolding decode2 decode3 decode4
decode_rune b s =
    if between 0 0x7F b
    then record { rune = b; size = 1 }
    else if between 0xC2 0xDF b
    then decode2 b s
    else if between 0xE0 0xEF b
    then decode3 b s
    else if between 0xF0 0xF4 b
    then decode4 b s
    else invalid

-- The first argument counts the bytes that belong to the rune just read.
unfoldable pub runes_from : ℕ → Bytes → List ℕ
unfolding decode_rune
runes_from skip [] = []
runes_from (suc skip) (b ∷ s) = runes_from skip s
runes_from zero (b ∷ s) = let r = decode_rune b s in r.rune ∷ runes_from (r.size - 1) s

unfoldable pub runes : Bytes → List ℕ
unfolding runes_from
runes s = runes_from 0 s

-- Every byte that starts no valid sequence replaced by the encoding of U+FFFD.
unfoldable pub to_valid_from : ℕ → Bytes → Bytes
to_valid_from skip [] = []
to_valid_from (suc skip) (b ∷ s) = b ∷ to_valid_from skip s
to_valid_from zero (b ∷ s) =
    let r = decode_rune b s in
    let replaced = 0xEF ∷ 0xBF ∷ 0xBD ∷ to_valid_from 0 s in
    let kept = b ∷ to_valid_from (r.size - 1) s in
    if r.rune == 0xFFFD && r.size == 1 then replaced else kept

unfoldable pub to_valid_utf8 : Bytes → Bytes
unfolding to_valid_from decode_rune
to_valid_utf8 s = to_valid_from 0 s
