-- ===== src/Container/RoundTrip.antt =====
-- What `Marshal` writes, `Unmarshal` reads back, whatever bytes the payload holds.
use angou.Prelude.{◌≡◌, refl, ◌⊎◌, inl, inr, [], ◌∷◌, ◌++◌, some, arith}
use angou.Prelude.{ok, ◌>>=◌}
use mathlib.Core.List.{append_assoc}
use angou.Prelude.Bytes.{Bytes, cut_last}
use angou.Prelude.Bytes.Laws.{bytes_eq_iff}
use angou.Container.{
  Blob, Encoding, armor, binary, validate, marshal, unmarshal, end_line, newline, strip_separator,
  read_frame, parse_header,
}

-- The terminator that `Marshal` writes is the last one, also where the payload holds others.
cut_last-terminator :
    (p : Bytes) → cut_last (p ++ (end_line ++ newline ∷ [])) end_line ≡ some (p, newline ∷ [])
unfolding cut_last end_line
cut_last-terminator [] = refl
cut_last-terminator (x ∷ p) = rw (cut_last-terminator p, cut_last)

strip_separator-append : (p : Bytes) → strip_separator (p ++ newline ∷ []) ≡ ok p
unfolding strip_separator
strip_separator-append [] = refl
strip_separator-append (x ∷ []) = refl
strip_separator-append (x ∷ y ∷ p) = rw (strip_separator-append (y ∷ p))

frame_append : (p t : Bytes) → p ++ newline ∷ t ≡ (p ++ newline ∷ []) ++ t
frame_append p t = simp append_assoc

read_frame_lem : (p : Bytes) → read_frame (p ++ newline ∷ (end_line ++ newline ∷ [])) ≡ ok p
unfolding read_frame
read_frame_lem p =
    rw frame_append
      (rw (read_frame, cut_last-terminator (p ++ newline ∷ [])) (strip_separator-append p))

validate-cases : (e : Encoding) → validate e ≡ ok tt → (e ≡ armor) ⊎ (e ≡ binary)
unfolding validate
validate-cases e h = ground (arith, bytes_eq_iff e armor, bytes_eq_iff e binary)

-- For each of the two encodings the bytes up to the payload are fixed, and are read by computation.
unmarshal-marshal-armor :
    (p : Bytes)
    → (marshal (record { encoding = armor; payload = p }) >>= unmarshal)
      ≡ ok (record { encoding = armor; payload = p })
unfolding marshal unmarshal parse_header validate armor
unmarshal-marshal-armor p = rw (read_frame_lem p) refl

unmarshal-marshal-binary :
    (p : Bytes)
    → (marshal (record { encoding = binary; payload = p }) >>= unmarshal)
      ≡ ok (record { encoding = binary; payload = p })
unfolding marshal unmarshal parse_header validate binary
unmarshal-marshal-binary p = rw (read_frame_lem p) refl

-- A blob whose encoding is one of the two that exist is read back from its container, whatever
-- bytes its payload holds: blank lines, terminators and a final newline included.
pub unmarshal-marshal : (b : Blob) → validate b.encoding ≡ ok tt → (marshal b >>= unmarshal) ≡ ok b
unmarshal-marshal b h = elim (validate-cases b.encoding h) [
  | inl e ↦ rw e (unmarshal-marshal-armor b.payload)
  | inr e ↦ rw e (unmarshal-marshal-binary b.payload)
]
