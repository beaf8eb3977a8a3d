-- ===== src/Container/Sound.antt =====
-- What `Unmarshal` accepts is framed, and its header holds the two known fields and nothing else.
use angou.Prelude.{
  ◌≡◌, refl, ◌∙◌, sym, ap, ◌⊎◌, inl, inr, List, [], ◌∷◌, ◌++◌, arith, Option-cases, All,
}
use angou.Prelude.{ok, malformed, not_container, >>=-eq-ok, or_err, or_err-eq-ok}
use angou.Prelude.Bytes.{Bytes, cut_last, cut, cut_prefix, split}
use angou.Prelude.Bytes.Laws.{bytes_eq_iff, cut_prefix_sound, cut_sound, cut_last_sound}
use angou.Prelude.Bytes.Space.{trim_space}
use angou.Container.{
  Blob, Header, validate, unmarshal, begin_line, end_line, newline, strip_separator, read_frame,
  check_header, read_body, parse_header, parse_line, parse_lines, magic, header_format,
  header_encoding,
}

strip_separator_sound : (s : Bytes) {p : Bytes} → strip_separator s ≡ ok p → s ≡ p ++ newline ∷ []
unfolding strip_separator
strip_separator_sound [] h = cc
strip_separator_sound (x ∷ []) {p} h = ground arith
strip_separator_sound (x ∷ y ∷ s) {p} h =
    let (q, found, e) = >>=-eq-ok (strip_separator (y ∷ s)) _ h in
    ground (arith, strip_separator_sound (y ∷ s) {p = q} found)

read_frame_sound :
    (s : Bytes) {p : Bytes}
    → read_frame s ≡ ok p
    → (trailer : Bytes) × (s ≡ (p ++ newline ∷ []) ++ (end_line ++ trailer))
unfolding read_frame
read_frame_sound s {p} h = elim (Option-cases (cut_last s end_line)) [
  | inl e ↦ absurd (ground arith)
  | inr ((framed, trailer), e) ↦ (
    trailer,
    cut_last_sound s end_line e
        ∙ ap (λ (t : Bytes). t ++ (end_line ++ trailer))
            (strip_separator_sound framed (ground arith)),
  )
]

-- What a line may hold: nothing, or one of the two fields of the header.
abbrev pub IsKnownField : Bytes → Type 0
IsKnownField line =
    (line ≡ [])
    ⊎ ((key : Bytes) × (value : Bytes) × (line ≡ key ++ ((b':' ∷ []) ++ value))
        × ((trim_space key ≡ header_format) ⊎ (trim_space key ≡ header_encoding)))

parse_line-IsKnownField :
    (line : Bytes) (h : Header) {h' : Header} → parse_line line h ≡ ok h' → IsKnownField line
unfolding parse_line
parse_line-IsKnownField [] h e = inl refl
parse_line-IsKnownField (x ∷ s) h e = elim (Option-cases (cut (x ∷ s) (b':' ∷ []))) [
  | inl missing ↦ absurd (ground arith)
  | inr ((key, value), found) ↦ inr (
    key,
    value,
    cut_sound (x ∷ s) (b':' ∷ []) found,
    ground (
      arith,
      bytes_eq_iff (trim_space key) header_format,
      bytes_eq_iff (trim_space key) header_encoding,
    ),
  )
]

parse_lines-IsKnownField :
    (lines : List Bytes) (h : Header) {h' : Header}
    → parse_lines lines h ≡ ok h'
    → All IsKnownField lines
unfolding parse_lines
parse_lines-IsKnownField [] h e = tt
parse_lines-IsKnownField (line ∷ lines) h e =
    let (h1, first, rest) = >>=-eq-ok (parse_line line h) _ e in
    (parse_line-IsKnownField line h first, parse_lines-IsKnownField lines h1 rest)

-- The header of an accepted container has no field but Format and Encoding: whatever line it
-- holds is empty or names one of the two.
pub parse_header-IsKnownField :
    (text : Bytes) {h : Header} → parse_header text ≡ ok h → All IsKnownField (split newline text)
unfolding parse_header
parse_header-IsKnownField text h =
    let (h1, lines, rest) = >>=-eq-ok (parse_lines (split newline text) _) _ h in
    parse_lines-IsKnownField (split newline text) _ lines

check_header_sound :
    (text payload : Bytes) {b : Blob}
    → check_header text payload ≡ ok b
    → (parse_header text ≡ ok (record { format = magic; encoding = b.encoding }))
      × (validate b.encoding ≡ ok tt)
      × (b.payload ≡ payload)
unfolding check_header
check_header_sound text payload h =
    let (fields, read, h1) = >>=-eq-ok (parse_header text) _ h in
    ground (arith, bytes_eq_iff fields.format magic)

-- The blank line, the payload and the terminator behind a header.
abbrev pub framing : Bytes → Bytes → Bytes
framing payload trailer = newline ∷ newline ∷ ((payload ++ newline ∷ []) ++ (end_line ++ trailer))

read_body_sound :
    (body : Bytes) {b : Blob}
    → read_body body ≡ ok b
    → (header : Bytes) × (trailer : Bytes) × (body ≡ header ++ framing b.payload trailer)
      × (parse_header header ≡ ok (record { format = magic; encoding = b.encoding }))
      × (validate b.encoding ≡ ok tt)
unfolding read_body
read_body_sound body {b} h =
    let ((header, rest), parted, h1) =
      >>=-eq-ok (or_err (cut body (newline ∷ newline ∷ [])) malformed) _ h in
    let (payload, framed, h2) = >>=-eq-ok (read_frame rest) _ h1 in
    let (trailer, tail) = read_frame_sound rest framed in
    let (read, valid, same) = check_header_sound header payload h2 in
    (
      header,
      trailer,
      cut_sound body (newline ∷ newline ∷ []) (or_err-eq-ok _ malformed parted)
          ∙ ap (λ (t : Bytes). header ++ (newline ∷ newline ∷ t))
              (tail ∙ ap (λ (q : Bytes). (q ++ newline ∷ []) ++ (end_line ++ trailer)) (sym same)),
      read,
      valid,
    )

-- What `Unmarshal` accepts is the opening line, a header that names the magic and the blob's
-- encoding, which is one of the two that exist, a blank line, the payload, one newline, and the
-- terminator, with anything behind it.
pub unmarshal_sound :
    (raw : Bytes) {b : Blob}
    → unmarshal raw ≡ ok b
    → (header : Bytes) × (trailer : Bytes) × (raw
        ≡ (begin_line ++ newline ∷ []) ++ (header ++ framing b.payload trailer))
      × (parse_header header ≡ ok (record { format = magic; encoding = b.encoding }))
      × (validate b.encoding ≡ ok tt)
unfolding unmarshal
unmarshal_sound raw {b} h =
    let (body, opened, h1) =
      >>=-eq-ok (or_err (cut_prefix raw (begin_line ++ newline ∷ [])) not_container) _ h in
    let (header, trailer, parts, read, valid) = read_body_sound body h1 in
    (
      header,
      trailer,
      cut_prefix_sound raw (begin_line ++ newline ∷ []) (or_err-eq-ok _ not_container opened)
          ∙ ap (λ (t : Bytes). (begin_line ++ newline ∷ []) ++ t) parts,
      read,
      valid,
    )
