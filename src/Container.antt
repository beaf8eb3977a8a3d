-- ===== src/Container.antt =====
-- internal/container/container.go: the ANGOU1 blob container, a plaintext header, a payload and a
-- terminator.
pub mod RoundTrip
pub mod Sound
use angou.Prelude.{
  ℕ, ◌≡◌, Bool, true, false, not, ◌&&◌, ◌||◌, List, [], ◌∷◌, ◌++◌, reverse, Option, none, some,
  if◌then◌else◌, ◌==◌,
}
use angou.Prelude.{Result, ok, err, Error, not_container, malformed, ◌>>=◌, ◌>>◌, guard, or_err}
use angou.Prelude.Bytes.{Bytes, bytes, bytes_eq, is_empty, cut_prefix, cut, cut_last, split}
use angou.Prelude.Bytes.Space.{trim_space}

unfoldable pub begin_line : Bytes
begin_line = bytes "-----BEGIN ANGOU1 BLOB-----"

unfoldable pub end_line : Bytes
end_line = bytes "-----END ANGOU1 BLOB-----"

unfoldable pub magic : Bytes
magic = bytes "ANGOU1"

unfoldable pub extension : Bytes
extension = bytes ".angou"

abbrev pub newline : ℕ
newline = 10

-- `type Encoding string`
abbrev pub Encoding : Type 0
Encoding = Bytes

unfoldable pub armor : Encoding
armor = bytes "armor"

unfoldable pub binary : Encoding
binary = bytes "binary"

unfoldable pub header_format : Bytes
header_format = bytes "Format"

unfoldable pub header_encoding : Bytes
header_encoding = bytes "Encoding"

pub record Blob : Type 0 where
  pub encoding : Encoding
  pub payload : Bytes

-- Encoding.validate
unfoldable pub validate : Encoding → Result (Unit {0})
unfolding bytes_eq armor binary
validate e = guard (bytes_eq e armor || bytes_eq e binary) malformed

abbrev pub header_line : Bytes → Bytes → Bytes
header_line key value = key ++ (bytes ": " ++ (value ++ newline ∷ []))

unfoldable pub marshal : Blob → Result Bytes
unfolding begin_line magic header_format header_encoding
marshal b = do
  validate b.encoding
  ok (
      (begin_line ++ newline ∷ [])
      ++ (header_line header_format magic
          ++ (header_line header_encoding b.encoding
              ++ newline ∷ (b.payload ++ newline ∷ (end_line ++ newline ∷ [])))))

-- What `parseHeader` has read so far; both are empty at first.
pub record Header : Type 0 where
  pub format : Bytes
  pub encoding : Encoding

-- One line of the loop of `parseHeader`.
unfoldable pub parse_line : Bytes → Header → Result Header
unfolding cut trim_space bytes_eq header_format header_encoding
parse_line line h = if is_empty line then ok h else do
  (key, value) ← or_err (cut line (b':' ∷ [])) malformed
  if bytes_eq (trim_space key) header_format
      then ok (record h { format = trim_space value })
      else if bytes_eq (trim_space key) header_encoding
      then ok (record h { encoding = trim_space value })
      else err malformed

unfoldable pub parse_lines : List Bytes → Header → Result Header
unfolding parse_line
parse_lines [] h = ok h
parse_lines (line ∷ lines) h = parse_line line h >>= λ h'. parse_lines lines h'

unfoldable pub parse_header : Bytes → Result Header
unfolding parse_lines split
parse_header text = do
  h ← parse_lines (split newline text) (record { format = []; encoding = [] })
  guard (not (is_empty h.format)) malformed
  guard (not (is_empty h.encoding)) malformed
  ok h

-- The separator that `Marshal` wrote, stripped off the payload's end.
unfoldable pub strip_separator : Bytes → Result Bytes
strip_separator [] = err malformed
strip_separator (x ∷ []) = if x == newline then ok [] else err malformed
strip_separator (x ∷ y ∷ s) = strip_separator (y ∷ s) >>= λ rest. ok (x ∷ rest)

-- The payload, from what follows the header: up to the last terminator, less the separator.
unfoldable pub read_frame : Bytes → Result Bytes
unfolding cut_last strip_separator
read_frame rest = do
  (framed, trailer) ← or_err (cut_last rest end_line) malformed
  strip_separator framed

-- The checks on the header, which `Unmarshal` makes last.
unfoldable pub check_header : Bytes → Bytes → Result Blob
unfolding bytes_eq
check_header header_text payload = do
  h ← parse_header header_text
  guard (bytes_eq h.format magic) not_container
  validate h.encoding
  ok (record { encoding = h.encoding; payload = payload })

-- `Unmarshal` behind the opening line.
unfoldable pub read_body : Bytes → Result Blob
unfolding cut check_header
read_body body = do
  (header_text, rest) ← or_err (cut body (newline ∷ newline ∷ [])) malformed
  payload ← read_frame rest
  check_header header_text payload

unfoldable pub unmarshal : Bytes → Result Blob
unfolding begin_line cut_prefix read_body
unmarshal raw = do
  body ← or_err (cut_prefix raw (begin_line ++ newline ∷ [])) not_container
  read_body body
