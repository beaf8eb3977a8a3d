-- ===== src/Store/LogicalPath.antt =====
-- internal/store/path.go: the strict grammar of logical paths.
pub mod Grammar
use angou.Prelude.{
  ℕ, Bool, true, false, not, ◌&&◌, ◌||◌, List, [], ◌∷◌, if◌then◌else◌, ◌==◌, leb, between, any, all,
}
use angou.Prelude.{Result, ok, err, bad_path, ◌>>=◌, ◌>>◌, guard}
use angou.Prelude.Bytes.{Bytes, bytes, bytes_eq, is_empty, has_prefix, has_suffix, contains, split}
use angou.Prelude.Bytes.Utf8.{runes}

abbrev pub slash : ℕ
slash = b'/'

abbrev pub backslash : ℕ
backslash = 0x5C

-- unicode.IsControl: the category Cc
abbrev pub is_control : ℕ → Bool
is_control r = between 0 0x1F r || between 0x7F 0x9F r

unfoldable pub is_letter : ℕ → Bool
is_letter c = between b'a' b'z' c || between b'A' b'Z' c

-- p[1] == ':' and p[0] an ASCII letter
unfoldable pub drive_letter : Bytes → Bool
unfolding is_letter
drive_letter (c ∷ d ∷ _) = d == b':' && is_letter c
drive_letter _ = false

unfoldable pub is_drive_or_unc : Bytes → Bool
is_drive_or_unc p = has_prefix p (backslash ∷ backslash ∷ []) || drive_letter p

-- The `switch` of the loop over the components.
unfoldable pub good_segment : Bytes → Bool
unfolding bytes_eq
good_segment seg = not (is_empty seg || bytes_eq seg (bytes ".") || bytes_eq seg (bytes ".."))

-- The checks on a path in normal form C, in the order of the code.
unfoldable pub check_path : Bytes → Result Bytes
check_path p = do
  guard (not (contains p (0 ∷ []))) bad_path
  guard (not (any is_control (runes p))) bad_path
  guard (not (contains p (backslash ∷ []))) bad_path
  guard (not (has_prefix p (slash ∷ []))) bad_path
  guard (not (is_drive_or_unc p)) bad_path
  guard (not (has_suffix p (slash ∷ []))) bad_path
  guard (all good_segment (split slash p)) bad_path
  ok p

-- `nfc` is norm.NFC.String of golang.org/x/text.
unfoldable pub normalize_path : (Bytes → Bytes) → Bytes → Result Bytes
normalize_path nfc p = do guard (not (is_empty p)) bad_path; check_path (nfc p)
