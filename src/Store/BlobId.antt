-- ===== src/Store/BlobId.antt =====
-- internal/store/blobid.go: the on-disk name of a logical path.
pub mod Shape
use angou.Prelude.{
  ℕ, zero, suc, Bool, ◌&&◌, List, [], ◌∷◌, ◌++◌, ◌+◌, ◌*◌, ◌/◌, ◌%◌, ◌==◌, ltb, length, take, all,
  any, if◌then◌else◌,
}
use angou.Prelude.{Result, ok, err, bad_argument, ◌>>=◌, ◌>>◌, guard}
use angou.Prelude.Bytes.{Bytes, bytes, contains}
use angou.Prelude.Bytes.Utf8.{runes}
use angou.Store.LogicalPath.{normalize_path}

abbrev pub name_key_len : ℕ
name_key_len = 32

abbrev pub blob_id_len : ℕ
blob_id_len = 26

-- The letter of a 5-bit group.
unfoldable pub letter : ℕ → ℕ
letter n = if ltb n 26 then 97 + n else 24 + n

-- encoding/base32 without padding: five bytes give eight letters, and a shorter rest as many as
-- its bits fill.
unfoldable pub base32 : Bytes → Bytes
unfolding letter
base32 [] = []
base32 (a ∷ []) = letter (a / 8 % 32) ∷ letter (a * 4 % 32) ∷ []
base32 (a ∷ b ∷ []) =
    letter (a / 8 % 32)
    ∷ letter ((a * 256 + b) / 64 % 32)
    ∷ letter (b / 2 % 32)
    ∷ letter (b * 16 % 32)
    ∷ []
base32 (a ∷ b ∷ c ∷ []) =
    letter (a / 8 % 32)
    ∷ letter ((a * 256 + b) / 64 % 32)
    ∷ letter (b / 2 % 32)
    ∷ letter ((b * 256 + c) / 16 % 32)
    ∷ letter (c * 2 % 32)
    ∷ []
base32 (a ∷ b ∷ c ∷ d ∷ []) =
    letter (a / 8 % 32)
    ∷ letter ((a * 256 + b) / 64 % 32)
    ∷ letter (b / 2 % 32)
    ∷ letter ((b * 256 + c) / 16 % 32)
    ∷ letter ((c * 256 + d) / 128 % 32)
    ∷ letter (d / 4 % 32)
    ∷ letter (d * 8 % 32)
    ∷ []
base32 (a ∷ b ∷ c ∷ d ∷ e ∷ s) =
    letter (a / 8 % 32)
    ∷ letter ((a * 256 + b) / 64 % 32)
    ∷ letter (b / 2 % 32)
    ∷ letter ((b * 256 + c) / 16 % 32)
    ∷ letter ((c * 256 + d) / 128 % 32)
    ∷ letter (d / 4 % 32)
    ∷ letter ((d * 256 + e) / 32 % 32)
    ∷ letter (e % 32)
    ∷ base32 s

-- strings.ContainsRune(blobIDAlphabet, r)
unfoldable pub in_alphabet : ℕ → Bool
in_alphabet r = any (λ c. c == r) (bytes "abcdefghijklmnopqrstuvwxyz234567")

unfoldable pub looks_like_blob_id : Bytes → Bool
unfolding runes in_alphabet
looks_like_blob_id name = length name == blob_id_len && all in_alphabet (runes name)

-- `hmac` is HMAC-SHA256, by key and message.
unfoldable pub blob_id : (Bytes → Bytes) → (Bytes → Bytes → Bytes) → Bytes → Bytes → Result Bytes
unfolding base32
blob_id nfc hmac name_key logical_path = do
  guard (length name_key == name_key_len) bad_argument
  normalized ← normalize_path nfc logical_path
  ok (take blob_id_len (base32 (hmac name_key normalized)))
