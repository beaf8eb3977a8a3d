-- ===== src/Envelope.antt =====
-- internal/envelope/envelope.go: the metadata that a blob's payload decrypts to.
pub mod Laws
use angou.Prelude.{ℕ, Bool, List, [], ◌∷◌, ◌/◌, ◌%◌, ◌==◌, ltb, ◌+◌, length, if◌then◌else◌}
use angou.Prelude.{Result, ok, err, invalid_envelope, ◌>>=◌, ◌>>◌, guard, or_err}
use angou.Prelude.{Option}
use angou.Prelude.Bytes.{Bytes, bytes_eq}

pub record Envelope : Type 0 where
  pub path : Bytes
  pub mime : Bytes
  pub mode : ℕ
  pub mtime : ℕ
  pub size : ℕ
  pub origin : Bytes
  pub sha256 : Bytes
  pub content : Bytes

abbrev hex_digit : ℕ → ℕ
hex_digit n = if ltb n 10 then 48 + n else 87 + n

-- encoding/hex.EncodeToString
unfoldable pub hex : Bytes → Bytes
hex [] = []
hex (b ∷ s) = hex_digit (b / 16 % 16) ∷ hex_digit (b % 16) ∷ hex s

-- `sum` is sha256.Sum256.
module _ (sum : Bytes → Bytes) where
  unfoldable pub new : Bytes → Bytes → ℕ → ℕ → Bytes → Bytes → Envelope
  new path mime mode mtime content origin = record {
    path = path;
    origin = origin;
    mime = mime;
    mode = mode;
    mtime = mtime;
    size = length content;
    sha256 = hex (sum content);
    content = content;
  }

  -- The checks of Unmarshal on a document that encoding/json has read.
  unfoldable pub check : Envelope → Result Envelope
  unfolding bytes_eq
  check e = do
    guard (e.size == length e.content) invalid_envelope
    guard (bytes_eq (hex (sum e.content)) e.sha256) invalid_envelope
    ok e

  -- `decode` is json.Unmarshal into an Envelope.
  unfoldable pub unmarshal : (Bytes → Option Envelope) → Bytes → Result Envelope
  unfolding check
  unmarshal decode raw = do e ← or_err (decode raw) invalid_envelope; check e
