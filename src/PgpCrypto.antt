-- ===== src/PgpCrypto.antt =====
-- internal/pgpcrypto/pgpcrypto.go: sealing and opening under the store's identity.
pub mod RoundTrip
use angou.Prelude.{ℕ, Bool, true, false, Option, none, some, List, [], ◌∷◌, ◌==◌, if◌then◌else◌}
use angou.Prelude.{Result, ok, err, crypto_error, unsigned, parse_error, ◌>>=◌, ◌>>◌, guard, or_err}
use angou.Prelude.Bytes.{Bytes, bytes, bytes_eq}
use angou.External.{External, Message}

unfoldable pub armor_message_type : Bytes
armor_message_type = bytes "PGP MESSAGE"

module _ (x : External) where
  open x use {Entity}

  abbrev only_one : List Entity → Result Entity
  only_one (e ∷ []) = ok e
  only_one _ = err parse_error

  unfoldable pub parse_private : Bytes → Result Entity
  parse_private raw = do list ← or_err (x.read_key_ring raw) parse_error; only_one list

  unfoldable pub seal : Entity → Bytes → Bool → ℕ → Result Bytes
  seal id plaintext armored seed = do
    packets ← or_err (x.encrypt id plaintext seed) crypto_error
    if armored then or_err (x.armor_encode armor_message_type packets) crypto_error else ok packets

  unfoldable pub unarmor : Bytes → Result Bytes
  unfolding bytes_eq
  unarmor payload = do
    (kind, body) ← or_err (x.armor_decode payload) crypto_error
    guard (bytes_eq kind armor_message_type) crypto_error
    ok body

  -- A message is accepted only if the entity that signed it has the identity's own key.
  abbrev pub signed_by_self : Entity → Option Entity → Bool
  signed_by_self id none = false
  signed_by_self id (some signer) = x.key_id signer == x.key_id id

  unfoldable pub open_payload : Entity → Bytes → Bool → Result Bytes
  open_payload id payload armored = do
    packets ← if armored then unarmor payload else ok payload
    md ← or_err (x.read_message id packets) crypto_error
    guard md.is_signed unsigned
    guard md.signature_ok unsigned
    guard (signed_by_self id md.signed_by) unsigned
    ok md.body
