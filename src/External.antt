-- ===== src/External.antt =====
-- What the program takes from outside its own sources: OpenPGP, the standard library's digests,
-- ciphers and JSON, Unicode normalisation, and randomness. Each is a field; what the theorems rely
-- on of them is said in their hypotheses.
use angou.Prelude.{ℕ, Bool, Option, List}
use angou.Prelude.Bytes.{Bytes}
use angou.Envelope.{Envelope}
use angou.KeyBundle.{Bundle, Ciphers}
use angou.Store.Types.{Meta, Index}

-- openpgp.MessageDetails, as far as it is read.
pub record Message {ℓ} (Entity : Type ℓ) : Type ℓ where
  pub body : Bytes
  pub is_signed : Bool
  pub signature_ok : Bool
  pub signed_by : Option Entity

pub record External : Type 1 where
  -- an openpgp.Entity with its private key
  pub Entity : Type 0
  -- openpgp.NewEntity, from the draw that seeds it
  pub new_entity : ℕ → Option Entity
  pub key_id : Entity → ℕ
  pub fingerprint : Entity → Bytes
  pub serialize_private : Entity → Option Bytes
  pub read_key_ring : Bytes → Option (List Entity)
  -- openpgp.Encrypt to and signed by one entity, from the draw that seeds it
  pub encrypt : Entity → Bytes → ℕ → Option Bytes
  pub read_message : Entity → Bytes → Option (Message Entity)
  -- armor.Encode and armor.Decode, with the armour's type
  pub armor_encode : Bytes → Bytes → Option Bytes
  pub armor_decode : Bytes → Option (Bytes × Bytes)
  pub ciphers : Ciphers
  pub sha256 : Bytes → Bytes
  pub hmac_sha256 : Bytes → Bytes → Bytes
  -- norm.NFC.String
  pub nfc : Bytes → Bytes
  -- rand.Read: so many bytes, at a draw
  pub random : ℕ → ℕ → Bytes
  -- the digits of os.CreateTemp
  pub temp_digits : ℕ → Bytes
  -- encoding/json on each type that is written
  pub encode_envelope : Envelope → Bytes
  pub decode_envelope : Bytes → Option Envelope
  pub encode_meta : Meta → Bytes
  pub decode_meta : Bytes → Option Meta
  pub encode_index : Index → Bytes
  pub decode_index : Bytes → Option Index
  pub encode_bundle : Bundle → Bytes
  pub decode_bundle : Bytes → Option Bundle
