-- ===== src/KeyBundle.antt =====
-- internal/keybundle/keybundle.go: the store identity under the recovery passphrase.
pub mod Floor
use angou.Prelude.{
  ℕ, Bool, not, List, [], ◌∷◌, ◌++◌, ◌*◌, ◌==◌, leb, ltb, length, take, drop, if◌then◌else◌, Option,
  none, some, ◌+◌,
}
use angou.Prelude.{
  Result, ok, err, weak_kdf, bad_passphrase, bad_version, crypto_error, insufficient_memory, ◌>>=◌,
  ◌>>◌, guard, or_err,
}
use angou.Prelude.Bytes.{Bytes, bytes, bytes_eq}

pub record Params : Type 0 where
  pub algorithm : Bytes
  pub memory_kib : ℕ
  pub time : ℕ
  pub parallelism : ℕ
  pub salt : Bytes

abbrev pub floor_memory_kib : ℕ
floor_memory_kib = 64 * 1024

abbrev pub floor_time : ℕ
floor_time = 24

abbrev pub floor_parallelism : ℕ
floor_parallelism = 4

abbrev pub floor_salt_len : ℕ
floor_salt_len = 16

unfoldable pub algorithm_argon2id : Bytes
algorithm_argon2id = bytes "argon2id"

pub record Bundle : Type 0 where
  pub version : ℕ
  pub kdf : Params
  pub wrapped_key : Bytes
  pub payload : Bytes

abbrev pub bundle_version : ℕ
bundle_version = 1

abbrev pub bundle_nonce_size : ℕ
bundle_nonce_size = 12

unfoldable pub default_params : Bytes → Params
default_params salt = record {
  algorithm = algorithm_argon2id;
  memory_kib = floor_memory_kib;
  time = floor_time;
  parallelism = floor_parallelism;
  salt = salt;
}

unfoldable pub validate : Params → Result (Unit {0})
unfolding bytes_eq
validate p = do
  guard (bytes_eq p.algorithm algorithm_argon2id) weak_kdf
  guard (leb floor_memory_kib p.memory_kib) weak_kdf
  guard (leb floor_time p.time) weak_kdf
  guard (leb floor_parallelism p.parallelism) weak_kdf
  guard (leb floor_salt_len (length p.salt)) weak_kdf

-- What the package takes from golang.org/x/crypto/argon2 and crypto/cipher: the derivation, by
-- passphrase, salt, time, memory and parallelism; AES-256-GCM by key and nonce; and from the
-- system, the KiB of memory that are available, if they are known.
pub record Ciphers : Type 0 where
  pub argon2id : Bytes → Bytes → ℕ → ℕ → ℕ → Bytes
  pub gcm_seal : Bytes → Bytes → Bytes → Bytes
  pub gcm_open : Bytes → Bytes → Bytes → Option Bytes
  pub available_kib : Option ℕ

abbrev pub derivation_headroom_kib : ℕ
derivation_headroom_kib = 32 * 1024

-- internal/keybundle/memory.go: checkMemoryAgainst
unfoldable pub check_memory_against : Option ℕ → Params → Result (Unit {0})
check_memory_against none p = ok tt
check_memory_against (some available) p =
    guard (leb (p.memory_kib + derivation_headroom_kib) available) insufficient_memory

module _ (c : Ciphers) where
  unfoldable pub check_memory : Params → Result (Unit {0})
  unfolding check_memory_against
  check_memory p = check_memory_against c.available_kib p

  unfoldable pub derive : Params → Bytes → Bytes
  derive p passphrase = c.argon2id passphrase p.salt p.time p.memory_kib p.parallelism

  unfoldable pub seal_aead : Bytes → Bytes → Bytes → Bytes
  seal_aead nonce key plaintext = nonce ++ c.gcm_seal key nonce plaintext

  unfoldable pub open_aead : Bytes → Bytes → Result Bytes
  open_aead key ciphertext = do
    guard (leb bundle_nonce_size (length ciphertext)) crypto_error
    or_err (c.gcm_open key (take bundle_nonce_size ciphertext) (drop bundle_nonce_size ciphertext))
        crypto_error

  abbrev map_error : Result Bytes → Result Bytes
  map_error (ok b) = ok b
  map_error (err e) = err bad_passphrase

  -- The random values are the salt, the bootstrap key and the two nonces, in the order of the draws.
  unfoldable pub seal : Bytes → Bytes → Bytes → Bytes → Bytes → Bytes → Result Bundle
  seal salt bootstrap_key nonce1 nonce2 identity passphrase = do
    let params = default_params salt
    check_memory params
    let wrapping_key = derive params passphrase
    ok (record {
      version = bundle_version;
      kdf = params;
      wrapped_key = seal_aead nonce1 wrapping_key bootstrap_key;
      payload = seal_aead nonce2 bootstrap_key identity;
    })

  unfoldable pub open_bundle : Bundle → Bytes → Result Bytes
  open_bundle b passphrase = do
    guard (b.version == bundle_version) bad_version
    validate b.kdf
    check_memory b.kdf
    let wrapping_key = derive b.kdf passphrase
    bootstrap_key ← map_error (open_aead wrapping_key b.wrapped_key)
    open_aead bootstrap_key b.payload
