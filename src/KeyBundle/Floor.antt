-- ===== src/KeyBundle/Floor.antt =====
-- The pinned floor of the key derivation, and the round trip of a bundle.
use angou.Prelude.{
  ◌≡◌, refl, ◌≤◌, length, length-append, take-append, drop-append, some, arith, ◌==◌, ◌⊎◌, inl, inr,
}
use angou.Prelude.{ok, err, ok-injective, weak_kdf, guard, >>=-eq-ok}
use angou.Prelude.Bytes.{Bytes}
use angou.Prelude.Bytes.Laws.{bytes_eq_iff}
use angou.KeyBundle.{
  Params, Bundle, Ciphers, validate, algorithm_argon2id, floor_salt_len, bundle_version,
  bundle_nonce_size, default_params, check_memory, derive, seal_aead, open_aead, seal, open_bundle,
}

-- Parameters at or above the pinned floor.
pub record IsAboveFloor (p : Params) : Type 0 where
  pub algorithm : p.algorithm ≡ algorithm_argon2id
  pub memory : 65536 ≤ p.memory_kib
  pub time : 24 ≤ p.time
  pub parallelism : 4 ≤ p.parallelism
  pub salt : 16 ≤ length p.salt

pub validate-IsAboveFloor : (p : Params) → validate p ≡ ok tt → IsAboveFloor p
unfolding validate
validate-IsAboveFloor p h = ground (arith, bytes_eq_iff p.algorithm algorithm_argon2id)

IsAboveFloor-validate : (p : Params) → IsAboveFloor p → validate p ≡ ok tt
unfolding validate
IsAboveFloor-validate p a = ground (arith, bytes_eq_iff p.algorithm algorithm_argon2id)

validate-cases : (p : Params) → (validate p ≡ ok tt) ⊎ (validate p ≡ err weak_kdf)
unfolding validate
validate-cases p = ground arith

module _ (c : Ciphers) (b : Bundle) (passphrase : Bytes) where
  -- A bundle that opens has the version that exists and parameters at or above the pinned floor.
  pub open_bundle-IsAboveFloor :
      (r : Bytes)
      → open_bundle c b passphrase ≡ ok r
      → IsAboveFloor b.kdf × (b.version ≡ bundle_version)
  unfolding open_bundle
  open_bundle-IsAboveFloor r h =
      let (u, version, h1) = >>=-eq-ok (guard (b.version == bundle_version) _) _ h in
      let (v, valid, h2) = >>=-eq-ok (validate b.kdf) _ h1 in
      (validate-IsAboveFloor b.kdf valid, ground arith)

  -- A bundle of that version with parameters below the floor is refused as weak, whatever passphrase
  -- is given.
  pub open_bundle-weak :
      ¬ IsAboveFloor b.kdf → b.version ≡ bundle_version → open_bundle c b passphrase ≡ err weak_kdf
  unfolding open_bundle
  open_bundle-weak low v = elim (validate-cases b.kdf) [
    | inl valid ↦ absurd (low (validate-IsAboveFloor b.kdf valid))
    | inr weak ↦ rw (v, weak) refl
  ]

module _ (c : Ciphers)
    (inverse : (key nonce plain : Bytes)
      → c.gcm_open key nonce (c.gcm_seal key nonce plain) ≡ some plain) where
  open-seal_aead :
      (nonce key plain : Bytes)
      → length nonce ≡ bundle_nonce_size
      → open_aead c key (seal_aead c nonce key plain) ≡ ok plain
  unfolding open_aead seal_aead
  open-seal_aead nonce key plain len = rw (← len) (
      rw
        (
          take-append nonce (c.gcm_seal key nonce plain),
          drop-append nonce (c.gcm_seal key nonce plain),
          inverse,
          length-append nonce (c.gcm_seal key nonce plain),
        )
        (ground arith))

  default_params-validate :
      (salt : Bytes) → length salt ≡ floor_salt_len → validate (default_params salt) ≡ ok tt
  unfolding default_params
  default_params-validate salt ls = IsAboveFloor-validate _ (record {
    algorithm = refl;
    memory = omega arith;
    time = omega arith;
    parallelism = omega arith;
    salt = omega arith;
  })

  -- A bundle that Seal returns opens with the passphrase that it was sealed under, on a machine
  -- with the memory for it, and gives the identity back.
  pub open_bundle-seal :
      (salt bootstrap_key nonce1 nonce2 identity passphrase : Bytes) {b : Bundle}
      → length salt ≡ floor_salt_len
      → length nonce1 ≡ bundle_nonce_size
      → length nonce2 ≡ bundle_nonce_size
      → seal c salt bootstrap_key nonce1 nonce2 identity passphrase ≡ ok b
      → open_bundle c b passphrase ≡ ok identity
  unfolding seal open_bundle
  open_bundle-seal salt bootstrap_key nonce1 nonce2 identity passphrase {b} ls l1 l2 h =
      let (u, memory, made) = >>=-eq-ok (check_memory c (default_params salt)) _ h in
      rw (← ok-injective made) (
        rw
          (
            default_params-validate salt ls,
            memory,
            open-seal_aead nonce1 (derive c (default_params salt) passphrase) bootstrap_key l1,
            open-seal_aead nonce2 bootstrap_key identity l2,
          )
          refl)
