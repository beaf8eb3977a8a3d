-- ===== src/PgpCrypto/RoundTrip.antt =====
-- What Seal writes Open reads, and what Open accepts is signed by the identity itself.
use angou.Prelude.{
  ℕ, ◌≡◌, refl, ap, ◌∙◌, Bool, true, false, Option, none, some, [], ◌∷◌, arith, if◌then◌else◌,
}
use angou.Prelude.{
  ok, ok-injective, guard-eq-ok, crypto_error, unsigned, guard, ◌>>◌, >>=-eq-ok, or_err,
  or_err-eq-ok,
}
use angou.Prelude.Bytes.{Bytes, bytes_eq}
use angou.Prelude.Bytes.Laws.{bytes_eq_refl, bytes_eq_iff}
use angou.External.{External, Message}
use angou.PgpCrypto.{armor_message_type, seal, unarmor, open_payload, signed_by_self}

-- What OpenPGP promises of a message and its armour.
pub record IsOpenPgp (x : External) : Type 0 where
  pub read-encrypt :
      (id : x.Entity) (plain : Bytes) (seed : ℕ) {packets : Bytes}
      → x.encrypt id plain seed ≡ some packets
      → x.read_message id packets
        ≡ some (record { body = plain; is_signed = true; signature_ok = true; signed_by = some id })
  pub decode-armor :
      (kind body : Bytes) {text : Bytes}
      → x.armor_encode kind body ≡ some text
      → x.armor_decode text ≡ some (kind, body)
  pub parse-serialize :
      (id : x.Entity) {raw : Bytes}
      → x.serialize_private id ≡ some raw
      → x.read_key_ring raw ≡ some (id ∷ [])

module _ (x : External) (p : IsOpenPgp x) where
  unarmor-encode :
      (packets : Bytes) {text : Bytes}
      → x.armor_encode armor_message_type packets ≡ some text
      → unarmor x text ≡ ok packets
  unfolding unarmor
  unarmor-encode packets e =
      rw (p.decode-armor armor_message_type packets e, bytes_eq_refl armor_message_type) refl

  open_packets :
      (id : x.Entity) (plain : Bytes) (seed : ℕ) {packets : Bytes}
      → x.encrypt id plain seed ≡ some packets
      → open_payload x id packets false ≡ ok plain
  unfolding open_payload
  open_packets id plain seed e = rw (p.read-encrypt id plain seed e) (ground arith)

  -- What an identity seals, armoured or not, it opens to the same bytes.
  pub open_payload-seal :
      (id : x.Entity) (plain : Bytes) (armored : Bool) (seed : ℕ) {payload : Bytes}
      → seal x id plain armored seed ≡ ok payload
      → open_payload x id payload armored ≡ ok plain
  unfolding seal open_payload
  open_payload-seal id plain true seed {payload} h =
      let (packets, made, h1) = >>=-eq-ok (or_err (x.encrypt id plain seed) crypto_error) _ h in
      rw (unarmor-encode packets (or_err-eq-ok _ crypto_error h1))
        (open_packets id plain seed (or_err-eq-ok _ crypto_error made))
  open_payload-seal id plain false seed {payload} h =
      let (packets, made, h1) = >>=-eq-ok (or_err (x.encrypt id plain seed) crypto_error) _ h in
      rw (← ok-injective h1) (open_packets id plain seed (or_err-eq-ok _ crypto_error made))

accepted_signer :
    (x : External) (id : x.Entity) (md : Message x.Entity) (o : Option x.Entity) {plain : Bytes}
    → md.signed_by ≡ o
    → (guard md.is_signed unsigned
        >> (guard md.signature_ok unsigned
            >> (guard (signed_by_self x id o) unsigned >> ok md.body)))
      ≡ ok plain
    → (signer : x.Entity) × (md
        ≡ record { body = plain; is_signed = true; signature_ok = true; signed_by = some signer })
      × (x.key_id signer ≡ x.key_id id)
accepted_signer x id md none e h = absurd (ground arith)
accepted_signer x id md (some signer) e h = (signer, ground arith, ground arith)

-- The message that a payload carries: the payload itself, or what its armour holds, if that is the
-- armour of a message.
abbrev pub Carries : (x : External) → Bool → Bytes → Bytes → Type 0
Carries x true payload packets = x.armor_decode payload ≡ some (armor_message_type, packets)
Carries x false payload packets = payload ≡ packets

unarmor-Carries :
    (x : External) (payload : Bytes) {packets : Bytes}
    → unarmor x payload ≡ ok packets
    → Carries x true payload packets
unfolding unarmor
unarmor-Carries x payload h =
    let ((kind, body), read, h1) = >>=-eq-ok (or_err (x.armor_decode payload) crypto_error) _ h in
    let (u, same, h2) = >>=-eq-ok (guard (bytes_eq kind armor_message_type) crypto_error) _ h1 in
    let e = (bytes_eq_iff kind armor_message_type).0 (guard-eq-ok _ crypto_error same) in
    let b = ok-injective h2 in
    let got = or_err-eq-ok (x.armor_decode payload) crypto_error read in cc

carried :
    (x : External) (armored : Bool) (payload : Bytes) {packets : Bytes}
    → (if armored then unarmor x payload else ok payload) ≡ ok packets
    → Carries x armored payload packets
carried x true payload h = unarmor-Carries x payload h
carried x false payload h = ok-injective h

-- What Open returns, of a payload in armour or without, is the body of the message that the payload
-- carries, and that message has a valid signature by a key with the identity's own key id. In
-- armour, the payload has to be the armour of a message.
pub open_payload-signed :
    (x : External) (id : x.Entity) (payload : Bytes) (armored : Bool) {plain : Bytes}
    → open_payload x id payload armored ≡ ok plain
    → (packets : Bytes) × (signer : x.Entity) × Carries x armored payload packets
      × (x.read_message id packets
          ≡ some (record {
            body = plain;
            is_signed = true;
            signature_ok = true;
            signed_by = some signer;
          }))
      × (x.key_id signer ≡ x.key_id id)
unfolding open_payload
open_payload-signed x id payload armored {plain} h =
    let (packets, c, h0) = >>=-eq-ok (if armored then unarmor x payload else ok payload) _ h in
    let (md, read, h1) = >>=-eq-ok (or_err (x.read_message id packets) crypto_error) _ h0 in
    let (signer, e, k) = accepted_signer x id md md.signed_by refl h1 in
    (packets, signer, carried x armored payload c, or_err-eq-ok _ crypto_error read ∙ ap some e, k)
