-- ===== src/Tests/Toy.antt =====
-- Concrete functions in the place of what the program takes from outside, small enough to run and
-- with every law that the theorems ask for.
use angou.Prelude.{
  ℕ, zero, suc, ◌≡◌, refl, sym, ap, true, Option, none, some, List, [], ◌∷◌, ◌++◌, length, take,
  drop, length-take, take-append, drop-append, length-append, arith, ◌==◌, if◌then◌else◌,
}
use angou.Prelude.Bytes.{Bytes, bytes}
use angou.Envelope.{Envelope}
use angou.KeyBundle.{Ciphers, Bundle}
use angou.External.{External, Message}
use angou.PgpCrypto.RoundTrip.{IsOpenPgp}
use angou.Store.Survival.{IsBundleLawful}
use angou.Store.Types.{Meta}
use angou.Store.Lawful.{as_json, IsLawful}

-- Each string behind its length.
abbrev pub pack : List Bytes → Bytes
pack [] = []
pack (s ∷ rest) = length s ∷ (s ++ pack rest)

abbrev pub cons_to : Bytes → Option (List Bytes) → Option (List Bytes)
cons_to s none = none
cons_to s (some rest) = some (s ∷ rest)

abbrev pub unpack : ℕ → Bytes → Option (List Bytes)
unpack zero [] = some []
unpack zero (k ∷ s) = none
unpack (suc n) [] = none
unpack (suc n) (k ∷ s) = cons_to (take k s) (unpack n (drop k s))

pub unpack-pack : (l : List Bytes) → unpack (length l) (pack l) ≡ some l
unpack-pack [] = refl
unpack-pack (s ∷ rest) =
    rw (take-append s (pack rest), drop-append s (pack rest), unpack-pack rest) refl

abbrev envelope_fields : Envelope → List Bytes
envelope_fields e =
    e.path ∷ e.mime ∷ e.origin ∷ e.sha256 ∷ e.content ∷ (e.mode ∷ e.mtime ∷ e.size ∷ []) ∷ []

abbrev envelope_of : Option (List Bytes) → Option Envelope
envelope_of (some (p ∷ m ∷ o ∷ h ∷ c ∷ (mode ∷ mtime ∷ size ∷ []) ∷ [])) = some (record {
  path = p;
  mime = m;
  origin = o;
  sha256 = h;
  content = c;
  mode = mode;
  mtime = mtime;
  size = size;
})
envelope_of _ = none

abbrev meta_of : Option (List Bytes) → Option Meta
meta_of (some (n ∷ b ∷ p ∷ v ∷ [])) =
    some
      (record { name_key = n; bootstrap_sha256 = b; bootstrap_ps1_sha256 = p; version_floor = v })
meta_of _ = none

abbrev fields : Bundle → List Bytes
fields b =
    b.kdf.algorithm
    ∷ b.kdf.salt
    ∷ b.wrapped_key
    ∷ b.payload
    ∷ (b.version ∷ b.kdf.memory_kib ∷ b.kdf.time ∷ b.kdf.parallelism ∷ [])
    ∷ []

abbrev bundle_of : Option (List Bytes) → Option Bundle
bundle_of (some (a ∷ s ∷ w ∷ p ∷ (v ∷ m ∷ t ∷ q ∷ []) ∷ [])) = some (record {
  version = v;
  kdf = record { algorithm = a; memory_kib = m; time = t; parallelism = q; salt = s };
  wrapped_key = w;
  payload = p;
})
bundle_of _ = none

abbrev message_for : ℕ → Bytes → Option (Message ℕ)
message_for id [] = none
message_for id (k ∷ plain) =
    if k == id
    then some (record { body = plain; is_signed = true; signature_ok = true; signed_by = some k })
    else none

abbrev pub zeros : ℕ → Bytes
zeros zero = []
zeros (suc n) = 0 ∷ zeros n

length-zeros : (n : ℕ) → length (zeros n) ≡ n
length-zeros zero = refl
length-zeros (suc n) = ap suc (length-zeros n)

abbrev toy_mac : Bytes → Bytes → Bytes
toy_mac key message = take 32 (message ++ zeros 32)

abbrev first_two : Option (List Bytes) → Option (Bytes × Bytes)
first_two (some (s ∷ t ∷ [])) = some (s, t)
first_two _ = none

abbrev total : Bytes → Bytes
total [] = []
total (b ∷ s) = b ∷ []

-- A cipher that writes its key in front.
abbrev pub unlock : Bytes → Option (List Bytes) → Option Bytes
unlock key (some (k ∷ plain ∷ [])) = some plain
unlock key _ = none

abbrev pub toy_ciphers : Ciphers
toy_ciphers = record {
  argon2id = λ passphrase salt time memory lanes. passphrase;
  gcm_seal = λ key nonce plain. pack (key ∷ plain ∷ []);
  gcm_open = λ key nonce sealed. unlock key (unpack 2 sealed);
  available_kib = none;
}

abbrev pub toy : External
toy = record {
  Entity = ℕ;
  new_entity = λ seed. some seed;
  key_id = λ k. k;
  fingerprint = λ k. k ∷ [];
  serialize_private = λ k. some (k ∷ []);
  read_key_ring = λ raw. some raw;
  encrypt = λ k plain seed. some (k ∷ plain);
  read_message = λ k packets. message_for k packets;
  armor_encode = λ kind body. some (pack (kind ∷ body ∷ []));
  armor_decode = λ text. first_two (unpack 2 text);
  ciphers = toy_ciphers;
  sha256 = total;
  hmac_sha256 = toy_mac;
  nfc = λ s. s;
  random = λ n seed. zeros n;
  temp_digits = λ seed. bytes "7";
  encode_envelope = λ e. pack (envelope_fields (as_json e));
  decode_envelope = λ raw. envelope_of (unpack 6 raw);
  encode_meta =
      λ m. pack (m.name_key ∷ m.bootstrap_sha256 ∷ m.bootstrap_ps1_sha256 ∷ m.version_floor ∷ []);
  decode_meta = λ raw. meta_of (unpack 4 raw);
  encode_index = λ i. [];
  decode_index = λ raw. some [];
  encode_bundle = λ b. pack (fields b);
  decode_bundle = λ raw. bundle_of (unpack 5 raw);
}

own_message :
    (id : ℕ) (plain : Bytes)
    → message_for id (id ∷ plain)
      ≡ some (record { body = plain; is_signed = true; signature_ok = true; signed_by = some id })
own_message id plain = ground arith

some-injective : {A : Type 0} {a b : A} → Option.some a ≡ some b → a ≡ b
some-injective h = cc

pub toy-IsOpenPgp : IsOpenPgp toy
toy-IsOpenPgp = record {
  read-encrypt = λ id plain seed h. rw (← some-injective h) (own_message id plain);
  decode-armor =
      λ kind body h. rw (← some-injective h) (ap first_two (unpack-pack (kind ∷ body ∷ [])));
  parse-serialize = λ id h. ap some (sym (some-injective h));
}

pub toy-IsLawful : IsLawful toy
toy-IsLawful = record {
  openpgp = toy-IsOpenPgp;
  decode-encode_envelope = λ e. ap envelope_of (unpack-pack (envelope_fields (as_json e)));
  nfc_idem = λ s. refl;
  length-hmac = λ key message.
      length-take 32 (message ++ zeros 32)
        (omega (arith, length-append message (zeros 32), length-zeros 32));
}

pub toy-IsBundleLawful : IsBundleLawful toy
toy-IsBundleLawful = record {
  decode-encode_bundle = λ b. ap bundle_of (unpack-pack (fields b));
  gcm_inverse = λ key nonce plain. ap (unlock key) (unpack-pack (key ∷ plain ∷ []));
  length-random = λ n seed. length-zeros n;
}
