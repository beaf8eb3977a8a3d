-- ===== src/Tests/Formats.antt =====
-- The theorems on the formats, the keys and the files, at concrete inputs.
use angou.Prelude.{◌≡◌, refl, ap, ◌↔◌, ℕ, [], ◌∷◌, ◌++◌, true, ◌>>=◌, All, some}
use angou.Prelude.{Result, ok, err}
use angou.Prelude.Bytes.{
  Bytes, bytes, split, contains, cut, cut_prefix, trim_suffix, cut_last, bytes_eq, has_prefix,
  has_suffix,
}
use angou.Prelude.Bytes.Space.{trim_space}
use angou.Container
use angou.Container.{
  Blob, Header, armor, binary, marshal, begin_line, end_line, newline, magic, header_format,
  header_encoding, parse_header, parse_lines, parse_line, strip_separator, read_frame, check_header,
  read_body,
}
use angou.Container.RoundTrip.{unmarshal-marshal}
use angou.Container.Sound.{unmarshal_sound, framing, IsKnownField, parse_header-IsKnownField}
use angou.Envelope
use angou.Envelope.{Envelope}
use angou.KeyBundle
use angou.KeyBundle.{
  Bundle, Params, check_memory, check_memory_against, default_params, seal_aead, derive,
  open_bundle, open_aead, algorithm_argon2id,
}
use angou.KeyBundle.Floor.{IsAboveFloor, open_bundle-IsAboveFloor, open_bundle-seal}
use angou.PgpCrypto
use angou.PgpCrypto.RoundTrip.{Carries, open_payload-seal, open_payload-signed}
use angou.Store.BlobId.{blob_id, looks_like_blob_id}
use angou.Store.Core.{store_blob_id}
use angou.Store.BlobId.Shape.{blob_id-looks_like_blob_id}
use angou.Store.LogicalPath.{normalize_path, check_path}
use angou.Store.LogicalPath.Grammar.{IsLogicalPath, check_path_iff, normalize_path_idem}
use angou.World.{works, fails, World, write_file_atomic, store_root}
use angou.World.Atomic.{write_file_atomic_lem, AtomicWrite}
use angou.Tests.Toy.{toy, toy-IsLawful, toy-IsOpenPgp, toy_ciphers, zeros, unpack-pack, unlock}
use angou.Tests.Files.{notes, notes_id, notes_normalizes, notes_addressed, quiet}

-- A payload with a terminator and a blank line in it.
abbrev awkward : Blob
awkward = record { encoding = binary; payload = newline ∷ newline ∷ (end_line ++ newline ∷ []) }

awkward_valid : Container.validate awkward.encoding ≡ ok tt
unfolding Container.validate marshal Container.unmarshal read_body read_frame strip_separator
    check_header parse_header parse_lines parse_line bytes_eq cut_prefix cut cut_last split
    trim_space armor binary begin_line end_line magic header_format header_encoding has_prefix
    has_suffix trim_suffix contains
awkward_valid = refl

unmarshal-marshal_example : (marshal awkward >>= Container.unmarshal) ≡ ok awkward
unmarshal-marshal_example = unmarshal-marshal awkward awkward_valid

-- A container as a person may have written it, with more behind it.
abbrev written : Bytes
written =
    begin_line
    ++ (newline ∷ bytes "Format: ANGOU1"
        ++ (newline ∷ bytes "Encoding: armor"
            ++ (newline ∷ newline ∷ bytes "x" ++ (newline ∷ end_line ++ (newline ∷ bytes "more")))))

written_reads : Container.unmarshal written ≡ ok (record { encoding = armor; payload = bytes "x" })
unfolding Container.validate marshal Container.unmarshal read_body read_frame strip_separator
    check_header parse_header parse_lines parse_line bytes_eq cut_prefix cut cut_last split
    trim_space armor binary begin_line end_line magic header_format header_encoding has_prefix
    has_suffix trim_suffix contains
written_reads = refl

unmarshal_sound_example :
    (header : Bytes) × (trailer : Bytes) × (written
      ≡ (begin_line ++ newline ∷ []) ++ (header ++ framing (bytes "x") trailer))
    × (parse_header header ≡ ok (record { format = magic; encoding = armor }))
    × (Container.validate armor ≡ ok tt)
unmarshal_sound_example = unmarshal_sound written written_reads

two_fields :
    parse_header (bytes "Format: ANGOU1" ++ (newline ∷ bytes "Encoding: armor"))
    ≡ ok (record { format = magic; encoding = armor })
unfolding Container.validate marshal Container.unmarshal read_body read_frame strip_separator
    check_header parse_header parse_lines parse_line bytes_eq cut_prefix cut cut_last split
    trim_space armor binary begin_line end_line magic header_format header_encoding has_prefix
    has_suffix trim_suffix contains
two_fields = refl

parse_header-IsKnownField_example :
    All IsKnownField (split newline (bytes "Format: ANGOU1" ++ (newline ∷ bytes "Encoding: armor")))
parse_header-IsKnownField_example =
    parse_header-IsKnownField (bytes "Format: ANGOU1" ++ (newline ∷ bytes "Encoding: armor"))
      two_fields

-- Parameters at the floor but for one pass.
abbrev weak : Bundle
weak = record {
  version = 1;
  kdf = record {
    algorithm = algorithm_argon2id;
    memory_kib = 65536;
    time = 23;
    parallelism = 4;
    salt = zeros 16;
  };
  wrapped_key = [];
  payload = [];
}

abbrev sealed_bundle : Result Bundle
sealed_bundle =
    KeyBundle.seal toy_ciphers (zeros 16) (bytes "key") (zeros 12) (zeros 12) (bytes "identity")
      (bytes "pass")

abbrev good_bundle : Result Bundle → Bundle
good_bundle (ok b) = b
good_bundle (err e) = weak

bundle_made : sealed_bundle ≡ ok (good_bundle sealed_bundle)
unfolding KeyBundle.validate KeyBundle.seal open_bundle open_aead seal_aead derive check_memory
    check_memory_against default_params algorithm_argon2id bytes_eq
bundle_made = refl

bundle_opens :
    open_bundle toy_ciphers (good_bundle sealed_bundle) (bytes "pass") ≡ ok (bytes "identity")
unfolding KeyBundle.validate KeyBundle.seal open_bundle open_aead seal_aead derive check_memory
    check_memory_against default_params algorithm_argon2id bytes_eq
bundle_opens = refl

gcm_inverse :
    (key nonce plain : Bytes)
    → toy_ciphers.gcm_open key nonce (toy_ciphers.gcm_seal key nonce plain) ≡ some plain
gcm_inverse key nonce plain = ap (unlock key) (unpack-pack (key ∷ plain ∷ []))

open_bundle-IsAboveFloor_example :
    IsAboveFloor (good_bundle sealed_bundle).kdf × ((good_bundle sealed_bundle).version ≡ 1)
open_bundle-IsAboveFloor_example =
    open_bundle-IsAboveFloor toy_ciphers (good_bundle sealed_bundle) (bytes "pass")
      (bytes "identity") bundle_opens

open_bundle-seal_example :
    open_bundle toy_ciphers (good_bundle sealed_bundle) (bytes "pass") ≡ ok (bytes "identity")
open_bundle-seal_example =
    open_bundle-seal toy_ciphers gcm_inverse (zeros 16) (bytes "key") (zeros 12) (zeros 12)
      (bytes "identity") (bytes "pass") refl refl refl bundle_made

message_sealed :
    PgpCrypto.seal toy 5 (bytes "hello") true 0
    ≡ ok (11 ∷ bytes "PGP MESSAGE" ++ (6 ∷ 5 ∷ bytes "hello"))
unfolding PgpCrypto.seal PgpCrypto.armor_message_type
message_sealed = refl

open_payload-seal_example :
    PgpCrypto.open_payload toy 5 (11 ∷ bytes "PGP MESSAGE" ++ (6 ∷ 5 ∷ bytes "hello")) true
    ≡ ok (bytes "hello")
open_payload-seal_example =
    open_payload-seal toy toy-IsOpenPgp 5 (bytes "hello") true 0 message_sealed

abbrev armored_hello : Bytes
armored_hello = 11 ∷ bytes "PGP MESSAGE" ++ (6 ∷ 5 ∷ bytes "hello")

armored_opens : PgpCrypto.open_payload toy 5 armored_hello true ≡ ok (bytes "hello")
unfolding PgpCrypto.open_payload PgpCrypto.unarmor PgpCrypto.armor_message_type bytes_eq
armored_opens = refl

open_payload-signed_example :
    (packets : Bytes) × (signer : ℕ) × Carries toy true armored_hello packets
    × (toy.read_message 5 packets
        ≡ some (record {
          body = bytes "hello";
          is_signed = true;
          signature_ok = true;
          signed_by = some signer;
        }))
    × (signer ≡ 5)
open_payload-signed_example = open_payload-signed toy 5 armored_hello true armored_opens

check_path_iff_example : (check_path notes ≡ ok notes) ↔ (IsLogicalPath notes × (notes ≡ notes))
check_path_iff_example = check_path_iff notes notes

normalize_path_idem_example :
    IsLogicalPath notes × (notes ≡ notes) × (normalize_path toy.nfc notes ≡ ok notes)
normalize_path_idem_example = normalize_path_idem toy.nfc (λ s. refl) notes notes notes_normalizes

notes_named : blob_id toy.nfc toy.hmac_sha256 (zeros 32) notes ≡ ok notes_id
unfolding store_blob_id
notes_named = notes_addressed

blob_id-looks_like_blob_id_example : looks_like_blob_id notes_id ≡ true
blob_id-looks_like_blob_id_example =
    blob_id-looks_like_blob_id toy.nfc toy.hmac_sha256 toy-IsLawful.length-hmac (zeros 32) notes
      notes_named

-- The fourth of the calls fails.
abbrev unlucky : World
unlucky = record quiet { schedule = works ∷ works ∷ works ∷ fails ∷ [] }

write_file_atomic_lem_example :
    AtomicWrite store_root notes
      (bytes "new")
      quiet.disk
      (write_file_atomic toy.temp_digits store_root notes (bytes "new") unlucky).0
      (write_file_atomic toy.temp_digits store_root notes (bytes "new") unlucky).1.disk
write_file_atomic_lem_example =
    write_file_atomic_lem toy.temp_digits store_root notes (bytes "new") unlucky

abbrev note_envelope : Envelope
note_envelope = Envelope.new toy.sha256 notes (bytes "text/plain") 384 9 (bytes "x") []

note_accepted : Envelope.check toy.sha256 note_envelope ≡ ok note_envelope
unfolding Envelope.check Envelope.new Envelope.hex bytes_eq
note_accepted = refl
