-- ===== src/Store/Lawful.antt =====
-- What the store relies on of the code outside the program.
use angou.Prelude.{◌≡◌, some, length}
use angou.Prelude.Bytes.{Bytes}
use angou.Prelude.Bytes.Utf8.{to_valid_utf8}
use angou.Envelope.{Envelope}
use angou.External.{External}
use angou.PgpCrypto.RoundTrip.{IsOpenPgp}

-- encoding/json writes strings as UTF-8, with U+FFFD for each byte that is not; the digest is
-- hexadecimal, and the content goes through base64.
abbrev pub as_json : Envelope → Envelope
as_json e = record e {
  path = to_valid_utf8 e.path;
  mime = to_valid_utf8 e.mime;
  origin = to_valid_utf8 e.origin;
}

pub record IsLawful (x : External) : Type 0 where
  pub openpgp : IsOpenPgp x
  pub decode-encode_envelope :
      (e : Envelope) → x.decode_envelope (x.encode_envelope e) ≡ some (as_json e)
  pub nfc_idem : (s : Bytes) → x.nfc (x.nfc s) ≡ x.nfc s
  pub length-hmac : (key message : Bytes) → length (x.hmac_sha256 key message) ≡ 32
