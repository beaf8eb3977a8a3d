-- ===== src/Envelope/Laws.antt =====
-- An envelope that New builds passes Unmarshal's checks, and one that passes describes its content.
use angou.Prelude.{◌≡◌, length, arith}
use angou.Prelude.{ok}
use angou.Prelude.Bytes.{Bytes}
use angou.Prelude.Bytes.Laws.{bytes_eq_iff}
use angou.Envelope.{Envelope, hex, check}

module _ (sum : Bytes → Bytes) where
  -- What the content check relies on is unchanged by a change of the text fields.
  pub check_of_content :
      (e : Envelope)
      → e.size ≡ length e.content
      → e.sha256 ≡ hex (sum e.content)
      → check sum e ≡ ok e
  unfolding check
  check_of_content e sized summed = ground (arith, bytes_eq_iff (hex (sum e.content)) e.sha256)

  -- An accepted envelope carries the length and the digest of the content it carries.
  pub check_sound :
      (e e' : Envelope)
      → check sum e ≡ ok e'
      → (e' ≡ e) × (e.size ≡ length e.content) × (e.sha256 ≡ hex (sum e.content))
  unfolding check
  check_sound e e' h = ground (arith, bytes_eq_iff (hex (sum e.content)) e.sha256)
