-- ===== src/Agent/Exchange.antt =====
-- The client and the server together.
use angou.Prelude.{
  ℕ, ◌≡◌, ◌≢◌, refl, inl, inr, Bool-cases, false, Option, none, some, [], ◌∷◌, ltb, arith,
  if◌then◌else◌,
}
use angou.Prelude.Bytes.{Bytes, is_empty}
use angou.Prelude.Bytes.Laws.{bytes_eq_refl}
use angou.Agent.Protocol.{Request, Response, Wire, framed, op_identity, expired_text}
use angou.Agent.Server.{Server, Connection, handle, on_request, answer, failure}
use angou.Agent.Client.{got, failed, expired, Link, replies, call, read_reply, identity}

-- What encoding/json promises of the two types.
pub record IsFaithful (wire : Wire) : Type 0 where
  pub request : (r : Request) → wire.decode_request (framed (wire.encode_request r)) ≡ some r
  pub response : (r : Response) → wire.decode_response (framed (wire.encode_response r)) ≡ some r

filled : (s : Bytes) → s ≢ [] → is_empty s ≡ false
filled [] ne = absurd (ne refl)
filled (b ∷ s) ne = refl

-- The line that goes back for a reply, empty where none does.
abbrev pub reply_line : Wire → Option Response → Bytes
reply_line wire none = []
reply_line wire (some resp) = framed (wire.encode_response resp)

-- The link to a server that does not refuse the peer.
abbrev pub link_to : Wire → Server → ℕ → ℕ → Link
link_to wire s now later = replies (λ line.
    reply_line wire
      (handle wire s (record { refusal = none; line = some line; now = now; later = later })).0)

module _ (wire : Wire) (faithful : IsFaithful wire) where
  asked :
      (s : Server) (c : Connection) (key : Bytes)
      → s.identity ≡ some key
      → (on_request wire s c (some (record { op = op_identity }))).0
        ≡ some (
            if ltb s.expires c.now then failure expired_text else record {
              error = [];
              identity = key;
              expires_in = wire.seconds_until c.later s.expires;
              fingerprint = s.fingerprint;
            })
  unfolding on_request answer
  asked s c key h = rw (h, bytes_eq_refl op_identity) (ground arith)

  -- A client that asks a server for its identity gets just that, or is told that the cache has
  -- expired if the server's clock is past the expiry.
  pub identity-handle :
      (s : Server) (now later : ℕ) (key : Bytes)
      → s.identity ≡ some key
      → key ≢ []
      → identity wire (link_to wire s now later)
        ≡ (if ltb s.expires now then failed expired else got key)
  unfolding identity call read_reply handle expired_text
  identity-handle s now later key h ne =
      let c : Connection = record {
        refusal = none;
        line = some (framed (wire.encode_request (record { op = op_identity })));
        now = now;
        later = later;
      } in
      rw (faithful.request (record { op = op_identity }), asked s c key h)
        (elim (Bool-cases (ltb s.expires now)) [
          | inl e ↦ rw (e, faithful.response (failure expired_text)) refl
          | inr e ↦
              rw
                (
                  e,
                  faithful.response (record {
                    error = [];
                    identity = key;
                    expires_in = wire.seconds_until later s.expires;
                    fingerprint = s.fingerprint;
                  }),
                )
                (rw (filled key ne) refl)
        ])
