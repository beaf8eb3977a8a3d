-- ===== src/Agent/Client.antt =====
-- internal/agent/client.go: what the client makes of an agent's reply.
use angou.Prelude.{ℕ, ◌*◌, ◌%◌, Option, none, some, if◌then◌else◌}
use angou.Prelude.Bytes.{Bytes, bytes_eq, is_empty}
use angou.Prelude.Bytes.Numerals.{words}
use angou.Duration.{second}
use angou.Agent.Protocol.{Response, Wire, framed, op_identity, op_status, op_stop, expired_text}

pub data Failure : Type 0 where
  no_agent expired broken no_identity : Failure
  refused : Bytes → Failure

pub data Outcome (A : Type 0) : Type 0 where
  got : A → Outcome A
  failed : Failure → Outcome A

abbrev pub map_outcome : {A B : Type 0} → Outcome A → (A → Outcome B) → Outcome B
map_outcome (got a) f = f a
map_outcome (failed e) f = failed e

-- A connection to the agent, as the client sees it: nobody listens, an exchange breaks off, or a
-- line comes back for the line that was sent.
pub data Link : Type 0 where
  nobody : Link
  breaks : Link
  replies : (Bytes → Bytes) → Link

module _ (wire : Wire) where
  -- The reply's error first.
  unfoldable pub read_reply : Option Response → Outcome Response
  unfolding bytes_eq
  read_reply none = failed broken
  read_reply (some resp) =
      if is_empty resp.error
      then got resp
      else if bytes_eq resp.error expired_text
      then failed expired
      else failed (refused resp.error)

  unfoldable pub call : Link → Bytes → Outcome Response
  call nobody op = failed no_agent
  call breaks op = failed broken
  call (replies f) op =
      read_reply (wire.decode_response (f (framed (wire.encode_request (record { op = op })))))

  abbrev identity_of : Response → Outcome Bytes
  identity_of resp = if is_empty resp.identity then failed no_identity else got resp.identity

  unfoldable pub identity : Link → Outcome Bytes
  identity link = map_outcome (call link op_identity) identity_of

  unfoldable pub status : Link → Outcome (ℕ × Bytes)
  status link =
      map_outcome (call link op_status)
        (λ resp. got (resp.expires_in * second % words, resp.fingerprint))

  -- Stop: an agent that is not there needs no stopping.
  abbrev no_agent_is_fine : Outcome Response → Outcome (Unit {0})
  no_agent_is_fine (got resp) = got tt
  no_agent_is_fine (failed no_agent) = got tt
  no_agent_is_fine (failed e) = failed e

  unfoldable pub stop_agent : Link → Outcome (Unit {0})
  stop_agent link = no_agent_is_fine (call link op_stop)
