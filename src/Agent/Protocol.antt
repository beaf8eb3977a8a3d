-- ===== src/Agent/Protocol.antt =====
-- internal/agent/agent.go: the operations, the requests and the responses.
use angou.Prelude.{ℕ, Option, List, ◌++◌, ◌∷◌}
use angou.Prelude.Bytes.{Bytes, bytes}

unfoldable pub op_identity : Bytes
op_identity = bytes "identity"

unfoldable pub op_status : Bytes
op_status = bytes "status"

unfoldable pub op_stop : Bytes
op_stop = bytes "stop"

unfoldable pub expired_text : Bytes
expired_text = bytes "the agent's cached key material has expired"

pub record Request : Type 0 where
  pub op : Bytes

-- A field that is left out of the document is empty, or zero.
pub record Response : Type 0 where
  pub error : Bytes
  pub identity : Bytes
  pub expires_in : ℕ
  pub fingerprint : Bytes

-- encoding/json on the two types, and time.Until in whole seconds, by the time it is asked at and
-- the time it is about; a number of seconds is the word of its 64 bits.
pub record Wire : Type 0 where
  pub encode_request : Request → Bytes
  pub decode_request : Bytes → Option Request
  pub encode_response : Response → Bytes
  pub decode_response : Bytes → Option Response
  pub seconds_until : ℕ → ℕ → ℕ

-- encode: the document and a newline
abbrev pub framed : Bytes → Bytes
framed raw = raw ++ (10 ∷ List.[])
