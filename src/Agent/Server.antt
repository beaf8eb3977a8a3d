-- ===== src/Agent/Server.antt =====
-- internal/agent/server.go: the server as a machine that takes one event after another.
use angou.Prelude.{
  ℕ, Bool, true, false, ◌||◌, ◌+◌, Option, none, some, List, [], ◌∷◌, ◌++◌, ltb, if◌then◌else◌,
}
use angou.Prelude.Bytes.{Bytes, bytes, bytes_eq}
use angou.Agent.Protocol.{Request, Response, Wire, op_identity, op_status, op_stop, expired_text}

-- `identity` is none once it is nil, and `stopped` says that `done` is closed.
pub record Server : Type 0 where
  pub fingerprint : Bytes
  pub identity : Option Bytes
  pub expires : ℕ
  pub stopped : Bool

unfoldable pub new_server : Bytes → Bytes → ℕ → ℕ → Server
new_server fingerprint identity now ttl = record {
  fingerprint = fingerprint;
  identity = some identity;
  expires = now + ttl;
  stopped = false;
}

unfoldable pub stop : Server → Server
stop s = record s { stopped = true }

-- The deferred end of Serve.
unfoldable pub cleanup : Server → Server
cleanup s = record s { identity = none }

-- A connection: why its peer is refused, if it is; the line that was read, if one was; and the
-- times at which `handle` looks at the clock, first and second.
pub record Connection : Type 0 where
  pub refusal : Option Bytes
  pub line : Option Bytes
  pub now : ℕ
  pub later : ℕ

abbrev pub failure : Bytes → Response
failure text = record { error = text; identity = []; expires_in = 0; fingerprint = [] }

abbrev pub absent : Option Bytes → Bool
absent none = true
absent (some b) = false

abbrev pub held : Option Bytes → Bytes
held none = []
held (some b) = b

module _ (wire : Wire) where
  -- The switch on the operation.
  unfoldable pub answer : Server → ℕ → Bytes → Option Response × Server
  unfolding bytes_eq
  answer s remaining op =
      if bytes_eq op op_identity
      then (
        some (record {
          error = [];
          identity = held s.identity;
          expires_in = remaining;
          fingerprint = s.fingerprint;
        }),
        s,
      )
      else if bytes_eq op op_status
      then (
        some (record {
          error = [];
          identity = [];
          expires_in = remaining;
          fingerprint = s.fingerprint;
        }),
        s,
      )
      else if bytes_eq op op_stop
      then (
        some (record { error = []; identity = []; expires_in = 0; fingerprint = s.fingerprint }),
        stop s,
      )
      else (some (failure (bytes "unknown operation " ++ op)), s)

  -- Under the lock: whether the cache has expired.
  unfoldable pub on_request : Server → Connection → Option Request → Option Response × Server
  on_request s c none = (some (failure (bytes "malformed request")), s)
  on_request s c (some req) =
      if ltb s.expires c.now || absent s.identity
      then (some (failure expired_text), stop s)
      else answer s (wire.seconds_until c.later s.expires) req.op

  abbrev pub on_line : Server → Connection → Option Bytes → Option Response × Server
  on_line s c none = (none, s)
  on_line s c (some line) = on_request s c (wire.decode_request line)

  abbrev pub on_peer : Server → Connection → Option Bytes → Option Response × Server
  on_peer s c none = on_line s c c.line
  on_peer s c (some text) = (some (failure text), s)

  unfoldable pub handle : Server → Connection → Option Response × Server
  handle s c = on_peer s c c.refusal

  pub data Event : Type 0 where
    accepted : Connection → Event
    -- the timer of Serve
    timer : Event

  abbrev pub serve_event : Server → Event → Option Response × Server
  serve_event s (accepted c) = handle s c
  serve_event s timer = (none, stop s)

  -- Serve: once it is stopped, Accept fails and the loop returns through cleanup.
  unfoldable pub serve : Server → List Event → List (Option Response) × Server
  serve s [] = ([], if s.stopped then cleanup s else s)
  serve s (e ∷ es) =
      let (reply, s') = serve_event s e in
      let (replies, s'') = serve s' es in
      if s.stopped then ([], cleanup s) else (reply ∷ replies, s'')
