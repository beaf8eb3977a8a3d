-- ===== src/Agent/Expiry.antt =====
-- The server never serves the identity after its time, nor to a peer that it refuses.
use angou.Prelude.{
  ℕ, ◌≡◌, ◌≢◌, refl, inl, inr, Option-cases, ◌≤◌, ◌<◌, Bool, true, false, Option, none, some, List,
  [], ◌∷◌, ltb, arith, if◌then◌else◌, All,
}
use angou.Prelude.Bytes.{Bytes}
use angou.Agent.Protocol.{Request, Response, Wire}
use angou.Agent.Server.{
  Server, Connection, Event, accepted, timer, held, answer, on_request, handle, on_peer, on_line,
  serve_event, serve, stop, cleanup,
}

-- Nothing of the identity is in the reply.
abbrev pub IsSilent : Option Response → Type 0
IsSilent none = Unit
IsSilent (some resp) = resp.identity ≡ []

module _ (wire : Wire) where
  abbrev pub IsLate : ℕ → Event wire → Type 0
  IsLate expires (accepted c) = expires < c.now
  IsLate expires timer = Unit

  on_request-late :
      (s : Server) (c : Connection) (r : Option Request)
      → s.expires < c.now
      → IsSilent (on_request wire s c r).0 × ((on_request wire s c r).1.expires ≡ s.expires)
  unfolding on_request stop
  on_request-late s c none h = (refl, refl)
  on_request-late s c (some req) h = rw (ltb-true s.expires c.now h) (refl, refl)
    where
      ltb-true : (a b : ℕ) → a < b → ltb a b ≡ true
      ltb-true a b h = ground arith

  handle-late :
      (s : Server) (c : Connection)
      → s.expires < c.now
      → IsSilent (handle wire s c).0 × ((handle wire s c).1.expires ≡ s.expires)
  unfolding handle
  handle-late s c h =
      elim c.refusal
        as (λ o. IsSilent (on_peer wire s c o).0 × ((on_peer wire s c o).1.expires ≡ s.expires)) [
          | some text ↦ (refl, refl)
          | none ↦
              elim c.line
                as (λ o.
                  IsSilent (on_line wire s c o).0 × ((on_line wire s c o).1.expires ≡ s.expires)) [
                    | none ↦ (tt, refl)
                    | some line ↦ on_request-late s c (wire.decode_request line) h
                  ]
        ]

  IsSilent-step :
      (b : Bool) (s : Server) (reply : Option Response) (rest : List (Option Response) × Server)
      → IsSilent reply
      → All IsSilent rest.0
      → All IsSilent
          (if◌then◌else◌ {A = List (Option Response) × Server} b
            ([], cleanup s)
            (reply ∷ rest.0, rest.1)).0
  IsSilent-step true s reply rest h hs = tt
  IsSilent-step false s reply rest h hs = (h, hs)

  -- Whatever connections come and whatever they ask for: where each comes after the expiry, no
  -- reply holds anything of the identity.
  pub serve-IsSilent :
      (s : Server) (es : List (Event wire))
      → All (IsLate s.expires) es
      → All IsSilent (serve wire s es).0
  unfolding serve stop
  serve-IsSilent s [] h = tt
  serve-IsSilent s (accepted c ∷ es) (h, hs) =
      let (quiet, same) = handle-late s c h in
      let rest = serve-IsSilent (handle wire s c).1 es (rw same hs) in
      IsSilent-step s.stopped s (handle wire s c).0 (serve wire (handle wire s c).1 es) quiet rest
  serve-IsSilent s (timer ∷ es) (h, hs) =
      let rest = serve-IsSilent (stop s) es hs in
      IsSilent-step s.stopped s none (serve wire (stop s) es) tt rest

  -- A run that ends stopped has let go of the identity.
  serve-stopped :
      (s : Server) (es : List (Event wire))
      → (serve wire s es).1.stopped ≡ true
      → (serve wire s es).1.identity ≡ none
  unfolding serve cleanup
  serve-stopped s [] h = ground arith
  serve-stopped s (e ∷ es) h = ground (arith, serve-stopped (serve_event wire s e).1 es)

  answer-serves :
      (s : Server) (remaining : ℕ) (op : Bytes) (resp : Response)
      → (answer wire s remaining op).0 ≡ some resp
      → resp.identity ≢ []
      → resp.identity ≡ held s.identity
  unfolding answer
  answer-serves s remaining op resp h ne = ground arith

  on_request-serves :
      (s : Server) (c : Connection) (r : Option Request) (resp : Response)
      → (on_request wire s c r).0 ≡ some resp
      → resp.identity ≢ []
      → (c.now ≤ s.expires) × (s.identity ≡ some resp.identity)
  unfolding on_request
  on_request-serves s c none resp h ne = absurd (ground arith)
  on_request-serves s c (some req) resp h ne = elim (Option-cases s.identity) [
    | inl e ↦ absurd (ground arith)
    | inr (key, e) ↦
        ground (arith, answer-serves s (wire.seconds_until c.later s.expires) req.op resp)
  ]

  -- A reply that holds anything of the identity holds just the identity, goes to a peer that was
  -- not refused, and is made only where the clock, when `handle` first looks at it, is not past the
  -- expiry.
  pub handle-serves :
      (s : Server) (c : Connection) (resp : Response)
      → (handle wire s c).0 ≡ some resp
      → resp.identity ≢ []
      → (c.refusal ≡ none) × (c.now ≤ s.expires) × (s.identity ≡ some resp.identity)
  unfolding handle on_request
  handle-serves s c resp h ne = elim (Option-cases c.refusal) [
    | inr (text, e) ↦ absurd (ground arith)
    | inl e ↦ elim (Option-cases c.line) [
      | inl el ↦ absurd (ground arith)
      | inr (line, el) ↦
          let (timely, same) =
            on_request-serves s c (wire.decode_request line) resp (rw (e, el) at h) ne in
          (e, timely, same)
    ]
  ]
