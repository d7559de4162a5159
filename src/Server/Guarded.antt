-- ===== src/Server/Guarded.antt =====
-- What a request without a valid token reaches.
use task_flow_alisha_sharma.Common.{
  suc, ◌/◌, ℕ, String, ◌≡◌, refl, ◌==◌, Bool-cases, ◌⊎◌, inl, inr, Option, none, some,
}
use task_flow_alisha_sharma.Common.Text.{◌<>◌}
use task_flow_alisha_sharma.RateLimit.{second, Verdict, pass, refuse as too_many, rate_limit}
use task_flow_alisha_sharma.Http.{Reply}
use task_flow_alisha_sharma.Middleware.{Jwt, Credentials, token_of, key_for, authenticate}
use task_flow_alisha_sharma.Server.{
  ApiCall, Request, Parts, Server, Serve, with_world, tick, after_verdict, limited, authenticated,
  signed_in, api_route, serve_api,
}

-- Nothing but readings of the clock and the entries of the limiters.
abbrev pub Untouched : Server → Server → Type 0
Untouched s t =
    t.streams
    ≡ record s.streams { world = record s.streams.world { ticks = t.streams.world.ticks } }

refused :
    (p : Parts) (user : Option String) (next : String → Serve Reply) (s : Server)
    → user ≡ none
    → let r = signed_in p user next s in (r.0.status ≡ 401) × Untouched s r.1
refused p user next s out = rw out (refl, refl)

authenticate-none :
    (jwt : Jwt) (at : ℕ) (secret : String) (c : Credentials)
    → (token_of c ≡ "") ⊎ (jwt at (key_for secret) (token_of c) ≡ none)
    → authenticate jwt at secret c ≡ none
unfolding authenticate
authenticate-none jwt at secret c (inl none_sent) = rw none_sent refl
authenticate-none jwt at secret c (inr refused) = elim (Bool-cases (token_of c == "")) [
  | inl none_sent ↦ rw none_sent refl
  | inr sent ↦ rw (sent, refused) refl
]

-- A request to a route under /api/v1 that brings no token, or one that the JWT library does not
-- accept with the key function of `Auth`, is refused with 401, or by
-- the limiter with 429, whatever it asks for, and leaves the tables, the broker, the dispatcher and
-- the connection counters as they were.
pub unauthenticated_refused :
    (p : Parts) (req : Request) (call : ApiCall) (s : Server)
    → (token_of req.credentials ≡ "")
      ⊎ (p.jwt
            (p.env.clock (suc s.streams.world.ticks) / second)
            (key_for p.auth.jwt_secret)
            (token_of req.credentials)
          ≡ none)
    → let r = serve_api p req call s in ((r.0.status ≡ 401) ⊎ (r.0.status ≡ 429)) × Untouched s r.1
unfolding serve_api limited authenticated
unauthenticated_refused p req call s out =
    let at = s.streams.world.ticks in
    let r =
      rate_limit p.api_limit ("api:" <> req.ip) (p.env.clock at) (p.env.clock (suc at)) s.entries in
    let next = authenticated p req (λ user. api_route p (some user) call) in
    let s₁ = with_world (record s { entries = r.1 }) (tick s.streams.world) in
    elim r.0
      as (λ (v : Verdict).
        let t = after_verdict p v next s₁ in
        ((t.0.status ≡ 401) ⊎ (t.0.status ≡ 429)) × Untouched s t.1) [
          | pass ↦
              let lem =
                refused p _ (λ user. api_route p (some user) call)
                  (with_world s₁ (tick s₁.streams.world))
                  (authenticate-none p.jwt _ p.auth.jwt_secret req.credentials out) in
              (inl lem.0, lem.1)
          | too_many n ↦ (inr refl, refl)
        ]
