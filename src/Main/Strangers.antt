-- ===== src/Main/Strangers.antt =====
-- What requests of others leave of a user's rows.
use task_flow_alisha_sharma.Common.{
  ℕ, suc, ◌/◌, String, ◌≡◌, ◌≢◌, refl, ◌∙◌, inl, inr, none, some, List, [], ◌∷◌, ◌==◌, All,
  Bool-cases, Option-cases,
}
use task_flow_alisha_sharma.Common.Text.{◌<>◌}
use task_flow_alisha_sharma.RateLimit.{second}
use task_flow_alisha_sharma.Database.Others.{Distinct}
use task_flow_alisha_sharma.Middleware.{authenticate}
use task_flow_alisha_sharma.Service.Frame.{Frame}
use task_flow_alisha_sharma.Http.{Reply, respond}
use task_flow_alisha_sharma.Server.{
  AuthCall, register, login, refresh, logout, ApiCall, Request, Parts, Server, Serve, auth_route,
  serve_api, serve_auth, with_headers, with_world, tick,
}
use task_flow_alisha_sharma.Server.Frame.Routes.{world_of, limited-within, authenticated-within}
use task_flow_alisha_sharma.Server.Frame.Sessions as Sessions
use task_flow_alisha_sharma.Server.Isolation.{Alone, others-Sparing}
use task_flow_alisha_sharma.Server.Kept.{
  own_projects, own_subscriptions, KeptIn, Sparing-Kept, other, runs, kept,
}
use task_flow_alisha_sharma.Main.{
  Probe, Incoming, to_health, to_ready, to_auth, to_api, serve, serve_all,
}

module _ (p : Parts) (alone : Alone p.env) (x : String) where
  -- Everything under `/api` comes with a token that names another user, at whatever time it is read, or
  -- with none that is valid.
  abbrev pub OfStranger : Incoming → Type 0
  OfStranger (to_health req) = Unit
  OfStranger (to_ready req) = Unit
  OfStranger (to_auth req call) = Unit
  OfStranger (to_api req call) =
      (at : ℕ) → authenticate p.jwt at p.auth.jwt_secret req.credentials ≢ some x

  else_kept : Frame p.env (other x).0 (KeptIn x)
  else_kept = kept p.env alone x (other x).0 (other x).1

  auth_route-Kept :
      (req : Request) (call : AuthCall) (s : Server)
      → KeptIn x (world_of s) (world_of (auth_route p req call s).1)
  unfolding auth_route respond
  auth_route-Kept req (register b) s =
      Sessions.register-Framed else_kept (runs p.env alone x) p.crypto p.auth p.app_env p.check b
        (world_of s)
  auth_route-Kept req (login b) s =
      Sessions.login-Framed else_kept (runs p.env alone x) p.crypto p.auth p.app_env p.check b
        (world_of s)
  auth_route-Kept req refresh s =
      Sessions.refresh-Framed else_kept (runs p.env alone x) p.crypto p.auth p.app_env p.check
        req.refresh_cookie (world_of s)
  auth_route-Kept req logout s =
      Sessions.logout-Framed else_kept (runs p.env alone x) p.crypto p.auth p.app_env p.check
        req.refresh_cookie (world_of s)

  serve_auth-Kept :
      (req : Request) (call : AuthCall) (s : Server)
      → KeptIn x (world_of s) (world_of (serve_auth p req call s).1)
  unfolding serve_auth
  serve_auth-Kept req call s =
      limited-within p else_kept p.auth_limit ("auth:" <> req.ip) _ s
        λ es. auth_route-Kept req call _

  nobody-Kept :
      (req : Request) (call : ApiCall) (s : Server)
      → authenticate p.jwt
          (p.env.clock (suc (world_of s).ticks) / second)
          p.auth.jwt_secret
          req.credentials
        ≡ none
      → KeptIn x (world_of s) (world_of (serve_api p req call s).1)
  unfolding serve_api
  nobody-Kept req call s nobody =
      limited-within p else_kept p.api_limit ("api:" <> req.ip) _ s
        λ es. authenticated-within p else_kept req _ _ λ v named. cc (nobody, named)

  serve_api-Kept :
      (req : Request) (call : ApiCall) (s : Server)
      → ((at : ℕ) → authenticate p.jwt at p.auth.jwt_secret req.credentials ≢ some x)
      → KeptIn x (world_of s) (world_of (serve_api p req call s).1)
  serve_api-Kept req call s stranger d =
      let at = p.env.clock (suc (world_of s).ticks) / second in
      elim (Option-cases (authenticate p.jwt at p.auth.jwt_secret req.credentials)) [
        | inl nobody ↦ nobody-Kept req call s nobody d
        | inr (u, named) ↦
            Sparing-Kept x u (world_of s).db _ (λ same. stranger at (rw same named))
              (others-Sparing p u req call s alone d named) d
      ]

  with_headers-Kept :
      (req : Request) (next : Serve Reply) (s : Server)
      → ((t : Server) → KeptIn x (world_of t) (world_of (next t).1))
      → KeptIn x (world_of s) (world_of (with_headers p req next s).1)
  unfolding with_headers
  with_headers-Kept req next s keeps = elim (Bool-cases (req.request_id == "")) [
    | inl missing ↦ rw missing (keeps (with_world s (tick s.streams.world)))
    | inr given ↦ rw given (keeps s)
  ]

  module _ (probe : Probe) where
    serve-Kept :
        (r : Incoming) (s : Server)
        → OfStranger r
        → KeptIn x (world_of s) (world_of (serve p probe r s).1)
    unfolding serve
    serve-Kept (to_health req) s stranger = with_headers-Kept req _ s λ t d. (d, refl, refl)
    serve-Kept (to_ready req) s stranger = with_headers-Kept req _ s λ t d. (d, refl, refl)
    serve-Kept (to_auth req call) s stranger =
        with_headers-Kept req (serve_auth p req call) s (serve_auth-Kept req call)
    serve-Kept (to_api req call) s stranger =
        with_headers-Kept req (serve_api p req call) s λ t. serve_api-Kept req call t stranger

    -- Whatever requests are made, one after another, of which none under /api/v1 beside /api/v1/auth
    -- brings a token of the user `x`, the projects and the webhook subscriptions of `x` are the same
    -- after them, and the ids of projects still distinct, where they were and only this process
    -- writes to the tables.
    pub strangers_keep :
        (rs : List Incoming) (s : Server)
        → All OfStranger rs
        → Distinct (world_of s).db.projects
        → let after = (world_of (serve_all p probe rs s)).db in
          Distinct after.projects
          × (own_projects x after.projects ≡ own_projects x (world_of s).db.projects)
          × (own_subscriptions x after.subscriptions
              ≡ own_subscriptions x (world_of s).db.subscriptions)
    unfolding serve_all
    strangers_keep [] s strangers d = (d, refl, refl)
    strangers_keep (r ∷ rs) s strangers d =
        let first = serve-Kept r s strangers.0 d in
        let rest = strangers_keep rs (serve p probe r s).1 strangers.1 first.0 in
        (rest.0, rest.1 ∙ first.1, rest.2 ∙ first.2)
