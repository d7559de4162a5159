-- ===== src/Server/Opaque.antt =====
-- What the replies tell of a failure inside the server.
pub mod Rules
pub mod Handlers
pub mod Sessions
pub mod Streams
use task_flow_alisha_sharma.Common.{suc, ◌≤◌, String, ◌≡◌, refl, Option, none, some, ◌/◌, arith}
use task_flow_alisha_sharma.Common.Text.{◌<>◌}
use task_flow_alisha_sharma.RateLimit.{
  RateLimitConfig, Verdict, pass, refuse as too_many, rate_limit, second,
}
use task_flow_alisha_sharma.Http.{Reply, Handler, answer, refuse, retry_later}
use task_flow_alisha_sharma.Handler.Stream.{stream}
use task_flow_alisha_sharma.Middleware.{authenticate}
use task_flow_alisha_sharma.Server.{
  AuthCall, register, login, refresh, logout, ApiCall, list_projects, create_project, get_project,
  update_project, delete_project, project_stats, list_tasks, create_task, update_task, delete_task,
  events, create_webhook, list_webhooks, delete_webhook, Request, Parts, Server, Serve, with_world,
  tick, after_verdict, limited, signed_in, authenticated, run_handler, auth_route, api_route,
  serve_api, serve_auth,
}
use task_flow_alisha_sharma.Server.Opaque.Rules.{Opaque, lesser-Opaque, Replies, respond-Opaque}
use task_flow_alisha_sharma.Server.Opaque.Handlers as Handlers
use task_flow_alisha_sharma.Server.Opaque.Sessions as Sessions
use task_flow_alisha_sharma.Server.Opaque.Streams.{stream-Opaque}

abbrev AllOpaque : Serve Reply → Type 0
AllOpaque next = (s : Server) → Opaque (next s).0

run_handler-Opaque : (h : Handler Reply) → Replies h → AllOpaque (run_handler h)
run_handler-Opaque h replies s = respond-Opaque h replies s.streams.world

module _ (p : Parts) where
  auth_route-Opaque : (req : Request) (call : AuthCall) → AllOpaque (auth_route p req call)
  unfolding auth_route
  auth_route-Opaque req (register body) =
      run_handler-Opaque _ (Sessions.register-Replies p.env p.crypto p.auth p.app_env p.check body)
  auth_route-Opaque req (login body) =
      run_handler-Opaque _ (Sessions.login-Replies p.env p.crypto p.auth p.app_env p.check body)
  auth_route-Opaque req refresh =
      run_handler-Opaque _
        (Sessions.refresh-Replies p.env p.crypto p.auth p.app_env p.check req.refresh_cookie)
  auth_route-Opaque req logout =
      run_handler-Opaque _
        (Sessions.logout-Replies p.env p.crypto p.auth p.app_env p.check req.refresh_cookie)

  api_route-Opaque : (user : Option String) (call : ApiCall) → AllOpaque (api_route p user call)
  unfolding api_route
  api_route-Opaque user (list_projects q) =
      run_handler-Opaque _ (Handlers.list_projects-Replies p.env p.check user q)
  api_route-Opaque user (create_project b) =
      run_handler-Opaque _ (Handlers.create_project-Replies p.env p.check user b)
  api_route-Opaque user (get_project id) =
      run_handler-Opaque _ (Handlers.get_project-Replies p.env p.check user id)
  api_route-Opaque user (update_project id b) =
      run_handler-Opaque _ (Handlers.update_project-Replies p.env p.check user id b)
  api_route-Opaque user (delete_project id) =
      run_handler-Opaque _ (Handlers.delete_project-Replies p.env p.check user id)
  api_route-Opaque user (project_stats id) =
      run_handler-Opaque _ (Handlers.stats-Replies p.env p.check user id)
  api_route-Opaque user (list_tasks id q) =
      run_handler-Opaque _ (Handlers.list_tasks-Replies p.env p.check user id q)
  api_route-Opaque user (create_task id b) =
      run_handler-Opaque _ (Handlers.create_task-Replies p.env p.check user id b)
  api_route-Opaque user (update_task id b) =
      run_handler-Opaque _ (Handlers.update_task-Replies p.env p.check user id b)
  api_route-Opaque user (delete_task id) =
      run_handler-Opaque _ (Handlers.delete_task-Replies p.env p.check user id)
  api_route-Opaque user (events projects) = λ s. stream-Opaque p.env user projects s.streams
  api_route-Opaque user (create_webhook b) =
      run_handler-Opaque _ (Handlers.create_webhook-Replies p.env p.check user b)
  api_route-Opaque user list_webhooks =
      run_handler-Opaque _ (Handlers.list_webhooks-Replies p.env p.check user)
  api_route-Opaque user (delete_webhook id) =
      run_handler-Opaque _ (Handlers.delete_webhook-Replies p.env p.check user id)

  after_verdict-Opaque :
      (v : Verdict) (next : Serve Reply) → AllOpaque next → AllOpaque (after_verdict p v next)
  after_verdict-Opaque pass next opaque = opaque
  after_verdict-Opaque (too_many n) next opaque =
      λ s. lesser-Opaque (answer 429 (retry_later n)) (omega arith)

  limited-Opaque :
      (cfg : RateLimitConfig) (key : String) (next : Serve Reply)
      → AllOpaque next
      → AllOpaque (limited p cfg key next)
  unfolding limited
  limited-Opaque cfg key next opaque s = after_verdict-Opaque _ next opaque _

  signed_in-Opaque :
      (user : Option String) (next : String → Serve Reply)
      → ((u : String) → AllOpaque (next u))
      → AllOpaque (signed_in p user next)
  signed_in-Opaque none next opaque s = lesser-Opaque (refuse 401 "unauthorized") (omega arith)
  signed_in-Opaque (some u) next opaque s = opaque u s

  authenticated-Opaque :
      (req : Request) (next : String → Serve Reply)
      → ((u : String) → AllOpaque (next u))
      → AllOpaque (authenticated p req next)
  unfolding authenticated
  authenticated-Opaque req next opaque s = signed_in-Opaque _ next opaque _

-- No reply of the two groups of routes under /api/v1, from their limiters on, tells how something has
-- failed inside: whatever the request, the tables and the failures of statements and libraries, such
-- a reply has a status of at most 500, and one with 500, after a panic too, says "internal server
-- error" and nothing else.
pub failures_untold :
    (p : Parts) (req : Request) (call : ApiCall) (session : AuthCall) (s : Server)
    → Opaque (serve_api p req call s).0 × Opaque (serve_auth p req session s).0
unfolding serve_api serve_auth
failures_untold p req call session s = (
  limited-Opaque p p.api_limit _ _
      (authenticated-Opaque p req _ λ u. api_route-Opaque p (some u) call) s,
  limited-Opaque p p.auth_limit _ _ (auth_route-Opaque p req session) s,
)
