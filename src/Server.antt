-- ===== src/Server.antt =====
-- The routes of backend/cmd/api/main.go, with the middleware of their groups: what one request makes
-- of the server. A request has passed the router, so it names its handler, with what the framework
-- has parsed for it.
pub mod Guarded
pub mod Frame
pub mod Isolation
pub mod Idle
pub mod Kept
pub mod Log
pub mod Opaque
pub mod Tests
use task_flow_alisha_sharma.Common.{
  ℕ, suc, ◌/◌, String, Option, none, some, Bool, true, false, List, [], ◌∷◌, ◌==◌, if◌then◌else◌,
}
use task_flow_alisha_sharma.Common.Int.{ℤ}
use task_flow_alisha_sharma.Common.Dict.{Dict}
use task_flow_alisha_sharma.Common.Text.{◌<>◌}
use task_flow_alisha_sharma.Common.Exec.{Result, ok, err}
use task_flow_alisha_sharma.Database.{Env, World}
use task_flow_alisha_sharma.RateLimit.{
  RateLimitConfig, Entries, Verdict, pass, refuse as too_many, rate_limit, second,
}
use task_flow_alisha_sharma.Pagination.{PaginationQuery}
use task_flow_alisha_sharma.Validator.{Checker}
use task_flow_alisha_sharma.Validator.Rules.{CreateWebhookRequest}
use task_flow_alisha_sharma.Middleware.{Jwt, Credentials, authenticate, security_headers}
use task_flow_alisha_sharma.Service.Auth.{Crypto, AuthConfig, RegisterRequest, LoginRequest}
use task_flow_alisha_sharma.Service.Projects.{CreateProjectRequest, UpdateProjectRequest}
use task_flow_alisha_sharma.Service.Tasks.{CreateTaskRequest, UpdateTaskRequest, TaskFilterQuery}
use task_flow_alisha_sharma.Http.{
  Reply, Failure, Handler, settle, answer, refuse, retry_later, respond,
}
use task_flow_alisha_sharma.Handler.Auth as AuthHandler
use task_flow_alisha_sharma.Handler.Projects as ProjectHandler
use task_flow_alisha_sharma.Handler.Tasks as TaskHandler
use task_flow_alisha_sharma.Handler.Webhooks as WebhookHandler
use task_flow_alisha_sharma.Handler.Stream.{Streams, Streaming, stream}

pub data AuthCall : Type 0 where
  register : Option RegisterRequest → AuthCall
  login : Option LoginRequest → AuthCall
  refresh : AuthCall
  logout : AuthCall

pub data ApiCall : Type 0 where
  list_projects : Option PaginationQuery → ApiCall
  create_project : Option CreateProjectRequest → ApiCall
  get_project : String → ApiCall
  update_project : String → Option UpdateProjectRequest → ApiCall
  delete_project : String → ApiCall
  project_stats : String → ApiCall
  list_tasks : String → Option TaskFilterQuery → ApiCall
  create_task : String → Option CreateTaskRequest → ApiCall
  update_task : String → Option UpdateTaskRequest → ApiCall
  delete_task : String → ApiCall
  events : String → ApiCall
  create_webhook : Option CreateWebhookRequest → ApiCall
  list_webhooks : ApiCall
  delete_webhook : String → ApiCall

pub record Request : Type 0 where
  pub ip : String
  pub request_id : String
  pub credentials : Credentials
  pub refresh_cookie : String

-- What the parts are made with.
pub record Parts : Type 0 where
  pub env : Env
  pub crypto : Crypto
  pub jwt : Jwt
  pub check : Checker
  pub auth : AuthConfig
  pub app_env : String
  pub auth_limit : RateLimitConfig
  pub api_limit : RateLimitConfig

pub record Server : Type 0 where
  pub streams : Streams
  pub entries : Entries

-- A reply with the headers that the middleware has set.
pub record Response : Type 0 where
  pub reply : Reply
  pub headers : Dict String

abbrev pub Serve : Type 0 → Type 0
Serve A = Server → A × Server

abbrev pub with_world : Server → World → Server
with_world s w = record s { streams = record s.streams { world = w } }

-- One more reading of a clock, or draw of an id.
abbrev pub tick : World → World
tick w = record w { ticks = suc w.ticks }

-- A handler ends here with its error or its panic.
abbrev pub run_handler : Handler Reply → Serve Reply
run_handler h s = let r = respond h s.streams.world in (r.0, with_world s r.1)

abbrev run_stream : Streaming Reply → Serve Reply
run_stream h s = let r = h s.streams in (settle r.0, record s { streams = r.1 })

module _ (p : Parts) where
  unfoldable pub auth_route : Request → AuthCall → Serve Reply
  auth_route req (register body) =
      run_handler (AuthHandler.register p.env p.crypto p.auth p.app_env p.check body)
  auth_route req (login body) =
      run_handler (AuthHandler.login p.env p.crypto p.auth p.app_env p.check body)
  auth_route req refresh =
      run_handler (AuthHandler.refresh p.env p.crypto p.auth p.app_env p.check req.refresh_cookie)
  auth_route req logout =
      run_handler (AuthHandler.logout p.env p.crypto p.auth p.app_env p.check req.refresh_cookie)

  unfoldable pub api_route : Option String → ApiCall → Serve Reply
  api_route user (list_projects q) = run_handler (ProjectHandler.list p.env p.check user q)
  api_route user (create_project b) = run_handler (ProjectHandler.create p.env p.check user b)
  api_route user (get_project id) = run_handler (ProjectHandler.get_by_id p.env p.check user id)
  api_route user (update_project id b) = run_handler (ProjectHandler.update p.env p.check user id b)
  api_route user (delete_project id) = run_handler (ProjectHandler.delete p.env p.check user id)
  api_route user (project_stats id) = run_handler (ProjectHandler.stats p.env p.check user id)
  api_route user (list_tasks id q) = run_handler (TaskHandler.list p.env p.check user id q)
  api_route user (create_task id b) = run_handler (TaskHandler.create p.env p.check user id b)
  api_route user (update_task id b) = run_handler (TaskHandler.update p.env p.check user id b)
  api_route user (delete_task id) = run_handler (TaskHandler.delete p.env p.check user id)
  api_route user (events projects) = run_stream (stream p.env user projects)
  api_route user (create_webhook b) = run_handler (WebhookHandler.create p.env p.check user b)
  api_route user list_webhooks = run_handler (WebhookHandler.list p.env p.check user)
  api_route user (delete_webhook id) = run_handler (WebhookHandler.delete p.env p.check user id)

  -- `RateLimit` reads the clock again only for the wait that it reports.
  abbrev after_verdict : Verdict → Serve Reply → Serve Reply
  after_verdict pass next s = next s
  after_verdict (too_many n) next s =
      (answer 429 (retry_later n), with_world s (tick s.streams.world))

  unfoldable pub limited : RateLimitConfig → String → Serve Reply → Serve Reply
  limited cfg key next s =
      let at = s.streams.world.ticks in
      let r = rate_limit cfg key (p.env.clock at) (p.env.clock (suc at)) s.entries in
      after_verdict r.0 next (with_world (record s { entries = r.1 }) (tick s.streams.world))

  abbrev signed_in : Option String → (String → Serve Reply) → Serve Reply
  signed_in none next s = (refuse 401 "unauthorized", s)
  signed_in (some user) next s = next user s

  -- `Auth`; the library reads the clock for the expiry.
  unfoldable pub authenticated : Request → (String → Serve Reply) → Serve Reply
  authenticated req next s =
      let at = p.env.clock s.streams.world.ticks / second in
      signed_in (authenticate p.jwt at p.auth.jwt_secret req.credentials) next
        (with_world s (tick s.streams.world))

  -- The local "user_id" is set by `Auth` only, after this key has been made.
  unfoldable pub serve_api : Request → ApiCall → Serve Reply
  serve_api req call =
      limited p.api_limit ("api:" <> req.ip)
        (authenticated req (λ user. api_route (some user) call))

  unfoldable pub serve_auth : Request → AuthCall → Serve Reply
  serve_auth req call = limited p.auth_limit ("auth:" <> req.ip) (auth_route req call)

  -- `RequestID` and `SecurityHeaders`, around any route.
  abbrev respond_with : String → Reply → Response
  respond_with id r = record {
    reply = r;
    headers = ("X-Request-Id", id) ∷ security_headers p.app_env;
  }

  unfoldable pub with_headers : Request → Serve Reply → Serve Response
  with_headers req next s =
      if req.request_id == ""
      then (let r = next (with_world s (tick s.streams.world)) in
          (respond_with (p.env.new_uuid s.streams.world.ticks) r.0, r.1))
      else (let r = next s in (respond_with req.request_id r.0, r.1))
