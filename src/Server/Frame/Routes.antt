-- ===== src/Server/Frame/Routes.antt =====
-- The routes of a signed-in user, with their middleware, within a frame.
use task_flow_alisha_sharma.Common.{◌/◌, String, ◌≡◌, refl, Option, none, some}
use task_flow_alisha_sharma.RateLimit.{
  RateLimitConfig, Entries, Verdict, pass, refuse as too_many, second,
}
use task_flow_alisha_sharma.Database.{World}
use task_flow_alisha_sharma.Middleware.{authenticate}
use task_flow_alisha_sharma.Service.Projects as ProjectService
use task_flow_alisha_sharma.Service.Projects.{UpdateProjectRequest}
use task_flow_alisha_sharma.Service.Frame.{Frame}
use task_flow_alisha_sharma.Http.{Reply, respond}
use task_flow_alisha_sharma.Handler.Stream.{stream}
use task_flow_alisha_sharma.Server.{
  ApiCall, list_projects, create_project, get_project, update_project, delete_project,
  project_stats, list_tasks, create_task, update_task, delete_task, events, create_webhook,
  list_webhooks, delete_webhook, Request, Parts, Server, Serve, with_world, tick, after_verdict,
  limited, signed_in, authenticated, api_route,
}
use task_flow_alisha_sharma.Server.Frame as Handlers

abbrev pub world_of : Server → World
world_of s = s.streams.world

module _ (p : Parts) {u : String} {R : World → World → Type 0} (fr : Frame p.env u R) where
  -- Where an update of a project and a stream keep to it.
  pub api_route-within :
      (call : ApiCall) (s : Server)
      → ((id : String) (req : UpdateProjectRequest)
          → R (world_of s) (ProjectService.update p.env id u req (world_of s)).1)
      → ((projects : String) → R (world_of s) (stream p.env (some u) projects s.streams).1.world)
      → R (world_of s) (world_of (api_route p (some u) call s).1)
  unfolding api_route respond
  api_route-within (list_projects q) s edits streams =
      Handlers.list_projects-Framed fr p.check q (world_of s)
  api_route-within (create_project b) s edits streams =
      Handlers.create_project-Framed fr p.check b (world_of s)
  api_route-within (get_project id) s edits streams =
      Handlers.get_project-Framed fr p.check id (world_of s)
  api_route-within (update_project id b) s edits streams =
      Handlers.update_project-within fr p.check id b (world_of s) (edits id)
  api_route-within (delete_project id) s edits streams =
      Handlers.delete_project-Framed fr p.check id (world_of s)
  api_route-within (project_stats id) s edits streams =
      Handlers.stats-Framed fr p.check id (world_of s)
  api_route-within (list_tasks id q) s edits streams =
      Handlers.list_tasks-Framed fr p.check id q (world_of s)
  api_route-within (create_task id b) s edits streams =
      Handlers.create_task-Framed fr p.check id b (world_of s)
  api_route-within (update_task id b) s edits streams =
      Handlers.update_task-Framed fr p.check id b (world_of s)
  api_route-within (delete_task id) s edits streams =
      Handlers.delete_task-Framed fr p.check id (world_of s)
  api_route-within (events projects) s edits streams = streams projects
  api_route-within (create_webhook b) s edits streams =
      Handlers.create_webhook-Framed fr p.check b (world_of s)
  api_route-within list_webhooks s edits streams =
      Handlers.list_webhooks-Framed fr p.check (world_of s)
  api_route-within (delete_webhook id) s edits streams =
      Handlers.delete_webhook-Framed fr p.check id (world_of s)

  after_verdict-within :
      (v : Verdict) (next : Serve Reply) (s : Server)
      → R (world_of s) (world_of (next s).1)
      → R (world_of s) (world_of (after_verdict p v next s).1)
  after_verdict-within pass next s rest = rest
  after_verdict-within (too_many n) next s rest = fr.ticks (world_of s) _

  -- The server that the limiter hands on.
  abbrev pub admitted : Server → Entries → Server
  admitted s entries = with_world (record s { entries = entries }) (tick (world_of s))

  pub limited-within :
      (cfg : RateLimitConfig) (key : String) (next : Serve Reply) (s : Server)
      → ((es : Entries) → R (world_of (admitted s es)) (world_of (next (admitted s es)).1))
      → R (world_of s) (world_of (limited p cfg key next s).1)
  unfolding limited
  limited-within cfg key next s rest =
      fr.trans (world_of s) (tick (world_of s)) _ (fr.ticks (world_of s) _)
        (after_verdict-within _ next (admitted s _) (rest _))

  signed_in-within :
      (user : Option String) (next : String → Serve Reply) (s : Server)
      → ((v : String) → user ≡ some v → R (world_of s) (world_of (next v s).1))
      → R (world_of s) (world_of (signed_in p user next s).1)
  signed_in-within none next s rest = fr.still (world_of s)
  signed_in-within (some v) next s rest = rest v refl

  pub authenticated-within :
      (req : Request) (next : String → Serve Reply) (s : Server)
      → (let t = with_world s (tick (world_of s)) in
          (v : String)
          → authenticate p.jwt
              (p.env.clock (world_of s).ticks / second)
              p.auth.jwt_secret
              req.credentials
            ≡ some v
          → R (world_of t) (world_of (next v t).1))
      → R (world_of s) (world_of (authenticated p req next s).1)
  unfolding authenticated
  authenticated-within req next s rest =
      fr.trans (world_of s) (tick (world_of s)) _ (fr.ticks (world_of s) _)
        (signed_in-within _ next (with_world s (tick (world_of s))) rest)
