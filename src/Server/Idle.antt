-- ===== src/Server/Idle.antt =====
-- Requests that follow one another: the broker after them.
use task_flow_alisha_sharma.Common.{
  String, ◌≡◌, inl, inr, Option, none, some, List, ◌==◌, Bool-cases,
}
use task_flow_alisha_sharma.Common.Int.{leb_ℤ}
use task_flow_alisha_sharma.Common.Text.{◌<>◌, split}
use task_flow_alisha_sharma.Model.{Event}
use task_flow_alisha_sharma.Sse.{SseBroker}
use task_flow_alisha_sharma.Sse.Vacancy.{Vacant, publish-Vacant, passing-Vacant}
use task_flow_alisha_sharma.Database.{Env, World, Statement, statement, statement-bus}
use task_flow_alisha_sharma.Repository.Projects as ProjectRows
use task_flow_alisha_sharma.Repository.Quiet.{update_project-Quiet}
use task_flow_alisha_sharma.Service.Events.{to_bus}
use task_flow_alisha_sharma.Service.Projects as ProjectService
use task_flow_alisha_sharma.Service.Projects.{UpdateProjectRequest}
use task_flow_alisha_sharma.Service.Frame.{Frame}
use task_flow_alisha_sharma.Service.Frame.Edits.{update_project-within}
use task_flow_alisha_sharma.Http.{Reply, respond}
use task_flow_alisha_sharma.Handler.Stream.{
  Streams, conns_of, max_conns_per_user, count_up, count_down, check_projects, open_stream,
  close_stream, client_of, finish, admit, stream,
}
use task_flow_alisha_sharma.Handler.Stream.Registration.{check_projects-bus, with_event_bus}
use task_flow_alisha_sharma.Server.{
  AuthCall, register, login, refresh, logout, ApiCall, Request, Parts, Server, auth_route,
  serve_api, serve_auth,
}
use task_flow_alisha_sharma.Server.Frame.Routes.{
  world_of, api_route-within, limited-within, authenticated-within,
}
use task_flow_alisha_sharma.Server.Frame.Sessions as Sessions

abbrev pub StaysVacant : World → World → Type 0
StaysVacant w v = Vacant w.event_bus → Vacant v.event_bus

same-StaysVacant : (w v : World) → v.event_bus ≡ w.event_bus → StaysVacant w v
same-StaysVacant w v same h = rw same h

to_bus-Vacant : (evt : Event) (bus : Option SseBroker) → Vacant bus → Vacant (to_bus evt bus)
unfolding to_bus
to_bus-Vacant evt none h = h
to_bus-Vacant evt (some b) h = publish-Vacant evt b h

module _ (env : Env) where
  runs : (A : Type 0) (f : Statement A) (w : World) → StaysVacant w (statement env f w).1
  runs A f w = same-StaysVacant w (statement env f w).1 (statement-bus env f w).0

  vacant : (u : String) → Frame env u StaysVacant
  vacant u = record {
    still = λ w h. h;
    trans = λ a b c first then h. then (first h);
    ticks = λ w n h. h;
    tells = λ evt w. to_bus-Vacant evt w.event_bus;
    runs = λ A f harmless. runs A f;
  }

  edits :
      (u id : String) (req : UpdateProjectRequest) (w : World)
      → StaysVacant w (ProjectService.update env id u req w).1
  edits u id req w = update_project-within (vacant u) id req w λ p found mine.
      let v = (ProjectRows.find_by_id env id w).1 in
      same-StaysVacant v (ProjectRows.update env id req.name req.description v).1
        (update_project-Quiet env id req.name req.description v).0

  finish-Vacant :
      (u : String) (pids : List String) (s : Streams)
      → StaysVacant s.world (finish u pids (open_stream env u pids s)).1.world
  unfolding open_stream close_stream count_down count_up
  finish-Vacant u pids s =
      elim s.world.event_bus
        as (λ (bus : Option SseBroker).
          Vacant bus
          → Vacant
              (finish u pids (open_stream env u pids (with_event_bus bus s))).1.world.event_bus) [
                | none ↦ λ h. h
                | some b ↦
                    passing-Vacant (client_of (env.new_uuid s.world.ticks) u s.handles) pids b
              ]

  admit-Vacant :
      (u : String) (pids : List String) (r : Option Reply) (s : Streams)
      → StaysVacant s.world (admit env u pids r s).1.world
  admit-Vacant u pids (some r) s h = h
  admit-Vacant u pids none s h = elim (Bool-cases (leb_ℤ max_conns_per_user (conns_of u s))) [
    | inl full ↦ rw full h
    | inr room ↦ rw room (finish-Vacant u pids s h)
  ]

  stream-Vacant :
      (u projects : String) (s : Streams)
      → StaysVacant s.world (stream env (some u) projects s).1.world
  unfolding stream
  stream-Vacant u projects s h = elim (Bool-cases (projects == "")) [
    | inl none_named ↦ rw none_named h
    | inr named ↦
        let seen = check_projects env u (split projects) s.world in
        rw named (
          admit-Vacant u (split projects) seen.0 (record s { world = seen.1 })
            (rw (check_projects-bus env u (split projects) s.world) h))
  ]

module _ (p : Parts) where
  auth_route-Vacant :
      (req : Request) (call : AuthCall) (s : Server)
      → StaysVacant (world_of s) (world_of (auth_route p req call s).1)
  unfolding auth_route respond
  auth_route-Vacant req (register b) s =
      Sessions.register-Framed (vacant p.env "") (λ A f elsewhere. runs p.env A f) p.crypto p.auth
        p.app_env p.check b (world_of s)
  auth_route-Vacant req (login b) s =
      Sessions.login-Framed (vacant p.env "") (λ A f elsewhere. runs p.env A f) p.crypto p.auth
        p.app_env p.check b (world_of s)
  auth_route-Vacant req refresh s =
      Sessions.refresh-Framed (vacant p.env "") (λ A f elsewhere. runs p.env A f) p.crypto p.auth
        p.app_env p.check req.refresh_cookie (world_of s)
  auth_route-Vacant req logout s =
      Sessions.logout-Framed (vacant p.env "") (λ A f elsewhere. runs p.env A f) p.crypto p.auth
        p.app_env p.check req.refresh_cookie (world_of s)

  pub serve_auth-Vacant :
      (req : Request) (call : AuthCall) (s : Server)
      → StaysVacant (world_of s) (world_of (serve_auth p req call s).1)
  unfolding serve_auth
  serve_auth-Vacant req call s =
      limited-within p (vacant p.env "") p.auth_limit ("auth:" <> req.ip) _ s
        λ es. auth_route-Vacant req call _

  pub serve_api-Vacant :
      (req : Request) (call : ApiCall) (s : Server)
      → StaysVacant (world_of s) (world_of (serve_api p req call s).1)
  unfolding serve_api
  serve_api-Vacant req call s =
      limited-within p (vacant p.env "") p.api_limit ("api:" <> req.ip) _ s λ es.
        authenticated-within p (vacant p.env "") req _ _ λ v named.
          api_route-within p (vacant p.env v) call _ (λ id b. edits p.env v id b _)
            (λ projects. stream-Vacant p.env v projects _)
