-- ===== src/Server/Opaque/Streams.antt =====
-- The replies of backend/internal/handler/sse.go.
use task_flow_alisha_sharma.Common.{
  String, refl, inl, inr, Option, none, some, true, false, List, [], ◌∷◌, ◌==◌, arith, Bool-cases,
}
use task_flow_alisha_sharma.Common.Int.{leb_ℤ}
use task_flow_alisha_sharma.Common.Exec.{Result-cases}
use task_flow_alisha_sharma.Common.Text.{split}
use task_flow_alisha_sharma.Database.{Env, World}
use task_flow_alisha_sharma.Sse.{SseClient}
use task_flow_alisha_sharma.Repository.Projects.{is_user_in_project}
use task_flow_alisha_sharma.Http.{Reply, settle, answer, refuse, event_stream}
use task_flow_alisha_sharma.Handler.Stream.{
  Streams, conns_of, max_conns_per_user, check_projects, open_stream, finish, admit, stream,
}
use task_flow_alisha_sharma.Server.Opaque.Rules.{Opaque, lesser-Opaque}

-- Where the loop over the projects ends with a reply, that is an opaque one.
abbrev Fair : Option Reply → Type 0
Fair none = Unit
Fair (some r) = Opaque r

check_projects-Fair :
    (env : Env) (u : String) (pids : List String) (w : World) → Fair (check_projects env u pids w).0
unfolding check_projects
check_projects-Fair env u [] w = tt
check_projects-Fair env u (pid ∷ pids) w =
    let seen = is_user_in_project env pid u w in
    elim (Result-cases seen.0) [
      | inr (x, failed) ↦ rw (failed, check_projects) (omega arith, λ h. refl)
      | inl (false, out) ↦
          rw (out, check_projects) (lesser-Opaque (refuse 403 "forbidden") (omega arith))
      | inl (true, member) ↦ rw (member, check_projects) (check_projects-Fair env u pids seen.1)
    ]

finish-Opaque :
    (u : String) (pids : List String) (o : Option SseClient × Streams)
    → Opaque (settle (finish u pids o).0)
finish-Opaque u pids (none, s) = (omega arith, λ h. refl)
finish-Opaque u pids (some c, s) = lesser-Opaque (answer 200 event_stream) (omega arith)

admit-Opaque :
    (env : Env) (u : String) (pids : List String) (r : Option Reply) (s : Streams)
    → Fair r
    → Opaque (settle (admit env u pids r s).0)
admit-Opaque env u pids (some r) s fair = fair
admit-Opaque env u pids none s fair = elim (Bool-cases (leb_ℤ max_conns_per_user (conns_of u s))) [
  | inl full ↦ rw full (lesser-Opaque (refuse 429 "too many SSE connections") (omega arith))
  | inr room ↦ rw room (finish-Opaque u pids (open_stream env u pids s))
]

pub stream-Opaque :
    (env : Env) (user : Option String) (projects : String) (s : Streams)
    → Opaque (settle (stream env user projects s).0)
unfolding stream
stream-Opaque env none projects s = (omega arith, λ h. refl)
stream-Opaque env (some u) projects s = elim (Bool-cases (projects == "")) [
  | inl none_named ↦
      rw none_named
        (lesser-Opaque (refuse 400 "projects query parameter is required") (omega arith))
  | inr named ↦
      let seen = check_projects env u (split projects) s.world in
      rw named (
        admit-Opaque env u (split projects) seen.0 (record s { world = seen.1 })
          (check_projects-Fair env u (split projects) s.world))
]
