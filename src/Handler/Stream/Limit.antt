-- ===== src/Handler/Stream/Limit.antt =====
-- The limit on the streams of a user is out of reach for requests that follow on one another.
use task_flow_alisha_sharma.Common.{
  String, ◌≡◌, ◌≢◌, inl, inr, Option, none, some, true, false, List, [], ◌∷◌, ◌==◌, arith,
  Bool-cases, All,
}
use task_flow_alisha_sharma.Common.Int.{leb_ℤ}
use task_flow_alisha_sharma.Common.Text.{split}
use task_flow_alisha_sharma.Common.Exec.{Result, ok, Result-cases}
use task_flow_alisha_sharma.Database.{Env, World}
use task_flow_alisha_sharma.Sse.{SseClient}
use task_flow_alisha_sharma.Repository.Projects.{is_user_in_project}
use task_flow_alisha_sharma.Http.{Reply, Failure, refuse}
use task_flow_alisha_sharma.Handler.Stream.{
  Streams, conns_of, check_projects, open_stream, finish, admit, stream, max_conns_per_user,
}
use task_flow_alisha_sharma.Handler.Stream.Registration.{stream_unsubscribes}

abbrev pub full : Result Failure Reply
full = ok (refuse 429 "too many SSE connections")

-- The replies to requests of streams that follow on one another.
unfoldable pub stream_all :
    Env → List (Option String × String) → Streams → List (Result Failure Reply)
stream_all env [] s = []
stream_all env ((user, projects) ∷ rest) s =
    let r = stream env user projects s in r.0 ∷ stream_all env rest r.1

status_ne : (r t : Reply) → some r ≡ some t → r.status ≢ t.status → ⊥
status_ne r t e ne = ne (cc e)

reply_ne : (r t : Reply) → ◌≡◌ {A = Result Failure Reply} (ok r) (ok t) → r.status ≢ t.status → ⊥
reply_ne r t e ne = ne (cc e)

finish-ne-full :
    (u : String) (pids : List String) (o : Option SseClient × Streams) → (finish u pids o).0 ≢ full
finish-ne-full u pids (none, s) e = cc
finish-ne-full u pids (some c, s) e = reply_ne _ _ e (omega arith)

check_projects-ne-full :
    (env : Env) (u : String) (pids : List String) (w : World)
    → (check_projects env u pids w).0 ≢ some (refuse 429 "too many SSE connections")
unfolding check_projects
check_projects-ne-full env u [] w = cc
check_projects-ne-full env u (pid ∷ pids) w =
    let seen = is_user_in_project env pid u w in
    elim (Result-cases seen.0) [
      | inr (x, failed) ↦ rw (failed, check_projects) (λ e. status_ne _ _ e (omega arith))
      | inl (false, out) ↦ rw (out, check_projects) (λ e. status_ne _ _ e (omega arith))
      | inl (true, member) ↦ rw (member, check_projects) (check_projects-ne-full env u pids seen.1)
    ]

admit-ne-full :
    (env : Env) (u : String) (pids : List String) (r : Option Reply) (s : Streams)
    → r ≢ some (refuse 429 "too many SSE connections")
    → leb_ℤ max_conns_per_user (conns_of u s) ≡ false
    → (admit env u pids r s).0 ≢ full
admit-ne-full env u pids (some r) s ne room e = ne (cc e)
admit-ne-full env u pids none s ne room e =
    finish-ne-full u pids (open_stream env u pids s) (rw room at e)

stream-ne-full :
    (env : Env) (user : Option String) (projects : String) (s : Streams)
    → ((v : String) → leb_ℤ max_conns_per_user (conns_of v s) ≡ false)
    → (stream env user projects s).0 ≢ full
unfolding stream
stream-ne-full env none projects s room e = cc
stream-ne-full env (some u) projects s room e = elim (Bool-cases (projects == "")) [
  | inl none_named ↦ reply_ne _ _ (rw none_named at e) (omega arith)
  | inr named ↦
      let seen = check_projects env u (split projects) s.world in
      admit-ne-full env u (split projects) seen.0 (record s { world = seen.1 })
        (check_projects-ne-full env u (split projects) s.world) (room u) (rw named at e)
]

-- The handler of streams, called for one request after another, as many as there are and of whatever
-- users, never returns its own refusal "too many SSE connections", where every user starts with fewer
-- than five connections: a call has given its connection back when the next one begins. The rate
-- limiter before the handler is no part of this.
pub streams_unlimited :
    (env : Env) (reqs : List (Option String × String)) (s : Streams)
    → ((v : String) → leb_ℤ max_conns_per_user (conns_of v s) ≡ false)
    → All (λ r. r ≢ full) (stream_all env reqs s)
unfolding stream_all
streams_unlimited env [] s room = tt
streams_unlimited env ((user, projects) ∷ rest) s room =
    let t = (stream env user projects s).1 in
    let same = (stream_unsubscribes env user projects s).0 in
    (
      stream-ne-full env user projects s room,
      streams_unlimited env rest t (λ v. rw (same v) (room v)),
    )
