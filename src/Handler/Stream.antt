-- ===== src/Handler/Stream.antt =====
-- backend/internal/handler/sse.go. A channel is a handle of the broker's model; `make` takes the next
-- two. What the stream writer prints is left to the framework, which calls it with the connection.
pub mod Registration
pub mod Limit
pub mod Writer
mod Tests
use task_flow_alisha_sharma.Common.{
  ℕ, ◌+◌, String, Option, none, some, Bool, true, false, List, [], ◌∷◌, ◌==◌, if◌then◌else◌,
  option_or,
}
use task_flow_alisha_sharma.Common.Int.{ℤ, pos, negsuc, ◌-ℤ◌, ltb_ℤ, leb_ℤ}
use task_flow_alisha_sharma.Common.Dict.{Dict, lookup, insert}
use task_flow_alisha_sharma.Common.Text.{split}
use task_flow_alisha_sharma.Common.Exec.{Result, ok, err, Exec, pure, raise, ◌>>=◌, ◌>>◌}
use task_flow_alisha_sharma.AppError.{DbError}
use task_flow_alisha_sharma.Database.{Env, World, now, new_id}
use task_flow_alisha_sharma.Sse.{SseClient, SseBroker, subscribe, unsubscribe}
use task_flow_alisha_sharma.Repository.Projects.{is_user_in_project}
use task_flow_alisha_sharma.Http.{Reply, Failure, panicked, answer, refuse, event_stream}

-- The handler with what it works on: the connections of each user, and the next free handle.
pub record Streams : Type 0 where
  pub world : World
  pub user_conns : Dict ℤ
  pub handles : ℕ

abbrev pub max_conns_per_user : ℤ
max_conns_per_user = pos 5

abbrev pub conns_of : String → Streams → ℤ
conns_of user_id s = option_or (lookup user_id s.user_conns) (pos 0)

abbrev set_conns : String → ℤ → Streams → Streams
set_conns user_id n s = record s { user_conns = insert user_id n s.user_conns }

-- counter.Add(1) and counter.Add(-1). A counter that is not there counts as the 0 that
-- `getUserConnCount` stores.
unfoldable pub count_up : String → Streams → Streams
count_up user_id s = set_conns user_id (conns_of user_id s -ℤ negsuc 0) s

unfoldable pub count_down : String → Streams → Streams
count_down user_id s = set_conns user_id (conns_of user_id s -ℤ pos 1) s

abbrev pub Streaming : Type 0 → Type 0
Streaming A = Exec Streams Failure A

-- A reply that ends the loop over the projects, if there is one.
abbrev pub access : Result DbError Bool → Option Reply → Option Reply
access (err e) rest = some (refuse 500 "internal server error")
access (ok false) rest = some (refuse 403 "forbidden")
access (ok true) rest = rest

-- The loop: the membership of the user in one project after the other.
unfoldable pub check_projects : Env → String → List String → World → Option Reply × World
check_projects env user_id [] w = (none, w)
check_projects env user_id (pid ∷ pids) w =
    let seen = is_user_in_project env pid user_id w in
    elim (access seen.0 none) [
      | some r ↦ (some r, seen.1)
      | none ↦ check_projects env user_id pids seen.1
    ]

abbrev pub client_of : String → String → ℕ → SseClient
client_of id user_id handle = record {
  id = id;
  user_id = user_id;
  events = handle;
  done = handle + 1;
}

abbrev with_bus : World → SseBroker → World
with_bus w b = record w { event_bus = some b }

-- From `counter.Add(1)` on, until the handler returns: the client is subscribed and the writer set.
-- A nil broker panics on its lock.
unfoldable pub open_stream : Env → String → List String → Streams → Option SseClient × Streams
open_stream env user_id pids s =
    let s₁ = count_up user_id s in
    let id = env.new_uuid s.world.ticks in
    let client = client_of id user_id s.handles in
    let w = (new_id {E = Failure} env s.world).1 in
    elim w.event_bus [
      | none ↦ (none, record s₁ { world = w; handles = s.handles + 2 })
      | some b ↦ (
        some client,
        record s₁ { world = with_bus w (subscribe client pids b); handles = s.handles + 2 },
      )
    ]

abbrev leave_bus : String → List String → Option SseBroker → Option SseBroker
leave_bus id pids none = none
leave_bus id pids (some b) = some (unsubscribe id pids b)

-- The deferred calls, in the reverse of their order.
unfoldable pub close_stream : String → List String → SseClient → Streams → Streams
close_stream user_id pids client s =
    count_down user_id (record s {
      world = record s.world { event_bus = leave_bus client.id pids s.world.event_bus };
    })

-- With a panic in `Subscribe` only the first deferred call has been set.
abbrev pub finish :
    String → List String → Option SseClient × Streams → Result Failure Reply × Streams
finish user_id pids (none, s) = (err panicked, count_down user_id s)
finish user_id pids (some client, s) =
    (ok (answer 200 event_stream), close_stream user_id pids client s)

abbrev pub admit : Env → String → List String → Option Reply → Streaming Reply
admit env user_id pids (some r) s = (ok r, s)
admit env user_id pids none s =
    if leb_ℤ max_conns_per_user (conns_of user_id s)
    then (ok (refuse 429 "too many SSE connections"), s)
    else finish user_id pids (open_stream env user_id pids s)

abbrev pub stream_for : Env → String → String → Streaming Reply
stream_for env user_id projects s =
    if projects == ""
    then (ok (refuse 400 "projects query parameter is required"), s)
    else (let seen = check_projects env user_id (split projects) s.world in
        admit env user_id (split projects) seen.0 (record s { world = seen.1 }))

unfoldable pub stream : Env → Option String → String → Streaming Reply
stream env none projects = raise panicked
stream env (some user_id) projects = stream_for env user_id projects
