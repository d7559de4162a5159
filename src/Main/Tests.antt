-- ===== src/Main/Tests.antt =====
-- A process that starts, serves and stops.
use task_flow_alisha_sharma.Common.{
  ◌≤◌, ◌≡◌, refl, none, true, false, String, ◌≢◌, ◌==◌, ◌∷◌, ◌++◌, [], if◌then◌else◌, ℕ, List, All,
  arith, eq_iff,
}
use task_flow_alisha_sharma.Common.Int.{ℤ, pos, ◌≤ℤ◌}
use task_flow_alisha_sharma.Common.Exec.{ok}
use task_flow_alisha_sharma.Config.{Getenv, read_config, load, validate, get_env, get_env_int}
use task_flow_alisha_sharma.Sse.{new_broker}
use task_flow_alisha_sharma.Handler.Stream.{open_stream}
use task_flow_alisha_sharma.Main.Interrupted.{stop_midstream}
use task_flow_alisha_sharma.Sse.Vacancy.{Vacant}
use task_flow_alisha_sharma.Pool.{Driver, new_pool}
use task_flow_alisha_sharma.Webhook.Dispatcher.{idle}
use task_flow_alisha_sharma.Repository.Tests.{tables, calm}
use task_flow_alisha_sharma.Server.{events, delete_project, logout}
use task_flow_alisha_sharma.Server.Tests.{trusting, forged, alone}
use task_flow_alisha_sharma.Server.Kept.{own_projects, own_subscriptions}
use task_flow_alisha_sharma.Database.Others.{Distinct}
use task_flow_alisha_sharma.Middleware.{token_of, authenticate}
use task_flow_alisha_sharma.Main.Strangers.{OfStranger, strangers_keep}
use task_flow_alisha_sharma.Main.{
  serving, start, fresh, Probe, Incoming, to_ready, to_auth, to_api, serve_all, running, clean,
  panicked, killed, stop,
}
use task_flow_alisha_sharma.Main.Start.{Sound, start-Sound}
use task_flow_alisha_sharma.Main.Stop.{serve_all-Vacant, main_stops, stop_killed}
use task_flow_alisha_sharma.Webhook.{Client, failed, answered}

abbrev minimal : Getenv
minimal key =
    if key == "JWT_SECRET" then "0123456789abcdef" else if key == "DB_PASSWORD" then "pw" else ""

-- A driver whose pools are numbers, and which makes one.
abbrev reachable : Driver ℕ
reachable = record {
  parse_config = λ url. ok (record {
    url = url;
    max_conns = pos 4;
    min_conns = pos 0;
    max_conn_lifetime = 1;
    max_conn_idle_time = 1;
    health_check_period = 1;
  });
  new_with_config = λ c. ok 7;
  ping = λ pool. none;
}

start-Sound_example :
    Sound reachable (λ s. none) minimal tables (start reachable (λ s. none) minimal tables)
start-Sound_example = start-Sound reachable (λ s. none) minimal tables

begins :
    (start reachable (λ s. none) minimal tables).boot
    ≡ serving (read_config (λ s. none) minimal) 7 (idle 10) (fresh tables)
unfolding start load validate read_config new_pool get_env get_env_int
begins = refl

abbrev responsive : Probe
responsive = record {
  start_time = 0;
  stat = λ n. record { total_conns = 1; idle_conns = 1; acquired_conns = 0; max_conns = 25 };
  ping = λ n. none;
}

-- A ping, a stream, a request that is refused, and the end of a session.
abbrev requests : List Incoming
requests =
    to_ready forged
    ∷ to_api forged (events "p1,p2")
    ∷ to_api forged (delete_project "p1")
    ∷ to_auth forged logout
    ∷ []

-- A subscriber that answers nothing, and one that accepts.
abbrev silent : Client
silent attempt = failed

abbrev hooks : List Client
hooks = silent ∷ (λ attempt. answered 200) ∷ []

abbrev retries : ℤ
retries = (read_config (λ s. none) minimal).webhook_max_retries

few_retries : retries ≤ℤ pos 3
unfolding read_config get_env_int
few_retries = omega arith

main_stops_example :
    let ended =
      stop retries hooks (running (serve_all trusting responsive requests (fresh tables))) in
    (ended.0 ≡ clean) × (ended.1.cleanup_stopped ≡ true) × (1 ≤ ended.1.pool_closings)
main_stops_example =
    main_stops reachable (λ s. none) minimal tables (read_config (λ s. none) minimal) 7 (idle 10)
      (fresh tables) trusting responsive requests hooks begins few_retries

stop_killed_example :
    let ended = stop (pos 4) ([] ++ silent ∷ []) (running (fresh tables)) in
    (ended.0 ≡ killed) × (ended.1.cleanup_stopped ≡ false) × (ended.1.pool_closings ≡ 0)
stop_killed_example =
    stop_killed 4 [] [] silent (fresh tables) (omega arith) (λ j l. refl) (refl, refl)

serve_all-Vacant_example :
    Vacant (serve_all trusting responsive requests (fresh tables)).streams.world.event_bus
serve_all-Vacant_example = serve_all-Vacant trusting responsive requests (fresh tables) (refl, refl)

-- All tokens are of the user u2.
strange : All (OfStranger trusting alone "u1") requests
unfolding authenticate token_of
strange = (
  tt,
  (
    λ at same. ground (arith, same, eq_iff "u2" "u1"),
    (λ at same. ground (arith, same, eq_iff "u2" "u1"), (tt, tt)),
  ),
)

distinct : Distinct (fresh tables).streams.world.db.projects
distinct = (refl, tt)

strangers_keep_example :
    let after = (serve_all trusting responsive requests (fresh tables)).streams.world.db in
    Distinct after.projects
    × (own_projects "u1" after.projects ≡ own_projects "u1" tables.projects)
    × (own_subscriptions "u1" after.subscriptions ≡ own_subscriptions "u1" tables.subscriptions)
strangers_keep_example =
    strangers_keep trusting alone "u1" responsive requests (fresh tables) strange distinct

p1_not_p2 : ◌≢◌ {A = String} "p1" "p2"
p1_not_p2 = ground (arith, eq_iff "p1" "p2")

stop_midstream_example :
    let midway = (open_stream calm "u1" ("p1" ∷ "p2" ∷ []) (fresh tables).streams).1 in
    let ended = stop (pos 3) hooks (running (record { streams = midway; entries = [] })) in
    (ended.0 ≡ panicked) × (ended.1.cleanup_stopped ≡ false) × (ended.1.pool_closings ≡ 1)
stop_midstream_example =
    stop_midstream calm "u1" "p1" "p2" (fresh tables).streams new_broker [] (pos 3) hooks p1_not_p2
      refl
