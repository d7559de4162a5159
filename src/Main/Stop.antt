-- ===== src/Main/Stop.antt =====
-- How `main` ends.
use task_flow_alisha_sharma.Common.{
  ℕ, ◌≤◌, String, ◌≡◌, refl, inl, inr, Option, true, false, List, [], ◌∷◌, ◌++◌, ◌==◌, any, arith,
  Bool-cases, Option-cases,
}
use task_flow_alisha_sharma.Common.Int.{ℤ, pos, ◌≤ℤ◌}
use task_flow_alisha_sharma.Config.{Config, Getenv}
use task_flow_alisha_sharma.Pool.{Driver}
use task_flow_alisha_sharma.RateLimit.{stop_cleanup}
use task_flow_alisha_sharma.Sse.Vacancy.{Vacant, shutdown-Vacant}
use task_flow_alisha_sharma.Webhook.{Client, panics, takes_down}
use task_flow_alisha_sharma.Webhook.Delivery.{FailsBefore, deliver_panics, takes_down-calm}
use task_flow_alisha_sharma.Webhook.Dispatcher.{Dispatcher}
use task_flow_alisha_sharma.Database.{Db}
use task_flow_alisha_sharma.Http.{Reply}
use task_flow_alisha_sharma.Server.{
  Request, Parts, Server, Serve, serve_auth, serve_api, with_headers, with_world, tick,
}
use task_flow_alisha_sharma.Server.Frame.Routes.{world_of}
use task_flow_alisha_sharma.Server.Idle.{StaysVacant, serve_auth-Vacant, serve_api-Vacant}
use task_flow_alisha_sharma.Main.{
  serving, start, fresh, Probe, Incoming, to_health, to_ready, to_auth, to_api, serve, serve_all,
  running, clean, killed, shut_down, drain, stop,
}
use task_flow_alisha_sharma.Main.Start.{start-Sound}

module _ (p : Parts) (probe : Probe) where
  with_headers-Vacant :
      (req : Request) (next : Serve Reply) (s : Server)
      → ((t : Server) → StaysVacant (world_of t) (world_of (next t).1))
      → StaysVacant (world_of s) (world_of (with_headers p req next s).1)
  unfolding with_headers
  with_headers-Vacant req next s keeps h = elim (Bool-cases (req.request_id == "")) [
    | inl missing ↦ rw missing (keeps (with_world s (tick s.streams.world)) h)
    | inr given ↦ rw given (keeps s h)
  ]

  serve-Vacant :
      (r : Incoming) (s : Server) → StaysVacant (world_of s) (world_of (serve p probe r s).1)
  unfolding serve
  serve-Vacant (to_health req) s = with_headers-Vacant req _ s λ t h. h
  serve-Vacant (to_ready req) s = with_headers-Vacant req _ s λ t h. h
  serve-Vacant (to_auth req call) s =
      with_headers-Vacant req (serve_auth p req call) s (serve_auth-Vacant p req call)
  serve-Vacant (to_api req call) s =
      with_headers-Vacant req (serve_api p req call) s (serve_api-Vacant p req call)

  -- Requests that follow one another, whatever they are and whoever sends them, leave a broker that
  -- runs without clients as one that runs without clients.
  pub serve_all-Vacant :
      (rs : List Incoming) (s : Server)
      → Vacant (world_of s).event_bus
      → Vacant (world_of (serve_all p probe rs s)).event_bus
  unfolding serve_all
  serve_all-Vacant [] s h = h
  serve_all-Vacant (r ∷ rs) s h = serve_all-Vacant rs (serve p probe r s).1 (serve-Vacant r s h)

takes_down-none :
    (max_retries : ℤ) (deliveries : List Client)
    → max_retries ≤ℤ pos 3
    → any (takes_down max_retries) deliveries ≡ false
takes_down-none max_retries [] few = refl
takes_down-none max_retries (c ∷ cs) few =
    rw (takes_down-calm max_retries c few) (takes_down-none max_retries cs few)

stop-clean :
    (max_retries : ℤ) (deliveries : List Client) (s : Server)
    → max_retries ≤ℤ pos 3
    → Vacant (world_of s).event_bus
    → let ended = stop max_retries deliveries (running s) in
      (ended.0 ≡ clean) × (ended.1.cleanup_stopped ≡ true) × (1 ≤ ended.1.pool_closings)
unfolding stop stop_cleanup
stop-clean max_retries deliveries s few h = elim (Option-cases (world_of s).event_bus) [
  | inl gone ↦ absurd (rw gone at h)
  | inr (b, there) ↦
      let down = shutdown-Vacant b (rw there at h) in
      rw (there, shut_down, down.1, takes_down-none max_retries deliveries few, drain)
        (refl, refl, omega arith)
]

-- A process that has come to listen with at most three retries of a delivery, and has served any
-- requests one after another, stops cleanly, whatever deliveries end while it waits for them: no
-- call on the way and no delivery panics, the cleanup of the rate limiter is stopped and the pool
-- closed.
pub main_stops :
    {Pool : Type 0} (driver : Driver Pool) (parse : String → Option ℤ) (getenv : Getenv) (db : Db)
    (cfg : Config) (pool : Pool) (d : Dispatcher) (s : Server) (p : Parts) (probe : Probe)
    (rs : List Incoming) (deliveries : List Client)
    → (start driver parse getenv db).boot ≡ serving cfg pool d s
    → cfg.webhook_max_retries ≤ℤ pos 3
    → let ended = stop cfg.webhook_max_retries deliveries (running (serve_all p probe rs s)) in
      (ended.0 ≡ clean) × (ended.1.cleanup_stopped ≡ true) × (1 ≤ ended.1.pool_closings)
main_stops driver parse getenv db cfg pool d s p probe rs deliveries began few =
    let sound = start-Sound driver parse getenv db in
    let made : s ≡ fresh db = (rw began at sound).5 in
    stop-clean cfg.webhook_max_retries deliveries (serve_all p probe rs s) few
      (serve_all-Vacant p probe rs s (rw made (refl, refl)))

takes_down-there :
    (max_retries : ℕ) (earlier later : List Client) (client : Client)
    → 4 ≤ max_retries
    → FailsBefore client 4
    → any (takes_down (pos max_retries)) (earlier ++ client ∷ later) ≡ true
takes_down-there max_retries [] later client many fails =
    rw (deliver_panics max_retries client many fails, panics) refl
takes_down-there max_retries (c ∷ cs) later client many fails =
    rw (takes_down-there max_retries cs later client many fails) (ground arith)

-- With four retries or more, a delivery whose first four attempts fail ends a process whose broker
-- runs without clients while it waits for its deliveries: the cleanup of the rate limiter is not
-- stopped and the pool is not closed, not by the deferred call either.
pub stop_killed :
    (max_retries : ℕ) (earlier later : List Client) (client : Client) (s : Server)
    → 4 ≤ max_retries
    → FailsBefore client 4
    → Vacant (world_of s).event_bus
    → let ended = stop (pos max_retries) (earlier ++ client ∷ later) (running s) in
      (ended.0 ≡ killed) × (ended.1.cleanup_stopped ≡ false) × (ended.1.pool_closings ≡ 0)
unfolding stop
stop_killed max_retries earlier later client s many fails h =
    elim (Option-cases (world_of s).event_bus) [
      | inl gone ↦ absurd (rw gone at h)
      | inr (b, there) ↦
          let down = shutdown-Vacant b (rw there at h) in
          rw
            (
              there,
              shut_down,
              down.1,
              takes_down-there max_retries earlier later client many fails,
              drain,
            )
            (refl, refl, refl)
    ]
