-- ===== src/Main/Interrupted.antt =====
-- How `main` ends while the handler of a stream runs.
use task_flow_alisha_sharma.Common.{String, ◌≡◌, ◌≢◌, refl, some, false, List, [], ◌∷◌}
use task_flow_alisha_sharma.Common.Int.{ℤ}
use task_flow_alisha_sharma.Webhook.{Client}
use task_flow_alisha_sharma.Database.{Env}
use task_flow_alisha_sharma.RateLimit.{Entries}
use task_flow_alisha_sharma.Sse.{SseBroker}
use task_flow_alisha_sharma.Sse.Shutdown.{shutdown_panics}
use task_flow_alisha_sharma.Handler.Stream.{Streams, open_stream, count_up, client_of}
use task_flow_alisha_sharma.Main.{panicked, shut_down, stop, running}

-- Where `main` comes to its last calls while the handler of a stream of two different projects has
-- subscribed its client and not yet returned, the broker's `Shutdown` panics: the cleanup of the rate
-- limiter is not stopped, and the pool is closed by the deferred call only.
pub stop_midstream :
    (env : Env) (u p q : String) (s : Streams) (b : SseBroker) (entries : Entries) (max_retries : ℤ)
    (deliveries : List Client)
    → p ≢ q
    → s.world.event_bus ≡ some b
    → let midway = (open_stream env u (p ∷ q ∷ []) s).1 in
      let ended =
        stop max_retries deliveries (running (record { streams = midway; entries = entries })) in
      (ended.0 ≡ panicked) × (ended.1.cleanup_stopped ≡ false) × (ended.1.pool_closings ≡ 1)
unfolding open_stream count_up stop
stop_midstream env u p q s b entries max_retries deliveries ne there =
    rw
      (
        there,
        shut_down,
        shutdown_panics (client_of (env.new_uuid s.world.ticks) u s.handles) p q b ne,
      )
      (refl, refl, refl)
