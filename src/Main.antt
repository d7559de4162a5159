-- ===== src/Main.antt =====
-- `main` of backend/cmd/api/main.go: from the start of the process, over the requests that it serves
-- one after another, to its end. The listener, the signals and the framework's own shutdown, whose
-- error is only logged, are not part of the repository. A delivery that panics while requests are
-- served would end the process too; the deliveries here are those that end while `main` stops.
pub mod Start
pub mod Stop
pub mod Strangers
pub mod Interrupted
mod Tests
use task_flow_alisha_sharma.Common.{
  ℕ, suc, ◌+◌, String, Option, none, some, Bool, true, false, List, [], ◌∷◌, ◌++◌, any,
}
use task_flow_alisha_sharma.Common.Int.{ℤ, pos, ◌*ℤ◌, wrap64}
use task_flow_alisha_sharma.Common.Exec.{Result, ok, err}
use task_flow_alisha_sharma.Config.{Config, Getenv, load}
use task_flow_alisha_sharma.Pool.{Driver, Opening, new_pool}
use task_flow_alisha_sharma.RateLimit.{stop_cleanup}
use task_flow_alisha_sharma.Sse.{SseBroker, new_broker, shutdown}
use task_flow_alisha_sharma.Webhook.{Client, takes_down}
use task_flow_alisha_sharma.Webhook.Dispatcher.{Dispatcher, new_dispatcher}
use task_flow_alisha_sharma.Database.{Db, World}
use task_flow_alisha_sharma.Http.{Reply, PoolStat}
use task_flow_alisha_sharma.Handler.Health.{health, check_ready}
use task_flow_alisha_sharma.Server.{
  AuthCall, ApiCall, Request, Parts, Server, Response, Serve, serve_auth, serve_api, with_headers,
  with_world, tick,
}

-- The settings of the framework.
pub record FiberConfig : Type 0 where
  pub body_limit : ℤ
  pub read_timeout : ℤ
  pub write_timeout : ℤ
  pub idle_timeout : ℤ

unfoldable pub fiber_config : Config → FiberConfig
fiber_config cfg = record {
  body_limit = wrap64 (wrap64 (cfg.body_limit_mb *ℤ pos 1024) *ℤ pos 1024);
  read_timeout = cfg.read_timeout;
  write_timeout = cfg.write_timeout;
  idle_timeout = cfg.idle_timeout;
}

-- os.Exit with this code, a panic, or a server that listens.
pub data Boot (Pool : Type 0) : Type 0 where
  exited : ℕ → Boot Pool
  crashed : Boot Pool
  serving : Config → Pool → Dispatcher → Server → Boot Pool

-- With the pools that have been made and closed so far.
pub record Booted (Pool : Type 0) : Type 0 where
  pub boot : Boot Pool
  pub opened : List Pool
  pub closed : List Pool

-- The broker is empty, no goroutine of the dispatcher runs, and no request has been counted.
abbrev pub fresh : Db → Server
fresh db = record {
  streams = record {
    world = record { db = db; ticks = 0; event_bus = some new_broker; webhook_disp = some [] };
    user_conns = [];
    handles = 0;
  };
  entries = [];
}

module _ {Pool : Type 0} (driver : Driver Pool) (parse : String → Option ℤ) (getenv : Getenv) where
  -- The deferred `pool.Close` runs when `NewWebhookDispatcher` panics.
  abbrev wired : Config → Db → Pool → Opening Pool → Option Dispatcher → Booted Pool
  wired cfg db pool o none = record {
    boot = crashed;
    opened = o.opened;
    closed = o.closed ++ pool ∷ [];
  }
  wired cfg db pool o (some d) = record {
    boot = serving cfg pool d (fresh db);
    opened = o.opened;
    closed = o.closed;
  }

  abbrev connected : Config → Db → Opening Pool → Result String Pool → Booted Pool
  connected cfg db o (err e) = record { boot = exited 1; opened = o.opened; closed = o.closed }
  connected cfg db o (ok pool) = wired cfg db pool o (new_dispatcher cfg.webhook_worker_pool_sz)

  abbrev loaded : Db → Result String Config → Booted Pool
  loaded db (err e) = record { boot = exited 1; opened = []; closed = [] }
  loaded db (ok cfg) = let o = new_pool driver cfg in connected cfg db o o.result

  unfoldable pub start : Db → Booted Pool
  start db = loaded db (load parse getenv)

-- A request that the router has passed on, under the middleware of all routes.
pub data Incoming : Type 0 where
  to_health : Request → Incoming
  to_ready : Request → Incoming
  to_auth : Request → AuthCall → Incoming
  to_api : Request → ApiCall → Incoming

-- The health handler: when it was made, and what the pool tells of itself at a tick.
pub record Probe : Type 0 where
  pub start_time : ℕ
  pub stat : ℕ → PoolStat
  pub ping : ℕ → Option String

module _ (p : Parts) (probe : Probe) where
  abbrev at_tick : (ℕ → Reply) → Serve Reply
  at_tick reply s = (reply s.streams.world.ticks, with_world s (tick s.streams.world))

  unfoldable pub serve : Incoming → Serve Response
  serve (to_health req) =
      with_headers p req (at_tick λ n. health probe.start_time (p.env.clock n) (probe.stat n))
  serve (to_ready req) = with_headers p req (at_tick λ n. check_ready (probe.ping n))
  serve (to_auth req call) = with_headers p req (serve_auth p req call)
  serve (to_api req call) = with_headers p req (serve_api p req call)

  unfoldable pub serve_all : List Incoming → Server → Server
  serve_all [] s = s
  serve_all (r ∷ rest) s = serve_all rest (serve r s).1

-- What is left to stop: the server, whether the channel of the rate limiter is closed, and how often
-- `Close` of the pool has been called, which may be more than once.
pub record Process : Type 0 where
  pub server : Server
  pub cleanup_stopped : Bool
  pub pool_closings : ℕ

-- A `panicked` end is a panic of `main` itself, whose deferred calls run; `killed` is the panic of
-- another goroutine, which ends the process at once.
pub data Ending : Type 0 where
  clean panicked killed : Ending

abbrev pub with_broker : Process → SseBroker → Process
with_broker proc b = record proc {
  server = record proc.server {
    streams = record proc.server.streams {
      world = record proc.server.streams.world { event_bus = some b };
    };
  };
}

-- The deferred call, which runs unless the process is killed.
abbrev close_pool : Process → Process
close_pool proc = record proc { pool_closings = suc proc.pool_closings }

abbrev stop_limiter : Process → Option Bool → Ending × Process
stop_limiter proc none = (panicked, close_pool proc)
stop_limiter proc (some closed) =
    (clean, close_pool (close_pool (record proc { cleanup_stopped = closed })))

-- `Shutdown` of the dispatcher waits, for no longer than its context, while deliveries end; whether
-- one of them takes the process down.
abbrev pub drain : Bool → Process → Ending × Process
drain true proc = (killed, proc)
drain false proc = stop_limiter proc (stop_cleanup proc.cleanup_stopped)

abbrev stop_rest : Bool → Process → Option SseBroker → Ending × Process
stop_rest down proc none = (panicked, close_pool proc)
stop_rest down proc (some b) = drain down (with_broker proc b)

abbrev shut_down : Option SseBroker → Option SseBroker
shut_down none = none
shut_down (some b) = shutdown b

-- The calls after the signal, with WEBHOOK_MAX_RETRIES and the deliveries that end while the
-- dispatcher waits for them. A nil broker panics on its lock.
unfoldable pub stop : ℤ → List Client → Process → Ending × Process
stop max_retries deliveries proc =
    stop_rest (any (takes_down max_retries) deliveries) proc
      (shut_down proc.server.streams.world.event_bus)

abbrev pub running : Server → Process
running s = record { server = s; cleanup_stopped = false; pool_closings = 0 }
