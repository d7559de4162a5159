-- ===== src/Main/Start.antt =====
-- How `main` begins.
use task_flow_alisha_sharma.Common.{String, ◌≡◌, refl, Option, none, some, List, [], ◌∷◌}
use task_flow_alisha_sharma.Common.Int.{ℤ}
use task_flow_alisha_sharma.Common.Exec.{Result, ok, err}
use task_flow_alisha_sharma.Config.{Config, Getenv, load}
use task_flow_alisha_sharma.Pool.{
  PoolConfig, Driver, Opening, new_pool, configured, made, pinged, with_limits,
}
use task_flow_alisha_sharma.Webhook.Dispatcher.{Dispatcher, new_dispatcher}
use task_flow_alisha_sharma.Database.{Db}
use task_flow_alisha_sharma.Main.{
  exited, crashed, serving, Booted, fresh, wired, connected, loaded, start,
}

module _ {Pool : Type 0} (driver : Driver Pool) where
  -- A pool is handed out open, and answers to a ping; where none is, none is left open.
  abbrev pub Accounted : Result String Pool → List Pool → List Pool → Type 0
  Accounted (ok pool) opened closed =
      (opened ≡ pool ∷ []) × (closed ≡ []) × (driver.ping pool ≡ none)
  Accounted (err e) opened closed = opened ≡ closed

  pinged-Accounted :
      (pool : Pool) (answer : Option String)
      → driver.ping pool ≡ answer
      → let o = pinged driver pool answer in Accounted o.result o.opened o.closed
  pinged-Accounted pool none h = (refl, refl, h)
  pinged-Accounted pool (some e) h = refl

  made-Accounted :
      (r : Result String Pool) → let o = made driver r in Accounted o.result o.opened o.closed
  made-Accounted (err e) = refl
  made-Accounted (ok pool) = pinged-Accounted pool (driver.ping pool) refl

  configured-Accounted :
      (cfg : Config) (r : Result String PoolConfig)
      → let o = configured driver cfg r in Accounted o.result o.opened o.closed
  configured-Accounted cfg (err e) = refl
  configured-Accounted cfg (ok c) = made-Accounted (driver.new_with_config (with_limits cfg c))

  pub new_pool-Accounted :
      (cfg : Config) → let o = new_pool driver cfg in Accounted o.result o.opened o.closed
  unfolding new_pool
  new_pool-Accounted cfg = configured-Accounted cfg _

  module _ (parse : String → Option ℤ) (getenv : Getenv) (db : Db) where
    -- Where a server listens it does so with an open pool, and otherwise no pool is left open and the
    -- code of an exit is 1.
    abbrev pub Sound : Booted Pool → Type 0
    Sound b = elim b.boot [
      | exited code ↦ (code ≡ 1) × (b.opened ≡ b.closed)
      | crashed ↦ b.opened ≡ b.closed
      | serving cfg pool d s ↦
          (load parse getenv ≡ ok cfg)
          × (driver.ping pool ≡ none)
          × (b.opened ≡ pool ∷ [])
          × (b.closed ≡ [])
          × (new_dispatcher cfg.webhook_worker_pool_sz ≡ some d)
          × (s ≡ fresh db)
    ]

    wired-Sound :
        (cfg : Config) (pool : Pool) (o : Opening Pool) (r : Option Dispatcher)
        → load parse getenv ≡ ok cfg
        → Accounted (ok pool) o.opened o.closed
        → new_dispatcher cfg.webhook_worker_pool_sz ≡ r
        → Sound (wired driver parse getenv cfg db pool o r)
    wired-Sound cfg pool o none read up none_made = rw (up.0, up.1) refl
    wired-Sound cfg pool o (some d) read up wired_up = (read, up.2, up.0, up.1, wired_up, refl)

    connected-Sound :
        (cfg : Config) (o : Opening Pool) (r : Result String Pool)
        → load parse getenv ≡ ok cfg
        → Accounted r o.opened o.closed
        → Sound (connected driver parse getenv cfg db o r)
    connected-Sound cfg o (err e) read even = (refl, even)
    connected-Sound cfg o (ok pool) read up =
        wired-Sound cfg pool o (new_dispatcher cfg.webhook_worker_pool_sz) read up refl

    loaded-Sound :
        (r : Result String Config) → load parse getenv ≡ r → Sound (loaded driver parse getenv db r)
    loaded-Sound (err e) read = (refl, refl)
    loaded-Sound (ok cfg) read =
        connected-Sound cfg (new_pool driver cfg) (new_pool driver cfg).result read
          (new_pool-Accounted cfg)

    -- A process that comes to listen has a valid configuration, one open pool, which has answered a
    -- ping, and a fresh server; one that exits has the code 1; and one that exits or panics before
    -- it listens leaves no pool open.
    pub start-Sound : Sound (start driver parse getenv db)
    unfolding start
    start-Sound = loaded-Sound (load parse getenv) refl
