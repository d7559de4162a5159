-- ===== src/Pool.antt =====
-- backend/internal/database/postgres.go. The driver is not part of the repository: `Driver` is what
-- its calls return, over the type of its pools.
use task_flow_alisha_sharma.Common.{ℕ, ◌*◌, String, Option, none, some, List, [], ◌∷◌}
use task_flow_alisha_sharma.Common.Int.{ℤ}
use task_flow_alisha_sharma.Common.Text.{◌<>◌}
use task_flow_alisha_sharma.Common.Exec.{Result, ok, err}
use task_flow_alisha_sharma.Config.{Config, database_url, hour, minute}

-- Of pgxpool.Config: where to connect, and what `NewPool` sets.
pub record PoolConfig : Type 0 where
  pub url : String
  pub max_conns : ℤ
  pub min_conns : ℤ
  pub max_conn_lifetime : ℕ
  pub max_conn_idle_time : ℕ
  pub health_check_period : ℕ

pub record Driver (Pool : Type 0) : Type 0 where
  pub parse_config : String → Result String PoolConfig
  pub new_with_config : PoolConfig → Result String Pool
  pub ping : Pool → Option String

abbrev pub with_limits : Config → PoolConfig → PoolConfig
with_limits cfg c = record c {
  max_conns = cfg.db_max_conn;
  min_conns = cfg.db_min_conn;
  max_conn_lifetime = 1 * hour;
  max_conn_idle_time = 30 * minute;
  health_check_period = 1 * minute;
}

-- The answer of `NewPool`, with the pools that it has made and those that it has closed.
pub record Opening (Pool : Type 0) : Type 0 where
  pub result : Result String Pool
  pub opened : List Pool
  pub closed : List Pool

module _ {Pool : Type 0} (driver : Driver Pool) where
  abbrev pub pinged : Pool → Option String → Opening Pool
  pinged pool none = record { result = ok pool; opened = pool ∷ []; closed = [] }
  pinged pool (some e) = record {
    result = err ("pinging database: " <> e);
    opened = pool ∷ [];
    closed = pool ∷ [];
  }

  abbrev pub failed : String → Opening Pool
  failed msg = record { result = err msg; opened = []; closed = [] }

  abbrev pub made : Result String Pool → Opening Pool
  made (err e) = failed ("creating connection pool: " <> e)
  made (ok pool) = pinged pool (driver.ping pool)

  abbrev pub configured : Config → Result String PoolConfig → Opening Pool
  configured cfg (err e) = failed ("parsing database URL: " <> e)
  configured cfg (ok c) = made (driver.new_with_config (with_limits cfg c))

  unfoldable pub new_pool : Config → Opening Pool
  new_pool cfg = configured cfg (driver.parse_config (database_url cfg))
