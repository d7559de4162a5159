-- ===== src/Database.antt =====
-- The PostgreSQL tables of backend/migrations/*.up.sql, and how the repositories reach them.
-- PostgreSQL and the driver are not part of the repository. `Env` holds what they and the runtime
-- choose: what other connections have written before a statement runs, whether it fails, the
-- clocks, and the ids that `uuid.NewString` draws. A statement is atomic and is numbered by the
-- `ticks` of the process; one that fails has changed nothing.
pub mod Others
use Prim.Native.String.{count}
use task_flow_alisha_sharma.Common.{
  ◌≡◌, refl, inl, inr, Option-cases, ℕ, suc, ◌-◌, ◌^◌, String, Option, none, some, Bool, ◌||◌, List,
  ◌==◌, leb, any,
}
use task_flow_alisha_sharma.Common.Exec.{Result, ok, err, Exec}
use task_flow_alisha_sharma.Model.{User, Project, Task, WebhookSubscription, RefreshToken, Event}
use task_flow_alisha_sharma.AppError.{DbError}
use task_flow_alisha_sharma.Sse.{SseBroker}

pub record Db : Type 0 where
  pub users : List User
  pub projects : List Project
  pub tasks : List Task
  pub refresh_tokens : List RefreshToken
  pub subscriptions : List WebhookSubscription

pub record Env : Type 0 where
  -- the tables as the statement finds them, from what this process left
  pub others : ℕ → Db → Db
  pub fault : ℕ → Option DbError
  -- NOW() of the server, and time.Now() of the process
  pub db_now : ℕ → ℕ
  pub clock : ℕ → ℕ
  pub new_uuid : ℕ → String
  -- the text of the DATE that an input denotes, if it is one
  pub date_text : String → Option String

-- The process: its tables as they were last seen, its broker (nil or not), and the events for which
-- the webhook dispatcher (nil or not) has started a goroutine.
pub record World : Type 0 where
  pub db : Db
  pub ticks : ℕ
  pub event_bus : Option SseBroker
  pub webhook_disp : Option (List Event)

abbrev pub Repo : Type 0 → Type 0
Repo A = Exec World DbError A

-- The tables in which the statement of tick `n` runs.
abbrev pub seen : Env → World → Db
seen env w = env.others w.ticks w.db

abbrev pub Statement : Type 0 → Type 0
Statement A = ℕ → Db → Result DbError A × Db

-- `pool.QueryRow`, `pool.Query` or `pool.Exec` of one statement.
unfoldable pub statement : {A : Type 0} → Env → Statement A → Repo A
statement env f w = elim (env.fault w.ticks) [
  | some e ↦ (err e, record w { db = seen env w; ticks = suc w.ticks })
  | none ↦
      let after = f (env.db_now w.ticks) (seen env w) in
      (after.0, record w { db = after.1; ticks = suc w.ticks })
]

-- time.Now() and uuid.NewString()
abbrev pub now : {E : Type 0} → Env → Exec World E ℕ
now env w = (ok (env.clock w.ticks), record w { ticks = suc w.ticks })

abbrev pub new_id : {E : Type 0} → Env → Exec World E String
new_id env w = (ok (env.new_uuid w.ticks), record w { ticks = suc w.ticks })

-- The enum types of 000003_create_tasks.up.sql.
abbrev pub is_status : String → Bool
is_status s = s == "todo" || s == "in_progress" || s == "done"

abbrev pub is_priority : String → Bool
is_priority s = s == "low" || s == "medium" || s == "high"

abbrev pub user_exists : String → Db → Bool
user_exists id db = any (λ (u : User). u.id == id) db.users

abbrev pub project_exists : String → Db → Bool
project_exists id db = any (λ (p : Project). p.id == id) db.projects

-- An INTEGER column holds 32 bits.
abbrev pub max_int4 : ℕ
max_int4 = 2 ^ 31 - 1

abbrev pub fits : ℕ → String → Bool
fits most s = leb (count s) most

-- No statement touches the broker or the dispatcher.
pub statement-bus :
    {A : Type 0} (env : Env) (f : Statement A) (w : World)
    → ((statement env f w).1.event_bus ≡ w.event_bus)
      × ((statement env f w).1.webhook_disp ≡ w.webhook_disp)
unfolding statement
statement-bus env f w = elim (Option-cases (env.fault w.ticks)) [
  | inl up ↦ (rw (up, statement) refl, rw (up, statement) refl)
  | inr (e, down) ↦ (rw (down, statement) refl, rw (down, statement) refl)
]
