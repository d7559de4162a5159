-- ===== src/Http.antt =====
-- What a handler may end with, and `globalErrorHandler` of backend/cmd/api/main.go with `Recover` of
-- middleware/recover.go, which make a reply of it. A JSON body is the value that is encoded; a time
-- in it is the number that is formatted.
use task_flow_alisha_sharma.Common.{ℕ, String, Option, none, some, Bool, List}
use task_flow_alisha_sharma.Common.Int.{ℤ}
use task_flow_alisha_sharma.Common.Dict.{Dict}
use task_flow_alisha_sharma.Common.Exec.{Result, ok, err, Exec, pure, raise, wrap_error}
use task_flow_alisha_sharma.Model.{Project, Task}
use task_flow_alisha_sharma.AppError.{
  AppError, GoError, of_app, of_fiber, wrapped, other, as_app_error,
}
use task_flow_alisha_sharma.Database.{World}
use task_flow_alisha_sharma.Pagination.{PaginationMeta}
use task_flow_alisha_sharma.Service.Events.{App}
use task_flow_alisha_sharma.Service.Auth.{AuthResponse}
use task_flow_alisha_sharma.Service.Projects.{ProjectStatsResponse}

-- dto.WebhookResponse: a subscription without its owner and its secret.
pub record WebhookResponse : Type 0 where
  pub id : String
  pub url : String
  pub event_types : List String
  pub project_ids : List String
  pub active : Bool
  pub created_at : ℕ

-- pgxpool.Stat
pub record PoolStat : Type 0 where
  pub total_conns : ℕ
  pub idle_conns : ℕ
  pub acquired_conns : ℕ
  pub max_conns : ℕ

pub data Body : Type 0 where
  empty : Body
  problem : String → Option (Dict String) → Body
  retry_later : ℤ → Body
  session : AuthResponse → Body
  access_token : String → Body
  project : Option Project → Body
  project_view : Project → List Task → Body
  project_page : List Project → PaginationMeta → Body
  project_stats : ProjectStatsResponse → Body
  task : Task → Body
  task_page : List Task → PaginationMeta → Body
  webhook : WebhookResponse → Body
  webhook_list : List WebhookResponse → Body
  event_stream : Body
  healthy : ℤ → PoolStat → Body
  not_ready ready : Body

-- The refresh cookie, HTTP only, with SameSite "Lax" and the path "/api/v1/auth".
pub record Cookie : Type 0 where
  pub value : String
  pub secure : Bool
  pub expires : ℤ

pub record Reply : Type 0 where
  pub status : ℕ
  pub body : Body
  pub cookie : Option Cookie

abbrev pub answer : ℕ → Body → Reply
answer status body = record { status = status; body = body; cookie = none }

-- `c.Status(code).JSON(fiber.Map{"error": msg})`
abbrev pub refuse : ℕ → String → Reply
refuse status msg = answer status (problem msg none)

-- A handler returns nil after it has written a reply, or an error, or it panics.
pub data Failure : Type 0 where
  returned : AppError → Failure
  panicked : Failure

abbrev pub Handler : Type 0 → Type 0
Handler A = Exec World Failure A

-- `if err != nil { return err }`
abbrev pub or_return : {A : Type 0} → App A → Handler A
or_return m = wrap_error returned m

abbrev pub or_panic : {A : Type 0} → Option A → Handler A
or_panic none = raise panicked
or_panic (some a) = pure a

-- `AsAppError` succeeds on every error that a handler returns.
abbrev pub error_reply : AppError → Reply
error_reply e = answer e.code (problem e.msg e.fields)

abbrev pub recovered : Reply
recovered = refuse 500 "internal server error"

abbrev pub settle : Result Failure Reply → Reply
settle (ok r) = r
settle (err (returned e)) = error_reply e
settle (err panicked) = recovered

-- `globalErrorHandler`, on any error.
unfoldable pub global_error_handler : GoError → Reply
unfolding as_app_error
global_error_handler (of_app e) = error_reply e
global_error_handler (of_fiber code msg) = refuse code msg
global_error_handler (wrapped context e) = elim (as_app_error e) [
  | some a ↦ error_reply a
  | none ↦ recovered
]
global_error_handler (other msg) = recovered

unfoldable pub respond : Handler Reply → World → Reply × World
respond h w = (settle (h w).0, (h w).1)
