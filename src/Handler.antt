-- ===== src/Handler.antt =====
-- backend/internal/handler: what the handlers share. The web framework is not part of the repository:
-- a handler takes what `BodyParser` or `QueryParser` makes of the request (`none` is its error), the
-- parameters of the path, and the user id among the locals.
pub mod Auth
pub mod Projects
pub mod Tasks
pub mod Webhooks
pub mod Stream
pub mod Health
use task_flow_alisha_sharma.Common.{String, Option, none, some, List}
use task_flow_alisha_sharma.Common.Exec.{Result, ok, err, pure, raise, ◌>>=◌, ◌>>◌}
use task_flow_alisha_sharma.AppError.{AppError}
use task_flow_alisha_sharma.Validator.{Checker, Rule, validate}
use task_flow_alisha_sharma.Http.{Reply, Handler, returned, refuse, answer, empty}

-- `if err := validator.Validate(&req); err != nil { return err }`
abbrev pub checked : Result AppError (Unit {0}) → Handler (Unit {0})
checked (ok u) = pure u
checked (err e) = raise (returned e)

-- How a handler with a body begins.
abbrev pub with_body :
    {A : Type 0} → Checker → (A → List Rule) → Option A → (A → Handler Reply) → Handler Reply
with_body check rules none f = pure (refuse 400 "invalid request body")
with_body check rules (some req) f = checked (validate check (rules req)) >> f req

abbrev pub with_query : {A : Type 0} → Option A → (A → Handler Reply) → Handler Reply
with_query none f = pure (refuse 400 "invalid query parameters")
with_query (some q) f = f q

abbrev pub no_content : Reply
no_content = answer 204 empty
