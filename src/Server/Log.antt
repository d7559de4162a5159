-- ===== src/Server/Log.antt =====
-- backend/internal/middleware/logger.go, and `parseLogLevel` of backend/cmd/api/main.go. `RequestLogger`
-- runs inside of the error handler of the framework, which makes the replies of returned errors later.
-- The status that a response begins with is the framework's, and an argument here.
use mathlib.Core.Option
use task_flow_alisha_sharma.Common.{ℕ, String, Option, none, some, ◌==◌, leb, if◌then◌else◌}
use task_flow_alisha_sharma.Common.Exec.{Result, ok, err}
use task_flow_alisha_sharma.Http.{Reply, Failure, returned, panicked}

pub data Level : Type 0 where
  debug info warn error : Level

-- What is logged with "request completed", of the attributes that depend on the handler.
pub record LogLine : Type 0 where
  pub level : Level
  pub status : ℕ

unfoldable pub level_of : ℕ → Level
level_of status = if leb 500 status then error else if leb 400 status then warn else info

unfoldable pub log_line : ℕ → LogLine
unfolding level_of
log_line status = record { level = level_of status; status = status }

-- The status that a response has when the handlers have ended, of the one that it began with: a
-- reply has written its own, and an error that is returned has not become a reply yet. A panic does
-- not come back to `RequestLogger`, since `Recover` stands outside of it.
abbrev pub response_status : ℕ → Result Failure Reply → Option ℕ
response_status begun (ok r) = some r.status
response_status begun (err (returned e)) = some begun
response_status begun (err panicked) = none

-- The line of a request whose response began with this status, if there is one.
unfoldable pub logged : ℕ → Result Failure Reply → Option LogLine
unfolding log_line
logged begun ended = Option.map log_line (response_status begun ended)

unfoldable pub parse_log_level : String → Level
parse_log_level level =
    if level == "debug"
    then debug
    else if level == "warn"
    then warn
    else if level == "error"
    then error
    else info
