-- ===== src/Service/Events.antt =====
-- `publishEvent` of backend/internal/service/task.go and project.go (the two are the same code), and
-- what a goroutine that `Dispatch` starts is: its event, on the list of the dispatcher.
use task_flow_alisha_sharma.Common.{
  Bool, true, false, ℕ, String, Option, none, some, List, [], ◌∷◌, ◌++◌,
}
use task_flow_alisha_sharma.Common.Exec.{ok, Exec, pure, raise, wrap_error, ◌>>=◌}
use task_flow_alisha_sharma.Model.{Event, EventType, Payload}
use task_flow_alisha_sharma.AppError.{AppError, internal, db}
use task_flow_alisha_sharma.Sse.{SseBroker, publish}
use task_flow_alisha_sharma.Database.{Env, World, Repo, now, new_id}

abbrev pub App : Type 0 → Type 0
App A = Exec World AppError A

unfoldable pub to_bus : Event → Option SseBroker → Option SseBroker
to_bus evt none = none
to_bus evt (some b) = some (publish evt b)

unfoldable pub to_webhooks : Event → Option (List Event) → Option (List Event)
to_webhooks evt none = none
to_webhooks evt (some started) = some (started ++ evt ∷ [])

abbrev pub new_event : EventType → String → String → Payload → String → ℕ → Event
new_event kind project_id actor_id payload job_id at = record {
  job_id = job_id;
  kind = kind;
  project_id = project_id;
  actor_id = actor_id;
  payload = payload;
  timestamp = at;
}

abbrev send : Event → App (Unit {0})
send evt w = (
  ok tt,
  record w { event_bus = to_bus evt w.event_bus; webhook_disp = to_webhooks evt w.webhook_disp },
)

unfoldable pub publish_event : Env → EventType → String → String → Payload → App (Unit {0})
publish_event env kind project_id actor_id payload = new_id env >>= λ job_id.
    now env >>= λ at. send (new_event kind project_id actor_id payload job_id at)

-- `if err != nil { return …, apperror.NewInternal(err) }`
abbrev pub or_internal : {A : Type 0} → Repo A → App A
or_internal m = wrap_error (λ e. internal (db e)) m

-- `if row == nil { return …, missing }`
abbrev pub or_missing : {A : Type 0} → AppError → Option A → App A
or_missing missing none = raise missing
or_missing missing (some a) = pure a

abbrev pub guard : Bool → AppError → App (Unit {0})
guard true e = pure tt
guard false e = raise e
