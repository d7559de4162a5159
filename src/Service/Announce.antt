-- ===== src/Service/Announce.antt =====
-- How the operations end: a row that is missing, and an event that is told of.
use task_flow_alisha_sharma.Common.{
  Bool, true, false, suc, String, ◌≡◌, refl, ap, Option, none, some,
}
use task_flow_alisha_sharma.Common.Exec.{ok, pure, ◌>>◌, ◌>>=◌, >>=-eq-ok, wrap_error-eq-ok}
use task_flow_alisha_sharma.Model.{Event, EventType, Payload}
use task_flow_alisha_sharma.AppError.{AppError}
use task_flow_alisha_sharma.Database.{Env, World, Repo}
use task_flow_alisha_sharma.Service.Events.{
  App, or_internal, or_missing, guard, publish_event, new_event, to_bus, to_webhooks,
}

pub or_missing-eq-ok :
    {A : Type 0} (e : AppError) (o : Option A) (w : World) {a : A}
    → (or_missing e o w).0 ≡ ok a
    → (o ≡ some a) × ((or_missing e o w).1 ≡ w)
or_missing-eq-ok e none w h = cc
or_missing-eq-ok e (some a) w h = (cc, refl)

module _ {A B : Type 0} where
  -- What has run of an operation that succeeds, part by part.
  pub or_internal-then :
      (m : Repo A) (f : A → App B) (w : World) {b : B}
      → ((or_internal m >>= f) w).0 ≡ ok b
      → (a : A) × ((m w).0 ≡ ok a)
        × ((f a (m w).1).0 ≡ ok b)
        × (((or_internal m >>= f) w) ≡ f a (m w).1)
  or_internal-then m f w h =
      let run = >>=-eq-ok (or_internal m) f w h in
      (run.0, wrap_error-eq-ok _ m w run.1, run.2, run.3)

  pub or_missing-then :
      (e : AppError) (o : Option A) (f : A → App B) (w : World) {b : B}
      → ((or_missing e o >>= f) w).0 ≡ ok b
      → (a : A) × (o ≡ some a) × ((f a w).0 ≡ ok b) × (((or_missing e o >>= f) w) ≡ f a w)
  or_missing-then e none f w h = cc
  or_missing-then e (some a) f w h = (a, refl, h, refl)

pub guard-then :
    {B : Type 0} (b : Bool) (e : AppError) (m : App B) (w : World) {c : B}
    → ((guard b e >> m) w).0 ≡ ok c
    → (b ≡ true) × ((m w).0 ≡ ok c) × (((guard b e >> m) w) ≡ m w)
guard-then true e m w h = (refl, h, refl)
guard-then false e m w h = cc

-- An event of this kind has been handed to the broker and to the dispatcher, and to each only once.
pub record Announced (kind : EventType) (project actor : String) (payload : Payload) (w w' : World)
    : Type 0 where
  pub event : Event
  pub kind_eq : event.kind ≡ kind
  pub project_eq : event.project_id ≡ project
  pub actor_eq : event.actor_id ≡ actor
  pub payload_eq : event.payload ≡ payload
  pub on_bus : w'.event_bus ≡ to_bus event w.event_bus
  pub on_webhooks : w'.webhook_disp ≡ to_webhooks event w.webhook_disp

-- An operation ends by telling of its result, in a world whose broker and dispatcher are those of `w`.
pub announce_lem :
    {A : Type 0} (env : Env) (kind : EventType) (project actor : String) (payload : Payload) (a : A)
    (w v : World)
    → v.event_bus ≡ w.event_bus
    → v.webhook_disp ≡ w.webhook_disp
    → let r = (publish_event env kind project actor payload >> pure a) v in
      (r.0 ≡ ok a) × Announced kind project actor payload w r.1
unfolding publish_event
announce_lem env kind project actor payload a w v bus hooks = (
  refl,
  record {
    event = new_event kind project actor payload (env.new_uuid v.ticks) (env.clock (suc v.ticks));
    kind_eq = refl;
    project_eq = refl;
    actor_eq = refl;
    payload_eq = refl;
    on_bus = ap (to_bus _) bus;
    on_webhooks = ap (to_webhooks _) hooks;
  },
)

pub announced :
    (env : Env) (kind : EventType) (project actor : String) (payload : Payload) (w v : World)
    → v.event_bus ≡ w.event_bus
    → v.webhook_disp ≡ w.webhook_disp
    → Announced kind project actor payload w (publish_event env kind project actor payload v).1
unfolding publish_event
announced env kind project actor payload w v bus hooks =
    (announce_lem env kind project actor payload tt w v bus hooks).1

pub publish_event-db :
    (env : Env) (kind : EventType) (project actor : String) (payload : Payload) (w : World)
    → (publish_event env kind project actor payload w).1.db ≡ w.db
unfolding publish_event
publish_event-db env kind project actor payload w = refl
