-- ===== src/Service/Frame.antt =====
-- What an operation of a service never touches: `Framed` operations stay within a relation on worlds,
-- however they end.
pub mod Rows
pub mod Operations
pub mod Edits
use task_flow_alisha_sharma.Common.{
  ℕ, suc, String, ◌≡◌, refl, inl, inr, Option, none, some, Bool, true, false,
}
use task_flow_alisha_sharma.Common.Exec.{
  Result, ok, err, Exec, pure, raise, continue, wrap_error, Result-cases, ◌>>=◌, ◌>>◌,
}
use task_flow_alisha_sharma.Model.{Event, EventType, Payload}
use task_flow_alisha_sharma.AppError.{AppError}
use task_flow_alisha_sharma.Database.{Env, World, Statement, statement}
use task_flow_alisha_sharma.Database.Others.{Harmless}
use task_flow_alisha_sharma.Service.Events.{
  App, or_internal, or_missing, guard, publish_event, to_bus, to_webhooks,
}

abbrev pub told : Event → World → World
told evt w = record w {
  event_bus = to_bus evt w.event_bus;
  webhook_disp = to_webhooks evt w.webhook_disp;
}

-- A relation that the steps of requests of the user `u` keep.
pub record Frame (env : Env) (u : String) (R : World → World → Type 0) : Type 1 where
  pub still : (w : World) → R w w
  pub trans : (a b c : World) → R a b → R b c → R a c
  pub ticks : (w : World) (n : ℕ) → R w (record w { ticks = n })
  pub tells : (evt : Event) (w : World) → R w (told evt w)
  pub runs : (A : Type 0) (f : Statement A) → Harmless u f → (w : World) → R w (statement env f w).1

module _ {env : Env} {u : String} {R : World → World → Type 0} (fr : Frame env u R) where
  abbrev pub Framed : {E A : Type 0} → Exec World E A → Type 0
  Framed m = (w : World) → R w (m w).1

  -- From the world that it starts in.
  pub then-within :
      {E A B : Type 0} (m : Exec World E A) (f : A → Exec World E B) (w : World)
      → R w (m w).1
      → ((a : A) → (m w).0 ≡ ok a → R (m w).1 (f a (m w).1).1)
      → R w ((m >>= f) w).1
  then-within m f w first rest = elim (Result-cases (m w).0) [
    | inl (a, done) ↦ rw (done, continue) (fr.trans w (m w).1 (f a (m w).1).1 first (rest a done))
    | inr (x, failed) ↦ rw (failed, continue) first
  ]

  pub then-Framed :
      {E A B : Type 0} (m : Exec World E A) (f : A → Exec World E B)
      → Framed m
      → ((a : A) → Framed (f a))
      → Framed (m >>= f)
  then-Framed m f first rest w = then-within m f w (first w) λ a done. rest a (m w).1

  pub or_missing-Framed : {A : Type 0} (e : AppError) (o : Option A) → Framed (or_missing e o)
  or_missing-Framed e none w = fr.still w
  or_missing-Framed e (some a) w = fr.still w

  pub guard-Framed : (b : Bool) (e : AppError) → Framed (guard b e)
  guard-Framed true e w = fr.still w
  guard-Framed false e w = fr.still w

  module _ {B : Type 0} where
    -- An operation that begins by reading a row that must be there.
    pub row-then :
        {A : Type 0} (m : Exec World AppError (Option A)) (e : AppError) (f : A → App B)
        → Framed m
        → ((a : A) → Framed (f a))
        → Framed (m >>= λ found. or_missing e found >>= f)
    row-then m e f first rest =
        then-Framed m _ first
          λ found. then-Framed (or_missing e found) f (or_missing-Framed e found) rest

    pub guard-then : (b : Bool) (e : AppError) (m : App B) → Framed m → Framed (guard b e >> m)
    guard-then b e m rest = then-Framed (guard b e) _ (guard-Framed b e) λ passed. rest

  pub publish_event-Framed :
      (kind : EventType) (project actor : String) (payload : Payload)
      → Framed (publish_event env kind project actor payload)
  unfolding publish_event
  publish_event-Framed kind project actor payload w =
      fr.trans w (record w { ticks = suc (suc w.ticks) }) _ (fr.ticks w _) (fr.tells _ _)

  module _ {B : Type 0} where
    pub or_missing-within :
        {A : Type 0} (e : AppError) (o : Option A) (f : A → App B) (w : World)
        → ((a : A) → o ≡ some a → R w (f a w).1)
        → R w ((or_missing e o >>= f) w).1
    or_missing-within e none f w rest = fr.still w
    or_missing-within e (some a) f w rest = rest a refl

    pub guard-within :
        (b : Bool) (e : AppError) (m : App B) (w : World)
        → (b ≡ true → R w (m w).1)
        → R w ((guard b e >> m) w).1
    guard-within true e m w rest = rest refl
    guard-within false e m w rest = fr.still w
