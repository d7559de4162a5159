-- ===== src/Service/Opaque.antt =====
-- The errors that the services return, as far as a client sees them: `Proper` is one that tells
-- nothing of what has failed inside.
pub mod Operations
pub mod Sessions
use mathlib.Core.Path.{subst}
use task_flow_alisha_sharma.Common.{
  suc, ◌≤◌, String, ◌≡◌, refl, inl, inr, Option, none, some, Bool, true, false, List, [], ◌∷◌,
  arith,
}
use task_flow_alisha_sharma.Common.Exec.{
  Result, ok, err, pure, raise, continue, wrap_result, wrap_error, Result-cases, ◌>>=◌, ◌>>◌,
}
use task_flow_alisha_sharma.Common.Int.{ℤ, pos}
use task_flow_alisha_sharma.Model.{EventType, Payload, User, Task}
use task_flow_alisha_sharma.AppError.{AppError, Cause, DbError, is_duplicate, internal, db}
use task_flow_alisha_sharma.Database.{Env, World, Repo, now, new_id}
use task_flow_alisha_sharma.Repository.Tasks as TaskRows
use task_flow_alisha_sharma.Repository.Tasks.Queries.{
  AssigneeCount, find_by_project, count_by_status, count_by_assignee,
}
use task_flow_alisha_sharma.Repository.Projects as ProjectRows
use task_flow_alisha_sharma.Repository.Users as UserRows
use task_flow_alisha_sharma.Repository.RefreshTokens as TokenRows
use task_flow_alisha_sharma.Pagination.{PaginationQuery}
use task_flow_alisha_sharma.Service.Events.{App, or_internal, or_missing, guard, publish_event}
use task_flow_alisha_sharma.Service.Tasks as TaskService
use task_flow_alisha_sharma.Service.Projects as ProjectService
use task_flow_alisha_sharma.Service.Auth as AuthService

abbrev pub Proper : AppError → Type 0
Proper e = (e.code ≤ 500) × (e.code ≡ 500 → (e.msg ≡ "internal server error") × (e.fields ≡ none))

pub internal-Proper : (c : Cause) → Proper (internal c)
internal-Proper c = (omega arith, λ h. (refl, refl))

-- An error below 500 is proper, whatever it says.
pub lesser-Proper : (e : AppError) → suc e.code ≤ 500 → Proper e
lesser-Proper e h = (omega (arith, h), λ same. absurd (omega (arith, h, same)))

abbrev pub Raises : {A : Type 0} → App A → Type 0
Raises m = (w : World) (e : AppError) → (m w).0 ≡ err e → Proper e

module _ {A : Type 0} where
  pub then-Raises :
      {B : Type 0} (m : App A) (f : A → App B)
      → Raises m
      → ((a : A) → Raises (f a))
      → Raises (m >>= f)
  then-Raises m f first rest w e h = elim (Result-cases (m w).0) [
    | inl (a, done) ↦ rest a (m w).1 e (rw (done, continue) at h)
    | inr (x, failed) ↦ first w e (cc (failed, rw (failed, continue) at h))
  ]

  pub pure-Raises : (a : A) → Raises (pure a)
  pure-Raises a w e h = cc

  pub wrapped-Raises :
      {E : Type 0} (f : E → AppError) (r : Result E A)
      → ((x : E) → Proper (f x))
      → (e : AppError) → wrap_result f r ≡ err e
      → Proper e
  wrapped-Raises f (ok a) proper e h = cc
  wrapped-Raises f (err x) proper e h = let same : f x ≡ e = cc h in subst Proper same (proper x)

  pub or_internal-Raises : (m : Repo A) → Raises (or_internal m)
  or_internal-Raises m w e h =
      wrapped-Raises (λ x. internal (db x)) (m w).0 (λ x. internal-Proper (db x)) e h

  pub or_missing-Raises : (x : AppError) (o : Option A) → Proper x → Raises (or_missing x o)
  or_missing-Raises x none proper w e h = let same : x ≡ e = cc h in subst Proper same proper
  or_missing-Raises x (some a) proper w e h = cc

pub guard-Raises : (b : Bool) (x : AppError) → Proper x → Raises (guard b x)
guard-Raises true x proper w e h = cc
guard-Raises false x proper w e h = let same : x ≡ e = cc h in subst Proper same proper

pub publish_event-Raises :
    (env : Env) (kind : EventType) (project actor : String) (payload : Payload)
    → Raises (publish_event env kind project actor payload)
unfolding publish_event
publish_event-Raises env kind project actor payload w e h = cc

module _ {B : Type 0} where
  pub internal-then :
      {A : Type 0} (m : Repo A) (f : A → App B)
      → ((a : A) → Raises (f a))
      → Raises (or_internal m >>= f)
  internal-then m f rest = then-Raises (or_internal m) f (or_internal-Raises m) rest

  -- An operation that begins by reading a row that must be there.
  pub row-then :
      {A : Type 0} (m : Repo (Option A)) (x : AppError) (f : A → App B)
      → suc x.code ≤ 500
      → ((a : A) → Raises (f a))
      → Raises (or_internal m >>= λ found. or_missing x found >>= f)
  row-then m x f small rest = internal-then m _ λ found.
      then-Raises (or_missing x found) f (or_missing-Raises x found (lesser-Proper x small)) rest

  pub guard-then :
      (b : Bool) (x : AppError) (m : App B) → suc x.code ≤ 500 → Raises m → Raises (guard b x >> m)
  guard-then b x m small rest =
      then-Raises (guard b x) _ (guard-Raises b x (lesser-Proper x small)) λ passed. rest
