-- ===== src/Server/Opaque/Rules.antt =====
-- How the parts of a handler reply.
use task_flow_alisha_sharma.Common.{
  ℕ, suc, ◌≤◌, ◌≡◌, refl, inl, inr, Option, none, some, List, [], ◌∷◌, arith,
}
use task_flow_alisha_sharma.Common.Exec.{pure, continue, wrap_result, Result-cases, ◌>>=◌, ◌>>◌}
use task_flow_alisha_sharma.AppError.{AppError}
use task_flow_alisha_sharma.Database.{World}
use task_flow_alisha_sharma.Validator.{Checker, Rule, FieldError, verdict_of}
use task_flow_alisha_sharma.Http.{
  Reply, Handler, Body, problem, settle, answer, refuse, or_return, or_panic, error_reply, respond,
}
use task_flow_alisha_sharma.Service.Events.{App}
use task_flow_alisha_sharma.Service.Opaque.{Proper, Raises}
use task_flow_alisha_sharma.Handler.{checked, with_body, with_query}

-- A reply has a status of at most 500, and with 500 it says "internal server error" and no more.
abbrev pub Opaque : Reply → Type 0
Opaque r = (r.status ≤ 500) × (r.status ≡ 500 → r.body ≡ problem "internal server error" none)

pub lesser-Opaque : (r : Reply) → suc r.status ≤ 500 → Opaque r
lesser-Opaque r h = (omega (arith, h), λ same. absurd (omega (arith, h, same)))

error_reply-Opaque : (e : AppError) → Proper e → Opaque (error_reply e)
error_reply-Opaque e proper = (proper.0, λ h. let p = proper.1 h in rw (p.0, p.1) refl)

abbrev pub Replies : Handler Reply → Type 0
Replies m = (w : World) → Opaque (settle (m w).0)

pub respond-Opaque : (m : Handler Reply) → Replies m → (w : World) → Opaque (respond m w).0
unfolding respond
respond-Opaque m replies w = replies w

pub answer-Replies : (r : Reply) → suc r.status ≤ 500 → Replies (pure r)
answer-Replies r small w = lesser-Opaque r small

pub done-Replies :
    (status : ℕ) {body : Body} → suc status ≤ 500 → Replies (pure (answer status body))
done-Replies status {body} small = answer-Replies (answer status body) small

pub or_panic-then :
    {A : Type 0} (o : Option A) (f : A → Handler Reply)
    → ((a : A) → Replies (f a))
    → Replies (or_panic o >>= f)
or_panic-then none f rest w = (omega arith, λ h. refl)
or_panic-then (some a) f rest w = rest a w

pub call-then :
    {A : Type 0} (m : App A) (f : A → Handler Reply)
    → Raises m
    → ((a : A) → Replies (f a))
    → Replies (or_return m >>= f)
call-then m f proper rest w = elim (Result-cases (m w).0) [
  | inl (a, done) ↦ rw (done, wrap_result, continue) (rest a (m w).1)
  | inr (e, failed) ↦ rw (failed, wrap_result, continue) (error_reply-Opaque e (proper w e failed))
]

checked-then :
    (bad : List FieldError) (m : Handler Reply)
    → Replies m
    → Replies (checked (verdict_of bad) >> m)
checked-then [] m rest w = rest w
checked-then (e ∷ es) m rest w = (omega arith, λ h. absurd (omega (arith, h)))

pub with_body-Replies :
    {A : Type 0} (check : Checker) (rules : A → List Rule) (parsed : Option A)
    (f : A → Handler Reply)
    → ((a : A) → Replies (f a))
    → Replies (with_body check rules parsed f)
with_body-Replies check rules none f rest =
    answer-Replies (refuse 400 "invalid request body") (omega arith)
with_body-Replies check rules (some req) f rest =
    checked-then (check (rules req)) (f req) (rest req)

pub with_query-Replies :
    {A : Type 0} (parsed : Option A) (f : A → Handler Reply)
    → ((a : A) → Replies (f a))
    → Replies (with_query parsed f)
with_query-Replies none f rest =
    answer-Replies (refuse 400 "invalid query parameters") (omega arith)
with_query-Replies (some q) f rest = rest q
