-- ===== src/Database/Others.antt =====
-- What of the tables does not belong to a user, and statements that leave it alone.
use task_flow_alisha_sharma.Common.{
  ℕ, String, ◌≡◌, refl, ◌∙◌, false, not, List, [], ◌∷◌, ◌==◌, select, any,
}
use task_flow_alisha_sharma.Model.{Project, WebhookSubscription}
use task_flow_alisha_sharma.Database.{Db, Statement}

abbrev pub foreign_projects : String → List Project → List Project
foreign_projects u ps = select (λ (p : Project). not (p.owner_id == u)) ps

abbrev pub foreign_subscriptions : String → List WebhookSubscription → List WebhookSubscription
foreign_subscriptions u ss = select (λ (s : WebhookSubscription). not (s.user_id == u)) ss

-- The primary key of the table of projects.
abbrev pub Distinct : List Project → Type 0
Distinct [] = Unit
Distinct (p ∷ ps) = (any (λ (q : Project). q.id == p.id) ps ≡ false) × Distinct ps

-- The projects and the subscriptions of all users but `u` are the same, and so are the users and the
-- refresh tokens.
pub record Spares (u : String) (before after : Db) : Type 0 where
  pub projects : foreign_projects u after.projects ≡ foreign_projects u before.projects
  pub subscriptions :
      foreign_subscriptions u after.subscriptions ≡ foreign_subscriptions u before.subscriptions
  pub users : after.users ≡ before.users
  pub refresh_tokens : after.refresh_tokens ≡ before.refresh_tokens

-- As a step: projects with distinct ids keep them so, too.
pub record Sparing (u : String) (before after : Db) : Type 0 where
  pub projects : foreign_projects u after.projects ≡ foreign_projects u before.projects
  pub subscriptions :
      foreign_subscriptions u after.subscriptions ≡ foreign_subscriptions u before.subscriptions
  pub users : after.users ≡ before.users
  pub refresh_tokens : after.refresh_tokens ≡ before.refresh_tokens
  pub keyed : Distinct before.projects → Distinct after.projects

pub Sparing-refl : (u : String) (db : Db) → Sparing u db db
Sparing-refl u db = record {
  projects = refl;
  subscriptions = refl;
  users = refl;
  refresh_tokens = refl;
  keyed = λ d. d;
}

pub Sparing-trans : (u : String) (a b c : Db) → Sparing u a b → Sparing u b c → Sparing u a c
Sparing-trans u a b c h k = record {
  projects = k.projects ∙ h.projects;
  subscriptions = k.subscriptions ∙ h.subscriptions;
  users = k.users ∙ h.users;
  refresh_tokens = k.refresh_tokens ∙ h.refresh_tokens;
  keyed = λ d. k.keyed (h.keyed d);
}

pub Sparing-Spares : (u : String) (a b : Db) → Sparing u a b → Spares u a b
Sparing-Spares u a b h = record {
  projects = h.projects;
  subscriptions = h.subscriptions;
  users = h.users;
  refresh_tokens = h.refresh_tokens;
}

-- A statement that is harmless, whatever it finds.
abbrev pub Harmless : {A : Type 0} → String → Statement A → Type 0
Harmless u f = (at : ℕ) (db : Db) → Sparing u db (f at db).1

-- A statement that writes neither projects nor subscriptions, whatever it finds.
abbrev pub Elsewhere : {A : Type 0} → Statement A → Type 0
Elsewhere f =
    (at : ℕ) (db : Db)
    → ((f at db).1.projects ≡ db.projects) × ((f at db).1.subscriptions ≡ db.subscriptions)
