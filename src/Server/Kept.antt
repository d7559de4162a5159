-- ===== src/Server/Kept.antt =====
-- What a request leaves of a user's rows, as a frame.
use task_flow_alisha_sharma.Common.{
  String, ◌≡◌, ◌≢◌, refl, ◌∙◌, inl, inr, List, [], ◌∷◌, ◌==◌, select, arith, eq_iff, Bool-cases,
  Option-cases,
}
use task_flow_alisha_sharma.Model.{Project, WebhookSubscription}
use task_flow_alisha_sharma.Database.{Db, Env, World, Statement, statement}
use task_flow_alisha_sharma.Database.Others.{
  foreign_projects, foreign_subscriptions, Distinct, Sparing, Elsewhere,
}
use task_flow_alisha_sharma.Service.Frame.{Frame}
use task_flow_alisha_sharma.Server.Isolation.{Alone}

abbrev pub own_projects : String → List Project → List Project
own_projects x ps = select (λ (p : Project). p.owner_id == x) ps

abbrev pub own_subscriptions : String → List WebhookSubscription → List WebhookSubscription
own_subscriptions x ss = select (λ (s : WebhookSubscription). s.user_id == x) ss

-- From projects with distinct ids: they keep them, and the user has the same rows.
abbrev pub Kept : String → Db → Db → Type 0
Kept x before after =
    Distinct before.projects
    → Distinct after.projects
      × (own_projects x after.projects ≡ own_projects x before.projects)
      × (own_subscriptions x after.subscriptions ≡ own_subscriptions x before.subscriptions)

own_projects-foreign :
    (x u : String) (ps : List Project)
    → x ≢ u
    → own_projects x (foreign_projects u ps) ≡ own_projects x ps
unfolding select
own_projects-foreign x u [] ne = refl
own_projects-foreign x u (p ∷ ps) ne =
    ground (arith, own_projects-foreign x u ps ne, ne, eq_iff p.owner_id x, eq_iff p.owner_id u)

own_subscriptions-foreign :
    (x u : String) (ss : List WebhookSubscription)
    → x ≢ u
    → own_subscriptions x (foreign_subscriptions u ss) ≡ own_subscriptions x ss
unfolding select
own_subscriptions-foreign x u [] ne = refl
own_subscriptions-foreign x u (s ∷ ss) ne =
    ground (arith, own_subscriptions-foreign x u ss ne, ne, eq_iff s.user_id x, eq_iff s.user_id u)

pub Sparing-Kept : (x u : String) (a b : Db) → x ≢ u → Sparing u a b → Kept x a b
Sparing-Kept x u a b ne h d = (
  h.keyed d,
  rw (← (own_projects-foreign x u b.projects ne), h.projects)
      (own_projects-foreign x u a.projects ne),
  rw (← (own_subscriptions-foreign x u b.subscriptions ne), h.subscriptions)
      (own_subscriptions-foreign x u a.subscriptions ne),
)

-- Somebody else.
pub other : (x : String) → (u : String) × (x ≢ u)
other x = elim (Bool-cases (x == "")) [
  | inl empty ↦ ("a", λ same. ground (arith, empty, same, eq_iff x "", eq_iff "a" ""))
  | inr given ↦ ("", λ same. ground (arith, given, same, eq_iff x ""))
]

abbrev pub KeptIn : String → World → World → Type 0
KeptIn x w v = Kept x w.db v.db

module _ (env : Env) (alone : Alone env) (x : String) where
  statement-Kept :
      {A : Type 0} (f : Statement A) (w : World)
      → Kept x w.db (f (env.db_now w.ticks) w.db).1
      → Kept x w.db (statement env f w).1.db
  unfolding statement
  statement-Kept f w kept = elim (Option-cases (env.fault w.ticks)) [
    | inl up ↦ rw (up, statement, alone w.ticks w.db) kept
    | inr (e, down) ↦ rw (down, statement, alone w.ticks w.db) (λ d. (d, refl, refl))
  ]

  pub runs :
      (A : Type 0) (f : Statement A) → Elsewhere f → (w : World) → KeptIn x w (statement env f w).1
  runs A f elsewhere w = statement-Kept f w λ d.
      let same = elsewhere (env.db_now w.ticks) w.db in
      (rw (same.0) d, rw (same.0) refl, rw (same.1) refl)

  pub kept : (u : String) → x ≢ u → Frame env u (KeptIn x)
  kept u ne = record {
    still = λ w d. (d, refl, refl);
    trans = λ a b c h k d.
        let first = h d in let then_ = k first.0 in (then_.0, then_.1 ∙ first.1, then_.2 ∙ first.2);
    ticks = λ w n d. (d, refl, refl);
    tells = λ evt w d. (d, refl, refl);
    runs = λ A f harmless w.
        statement-Kept f w (Sparing-Kept x u w.db _ ne (harmless (env.db_now w.ticks) w.db));
  }
