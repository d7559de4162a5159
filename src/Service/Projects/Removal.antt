-- ===== src/Service/Projects/Removal.antt =====
-- Who may delete a project, and what goes with it: `ProjectService.Delete`.
use task_flow_alisha_sharma.Common.{
  ℕ, String, ◌≡◌, ◌∙◌, inl, inr, some, true, false, ◌==◌, arith, Option-cases, any, any-select,
}
use task_flow_alisha_sharma.Common.Exec.{ok}
use task_flow_alisha_sharma.Model.{Project, project_deleted, of_id}
use task_flow_alisha_sharma.AppError.{forbidden, not_found}
use task_flow_alisha_sharma.Database.{Db, Env, World, statement, seen}
use task_flow_alisha_sharma.Repository.Projects
use task_flow_alisha_sharma.Repository.Tasks.Queries.{in_project}
use task_flow_alisha_sharma.Repository.Quiet.{find_project-Quiet, delete_project-Quiet}
use task_flow_alisha_sharma.Repository.Projects.{owned_row, delete_statement}
use task_flow_alisha_sharma.Service.Announce.{
  Announced, announced, publish_event-db, or_internal-then, or_missing-then, guard-then,
}
use task_flow_alisha_sharma.Service.Projects.{delete}

-- The tables have neither the project nor a task of it.
abbrev pub Removed : String → String → Db → Type 0
Removed id owner db =
    (any (owned_row id owner) db.projects ≡ false) × (any (in_project id) db.tasks ≡ false)

delete_statement-Removed :
    (id owner : String) (at : ℕ) (db : Db)
    → (delete_statement id owner at db).0 ≡ ok true
    → Removed id owner (delete_statement id owner at db).1
unfolding delete_statement
delete_statement-Removed id owner at db h = (
  ground (arith, h, any-select (owned_row id owner) db.projects),
  ground (arith, h, any-select (in_project id) db.tasks),
)

delete-Removed :
    (env : Env) (id owner : String) (w : World)
    → (Projects.delete env id owner w).0 ≡ ok true
    → Removed id owner (Projects.delete env id owner w).1.db
unfolding Projects.delete statement
delete-Removed env id owner w h = elim (Option-cases (env.fault w.ticks)) [
  | inl up ↦
      rw (up, statement)
        (delete_statement-Removed id owner (env.db_now w.ticks) (seen env w)
          (rw (up, statement) at h))
  | inr (e, down) ↦ cc (rw (down, statement) at h)
]

-- A `Delete` that succeeds has read the project, whose owner is the user; the tables are left without
-- the project and without any task of it; and the event of the deletion has been handed to the broker
-- and to the webhook dispatcher.
pub project_delete_ok :
    (env : Env) (id user : String) (w : World)
    → (delete env id user w).0 ≡ ok tt
    → (p : Project) × ((Projects.find_by_id env id w).0 ≡ ok (some p))
      × ((p.owner_id == user) ≡ true)
      × Removed id user (delete env id user w).1.db
      × Announced project_deleted id user (of_id id) w (delete env id user w).1
unfolding delete
project_delete_ok env id user w h =
    let r1 = or_internal-then (Projects.find_by_id env id) _ w h in
    let w₁ = (Projects.find_by_id env id w).1 in
    let r2 = or_missing-then (not_found "not found") r1.0 _ w₁ r1.2 in
    let r3 = guard-then (r2.0.owner_id == user) (forbidden "forbidden") _ w₁ r2.2 in
    let r4 = or_internal-then (Projects.delete env id user) _ w₁ r3.1 in
    let w₂ = (Projects.delete env id user w₁).1 in
    let r5 = guard-then r4.0 (not_found "not found") _ w₂ r4.2 in
    let q1 = find_project-Quiet env id w in
    let q2 = delete_project-Quiet env id user w₁ in
    let removed = delete-Removed env id user w₁ (cc (r4.1, r5.0)) in
    let told = announced env project_deleted id user (of_id id) w w₂ (q2.0 ∙ q1.0) (q2.1 ∙ q1.1) in
    let kept = publish_event-db env project_deleted id user (of_id id) w₂ in
    (
      r2.0,
      cc (r1.1, r2.1),
      r3.0,
      rw (r1.3, r2.3, r3.2, r4.3, r5.2, kept) removed,
      rw (r1.3, r2.3, r3.2, r4.3, r5.2) told,
    )
