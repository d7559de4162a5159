-- ===== src/Service/Tasks/Permissions.antt =====
-- Who may delete a task: `TaskService.Delete`.
use task_flow_alisha_sharma.Common.{
  ℕ, String, ◌≡◌, refl, ◌∙◌, inl, inr, Option, some, true, false, not, ◌||◌, ◌==◌, any, select,
  any-select, Option-cases,
}
use task_flow_alisha_sharma.Common.Exec.{ok}
use task_flow_alisha_sharma.Model.{Task, Project, task_deleted, of_id}
use task_flow_alisha_sharma.AppError.{forbidden, not_found}
use task_flow_alisha_sharma.Database.{Db, Env, World, seen, statement}
use task_flow_alisha_sharma.Repository.Tasks
use task_flow_alisha_sharma.Repository.Projects
use task_flow_alisha_sharma.Repository.Quiet.{
  find_task-Quiet, find_project-Quiet, delete_task-Quiet,
}
use task_flow_alisha_sharma.Service.Announce.{
  announced, Announced, publish_event-db, or_internal-then, or_missing-then, guard-then,
}
use task_flow_alisha_sharma.Service.Tasks.{delete, owned_by}

-- A row with the id was there and is not any more; all rows of other ids are as they were.
abbrev pub RowRemoved : String → Db → Db → Type 0
RowRemoved id before after =
    (any (λ (t : Task). t.id == id) before.tasks ≡ true)
    × (any (λ (t : Task). t.id == id) after.tasks ≡ false)
    × (after.tasks ≡ select (λ (t : Task). not (t.id == id)) before.tasks)

delete_statement-RowRemoved :
    (id : String) (at : ℕ) (db : Db)
    → (Tasks.delete_statement id at db).0 ≡ ok true
    → RowRemoved id db (Tasks.delete_statement id at db).1
unfolding Tasks.delete_statement
delete_statement-RowRemoved id at db h =
    (cc h, any-select (λ (t : Task). t.id == id) db.tasks, refl)

delete-RowRemoved :
    (env : Env) (id : String) (w : World)
    → (Tasks.delete env id w).0 ≡ ok true
    → RowRemoved id (seen env w) (Tasks.delete env id w).1.db
unfolding Tasks.delete statement
delete-RowRemoved env id w h = elim (Option-cases (env.fault w.ticks)) [
  | inl up ↦
      rw (up, statement)
        (delete_statement-RowRemoved id (env.db_now w.ticks) (seen env w) (rw (up, statement) at h))
  | inr (e, down) ↦ cc (rw (down, statement) at h)
]

-- A `Delete` that succeeds has read the task, then its project; the user is the project's owner or
-- the task's creator; the table that the DELETE statement after these has met had a task with the
-- id, and in the end it has its tasks of other ids and no other; and the event of the deletion, with
-- the task's id, has been handed to the broker and to the webhook dispatcher.
pub delete_ok :
    (env : Env) (id user : String) (w : World)
    → (delete env id user w).0 ≡ ok tt
    → (task : Task) × (p : Option Project) × (let w₁ = (Tasks.find_by_id env id w).1 in
        let w₂ = (Projects.find_by_id env task.project_id w₁).1 in
        ((Tasks.find_by_id env id w).0 ≡ ok (some task))
        × ((Projects.find_by_id env task.project_id w₁).0 ≡ ok p)
        × ((owned_by user p || task.creator_id == user) ≡ true)
        × RowRemoved id (seen env w₂) (delete env id user w).1.db
        × Announced task_deleted task.project_id user (of_id id) w (delete env id user w).1)
unfolding delete
delete_ok env id user w h =
    let r1 = or_internal-then (Tasks.find_by_id env id) _ w h in
    let r2 = or_missing-then (not_found "not found") r1.0 _ _ r1.2 in
    let w₁ = (Tasks.find_by_id env id w).1 in
    let task = r2.0 in
    let r3 = or_internal-then (Projects.find_by_id env task.project_id) _ w₁ r2.2 in
    let w₂ = (Projects.find_by_id env task.project_id w₁).1 in
    let r4 =
      guard-then (owned_by user r3.0 || task.creator_id == user) (forbidden "forbidden") _ w₂
        r3.2 in
    let r5 = or_internal-then (Tasks.delete env id) _ w₂ r4.1 in
    let r6 = guard-then r5.0 (not_found "not found") _ (Tasks.delete env id w₂).1 r5.2 in
    let removed = delete-RowRemoved env id w₂ (cc (r5.1, r6.0)) in
    let kept =
      publish_event-db env task_deleted task.project_id user (of_id id)
        (Tasks.delete env id w₂).1 in
    let q1 = find_task-Quiet env id w in
    let q2 = find_project-Quiet env task.project_id w₁ in
    let q3 = delete_task-Quiet env id w₂ in
    (
      task,
      r3.0,
      (
        cc (r1.1, r2.1),
        r3.1,
        r4.0,
        rw (r1.3, r2.3, r3.3, r4.2, r5.3, r6.2, kept) removed,
        rw (r1.3, r2.3, r3.3, r4.2, r5.3, r6.2)
            (announced env task_deleted task.project_id user (of_id id) w (Tasks.delete env id w₂).1
              (q3.0 ∙ (q2.0 ∙ q1.0)) (q3.1 ∙ (q2.1 ∙ q1.1))),
      ),
    )
