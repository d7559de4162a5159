-- ===== src/Service/Tasks/Locking.antt =====
-- What `TaskService.Update` returns and writes.
use task_flow_alisha_sharma.Common.{String, ◌≡◌, ◌∙◌, ◌≢◌, refl, some, [], ◌∷◌}
use task_flow_alisha_sharma.Common.Int.{ℤ}
use task_flow_alisha_sharma.Common.Exec.{ok, >>=-eq-ok, wrap_error-eq-ok}
use task_flow_alisha_sharma.Model.{Task, task_updated, of_task}
use task_flow_alisha_sharma.AppError.{conflict, not_found}
use task_flow_alisha_sharma.Database.{Env, World, seen}
use task_flow_alisha_sharma.Repository.Quiet.{find_task-Quiet, update_task-Quiet}
use task_flow_alisha_sharma.Repository.Tasks
use task_flow_alisha_sharma.Repository.Tasks.{Updates}
use task_flow_alisha_sharma.Repository.Tasks.Update.{Updated, update-Updated}
use task_flow_alisha_sharma.Service.Events.{publish_event, or_internal, or_missing}
use task_flow_alisha_sharma.Service.Announce.{Announced, or_missing-eq-ok, announce_lem}
use task_flow_alisha_sharma.Service.Tasks.Edited.{Edited, updated_row-Edited}
use task_flow_alisha_sharma.Service.Tasks.Written.{RowWritten, modify-RowWritten}
use task_flow_alisha_sharma.Service.Tasks.{
  UpdateTaskRequest, updates_of, write_updates, update, conflict_msg,
}

write_updates-ok :
    (env : Env) (id : String) (version : ℤ) (us : Updates) (user : String) (existing : Task)
    (w₀ w : World) {t : Task}
    → us ≢ []
    → w.event_bus ≡ w₀.event_bus
    → w.webhook_disp ≡ w₀.webhook_disp
    → (write_updates env id version us user existing w).0 ≡ ok t
    → Updated env id version us w t
      × Announced task_updated existing.project_id user
          (of_task t)
          w₀
          (write_updates env id version us user existing w).1
      × ((write_updates env id version us user existing w).1.db
          ≡ (Tasks.update env id version us w).1.db)
unfolding write_updates publish_event
write_updates-ok env id version [] user existing w₀ w ne bus hooks h = absurd (ne refl)
write_updates-ok env id version (u ∷ us) user existing w₀ w {t} ne bus hooks h =
    let step = >>=-eq-ok (or_internal (Tasks.update env id version (u ∷ us))) _ w h in
    let next = >>=-eq-ok (or_missing (conflict conflict_msg) step.0) _ _ step.2 in
    let row = or_missing-eq-ok (conflict conflict_msg) step.0 _ next.1 in
    let ran = wrap_error-eq-ok _ (Tasks.update env id version (u ∷ us)) w step.1 in
    let quiet = update_task-Quiet env id version (u ∷ us) w in
    let told =
      announce_lem env task_updated existing.project_id user (of_task next.0) next.0 w₀
        (Tasks.update env id version (u ∷ us) w).1 (quiet.0 ∙ bus) (quiet.1 ∙ hooks) in
    let same : next.0 ≡ t = cc (told.0, next.2, row.1) in
    (
      update-Updated env id version (u ∷ us) w t (cc (ran, row.0, same)),
      rw (step.3, next.3, row.1, same)
          (announce_lem env task_updated existing.project_id user (of_task t) t w₀
            (Tasks.update env id version (u ∷ us) w).1 (quiet.0 ∙ bus) (quiet.1 ∙ hooks)).1,
      rw (step.3, next.3, row.1) refl,
    )

task-Edited :
    (env : Env) (id : String) (req : UpdateTaskRequest) (w : World) (t : Task)
    (done : Updated env id req.version (updates_of req) w t)
    → Edited env id req (env.db_now w.ticks) done.wrote.before t
task-Edited env id req w t done = rw done.wrote.row (
    updated_row-Edited env id req (env.db_now w.ticks) done.bound (seen env w).tasks
      done.wrote.before done.converted done.wrote.found)

task-RowWritten :
    (env : Env) (id : String) (req : UpdateTaskRequest) (w : World) (t : Task)
    (done : Updated env id req.version (updates_of req) w t)
    → RowWritten id done.wrote.before t
        (seen env w).tasks
        (Tasks.update env id req.version (updates_of req) w).1.db.tasks
task-RowWritten env id req w t done =
    rw (done.wrote.after, done.wrote.row)
      (modify-RowWritten (env.db_now w.ticks) id req.version done.bound (seen env w).tasks
        done.wrote.before done.wrote.found)

-- A successful `Update` that has something to write has read the task, and its UPDATE statement has
-- found a row with the id and the version of the request, in the tables as they were then. The task
-- returned is that row with each of the title, description, status, priority, assignee and due date
-- that the request gives in place of its own, the next version and the time of the statement, and is
-- otherwise that row; it stands in the table where that row stood, and the rows of other ids are as
-- they were. The event of the update, with that task as payload and in the project of the
-- task that was read, has been handed to the broker and to the webhook dispatcher.
pub update_ok :
    (env : Env) (id : String) (req : UpdateTaskRequest) (user : String) (w : World) (t : Task)
    → updates_of req ≢ []
    → (update env id req user w).0 ≡ ok t
    → (existing : Task) × ((Tasks.find_by_id env id w).0 ≡ ok (some existing))
      × (let w₁ = (Tasks.find_by_id env id w).1 in
          (done : Updated env id req.version (updates_of req) w₁ t) × Edited env id req
            (env.db_now w₁.ticks)
            done.wrote.before
            t
          × RowWritten id done.wrote.before t
              (seen env w₁).tasks
              (update env id req user w).1.db.tasks)
      × Announced task_updated existing.project_id user (of_task t) w (update env id req user w).1
unfolding update
update_ok env id req user w t ne h =
    let step = >>=-eq-ok (or_internal (Tasks.find_by_id env id)) _ w h in
    let next = >>=-eq-ok (or_missing (not_found "not found") step.0) _ _ step.2 in
    let row = or_missing-eq-ok (not_found "not found") step.0 _ next.1 in
    let ran = wrap_error-eq-ok _ (Tasks.find_by_id env id) w step.1 in
    let wrote =
      write_updates-ok env id req.version (updates_of req) user next.0 w
        (Tasks.find_by_id env id w).1 ne (find_task-Quiet env id w).0 (find_task-Quiet env id w).1
        (rw row.1 at next.2) in
    (
      next.0,
      cc (ran, row.0),
      (
        wrote.0,
        task-Edited env id req (Tasks.find_by_id env id w).1 t wrote.0,
        rw (step.3, next.3, row.1, wrote.2)
            (task-RowWritten env id req (Tasks.find_by_id env id w).1 t wrote.0),
      ),
      rw (step.3, next.3, row.1) wrote.1,
    )
