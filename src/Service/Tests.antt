-- ===== src/Service/Tests.antt =====
-- Runs of the task service on the small database of the repository's tests, and its theorems there.
use task_flow_alisha_sharma.Common.{◌≡◌, ◌≢◌, refl, Option, none, some, []}
use task_flow_alisha_sharma.Common.Int.{pos}
use task_flow_alisha_sharma.Common.Exec.{ok, err}
use task_flow_alisha_sharma.Model.{Task, Project, task_updated, task_deleted, of_task, of_id}
use task_flow_alisha_sharma.AppError.{forbidden, not_found}
use task_flow_alisha_sharma.Service.Errors.{Silent, errors_announce_nothing}
use task_flow_alisha_sharma.Service.Projects as ProjectService
use task_flow_alisha_sharma.Service.Projects.{UpdateProjectRequest}
use task_flow_alisha_sharma.Repository.Tests.{draft, calm, start}
use task_flow_alisha_sharma.Repository.Tasks
use task_flow_alisha_sharma.Repository.Tasks.{assign_all, bind_columns, check_row}
use task_flow_alisha_sharma.Repository.Tasks.Update.{Updated}
use task_flow_alisha_sharma.Repository.Projects
use task_flow_alisha_sharma.Service.Announce.{Announced}
use task_flow_alisha_sharma.Service.Events.{publish_event}
use task_flow_alisha_sharma.Service.Tasks.{
  write_updates, CreateTaskRequest, create, UpdateTaskRequest, updates_of, update, delete, owned_by,
}
use task_flow_alisha_sharma.Service.Tasks.Edited.{Edited}
use task_flow_alisha_sharma.Service.Tasks.Written.{RowWritten}
use task_flow_alisha_sharma.Service.Tasks.Locking.{update_ok}
use task_flow_alisha_sharma.Service.Tasks.Permissions.{RowRemoved, delete_ok}
use task_flow_alisha_sharma.Database.{seen}
use task_flow_alisha_sharma.Common.{◌||◌, ◌==◌, true}

abbrev finish : UpdateTaskRequest
finish = record {
  title = none;
  description = none;
  status = some "done";
  priority = none;
  assignee_id = none;
  due_date = none;
  version = pos 4;
}

abbrev finished : Task
finished = record draft { status = "done"; version = 5; updated_at = 50 }

finish-updates : updates_of finish ≢ []
unfolding updates_of
finish-updates = λ e. cc e

update_finishes : (update calm "t1" finish "u1" start).0 ≡ ok finished
unfolding update write_updates updates_of Tasks.update Tasks.find_by_id check_row assign_all
    bind_columns publish_event
update_finishes = refl

update_ok_example :
    (existing : Task) × ((Tasks.find_by_id calm "t1" start).0 ≡ ok (some existing))
    × (let w₁ = (Tasks.find_by_id calm "t1" start).1 in
        (done : Updated calm "t1" (pos 4) (updates_of finish) w₁ finished) × Edited calm "t1" finish
          (calm.db_now w₁.ticks)
          done.wrote.before
          finished
        × RowWritten "t1" done.wrote.before finished
            (seen calm w₁).tasks
            (update calm "t1" finish "u1" start).1.db.tasks)
    × Announced task_updated existing.project_id "u1"
        (of_task finished)
        start
        (update calm "t1" finish "u1" start).1
update_ok_example = update_ok calm "t1" finish "u1" start finished finish-updates update_finishes

delete_works : (delete calm "t1" "u1" start).0 ≡ ok tt
unfolding delete Tasks.find_by_id Projects.find_by_id Tasks.delete publish_event
delete_works = refl

-- A stranger is refused.
delete_refused : (delete calm "t1" "u2" start).0 ≡ err (forbidden "forbidden")
unfolding delete Tasks.find_by_id Projects.find_by_id
delete_refused = refl

delete_ok_example :
    (task : Task) × (p : Option Project) × (let w₁ = (Tasks.find_by_id calm "t1" start).1 in
      let w₂ = (Projects.find_by_id calm task.project_id w₁).1 in
      ((Tasks.find_by_id calm "t1" start).0 ≡ ok (some task))
      × ((Projects.find_by_id calm task.project_id w₁).0 ≡ ok p)
      × ((owned_by "u1" p || task.creator_id == "u1") ≡ true)
      × RowRemoved "t1" (seen calm w₂) (delete calm "t1" "u1" start).1.db
      × Announced task_deleted task.project_id "u1"
          (of_id "t1")
          start
          (delete calm "t1" "u1" start).1)
delete_ok_example = delete_ok calm "t1" "u1" start delete_works

abbrev idea : CreateTaskRequest
idea = record {
  title = "Idea";
  description = none;
  priority = "";
  assignee_id = none;
  due_date = none;
}

abbrev rename : UpdateProjectRequest
rename = record { name = some "Site"; description = none }

create_fails : (create calm "t1" idea "u2" start).0 ≡ err (not_found "not found")
unfolding create Projects.find_by_id
create_fails = refl

errors_announce_nothing_example :
    Silent start (create calm "t1" idea "u2" start)
    × Silent start (update calm "t1" finish "u2" start)
    × Silent start (delete calm "t1" "u2" start)
    × Silent start (ProjectService.update calm "t1" "u2" rename start)
    × Silent start (ProjectService.delete calm "t1" "u2" start)
errors_announce_nothing_example = errors_announce_nothing calm "t1" "u2" idea finish rename start
