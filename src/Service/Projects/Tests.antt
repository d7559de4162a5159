-- ===== src/Service/Projects/Tests.antt =====
-- Runs of the project service on the small database, and its theorems there.
use task_flow_alisha_sharma.Model.{project_updated, of_project}
use task_flow_alisha_sharma.Repository.Tests.{website}
use task_flow_alisha_sharma.Service.Projects.{UpdateProjectRequest, update}
use task_flow_alisha_sharma.Service.Projects.Editing.{project_update_ok}
use task_flow_alisha_sharma.Common.{◌∷◌, [], none, length, select}
use task_flow_alisha_sharma.Common.Dict.{insert}
use task_flow_alisha_sharma.Database.{seen}
use task_flow_alisha_sharma.Repository.Tasks.Queries.{
  in_project, count_by_status, count_by_assignee, group_count,
}
use task_flow_alisha_sharma.Service.Projects.{ProjectStatsResponse, stats}
use task_flow_alisha_sharma.Service.Projects.Totals.{stats_total}
use task_flow_alisha_sharma.Common.{◌≡◌, refl, some, true, ◌==◌}
use task_flow_alisha_sharma.Common.Exec.{ok, err}
use task_flow_alisha_sharma.Model.{Project, project_deleted, of_id}
use task_flow_alisha_sharma.AppError.{forbidden}
use task_flow_alisha_sharma.Repository.Projects
use task_flow_alisha_sharma.Repository.Tests.{calm, start}
use task_flow_alisha_sharma.Service.Announce.{Announced}
use task_flow_alisha_sharma.Service.Events.{publish_event}
use task_flow_alisha_sharma.Service.Projects.{delete}
use task_flow_alisha_sharma.Service.Projects.Removal.{Removed, project_delete_ok}

delete_works : (delete calm "p1" "u1" start).0 ≡ ok tt
unfolding delete Projects.find_by_id Projects.delete publish_event Projects.delete_statement
delete_works = refl

-- Only the owner may.
delete_refused : (delete calm "p1" "u2" start).0 ≡ err (forbidden "forbidden")
unfolding delete Projects.find_by_id
delete_refused = refl

project_delete_ok_example :
    (p : Project) × ((Projects.find_by_id calm "p1" start).0 ≡ ok (some p))
    × ((p.owner_id == "u1") ≡ true)
    × Removed "p1" "u1" (delete calm "p1" "u1" start).1.db
    × Announced project_deleted "p1" "u1" (of_id "p1") start (delete calm "p1" "u1" start).1
project_delete_ok_example = project_delete_ok calm "p1" "u1" start delete_works

abbrev report : ProjectStatsResponse
report = record {
  project_id = "p1";
  total_tasks = 1;
  by_status = ("todo", 1) ∷ ("in_progress", 0) ∷ ("done", 0) ∷ [];
  by_assignee = record { assignee_id = none; name = "Unassigned"; count = 1 } ∷ [];
}

stats_runs : (stats calm "p1" start).0 ≡ ok report
unfolding stats Projects.find_by_id count_by_status count_by_assignee group_count select insert
stats_runs = refl

stats_total_example :
    let w₁ = (Projects.find_by_id calm "p1" start).1 in
    let w₂ = (count_by_status calm "p1" w₁).1 in
    1 ≡ length (select (in_project "p1") (seen calm w₂).tasks)
stats_total_example = stats_total calm "p1" start report stats_runs

abbrev rename : UpdateProjectRequest
rename = record { name = some "Site"; description = none }

abbrev renamed : Project
renamed = record website { name = "Site" }

update_works : (update calm "p1" "u1" rename start).0 ≡ ok (some renamed)
unfolding update Projects.find_by_id Projects.update publish_event
update_works = refl

project_update_ok_example :
    (p : Project) × ((Projects.find_by_id calm "p1" start).0 ≡ ok (some p))
    × ((p.owner_id == "u1") ≡ true)
    × (let w₁ = (Projects.find_by_id calm "p1" start).1 in
        (Projects.update calm "p1" (some "Site") none w₁).0 ≡ ok (some renamed))
    × Announced project_updated "p1" "u1"
        (of_project (some renamed))
        start
        (update calm "p1" "u1" rename start).1
project_update_ok_example =
    project_update_ok calm "p1" "u1" rename (some renamed) start update_works
