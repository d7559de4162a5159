-- ===== src/Service/Projects.antt =====
-- backend/internal/service/project.go
pub mod Editing
pub mod Removal
pub mod Totals
mod Tests
use task_flow_alisha_sharma.Common.{ℕ, ◌+◌, String, Option, none, some, List, [], ◌∷◌, ◌++◌, ◌==◌}
use task_flow_alisha_sharma.Common.Int.{pos}
use task_flow_alisha_sharma.Common.Dict.{Dict}
use task_flow_alisha_sharma.Common.Exec.{ok, err, pure, ◌>>=◌, ◌>>◌}
use task_flow_alisha_sharma.Model.{
  Task, Project, EventType, Payload, project_updated, project_deleted, of_project, of_id,
}
use task_flow_alisha_sharma.AppError.{not_found, forbidden}
use task_flow_alisha_sharma.Pagination.{PaginationQuery, defaults, offset}
use task_flow_alisha_sharma.Database.{Env, now, new_id}
use task_flow_alisha_sharma.Repository.Projects
use task_flow_alisha_sharma.Repository.Users
use task_flow_alisha_sharma.Repository.Tasks.Queries.{
  AssigneeCount, find_by_project, count_by_status, count_by_assignee,
}
use task_flow_alisha_sharma.Service.Events.{App, publish_event, or_internal, or_missing, guard}

-- dto.CreateProjectRequest, dto.UpdateProjectRequest and dto.ProjectStatsResponse
pub record CreateProjectRequest : Type 0 where
  pub name : String
  pub description : Option String

pub record UpdateProjectRequest : Type 0 where
  pub name : Option String
  pub description : Option String

pub record AssigneeTaskCount : Type 0 where
  pub assignee_id : Option String
  pub name : String
  pub count : ℕ

pub record ProjectStatsResponse : Type 0 where
  pub project_id : String
  pub total_tasks : ℕ
  pub by_status : Dict ℕ
  pub by_assignee : List AssigneeTaskCount

-- `publishEvent` of this service repeats that of the task service.
abbrev pub publish_project_event : Env → EventType → String → String → Payload → App (Unit {0})
publish_project_event env kind project_id actor_id payload =
    publish_event env kind project_id actor_id payload

abbrev pub new_project : CreateProjectRequest → String → String → ℕ → Project
new_project req user_id id at = record {
  id = id;
  name = req.name;
  description = req.description;
  owner_id = user_id;
  created_at = at;
}

unfoldable pub create : Env → CreateProjectRequest → String → App Project
create env req user_id = do
  id ← new_id env
  at ← now env
  let p = new_project req user_id id at
  or_internal (Projects.create env p)
  pure p

unfoldable pub list_projects : Env → String → PaginationQuery → App (List Project × ℕ)
list_projects env user_id pq =
    let q = defaults pq in or_internal (Projects.find_by_user env user_id q.limit (offset q))

-- The project, and at most its 1000 newest tasks.
unfoldable pub get_by_id : Env → String → App (Project × List Task)
get_by_id env project_id = do
  found ← or_internal (Projects.find_by_id env project_id)
  p ← or_missing (not_found "not found") found
  page ←
      or_internal
        (find_by_project env project_id (record { status = ""; assignee = "" }) (pos 1000) (pos 0))
  pure (p, page.0)

-- `updated` is nil where the project has gone since it was read.
unfoldable pub update : Env → String → String → UpdateProjectRequest → App (Option Project)
update env project_id user_id req = do
  found ← or_internal (Projects.find_by_id env project_id)
  p ← or_missing (not_found "not found") found
  guard (p.owner_id == user_id) (forbidden "forbidden")
  updated ← or_internal (Projects.update env project_id req.name req.description)
  publish_project_event env project_updated project_id user_id (of_project updated)
  pure updated

unfoldable pub delete : Env → String → String → App (Unit {0})
delete env project_id user_id = do
  found ← or_internal (Projects.find_by_id env project_id)
  p ← or_missing (not_found "not found") found
  guard (p.owner_id == user_id) (forbidden "forbidden")
  deleted ← or_internal (Projects.delete env project_id user_id)
  guard deleted (not_found "not found")
  publish_project_event env project_deleted project_id user_id (of_id project_id)

-- The name beside a count; an error of the lookup leaves "Unassigned".
unfoldable pub name_for : Env → Option String → App String
name_for env none w = (ok "Unassigned", w)
name_for env (some id) w =
    let found = Users.find_name_by_id env id w in
    (ok (elim found.0 [ ok n ↦ n | err e ↦ "Unassigned" ]), found.1)

abbrev named : AssigneeCount → String → AssigneeTaskCount
named a name = record { assignee_id = a.assignee_id; name = name; count = a.count }

-- The loop of `Stats`: the rows with their names, and the sum of the counts.
unfoldable pub name_counts :
    Env → List AssigneeCount → List AssigneeTaskCount → ℕ → App (List AssigneeTaskCount × ℕ)
name_counts env [] done total = pure (done, total)
name_counts env (a ∷ rest) done total = do
  name ← name_for env a.assignee_id
  name_counts env rest (done ++ named a name ∷ []) (total + a.count)

unfoldable pub stats : Env → String → App ProjectStatsResponse
unfolding name_counts name_for
stats env project_id = do
  found ← or_internal (Projects.find_by_id env project_id)
  or_missing (not_found "not found") found
  by_status ← or_internal (count_by_status env project_id)
  raw ← or_internal (count_by_assignee env project_id)
  counts ← name_counts env raw [] 0
  pure (record {
    project_id = project_id;
    total_tasks = counts.1;
    by_status = by_status;
    by_assignee = counts.0;
  })
