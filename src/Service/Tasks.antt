-- ===== src/Service/Tasks.antt =====
-- backend/internal/service/task.go
pub mod Edited
pub mod Written
pub mod Locking
pub mod Permissions
use task_flow_alisha_sharma.Common.{
  List, ℕ, String, Option, none, some, Bool, true, false, ◌||◌, [], ◌∷◌, ◌++◌, ◌==◌, if◌then◌else◌,
}
use task_flow_alisha_sharma.Common.Int.{ℤ}
use task_flow_alisha_sharma.Common.Exec.{pure, raise, wrap_error, ◌>>=◌, ◌>>◌}
use task_flow_alisha_sharma.Model.{
  Task, Project, task_created, task_updated, task_deleted, of_task, of_id,
}
use task_flow_alisha_sharma.AppError.{AppError, internal, not_found, forbidden, conflict, db}
use task_flow_alisha_sharma.Database.{Env, Repo, now, new_id}
use task_flow_alisha_sharma.Repository.Tasks
use task_flow_alisha_sharma.Repository.Tasks.{
  Updates, title, description, status, priority, assignee_id, due_date,
}
use task_flow_alisha_sharma.Repository.Tasks.Queries.{find_by_project}
use task_flow_alisha_sharma.Repository.Projects
use task_flow_alisha_sharma.Pagination.{PaginationQuery, defaults, offset}
use task_flow_alisha_sharma.Service.Events.{App, publish_event, or_internal, or_missing, guard}

-- dto.CreateTaskRequest and dto.UpdateTaskRequest
pub record CreateTaskRequest : Type 0 where
  pub title : String
  pub description : Option String
  pub priority : String
  pub assignee_id : Option String
  pub due_date : Option String

pub record UpdateTaskRequest : Type 0 where
  pub title : Option String
  pub description : Option String
  pub status : Option String
  pub priority : Option String
  pub assignee_id : Option String
  pub due_date : Option String
  pub version : ℤ

abbrev pub new_task : String → CreateTaskRequest → String → String → ℕ → Task
new_task project_id req user_id id at = record {
  id = id;
  title = req.title;
  description = req.description;
  status = "todo";
  priority = if req.priority == "" then "medium" else req.priority;
  project_id = project_id;
  creator_id = user_id;
  assignee_id = req.assignee_id;
  due_date = req.due_date;
  version = 1;
  created_at = at;
  updated_at = at;
}

unfoldable pub create : Env → String → CreateTaskRequest → String → App Task
create env project_id req user_id = do
  found ← or_internal (Projects.find_by_id env project_id)
  or_missing (not_found "not found") found
  at ← now env
  id ← new_id env
  let task = new_task project_id req user_id id at
  or_internal (Tasks.create env task)
  publish_event env task_created project_id user_id (of_task task)
  pure task

-- The map of the fields that the request gives; Go walks it in no fixed order.
abbrev entry : Tasks.Column → Option String → Updates
entry c none = []
entry c (some v) = (c, v) ∷ []

unfoldable pub updates_of : UpdateTaskRequest → Updates
updates_of req =
    entry title req.title
    ++ (entry description req.description
        ++ (entry status req.status
            ++ (entry priority req.priority
                ++ (entry assignee_id req.assignee_id ++ entry due_date req.due_date))))

abbrev pub conflict_msg : String
conflict_msg = "resource was modified by another request, please retry with the latest version"

unfoldable pub write_updates : Env → String → ℤ → Updates → String → Task → App Task
write_updates env task_id version [] user_id existing = pure existing
write_updates env task_id version (u ∷ us) user_id existing = do
  result ← or_internal (Tasks.update env task_id version (u ∷ us))
  updated ← or_missing (conflict conflict_msg) result
  publish_event env task_updated existing.project_id user_id (of_task updated)
  pure updated

unfoldable pub update : Env → String → UpdateTaskRequest → String → App Task
update env task_id req user_id = do
  found ← or_internal (Tasks.find_by_id env task_id)
  existing ← or_missing (not_found "not found") found
  write_updates env task_id req.version (updates_of req) user_id existing

abbrev pub owned_by : String → Option Project → Bool
owned_by user_id none = false
owned_by user_id (some p) = p.owner_id == user_id

unfoldable pub delete : Env → String → String → App (Unit {0})
delete env task_id user_id = do
  found ← or_internal (Tasks.find_by_id env task_id)
  task ← or_missing (not_found "not found") found
  p ← or_internal (Projects.find_by_id env task.project_id)
  guard (owned_by user_id p || task.creator_id == user_id) (forbidden "forbidden")
  deleted ← or_internal (Tasks.delete env task_id)
  guard deleted (not_found "not found")
  publish_event env task_deleted task.project_id user_id (of_id task_id)

-- dto.TaskFilterQuery. `sort_by` and `sort_order` are filled in by `Defaults` and never read.
pub record TaskFilterQuery : Type 0 where
  pub status : String
  pub assignee : String
  pub sort_by : String
  pub sort_order : String
  pub paging : PaginationQuery

unfoldable pub filter_defaults : TaskFilterQuery → TaskFilterQuery
filter_defaults f = record f {
  sort_by = if f.sort_by == "" then "created_at" else f.sort_by;
  sort_order = if f.sort_order == "" then "DESC" else f.sort_order;
  paging = defaults f.paging;
}

unfoldable pub list_tasks : Env → String → TaskFilterQuery → App (List Task × ℕ)
list_tasks env project_id query = do
  found ← or_internal (Projects.find_by_id env project_id)
  or_missing (not_found "not found") found
  let f = filter_defaults query
  or_internal (
      find_by_project env project_id (record { status = f.status; assignee = f.assignee })
        f.paging.limit (offset f.paging))
