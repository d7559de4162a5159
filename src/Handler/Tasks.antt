-- ===== src/Handler/Tasks.antt =====
-- backend/internal/handler/task.go
use task_flow_alisha_sharma.Common.{String, Option}
use task_flow_alisha_sharma.Common.Int.{pos}
use task_flow_alisha_sharma.Common.Exec.{pure, ◌>>=◌, ◌>>◌}
use task_flow_alisha_sharma.Database.{Env}
use task_flow_alisha_sharma.Validator.{Checker}
use task_flow_alisha_sharma.Validator.Rules.{create_task_rules, update_task_rules}
use task_flow_alisha_sharma.Pagination.{new_pagination_meta}
use task_flow_alisha_sharma.Service.Tasks as TaskService
use task_flow_alisha_sharma.Service.Tasks.{
  CreateTaskRequest, UpdateTaskRequest, TaskFilterQuery, filter_defaults,
}
use task_flow_alisha_sharma.Http.{Reply, Handler, answer, task, task_page, or_return, or_panic}
use task_flow_alisha_sharma.Handler.{with_body, with_query, no_content}

module _ (env : Env) (check : Checker) (user : Option String) where
  unfoldable pub create : String → Option CreateTaskRequest → Handler Reply
  create project_id parsed = with_body check create_task_rules parsed λ req.
      or_panic user >>= λ user_id.
      or_return (TaskService.create env project_id req user_id) >>= λ t. pure (answer 201 (task t))

  unfoldable pub list : String → Option TaskFilterQuery → Handler Reply
  list project_id parsed = with_query parsed λ query. or_panic user >>= λ user_id.
      or_return (TaskService.list_tasks env project_id (filter_defaults query)) >>= λ page.
      or_panic (
        new_pagination_meta (filter_defaults query).paging.page (filter_defaults query).paging.limit
          (pos page.1))
      >>= λ meta. pure (answer 200 (task_page page.0 meta))

  unfoldable pub update : String → Option UpdateTaskRequest → Handler Reply
  update id parsed = with_body check update_task_rules parsed λ req. or_panic user >>= λ user_id.
      or_return (TaskService.update env id req user_id) >>= λ t. pure (answer 200 (task t))

  unfoldable pub delete : String → Handler Reply
  delete id =
      or_panic user >>= λ user_id. or_return (TaskService.delete env id user_id) >> pure no_content
