-- ===== src/Handler/Projects.antt =====
-- backend/internal/handler/project.go
use task_flow_alisha_sharma.Common.{String, Option}
use task_flow_alisha_sharma.Common.Int.{pos}
use task_flow_alisha_sharma.Common.Exec.{pure, ◌>>=◌, ◌>>◌}
use task_flow_alisha_sharma.Database.{Env}
use task_flow_alisha_sharma.Validator.{Checker}
use task_flow_alisha_sharma.Validator.Rules.{create_project_rules, update_project_rules}
use task_flow_alisha_sharma.Pagination.{PaginationQuery, defaults, new_pagination_meta}
use task_flow_alisha_sharma.Service.Projects as ProjectService
use task_flow_alisha_sharma.Service.Projects.{CreateProjectRequest, UpdateProjectRequest}
use task_flow_alisha_sharma.Http.{
  Reply, Handler, answer, project, project_view, project_page, project_stats, or_return, or_panic,
}
use task_flow_alisha_sharma.Handler.{with_body, with_query, no_content}

module _ (env : Env) (check : Checker) (user : Option String) where
  unfoldable pub create : Option CreateProjectRequest → Handler Reply
  create parsed = with_body check create_project_rules parsed λ req. or_panic user >>= λ user_id.
      or_return (ProjectService.create env req user_id) >>= λ p.
      pure (answer 201 (project (Option.some p)))

  -- The meta data of a page panics for a limit of 0.
  unfoldable pub list : Option PaginationQuery → Handler Reply
  list parsed = with_query parsed λ query. or_panic user >>= λ user_id.
      or_return (ProjectService.list_projects env user_id (defaults query)) >>= λ page.
      or_panic (new_pagination_meta (defaults query).page (defaults query).limit (pos page.1))
      >>= λ meta. pure (answer 200 (project_page page.0 meta))

  unfoldable pub get_by_id : String → Handler Reply
  get_by_id id = or_panic user >>= λ user_id.
      or_return (ProjectService.get_by_id env id) >>= λ found.
      pure (answer 200 (project_view found.0 found.1))

  unfoldable pub update : String → Option UpdateProjectRequest → Handler Reply
  update id parsed = with_body check update_project_rules parsed λ req. or_panic user >>= λ user_id.
      or_return (ProjectService.update env id user_id req) >>= λ updated.
      pure (answer 200 (project updated))

  unfoldable pub delete : String → Handler Reply
  delete id = or_panic user >>= λ user_id.
      or_return (ProjectService.delete env id user_id) >> pure no_content

  unfoldable pub stats : String → Handler Reply
  stats id = or_panic user >>= λ user_id.
      or_return (ProjectService.stats env id) >>= λ found. pure (answer 200 (project_stats found))
