-- ===== src/Server/Opaque/Handlers.antt =====
-- The replies of backend/internal/handler, handler by handler.
use task_flow_alisha_sharma.Common.{suc, ◌≤◌, String, Option, Bool, true, false, arith}
use task_flow_alisha_sharma.Common.Int.{pos}
use task_flow_alisha_sharma.Common.Exec.{pure, ◌>>◌}
use task_flow_alisha_sharma.AppError.{DbError, is_duplicate, db, conflict, not_found}
use task_flow_alisha_sharma.Model.{WebhookSubscription}
use task_flow_alisha_sharma.Database.{Env}
use task_flow_alisha_sharma.Pagination.{PaginationQuery, defaults, new_pagination_meta}
use task_flow_alisha_sharma.Validator.{Checker}
use task_flow_alisha_sharma.Validator.Rules.{
  CreateWebhookRequest, create_project_rules, update_project_rules, create_task_rules,
  update_task_rules, create_webhook_rules,
}
use task_flow_alisha_sharma.Repository.Webhooks as Rows
use task_flow_alisha_sharma.Service.Events.{or_internal, guard}
use task_flow_alisha_sharma.Service.Projects as ProjectService
use task_flow_alisha_sharma.Service.Projects.{CreateProjectRequest, UpdateProjectRequest}
use task_flow_alisha_sharma.Service.Tasks as TaskService
use task_flow_alisha_sharma.Service.Tasks.{
  CreateTaskRequest, UpdateTaskRequest, TaskFilterQuery, filter_defaults,
}
use task_flow_alisha_sharma.Service.Opaque.{
  Proper, internal-Proper, lesser-Proper, Raises, or_internal-Raises, guard-Raises, wrapped-Raises,
}
use task_flow_alisha_sharma.Service.Opaque.Operations as Operations
use task_flow_alisha_sharma.Http.{Reply, answer, or_return, project_page, task_page}
use task_flow_alisha_sharma.Handler.{no_content}
use task_flow_alisha_sharma.Handler.Projects as ProjectHandler
use task_flow_alisha_sharma.Handler.Tasks as TaskHandler
use task_flow_alisha_sharma.Handler.Webhooks as WebhookHandler
use task_flow_alisha_sharma.Handler.Webhooks.{new_subscription, on_insert, insert, response}
use task_flow_alisha_sharma.Server.Opaque.Rules.{
  Replies, answer-Replies, done-Replies, or_panic-then, call-then, with_body-Replies,
  with_query-Replies,
}

module _ (env : Env) (check : Checker) (user : Option String) where
  pub create_project-Replies :
      (parsed : Option CreateProjectRequest) → Replies (ProjectHandler.create env check user parsed)
  unfolding ProjectHandler.create
  create_project-Replies parsed = with_body-Replies check create_project_rules parsed _ λ req.
      or_panic-then user _ λ u.
        call-then (ProjectService.create env req u) _ (Operations.create_project-Raises env req u)
          λ p. done-Replies 201 (omega arith)

  pub list_projects-Replies :
      (parsed : Option PaginationQuery) → Replies (ProjectHandler.list env check user parsed)
  unfolding ProjectHandler.list
  list_projects-Replies parsed = with_query-Replies parsed _ λ query. or_panic-then user _ λ u.
      call-then (ProjectService.list_projects env u (defaults query)) _
        (Operations.list_projects-Raises env u (defaults query))
        λ page.
          or_panic-then
            (new_pagination_meta (defaults query).page (defaults query).limit (pos page.1)) _
            λ meta. answer-Replies (answer 200 (project_page page.0 meta)) (omega arith)

  pub get_project-Replies : (id : String) → Replies (ProjectHandler.get_by_id env check user id)
  unfolding ProjectHandler.get_by_id
  get_project-Replies id = or_panic-then user _ λ u.
      call-then (ProjectService.get_by_id env id) _ (Operations.get_project-Raises env id)
        λ found. done-Replies 200 (omega arith)

  pub update_project-Replies :
      (id : String) (parsed : Option UpdateProjectRequest)
      → Replies (ProjectHandler.update env check user id parsed)
  unfolding ProjectHandler.update
  update_project-Replies id parsed = with_body-Replies check update_project_rules parsed _ λ req.
      or_panic-then user _ λ u.
        call-then (ProjectService.update env id u req) _
          (Operations.update_project-Raises env id u req) λ p. done-Replies 200 (omega arith)

  pub delete_project-Replies : (id : String) → Replies (ProjectHandler.delete env check user id)
  unfolding ProjectHandler.delete
  delete_project-Replies id = or_panic-then user _ λ u.
      call-then (ProjectService.delete env id u) _ (Operations.delete_project-Raises env id u)
        λ gone. answer-Replies no_content (omega arith)

  pub stats-Replies : (id : String) → Replies (ProjectHandler.stats env check user id)
  unfolding ProjectHandler.stats
  stats-Replies id = or_panic-then user _ λ u.
      call-then (ProjectService.stats env id) _ (Operations.stats-Raises env id)
        λ found. done-Replies 200 (omega arith)

  pub create_task-Replies :
      (id : String) (parsed : Option CreateTaskRequest)
      → Replies (TaskHandler.create env check user id parsed)
  unfolding TaskHandler.create
  create_task-Replies id parsed = with_body-Replies check create_task_rules parsed _ λ req.
      or_panic-then user _ λ u.
        call-then (TaskService.create env id req u) _ (Operations.create_task-Raises env id req u)
          λ t. done-Replies 201 (omega arith)

  pub list_tasks-Replies :
      (id : String) (parsed : Option TaskFilterQuery)
      → Replies (TaskHandler.list env check user id parsed)
  unfolding TaskHandler.list
  list_tasks-Replies id parsed = with_query-Replies parsed _ λ query. or_panic-then user _ λ u.
      call-then (TaskService.list_tasks env id (filter_defaults query)) _
        (Operations.list_tasks-Raises env id (filter_defaults query))
        λ page.
          or_panic-then
            (new_pagination_meta (filter_defaults query).paging.page
              (filter_defaults query).paging.limit (pos page.1))
            _ λ meta. answer-Replies (answer 200 (task_page page.0 meta)) (omega arith)

  pub update_task-Replies :
      (id : String) (parsed : Option UpdateTaskRequest)
      → Replies (TaskHandler.update env check user id parsed)
  unfolding TaskHandler.update
  update_task-Replies id parsed = with_body-Replies check update_task_rules parsed _ λ req.
      or_panic-then user _ λ u.
        call-then (TaskService.update env id req u) _ (Operations.update_task-Raises env id req u)
          λ t. done-Replies 200 (omega arith)

  pub delete_task-Replies : (id : String) → Replies (TaskHandler.delete env check user id)
  unfolding TaskHandler.delete
  delete_task-Replies id = or_panic-then user _ λ u.
      call-then (TaskService.delete env id u) _ (Operations.delete_task-Raises env id u)
        λ gone. answer-Replies no_content (omega arith)

  on_insert-Proper : (b : Bool) (e : DbError) → Proper (on_insert b e)
  on_insert-Proper true e =
      lesser-Proper (conflict "webhook subscription already exists for this URL and event type")
        (omega arith)
  on_insert-Proper false e = internal-Proper (db e)

  insert-Raises : (s : WebhookSubscription) → Raises (insert env s)
  insert-Raises s w e h =
      wrapped-Raises (λ x. on_insert (is_duplicate x) x) (Rows.create env s w).0
        (λ x. on_insert-Proper (is_duplicate x) x) e h

  subscribe-Replies :
      (s : WebhookSubscription) (r : Reply)
      → suc r.status ≤ 500
      → Replies (or_return (insert env s) >> pure r)
  subscribe-Replies s r small =
      call-then (insert env s) _ (insert-Raises s) λ done. answer-Replies r small

  pub create_webhook-Replies :
      (parsed : Option CreateWebhookRequest) → Replies (WebhookHandler.create env check user parsed)
  unfolding WebhookHandler.create
  create_webhook-Replies parsed = with_body-Replies check create_webhook_rules parsed _ λ req.
      or_panic-then user _ λ u w.
        subscribe-Replies (new_subscription req u (env.new_uuid w.ticks) (env.clock (suc w.ticks)))
          _ (omega arith) (record w { ticks = suc (suc w.ticks) })

  pub list_webhooks-Replies : Replies (WebhookHandler.list env check user)
  unfolding WebhookHandler.list
  list_webhooks-Replies = or_panic-then user _ λ u.
      call-then (or_internal (Rows.find_by_user env u)) _
        (or_internal-Raises (Rows.find_by_user env u)) λ subs. done-Replies 200 (omega arith)

  pub delete_webhook-Replies : (id : String) → Replies (WebhookHandler.delete env check user id)
  unfolding WebhookHandler.delete
  delete_webhook-Replies id = or_panic-then user _ λ u.
      call-then (or_internal (Rows.delete env id u)) _ (or_internal-Raises (Rows.delete env id u))
        λ deleted.
          call-then (guard deleted (not_found "not found")) _
            (guard-Raises deleted (not_found "not found")
              (lesser-Proper (not_found "not found") (omega arith)))
            λ passed. answer-Replies no_content (omega arith)
