-- ===== src/Server/Frame.antt =====
-- The handlers of a signed-in user, within a frame.
pub mod Routes
pub mod Sessions
use task_flow_alisha_sharma.Common.{ℕ, suc, String, ◌≡◌, refl, Option, none, some, List, [], ◌∷◌}
use task_flow_alisha_sharma.Common.Int.{pos}
use task_flow_alisha_sharma.Common.Exec.{Exec, pure, raise, ◌>>=◌, ◌>>◌}
use task_flow_alisha_sharma.AppError.{not_found}
use task_flow_alisha_sharma.Model.{WebhookSubscription}
use task_flow_alisha_sharma.Database.{Env, World}
use task_flow_alisha_sharma.Pagination.{PaginationQuery, defaults, new_pagination_meta}
use task_flow_alisha_sharma.Validator.{Checker, Rule, FieldError, verdict_of}
use task_flow_alisha_sharma.Validator.Rules.{
  CreateWebhookRequest, create_project_rules, update_project_rules, create_task_rules,
  update_task_rules, create_webhook_rules,
}
use task_flow_alisha_sharma.Repository.Webhooks as WebhookRows
use task_flow_alisha_sharma.Service.Events.{or_internal, guard}
use task_flow_alisha_sharma.Service.Frame.{Frame, Framed, then-within, then-Framed, guard-Framed}
use task_flow_alisha_sharma.Service.Frame.Rows as Rows
use task_flow_alisha_sharma.Service.Frame.Operations as Operations
use task_flow_alisha_sharma.Service.Projects as ProjectService
use task_flow_alisha_sharma.Service.Projects.{CreateProjectRequest, UpdateProjectRequest}
use task_flow_alisha_sharma.Service.Tasks as TaskService
use task_flow_alisha_sharma.Service.Tasks.{
  CreateTaskRequest, UpdateTaskRequest, TaskFilterQuery, filter_defaults,
}
use task_flow_alisha_sharma.Http.{
  Reply, Handler, Failure, answer, refuse, or_return, or_panic, respond,
}
use task_flow_alisha_sharma.Handler.{checked, with_body, with_query}
use task_flow_alisha_sharma.Handler.Projects as ProjectHandler
use task_flow_alisha_sharma.Handler.Tasks as TaskHandler
use task_flow_alisha_sharma.Handler.Webhooks as WebhookHandler
use task_flow_alisha_sharma.Handler.Webhooks.{new_subscription, insert}

module _ {env : Env} {u : String} {R : World → World → Type 0} (fr : Frame env u R)
    (check : Checker) where
  pure-Framed : {A : Type 0} (a : A) → Framed fr (pure {E = Failure} a)
  pure-Framed a w = fr.still w

  or_panic-then :
      {A : Type 0} (o : Option A) (f : A → Handler Reply)
      → ((a : A) → Framed fr (f a))
      → Framed fr (or_panic o >>= f)
  or_panic-then none f rest w = fr.still w
  or_panic-then (some a) f rest w = rest a w

  checked-within :
      (bad : List FieldError) (m : Handler Reply) (w : World)
      → R w (m w).1
      → R w ((checked (verdict_of bad) >> m) w).1
  checked-within [] m w rest = rest
  checked-within (e ∷ es) m w rest = fr.still w

  with_body-Framed :
      {A : Type 0} (rules : A → List Rule) (parsed : Option A) (f : A → Handler Reply)
      → ((a : A) → Framed fr (f a))
      → Framed fr (with_body check rules parsed f)
  with_body-Framed rules none f rest = pure-Framed (refuse 400 "invalid request body")
  with_body-Framed rules (some req) f rest =
      λ w. checked-within (check (rules req)) (f req) w (rest req w)

  with_query-Framed :
      {A : Type 0} (parsed : Option A) (f : A → Handler Reply)
      → ((a : A) → Framed fr (f a))
      → Framed fr (with_query parsed f)
  with_query-Framed none f rest = pure-Framed (refuse 400 "invalid query parameters")
  with_query-Framed (some q) f rest = rest q

  pub create_project-Framed :
      (parsed : Option CreateProjectRequest)
      → Framed fr (ProjectHandler.create env check (some u) parsed)
  unfolding ProjectHandler.create
  create_project-Framed parsed = with_body-Framed create_project_rules parsed _ λ req.
      then-Framed fr (or_return (ProjectService.create env req u)) _
        (Operations.create_project-Framed fr req) λ p w. fr.still w

  pub list_projects-Framed :
      (parsed : Option PaginationQuery) → Framed fr (ProjectHandler.list env check (some u) parsed)
  unfolding ProjectHandler.list
  list_projects-Framed parsed = with_query-Framed parsed _ λ query.
      then-Framed fr (or_return (ProjectService.list_projects env u (defaults query))) _
        (Operations.list_projects-Framed fr u (defaults query))
        λ page.
          or_panic-then
            (new_pagination_meta (defaults query).page (defaults query).limit (pos page.1)) _
            λ meta w. fr.still w

  pub get_project-Framed :
      (id : String) → Framed fr (ProjectHandler.get_by_id env check (some u) id)
  unfolding ProjectHandler.get_by_id
  get_project-Framed id =
      then-Framed fr (or_return (ProjectService.get_by_id env id)) _
        (Operations.get_project-Framed fr id) λ found w. fr.still w

  -- Where the service keeps to the frame in the world that the handler starts in.
  pub update_project-within :
      (id : String) (parsed : Option UpdateProjectRequest) (w : World)
      → ((req : UpdateProjectRequest) → R w (ProjectService.update env id u req w).1)
      → R w (ProjectHandler.update env check (some u) id parsed w).1
  unfolding ProjectHandler.update
  update_project-within id none w edits = fr.still w
  update_project-within id (some req) w edits =
      checked-within (check (update_project_rules req)) _ w (
        then-within fr (or_return (ProjectService.update env id u req)) _ w (edits req)
          λ p done. fr.still _)

  pub delete_project-Framed :
      (id : String) → Framed fr (ProjectHandler.delete env check (some u) id)
  unfolding ProjectHandler.delete
  delete_project-Framed id =
      then-Framed fr (or_return (ProjectService.delete env id u)) _
        (Operations.delete_project-Framed fr id) λ gone w. fr.still w

  pub stats-Framed : (id : String) → Framed fr (ProjectHandler.stats env check (some u) id)
  unfolding ProjectHandler.stats
  stats-Framed id =
      then-Framed fr (or_return (ProjectService.stats env id)) _ (Operations.stats-Framed fr id)
        λ found w. fr.still w

  pub create_task-Framed :
      (id : String) (parsed : Option CreateTaskRequest)
      → Framed fr (TaskHandler.create env check (some u) id parsed)
  unfolding TaskHandler.create
  create_task-Framed id parsed = with_body-Framed create_task_rules parsed _ λ req.
      then-Framed fr (or_return (TaskService.create env id req u)) _
        (Operations.create_task-Framed fr id req u) λ t w. fr.still w

  pub list_tasks-Framed :
      (id : String) (parsed : Option TaskFilterQuery)
      → Framed fr (TaskHandler.list env check (some u) id parsed)
  unfolding TaskHandler.list
  list_tasks-Framed id parsed = with_query-Framed parsed _ λ query.
      then-Framed fr (or_return (TaskService.list_tasks env id (filter_defaults query))) _
        (Operations.list_tasks-Framed fr id (filter_defaults query))
        λ page.
          or_panic-then
            (new_pagination_meta (filter_defaults query).paging.page
              (filter_defaults query).paging.limit (pos page.1))
            _ λ meta w. fr.still w

  pub update_task-Framed :
      (id : String) (parsed : Option UpdateTaskRequest)
      → Framed fr (TaskHandler.update env check (some u) id parsed)
  unfolding TaskHandler.update
  update_task-Framed id parsed = with_body-Framed update_task_rules parsed _ λ req.
      then-Framed fr (or_return (TaskService.update env id req u)) _
        (Operations.update_task-Framed fr id req u) λ t w. fr.still w

  pub delete_task-Framed : (id : String) → Framed fr (TaskHandler.delete env check (some u) id)
  unfolding TaskHandler.delete
  delete_task-Framed id =
      then-Framed fr (or_return (TaskService.delete env id u)) _
        (Operations.delete_task-Framed fr id u) λ gone w. fr.still w

  subscribe-Framed :
      (s : WebhookSubscription) (r : Reply)
      → s.user_id ≡ u
      → Framed fr (or_return (insert env s) >> pure r)
  subscribe-Framed s r mine =
      then-Framed fr (or_return (insert env s)) _ (Rows.create_webhook-Framed fr s mine)
        λ done w. fr.still w

  pub create_webhook-Framed :
      (parsed : Option CreateWebhookRequest)
      → Framed fr (WebhookHandler.create env check (some u) parsed)
  unfolding WebhookHandler.create
  create_webhook-Framed parsed = with_body-Framed create_webhook_rules parsed _ λ req w.
      let later = record w { ticks = suc (suc w.ticks) } in
      fr.trans w later _ (fr.ticks w (suc (suc w.ticks))) (
        subscribe-Framed (new_subscription req u (env.new_uuid w.ticks) (env.clock (suc w.ticks))) _
          refl later)

  pub list_webhooks-Framed : Framed fr (WebhookHandler.list env check (some u))
  unfolding WebhookHandler.list
  list_webhooks-Framed =
      then-Framed fr (or_return (or_internal (WebhookRows.find_by_user env u))) _
        (Rows.find_webhooks-Framed fr u) λ subs w. fr.still w

  pub delete_webhook-Framed :
      (id : String) → Framed fr (WebhookHandler.delete env check (some u) id)
  unfolding WebhookHandler.delete
  delete_webhook-Framed id =
      then-Framed fr (or_return (or_internal (WebhookRows.delete env id u))) _
        (Rows.delete_webhook-Framed fr id)
        λ deleted.
          then-Framed fr (or_return (guard deleted (not_found "not found"))) _
            (guard-Framed fr deleted (not_found "not found")) λ passed w. fr.still w
