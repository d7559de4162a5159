-- ===== src/Service/Opaque/Operations.antt =====
-- The errors of backend/internal/service/task.go and project.go.
use task_flow_alisha_sharma.Common.{
  arith, suc, ◌+◌, ◌||◌, String, ◌==◌, Option, none, some, List, [], ◌∷◌, ℕ,
}
use task_flow_alisha_sharma.Common.Int.{ℤ, pos}
use task_flow_alisha_sharma.Common.Exec.{pure, ◌>>◌}
use task_flow_alisha_sharma.AppError.{not_found, forbidden, conflict}
use task_flow_alisha_sharma.Model.{
  Task, EventType, Payload, of_task, of_id, of_project, task_created, task_updated, task_deleted,
  project_updated, project_deleted,
}
use task_flow_alisha_sharma.Database.{Env}
use task_flow_alisha_sharma.Pagination.{PaginationQuery, defaults, offset}
use task_flow_alisha_sharma.Repository.Tasks as TaskRows
use task_flow_alisha_sharma.Repository.Tasks.{Updates}
use task_flow_alisha_sharma.Repository.Tasks.Queries.{
  AssigneeCount, find_by_project, count_by_status, count_by_assignee,
}
use task_flow_alisha_sharma.Repository.Projects as ProjectRows
use task_flow_alisha_sharma.Service.Events.{or_internal, publish_event}
use task_flow_alisha_sharma.Service.Opaque.{
  Raises, then-Raises, pure-Raises, or_internal-Raises, publish_event-Raises, internal-then,
  row-then, guard-then,
}
use task_flow_alisha_sharma.Service.Tasks.{
  CreateTaskRequest, UpdateTaskRequest, TaskFilterQuery, new_task, write_updates, updates_of,
  owned_by, filter_defaults, conflict_msg, list_tasks,
}
use task_flow_alisha_sharma.Service.Projects.{
  CreateProjectRequest, UpdateProjectRequest, AssigneeTaskCount, name_for, name_counts, new_project,
  list_projects, get_by_id, stats,
}
use task_flow_alisha_sharma.Service.Tasks
use task_flow_alisha_sharma.Service.Projects

module _ (env : Env) where
  announce-Raises :
      {A : Type 0} (kind : EventType) (project actor : String) (payload : Payload) (a : A)
      → Raises (publish_event env kind project actor payload >> pure a)
  announce-Raises kind project actor payload a =
      then-Raises (publish_event env kind project actor payload) _
        (publish_event-Raises env kind project actor payload) λ told. pure-Raises a

  insert-Raises :
      (project user : String) (t : Task)
      → Raises (
          or_internal (TaskRows.create env t)
          >> (publish_event env task_created project user (of_task t) >> pure t))
  insert-Raises project user t =
      internal-then (TaskRows.create env t) _
        λ done. announce-Raises task_created project user (of_task t) t

  pub create_task-Raises :
      (project : String) (req : CreateTaskRequest) (user : String)
      → Raises (Tasks.create env project req user)
  unfolding Tasks.create
  create_task-Raises project req user =
      row-then (ProjectRows.find_by_id env project) (not_found "not found") _ (omega arith) λ p w.
        insert-Raises project user
          (new_task project req user (env.new_uuid (suc w.ticks)) (env.clock w.ticks))
          (record w { ticks = suc (suc w.ticks) })

  write_updates-Raises :
      (id : String) (version : ℤ) (us : Updates) (user : String) (existing : Task)
      → Raises (write_updates env id version us user existing)
  unfolding write_updates
  write_updates-Raises id version [] user existing = pure-Raises existing
  write_updates-Raises id version (u ∷ us) user existing =
      row-then (TaskRows.update env id version (u ∷ us)) (conflict conflict_msg) _ (omega arith)
        λ updated. announce-Raises task_updated existing.project_id user (of_task updated) updated

  pub update_task-Raises :
      (id : String) (req : UpdateTaskRequest) (user : String)
      → Raises (Tasks.update env id req user)
  unfolding Tasks.update
  update_task-Raises id req user =
      row-then (TaskRows.find_by_id env id) (not_found "not found") _ (omega arith)
        λ existing. write_updates-Raises id req.version (updates_of req) user existing

  pub delete_task-Raises : (id user : String) → Raises (Tasks.delete env id user)
  unfolding Tasks.delete
  delete_task-Raises id user =
      row-then (TaskRows.find_by_id env id) (not_found "not found") _ (omega arith) λ task.
        internal-then (ProjectRows.find_by_id env task.project_id) _ λ p.
          guard-then (owned_by user p || task.creator_id == user) (forbidden "forbidden") _
            (omega arith)
            (internal-then (TaskRows.delete env id) _ λ deleted.
              guard-then deleted (not_found "not found") _ (omega arith)
                (publish_event-Raises env task_deleted task.project_id user (of_id id)))

  pub list_tasks-Raises :
      (project : String) (query : TaskFilterQuery) → Raises (list_tasks env project query)
  unfolding list_tasks
  list_tasks-Raises project query =
      row-then (ProjectRows.find_by_id env project) (not_found "not found") _ (omega arith) λ p.
        let f = filter_defaults query in
        or_internal-Raises (
          find_by_project env project (record { status = f.status; assignee = f.assignee })
            f.paging.limit (offset f.paging))

  pub create_project-Raises :
      (req : CreateProjectRequest) (user : String) → Raises (Projects.create env req user)
  unfolding Projects.create
  create_project-Raises req user w =
      let p = new_project req user (env.new_uuid w.ticks) (env.clock (suc w.ticks)) in
      internal-then (ProjectRows.create env p) _ (λ done. pure-Raises p)
        (record w { ticks = suc (suc w.ticks) })

  pub list_projects-Raises :
      (user : String) (pq : PaginationQuery) → Raises (list_projects env user pq)
  unfolding list_projects
  list_projects-Raises user pq =
      or_internal-Raises
        (ProjectRows.find_by_user env user (defaults pq).limit (offset (defaults pq)))

  pub get_project-Raises : (id : String) → Raises (get_by_id env id)
  unfolding get_by_id
  get_project-Raises id =
      row-then (ProjectRows.find_by_id env id) (not_found "not found") _ (omega arith) λ p.
        internal-then
          (find_by_project env id (record { status = ""; assignee = "" }) (pos 1000) (pos 0)) _
          λ page. pure-Raises (p, page.0)

  pub update_project-Raises :
      (id user : String) (req : UpdateProjectRequest) → Raises (Projects.update env id user req)
  unfolding Projects.update
  update_project-Raises id user req =
      row-then (ProjectRows.find_by_id env id) (not_found "not found") _ (omega arith) λ p.
        guard-then (p.owner_id == user) (forbidden "forbidden") _ (omega arith) (
          internal-then (ProjectRows.update env id req.name req.description) _
            λ updated. announce-Raises project_updated id user (of_project updated) updated)

  pub delete_project-Raises : (id user : String) → Raises (Projects.delete env id user)
  unfolding Projects.delete
  delete_project-Raises id user =
      row-then (ProjectRows.find_by_id env id) (not_found "not found") _ (omega arith) λ p.
        guard-then (p.owner_id == user) (forbidden "forbidden") _ (omega arith) (
          internal-then (ProjectRows.delete env id user) _ λ deleted.
            guard-then deleted (not_found "not found") _ (omega arith)
              (publish_event-Raises env project_deleted id user (of_id id)))

  name_for-Raises : (id : Option String) → Raises (name_for env id)
  unfolding name_for
  name_for-Raises none w e h = cc
  name_for-Raises (some id) w e h = cc

  name_counts-Raises :
      (rows : List AssigneeCount) (seen : List AssigneeTaskCount) (total : ℕ)
      → Raises (name_counts env rows seen total)
  unfolding name_counts
  name_counts-Raises [] seen total = pure-Raises (seen, total)
  name_counts-Raises (a ∷ rest) seen total =
      then-Raises (name_for env a.assignee_id) _ (name_for-Raises a.assignee_id)
        λ name. name_counts-Raises rest _ (total + a.count)

  pub stats-Raises : (id : String) → Raises (stats env id)
  unfolding stats
  stats-Raises id =
      row-then (ProjectRows.find_by_id env id) (not_found "not found") _ (omega arith) λ p.
        internal-then (count_by_status env id) _ λ by_status.
          internal-then (count_by_assignee env id) _ λ raw.
            then-Raises (name_counts env raw [] 0) _ (name_counts-Raises raw [] 0)
              λ counts. pure-Raises _
