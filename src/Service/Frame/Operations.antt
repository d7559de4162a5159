-- ===== src/Service/Frame/Operations.antt =====
-- The operations of the task service and the project service, within a frame.
use task_flow_alisha_sharma.Common.{
  ℕ, suc, ◌+◌, ◌||◌, String, refl, ◌==◌, Option, none, some, List, [], ◌∷◌,
}
use task_flow_alisha_sharma.Common.Int.{ℤ, pos}
use task_flow_alisha_sharma.Common.Exec.{pure, ◌>>◌}
use task_flow_alisha_sharma.AppError.{not_found, forbidden, conflict}
use task_flow_alisha_sharma.Model.{
  Task, EventType, Payload, of_task, of_id, task_created, task_updated, task_deleted,
  project_deleted,
}
use task_flow_alisha_sharma.Database.{Env, World}
use task_flow_alisha_sharma.Pagination.{PaginationQuery, defaults, offset}
use task_flow_alisha_sharma.Repository.Tasks as TaskRows
use task_flow_alisha_sharma.Repository.Tasks.{Updates}
use task_flow_alisha_sharma.Repository.Tasks.Queries.{
  AssigneeCount, find_by_project, count_by_status, count_by_assignee,
}
use task_flow_alisha_sharma.Repository.Projects as ProjectRows
use task_flow_alisha_sharma.Service.Events.{or_internal, publish_event}
use task_flow_alisha_sharma.Service.Frame.{
  Frame, Framed, then-Framed, row-then, guard-then, publish_event-Framed,
}
use task_flow_alisha_sharma.Service.Frame.Rows as Rows
use task_flow_alisha_sharma.Service.Tasks.{
  CreateTaskRequest, UpdateTaskRequest, TaskFilterQuery, new_task, write_updates, updates_of,
  owned_by, filter_defaults, conflict_msg, list_tasks,
}
use task_flow_alisha_sharma.Service.Projects.{
  CreateProjectRequest, AssigneeTaskCount, name_for, name_counts, new_project, list_projects,
  get_by_id, stats,
}
use task_flow_alisha_sharma.Service.Tasks
use task_flow_alisha_sharma.Service.Projects

module _ {env : Env} {u : String} {R : World → World → Type 0} (fr : Frame env u R) where
  announce-Framed :
      {A : Type 0} (kind : EventType) (project actor : String) (payload : Payload) (a : A)
      → Framed fr (publish_event env kind project actor payload >> pure a)
  announce-Framed kind project actor payload a =
      then-Framed fr (publish_event env kind project actor payload) _
        (publish_event-Framed fr kind project actor payload) λ done w. fr.still w

  insert-Framed :
      (project user : String) (t : Task)
      → Framed fr (
          or_internal (TaskRows.create env t)
          >> (publish_event env task_created project user (of_task t) >> pure t))
  insert-Framed project user t =
      then-Framed fr (or_internal (TaskRows.create env t)) _ (Rows.create_task-Framed fr t)
        λ done. announce-Framed task_created project user (of_task t) t

  pub create_task-Framed :
      (project : String) (req : CreateTaskRequest) (user : String)
      → Framed fr (Tasks.create env project req user)
  unfolding Tasks.create
  create_task-Framed project req user =
      row-then fr (or_internal (ProjectRows.find_by_id env project)) (not_found "not found") _
        (Rows.find_project-Framed fr project)
        λ p w.
          let later = record w { ticks = suc (suc w.ticks) } in
          fr.trans w later _ (fr.ticks w (suc (suc w.ticks))) (
            insert-Framed project user
              (new_task project req user (env.new_uuid (suc w.ticks)) (env.clock w.ticks)) later)

  write_updates-Framed :
      (id : String) (version : ℤ) (us : Updates) (user : String) (existing : Task)
      → Framed fr (write_updates env id version us user existing)
  unfolding write_updates
  write_updates-Framed id version [] user existing = λ w. fr.still w
  write_updates-Framed id version (x ∷ us) user existing =
      row-then fr (or_internal (TaskRows.update env id version (x ∷ us))) (conflict conflict_msg) _
        (Rows.update_task-Framed fr id version (x ∷ us))
        λ updated. announce-Framed task_updated existing.project_id user (of_task updated) updated

  pub update_task-Framed :
      (id : String) (req : UpdateTaskRequest) (user : String)
      → Framed fr (Tasks.update env id req user)
  unfolding Tasks.update
  update_task-Framed id req user =
      row-then fr (or_internal (TaskRows.find_by_id env id)) (not_found "not found") _
        (Rows.find_task-Framed fr id)
        λ existing. write_updates-Framed id req.version (updates_of req) user existing

  pub delete_task-Framed : (id user : String) → Framed fr (Tasks.delete env id user)
  unfolding Tasks.delete
  delete_task-Framed id user =
      row-then fr (or_internal (TaskRows.find_by_id env id)) (not_found "not found") _
        (Rows.find_task-Framed fr id)
        λ task.
          then-Framed fr (or_internal (ProjectRows.find_by_id env task.project_id)) _
            (Rows.find_project-Framed fr task.project_id)
            λ p.
              guard-then fr (owned_by user p || task.creator_id == user) (forbidden "forbidden") _ (
                then-Framed fr (or_internal (TaskRows.delete env id)) _
                  (Rows.delete_task-Framed fr id)
                  λ deleted.
                    guard-then fr deleted (not_found "not found") _
                      (publish_event-Framed fr task_deleted task.project_id user (of_id id)))

  pub list_tasks-Framed :
      (project : String) (query : TaskFilterQuery) → Framed fr (list_tasks env project query)
  unfolding list_tasks
  list_tasks-Framed project query =
      row-then fr (or_internal (ProjectRows.find_by_id env project)) (not_found "not found") _
        (Rows.find_project-Framed fr project)
        λ p.
          let f = filter_defaults query in
          Rows.find_by_project-Framed fr project
            (record { status = f.status; assignee = f.assignee }) f.paging.limit (offset f.paging)

  pub create_project-Framed : (req : CreateProjectRequest) → Framed fr (Projects.create env req u)
  unfolding Projects.create
  create_project-Framed req w =
      let p = new_project req u (env.new_uuid w.ticks) (env.clock (suc w.ticks)) in
      let later = record w { ticks = suc (suc w.ticks) } in
      fr.trans w later _ (fr.ticks w (suc (suc w.ticks))) (
        then-Framed fr (or_internal (ProjectRows.create env p)) _
          (Rows.create_project-Framed fr p refl) (λ done v. fr.still v) later)

  pub list_projects-Framed :
      (user : String) (pq : PaginationQuery) → Framed fr (list_projects env user pq)
  unfolding list_projects
  list_projects-Framed user pq =
      Rows.find_by_user-Framed fr user (defaults pq).limit (offset (defaults pq))

  pub get_project-Framed : (id : String) → Framed fr (get_by_id env id)
  unfolding get_by_id
  get_project-Framed id =
      row-then fr (or_internal (ProjectRows.find_by_id env id)) (not_found "not found") _
        (Rows.find_project-Framed fr id)
        λ p.
          then-Framed fr
            (or_internal
              (find_by_project env id (record { status = ""; assignee = "" }) (pos 1000) (pos 0)))
            _
            (Rows.find_by_project-Framed fr id (record { status = ""; assignee = "" }) (pos 1000)
              (pos 0))
            λ page w. fr.still w

  pub delete_project-Framed : (id : String) → Framed fr (Projects.delete env id u)
  unfolding Projects.delete
  delete_project-Framed id =
      row-then fr (or_internal (ProjectRows.find_by_id env id)) (not_found "not found") _
        (Rows.find_project-Framed fr id)
        λ p. guard-then fr (p.owner_id == u) (forbidden "forbidden") _ (
          then-Framed fr (or_internal (ProjectRows.delete env id u)) _
            (Rows.delete_project-Framed fr id)
            λ deleted.
              guard-then fr deleted (not_found "not found") _
                (publish_event-Framed fr project_deleted id u (of_id id)))

  name_for-Framed : (id : Option String) → Framed fr (name_for env id)
  unfolding name_for
  name_for-Framed none w = fr.still w
  name_for-Framed (some id) w = Rows.find_name-Framed fr id w

  name_counts-Framed :
      (rows : List AssigneeCount) (seen : List AssigneeTaskCount) (total : ℕ)
      → Framed fr (name_counts env rows seen total)
  unfolding name_counts
  name_counts-Framed [] seen total = λ w. fr.still w
  name_counts-Framed (a ∷ rest) seen total =
      then-Framed fr (name_for env a.assignee_id) _ (name_for-Framed a.assignee_id)
        λ name. name_counts-Framed rest _ (total + a.count)

  pub stats-Framed : (id : String) → Framed fr (stats env id)
  unfolding stats
  stats-Framed id =
      row-then fr (or_internal (ProjectRows.find_by_id env id)) (not_found "not found") _
        (Rows.find_project-Framed fr id)
        λ p.
          then-Framed fr (or_internal (count_by_status env id)) _
            (Rows.count_by_status-Framed fr id)
            λ by_status.
              then-Framed fr (or_internal (count_by_assignee env id)) _
                (Rows.count_by_assignee-Framed fr id)
                λ raw.
                  then-Framed fr (name_counts env raw [] 0) _ (name_counts-Framed raw [] 0)
                    λ counts w. fr.still w
