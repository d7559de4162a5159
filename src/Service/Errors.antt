-- ===== src/Service/Errors.antt =====
-- An operation that fails has told nobody of anything.
use task_flow_alisha_sharma.Common.{
  suc, String, ◌≡◌, refl, inl, inr, Option, none, some, Bool, true, false, [], ◌∷◌,
}
use task_flow_alisha_sharma.Common.Int.{ℤ}
use task_flow_alisha_sharma.Common.Exec.{Result, ok, err, pure, continue, Result-cases, ◌>>=◌, ◌>>◌}
use task_flow_alisha_sharma.Model.{EventType, Payload, Task, task_created, of_task}
use task_flow_alisha_sharma.AppError.{AppError}
use task_flow_alisha_sharma.Database.{Env, World}
use task_flow_alisha_sharma.Repository.Tasks as TaskRepository
use task_flow_alisha_sharma.Repository.Projects as ProjectRepository
use task_flow_alisha_sharma.Service.Events.{App, or_internal, or_missing, guard, publish_event}
use task_flow_alisha_sharma.Repository.Quiet.{
  Quiet, Quiet-trans, find_task-Quiet, create_task-Quiet, update_task-Quiet, delete_task-Quiet,
  find_project-Quiet, update_project-Quiet, delete_project-Quiet,
}
use task_flow_alisha_sharma.Service.Tasks.{
  CreateTaskRequest, UpdateTaskRequest, write_updates, updates_of, new_task,
}
use task_flow_alisha_sharma.Service.Tasks
use task_flow_alisha_sharma.Service.Projects.{UpdateProjectRequest}
use task_flow_alisha_sharma.Service.Projects

abbrev Hushed : {A : Type 0} → App A → Type 0
Hushed m = (w : World) (e : AppError) → (m w).0 ≡ err e → Quiet w (m w).1

-- Where this end of an operation that began in `w` is an error, nobody was told.
abbrev pub Silent : {A : Type 0} → World → Result AppError A × World → Type 0
Silent w (ok a, v) = Unit
Silent w (err e, v) = Quiet w v

Hushed-Silent : {A : Type 0} (m : App A) → Hushed m → (w : World) → Silent w (m w)
Hushed-Silent m hushed w = elim (Result-cases (m w).0) [
  | inl (a, done) ↦ rw (done, Silent) tt
  | inr (e, failed) ↦ rw (failed, Silent) (hushed w e failed)
]

module _ {A B : Type 0} where
  then-Hushed :
      (m : App A) (f : A → App B)
      → ((w : World) → Quiet w (m w).1)
      → ((a : A) → Hushed (f a))
      → Hushed (m >>= f)
  then-Hushed m f quiet hushed w e h = elim (Result-cases (m w).0) [
    | inl (a, done) ↦
        rw (done, continue)
          (Quiet-trans w (m w).1 (f a (m w).1).1 (quiet w)
            (hushed a (m w).1 e (rw (done, continue) at h)))
    | inr (x, failed) ↦ rw (failed, continue) (quiet w)
  ]

  or_missing-Hushed :
      (x : AppError) (o : Option A) (f : A → App B)
      → ((a : A) → Hushed (f a))
      → Hushed (or_missing x o >>= f)
  or_missing-Hushed x none f hushed w e h = (refl, refl)
  or_missing-Hushed x (some a) f hushed w e h = hushed a w e h

guard-Hushed :
    {B : Type 0} (b : Bool) (x : AppError) (m : App B) → Hushed m → Hushed (guard b x >> m)
guard-Hushed true x m hushed w e h = hushed w e h
guard-Hushed false x m hushed w e h = (refl, refl)

module _ (env : Env) where
  publish-Hushed :
      {A : Type 0} (kind : EventType) (project actor : String) (payload : Payload) (a : A)
      → Hushed (publish_event env kind project actor payload >> pure a)
  unfolding publish_event
  publish-Hushed kind project actor payload a w e h = cc

  publish_event-Hushed :
      (kind : EventType) (project actor : String) (payload : Payload)
      → Hushed (publish_event env kind project actor payload)
  unfolding publish_event
  publish_event-Hushed kind project actor payload w e h = cc

  insert-Hushed :
      (project user : String) (t : Task)
      → Hushed (
          or_internal (TaskRepository.create env t)
          >> (publish_event env task_created project user (of_task t) >> pure t))
  insert-Hushed project user t =
      then-Hushed (or_internal (TaskRepository.create env t)) _ (create_task-Quiet env t)
        λ done. publish-Hushed task_created project user (of_task t) t

  create-Hushed :
      (project : String) (req : CreateTaskRequest) (user : String)
      → Hushed (Tasks.create env project req user)
  unfolding Tasks.create
  create-Hushed project req user =
      then-Hushed (or_internal (ProjectRepository.find_by_id env project)) _
        (find_project-Quiet env project)
        λ found. or_missing-Hushed _ found _ λ p w e h.
          insert-Hushed project user
            (new_task project req user (env.new_uuid (suc w.ticks)) (env.clock w.ticks))
            (record w { ticks = suc (suc w.ticks) }) e h

  write_updates-Hushed :
      (id : String) (version : ℤ) (us : TaskRepository.Updates) (user : String) (existing : Task)
      → Hushed (write_updates env id version us user existing)
  unfolding write_updates
  write_updates-Hushed id version [] user existing = λ w e h. (refl, refl)
  write_updates-Hushed id version (u ∷ us) user existing =
      then-Hushed (or_internal (TaskRepository.update env id version (u ∷ us))) _
        (update_task-Quiet env id version (u ∷ us))
        λ result.
          or_missing-Hushed _ result _ λ updated. publish-Hushed _ existing.project_id user _ _

  update-Hushed :
      (id : String) (req : UpdateTaskRequest) (user : String)
      → Hushed (Tasks.update env id req user)
  unfolding Tasks.update
  update-Hushed id req user =
      then-Hushed (or_internal (TaskRepository.find_by_id env id)) _ (find_task-Quiet env id)
        λ found.
          or_missing-Hushed _ found _
            λ existing. write_updates-Hushed id req.version (updates_of req) user existing

  delete-Hushed : (id user : String) → Hushed (Tasks.delete env id user)
  unfolding Tasks.delete
  delete-Hushed id user =
      then-Hushed (or_internal (TaskRepository.find_by_id env id)) _ (find_task-Quiet env id)
        λ found. or_missing-Hushed _ found _ λ task.
          then-Hushed (or_internal (ProjectRepository.find_by_id env task.project_id)) _
            (find_project-Quiet env task.project_id)
            λ p. guard-Hushed _ _ _ (
              then-Hushed (or_internal (TaskRepository.delete env id)) _ (delete_task-Quiet env id)
                λ deleted. guard-Hushed deleted _ _ (publish_event-Hushed _ task.project_id user _))

  update_project-Hushed :
      (id user : String) (req : UpdateProjectRequest) → Hushed (Projects.update env id user req)
  unfolding Projects.update
  update_project-Hushed id user req =
      then-Hushed (or_internal (ProjectRepository.find_by_id env id)) _ (find_project-Quiet env id)
        λ found. or_missing-Hushed _ found _ λ p. guard-Hushed _ _ _ (
          then-Hushed (or_internal (ProjectRepository.update env id req.name req.description)) _
            (update_project-Quiet env id req.name req.description)
            λ updated. publish-Hushed _ id user _ _)

  delete_project-Hushed : (id user : String) → Hushed (Projects.delete env id user)
  unfolding Projects.delete
  delete_project-Hushed id user =
      then-Hushed (or_internal (ProjectRepository.find_by_id env id)) _ (find_project-Quiet env id)
        λ found. or_missing-Hushed _ found _ λ p. guard-Hushed _ _ _ (
          then-Hushed (or_internal (ProjectRepository.delete env id user)) _
            (delete_project-Quiet env id user)
            λ deleted. guard-Hushed deleted _ _ (publish_event-Hushed _ id user _))

  -- An operation on a task or a project that returns an error, whichever and wherever it arose, has
  -- handed no event to the broker or to the webhook dispatcher.
  pub errors_announce_nothing :
      (id user : String) (new : CreateTaskRequest) (patch : UpdateTaskRequest)
      (change : UpdateProjectRequest) (w : World)
      → Silent w (Tasks.create env id new user w)
        × Silent w (Tasks.update env id patch user w)
        × Silent w (Tasks.delete env id user w)
        × Silent w (Projects.update env id user change w)
        × Silent w (Projects.delete env id user w)
  errors_announce_nothing id user new patch change w = (
    Hushed-Silent (Tasks.create env id new user) (create-Hushed id new user) w,
    Hushed-Silent (Tasks.update env id patch user) (update-Hushed id patch user) w,
    Hushed-Silent (Tasks.delete env id user) (delete-Hushed id user) w,
    Hushed-Silent (Projects.update env id user change) (update_project-Hushed id user change) w,
    Hushed-Silent (Projects.delete env id user) (delete_project-Hushed id user) w,
  )
