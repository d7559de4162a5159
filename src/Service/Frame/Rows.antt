-- ===== src/Service/Frame/Rows.antt =====
-- The methods of the repositories that a user's requests call, within a frame.
use task_flow_alisha_sharma.Common.{suc, length, select, arith, String, ◌≡◌}
use task_flow_alisha_sharma.Common.Int.{ℤ}
use task_flow_alisha_sharma.Common.Exec.{ok}
use task_flow_alisha_sharma.Model.{Task, Project, WebhookSubscription}
use task_flow_alisha_sharma.Database.{Env, World, Repo, seen, statement}
use task_flow_alisha_sharma.Database.Others.{Sparing-refl}
use task_flow_alisha_sharma.Repository.Tasks
use task_flow_alisha_sharma.Repository.Tasks.Spares as TaskSpares
use task_flow_alisha_sharma.Repository.Tasks.Queries.{
  TaskFilter, find_by_project, count_statement, page_statement, count_by_status, count_by_assignee,
}
use task_flow_alisha_sharma.Repository.Tasks.Queries.Spares as QuerySpares
use task_flow_alisha_sharma.Repository.Projects
use task_flow_alisha_sharma.Repository.Projects.Spares as ProjectSpares
use task_flow_alisha_sharma.Repository.Users
use task_flow_alisha_sharma.Repository.Webhooks
use task_flow_alisha_sharma.Repository.Webhooks.Spares as WebhookSpares
use task_flow_alisha_sharma.Service.Frame.{Frame, Framed, then-Framed}

module _ {env : Env} {u : String} {R : World → World → Type 0} (fr : Frame env u R) where
  -- What a statement that only reads leaves.
  abbrev looked : World → World
  looked w = record w { db = seen env w; ticks = suc w.ticks }

  statement-looked : (w : World) → (statement env (λ at db. (ok tt, db)) w).1 ≡ looked w
  unfolding statement
  statement-looked w = ground arith

  pub read-Framed : {A : Type 0} (m : Repo A) → ((w : World) → (m w).1 ≡ looked w) → Framed fr m
  read-Framed m same w =
      rw (same w, ← (statement-looked w))
        (fr.runs (Unit {0}) (λ at db. (ok tt, db)) (λ at db. Sparing-refl u db) w)

  pub find_task-Framed : (id : String) → Framed fr (Tasks.find_by_id env id)
  unfolding Tasks.find_by_id
  find_task-Framed id = read-Framed (Tasks.find_by_id env id) λ w. ground arith

  pub create_task-Framed : (t : Task) → Framed fr (Tasks.create env t)
  unfolding Tasks.create
  create_task-Framed t =
      fr.runs _ (Tasks.insert_task env t) (TaskSpares.insert_task-Harmless env u t)

  pub update_task-Framed :
      (id : String) (version : ℤ) (us : Tasks.Updates) → Framed fr (Tasks.update env id version us)
  unfolding Tasks.update
  update_task-Framed id version us =
      fr.runs _ (Tasks.update_statement env id version us)
        (TaskSpares.update_statement-Harmless env u id version us)

  pub delete_task-Framed : (id : String) → Framed fr (Tasks.delete env id)
  unfolding Tasks.delete
  delete_task-Framed id =
      fr.runs _ (Tasks.delete_statement id) (TaskSpares.delete_statement-Harmless u id)

  pub find_by_project-Framed :
      (project : String) (filter : TaskFilter) (limit offset : ℤ)
      → Framed fr (find_by_project env project filter limit offset)
  unfolding find_by_project
  find_by_project-Framed project filter limit offset =
      then-Framed fr (statement env (count_statement env project filter)) _
        (fr.runs _ (count_statement env project filter)
          (QuerySpares.count_statement-Harmless env u project filter))
        λ total.
          then-Framed fr (statement env (page_statement env project filter limit offset)) _
            (fr.runs _ (page_statement env project filter limit offset)
              (QuerySpares.page_statement-Harmless env u project filter limit offset))
            λ tasks w. fr.still w

  pub count_by_status-Framed : (project : String) → Framed fr (count_by_status env project)
  unfolding count_by_status
  count_by_status-Framed project = read-Framed (count_by_status env project) λ w. ground arith

  pub count_by_assignee-Framed : (project : String) → Framed fr (count_by_assignee env project)
  unfolding count_by_assignee
  count_by_assignee-Framed project = read-Framed (count_by_assignee env project) λ w. ground arith

  pub find_project-Framed : (id : String) → Framed fr (Projects.find_by_id env id)
  unfolding Projects.find_by_id
  find_project-Framed id = read-Framed (Projects.find_by_id env id) λ w. ground arith

  pub create_project-Framed : (p : Project) → p.owner_id ≡ u → Framed fr (Projects.create env p)
  unfolding Projects.create
  create_project-Framed p mine =
      fr.runs _ (Projects.insert_project p) (ProjectSpares.insert_project-Harmless u p mine)

  pub delete_project-Framed : (id : String) → Framed fr (Projects.delete env id u)
  unfolding Projects.delete
  delete_project-Framed id =
      fr.runs _ (Projects.delete_statement id u) (ProjectSpares.delete_statement-Harmless u id)

  pub find_by_user-Framed :
      (user : String) (limit offset : ℤ) → Framed fr (Projects.find_by_user env user limit offset)
  unfolding Projects.find_by_user
  find_by_user-Framed user limit offset =
      then-Framed fr
        (statement env
          (λ at db. (ok (length (select (Projects.involves user db.tasks) db.projects)), db)))
        _
        (read-Framed
          (statement env
            (λ at db. (ok (length (select (Projects.involves user db.tasks) db.projects)), db)))
          λ w. ground arith)
        λ total.
          then-Framed fr (statement env (Projects.page_statement user limit offset)) _
            (fr.runs _ (Projects.page_statement user limit offset)
              (ProjectSpares.page_statement-Harmless u user limit offset))
            λ projects w. fr.still w

  pub member-Framed : (pid user : String) → Framed fr (Projects.is_user_in_project env pid user)
  unfolding Projects.is_user_in_project
  member-Framed pid user = read-Framed (Projects.is_user_in_project env pid user) λ w. ground arith

  pub find_name-Framed : (id : String) → Framed fr (Users.find_name_by_id env id)
  unfolding Users.find_name_by_id
  find_name-Framed id = read-Framed (Users.find_name_by_id env id) λ w. ground arith

  pub find_webhooks-Framed : (user : String) → Framed fr (Webhooks.find_by_user env user)
  unfolding Webhooks.find_by_user
  find_webhooks-Framed user = read-Framed (Webhooks.find_by_user env user) λ w. ground arith

  pub create_webhook-Framed :
      (s : WebhookSubscription) → s.user_id ≡ u → Framed fr (Webhooks.create env s)
  unfolding Webhooks.create
  create_webhook-Framed s mine =
      fr.runs _ (Webhooks.insert_subscription s)
        (WebhookSpares.insert_subscription-Harmless u s mine)

  pub delete_webhook-Framed : (id : String) → Framed fr (Webhooks.delete env id u)
  unfolding Webhooks.delete
  delete_webhook-Framed id =
      fr.runs _ (WebhookSpares.delete_statement id u) (WebhookSpares.delete_statement-Harmless u id)
