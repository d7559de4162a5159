-- ===== src/Repository/Quiet.antt =====
-- The methods of the repositories leave the broker and the webhook dispatcher alone.
use task_flow_alisha_sharma.Common.{String, ◌≡◌, ◌∙◌, Option, none, some, find}
use task_flow_alisha_sharma.Common.Int.{ℤ}
use task_flow_alisha_sharma.Common.Exec.{ok}
use task_flow_alisha_sharma.Model.{Task}
use task_flow_alisha_sharma.Database.{Env, World, statement-bus}
use task_flow_alisha_sharma.Repository.Tasks
use task_flow_alisha_sharma.Repository.Projects

abbrev pub Quiet : World → World → Type 0
Quiet w v = (v.event_bus ≡ w.event_bus) × (v.webhook_disp ≡ w.webhook_disp)

pub Quiet-trans : (u v w : World) → Quiet u v → Quiet v w → Quiet u w
Quiet-trans u v w h k = (k.0 ∙ h.0, k.1 ∙ h.1)

module _ (env : Env) where
  pub find_task-Quiet : (id : String) (w : World) → Quiet w (Tasks.find_by_id env id w).1
  unfolding Tasks.find_by_id
  find_task-Quiet id w = statement-bus env (λ at db. (ok (find (Tasks.has_id id) db.tasks), db)) w

  pub create_task-Quiet : (t : Task) (w : World) → Quiet w (Tasks.create env t w).1
  unfolding Tasks.create
  create_task-Quiet t w = statement-bus env (Tasks.insert_task env t) w

  pub update_task-Quiet :
      (id : String) (version : ℤ) (us : Tasks.Updates) (w : World)
      → Quiet w (Tasks.update env id version us w).1
  unfolding Tasks.update
  update_task-Quiet id version us w = statement-bus env (Tasks.update_statement env id version us) w

  pub delete_task-Quiet : (id : String) (w : World) → Quiet w (Tasks.delete env id w).1
  unfolding Tasks.delete
  delete_task-Quiet id w = statement-bus env (Tasks.delete_statement id) w

  pub find_project-Quiet : (id : String) (w : World) → Quiet w (Projects.find_by_id env id w).1
  unfolding Projects.find_by_id
  find_project-Quiet id w =
      statement-bus env (λ at db. (ok (find (Projects.has_id id) db.projects), db)) w

  pub update_project-Quiet :
      (id : String) (name desc : Option String) (w : World)
      → Quiet w (Projects.update env id name desc w).1
  unfolding Projects.update
  update_project-Quiet id none none w = find_project-Quiet id w
  update_project-Quiet id none (some d) w =
      statement-bus env (Projects.update_statement id (Projects.changes none (some d))) w
  update_project-Quiet id (some n) d w =
      statement-bus env (Projects.update_statement id (Projects.changes (some n) d)) w

  pub delete_project-Quiet :
      (id owner : String) (w : World) → Quiet w (Projects.delete env id owner w).1
  unfolding Projects.delete
  delete_project-Quiet id owner w = statement-bus env (Projects.delete_statement id owner) w
