-- ===== src/Service/Projects/Editing.antt =====
-- Who may change a project: `ProjectService.Update`.
use task_flow_alisha_sharma.Common.{String, ◌≡◌, ◌∙◌, Option, some, true, ◌==◌}
use task_flow_alisha_sharma.Common.Exec.{ok}
use task_flow_alisha_sharma.Model.{Project, project_updated, of_project}
use task_flow_alisha_sharma.AppError.{forbidden, not_found}
use task_flow_alisha_sharma.Database.{Env, World}
use task_flow_alisha_sharma.Repository.Projects
use task_flow_alisha_sharma.Repository.Quiet.{find_project-Quiet, update_project-Quiet}
use task_flow_alisha_sharma.Service.Announce.{
  Announced, announce_lem, or_internal-then, or_missing-then, guard-then,
}
use task_flow_alisha_sharma.Service.Projects.{UpdateProjectRequest, update}

-- An `Update` that succeeds has read the project, whose owner is the user; its answer is what the
-- UPDATE statement after that returned, which is no row where the project has gone in between; and
-- the event of the update, with that answer as payload, has been handed to the broker and to the
-- webhook dispatcher.
pub project_update_ok :
    (env : Env) (id user : String) (req : UpdateProjectRequest) (updated : Option Project)
    (w : World)
    → (update env id user req w).0 ≡ ok updated
    → (p : Project) × ((Projects.find_by_id env id w).0 ≡ ok (some p))
      × ((p.owner_id == user) ≡ true)
      × (let w₁ = (Projects.find_by_id env id w).1 in
          (Projects.update env id req.name req.description w₁).0 ≡ ok updated)
      × Announced project_updated id user (of_project updated) w (update env id user req w).1
unfolding update
project_update_ok env id user req updated w h =
    let r1 = or_internal-then (Projects.find_by_id env id) _ w h in
    let w₁ = (Projects.find_by_id env id w).1 in
    let r2 = or_missing-then (not_found "not found") r1.0 _ w₁ r1.2 in
    let r3 = guard-then (r2.0.owner_id == user) (forbidden "forbidden") _ w₁ r2.2 in
    let r4 = or_internal-then (Projects.update env id req.name req.description) _ w₁ r3.1 in
    let w₂ = (Projects.update env id req.name req.description w₁).1 in
    let q1 = find_project-Quiet env id w in
    let q2 = update_project-Quiet env id req.name req.description w₁ in
    let told =
      announce_lem env project_updated id user (of_project r4.0) r4.0 w w₂ (q2.0 ∙ q1.0)
        (q2.1 ∙ q1.1) in
    let same : r4.0 ≡ updated = cc (told.0, r4.2) in
    (
      r2.0,
      cc (r1.1, r2.1),
      r3.0,
      rw same at r4.1,
      rw (r1.3, r2.3, r3.2, r4.3, same)
          (announce_lem env project_updated id user (of_project updated) updated w w₂ (q2.0 ∙ q1.0)
            (q2.1 ∙ q1.1)).1,
    )
