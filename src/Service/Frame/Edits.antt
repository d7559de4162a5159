-- ===== src/Service/Frame/Edits.antt =====
-- `Update` of backend/internal/service/project.go, within a frame that its UPDATE keeps to for the
-- owner of the row.
use task_flow_alisha_sharma.Common.{String, ◌≡◌, ◌∙◌, refl, some, true, ◌==◌}
use task_flow_alisha_sharma.Common.Exec.{ok, wrap_error-eq-ok}
use task_flow_alisha_sharma.Model.{Project, project_updated, of_project}
use task_flow_alisha_sharma.AppError.{not_found, forbidden}
use task_flow_alisha_sharma.Database.{Env, World}
use task_flow_alisha_sharma.Repository.Projects as ProjectRows
use task_flow_alisha_sharma.Service.Events.{or_internal, publish_event}
use task_flow_alisha_sharma.Service.Projects.{UpdateProjectRequest, update}
use task_flow_alisha_sharma.Service.Frame.{
  Frame, then-within, then-Framed, or_missing-within, guard-within, publish_event-Framed,
}
use task_flow_alisha_sharma.Service.Frame.Rows as Rows

module _ {env : Env} {u : String} {R : World → World → Type 0} (fr : Frame env u R) where
  pub update_project-within :
      (id : String) (req : UpdateProjectRequest) (w : World)
      → (let v = (ProjectRows.find_by_id env id w).1 in
          (p : Project)
          → (ProjectRows.find_by_id env id w).0 ≡ ok (some p)
          → (p.owner_id == u) ≡ true
          → R v (ProjectRows.update env id req.name req.description v).1)
      → R w (update env id u req w).1
  unfolding update
  update_project-within id req w edits =
      then-within fr (or_internal (ProjectRows.find_by_id env id)) _ w
        (Rows.find_project-Framed fr id w)
        λ found read. or_missing-within fr (not_found "not found") found _ _ λ p there.
          guard-within fr (p.owner_id == u) (forbidden "forbidden") _ _ λ mine.
            then-within fr (or_internal (ProjectRows.update env id req.name req.description)) _ _
              (edits p (wrap_error-eq-ok _ (ProjectRows.find_by_id env id) w read ∙ rw there refl)
                mine)
              λ updated done.
                then-Framed fr (publish_event env project_updated id u (of_project updated)) _
                  (publish_event-Framed fr project_updated id u (of_project updated))
                  (λ told v. fr.still v) _
