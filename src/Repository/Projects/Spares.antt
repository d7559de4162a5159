-- ===== src/Repository/Projects/Spares.antt =====
-- The statements on the projects table leave the projects of other users alone.
use task_flow_alisha_sharma.Common.{
  String, ◌≡◌, refl, inl, inr, not, List, [], ◌∷◌, ◌++◌, select, arith, eq_iff, Option-cases,
}
use task_flow_alisha_sharma.Common.Int.{ℤ}
use task_flow_alisha_sharma.Model.{Project}
use task_flow_alisha_sharma.Database.Others.{foreign_projects, Sparing-refl, Harmless}
use task_flow_alisha_sharma.Repository.Tasks.Queries.{slice}
use task_flow_alisha_sharma.Repository.Projects.Keys.{
  insert_project-Distinct, delete_statement-Distinct,
}
use task_flow_alisha_sharma.Repository.Projects.{
  insert_project, page_statement, newest_first, involves, owned_row, delete_statement,
}

foreign-append :
    (u : String) (ps : List Project) (p : Project)
    → p.owner_id ≡ u
    → foreign_projects u (ps ++ p ∷ []) ≡ foreign_projects u ps
unfolding select
foreign-append u [] p mine = ground (arith, mine, eq_iff p.owner_id u)
foreign-append u (q ∷ ps) p mine = ground (arith, foreign-append u ps p mine)

foreign-delete :
    (u id : String) (ps : List Project)
    → foreign_projects u (select (λ p. not (owned_row id u p)) ps) ≡ foreign_projects u ps
unfolding select
foreign-delete u id [] = refl
foreign-delete u id (p ∷ ps) = ground (arith, foreign-delete u id ps)

pub insert_project-Harmless :
    (u : String) (p : Project) → p.owner_id ≡ u → Harmless u (insert_project p)
unfolding insert_project
insert_project-Harmless u p mine at db = record {
  projects = ground (arith, foreign-append u db.projects p mine);
  subscriptions = ground arith;
  users = ground arith;
  refresh_tokens = ground arith;
  keyed = insert_project-Distinct p at db;
}

pub page_statement-Harmless :
    (u user : String) (limit offset : ℤ) → Harmless u (page_statement user limit offset)
unfolding page_statement
page_statement-Harmless u user limit offset at db =
    elim (Option-cases
      (slice limit offset (newest_first (select (involves user db.tasks) db.projects)))) [
        | inl e ↦ rw (e, page_statement) (Sparing-refl u db)
        | inr (rows, e) ↦ rw (e, page_statement) (Sparing-refl u db)
      ]

pub delete_statement-Harmless : (u id : String) → Harmless u (delete_statement id u)
unfolding delete_statement
delete_statement-Harmless u id at db = record {
  projects = ground (arith, foreign-delete u id db.projects);
  subscriptions = ground arith;
  users = ground arith;
  refresh_tokens = ground arith;
  keyed = delete_statement-Distinct id u at db;
}
