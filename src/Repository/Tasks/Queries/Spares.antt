-- ===== src/Repository/Tasks/Queries/Spares.antt =====
-- The queries write nothing.
use task_flow_alisha_sharma.Common.{String, inl, inr, Option-cases, Bool-cases, select}
use task_flow_alisha_sharma.Common.Int.{ℤ}
use task_flow_alisha_sharma.Database.{Env}
use task_flow_alisha_sharma.Database.Others.{Sparing-refl, Harmless}
use task_flow_alisha_sharma.Repository.Tasks.Queries.{
  TaskFilter, filter_valid, matches, slice, newest_first, count_statement, page_statement,
}

pub count_statement-Harmless :
    (env : Env) (u project : String) (filter : TaskFilter)
    → Harmless u (count_statement env project filter)
unfolding count_statement
count_statement-Harmless env u project filter at db = elim (Bool-cases (filter_valid filter)) [
  | inl valid ↦ rw valid (Sparing-refl u db)
  | inr bad ↦ rw bad (Sparing-refl u db)
]

pub page_statement-Harmless :
    (env : Env) (u project : String) (filter : TaskFilter) (limit offset : ℤ)
    → Harmless u (page_statement env project filter limit offset)
unfolding page_statement
page_statement-Harmless env u project filter limit offset at db =
    let rows = slice limit offset (newest_first (select (matches project filter) db.tasks)) in
    elim (Bool-cases (filter_valid filter)) [
      | inr bad ↦ rw bad (Sparing-refl u db)
      | inl valid ↦ elim (Option-cases rows) [
        | inl e ↦ rw (valid, e, page_statement) (Sparing-refl u db)
        | inr (page, e) ↦ rw (valid, e, page_statement) (Sparing-refl u db)
      ]
    ]
