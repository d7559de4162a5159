-- ===== src/Repository/Tasks/Spares.antt =====
-- The statements on the tasks table write no other table.
use task_flow_alisha_sharma.Common.{
  ℕ, String, refl, inl, inr, Option, none, some, Option-cases, Bool-cases, find, any, not, ◌&&◌,
  ◌++◌, List, [], ◌∷◌,
}
use task_flow_alisha_sharma.Common.Int.{ℤ}
use task_flow_alisha_sharma.Model.{Task}
use task_flow_alisha_sharma.Database.{Db, Env, is_status, is_priority}
use task_flow_alisha_sharma.Database.Others.{Sparing, Sparing-refl, Harmless}
use task_flow_alisha_sharma.Repository.Tasks.{
  Updates, check_row, has_id, at_version, bind_columns, fits_int4, write_row, insert_row,
  update_row, updated_row, due_date_bind, insert_task, update_statement, delete_statement,
}

write_row-Sparing :
    {A : Type 0} (u : String) (db : Db) (row : Task) (a : A) (after : Db)
    → Sparing u db after
    → Sparing u db (write_row db row a after).1
unfolding write_row
write_row-Sparing u db row a after h = elim (Option-cases (check_row db row)) [
  | inl fine ↦ rw (fine, write_row) h
  | inr (e, bad) ↦ rw (bad, write_row) (Sparing-refl u db)
]

tasks-Sparing : (u : String) (db : Db) (ts : List Task) → Sparing u db (record db { tasks = ts })
tasks-Sparing u db ts = record {
  projects = refl;
  subscriptions = refl;
  users = refl;
  refresh_tokens = refl;
  keyed = λ d. d;
}

insert_row-Sparing : (u : String) (db : Db) (row : Task) → Sparing u db (insert_row db row).1
unfolding insert_row
insert_row-Sparing u db row =
    let written =
      write_row-Sparing u db row tt (record db { tasks = db.tasks ++ row ∷ [] })
        (tasks-Sparing u db (db.tasks ++ row ∷ [])) in
    elim (Bool-cases (not (is_status row.status && is_priority row.priority))) [
      | inl bad ↦ rw bad (Sparing-refl u db)
      | inr valid ↦ elim (Bool-cases (any (has_id row.id) db.tasks)) [
        | inl taken ↦ rw (valid, taken) (Sparing-refl u db)
        | inr free ↦ rw (valid, free) written
      ]
    ]

pub insert_task-Harmless : (env : Env) (u : String) (t : Task) → Harmless u (insert_task env t)
unfolding insert_task
insert_task-Harmless env u t at db = elim (Option-cases (due_date_bind env t.due_date)) [
  | inl bad ↦ rw (bad, insert_task) (Sparing-refl u db)
  | inr (due, fine) ↦
      rw (fine, insert_task) (insert_row-Sparing u db (record t { due_date = due; version = 1 }))
]

update_row-Sparing :
    (u : String) (at : ℕ) (id : String) (version : ℤ) (us : Updates) (db : Db) (found : Option Task)
    → Sparing u db (update_row at id version us db found).1
unfolding update_row
update_row-Sparing u at id version us db none = Sparing-refl u db
update_row-Sparing u at id version us db (some t) =
    write_row-Sparing u db (updated_row at us t) (some (updated_row at us t)) _
      (tasks-Sparing u db _)

pub update_statement-Harmless :
    (env : Env) (u id : String) (version : ℤ) (us : Updates)
    → Harmless u (update_statement env id version us)
unfolding update_statement
update_statement-Harmless env u id version us at db = elim (Bool-cases (fits_int4 version)) [
  | inr big ↦ rw big (Sparing-refl u db)
  | inl small ↦ elim (Option-cases (bind_columns env us)) [
    | inl bad ↦ rw (small, bad, update_statement) (Sparing-refl u db)
    | inr (bound, fine) ↦
        rw (small, fine, update_statement)
          (update_row-Sparing u at id version bound db (find (at_version id version) db.tasks))
  ]
]

pub delete_statement-Harmless : (u id : String) → Harmless u (delete_statement id)
unfolding delete_statement
delete_statement-Harmless u id at db = tasks-Sparing u db _
