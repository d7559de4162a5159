-- ===== src/Repository/Tasks.antt =====
-- backend/internal/repository/task.go: the statements that read or write one row.
pub mod Spares
pub mod Queries
pub mod Update
pub mod Rows
pub mod Versions
pub mod Typed
use task_flow_alisha_sharma.Common.{
  ℕ, ◌+◌, String, Option, none, some, Bool, true, not, ◌&&◌, List, [], ◌∷◌, ◌++◌, ◌==◌, ltb,
  if◌then◌else◌, find, any, select, modify,
}
use task_flow_alisha_sharma.Common.Int.{ℤ, pos, negsuc, eqb_ℤ, leb_ℤ}
use task_flow_alisha_sharma.Common.Exec.{Result, ok, err}
use task_flow_alisha_sharma.Model.{Task}
use task_flow_alisha_sharma.AppError.{
  DbError, duplicate_key, foreign_key, invalid_input, too_long, out_of_range,
}
use task_flow_alisha_sharma.Database.{
  Db, Env, Repo, Statement, statement, is_status, is_priority, user_exists, project_exists,
  max_int4, fits,
}

-- The columns that `TaskService.Update` puts into its map, and the map as the list of its entries.
pub data Column : Type 0 where
  title description status priority assignee_id due_date : Column

abbrev pub Updates : Type 0
Updates = List (Column × String)

abbrev pub has_id : String → Task → Bool
has_id id t = t.id == id

-- A parameter is converted to its column's type before the statement runs.
abbrev pub bind_column : Env → Column → String → Option String
bind_column env status v = if is_status v then some v else none
bind_column env priority v = if is_priority v then some v else none
bind_column env due_date v = env.date_text v
bind_column env _ v = some v

unfoldable pub bind_columns : Env → Updates → Option Updates
bind_columns env [] = some []
bind_columns env ((c, v) ∷ us) = elim (bind_column env c v) [
  | none ↦ none
  | some v' ↦ elim (bind_columns env us) [ none ↦ none | some us' ↦ some ((c, v') ∷ us') ]
]

abbrev pub assign : Column → String → Task → Task
assign title v t = record t { title = v }
assign description v t = record t { description = some v }
assign status v t = record t { status = v }
assign priority v t = record t { priority = v }
assign assignee_id v t = record t { assignee_id = some v }
assign due_date v t = record t { due_date = some v }

unfoldable pub assign_all : Updates → Task → Task
assign_all [] t = t
assign_all ((c, v) ∷ us) t = assign_all us (assign c v t)

abbrev assignee_exists : Option String → Db → Bool
assignee_exists none db = true
assignee_exists (some id) db = user_exists id db

-- The constraints of the table on a row that is written: VARCHAR(255), INTEGER, and the three
-- foreign keys.
unfoldable pub check_row : Db → Task → Option DbError
check_row db t =
    if not (fits 255 t.title)
    then some too_long
    else if ltb max_int4 t.version
    then some out_of_range
    else if project_exists t.project_id db
        && user_exists t.creator_id db
        && assignee_exists t.assignee_id db
    then none
    else some foreign_key

write_row : {A : Type 0} → Db → Task → A → Db → Result DbError A × Db
write_row db t a db' = elim (check_row db t) [ some e ↦ (err e, db) | none ↦ (ok a, db') ]

abbrev due_date_bind : Env → Option String → Option (Option String)
due_date_bind env none = some none
due_date_bind env (some d) = elim (env.date_text d) [ none ↦ none | some d' ↦ some (some d') ]

insert_row : Db → Task → Result DbError (Unit {0}) × Db
unfolding write_row
insert_row db row =
    if not (is_status row.status && is_priority row.priority)
    then (err invalid_input, db)
    else if any (has_id row.id) db.tasks
    then (err duplicate_key, db)
    else write_row db row tt (record db { tasks = db.tasks ++ row ∷ [] })

pub insert_task : Env → Task → Statement (Unit {0})
unfolding insert_row
insert_task env t at db = elim (due_date_bind env t.due_date) [
  | none ↦ (err invalid_input, db)
  | some due ↦ insert_row db (record t { due_date = due; version = 1 })
]

unfoldable pub create : Env → Task → Repo (Unit {0})
unfolding insert_task statement
create env t = statement env (insert_task env t)

unfoldable pub find_by_id : Env → String → Repo (Option Task)
unfolding statement
find_by_id env id = statement env λ at db. (ok (find (has_id id) db.tasks), db)

abbrev pub at_version : String → ℤ → Task → Bool
at_version id version t = t.id == id && eqb_ℤ (pos t.version) version

abbrev pub fits_int4 : ℤ → Bool
fits_int4 v = leb_ℤ (negsuc max_int4) v && leb_ℤ v (pos max_int4)

-- The row that the SET list writes.
abbrev pub updated_row : ℕ → Updates → Task → Task
updated_row at us t = record (assign_all us t) { version = t.version + 1; updated_at = at }

update_row : ℕ → String → ℤ → Updates → Db → Option Task → Result DbError (Option Task) × Db
unfolding write_row
update_row at id version us db none = (ok none, db)
update_row at id version us db (some t) =
    write_row db (updated_row at us t) (some (updated_row at us t))
      (record db { tasks = modify (at_version id version) (updated_row at us) db.tasks })

pub update_statement : Env → String → ℤ → Updates → Statement (Option Task)
unfolding update_row
update_statement env id version us at db =
    if fits_int4 version
    then elim (bind_columns env us) [
      | none ↦ (err invalid_input, db)
      | some bound ↦ update_row at id version bound db (find (at_version id version) db.tasks)
    ]
    else (err out_of_range, db)

-- UPDATE … WHERE id = … AND version = … RETURNING …
unfoldable pub update : Env → String → ℤ → Updates → Repo (Option Task)
unfolding statement update_statement
update env id version us = statement env (update_statement env id version us)

unfoldable pub delete_statement : String → Statement Bool
delete_statement id at db =
    (ok (any (has_id id) db.tasks), record db { tasks = select (λ t. not (has_id id t)) db.tasks })

unfoldable pub delete : Env → String → Repo Bool
unfolding statement delete_statement
delete env id = statement env (delete_statement id)
