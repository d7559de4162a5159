-- ===== src/Repository/Tasks/Versions.antt =====
-- The version column as a lock: what happens to a row between two updates that name one version.
use task_flow_alisha_sharma.Common.{
  ℕ, String, ◌≡◌, ◌≢◌, none, some, not, List, [], ◌∷◌, ◌==◌, arith, Bool-cases, inl, inr, find, any,
}
use task_flow_alisha_sharma.Common.Int.{ℤ, pos, negsuc}
use task_flow_alisha_sharma.Common.Exec.{ok}
use task_flow_alisha_sharma.Model.{Task}
use task_flow_alisha_sharma.Database.{Db, Env, World, seen}
use task_flow_alisha_sharma.Repository.Projects
use task_flow_alisha_sharma.Repository.Tasks.{
  Updates, at_version, has_id, insert_task, update, update_statement, delete_statement,
}
use task_flow_alisha_sharma.Repository.Tasks.Update.{update-Updated}
use task_flow_alisha_sharma.Repository.Tasks.Rows.{
  Distinct, Newer, Newer-select, find-Newer, Newer-insert_task, Newer-update_statement,
  rewritten-Newer,
}

-- What the statements of this program, from any connection, make of the tables while none of them
-- inserts a task with the id `id`. Other tables may change in any way.
pub data Later (env : Env) (id : String) (start : Db) : Db → Type 0 where
  same : Later env id start start
  inserted :
      {db : Db} (t : Task) (at : ℕ)
      → t.id ≢ id
      → Later env id start db
      → Later env id start (insert_task env t at db).1
  updated :
      {db : Db} (other : String) (version : ℤ) (us : Updates) (at : ℕ)
      → Later env id start db
      → Later env id start (update_statement env other version us at db).1
  deleted :
      {db : Db} (other : String) (at : ℕ)
      → Later env id start db
      → Later env id start (delete_statement other at db).1
  project_deleted :
      {db : Db} (project owner : String) (at : ℕ)
      → Later env id start db
      → Later env id start (Projects.delete_statement project owner at db).1
  elsewhere : {db db' : Db} → db'.tasks ≡ db.tasks → Later env id start db → Later env id start db'

Newer-delete :
    (v : ℕ) (id : String) (project owner : String) (at : ℕ) (db : Db)
    → Newer v id db.tasks
    → Newer v id (Projects.delete_statement project owner at db).1.tasks
Newer-delete v id project owner at db h =
    elim (Bool-cases (any (Projects.owned_row project owner) db.projects)) [
      | inl hit ↦
          unfold Projects.delete_statement in
          rw (hit, Projects.delete_statement)
            (Newer-select v id (λ t. not (t.project_id == project)) db.tasks h)
      | inr miss ↦ unfold Projects.delete_statement in rw (miss, Projects.delete_statement) h
    ]

Newer-delete_statement :
    (v : ℕ) (id : String) (other : String) (at : ℕ) (db : Db)
    → Newer v id db.tasks
    → Newer v id (delete_statement other at db).1.tasks
unfolding delete_statement
Newer-delete_statement v id other at db h = Newer-select v id (λ t. not (has_id other t)) db.tasks h

Later-Newer :
    {env : Env} {id : String} {start db : Db} (v : ℕ)
    → Newer v id start.tasks
    → Later env id start db
    → Newer v id db.tasks
Later-Newer v h same = h
Later-Newer {env} {id} v h (inserted {db = db} t at other l) =
    Newer-insert_task v id env t at db other (Later-Newer v h l)
Later-Newer {env} {id} v h (updated {db = db} other version us at l) =
    Newer-update_statement v id env at other version us db (Later-Newer v h l)
Later-Newer {env} {id} v h (deleted {db = db} other at l) =
    Newer-delete_statement v id other at db (Later-Newer v h l)
Later-Newer {env} {id} v h (project_deleted {db = db} project owner at l) =
    Newer-delete v id project owner at db (Later-Newer v h l)
Later-Newer {env} {id} v h (elsewhere e l) = rw e (Later-Newer v h l)

find-version :
    (id : String) (version : ℤ) (ts : List Task) (before : Task)
    → find (at_version id version) ts ≡ some before
    → pos before.version ≡ version
find-version id version [] before h = cc
find-version id (pos v) (t ∷ ts) before h = ground (arith, find-version id (pos v) ts before)
find-version id (negsuc v) (t ∷ ts) before h = ground (arith, find-version id (negsuc v) ts before)

-- Two updates never both succeed on one version of a task. Let an update of the task `id` that names
-- `version` return a row, on tables that keep the primary key. Later, after any inserts of other
-- tasks, updates and deletes of any tasks, and deletes of projects, by whatever connection, an
-- update of `id` that names the same version returns no row.
pub one_update_wins :
    (env : Env) (id : String) (version : ℤ) (us us' : Updates) (w w' : World) (t t' : Task)
    → Distinct (seen env w).tasks
    → (update env id version us w).0 ≡ ok (some t)
    → Later env id (update env id version us w).1.db (seen env w')
    → (update env id version us' w').0 ≢ ok (some t')
one_update_wins env id version us us' w w' t t' d won later again =
    let first = update-Updated env id version us w t won in
    let second = update-Updated env id version us' w' t' again in
    let wrote = first.wrote in
    let v = wrote.before.version in
    let named : pos v ≡ version =
      find-version id version (seen env w).tasks wrote.before wrote.found in
    let newer : Newer v id (update env id version us w).1.db.tasks = rw wrote.after (
      rewritten-Newer (env.db_now w.ticks) id version first.bound (seen env w).tasks wrote.before d
        wrote.found) in
    let gone : find (at_version id (pos v)) (seen env w').tasks ≡ none =
      find-Newer v id (seen env w').tasks (Later-Newer v newer later) in
    cc (gone, rw (← named) at (second.wrote.found))
