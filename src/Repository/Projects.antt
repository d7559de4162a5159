-- ===== src/Repository/Projects.antt =====
-- backend/internal/repository/project.go
pub mod Spares
pub mod Keys
pub mod Edits
use task_flow_alisha_sharma.Common.{
  ℕ, String, Option, none, some, Bool, true, false, not, ◌&&◌, ◌||◌, List, [], ◌∷◌, ◌++◌, ◌==◌, ltb,
  if◌then◌else◌, option_is, find, any, select, modify, length,
}
use task_flow_alisha_sharma.Common.Int.{ℤ}
use task_flow_alisha_sharma.Common.Exec.{Result, ok, err, ◌>>=◌}
use task_flow_alisha_sharma.Model.{Task, Project}
use task_flow_alisha_sharma.AppError.{DbError, duplicate_key, foreign_key, invalid_input, too_long}
use task_flow_alisha_sharma.Database.{Db, Env, Repo, Statement, statement, user_exists, fits}
use task_flow_alisha_sharma.Repository.Tasks.Queries.{slice}

abbrev pub has_id : String → Project → Bool
has_id id p = p.id == id

pub insert_project : Project → Statement (Unit {0})
insert_project p at db =
    if any (has_id p.id) db.projects
    then (err duplicate_key, db)
    else if not (fits 255 p.name)
    then (err too_long, db)
    else if not (user_exists p.owner_id db)
    then (err foreign_key, db)
    else (ok tt, record db { projects = db.projects ++ p ∷ [] })

unfoldable pub create : Env → Project → Repo (Unit {0})
unfolding statement insert_project
create env p = statement env (insert_project p)

unfoldable pub find_by_id : Env → String → Repo (Option Project)
unfolding statement
find_by_id env id = statement env λ at db. (ok (find (has_id id) db.projects), db)

-- The rows of `projects LEFT JOIN tasks` whose project belongs to the user or one of whose tasks
-- names the user, without repetition.
unfoldable pub involves : String → List Task → Project → Bool
involves user_id tasks p =
    p.owner_id == user_id
    || any
        (λ (t : Task).
          t.project_id == p.id && (option_is t.assignee_id user_id || t.creator_id == user_id))
        tasks

-- ORDER BY created_at DESC, as for tasks.
place : Project → List Project → List Project
place p [] = p ∷ []
place p (r ∷ rs) =
    let rest = place p rs in if ltb r.created_at p.created_at then p ∷ r ∷ rs else r ∷ rest

unfoldable pub newest_first : List Project → List Project
unfolding place
newest_first [] = []
newest_first (p ∷ ps) = place p (newest_first ps)

pub page_statement : String → ℤ → ℤ → Statement (List Project)
page_statement user_id limit offset at db =
    elim (slice limit offset (newest_first (select (involves user_id db.tasks) db.projects))) [
      | none ↦ (err invalid_input, db)
      | some rows ↦ (ok rows, db)
    ]

unfoldable pub find_by_user : Env → String → ℤ → ℤ → Repo (List Project × ℕ)
unfolding statement page_statement
find_by_user env user_id limit offset =
    statement env (λ at db. (ok (length (select (involves user_id db.tasks) db.projects)), db))
    >>= λ total. statement env (page_statement user_id limit offset) >>= λ projects.
        λ w. (ok (projects, total), w)

abbrev set_name : Option String → Project → Project
set_name none p = p
set_name (some name) p = record p { name = name }

abbrev set_description : Option String → Project → Project
set_description none p = p
set_description (some d) p = record p { description = some d }

pub write_project :
    Project → String → Db → (Project → Project) → Result DbError (Option Project) × Db
write_project p id db f =
    if not (fits 255 p.name)
    then (err too_long, db)
    else (ok (some p), record db { projects = modify (has_id id) f db.projects })

pub update_statement : String → (Project → Project) → Statement (Option Project)
unfolding write_project
update_statement id f at db = elim (find (has_id id) db.projects) [
  | none ↦ (ok none, db)
  | some p ↦ write_project (f p) id db f
]

abbrev pub changes : Option String → Option String → Project → Project
changes name desc p = set_description desc (set_name name p)

-- With nothing to set the row is only read.
unfoldable pub update : Env → String → Option String → Option String → Repo (Option Project)
unfolding statement update_statement find_by_id
update env id none none = find_by_id env id
update env id name desc = statement env (update_statement id (changes name desc))

abbrev pub owned_row : String → String → Project → Bool
owned_row id owner_id p = has_id id p && p.owner_id == owner_id

-- The tasks of the project go with it (ON DELETE CASCADE).
unfoldable pub delete_statement : String → String → Statement Bool
delete_statement id owner_id at db =
    if any (owned_row id owner_id) db.projects
    then (
      ok true,
      record db {
        projects = select (λ p. not (owned_row id owner_id p)) db.projects;
        tasks = select (λ (t : Task). not (t.project_id == id)) db.tasks;
      },
    )
    else (ok false, db)

unfoldable pub delete : Env → String → String → Repo Bool
unfolding statement delete_statement
delete env id owner_id = statement env (delete_statement id owner_id)

unfoldable pub is_user_in_project : Env → String → String → Repo Bool
unfolding statement
is_user_in_project env project_id user_id =
    statement env
      λ at db. (ok (any (λ p. has_id project_id p && involves user_id db.tasks p) db.projects), db)
