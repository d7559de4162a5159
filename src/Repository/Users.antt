-- ===== src/Repository/Users.antt =====
-- backend/internal/repository/user.go
use task_flow_alisha_sharma.Common.{
  String, Option, none, some, Bool, not, ◌&&◌, ◌||◌, [], ◌∷◌, ◌++◌, ◌==◌, if◌then◌else◌, find, any,
}
use task_flow_alisha_sharma.Common.Exec.{ok, err}
use task_flow_alisha_sharma.Model.{User}
use task_flow_alisha_sharma.AppError.{duplicate_key, too_long}
use task_flow_alisha_sharma.Database.{Env, Repo, Statement, statement, fits}

abbrev pub has_id : String → User → Bool
has_id id u = u.id == id

abbrev pub has_email : String → User → Bool
has_email email u = u.email == email

-- The primary key, the constraint users_email_unique, and the widths of the columns.
unfoldable pub insert_user : User → Statement (Unit {0})
insert_user u at db =
    if any (has_id u.id) db.users || any (has_email u.email) db.users
    then (err duplicate_key, db)
    else if not (fits 100 u.name && fits 255 u.email && fits 255 u.password)
    then (err too_long, db)
    else (ok tt, record db { users = db.users ++ u ∷ [] })

unfoldable pub create : Env → User → Repo (Unit {0})
unfolding statement insert_user
create env u = statement env (insert_user u)

unfoldable pub find_by_email : Env → String → Repo (Option User)
unfolding statement
find_by_email env email = statement env λ at db. (ok (find (has_email email) db.users), db)

unfoldable pub find_by_id : Env → String → Repo (Option User)
unfolding statement
find_by_id env id = statement env λ at db. (ok (find (has_id id) db.users), db)

abbrev name_of : Option User → String
name_of none = "Unassigned"
name_of (some u) = u.name

unfoldable pub find_name_by_id : Env → String → Repo String
unfolding statement
find_name_by_id env id = statement env λ at db. (ok (name_of (find (has_id id) db.users)), db)
