-- ===== src/Repository/Tests.antt =====
-- A small database, runs of the statements on it, and their theorems at concrete inputs.
use task_flow_alisha_sharma.Common.{String, ◌≡◌, ◌≢◌, refl, none, some, [], ◌∷◌}
use task_flow_alisha_sharma.Common.Int.{ℤ, pos}
use task_flow_alisha_sharma.Common.Exec.{ok}
use task_flow_alisha_sharma.Model.{User, Project, Task}
use task_flow_alisha_sharma.Database.{Db, Env, World}
use task_flow_alisha_sharma.Repository.Tasks.{
  Updates, title, status, assign_all, check_row, bind_columns, create, update, delete,
}
use task_flow_alisha_sharma.Repository.Tasks.Typed.{Typed, enums_kept}
use task_flow_alisha_sharma.Repository.Tasks.Versions.{same, one_update_wins}

abbrev pub ann : User
ann = record { id = "u1"; name = "Ann"; email = "ann@x.org"; password = "h"; created_at = 1 }

abbrev pub website : Project
website = record {
  id = "p1";
  name = "Website";
  description = none;
  owner_id = "u1";
  created_at = 2;
}

abbrev pub draft : Task
draft = record {
  id = "t1";
  title = "Draft";
  description = none;
  status = "todo";
  priority = "low";
  project_id = "p1";
  creator_id = "u1";
  assignee_id = none;
  due_date = none;
  version = 4;
  created_at = 3;
  updated_at = 3;
}

abbrev pub tables : Db
tables = record {
  users = ann ∷ [];
  projects = website ∷ [];
  tasks = draft ∷ [];
  refresh_tokens = [];
  subscriptions = [];
}

-- Nothing fails, and nobody else writes.
abbrev pub calm : Env
calm = record {
  others = λ n db. db;
  fault = λ n. none;
  db_now = λ n. 50;
  clock = λ n. 40;
  new_uuid = λ n. "new";
  date_text = λ s. some s;
}

abbrev pub start : World
start = record { db = tables; ticks = 0; event_bus = none; webhook_disp = some [] }

abbrev finish : Updates
finish = (status, "done") ∷ []

abbrev finished : Task
finished = record draft { status = "done"; version = 5; updated_at = 50 }

update_finishes : (update calm "t1" (pos 4) finish start).0 ≡ ok (some finished)
unfolding update check_row assign_all bind_columns
update_finishes = refl

one_update_wins_example :
    (update calm "t1" (pos 4) ((title, "Late") ∷ []) (update calm "t1" (pos 4) finish start).1).0
    ≢ ok (some draft)
one_update_wins_example =
    one_update_wins calm "t1" (pos 4) finish ((title, "Late") ∷ []) start
      (update calm "t1" (pos 4) finish start).1 finished draft (refl, tt) update_finishes same

enums_kept_example :
    ((t : Task) → Typed (create calm t start).1.db.tasks)
    × ((id : String) (version : ℤ) (us : Updates)
        → Typed (update calm id version us start).1.db.tasks)
    × ((id : String) → Typed (delete calm id start).1.db.tasks)
enums_kept_example = enums_kept calm start (refl, tt)
