-- ===== src/Repository/Tasks/Queries.antt =====
-- backend/internal/repository/task.go: the queries over the tasks of a project.
pub mod Spares
pub mod Groups
use task_flow_alisha_sharma.Common.{
  ℕ, suc, String, Option, none, some, Bool, true, false, ◌&&◌, ◌||◌, List, [], ◌∷◌, ◌==◌, ltb,
  if◌then◌else◌, option_is, map, select, length, take, drop,
}
use task_flow_alisha_sharma.Common.Int.{ℤ, pos}
use task_flow_alisha_sharma.Common.Dict.{Dict, insert}
use task_flow_alisha_sharma.Common.Exec.{ok, err, ◌>>=◌}
use task_flow_alisha_sharma.Model.{Task}
use task_flow_alisha_sharma.AppError.{invalid_input}
use task_flow_alisha_sharma.Database.{Env, Repo, Statement, statement, is_status}

pub record TaskFilter : Type 0 where
  pub status : String
  pub assignee : String

pub record AssigneeCount : Type 0 where
  pub assignee_id : Option String
  pub count : ℕ

-- The WHERE clause that is put together from the filter.
unfoldable pub matches : String → TaskFilter → Task → Bool
matches project_id filter t =
    t.project_id == project_id
    && (filter.status == "" || t.status == filter.status)
    && (filter.assignee == "" || option_is t.assignee_id filter.assignee)

-- ORDER BY created_at DESC; rows of one instant come in the order of the table, an order that SQL
-- leaves open.
place : Task → List Task → List Task
place t [] = t ∷ []
place t (r ∷ rs) =
    let rest = place t rs in if ltb r.created_at t.created_at then t ∷ r ∷ rs else r ∷ rest

unfoldable pub newest_first : List Task → List Task
unfolding place
newest_first [] = []
newest_first (t ∷ ts) = place t (newest_first ts)

-- A value of the enum type in the WHERE clause.
abbrev filter_valid : TaskFilter → Bool
filter_valid filter = filter.status == "" || is_status filter.status

pub count_statement : Env → String → TaskFilter → Statement ℕ
count_statement env project_id filter at db =
    if filter_valid filter
    then (ok (length (select (matches project_id filter) db.tasks)), db)
    else (err invalid_input, db)

abbrev pub slice {ℓ} : {A : Type ℓ} → ℤ → ℤ → List A → Option (List A)
slice (pos limit) (pos offset) rows = some (take limit (drop offset rows))
slice _ _ rows = none

pub page_statement : Env → String → TaskFilter → ℤ → ℤ → Statement (List Task)
page_statement env project_id filter limit offset at db =
    if filter_valid filter
    then elim (slice limit offset (newest_first (select (matches project_id filter) db.tasks))) [
      | none ↦ (err invalid_input, db)
      | some rows ↦ (ok rows, db)
    ]
    else (err invalid_input, db)

-- The rows of the page, and the number of all that match.
unfoldable pub find_by_project : Env → String → TaskFilter → ℤ → ℤ → Repo (List Task × ℕ)
unfolding statement count_statement page_statement
find_by_project env project_id filter limit offset =
    statement env (count_statement env project_id filter) >>= λ total.
    statement env (page_statement env project_id filter limit offset) >>= λ tasks.
    λ w. (ok (tasks, total), w)

-- One more row in the group of the key.
count_in {ℓ} : {K : Type ℓ} → (K → K → Bool) → K → List (K × ℕ) → List (K × ℕ)
count_in same k [] = (k, 1) ∷ []
count_in same k ((j, n) ∷ groups) =
    let rest = count_in same k groups in if same j k then (j, suc n) ∷ groups else (j, n) ∷ rest

-- SELECT key, COUNT(*) … GROUP BY key; the order of the groups is open in SQL.
unfoldable pub group_count {ℓ} : {K : Type ℓ} → (K → K → Bool) → List K → List (K × ℕ)
unfolding count_in
group_count same [] = []
group_count same (k ∷ ks) = count_in same k (group_count same ks)

abbrev pub in_project : String → Task → Bool
in_project project_id t = t.project_id == project_id

store_counts : Dict ℕ → List (String × ℕ) → Dict ℕ
store_counts result [] = result
store_counts result ((name, n) ∷ rows) = store_counts (insert name n result) rows

unfoldable pub count_by_status : Env → String → Repo (Dict ℕ)
unfolding statement store_counts
count_by_status env project_id = statement env λ at db. (
  ok (
      store_counts (("todo", 0) ∷ ("in_progress", 0) ∷ ("done", 0) ∷ []) (
        group_count (λ a b. a == b)
          (map (λ (t : Task). t.status) (select (in_project project_id) db.tasks)))),
  db,
)

-- NULL forms one group.
abbrev pub same_assignee : Option String → Option String → Bool
same_assignee none none = true
same_assignee (some a) (some b) = a == b
same_assignee _ _ = false

abbrev to_assignee_count : Option String × ℕ → AssigneeCount
to_assignee_count g = record { assignee_id = g.0; count = g.1 }

unfoldable pub count_by_assignee : Env → String → Repo (List AssigneeCount)
unfolding statement
count_by_assignee env project_id = statement env λ at db. (
  ok (
      map to_assignee_count (
        group_count same_assignee
          (map (λ (t : Task). t.assignee_id) (select (in_project project_id) db.tasks)))),
  db,
)
