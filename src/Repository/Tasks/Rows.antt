-- ===== src/Repository/Tasks/Rows.antt =====
-- What each statement on the tasks leaves true of the versions and of the primary key.
use task_flow_alisha_sharma.Common.{
  ℕ, ◌<◌, String, ◌≡◌, ◌≢◌, refl, sym, ◌∙◌, Option, none, some, Bool, true, false, ◌&&◌, List, [],
  ◌∷◌, ◌++◌, eq_iff, arith, Bool-cases, Option-cases, inl, inr, find, any, select, modify, All,
  All-append,
}
use task_flow_alisha_sharma.Common.Int.{ℤ, pos}
use task_flow_alisha_sharma.Model.{Task}
use task_flow_alisha_sharma.Database.{Db, Env, is_status, is_priority}
use task_flow_alisha_sharma.Repository.Tasks.{
  Updates, title, description, status, priority, assignee_id, due_date, bind_columns, assign_all,
  check_row, due_date_bind, insert_row, write_row, at_version, has_id, fits_int4, updated_row,
  insert_task, update_statement, update_row,
}

-- The primary key: no two rows of the table have one id.
abbrev pub Distinct : List Task → Type 0
Distinct [] = Unit
Distinct (t ∷ ts) = (any (has_id t.id) ts ≡ false) × Distinct ts

-- Every row with the id has a version above `v`.
abbrev pub Newer : ℕ → String → List Task → Type 0
Newer v id = All (λ t. has_id id t ≡ true → v < t.version)

id-assign_all : (us : Updates) (t : Task) → (assign_all us t).id ≡ t.id
unfolding assign_all
id-assign_all [] t = refl
id-assign_all ((title, v) ∷ us) t = id-assign_all us (record t { title = v })
id-assign_all ((description, v) ∷ us) t = id-assign_all us (record t { description = some v })
id-assign_all ((status, v) ∷ us) t = id-assign_all us (record t { status = v })
id-assign_all ((priority, v) ∷ us) t = id-assign_all us (record t { priority = v })
id-assign_all ((assignee_id, v) ∷ us) t = id-assign_all us (record t { assignee_id = some v })
id-assign_all ((due_date, v) ∷ us) t = id-assign_all us (record t { due_date = some v })

-- An insertion leaves the rows as they are, or adds one whose id no row has.
insert_row_effect :
    (P : List Task → Type 0) (db : Db) (row : Task)
    → P db.tasks
    → (any (has_id row.id) db.tasks ≡ false → P (db.tasks ++ row ∷ []))
    → P (insert_row db row).1.tasks
unfolding insert_row
insert_row_effect P db row same added =
    elim (Bool-cases (is_status row.status && is_priority row.priority)) [
      | inr bad ↦ rw (bad, insert_row) same
      | inl good ↦ elim (Bool-cases (any (has_id row.id) db.tasks)) [
        | inl taken ↦ rw (good, insert_row, taken) same
        | inr free ↦ elim (Option-cases (check_row db row)) [
          | inl fine ↦ rw (good, insert_row, free, write_row, fine) (added free)
          | inr (e, refused) ↦ rw (good, insert_row, free, write_row, refused) same
        ]
      ]
    ]

pub insert_task_effect :
    (P : List Task → Type 0) (env : Env) (t : Task) (at : ℕ) (db : Db)
    → P db.tasks
    → ((row : Task)
        → row.id ≡ t.id
        → any (has_id row.id) db.tasks ≡ false
        → P (db.tasks ++ row ∷ []))
    → P (insert_task env t at db).1.tasks
insert_task_effect P env t at db same added = elim (Option-cases (due_date_bind env t.due_date)) [
  | inl bad ↦ unfold insert_task in rw (bad, insert_task) same
  | inr (due, good) ↦
      unfold insert_task in
      rw (good, insert_task)
        (insert_row_effect P db (record t { due_date = due; version = 1 }) same
          (added (record t { due_date = due; version = 1 }) refl))
]

module _ (v : ℕ) (id : String) where
  pub Newer-modify :
      (at : ℕ) (other : String) (version : ℤ) (us : Updates) (ts : List Task)
      → Newer v id ts
      → Newer v id (modify (at_version other version) (updated_row at us) ts)
  unfolding modify
  Newer-modify at other version us [] h = tt
  Newer-modify at other version us (t ∷ ts) h =
      (ground (arith, h.0, id-assign_all us t), Newer-modify at other version us ts h.1)

  pub Newer-select : (p : Task → Bool) (ts : List Task) → Newer v id ts → Newer v id (select p ts)
  unfolding select
  Newer-select p [] h = tt
  Newer-select p (t ∷ ts) h = ground (arith, Newer-select p ts h.1)

  pub find-Newer : (ts : List Task) → Newer v id ts → find (at_version id (pos v)) ts ≡ none
  find-Newer [] h = refl
  find-Newer (t ∷ ts) h = ground (arith, h.0, find-Newer ts h.1)

  pub Newer-insert_task :
      (env : Env) (t : Task) (at : ℕ) (db : Db)
      → t.id ≢ id
      → Newer v id db.tasks
      → Newer v id (insert_task env t at db).1.tasks
  Newer-insert_task env t at db other h =
      insert_task_effect (Newer v id) env t at db h λ row same _.
        All-append (λ r. has_id id r ≡ true → v < r.version) db.tasks (row ∷ []) h
          (λ e. absurd (other (sym same ∙ (eq_iff row.id id).0 e)), tt)

  Newer-update_row :
      (at : ℕ) (other : String) (version : ℤ) (us : Updates) (db : Db) (o : Option Task)
      → Newer v id db.tasks
      → Newer v id (update_row at other version us db o).1.tasks
  unfolding update_row
  Newer-update_row at other version us db none h = h
  Newer-update_row at other version us db (some t) h =
      ground (arith, Newer-modify at other version us db.tasks h)

  pub Newer-update_statement :
      (env : Env) (at : ℕ) (other : String) (version : ℤ) (us : Updates) (db : Db)
      → Newer v id db.tasks
      → Newer v id (update_statement env other version us at db).1.tasks
  Newer-update_statement env at other version us db h = elim (Bool-cases (fits_int4 version)) [
    | inr wide ↦ unfold update_statement in rw (wide, update_statement) h
    | inl small ↦ elim (Option-cases (bind_columns env us)) [
      | inl bad ↦ unfold update_statement in rw (small, update_statement, bad) h
      | inr (bound, good) ↦
          unfold update_statement in
          rw (small, update_statement, good) (Newer-update_row at other version bound db _ h)
    ]
  ]

-- No row after a removed head has its id: it is the only row with that id.
Newer-of_absent :
    (v : ℕ) (id : String) (ts : List Task) → any (has_id id) ts ≡ false → Newer v id ts
Newer-of_absent v id [] h = tt
Newer-of_absent v id (t ∷ ts) h =
    (λ e. absurd (ground arith), Newer-of_absent v id ts (ground arith))

find_absent :
    (id : String) (version : ℤ) (ts : List Task)
    → any (has_id id) ts ≡ false
    → find (at_version id version) ts ≡ none
find_absent id version [] h = refl
find_absent id version (t ∷ ts) h = ground (arith, find_absent id version ts)

-- After the row at the version has been rewritten, every row with the id has a later version.
pub rewritten-Newer :
    (at : ℕ) (id : String) (version : ℤ) (us : Updates) (ts : List Task) (before : Task)
    → Distinct ts
    → find (at_version id version) ts ≡ some before
    → Newer before.version id (modify (at_version id version) (updated_row at us) ts)
unfolding modify
rewritten-Newer at id version us [] before d h = cc
rewritten-Newer at id version us (t ∷ ts) before d h = elim (Bool-cases (at_version id version t)) [
  | inl hit ↦
      let e : t ≡ before = ground (arith, hit) in
      rw hit (
        (λ _. ground (arith, e)),
        Newer-modify before.version id at id version us ts
            (Newer-of_absent before.version id ts (ground (arith, eq_iff t.id id))),
      )
  | inr miss ↦ rw miss (
    (λ e. absurd (
        ground (
          arith,
          miss,
          eq_iff t.id id,
          find_absent id version ts (ground (arith, eq_iff t.id id)),
        ))),
    rewritten-Newer at id version us ts before d.1 (ground (arith, miss)),
  )
]
