-- ===== src/Repository/Tasks/Typed.antt =====
-- The rows of the tasks table hold members of the enum types of 000003_create_tasks.up.sql.
use task_flow_alisha_sharma.Common.{
  ℕ, String, ◌≡◌, inl, inr, Option, none, some, Bool, true, ◌&&◌, List, [], ◌∷◌, ◌++◌, All, find,
  any, select, modify, arith, Bool-cases, Option-cases,
}
use task_flow_alisha_sharma.Common.Int.{ℤ}
use task_flow_alisha_sharma.Model.{Task}
use task_flow_alisha_sharma.Database.{
  Db, Env, World, Statement, statement, seen, is_status, is_priority,
}
use task_flow_alisha_sharma.Repository.Tasks.{
  Column, title, description, status, priority, assignee_id, due_date, Updates, bind_column,
  bind_columns, assign, assign_all, updated_row, check_row, has_id, at_version, fits_int4,
  write_row, insert_row, due_date_bind, insert_task, update_row, update_statement, delete_statement,
  create, update, delete,
}

abbrev pub TypedRow : Task → Type 0
TypedRow t = (is_status t.status && is_priority t.priority) ≡ true

abbrev pub Typed : List Task → Type 0
Typed ts = All TypedRow ts

-- What a bound parameter may hold.
abbrev BoundTo : Column → String → Type 0
BoundTo status v = is_status v ≡ true
BoundTo priority v = is_priority v ≡ true
BoundTo c v = Unit

abbrev AllBound : Updates → Type 0
AllBound [] = Unit
AllBound ((c, v) ∷ us) = BoundTo c v × AllBound us

bind_column-BoundTo :
    (env : Env) (c : Column) (v v' : String) → bind_column env c v ≡ some v' → BoundTo c v'
bind_column-BoundTo env title v v' h = tt
bind_column-BoundTo env description v v' h = tt
bind_column-BoundTo env status v v' h = ground (arith, h)
bind_column-BoundTo env priority v v' h = ground (arith, h)
bind_column-BoundTo env assignee_id v v' h = tt
bind_column-BoundTo env due_date v v' h = tt

stuck : {bound : Updates} → ◌≡◌ {A = Option Updates} none (some bound) → ⊥
stuck h = cc h

bind_columns-AllBound :
    (env : Env) (us bound : Updates) → bind_columns env us ≡ some bound → AllBound bound
unfolding bind_columns
bind_columns-AllBound env [] bound h = let same : [] ≡ bound = cc h in rw (← same) tt
bind_columns-AllBound env ((c, v) ∷ us) bound h = elim (Option-cases (bind_column env c v)) [
  | inl bad ↦ absurd (stuck (rw (bad, bind_columns) at h))
  | inr (v', fine) ↦ elim (Option-cases (bind_columns env us)) [
    | inl bad ↦ absurd (stuck (rw (fine, bad, bind_columns) at h))
    | inr (us', rest) ↦
        let same : (c, v') ∷ us' ≡ bound = cc (rw (fine, rest, bind_columns) at h) in
        rw (← same) (bind_column-BoundTo env c v v' fine, bind_columns-AllBound env us us' rest)
  ]
]

assign-TypedRow :
    (c : Column) (v : String) (t : Task) → BoundTo c v → TypedRow t → TypedRow (assign c v t)
assign-TypedRow title v t b h = h
assign-TypedRow description v t b h = h
assign-TypedRow status v t b h = ground (arith, b, h)
assign-TypedRow priority v t b h = ground (arith, b, h)
assign-TypedRow assignee_id v t b h = h
assign-TypedRow due_date v t b h = h

assign_all-TypedRow :
    (us : Updates) (t : Task) → AllBound us → TypedRow t → TypedRow (assign_all us t)
unfolding assign_all
assign_all-TypedRow [] t b h = h
assign_all-TypedRow ((c, v) ∷ us) t b h =
    assign_all-TypedRow us (assign c v t) b.1 (assign-TypedRow c v t b.0 h)

updated_row-TypedRow :
    (at : ℕ) (us : Updates) (t : Task) → AllBound us → TypedRow t → TypedRow (updated_row at us t)
updated_row-TypedRow at us t b h = assign_all-TypedRow us t b h

modify-Typed :
    (c : Task → Bool) (f : Task → Task) (ts : List Task)
    → ((t : Task) → TypedRow t → TypedRow (f t))
    → Typed ts
    → Typed (modify c f ts)
unfolding modify
modify-Typed c f [] keeps h = tt
modify-Typed c f (t ∷ ts) keeps h = elim (Bool-cases (c t)) [
  | inl hit ↦ rw hit (keeps t h.0, modify-Typed c f ts keeps h.1)
  | inr miss ↦ rw miss (h.0, modify-Typed c f ts keeps h.1)
]

select-Typed : (keep : Task → Bool) (ts : List Task) → Typed ts → Typed (select keep ts)
unfolding select
select-Typed keep [] h = tt
select-Typed keep (t ∷ ts) h = elim (Bool-cases (keep t)) [
  | inl kept ↦ rw kept (h.0, select-Typed keep ts h.1)
  | inr gone ↦ rw gone (select-Typed keep ts h.1)
]

append-Typed : (ts : List Task) (t : Task) → Typed ts → TypedRow t → Typed (ts ++ t ∷ [])
append-Typed [] t h row = (row, tt)
append-Typed (s ∷ ts) t h row = (h.0, append-Typed ts t h.1 row)

write_row-Typed :
    {A : Type 0} (db : Db) (row : Task) (a : A) (after : Db)
    → Typed db.tasks
    → Typed after.tasks
    → Typed (write_row db row a after).1.tasks
unfolding write_row
write_row-Typed db row a after h k = elim (Option-cases (check_row db row)) [
  | inl fine ↦ rw (fine, write_row) k
  | inr (e, bad) ↦ rw (bad, write_row) h
]

insert_row-Typed : (db : Db) (row : Task) → Typed db.tasks → Typed (insert_row db row).1.tasks
unfolding insert_row
insert_row-Typed db row h = elim (Bool-cases (is_status row.status && is_priority row.priority)) [
  | inr bad ↦ rw bad h
  | inl valid ↦ elim (Bool-cases (any (has_id row.id) db.tasks)) [
    | inl taken ↦ rw (valid, taken) h
    | inr free ↦
        rw (valid, free)
          (write_row-Typed db row tt (record db { tasks = db.tasks ++ row ∷ [] }) h
            (append-Typed db.tasks row h valid))
  ]
]

insert_task-Typed :
    (env : Env) (t : Task) (at : ℕ) (db : Db)
    → Typed db.tasks
    → Typed (insert_task env t at db).1.tasks
unfolding insert_task
insert_task-Typed env t at db h = elim (Option-cases (due_date_bind env t.due_date)) [
  | inl bad ↦ rw (bad, insert_task) h
  | inr (due, fine) ↦
      rw (fine, insert_task) (insert_row-Typed db (record t { due_date = due; version = 1 }) h)
]

update_row-Typed :
    (at : ℕ) (id : String) (version : ℤ) (us : Updates) (db : Db) (found : Option Task)
    → AllBound us
    → Typed db.tasks
    → Typed (update_row at id version us db found).1.tasks
unfolding update_row
update_row-Typed at id version us db none b h = h
update_row-Typed at id version us db (some t) b h =
    write_row-Typed db (updated_row at us t) (some (updated_row at us t))
      (record db { tasks = modify (at_version id version) (updated_row at us) db.tasks }) h
      (modify-Typed (at_version id version) (updated_row at us) db.tasks
        (λ s. updated_row-TypedRow at us s b) h)

update_statement-Typed :
    (env : Env) (id : String) (version : ℤ) (us : Updates) (at : ℕ) (db : Db)
    → Typed db.tasks
    → Typed (update_statement env id version us at db).1.tasks
unfolding update_statement
update_statement-Typed env id version us at db h = elim (Bool-cases (fits_int4 version)) [
  | inr big ↦ rw big h
  | inl small ↦ elim (Option-cases (bind_columns env us)) [
    | inl bad ↦ rw (small, bad, update_statement) h
    | inr (bound, fine) ↦
        rw (small, fine, update_statement)
          (update_row-Typed at id version bound db (find (at_version id version) db.tasks)
            (bind_columns-AllBound env us bound fine) h)
  ]
]

statement-Typed :
    {A : Type 0} (env : Env) (f : Statement A) (w : World)
    → Typed (seen env w).tasks
    → Typed (f (env.db_now w.ticks) (seen env w)).1.tasks
    → Typed (statement env f w).1.db.tasks
unfolding statement
statement-Typed env f w h k = elim (Option-cases (env.fault w.ticks)) [
  | inl up ↦ rw (up, statement) k
  | inr (e, down) ↦ rw (down, statement) h
]

-- Where all tasks that a statement finds have a status and a priority of the enum types, so have all
-- tasks that a `Create`, an `Update` of whatever columns and texts, or a `Delete` leaves, whether it
-- succeeds or fails.
pub enums_kept :
    (env : Env) (w : World)
    → Typed (seen env w).tasks
    → ((t : Task) → Typed (create env t w).1.db.tasks)
      × ((id : String) (version : ℤ) (us : Updates) → Typed (update env id version us w).1.db.tasks)
      × ((id : String) → Typed (delete env id w).1.db.tasks)
unfolding create update delete delete_statement
enums_kept env w h = (
  λ t.
      statement-Typed env (insert_task env t) w h
        (insert_task-Typed env t (env.db_now w.ticks) (seen env w) h),
  λ id version us.
      statement-Typed env (update_statement env id version us) w h
        (update_statement-Typed env id version us (env.db_now w.ticks) (seen env w) h),
  λ id. statement-Typed env (delete_statement id) w h (select-Typed _ (seen env w).tasks h),
)
