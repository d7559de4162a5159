-- ===== src/Repository/Projects/Keys.antt =====
-- The ids of projects stay distinct.
use task_flow_alisha_sharma.Common.{
  String, ◌≡◌, refl, inl, inr, Bool, false, not, List, [], ◌∷◌, ◌++◌, ◌==◌, ◌||◌, select, modify,
  any, arith, eq_iff, Bool-cases, ℕ,
}
use task_flow_alisha_sharma.Model.{Project}
use task_flow_alisha_sharma.Database.{Db, fits, user_exists}
use task_flow_alisha_sharma.Database.Others.{Distinct}
use task_flow_alisha_sharma.Repository.Projects.{
  has_id, owned_row, insert_project, delete_statement, write_project,
}

any-append :
    (id : String) (ps : List Project) (p : Project)
    → any (has_id id) (ps ++ p ∷ []) ≡ (any (has_id id) ps || p.id == id)
any-append id [] p = ground arith
any-append id (q ∷ ps) p = ground (arith, any-append id ps p)

append-Distinct :
    (ps : List Project) (p : Project)
    → Distinct ps
    → any (has_id p.id) ps ≡ false
    → Distinct (ps ++ p ∷ [])
append-Distinct [] p d new = (refl, tt)
append-Distinct (q ∷ ps) p d new = (
  rw (any-append q.id ps p) (ground (arith, d.0, new, eq_iff p.id q.id, eq_iff q.id p.id)),
  append-Distinct ps p d.1 (ground (arith, new)),
)

any-select :
    (id : String) (keep : Project → Bool) (ps : List Project)
    → any (has_id id) ps ≡ false
    → any (has_id id) (select keep ps) ≡ false
unfolding select
any-select id keep [] h = refl
any-select id keep (p ∷ ps) h = ground (arith, h, any-select id keep ps)

select-Distinct :
    (keep : Project → Bool) (ps : List Project) → Distinct ps → Distinct (select keep ps)
unfolding select
select-Distinct keep [] d = tt
select-Distinct keep (p ∷ ps) d = elim (Bool-cases (keep p)) [
  | inl kept ↦ rw kept (any-select p.id keep ps d.0, select-Distinct keep ps d.1)
  | inr gone ↦ rw gone (select-Distinct keep ps d.1)
]

module _ (c : Project → Bool) (f : Project → Project) (same : (p : Project) → (f p).id ≡ p.id) where
  any-modify :
      (id : String) (ps : List Project) → any (has_id id) (modify c f ps) ≡ any (has_id id) ps
  unfolding modify
  any-modify id [] = refl
  any-modify id (p ∷ ps) = elim (Bool-cases (c p)) [
    | inl hit ↦ rw (hit, same p, any-modify id ps) refl
    | inr miss ↦ rw (miss, any-modify id ps) refl
  ]

  modify-Distinct : (ps : List Project) → Distinct ps → Distinct (modify c f ps)
  unfolding modify
  modify-Distinct [] d = tt
  modify-Distinct (p ∷ ps) d = elim (Bool-cases (c p)) [
    | inl hit ↦ rw (hit, same p, any-modify p.id ps) (d.0, modify-Distinct ps d.1)
    | inr miss ↦ rw (miss, any-modify p.id ps) (d.0, modify-Distinct ps d.1)
  ]

pub insert_project-Distinct :
    (p : Project) (at : ℕ) (db : Db)
    → Distinct db.projects
    → Distinct (insert_project p at db).1.projects
unfolding insert_project
insert_project-Distinct p at db d = elim (Bool-cases (any (has_id p.id) db.projects)) [
  | inl taken ↦ rw taken d
  | inr free ↦ elim (Bool-cases (not (fits 255 p.name))) [
    | inl long ↦ rw (free, long) d
    | inr short ↦ elim (Bool-cases (not (user_exists p.owner_id db))) [
      | inl stray ↦ rw (free, short, stray) d
      | inr known ↦ rw (free, short, known) (append-Distinct db.projects p d free)
    ]
  ]
]

pub delete_statement-Distinct :
    (id u : String) (at : ℕ) (db : Db)
    → Distinct db.projects
    → Distinct (delete_statement id u at db).1.projects
unfolding delete_statement
delete_statement-Distinct id u at db d = elim (Bool-cases (any (owned_row id u) db.projects)) [
  | inl there ↦ rw there (select-Distinct _ db.projects d)
  | inr absent ↦ rw absent d
]

pub write_project-Distinct :
    (p : Project) (id : String) (db : Db) (f : Project → Project)
    → ((q : Project) → (f q).id ≡ q.id)
    → Distinct db.projects
    → Distinct (write_project p id db f).1.projects
unfolding write_project
write_project-Distinct p id db f same d = elim (Bool-cases (not (fits 255 p.name))) [
  | inl long ↦ rw long d
  | inr short ↦ rw short (modify-Distinct (has_id id) f same db.projects d)
]
