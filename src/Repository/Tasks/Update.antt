-- ===== src/Repository/Tasks/Update.antt =====
-- What `Update` does to the row and to the rest of the table.
use task_flow_alisha_sharma.Common.{
  ℕ, String, ◌≡◌, refl, Option, none, some, arith, Bool-cases, Option-cases, inl, inr, find, modify,
}
use task_flow_alisha_sharma.Common.Int.{ℤ}
use task_flow_alisha_sharma.Common.Exec.{ok}
use task_flow_alisha_sharma.Model.{Task}
use task_flow_alisha_sharma.Database.{Db, Env, World, statement, seen}
use task_flow_alisha_sharma.Repository.Tasks.{
  Updates, bind_columns, check_row, at_version, fits_int4, updated_row, update, update_statement,
  update_row, write_row,
}

module _ (at : ℕ) (id : String) (version : ℤ) where
  -- The tables after the row at the version has been rewritten.
  abbrev pub rewritten : Updates → Db → Db
  rewritten us db = record db {
    tasks = modify (at_version id version) (updated_row at us) db.tasks;
  }

  -- What an UPDATE that returns the row `t'` has found and done.
  pub record Wrote (us : Updates) (db : Db) (t' : Task) (db' : Db) : Type 0 where
    pub before : Task
    pub found : find (at_version id version) db.tasks ≡ some before
    pub row : t' ≡ updated_row at us before
    pub allowed : check_row db t' ≡ none
    pub after : db' ≡ rewritten us db

  update_row-Wrote :
      (us : Updates) (db : Db) (o : Option Task) {t' : Task}
      → find (at_version id version) db.tasks ≡ o
      → (update_row at id version us db o).0 ≡ ok (some t')
      → Wrote us db t' (update_row at id version us db o).1
  unfolding update_row
  update_row-Wrote us db none e h = cc
  update_row-Wrote us db (some t) {t'} e h =
      elim (Option-cases (check_row db (updated_row at us t))) [
        | inl free ↦ record {
          before = t;
          found = e;
          row = ground (arith, free);
          allowed = ground (arith, free);
          after = rw (free, write_row);
        }
        | inr (e', caught) ↦ absurd (ground (arith, caught))
      ]

-- What a call of `Update` that returns the row `t'` has found and done.
pub record Updated (env : Env) (id : String) (version : ℤ) (us : Updates) (w : World) (t' : Task)
    : Type 0 where
  pub bound : Updates
  pub converted : bind_columns env us ≡ some bound
  pub wrote :
      Wrote (env.db_now w.ticks) id version bound (seen env w) t' (update env id version us w).1.db

pub update-Updated :
    (env : Env) (id : String) (version : ℤ) (us : Updates) (w : World) (t' : Task)
    → (update env id version us w).0 ≡ ok (some t')
    → Updated env id version us w t'
unfolding update
update-Updated env id version us w t' h = elim (Option-cases (env.fault w.ticks)) [
  | inr (e, down) ↦ absurd (ground (arith, down))
  | inl up ↦ elim (Bool-cases (fits_int4 version)) [
    | inr wide ↦ absurd (ground (arith, up, wide))
    | inl small ↦ elim (Option-cases (bind_columns env us)) [
      | inl bad ↦ absurd (ground (arith, up, small, bad))
      | inr (bound, good) ↦ record {
        bound = bound;
        converted = good;
        wrote =
            rw (up, statement, small, update_statement, good)
              (update_row-Wrote (env.db_now w.ticks) id version bound (seen env w) _ refl
                (rw (up, statement, small, update_statement, good) at h));
      }
    ]
  ]
]
