-- ===== src/Service/Tasks/Written.antt =====
-- What a request to `TaskService.Update` does to the table of tasks.
use task_flow_alisha_sharma.Common.{
  ℕ, String, ◌≡◌, refl, inl, inr, some, true, not, List, [], ◌∷◌, ◌++◌, ◌==◌, arith, Bool-cases,
  find, modify, select,
}
use task_flow_alisha_sharma.Common.Int.{ℤ}
use task_flow_alisha_sharma.Model.{Task}
use task_flow_alisha_sharma.Repository.Tasks.{
  Column, Updates, title, description, status, priority, assignee_id, due_date, assign, assign_all,
  updated_row, at_version,
}

-- The row `new` stands where `old` stood, and the rows of other ids are as they were.
pub record RowWritten (id : String) (old new : Task) (before after : List Task) : Type 0 where
  pub earlier : List Task
  pub later : List Task
  pub later' : List Task
  pub before_eq : before ≡ earlier ++ old ∷ later
  pub after_eq : after ≡ earlier ++ new ∷ later'
  pub others : select (λ t. not (t.id == id)) after ≡ select (λ t. not (t.id == id)) before

assign-id : (c : Column) (v : String) (t : Task) → (assign c v t).id ≡ t.id
assign-id title v t = refl
assign-id description v t = refl
assign-id status v t = refl
assign-id priority v t = refl
assign-id assignee_id v t = refl
assign-id due_date v t = refl

assign_all-id : (us : Updates) (t : Task) → (assign_all us t).id ≡ t.id
unfolding assign_all
assign_all-id [] t = refl
assign_all-id ((c, v) ∷ us) t = rw (assign_all-id us (assign c v t)) (assign-id c v t)

module _ (at : ℕ) (id : String) (version : ℤ) (us : Updates) where
  modify-others :
      (ts : List Task)
      → select (λ t. not (t.id == id)) (modify (at_version id version) (updated_row at us) ts)
        ≡ select (λ t. not (t.id == id)) ts
  unfolding modify select
  modify-others [] = refl
  modify-others (t ∷ ts) = elim (Bool-cases (at_version id version t)) [
    | inl hit ↦
        let same : (t.id == id) ≡ true = ground (arith, hit) in
        rw (hit, modify-others ts, assign_all-id us t, same) refl
    | inr miss ↦ rw (miss, modify-others ts) refl
  ]

  pub modify-RowWritten :
      (ts : List Task) (t : Task)
      → find (at_version id version) ts ≡ some t
      → RowWritten id t
          (updated_row at us t)
          ts
          (modify (at_version id version) (updated_row at us) ts)
  unfolding modify
  modify-RowWritten [] t h = cc h
  modify-RowWritten (s ∷ ts) t h = elim (Bool-cases (at_version id version s)) [
    | inl hit ↦
        let same : s ≡ t = cc (rw hit at h) in
        record {
          earlier = [];
          later = ts;
          later' = modify (at_version id version) (updated_row at us) ts;
          before_eq = rw same refl;
          after_eq = rw (hit, same) refl;
          others = modify-others (s ∷ ts);
        }
    | inr miss ↦
        let rest = modify-RowWritten ts t (rw miss at h) in
        record {
          earlier = s ∷ rest.earlier;
          later = rest.later;
          later' = rest.later';
          before_eq = cc (rest.before_eq);
          after_eq = rw (miss, rest.after_eq) refl;
          others = modify-others (s ∷ ts);
        }
  ]
