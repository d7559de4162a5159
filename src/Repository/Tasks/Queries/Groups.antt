-- ===== src/Repository/Tasks/Queries/Groups.antt =====
-- The counts of a GROUP BY add up.
use task_flow_alisha_sharma.Common.{
  ℕ, suc, ◌+◌, String, ◌≡◌, refl, Bool, Option, Option-cases, inl, inr, List, [], ◌∷◌, arith,
  length, map, select,
}
use task_flow_alisha_sharma.Common.Exec.{ok}
use task_flow_alisha_sharma.Model.{Task}
use task_flow_alisha_sharma.Database.{Env, World, seen, statement}
use task_flow_alisha_sharma.Repository.Tasks.Queries.{
  AssigneeCount, count_in, group_count, in_project, same_assignee, to_assignee_count,
  count_by_assignee,
}

counts {ℓ} : {K : Type ℓ} → List (K × ℕ) → ℕ
counts [] = 0
counts (g ∷ gs) = g.1 + counts gs

counts-count_in {ℓ} :
    {K : Type ℓ} (same : K → K → Bool) (k : K) (gs : List (K × ℕ))
    → counts (count_in same k gs) ≡ suc (counts gs)
unfolding counts count_in
counts-count_in same k [] = omega arith
counts-count_in same k ((j, n) ∷ gs) = ground (arith, counts-count_in same k gs)

counts-group_count {ℓ} :
    {K : Type ℓ} (same : K → K → Bool) (ks : List K) → counts (group_count same ks) ≡ length ks
unfolding counts group_count
counts-group_count same [] = refl
counts-group_count same (k ∷ ks) =
    ground (arith, counts-count_in same k (group_count same ks), counts-group_count same ks)

unfoldable pub total_of : List AssigneeCount → ℕ
total_of [] = 0
total_of (a ∷ rows) = a.count + total_of rows

total_of-map : (gs : List (Option String × ℕ)) → total_of (map to_assignee_count gs) ≡ counts gs
unfolding total_of counts
total_of-map [] = refl
total_of-map (g ∷ gs) = ground (arith, total_of-map gs)

length-map : {A B : Type 0} (f : A → B) (xs : List A) → length (map f xs) ≡ length xs
length-map f [] = refl
length-map f (x ∷ xs) = ground (arith, length-map f xs)

pub count_by_assignee-total :
    (env : Env) (id : String) (w : World) (rows : List AssigneeCount)
    → (count_by_assignee env id w).0 ≡ ok rows
    → total_of rows ≡ length (select (in_project id) (seen env w).tasks)
unfolding count_by_assignee statement
count_by_assignee-total env id w rows h =
    let owners = map (λ (t : Task). t.assignee_id) (select (in_project id) (seen env w).tasks) in
    let groups = group_count same_assignee owners in
    elim (Option-cases (env.fault w.ticks)) [
      | inl up ↦
          let same : rows ≡ map to_assignee_count groups = cc (rw (up, statement) at h) in
          ground (
            arith,
            same,
            total_of-map groups,
            counts-group_count same_assignee owners,
            length-map (λ (t : Task). t.assignee_id) (select (in_project id) (seen env w).tasks),
          )
      | inr (e, down) ↦ cc (rw (down, statement) at h)
    ]
