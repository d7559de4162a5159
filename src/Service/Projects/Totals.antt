-- ===== src/Service/Projects/Totals.antt =====
-- The total of `ProjectService.Stats`.
use task_flow_alisha_sharma.Common.{ℕ, ◌+◌, String, ◌≡◌, List, [], ◌∷◌, ◌++◌, arith, length, select}
use task_flow_alisha_sharma.Common.Exec.{ok, Result, >>=-eq-ok}
use task_flow_alisha_sharma.AppError.{AppError, not_found}
use task_flow_alisha_sharma.Database.{Env, World, seen}
use task_flow_alisha_sharma.Repository.Projects
use task_flow_alisha_sharma.Repository.Tasks.Queries.{
  AssigneeCount, in_project, count_by_status, count_by_assignee,
}
use task_flow_alisha_sharma.Repository.Tasks.Queries.Groups.{total_of, count_by_assignee-total}
use task_flow_alisha_sharma.Service.Announce.{or_internal-then, or_missing-then}
use task_flow_alisha_sharma.Service.Projects.{
  ProjectStatsResponse, AssigneeTaskCount, name_for, named, name_counts, stats,
}

ok-injective : {A : Type 0} (a b : A) → ◌≡◌ {A = Result AppError A} (ok a) (ok b) → a ≡ b
ok-injective a b h = cc

name_counts-total :
    (env : Env) (rows : List AssigneeCount) (done : List AssigneeTaskCount) (n : ℕ) (w : World)
    {r : List AssigneeTaskCount × ℕ}
    → (name_counts env rows done n w).0 ≡ ok r
    → r.1 ≡ n + total_of rows
unfolding name_counts total_of
name_counts-total env [] done n w h = rw (← ok-injective _ _ h) (omega arith)
name_counts-total env (a ∷ rows) done n w h =
    let r1 = >>=-eq-ok (name_for env a.assignee_id) _ w h in
    let rest =
      name_counts-total env rows (done ++ named a r1.0 ∷ []) (n + a.count)
        (name_for env a.assignee_id w).1 r1.2 in
    ground (arith, rest)

-- A successful `Stats` of a project gives, as the total, the number of the project's tasks in the
-- tables that its count by assignee saw.
pub stats_total :
    (env : Env) (id : String) (w : World) (r : ProjectStatsResponse)
    → (stats env id w).0 ≡ ok r
    → let w₁ = (Projects.find_by_id env id w).1 in
      let w₂ = (count_by_status env id w₁).1 in
      r.total_tasks ≡ length (select (in_project id) (seen env w₂).tasks)
unfolding stats
stats_total env id w r h =
    let r1 = or_internal-then (Projects.find_by_id env id) _ w h in
    let w₁ = (Projects.find_by_id env id w).1 in
    let r2 = or_missing-then (not_found "not found") r1.0 _ w₁ r1.2 in
    let r3 = or_internal-then (count_by_status env id) _ w₁ r2.2 in
    let w₂ = (count_by_status env id w₁).1 in
    let r4 = or_internal-then (count_by_assignee env id) _ w₂ r3.2 in
    let w₃ = (count_by_assignee env id w₂).1 in
    let r5 = >>=-eq-ok (name_counts env r4.0 [] 0) _ w₃ r4.2 in
    let total = name_counts-total env r4.0 [] 0 w₃ r5.1 in
    let same = ok-injective _ r r5.2 in
    rw (← same) (omega (arith, total, count_by_assignee-total env id w₂ r4.0 r4.1))
