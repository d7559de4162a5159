-- ===== src/Service/Tasks/Edited.antt =====
-- What a request to `TaskService.Update` makes of the fields of a task.
use task_flow_alisha_sharma.Common.{
  ℕ, ◌+◌, String, ◌≡◌, refl, ◌∙◌, inl, inr, Option, none, some, true, List, [], ◌∷◌, ◌++◌,
  option_or, find, arith, eq_iff, Bool-cases, Option-cases,
}
use task_flow_alisha_sharma.Common.Int.{ℤ, pos, negsuc, eqb_ℤ}
use task_flow_alisha_sharma.Model.{Task}
use task_flow_alisha_sharma.Database.{Env}
use task_flow_alisha_sharma.Repository.Tasks.{
  Column, Updates, title, description, status, priority, assignee_id, due_date, bind_column,
  bind_columns, assign, assign_all, updated_row, at_version,
}
use task_flow_alisha_sharma.Service.Tasks.{UpdateTaskRequest, entry, updates_of}

-- A field that a request may give.
abbrev pub given_or : Option String → Option String → Option String
given_or none old = old
given_or (some v) old = some v

-- The date of a request is stored in the form that the database gives it.
abbrev pub date_or : Env → Option String → Option String → Option String
date_or env none old = old
date_or env (some d) old = env.date_text d

-- The task `after` is `before`, at the version of the request, with the fields that the request gives,
-- the next version and the time; all else is the same.
pub record Edited (env : Env) (id : String) (req : UpdateTaskRequest) (at : ℕ) (before after : Task)
    : Type 0 where
  pub of_id : before.id ≡ id
  pub of_version : pos before.version ≡ req.version
  pub title_eq : after.title ≡ option_or req.title before.title
  pub description_eq : after.description ≡ given_or req.description before.description
  pub status_eq : after.status ≡ option_or req.status before.status
  pub priority_eq : after.priority ≡ option_or req.priority before.priority
  pub assignee_eq : after.assignee_id ≡ given_or req.assignee_id before.assignee_id
  pub due_eq : after.due_date ≡ date_or env req.due_date before.due_date
  pub version_eq : after.version ≡ before.version + 1
  pub updated_eq : after.updated_at ≡ at
  pub id_eq : after.id ≡ before.id
  pub project_eq : after.project_id ≡ before.project_id
  pub creator_eq : after.creator_id ≡ before.creator_id
  pub created_eq : after.created_at ≡ before.created_at

-- A field that is not given is no parameter.
abbrev Binds : Env → Column → Option String → Option String → Type 0
Binds env c none bound = bound ≡ none
Binds env c (some v) bound = (v' : String) × (bound ≡ some v') × (bind_column env c v ≡ some v')

abbrev assign_if : Column → Option String → Task → Task
assign_if c none t = t
assign_if c (some v) t = assign c v t

-- The first column of the map, and the others.
bind-first :
    (env : Env) (c : Column) (o : Option String) (us bound : Updates)
    → bind_columns env (entry c o ++ us) ≡ some bound
    → (o' : Option String) × (rest : Updates) × Binds env c o o'
      × (bind_columns env us ≡ some rest)
      × ((t : Task) → assign_all bound t ≡ assign_all rest (assign_if c o' t))
bind-first env c none us bound h = (none, bound, refl, h, λ t. refl)
bind-first env c (some v) us bound h = elim (Option-cases (bind_column env c v)) [
  | inl bad ↦ unfold bind_columns in cc (rw (bad, bind_columns) at h)
  | inr (v', fine) ↦ elim (Option-cases (bind_columns env us)) [
    | inl bad ↦ unfold bind_columns in cc (rw (fine, bad, bind_columns) at h)
    | inr (rest, e) ↦
        unfold bind_columns in
        let same : (c, v') ∷ rest ≡ bound = cc (rw (fine, e, bind_columns) at h) in
        (some v', rest, (v', refl, fine), e, λ t. rw (← same) (unfold assign_all in refl))
  ]
]

bind_nil : (env : Env) (rest : Updates) → bind_columns env [] ≡ some rest → rest ≡ []
unfolding bind_columns
bind_nil env rest h = cc h

bind-last :
    (env : Env) (c : Column) (o : Option String) (bound : Updates)
    → bind_columns env (entry c o) ≡ some bound
    → (o' : Option String) × Binds env c o o' × ((t : Task) → assign_all bound t ≡ assign_if c o' t)
unfolding assign_all
bind-last env c none bound h =
    let first = bind-first env c none [] bound h in
    (first.0, first.2, λ t. first.4 t ∙ rw (bind_nil env first.1 first.3) refl)
bind-last env c (some v) bound h =
    let first = bind-first env c (some v) [] bound h in
    (first.0, first.2, λ t. first.4 t ∙ rw (bind_nil env first.1 first.3) refl)

-- The columns whose texts are stored as they are given, and the date.
stored_given :
    (env : Env) (c : Column) (o o' : Option String)
    → ((v v' : String) → bind_column env c v ≡ some v' → v' ≡ v)
    → Binds env c o o'
    → o' ≡ o
stored_given env c none o' asis h = h
stored_given env c (some v) o' asis (v', e, b) = e ∙ rw (asis v v' b) refl

stored_date :
    (env : Env) (o o' old : Option String)
    → Binds env due_date o o'
    → given_or o' old ≡ date_or env o old
stored_date env none o' old h = rw h refl
stored_date env (some d) o' old (v', e, b) = rw e (cc b)

assign_title :
    (o : Option String) (t : Task) → assign_if title o t ≡ record t { title = option_or o t.title }
assign_title none t = refl
assign_title (some v) t = refl

assign_description :
    (o : Option String) (t : Task)
    → assign_if description o t ≡ record t { description = given_or o t.description }
assign_description none t = refl
assign_description (some v) t = refl

assign_status :
    (o : Option String) (t : Task)
    → assign_if status o t ≡ record t { status = option_or o t.status }
assign_status none t = refl
assign_status (some v) t = refl

assign_priority :
    (o : Option String) (t : Task)
    → assign_if priority o t ≡ record t { priority = option_or o t.priority }
assign_priority none t = refl
assign_priority (some v) t = refl

assign_assignee :
    (o : Option String) (t : Task)
    → assign_if assignee_id o t ≡ record t { assignee_id = given_or o t.assignee_id }
assign_assignee none t = refl
assign_assignee (some v) t = refl

assign_due :
    (o : Option String) (t : Task)
    → assign_if due_date o t ≡ record t { due_date = given_or o t.due_date }
assign_due none t = refl
assign_due (some v) t = refl

assign_all-fields :
    (env : Env) (req : UpdateTaskRequest) (bound : Updates) (t : Task)
    → bind_columns env (updates_of req) ≡ some bound
    → assign_all bound t ≡ record t {
      title = option_or req.title t.title;
      description = given_or req.description t.description;
      status = option_or req.status t.status;
      priority = option_or req.priority t.priority;
      assignee_id = given_or req.assignee_id t.assignee_id;
      due_date = date_or env req.due_date t.due_date;
    }
unfolding updates_of
assign_all-fields env req bound t h =
    let b1 = bind-first env title req.title _ bound h in
    let b2 = bind-first env description req.description _ b1.1 b1.3 in
    let b3 = bind-first env status req.status _ b2.1 b2.3 in
    let b4 = bind-first env priority req.priority _ b3.1 b3.3 in
    let b5 = bind-first env assignee_id req.assignee_id _ b4.1 b4.3 in
    let b6 = bind-last env due_date req.due_date b5.1 b5.3 in
    rw
      (
        b1.4 t,
        b2.4,
        b3.4,
        b4.4,
        b5.4,
        b6.2,
        assign_title b1.0 t,
        assign_description b2.0,
        assign_status b3.0,
        assign_priority b4.0,
        assign_assignee b5.0,
        assign_due b6.0,
        stored_given env title req.title b1.0 (λ v v' e. ground (arith, e)) b1.2,
        stored_given env description req.description b2.0 (λ v v' e. ground (arith, e)) b2.2,
        stored_given env status req.status b3.0 (λ v v' e. ground (arith, e)) b3.2,
        stored_given env priority req.priority b4.0 (λ v v' e. ground (arith, e)) b4.2,
        stored_given env assignee_id req.assignee_id b5.0 (λ v v' e. ground (arith, e)) b5.2,
        stored_date env req.due_date b6.0 t.due_date b6.1,
      )
      refl

found_at :
    (id : String) (version : ℤ) (ts : List Task) (t : Task)
    → find (at_version id version) ts ≡ some t
    → (t.id ≡ id) × (pos t.version ≡ version)
found_at id version [] t h = cc h
found_at id version (s ∷ ts) t h = elim (Bool-cases (at_version id version s)) [
  | inl hit ↦
      let same : s ≡ t = cc (rw hit at h) in
      rw (← same)
        (ground (arith, hit, eq_iff s.id id), same_version s.version version (ground (arith, hit)))
  | inr miss ↦ found_at id version ts t (rw miss at h)
]
  where
    same_version : (n : ℕ) (z : ℤ) → eqb_ℤ (pos n) z ≡ true → pos n ≡ z
    same_version n (pos m) h = ground (arith, h)
    same_version n (negsuc m) h = ground (arith, h)

pub updated_row-Edited :
    (env : Env) (id : String) (req : UpdateTaskRequest) (at : ℕ) (bound : Updates) (ts : List Task)
    (t : Task)
    → bind_columns env (updates_of req) ≡ some bound
    → find (at_version id req.version) ts ≡ some t
    → Edited env id req at t (updated_row at bound t)
updated_row-Edited env id req at bound ts t good found =
    let here = found_at id req.version ts t found in
    rw (assign_all-fields env req bound t good) (record {
      of_id = here.0;
      of_version = here.1;
      title_eq = refl;
      description_eq = refl;
      status_eq = refl;
      priority_eq = refl;
      assignee_eq = refl;
      due_eq = refl;
      version_eq = refl;
      updated_eq = refl;
      id_eq = refl;
      project_eq = refl;
      creator_eq = refl;
      created_eq = refl;
    })
