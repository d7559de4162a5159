-- ===== src/Server/Isolation.antt =====
-- What a request of a signed-in user leaves of the other users' rows.
use task_flow_alisha_sharma.Common.{
  ℕ, suc, ◌/◌, String, ◌≡◌, refl, inl, inr, Option, none, some, List, [], ◌∷◌, ◌==◌, find, arith,
  eq_iff, Bool-cases, Option-cases,
}
use task_flow_alisha_sharma.Common.Int.{leb_ℤ}
use task_flow_alisha_sharma.Common.Text.{◌<>◌, split}
use task_flow_alisha_sharma.Common.Exec.{ok}
use task_flow_alisha_sharma.RateLimit.{second}
use task_flow_alisha_sharma.Model.{Project}
use task_flow_alisha_sharma.Database.{Db, Env, World, Statement, statement}
use task_flow_alisha_sharma.Database.Others.{
  Distinct, Spares, Sparing, Sparing-refl, Sparing-trans, Sparing-Spares,
}
use task_flow_alisha_sharma.Middleware.{authenticate}
use task_flow_alisha_sharma.Repository.Projects as ProjectRows
use task_flow_alisha_sharma.Repository.Projects.{is_user_in_project}
use task_flow_alisha_sharma.Repository.Projects.Edits.{update_statement-Sparing}
use task_flow_alisha_sharma.Service.Frame.{Frame}
use task_flow_alisha_sharma.Service.Frame.Rows as Rows
use task_flow_alisha_sharma.Service.Frame.Edits.{update_project-within}
use task_flow_alisha_sharma.Service.Projects as ProjectService
use task_flow_alisha_sharma.Service.Projects.{UpdateProjectRequest}
use task_flow_alisha_sharma.Http.{Reply}
use task_flow_alisha_sharma.Handler.Stream.{
  Streams, conns_of, max_conns_per_user, count_up, count_down, check_projects, access, open_stream,
  close_stream, finish, admit, stream,
}
use task_flow_alisha_sharma.Server.{ApiCall, Request, Parts, Server, serve_api}
use task_flow_alisha_sharma.Server.Frame.Routes.{
  api_route-within, limited-within, authenticated-within,
}

-- Nobody but this process writes to the tables.
abbrev pub Alone : Env → Type 0
Alone env = (n : ℕ) (db : Db) → env.others n db ≡ db

abbrev SparesIn : String → World → World → Type 0
SparesIn u w v = Sparing u w.db v.db

module _ (env : Env) (u : String) (alone : Alone env) where
  statement-Sparing :
      {A : Type 0} (f : Statement A) (w : World)
      → Sparing u w.db (f (env.db_now w.ticks) w.db).1
      → Sparing u w.db (statement env f w).1.db
  unfolding statement
  statement-Sparing f w spared = elim (Option-cases (env.fault w.ticks)) [
    | inl up ↦ rw (up, statement, alone w.ticks w.db) spared
    | inr (e, down) ↦ rw (down, statement, alone w.ticks w.db) (Sparing-refl u w.db)
  ]

  spares : Frame env u (SparesIn u)
  spares = record {
    still = λ w. Sparing-refl u w.db;
    trans = λ a b c. Sparing-trans u a.db b.db c.db;
    ticks = λ w n. Sparing-refl u w.db;
    tells = λ evt w. Sparing-refl u w.db;
    runs = λ A f harmless w. statement-Sparing f w (harmless (env.db_now w.ticks) w.db);
  }

  find_project-same : (id : String) (w : World) → (ProjectRows.find_by_id env id w).1.db ≡ w.db
  unfolding ProjectRows.find_by_id statement
  find_project-same id w = ground (arith, alone w.ticks w.db)

  find_project-row :
      (id : String) (w : World) (p : Project)
      → (ProjectRows.find_by_id env id w).0 ≡ ok (some p)
      → find (ProjectRows.has_id id) w.db.projects ≡ some p
  unfolding ProjectRows.find_by_id statement
  find_project-row id w p found = ground (arith, alone w.ticks w.db, found)

  find_again : (id : String) (w : World) → Sparing u w.db (ProjectRows.find_by_id env id w).1.db
  find_again id w = Rows.find_project-Framed spares id w

  update_project-Sparing :
      (id : String) (name desc : Option String) (p : Project) (w : World)
      → Distinct w.db.projects
      → find (ProjectRows.has_id id) w.db.projects ≡ some p
      → p.owner_id ≡ u
      → Sparing u w.db (ProjectRows.update env id name desc w).1.db
  unfolding ProjectRows.update
  update_project-Sparing id none none p w keyed row mine = find_again id w
  update_project-Sparing id none (some d) p w keyed row mine =
      statement-Sparing (ProjectRows.update_statement id (ProjectRows.changes none (some d))) w
        (update_statement-Sparing u id none (some d) p (env.db_now w.ticks) w.db keyed row mine)
  update_project-Sparing id (some n) desc p w keyed row mine =
      statement-Sparing (ProjectRows.update_statement id (ProjectRows.changes (some n) desc)) w
        (update_statement-Sparing u id (some n) desc p (env.db_now w.ticks) w.db keyed row mine)

  edits :
      (id : String) (req : UpdateProjectRequest) (w : World)
      → Distinct w.db.projects
      → Sparing u w.db (ProjectService.update env id u req w).1.db
  edits id req w keyed = update_project-within spares id req w λ p found mine.
      let v = (ProjectRows.find_by_id env id w).1 in
      let same = find_project-same id w in
      update_project-Sparing id req.name req.description p v (rw same keyed)
        (rw same (find_project-row id w p found)) ((eq_iff p.owner_id u).0 mine)

  check_projects-Sparing :
      (v : String) (pids : List String) (w : World)
      → Sparing u w.db (check_projects env v pids w).1.db
  unfolding check_projects
  check_projects-Sparing v [] w = Sparing-refl u w.db
  check_projects-Sparing v (pid ∷ pids) w =
      let seen = is_user_in_project env pid v w in
      let first = Rows.member-Framed spares pid v w in
      elim (Option-cases (access seen.0 none)) [
        | inl e ↦
            rw (e, check_projects)
              (Sparing-trans u _ _ _ first (check_projects-Sparing v pids seen.1))
        | inr (r, e) ↦ rw (e, check_projects) first
      ]

  finish-db :
      (v : String) (pids : List String) (s : Streams)
      → (finish v pids (open_stream env v pids s)).1.world.db ≡ s.world.db
  unfolding open_stream close_stream count_down count_up
  finish-db v pids s = elim (Option-cases s.world.event_bus) [
    | inl e ↦ rw e refl
    | inr (b, e) ↦ rw e refl
  ]

  admit-db :
      (v : String) (pids : List String) (r : Option Reply) (s : Streams)
      → (admit env v pids r s).1.world.db ≡ s.world.db
  admit-db v pids (some r) s = refl
  admit-db v pids none s = elim (Bool-cases (leb_ℤ max_conns_per_user (conns_of v s))) [
    | inl full ↦ rw full refl
    | inr room ↦ rw room (finish-db v pids s)
  ]

  stream-Sparing :
      (v projects : String) (s : Streams)
      → Sparing u s.world.db (stream env (some v) projects s).1.world.db
  unfolding stream
  stream-Sparing v projects s = elim (Bool-cases (projects == "")) [
    | inl none_named ↦ rw none_named (Sparing-refl u s.world.db)
    | inr named ↦
        let seen = check_projects env v (split projects) s.world in
        rw (named, admit-db v (split projects) seen.0 (record s { world = seen.1 }))
          (check_projects-Sparing v (split projects) s.world)
  ]

pub others-Sparing :
    (p : Parts) (u : String) (req : Request) (call : ApiCall) (s : Server)
    → Alone p.env
    → Distinct s.streams.world.db.projects
    → authenticate p.jwt
        (p.env.clock (suc s.streams.world.ticks) / second)
        p.auth.jwt_secret
        req.credentials
      ≡ some u
    → Sparing u s.streams.world.db (serve_api p req call s).1.streams.world.db
unfolding serve_api
others-Sparing p u req call s alone keyed token =
    let fr = spares p.env u alone in
    limited-within p fr p.api_limit ("api:" <> req.ip) _ s λ es.
      authenticated-within p fr req _ _ λ v named.
        let this : v ≡ u = cc (token, named) in
        rw this (
          api_route-within p fr call _ (λ id b. edits p.env u alone id b _ keyed)
            (λ projects. stream-Sparing p.env u alone u projects _))

-- A request to a route under /api/v1, whatever it asks for, with a token that names the user `u`,
-- leaves the projects and the webhook subscriptions of all other users, the users and the refresh
-- tokens as they were, and the ids of projects distinct, where they were so and only this process
-- writes to the tables. Of the tasks nothing is said.
pub others_untouched :
    (p : Parts) (u : String) (req : Request) (call : ApiCall) (s : Server)
    → Alone p.env
    → Distinct s.streams.world.db.projects
    → authenticate p.jwt
        (p.env.clock (suc s.streams.world.ticks) / second)
        p.auth.jwt_secret
        req.credentials
      ≡ some u
    → let after = (serve_api p req call s).1.streams.world.db in
      Spares u s.streams.world.db after × Distinct after.projects
others_untouched p u req call s alone keyed token =
    let step = others-Sparing p u req call s alone keyed token in
    (Sparing-Spares u s.streams.world.db _ step, step.keyed keyed)
