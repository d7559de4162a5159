-- ===== src/Server/Frame/Sessions.antt =====
-- The handlers of backend/internal/handler/auth.go, within a frame that every statement keeps to.
use task_flow_alisha_sharma.Common.{
  ℕ, suc, String, refl, arith, inl, inr, Option, none, some, not, ◌==◌, select, find, Bool-cases,
}
use task_flow_alisha_sharma.Common.Exec.{Result, ok, wrap_error}
use task_flow_alisha_sharma.AppError.{AppError, Cause, unauthorized}
use task_flow_alisha_sharma.Model.{User, RefreshToken}
use task_flow_alisha_sharma.Database.{Env, World, Statement, statement}
use task_flow_alisha_sharma.Database.Others.{Elsewhere}
use task_flow_alisha_sharma.Repository.Users
use task_flow_alisha_sharma.Repository.RefreshTokens
use task_flow_alisha_sharma.Validator.{Checker}
use task_flow_alisha_sharma.Validator.Rules.{register_rules, login_rules}
use task_flow_alisha_sharma.Service.Events.{or_internal}
use task_flow_alisha_sharma.Service.Auth as AuthService
use task_flow_alisha_sharma.Service.Auth.{
  Crypto, AuthConfig, RegisterRequest, LoginRequest, drawn, absent, generate_access_token,
  create_refresh_token, open_session, stored_email, new_user, already_registered, of_duplicate,
}
use task_flow_alisha_sharma.Service.Frame.{Frame, Framed, then-Framed, row-then, guard-then}
use task_flow_alisha_sharma.Http.{Reply, answer, session, access_token, or_return}
use task_flow_alisha_sharma.Handler.Auth.{set_refresh_cookie, register, login, refresh, logout}
use task_flow_alisha_sharma.Server.Frame.{with_body-Framed}

module _ {env : Env} {u : String} {R : World → World → Type 0} (fr : Frame env u R)
    (runs : (A : Type 0) (f : Statement A) → Elsewhere f → (w : World) → R w (statement env f w).1)
    (crypto : Crypto) (cfg : AuthConfig) where
  insert_token-Elsewhere : (t : RefreshToken) → Elsewhere (RefreshTokens.insert_token t)
  unfolding RefreshTokens.insert_token
  insert_token-Elsewhere t at db = (ground arith, ground arith)

  insert_user-Elsewhere : (user : User) → Elsewhere (Users.insert_user user)
  unfolding Users.insert_user
  insert_user-Elsewhere user at db = (ground arith, ground arith)

  create_token-Framed : (t : RefreshToken) → Framed fr (RefreshTokens.create env t)
  unfolding RefreshTokens.create
  create_token-Framed t w = runs _ (RefreshTokens.insert_token t) (insert_token-Elsewhere t) w

  find_by_hash-Framed : (hash : String) → Framed fr (RefreshTokens.find_by_hash env hash)
  unfolding RefreshTokens.find_by_hash
  find_by_hash-Framed hash w =
      runs _ (λ at db. (ok (find (RefreshTokens.is_live hash at) db.refresh_tokens), db))
        (λ at db. (refl, refl)) w

  delete_by_hash-Framed : (hash : String) → Framed fr (RefreshTokens.delete_by_hash env hash)
  unfolding RefreshTokens.delete_by_hash
  delete_by_hash-Framed hash w =
      runs _
        (λ at db. (
          ok tt,
          record db {
            refresh_tokens = select (λ t. not (RefreshTokens.has_hash hash t)) db.refresh_tokens;
          },
        ))
        (λ at db. (refl, refl)) w

  create_user-Framed : (user : User) → Framed fr (Users.create env user)
  unfolding Users.create
  create_user-Framed user w = runs _ (Users.insert_user user) (insert_user-Elsewhere user) w

  find_by_email-Framed : (email : String) → Framed fr (Users.find_by_email env email)
  unfolding Users.find_by_email
  find_by_email-Framed email w =
      runs _ (λ at db. (ok (find (Users.has_email email) db.users), db)) (λ at db. (refl, refl)) w

  find_user-Framed : (id : String) → Framed fr (Users.find_by_id env id)
  unfolding Users.find_by_id
  find_user-Framed id w =
      runs _ (λ at db. (ok (find (Users.has_id id) db.users), db)) (λ at db. (refl, refl)) w

  generate-Framed : (user : User) → Framed fr (generate_access_token env crypto cfg user)
  unfolding generate_access_token
  generate-Framed user w = fr.ticks w _

  drawn-Framed : {A : Type 0} (f : ℕ → Result Cause A) → Framed fr (drawn f)
  drawn-Framed f w = fr.ticks w _

  create_refresh_token-Framed : (id : String) → Framed fr (create_refresh_token env crypto cfg id)
  unfolding create_refresh_token
  create_refresh_token-Framed id =
      then-Framed fr (drawn crypto.random_token) _ (drawn-Framed crypto.random_token) λ raw w.
        let later = record w { ticks = suc (suc (suc w.ticks)) } in
        fr.trans w later _ (fr.ticks w _) (
          then-Framed fr (or_internal (RefreshTokens.create env _)) _ (create_token-Framed _)
            (λ done v. fr.still v) later)

  open_session-Framed : (user : User) → Framed fr (open_session env crypto cfg user)
  unfolding open_session
  open_session-Framed user =
      then-Framed fr (generate_access_token env crypto cfg user) _ (generate-Framed user) λ access.
        then-Framed fr (create_refresh_token env crypto cfg user.id) _
          (create_refresh_token-Framed user.id) λ token w. fr.still w

  absent-Framed : {A : Type 0} (e : AppError) (o : Option A) → Framed fr (absent e o)
  absent-Framed e none w = fr.still w
  absent-Framed e (some a) w = fr.still w

  register_user-Framed :
      (req : RegisterRequest) → Framed fr (AuthService.register env crypto cfg req)
  unfolding AuthService.register
  register_user-Framed req =
      then-Framed fr (or_internal (Users.find_by_email env (stored_email env crypto cfg req.email)))
        _ (find_by_email-Framed _)
        λ existing.
          then-Framed fr (absent already_registered existing) _
            (absent-Framed already_registered existing)
            λ free.
              then-Framed fr (drawn (λ n. crypto.hash_password n req.password)) _
                (drawn-Framed λ n. crypto.hash_password n req.password)
                λ hashed w.
                  let later = record w { ticks = suc (suc w.ticks) } in
                  let user =
                    new_user env crypto cfg req hashed (env.new_uuid w.ticks)
                      (env.clock (suc w.ticks)) in
                  fr.trans w later _ (fr.ticks w _) (
                    then-Framed fr (wrap_error _ (Users.create env user)) _
                      (create_user-Framed user) (λ done. open_session-Framed user) later)

  login_user-Framed : (req : LoginRequest) → Framed fr (AuthService.login env crypto cfg req)
  unfolding AuthService.login
  login_user-Framed req =
      row-then fr (or_internal (Users.find_by_email env (stored_email env crypto cfg req.email)))
        (unauthorized "invalid credentials") _ (find_by_email-Framed _)
        λ user.
          guard-then fr (crypto.matches_password user.password req.password)
            (unauthorized "invalid credentials") _ (open_session-Framed user)

  refresh_tokens-Framed : (raw : String) → Framed fr (AuthService.refresh env crypto cfg raw)
  unfolding AuthService.refresh
  refresh_tokens-Framed raw =
      row-then fr (or_internal (RefreshTokens.find_by_hash env (crypto.hash_token raw)))
        (unauthorized "invalid or expired refresh token") _ (find_by_hash-Framed _)
        λ existing.
          then-Framed fr (or_internal (RefreshTokens.delete_by_hash env (crypto.hash_token raw))) _
            (delete_by_hash-Framed _)
            λ gone.
              row-then fr (or_internal (Users.find_by_id env existing.user_id))
                (unauthorized "user not found") _ (find_user-Framed _)
                λ user.
                  then-Framed fr (generate_access_token env crypto cfg user) _
                    (generate-Framed user)
                    λ access.
                      then-Framed fr (create_refresh_token env crypto cfg user.id) _
                        (create_refresh_token-Framed user.id) λ token w. fr.still w

  module _ (app_env : String) (check : Checker) where
    cookie-Framed :
        (token : String) (r : Reply)
        → Framed fr (set_refresh_cookie env crypto cfg app_env check token r)
    cookie-Framed token r w = fr.ticks w _

    pub register-Framed :
        (parsed : Option RegisterRequest) → Framed fr (register env crypto cfg app_env check parsed)
    unfolding register
    register-Framed parsed = with_body-Framed fr check register_rules parsed _ λ req.
        then-Framed fr (or_return (AuthService.register env crypto cfg req)) _
          (register_user-Framed req) λ done. cookie-Framed done.1 (answer 201 (session done.0))

    pub login-Framed :
        (parsed : Option LoginRequest) → Framed fr (login env crypto cfg app_env check parsed)
    unfolding login
    login-Framed parsed = with_body-Framed fr check login_rules parsed _ λ req.
        then-Framed fr (or_return (AuthService.login env crypto cfg req)) _ (login_user-Framed req)
          λ done. cookie-Framed done.1 (answer 200 (session done.0))

    pub refresh-Framed : (raw : String) → Framed fr (refresh env crypto cfg app_env check raw)
    unfolding refresh
    refresh-Framed raw w = elim (Bool-cases (raw == "")) [
      | inl absent ↦ rw absent (fr.still w)
      | inr given ↦ rw given (
          then-Framed fr (or_return (AuthService.refresh env crypto cfg raw)) _
            (refresh_tokens-Framed raw)
            (λ done. cookie-Framed done.1 (answer 200 (access_token done.0))) w)
    ]

    pub logout-Framed : (raw : String) → Framed fr (logout env crypto cfg app_env check raw)
    unfolding logout AuthService.logout
    logout-Framed raw w = elim (Bool-cases (raw == "")) [
      | inl absent ↦ rw absent (fr.ticks w _)
      | inr given ↦ rw given (
          let v = (RefreshTokens.delete_by_hash env (crypto.hash_token raw) w).1 in
          fr.trans w v _ (delete_by_hash-Framed (crypto.hash_token raw) w) (fr.ticks v _))
    ]
