-- ===== src/Service/Opaque/Sessions.antt =====
-- The errors of backend/internal/service/auth.go.
use mathlib.Core.Path.{subst}
use task_flow_alisha_sharma.Common.{
  arith, suc, ◌≤◌, String, ◌≡◌, Bool, true, false, Option, none, some, ℕ,
}
use task_flow_alisha_sharma.Common.Exec.{Result, pure, wrap_error, ◌>>◌}
use task_flow_alisha_sharma.AppError.{
  AppError, Cause, DbError, is_duplicate, internal, db, unauthorized,
}
use task_flow_alisha_sharma.Model.{User, RefreshToken}
use task_flow_alisha_sharma.Database.{Repo, Env}
use task_flow_alisha_sharma.Repository.RefreshTokens
use task_flow_alisha_sharma.Repository.Users
use task_flow_alisha_sharma.Service.Events.{or_internal}
use task_flow_alisha_sharma.Service.Opaque.{
  Proper, internal-Proper, lesser-Proper, Raises, then-Raises, pure-Raises, wrapped-Raises,
  internal-then, row-then, guard-then,
}
use task_flow_alisha_sharma.Service.Auth.{
  Crypto, AuthConfig, RegisterRequest, LoginRequest, drawn, absent, of_duplicate,
  already_registered, stored_email, generate_access_token, create_refresh_token, open_session,
  new_user, register, login, refresh,
}

drawn-Raises : {A : Type 0} (f : ℕ → Result Cause A) → Raises (drawn f)
drawn-Raises f w e h = wrapped-Raises internal (f w.ticks) internal-Proper e h

absent-Raises : {A : Type 0} (x : AppError) (o : Option A) → suc x.code ≤ 500 → Raises (absent x o)
absent-Raises x none small w e h = cc
absent-Raises x (some a) small w e h =
    let same : x ≡ e = cc h in subst Proper same (lesser-Proper x small)

of_duplicate-Proper : (b : Bool) (e : DbError) → Proper (of_duplicate b e)
of_duplicate-Proper true e = lesser-Proper already_registered (omega arith)
of_duplicate-Proper false e = internal-Proper (db e)

module _ (env : Env) (crypto : Crypto) (cfg : AuthConfig) where
  generate_access_token-Raises : (u : User) → Raises (generate_access_token env crypto cfg u)
  unfolding generate_access_token
  generate_access_token-Raises u w e h = wrapped-Raises internal _ internal-Proper e h

  store-Raises :
      (row : RefreshToken) (raw : String)
      → Raises (or_internal (RefreshTokens.create env row) >> pure raw)
  store-Raises row raw = internal-then (RefreshTokens.create env row) _ λ done. pure-Raises raw

  create_refresh_token-Raises : (id : String) → Raises (create_refresh_token env crypto cfg id)
  unfolding create_refresh_token
  create_refresh_token-Raises id =
      then-Raises (drawn crypto.random_token) _ (drawn-Raises crypto.random_token)
        λ raw w. store-Raises _ raw _

  open_session-Raises : (u : User) → Raises (open_session env crypto cfg u)
  unfolding open_session
  open_session-Raises u =
      then-Raises (generate_access_token env crypto cfg u) _ (generate_access_token-Raises u)
        λ access.
          then-Raises (create_refresh_token env crypto cfg u.id) _
            (create_refresh_token-Raises u.id) λ next. pure-Raises _

  abbrev by_email : String → Repo (Option User)
  by_email email = Users.find_by_email env (stored_email env crypto cfg email)

  pub login-Raises : (req : LoginRequest) → Raises (login env crypto cfg req)
  unfolding login
  login-Raises req =
      row-then (by_email req.email) (unauthorized "invalid credentials") _ (omega arith) λ user.
        guard-then (crypto.matches_password user.password req.password)
          (unauthorized "invalid credentials") _ (omega arith) (open_session-Raises user)

  pub refresh-Raises : (raw : String) → Raises (refresh env crypto cfg raw)
  unfolding refresh
  refresh-Raises raw =
      row-then (RefreshTokens.find_by_hash env (crypto.hash_token raw))
        (unauthorized "invalid or expired refresh token") _ (omega arith)
        λ existing.
          internal-then (RefreshTokens.delete_by_hash env (crypto.hash_token raw)) _ λ gone.
            row-then (Users.find_by_id env existing.user_id) (unauthorized "user not found") _
              (omega arith)
              λ user.
                then-Raises (generate_access_token env crypto cfg user) _
                  (generate_access_token-Raises user)
                  λ access.
                    then-Raises (create_refresh_token env crypto cfg user.id) _
                      (create_refresh_token-Raises user.id) λ next. pure-Raises (access, next)

  insert_user-Raises :
      (u : User) → Raises (wrap_error (λ e. of_duplicate (is_duplicate e) e) (Users.create env u))
  insert_user-Raises u w e h =
      wrapped-Raises (λ x. of_duplicate (is_duplicate x) x) _
        (λ x. of_duplicate-Proper (is_duplicate x) x) e h

  enrol-Raises :
      (u : User)
      → Raises (
          wrap_error (λ e. of_duplicate (is_duplicate e) e) (Users.create env u)
          >> open_session env crypto cfg u)
  enrol-Raises u =
      then-Raises (wrap_error (λ e. of_duplicate (is_duplicate e) e) (Users.create env u)) _
        (insert_user-Raises u) λ done. open_session-Raises u

  pub register-Raises : (req : RegisterRequest) → Raises (register env crypto cfg req)
  unfolding register
  register-Raises req = internal-then (by_email req.email) _ λ existing.
      then-Raises (absent already_registered existing) _
        (absent-Raises already_registered existing (omega arith))
        λ new.
          then-Raises (drawn (λ n. crypto.hash_password n req.password)) _
            (drawn-Raises (λ n. crypto.hash_password n req.password))
            λ hashed w.
              enrol-Raises
                (new_user env crypto cfg req hashed (env.new_uuid w.ticks)
                  (env.clock (suc w.ticks)))
                (record w { ticks = suc (suc w.ticks) })
