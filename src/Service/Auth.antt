-- ===== src/Service/Auth.antt =====
-- backend/internal/service/auth.go. The cryptography, the random source and the Unicode functions of
-- the Go libraries are the fields of `Crypto`; a draw is numbered by the ticks of the process.
pub mod Login
pub mod Sessions
mod Tests
use task_flow_alisha_sharma.Common.{
  ℕ, ◌+◌, ◌/◌, suc, String, Option, none, some, Bool, true, false, [], ◌∷◌,
}
use task_flow_alisha_sharma.Common.Exec.{Result, pure, raise, wrap_result, wrap_error, ◌>>=◌, ◌>>◌}
use task_flow_alisha_sharma.Model.{User, RefreshToken}
use task_flow_alisha_sharma.AppError.{
  AppError, Cause, DbError, is_duplicate, db, internal, validation, unauthorized,
}
use task_flow_alisha_sharma.Database.{Env, Repo, now, new_id}
use task_flow_alisha_sharma.RateLimit.{second}
use task_flow_alisha_sharma.Middleware.{SigningMethod, hs256}
use task_flow_alisha_sharma.Repository.Users
use task_flow_alisha_sharma.Repository.RefreshTokens
use task_flow_alisha_sharma.Service.Events.{App, or_internal, or_missing, guard}

-- What is signed into an access token. Its times are in seconds, as `Unix` gives them.
pub record Claims : Type 0 where
  pub user_id : String
  pub email : String
  pub iat : ℕ
  pub exp : ℕ

pub record Crypto : Type 0 where
  -- strings.ToLower and strings.TrimSpace
  pub to_lower : String → String
  pub trim_space : String → String
  -- bcrypt: the hash of a password with the salt of the tick, and the comparison
  pub hash_password : ℕ → String → Result Cause String
  pub matches_password : String → String → Bool
  -- 32 random bytes in base64, and the hash of a token in hexadecimal
  pub random_token : ℕ → Result Cause String
  pub hash_token : String → String
  -- jwt.NewWithClaims and SignedString, with the method and the secret
  pub sign : SigningMethod → String → Claims → Result Cause String

pub record AuthConfig : Type 0 where
  pub jwt_secret : String
  pub access_expiry : ℕ
  pub refresh_expiry : ℕ

-- dto.RegisterRequest, dto.LoginRequest, dto.UserResponse, dto.AuthResponse
pub record RegisterRequest : Type 0 where
  pub name : String
  pub email : String
  pub password : String

pub record LoginRequest : Type 0 where
  pub email : String
  pub password : String

pub record UserResponse : Type 0 where
  pub id : String
  pub name : String
  pub email : String

pub record AuthResponse : Type 0 where
  pub access_token : String
  pub user : UserResponse

abbrev pub drawn : {A : Type 0} → (ℕ → Result Cause A) → App A
drawn f w = (wrap_result internal (f w.ticks), record w { ticks = suc w.ticks })

abbrev pub already_registered : AppError
already_registered = validation (("email", "already registered") ∷ [])

abbrev pub of_duplicate : Bool → DbError → AppError
of_duplicate true e = already_registered
of_duplicate false e = internal (db e)

abbrev pub absent : {A : Type 0} → AppError → Option A → App (Unit {0})
absent e none = pure tt
absent e (some a) = raise e

abbrev pub response : User → String → AuthResponse
response u token = record {
  access_token = token;
  user = record { id = u.id; name = u.name; email = u.email };
}

module _ (env : Env) (crypto : Crypto) (cfg : AuthConfig) where
  abbrev pub stored_email : String → String
  stored_email email = crypto.to_lower (crypto.trim_space email)

  abbrev pub claims : User → ℕ → ℕ → Claims
  claims u issued at = record {
    user_id = u.id;
    email = u.email;
    iat = issued / second;
    exp = (at + cfg.access_expiry) / second;
  }

  unfoldable pub generate_access_token : User → App String
  generate_access_token u = do
    issued ← now env
    at ← now env
    λ w. (wrap_result internal (crypto.sign hs256 cfg.jwt_secret (claims u issued at)), w)

  abbrev token_row : String → String → String → ℕ → ℕ → RefreshToken
  token_row user_id raw id expiring created = record {
    id = id;
    user_id = user_id;
    token_hash = crypto.hash_token raw;
    expires_at = expiring + cfg.refresh_expiry;
    created_at = created;
  }

  unfoldable pub create_refresh_token : String → App String
  create_refresh_token user_id = do
    raw ← drawn crypto.random_token
    id ← new_id env
    expiring ← now env
    created ← now env
    or_internal (RefreshTokens.create env (token_row user_id raw id expiring created))
    pure raw

  abbrev pub new_user : RegisterRequest → String → String → ℕ → User
  new_user req hashed id at = record {
    id = id;
    name = crypto.trim_space req.name;
    email = stored_email req.email;
    password = hashed;
    created_at = at;
  }

  -- The two tokens of a session.
  unfoldable pub open_session : User → App (AuthResponse × String)
  open_session u = do
    access ← generate_access_token u
    refresh ← create_refresh_token u.id
    pure (response u access, refresh)

  unfoldable pub register : RegisterRequest → App (AuthResponse × String)
  register req = do
    existing ← or_internal (Users.find_by_email env (stored_email req.email))
    absent already_registered existing
    hashed ← drawn (λ n. crypto.hash_password n req.password)
    id ← new_id env
    at ← now env
    let user = new_user req hashed id at
    wrap_error (λ e. of_duplicate (is_duplicate e) e) (Users.create env user)
    open_session user

  unfoldable pub login : LoginRequest → App (AuthResponse × String)
  login req = do
    found ← or_internal (Users.find_by_email env (stored_email req.email))
    user ← or_missing (unauthorized "invalid credentials") found
    guard (crypto.matches_password user.password req.password) (unauthorized "invalid credentials")
    open_session user

  unfoldable pub refresh : String → App (String × String)
  refresh raw = do
    found ← or_internal (RefreshTokens.find_by_hash env (crypto.hash_token raw))
    existing ← or_missing (unauthorized "invalid or expired refresh token") found
    or_internal (RefreshTokens.delete_by_hash env (crypto.hash_token raw))
    user ← or_internal (Users.find_by_id env existing.user_id)
    user ← or_missing (unauthorized "user not found") user
    access ← generate_access_token user
    next ← create_refresh_token user.id
    pure (access, next)

  unfoldable pub logout : String → Repo (Unit {0})
  logout raw = RefreshTokens.delete_by_hash env (crypto.hash_token raw)
