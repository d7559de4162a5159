-- ===== src/Middleware.antt =====
-- backend/internal/middleware: the authentication, and the headers that the other middleware sets.
-- The JWT library is not part of the repository: `Jwt` is its parser at a time in seconds, which asks
-- the key function of `Auth` for the key of the token's signing method.
pub mod Tokens
pub mod Tests
use Prim.Native.String
use text.Mathlib.Text.{starts_with}
use task_flow_alisha_sharma.Common.{
  ℕ, String, Option, none, some, Bool, true, false, List, [], ◌∷◌, ◌==◌, if◌then◌else◌, option_or,
}
use task_flow_alisha_sharma.Common.Dict.{Dict}
use task_flow_alisha_sharma.Common.Text.{trim_prefix, join}
use task_flow_alisha_sharma.Config.{Config}

-- jwt.SigningMethod: the three that are a SigningMethodHMAC, and the others.
pub data SigningMethod : Type 0 where
  hs256 hs384 hs512 other_method : SigningMethod

abbrev pub is_hmac : SigningMethod → Bool
is_hmac other_method = false
is_hmac method = true

-- The claims of a valid token, as far as they are texts.
pub record MapClaims : Type 0 where
  pub user_id : Option String
  pub email : Option String

abbrev pub Jwt : Type 0
Jwt = ℕ → (SigningMethod → Option String) → String → Option MapClaims

-- The two headers that may hold the token; "" is a header that is not there.
pub record Credentials : Type 0 where
  pub x_access_token : String
  pub authorization : String

unfoldable pub token_of : Credentials → String
token_of c =
    if c.x_access_token == ""
    then (if starts_with c.authorization "Bearer "
        then trim_prefix c.authorization "Bearer "
        else "")
    else c.x_access_token

abbrev pub key_for : String → SigningMethod → Option String
key_for secret method = if is_hmac method then some secret else none

abbrev pub known_user : String → Option String
known_user id = if id == "" then none else some id

abbrev user_of : Option MapClaims → Option String
user_of none = none
user_of (some claims) = known_user (option_or claims.user_id "")

-- The user id that `Auth` puts among the locals; `none` is the reply 401.
unfoldable pub authenticate : Jwt → ℕ → String → Credentials → Option String
authenticate jwt at secret c =
    if token_of c == "" then none else user_of (jwt at (key_for secret) (token_of c))

unfoldable pub security_headers : String → Dict String
security_headers app_env =
    ("X-Frame-Options", "DENY")
    ∷ ("X-Content-Type-Options", "nosniff")
    ∷ ("Content-Security-Policy", "default-src 'self'")
    ∷ ("Referrer-Policy", "strict-origin-when-cross-origin")
    ∷ (if app_env == "production"
        then ("Strict-Transport-Security", "max-age=31536000; includeSubDomains") ∷ []
        else [])

-- What `CORS` hands to the library.
pub record CorsConfig : Type 0 where
  pub allow_origins : String
  pub allow_methods : String
  pub allow_headers : String
  pub expose_headers : String
  pub allow_credentials : Bool
  pub max_age : ℕ

unfoldable pub cors_config : Config → CorsConfig
cors_config cfg = record {
  allow_origins = join cfg.cors_allowed_origins;
  allow_methods = "GET,POST,PATCH,DELETE,OPTIONS";
  allow_headers = "x-access-token,Content-Type,Authorization,X-Request-Id";
  expose_headers = "X-Request-Id";
  allow_credentials = true;
  max_age = 86400;
}
