-- ===== src/Middleware/Tokens.antt =====
-- A token from a login opens the API to its user, and the origins of the environment reach CORS.
use task_flow_alisha_sharma.RateLimit.{second}
use task_flow_alisha_sharma.Common.{
  suc, ◌+◌, ◌/◌, ℕ, ◌<◌, String, ◌≡◌, ◌≢◌, refl, Option, some, eq-false_of_ne,
}
use task_flow_alisha_sharma.Common.Int.{ℤ}
use task_flow_alisha_sharma.Common.Text.{join-split}
use task_flow_alisha_sharma.Common.Exec.{Result, ok, err, wrap_result}
use task_flow_alisha_sharma.Model.{User}
use task_flow_alisha_sharma.AppError.{internal}
use task_flow_alisha_sharma.Database.{Env, World}
use task_flow_alisha_sharma.Service.Auth.{Crypto, AuthConfig, Claims, claims, generate_access_token}
use task_flow_alisha_sharma.Config.{Getenv, get_env, read_config}
use task_flow_alisha_sharma.Middleware.{
  Jwt, SigningMethod, hs256, key_for, token_of, authenticate, cors_config,
}

-- The comma-separated origins that the environment names are, after they have been split and joined
-- again, what the CORS library is given.
pub cors_origins_roundtrip :
    (parse : String → Option ℤ) (env : Getenv)
    → (cors_config (read_config parse env)).allow_origins
      ≡ get_env env "CORS_ALLOWED_ORIGINS" "http://localhost:3000"
unfolding cors_config read_config
cors_origins_roundtrip parse env = join-split _

-- The documented behaviour of the JWT library on tokens of its own, for every method, secret and key
-- function: a text that `SignedString` has made is not empty, and, where the key function gives its
-- secret for its method, it parses to its claims until it expires.
abbrev pub ParsesOwn : Crypto → Jwt → Type 0
ParsesOwn crypto jwt =
    (method : SigningMethod) (secret : String) (key : SigningMethod → Option String) (c : Claims)
    (token : String) (at : ℕ)
    → crypto.sign method secret c ≡ ok token
    → (token ≢ "")
      × (key method ≡ some secret
          → at < c.exp
          → jwt at key token ≡ some (record { user_id = some c.user_id; email = some c.email }))

wrap_result-eq-ok :
    {E F A : Type 0} (f : E → F) (r : Result E A) {a : A} → wrap_result f r ≡ ok a → r ≡ ok a
wrap_result-eq-ok f (ok b) h = cc
wrap_result-eq-ok f (err e) h = cc

-- An access token that the service has generated for a user with an id is accepted by `Auth` that has
-- the secret of the same configuration, in the header x-access-token and until it expires, as a token
-- of that user, where the JWT library parses what it has signed whenever it is given the secret and
-- the method that it was signed with.
pub access_token_roundtrip :
    (env : Env) (crypto : Crypto) (cfg : AuthConfig) (jwt : Jwt) (u : User) (w : World)
    (token authorization : String) (at : ℕ)
    → ParsesOwn crypto jwt
    → (generate_access_token env crypto cfg u w).0 ≡ ok token
    → u.id ≢ ""
    → at < (env.clock (suc w.ticks) + cfg.access_expiry) / second
    → authenticate jwt at cfg.jwt_secret
        (record { x_access_token = token; authorization = authorization })
      ≡ some u.id
unfolding generate_access_token authenticate token_of
access_token_roundtrip env crypto cfg jwt u w token authorization at own made named fresh =
    let signed =
      wrap_result-eq-ok internal
        (crypto.sign hs256 cfg.jwt_secret
          (claims env crypto cfg u (env.clock w.ticks) (env.clock (suc w.ticks))))
        made in
    let parsed = own hs256 cfg.jwt_secret (key_for cfg.jwt_secret) _ token at signed in
    rw
      (
        eq-false_of_ne token "" parsed.0,
        eq-false_of_ne token "" parsed.0,
        parsed.1 refl fresh,
        eq-false_of_ne u.id "" named,
      )
      refl
