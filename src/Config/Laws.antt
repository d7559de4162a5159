-- ===== src/Config/Laws.antt =====
-- What a configuration that loads can be relied on for.
use Prim.Native.String.{len}
use task_flow_alisha_sharma.Common.{
  ◌≤◌, String, ◌≡◌, ◌≢◌, ◌↔◌, refl, Option, none, some, arith, eq_iff,
}
use task_flow_alisha_sharma.Common.Int.{ℤ}
use task_flow_alisha_sharma.Common.Exec.{ok}
use task_flow_alisha_sharma.Config.{Config, Getenv, get_env, read_config, validate, checked, load}

-- Where a variable is set, `getEnv` is its value.
get_env-empty : (env : Getenv) (key : String) → get_env env key "" ≡ env key
unfolding get_env
get_env-empty env key = ground (arith, eq_iff (env key) "")

get_env-ne : (env : Getenv) (key fallback : String) → fallback ≢ "" → get_env env key fallback ≢ ""
unfolding get_env
get_env-ne env key fallback ne e = ground (arith, eq_iff (env key) "", ne, e)

short : (s : String) → s ≡ "" → len s ≡ 0
short s e = rw e refl

validate_lem :
    (c : Config)
    → c.db_host ≢ ""
    → (validate c ≡ none) ↔ ((16 ≤ len c.jwt_secret) × (c.db_pass ≢ ""))
unfolding validate
validate_lem c host = (
  λ h. (ground (arith, h), λ (e : c.db_pass ≡ ""). ground (arith, h, eq_iff c.db_pass "", e)),
  λ k. ground (
    arith,
    k.0,
    k.1,
    host,
    eq_iff c.db_pass "",
    eq_iff c.db_host "",
    eq_iff c.jwt_secret "",
    short c.jwt_secret,
  ),
)

checked_lem : (c : Config) (bad : Option String) → (checked c bad ≡ ok c) ↔ (bad ≡ none)
checked_lem c none = (λ h. refl, λ h. refl)
checked_lem c (some msg) = (λ h. cc, λ h. cc)

differ : ◌≢◌ {A = String} "localhost" ""
differ = ground (arith, eq_iff "localhost" "")

-- A configuration loads exactly where JWT_SECRET has at least 16 bytes and DB_PASSWORD is set; no
-- other variable, whatever it holds, makes `Load` fail.
pub load_iff :
    (parse : String → Option ℤ) (env : Getenv)
    → (load parse env ≡ ok (read_config parse env))
      ↔ ((16 ≤ len (env "JWT_SECRET")) × (env "DB_PASSWORD" ≢ ""))
unfolding load
load_iff parse env =
    let c = read_config parse env in
    let valid =
      validate_lem c (unfold read_config in get_env-ne env "DB_HOST" "localhost" differ) in
    let secret : c.jwt_secret ≡ env "JWT_SECRET" =
      unfold read_config in get_env-empty env "JWT_SECRET" in
    let password : c.db_pass ≡ env "DB_PASSWORD" =
      unfold read_config in get_env-empty env "DB_PASSWORD" in
    let bad = checked_lem c (validate c) in
    (
      λ h. (rw (← secret) (valid.0 (bad.0 h)).0, rw (← password) (valid.0 (bad.0 h)).1),
      λ k. bad.1 (valid.1 (rw secret k.0, rw password k.1)),
    )
