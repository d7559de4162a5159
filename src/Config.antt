-- ===== src/Config.antt =====
-- backend/internal/config/config.go. The environment is a function, with "" where a variable is not
-- set. Durations are numbers of nanoseconds; `time.ParseDuration` is a parameter.
pub mod Laws
mod Tests
use Prim.Native.Char.{code}
use Prim.Native.String
use Prim.Native.String.{len}
use task_flow_alisha_sharma.Common.{
  ℕ, ◌+◌, ◌*◌, ◌-◌, ◌^◌, ◌%◌, suc, String, Option, none, some, Bool, true, false, ◌&&◌, ◌||◌, not,
  List, ◌==◌, ltb, leb, eqb, if◌then◌else◌, option_or,
}
use task_flow_alisha_sharma.Common.Int.{ℤ, pos, negsuc, sub_ℕ}
use task_flow_alisha_sharma.Common.Text.{split, ◌<>◌}
use task_flow_alisha_sharma.Common.Exec.{Result, ok, err}

pub record Config : Type 0 where
  pub app_env : String
  pub app_port : String
  pub app_host : String
  pub body_limit_mb : ℤ
  pub read_timeout : ℤ
  pub write_timeout : ℤ
  pub idle_timeout : ℤ
  pub db_host : String
  pub db_port : String
  pub db_user : String
  pub db_pass : String
  pub db_name : String
  pub db_ssl_mode : String
  pub db_max_conn : ℤ
  pub db_min_conn : ℤ
  pub jwt_secret : String
  pub jwt_access_expiry : ℤ
  pub jwt_refresh_expiry : ℤ
  pub cors_allowed_origins : List String
  pub rate_limit_auth_max : ℤ
  pub rate_limit_auth_window : ℤ
  pub rate_limit_api_max : ℤ
  pub rate_limit_api_window : ℤ
  pub webhook_max_retries : ℤ
  pub webhook_timeout : ℤ
  pub webhook_worker_pool_sz : ℤ
  pub seed_db : Bool
  pub log_level : String
  pub log_format : String

unfoldable pub database_url : Config → String
database_url c =
    "postgres://" <> c.db_user <> ":" <> c.db_pass <> "@" <> c.db_host <> ":" <> c.db_port <> "/"
    <> c.db_name <> "?sslmode=" <> c.db_ssl_mode

abbrev pub Getenv : Type 0
Getenv = String → String

unfoldable pub get_env : Getenv → String → String → String
get_env env key fallback = if env key == "" then fallback else env key

-- The decimal digits of a text, if all its characters are such.
unfoldable pub digits : String → ℕ → Option ℕ
digits String.[] n = some n
digits (String.◌∷◌ c s) n =
    let rest = digits s (n * 10 + (code c - b'0')) in
    if leb b'0' (code c) && leb (code c) b'9' then rest else none

abbrev in_int64 : Bool → ℕ → Option ℤ
in_int64 false n = if ltb n (2 ^ 63) then some (pos n) else none
in_int64 true n = if leb n (2 ^ 63) then some (sub_ℕ 0 n) else none

abbrev signed : Bool → Option ℕ → Option ℤ
signed minus none = none
signed minus (some n) = in_int64 minus n

abbrev unsigned : Bool → String → Option ℤ
unsigned minus s = if s == "" then none else signed minus (digits s 0)

abbrev after_sign : ℕ → String → String → Option ℤ
after_sign c s whole =
    if eqb c b'-'
    then unsigned true s
    else if eqb c b'+'
    then unsigned false s
    else unsigned false whole

-- strconv.Atoi: an optional sign and digits, of a number that 64 bits hold.
unfoldable pub atoi : String → Option ℤ
atoi String.[] = none
atoi (String.◌∷◌ c s) = after_sign (code c) s (String.◌∷◌ c s)

unfoldable pub get_env_int : Getenv → String → ℤ → ℤ
get_env_int env key fallback =
    if env key == "" then fallback else option_or (atoi (env key)) fallback

unfoldable pub get_env_duration : (String → Option ℤ) → Getenv → String → ℤ → ℤ
get_env_duration parse env key fallback =
    if env key == "" then fallback else option_or (parse (env key)) fallback

-- The conversion int32(n) keeps the low 32 bits.
abbrev low32 : ℤ → ℕ
low32 (pos n) = n % 2 ^ 32
low32 (negsuc n) = 2 ^ 32 - 1 - n % 2 ^ 32

abbrev signed32 : ℕ → ℤ
signed32 u = if ltb u (2 ^ 31) then pos u else negsuc (2 ^ 32 - 1 - u)

unfoldable pub to_int32 : ℤ → ℤ
to_int32 z = signed32 (low32 z)

abbrev pub second : ℕ
second = 1_000_000_000

abbrev pub minute : ℕ
minute = 60 * second

abbrev pub hour : ℕ
hour = 60 * minute

unfoldable pub read_config : (String → Option ℤ) → Getenv → Config
read_config parse env = record {
  app_env = get_env env "APP_ENV" "development";
  app_port = get_env env "APP_PORT" "8080";
  app_host = get_env env "APP_HOST" "0.0.0.0";
  body_limit_mb = get_env_int env "APP_BODY_LIMIT_MB" (pos 1);
  read_timeout = pos (10 * second);
  write_timeout = pos (10 * second);
  idle_timeout = pos (120 * second);
  db_host = get_env env "DB_HOST" "localhost";
  db_port = get_env env "DB_PORT" "5432";
  db_user = get_env env "DB_USER" "taskflow";
  db_pass = get_env env "DB_PASSWORD" "";
  db_name = get_env env "DB_NAME" "taskflow";
  db_ssl_mode = get_env env "DB_SSL_MODE" "disable";
  db_max_conn = to_int32 (get_env_int env "DB_MAX_CONNS" (pos 25));
  db_min_conn = to_int32 (get_env_int env "DB_MIN_CONNS" (pos 5));
  jwt_secret = get_env env "JWT_SECRET" "";
  jwt_access_expiry = get_env_duration parse env "JWT_ACCESS_EXPIRY" (pos (24 * hour));
  jwt_refresh_expiry = get_env_duration parse env "JWT_REFRESH_EXPIRY" (pos (168 * hour));
  cors_allowed_origins = split (get_env env "CORS_ALLOWED_ORIGINS" "http://localhost:3000");
  rate_limit_auth_max = get_env_int env "RATE_LIMIT_AUTH_MAX" (pos 5);
  rate_limit_auth_window = get_env_duration parse env "RATE_LIMIT_AUTH_WINDOW" (pos (15 * minute));
  rate_limit_api_max = get_env_int env "RATE_LIMIT_API_MAX" (pos 100);
  rate_limit_api_window = get_env_duration parse env "RATE_LIMIT_API_WINDOW" (pos (1 * minute));
  webhook_max_retries = get_env_int env "WEBHOOK_MAX_RETRIES" (pos 3);
  webhook_timeout = get_env_duration parse env "WEBHOOK_TIMEOUT" (pos (10 * second));
  webhook_worker_pool_sz = get_env_int env "WEBHOOK_WORKER_POOL_SIZE" (pos 10);
  seed_db = get_env env "SEED_DB" "false" == "true";
  log_level = get_env env "LOG_LEVEL" "info";
  log_format = get_env env "LOG_FORMAT" "json";
}

-- `len` of a Go string counts bytes.
unfoldable pub validate : Config → Option String
validate c =
    if c.jwt_secret == ""
    then some "JWT_SECRET is required"
    else if ltb (len c.jwt_secret) 16
    then some "JWT_SECRET must be at least 16 characters"
    else if c.db_pass == ""
    then some "DB_PASSWORD is required"
    else if c.db_host == ""
    then some "DB_HOST is required"
    else none

abbrev checked : Config → Option String → Result String Config
checked c none = ok c
checked c (some msg) = err ("config validation failed: " <> msg)

unfoldable pub load : (String → Option ℤ) → Getenv → Result String Config
load parse env = checked (read_config parse env) (validate (read_config parse env))
