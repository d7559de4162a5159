-- ===== src/Handler/Auth.antt =====
-- backend/internal/handler/auth.go
use task_flow_alisha_sharma.Common.{ℕ, ◌+◌, ◌*◌, String, Option, some, ◌==◌, if◌then◌else◌}
use task_flow_alisha_sharma.Common.Int.{pos, sub_ℕ}
use task_flow_alisha_sharma.Common.Exec.{ok, pure, ◌>>=◌, ◌>>◌}
use task_flow_alisha_sharma.RateLimit.{second}
use task_flow_alisha_sharma.Database.{Env, Repo, now}
use task_flow_alisha_sharma.Validator.{Checker}
use task_flow_alisha_sharma.Validator.Rules.{register_rules, login_rules}
use task_flow_alisha_sharma.Service.Auth as AuthService
use task_flow_alisha_sharma.Service.Auth.{Crypto, AuthConfig, RegisterRequest, LoginRequest}
use task_flow_alisha_sharma.Http.{
  Reply, Cookie, Handler, answer, refuse, session, access_token, or_return,
}
use task_flow_alisha_sharma.Handler.{with_body, no_content}

-- The error of the call is dropped.
abbrev pub ignored : {A : Type 0} → Repo A → Handler (Unit {0})
ignored m w = (ok tt, (m w).1)

module _ (env : Env) (crypto : Crypto) (cfg : AuthConfig) (app_env : String) (check : Checker) where
  abbrev refresh_cookie : String → ℕ → Cookie
  refresh_cookie token at = record {
    value = token;
    secure = app_env == "production";
    expires = pos (at + cfg.refresh_expiry);
  }

  abbrev cleared_cookie : ℕ → Cookie
  cleared_cookie at = record {
    value = "";
    secure = app_env == "production";
    expires = sub_ℕ at (3600 * second);
  }

  abbrev pub set_refresh_cookie : String → Reply → Handler Reply
  set_refresh_cookie token r =
      now env >>= λ at. pure (record r { cookie = some (refresh_cookie token at) })

  abbrev pub clear_refresh_cookie : Reply → Handler Reply
  clear_refresh_cookie r = now env >>= λ at. pure (record r { cookie = some (cleared_cookie at) })

  unfoldable pub register : Option RegisterRequest → Handler Reply
  register parsed = with_body check register_rules parsed λ req.
      or_return (AuthService.register env crypto cfg req) >>= λ done.
      set_refresh_cookie done.1 (answer 201 (session done.0))

  unfoldable pub login : Option LoginRequest → Handler Reply
  login parsed = with_body check login_rules parsed λ req.
      or_return (AuthService.login env crypto cfg req) >>= λ done.
      set_refresh_cookie done.1 (answer 200 (session done.0))

  unfoldable pub refresh : String → Handler Reply
  refresh raw =
      if raw == ""
      then pure (refuse 401 "unauthorized")
      else (or_return (AuthService.refresh env crypto cfg raw) >>= λ done.
          set_refresh_cookie done.1 (answer 200 (access_token done.0)))

  unfoldable pub logout : String → Handler Reply
  logout raw =
      (if raw == "" then pure tt else ignored (AuthService.logout env crypto cfg raw))
      >> clear_refresh_cookie no_content
