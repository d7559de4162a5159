-- ===== src/Server/Opaque/Sessions.antt =====
-- The replies of backend/internal/handler/auth.go.
use task_flow_alisha_sharma.Common.{suc, ◌≤◌, String, inl, inr, Option, ◌==◌, arith, Bool-cases}
use task_flow_alisha_sharma.Database.{Env}
use task_flow_alisha_sharma.Validator.{Checker}
use task_flow_alisha_sharma.Validator.Rules.{register_rules, login_rules}
use task_flow_alisha_sharma.Service.Auth.{Crypto, AuthConfig, RegisterRequest, LoginRequest}
use task_flow_alisha_sharma.Service.Auth as AuthService
use task_flow_alisha_sharma.Service.Opaque.Sessions as Sessions
use task_flow_alisha_sharma.Http.{Reply, answer, refuse, session, access_token}
use task_flow_alisha_sharma.Handler.{no_content}
use task_flow_alisha_sharma.Handler.Auth.{set_refresh_cookie, register, login, refresh, logout}
use task_flow_alisha_sharma.Server.Opaque.Rules.{
  lesser-Opaque, Replies, call-then, with_body-Replies,
}

module _ (env : Env) (crypto : Crypto) (cfg : AuthConfig) (app_env : String) (check : Checker) where
  cookie-Replies :
      (token : String) (r : Reply)
      → suc r.status ≤ 500
      → Replies (set_refresh_cookie env crypto cfg app_env check token r)
  cookie-Replies token r small w = (omega (arith, small), λ h. absurd (omega (arith, small, h)))

  pub register-Replies :
      (parsed : Option RegisterRequest) → Replies (register env crypto cfg app_env check parsed)
  unfolding register
  register-Replies parsed = with_body-Replies check register_rules parsed _ λ req.
      call-then (AuthService.register env crypto cfg req) _
        (Sessions.register-Raises env crypto cfg req)
        λ done. cookie-Replies done.1 (answer 201 (session done.0)) (omega arith)

  pub login-Replies :
      (parsed : Option LoginRequest) → Replies (login env crypto cfg app_env check parsed)
  unfolding login
  login-Replies parsed = with_body-Replies check login_rules parsed _ λ req.
      call-then (AuthService.login env crypto cfg req) _ (Sessions.login-Raises env crypto cfg req)
        λ done. cookie-Replies done.1 (answer 200 (session done.0)) (omega arith)

  pub refresh-Replies : (raw : String) → Replies (refresh env crypto cfg app_env check raw)
  unfolding refresh
  refresh-Replies raw w = elim (Bool-cases (raw == "")) [
    | inl absent ↦ rw absent (lesser-Opaque (refuse 401 "unauthorized") (omega arith))
    | inr given ↦ rw given (
        call-then (AuthService.refresh env crypto cfg raw) _
          (Sessions.refresh-Raises env crypto cfg raw)
          (λ done. cookie-Replies done.1 (answer 200 (access_token done.0)) (omega arith)) w)
  ]

  pub logout-Replies : (raw : String) → Replies (logout env crypto cfg app_env check raw)
  unfolding logout
  logout-Replies raw w = elim (Bool-cases (raw == "")) [
    | inl absent ↦ rw absent (lesser-Opaque no_content (omega arith))
    | inr given ↦ rw given (lesser-Opaque no_content (omega arith))
  ]
