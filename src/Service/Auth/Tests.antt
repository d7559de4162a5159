-- ===== src/Service/Auth/Tests.antt =====
-- Runs of the sessions with a toy cryptography, and their theorems there.
use text.Mathlib.TextEquality.{eq_iff}
use task_flow_alisha_sharma.Common.{
  String, ◌≡◌, ◌≢◌, refl, true, [], ◌∷◌, ◌==◌, arith, select, if◌then◌else◌,
}
use task_flow_alisha_sharma.Common.Exec.{ok, err}
use task_flow_alisha_sharma.Model.{User, RefreshToken}
use task_flow_alisha_sharma.AppError.{unauthorized}
use task_flow_alisha_sharma.Database.{World, seen}
use task_flow_alisha_sharma.Repository.Tests.{ann, tables, calm, start}
use task_flow_alisha_sharma.Repository.Users
use task_flow_alisha_sharma.Repository.RefreshTokens
use task_flow_alisha_sharma.Service.Auth.{
  Crypto, AuthConfig, LoginRequest, response, generate_access_token, create_refresh_token,
  open_session, login, refresh,
}
use task_flow_alisha_sharma.Service.Auth.Sessions.{refresh_once}
use task_flow_alisha_sharma.Service.Auth.Login.{FirstUser, Stored, login_ok}

-- The address is the only text that changes when it is trimmed or put in lower case. Hashes are the
-- texts themselves, and the token that is drawn is "new".
abbrev toy : Crypto
toy = record {
  to_lower = λ s. if s == "ANN@x.org" then "ann@x.org" else s;
  trim_space = λ s. if s == " ANN@x.org" then "ANN@x.org" else s;
  hash_password = λ n s. ok s;
  matches_password = λ hash s. hash == s;
  random_token = λ n. ok "new";
  hash_token = λ s. s;
  sign = λ method secret c. ok c.user_id;
}

abbrev cfg : AuthConfig
cfg = record { jwt_secret = "secret"; access_expiry = 900; refresh_expiry = 7000 }

abbrev right : LoginRequest
right = record { email = " ANN@x.org"; password = "h" }

abbrev token : RefreshToken
token = record { id = "r1"; user_id = "u1"; token_hash = "old"; expires_at = 1000; created_at = 1 }

abbrev signed_in : World
signed_in = record start { db = record tables { refresh_tokens = token ∷ [] } }

refreshes : (refresh calm toy cfg "old" signed_in).0 ≡ ok ("u1", "new")
unfolding refresh generate_access_token create_refresh_token Users.find_by_id RefreshTokens.create
    RefreshTokens.find_by_hash RefreshTokens.delete_by_hash select
refreshes = refl

new_not_old : ◌≢◌ {A = String} "new" "old"
new_not_old = ground (arith, eq_iff "new" "old")

refresh_once_example :
    (refresh calm toy cfg "old" (refresh calm toy cfg "old" signed_in).1).0
    ≡ err (unauthorized "invalid or expired refresh token")
refresh_once_example =
    refresh_once calm toy cfg "old" "u1" "new" signed_in (λ n db h. h) new_not_old refreshes refl

logs_in : (login calm toy cfg right start).0 ≡ ok (response ann "u1", "new")
unfolding login open_session generate_access_token create_refresh_token Users.find_by_email
    RefreshTokens.create
logs_in = refl

login_ok_example :
    (u : User) × (access : String) × FirstUser
      (toy.to_lower (toy.trim_space " ANN@x.org"))
      u
      (seen calm start).users
    × (toy.matches_password u.password "h" ≡ true)
    × (response ann "u1" ≡ response u access)
    × Stored toy u.id "new" (login calm toy cfg right start).1.db
login_ok_example = login_ok calm toy cfg right (response ann "u1") "new" start logs_in
