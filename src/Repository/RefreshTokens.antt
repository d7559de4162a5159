-- ===== src/Repository/RefreshTokens.antt =====
-- backend/internal/repository/refresh_token.go
use task_flow_alisha_sharma.Common.{
  ℕ, String, Option, Bool, not, ◌&&◌, [], ◌∷◌, ◌++◌, ◌==◌, ltb, leb, if◌then◌else◌, find, any,
  select,
}
use task_flow_alisha_sharma.Common.Exec.{ok, err}
use task_flow_alisha_sharma.Model.{RefreshToken}
use task_flow_alisha_sharma.AppError.{duplicate_key, foreign_key, too_long}
use task_flow_alisha_sharma.Database.{Env, Repo, Statement, statement, user_exists, fits}

abbrev has_id : String → RefreshToken → Bool
has_id id t = t.id == id

abbrev pub has_hash : String → RefreshToken → Bool
has_hash hash t = t.token_hash == hash

unfoldable pub insert_token : RefreshToken → Statement (Unit {0})
insert_token t at db =
    if any (has_id t.id) db.refresh_tokens
    then (err duplicate_key, db)
    else if not (fits 64 t.token_hash)
    then (err too_long, db)
    else if not (user_exists t.user_id db)
    then (err foreign_key, db)
    else (ok tt, record db { refresh_tokens = db.refresh_tokens ++ t ∷ [] })

unfoldable pub create : Env → RefreshToken → Repo (Unit {0})
unfolding statement insert_token
create env t = statement env (insert_token t)

-- token_hash = $1 AND expires_at > NOW()
abbrev pub is_live : String → ℕ → RefreshToken → Bool
is_live hash at t = has_hash hash t && ltb at t.expires_at

unfoldable pub find_by_hash : Env → String → Repo (Option RefreshToken)
unfolding statement
find_by_hash env hash = statement env λ at db. (ok (find (is_live hash at) db.refresh_tokens), db)

unfoldable pub delete_by_hash : Env → String → Repo (Unit {0})
unfolding statement
delete_by_hash env hash = statement env λ at db.
    (ok tt, record db { refresh_tokens = select (λ t. not (has_hash hash t)) db.refresh_tokens })

unfoldable pub delete_by_user_id : Env → String → Repo (Unit {0})
unfolding statement
delete_by_user_id env user_id = statement env λ at db. (
  ok tt,
  record db {
    refresh_tokens = select (λ (t : RefreshToken). not (t.user_id == user_id)) db.refresh_tokens;
  },
)

unfoldable pub delete_expired : Env → Repo (Unit {0})
unfolding statement
delete_expired env = statement env λ at db. (
  ok tt,
  record db {
    refresh_tokens = select (λ (t : RefreshToken). not (leb t.expires_at at)) db.refresh_tokens;
  },
)
