-- ===== src/Service/Auth/Login.antt =====
-- What a successful `AuthService.Login` has checked and stored.
use task_flow_alisha_sharma.Common.{
  ℕ, String, ◌≡◌, refl, sym, inl, inr, some, true, List, [], ◌∷◌, ◌++◌, ◌≢◌, arith, All, Bool-cases,
  Option-cases, find, eq_iff,
}
use task_flow_alisha_sharma.Common.Exec.{ok, >>=-eq-ok, Result}
use task_flow_alisha_sharma.Model.{User, RefreshToken}
use task_flow_alisha_sharma.AppError.{AppError, unauthorized}
use task_flow_alisha_sharma.Database.{Db, Env, World, statement, seen}
use task_flow_alisha_sharma.Repository.Users
use task_flow_alisha_sharma.Repository.Users.{has_email}
use task_flow_alisha_sharma.Repository.RefreshTokens
use task_flow_alisha_sharma.Repository.RefreshTokens.{insert_token}
use task_flow_alisha_sharma.Service.Announce.{or_internal-then, or_missing-then, guard-then}
use task_flow_alisha_sharma.Service.Auth.{
  drawn, response, Crypto, AuthConfig, LoginRequest, AuthResponse, stored_email,
  generate_access_token, create_refresh_token, open_session, login,
}

-- The newest row of the tokens is one of this user for this token.
pub record Stored (crypto : Crypto) (user raw : String) (db : Db) : Type 0 where
  pub older : List RefreshToken
  pub row : RefreshToken
  pub rows_eq : db.refresh_tokens ≡ older ++ row ∷ []
  pub user_eq : row.user_id ≡ user
  pub hash_eq : row.token_hash ≡ crypto.hash_token raw

-- The user is the first of the rows with this email.
pub record FirstUser (email : String) (u : User) (users : List User) : Type 0 where
  pub earlier : List User
  pub later : List User
  pub users_eq : users ≡ earlier ++ u ∷ later
  pub email_eq : u.email ≡ email
  pub first : All (λ v. v.email ≢ email) earlier

find-FirstUser :
    (email : String) (us : List User) (u : User)
    → find (has_email email) us ≡ some u
    → FirstUser email u us
find-FirstUser email [] u h = cc h
find-FirstUser email (v ∷ us) u h = elim (Bool-cases (has_email email v)) [
  | inl hit ↦
      let same : v ≡ u = cc (rw hit at h) in
      record {
        earlier = [];
        later = us;
        users_eq = rw same refl;
        email_eq = rw (← same) (ground (arith, hit, eq_iff v.email email));
        first = tt;
      }
  | inr miss ↦
      let rest = find-FirstUser email us u (rw miss at h) in
      record {
        earlier = v ∷ rest.earlier;
        later = rest.later;
        users_eq = cc (rest.users_eq);
        email_eq = rest.email_eq;
        first =
            ((λ (e : v.email ≡ email). ground (arith, miss, e, eq_iff v.email email)), rest.first);
      }
]

find_by_email-FirstUser :
    (env : Env) (email : String) (u : User) (w : World)
    → (Users.find_by_email env email w).0 ≡ ok (some u)
    → FirstUser email u (seen env w).users
unfolding Users.find_by_email
find_by_email-FirstUser env email u w h = elim (Option-cases (env.fault w.ticks)) [
  | inl up ↦ find-FirstUser email (seen env w).users u (ground (arith, rw (up, statement) at h))
  | inr (e, down) ↦ cc (rw (down, statement) at h)
]

insert_token-rows :
    (t : RefreshToken) (at : ℕ) (db : Db)
    → (insert_token t at db).0 ≡ ok tt
    → (insert_token t at db).1.refresh_tokens ≡ db.refresh_tokens ++ t ∷ []
unfolding insert_token
insert_token-rows t at db h = ground (arith, h)

create-rows :
    (env : Env) (t : RefreshToken) (w : World)
    → (RefreshTokens.create env t w).0 ≡ ok tt
    → (RefreshTokens.create env t w).1.db.refresh_tokens ≡ (seen env w).refresh_tokens ++ t ∷ []
unfolding RefreshTokens.create statement
create-rows env t w h = elim (Option-cases (env.fault w.ticks)) [
  | inl up ↦
      rw (up, statement)
        (insert_token-rows t (env.db_now w.ticks) (seen env w) (rw (up, statement) at h))
  | inr (e, down) ↦ cc (rw (down, statement) at h)
]

create-Stored :
    (env : Env) (crypto : Crypto) (t : RefreshToken) (w : World) (user raw : String)
    → (RefreshTokens.create env t w).0 ≡ ok tt
    → t.user_id ≡ user
    → t.token_hash ≡ crypto.hash_token raw
    → Stored crypto user raw (RefreshTokens.create env t w).1.db
create-Stored env crypto t w user raw h of_user of_hash = record {
  older = (seen env w).refresh_tokens;
  row = t;
  rows_eq = create-rows env t w h;
  user_eq = of_user;
  hash_eq = of_hash;
}

first_of :
    (a b : AuthResponse) (c d : String)
    → ◌≡◌ {A = Result AppError (AuthResponse × String)} (ok (a, c)) (ok (b, d))
    → (a ≡ b) × (c ≡ d)
first_of a b c d h = (cc, cc)

module _ (env : Env) (crypto : Crypto) (cfg : AuthConfig) where
  create_refresh_token-Stored :
      (user raw : String) (w : World)
      → (create_refresh_token env crypto cfg user w).0 ≡ ok raw
      → Stored crypto user raw (create_refresh_token env crypto cfg user w).1.db
  unfolding create_refresh_token
  create_refresh_token-Stored user raw w h =
      let r1 = >>=-eq-ok (drawn crypto.random_token) _ w h in
      let r2 = or_internal-then (RefreshTokens.create env _) _ _ r1.2 in
      let new : r1.0 ≡ raw = cc (r2.2) in
      rw (r1.3, r2.3) (create-Stored env crypto _ _ user raw r2.1 refl (rw new refl))

  open_session-Stored :
      (u : User) (resp : AuthResponse) (raw : String) (w : World)
      → (open_session env crypto cfg u w).0 ≡ ok (resp, raw)
      → (access : String) × (resp ≡ response u access)
        × Stored crypto u.id raw (open_session env crypto cfg u w).1.db
  unfolding open_session
  open_session-Stored u resp raw w h =
      let r1 = >>=-eq-ok (generate_access_token env crypto cfg u) _ w h in
      let w₁ = (generate_access_token env crypto cfg u w).1 in
      let r2 = >>=-eq-ok (create_refresh_token env crypto cfg u.id) _ w₁ r1.2 in
      let same = first_of (response u r1.0) resp r2.0 raw r2.2 in
      (
        r1.0,
        sym same.0,
        rw (r1.3, r2.3) (create_refresh_token-Stored u.id raw w₁ (rw same.1 at r2.1)),
      )

  -- A successful `Login` has read the first row of the users whose email is that of the request,
  -- trimmed and in lower case, in the tables as they were then: no row before it has that email. The
  -- password of the request fits that user's hash; the answer names that user; and the hash of the
  -- refresh token that is returned is stored for that user.
  pub login_ok :
      (req : LoginRequest) (resp : AuthResponse) (raw : String) (w : World)
      → (login env crypto cfg req w).0 ≡ ok (resp, raw)
      → (u : User) × (access : String) × FirstUser
          (crypto.to_lower (crypto.trim_space req.email))
          u
          (seen env w).users
        × (crypto.matches_password u.password req.password ≡ true)
        × (resp ≡ response u access)
        × Stored crypto u.id raw (login env crypto cfg req w).1.db
  unfolding login
  login_ok req resp raw w h =
      let email = stored_email env crypto cfg req.email in
      let bad = unauthorized "invalid credentials" in
      let r1 = or_internal-then (Users.find_by_email env email) _ w h in
      let w₁ = (Users.find_by_email env email w).1 in
      let r2 = or_missing-then bad r1.0 _ w₁ r1.2 in
      let r3 = guard-then (crypto.matches_password r2.0.password req.password) bad _ w₁ r2.2 in
      let session = open_session-Stored r2.0 resp raw w₁ r3.1 in
      (
        r2.0,
        session.0,
        find_by_email-FirstUser env email r2.0 w (cc (r1.1, r2.1)),
        r3.0,
        session.1,
        rw (r1.3, r2.3, r3.2) session.2,
      )
