-- ===== src/Service/Auth/Sessions.antt =====
-- The refresh tokens of `AuthService`: what a session stores, and what `Refresh` uses up.
use task_flow_alisha_sharma.Common.{
  ℕ, String, ◌≡◌, ◌≢◌, refl, inl, inr, none, false, List, [], ◌∷◌, ◌++◌, arith, Option-cases, any,
  any-select, find, eq-false_of_ne,
}
use task_flow_alisha_sharma.Common.Exec.{ok, err, >>=-eq-ok, Result}
use task_flow_alisha_sharma.Model.{User, RefreshToken}
use task_flow_alisha_sharma.AppError.{AppError, unauthorized}
use task_flow_alisha_sharma.Database.{Db, Env, World, Statement, statement, seen}
use task_flow_alisha_sharma.Repository.Users
use task_flow_alisha_sharma.Repository.RefreshTokens
use task_flow_alisha_sharma.Repository.RefreshTokens.{has_hash, is_live, insert_token}
use task_flow_alisha_sharma.Service.Announce.{or_internal-then, or_missing-then}
use task_flow_alisha_sharma.Service.Auth.{
  drawn, Crypto, AuthConfig, generate_access_token, create_refresh_token, refresh,
}

abbrev pub Gone : String → Db → Type 0
Gone hash db = any (has_hash hash) db.refresh_tokens ≡ false

any-append :
    (hash : String) (ts : List RefreshToken) (t : RefreshToken)
    → any (has_hash hash) ts ≡ false
    → has_hash hash t ≡ false
    → any (has_hash hash) (ts ++ t ∷ []) ≡ false
any-append hash [] t h e = ground (arith, h, e)
any-append hash (u ∷ ts) t h e = ground (arith, h, e, any-append hash ts t)

find-Gone :
    (hash : String) (at : ℕ) (ts : List RefreshToken)
    → any (has_hash hash) ts ≡ false
    → find (is_live hash at) ts ≡ none
find-Gone hash at [] h = refl
find-Gone hash at (t ∷ ts) h = ground (arith, h, find-Gone hash at ts)

-- No other connection adds a token with this hash: tokens are 32 random bytes.
abbrev pub NeverAdds : Env → String → Type 0
NeverAdds env hash = (n : ℕ) (db : Db) → Gone hash db → Gone hash (env.others n db)

-- A statement that adds no such token, in a world that has none.
statement-Gone :
    {A : Type 0} (env : Env) (hash : String) (f : Statement A) (w : World)
    → NeverAdds env hash
    → ((at : ℕ) (db : Db) → Gone hash db → Gone hash (f at db).1)
    → Gone hash w.db
    → Gone hash (statement env f w).1.db
unfolding statement
statement-Gone env hash f w others keeps h = elim (Option-cases (env.fault w.ticks)) [
  | inl up ↦ rw (up, statement) (keeps (env.db_now w.ticks) (seen env w) (others w.ticks w.db h))
  | inr (e, down) ↦ rw (down, statement) (others w.ticks w.db h)
]

delete_by_hash-Gone :
    (env : Env) (hash : String) (w : World)
    → (RefreshTokens.delete_by_hash env hash w).0 ≡ ok tt
    → Gone hash (RefreshTokens.delete_by_hash env hash w).1.db
unfolding RefreshTokens.delete_by_hash statement
delete_by_hash-Gone env hash w h = elim (Option-cases (env.fault w.ticks)) [
  | inl up ↦ rw (up, statement) (any-select (has_hash hash) (seen env w).refresh_tokens)
  | inr (e, down) ↦ cc (rw (down, statement) at h)
]

insert_token-Gone :
    (hash : String) (t : RefreshToken) (at : ℕ) (db : Db)
    → has_hash hash t ≡ false
    → Gone hash db
    → Gone hash (insert_token t at db).1
unfolding insert_token
insert_token-Gone hash t at db e h = ground (arith, h, e, any-append hash db.refresh_tokens t h e)

create-Gone :
    (env : Env) (hash : String) (t : RefreshToken) (w : World)
    → NeverAdds env hash
    → has_hash hash t ≡ false
    → Gone hash w.db
    → Gone hash (RefreshTokens.create env t w).1.db
unfolding RefreshTokens.create
create-Gone env hash t w others e h =
    statement-Gone env hash (insert_token t) w others
      (λ at db gone. insert_token-Gone hash t at db e gone) h

find_user-Gone :
    (env : Env) (hash id : String) (w : World)
    → NeverAdds env hash
    → Gone hash w.db
    → Gone hash (Users.find_by_id env id w).1.db
unfolding Users.find_by_id
find_user-Gone env hash id w others h =
    statement-Gone env hash (λ at db. (ok (find (Users.has_id id) db.users), db)) w others
      (λ at db gone. gone) h

second_of :
    (a b c d : String) → ◌≡◌ {A = Result AppError (String × String)} (ok (a, c)) (ok (b, d)) → c ≡ d
second_of a b c d h = cc

module _ (env : Env) (crypto : Crypto) (cfg : AuthConfig) where
  generate_access_token-db :
      (u : User) (w : World) → (generate_access_token env crypto cfg u w).1.db ≡ w.db
  unfolding generate_access_token
  generate_access_token-db u w = refl

  create_refresh_token-Gone :
      (hash user raw : String) (w : World)
      → NeverAdds env hash
      → crypto.hash_token raw ≢ hash
      → (create_refresh_token env crypto cfg user w).0 ≡ ok raw
      → Gone hash w.db
      → Gone hash (create_refresh_token env crypto cfg user w).1.db
  unfolding create_refresh_token
  create_refresh_token-Gone hash user raw w others ne h gone =
      let r1 = >>=-eq-ok (drawn crypto.random_token) _ w h in
      let r2 = or_internal-then (RefreshTokens.create env _) _ _ r1.2 in
      let new : r1.0 ≡ raw = cc (r2.2) in
      rw (r1.3, r2.3)
        (create-Gone env hash _ _ others
          (eq-false_of_ne (crypto.hash_token r1.0) hash (λ e. ne (cc (e, new)))) gone)

  -- The token is gone once `Refresh` has used it.
  refresh_spends :
      (raw access next : String) (w : World)
      → NeverAdds env (crypto.hash_token raw)
      → crypto.hash_token next ≢ crypto.hash_token raw
      → (refresh env crypto cfg raw w).0 ≡ ok (access, next)
      → Gone (crypto.hash_token raw) (refresh env crypto cfg raw w).1.db
  unfolding refresh
  refresh_spends raw access next w others ne h =
      let hash = crypto.hash_token raw in
      let r1 = or_internal-then (RefreshTokens.find_by_hash env hash) _ w h in
      let w₁ = (RefreshTokens.find_by_hash env hash w).1 in
      let r2 = or_missing-then (unauthorized "invalid or expired refresh token") r1.0 _ w₁ r1.2 in
      let r3 = or_internal-then (RefreshTokens.delete_by_hash env hash) _ w₁ r2.2 in
      let w₂ = (RefreshTokens.delete_by_hash env hash w₁).1 in
      let r4 = or_internal-then (Users.find_by_id env r2.0.user_id) _ w₂ r3.2 in
      let w₃ = (Users.find_by_id env r2.0.user_id w₂).1 in
      let r5 = or_missing-then (unauthorized "user not found") r4.0 _ w₃ r4.2 in
      let r6 = >>=-eq-ok (generate_access_token env crypto cfg r5.0) _ w₃ r5.2 in
      let w₄ = (generate_access_token env crypto cfg r5.0 w₃).1 in
      let r7 = >>=-eq-ok (create_refresh_token env crypto cfg r5.0.id) _ w₄ r6.2 in
      let gone₂ = delete_by_hash-Gone env hash w₁ r3.1 in
      let gone₃ = find_user-Gone env hash r2.0.user_id w₂ others gone₂ in
      let gone₄ : Gone hash w₄.db = rw (generate_access_token-db r5.0 w₃) gone₃ in
      let new = second_of r6.0 access r7.0 next r7.2 in
      rw (r1.3, r2.3, r3.3, r4.3, r5.3, r6.3, r7.3)
        (create_refresh_token-Gone hash r5.0.id r7.0 w₄ others (rw new ne) r7.1 gone₄)

  -- A token that is not in the tables is refused.
  refresh_refuses :
      (raw : String) (w : World)
      → NeverAdds env (crypto.hash_token raw)
      → Gone (crypto.hash_token raw) w.db
      → env.fault w.ticks ≡ none
      → (refresh env crypto cfg raw w).0 ≡ err (unauthorized "invalid or expired refresh token")
  unfolding refresh RefreshTokens.find_by_hash statement
  refresh_refuses raw w others gone up =
      let none_found =
        find-Gone (crypto.hash_token raw) (env.db_now w.ticks) (seen env w).refresh_tokens
          (others w.ticks w.db gone) in
      rw (up, statement, none_found) refl

  -- A refresh token is good for one use. `Refresh` has succeeded with a token, no other connection
  -- adds a token with its hash, and the hash of the token given in its place is another. The next
  -- `Refresh` with the same token, if its first statement does not fail, answers 401.
  pub refresh_once :
      (raw access next : String) (w : World)
      → NeverAdds env (crypto.hash_token raw)
      → crypto.hash_token next ≢ crypto.hash_token raw
      → (refresh env crypto cfg raw w).0 ≡ ok (access, next)
      → env.fault (refresh env crypto cfg raw w).1.ticks ≡ none
      → (refresh env crypto cfg raw (refresh env crypto cfg raw w).1).0
        ≡ err (unauthorized "invalid or expired refresh token")
  refresh_once raw access next w others ne h up =
      refresh_refuses raw (refresh env crypto cfg raw w).1 others
        (refresh_spends raw access next w others ne h) up
