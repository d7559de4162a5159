-- ===== src/Middleware/Tests.antt =====
-- A token of a toy library.
use task_flow_alisha_sharma.Common.{
  ◌*◌, String, ◌≡◌, ◌≢◌, refl, Option, none, some, Bool, true, false, ◌==◌, ◌&&◌, if◌then◌else◌,
  arith, eq_iff, Bool-cases, inl, inr,
}
use task_flow_alisha_sharma.Common.Exec.{ok, err}
use task_flow_alisha_sharma.AppError.{library}
use task_flow_alisha_sharma.RateLimit.{second}
use task_flow_alisha_sharma.Repository.Tests.{ann, calm, start}
use task_flow_alisha_sharma.Service.Auth.{Crypto, AuthConfig, Claims, generate_access_token}
use task_flow_alisha_sharma.Middleware.{
  SigningMethod, hs256, hs384, hs512, other_method, Jwt, MapClaims, authenticate,
}
use task_flow_alisha_sharma.Middleware.Tokens.{ParsesOwn, access_token_roundtrip}

-- A library that can sign with one method and one secret, for one user only.
abbrev of_ann : Claims → Bool
of_ann c = c.user_id == "u1" && c.email == "ann@x.org"

abbrev is_hs256 : SigningMethod → Bool
is_hs256 hs256 = true
is_hs256 method = false

abbrev can_sign : SigningMethod → String → Claims → Bool
can_sign method secret c = is_hs256 method && secret == "secret" && of_ann c

abbrev pub toy : Crypto
toy = record {
  to_lower = λ s. s;
  trim_space = λ s. s;
  hash_password = λ n s. ok s;
  matches_password = λ hash s. hash == s;
  random_token = λ n. ok "new";
  hash_token = λ s. s;
  sign = λ method secret c.
      if can_sign method secret c then ok "token" else err (library "not signed");
}

abbrev ann_claims : MapClaims
ann_claims = record { user_id = some "u1"; email = some "ann@x.org" }

abbrev opened : Option String → Bool → Option MapClaims
opened none own = none
opened (some secret) own = if secret == "secret" && own then some ann_claims else none

abbrev toy_jwt : Jwt
toy_jwt at key token = opened (key hs256) (token == "token")

token_named : ◌≢◌ {A = String} "token" ""
token_named = ground (arith, eq_iff "token" "")

ann_named : ◌≢◌ {A = String} "u1" ""
ann_named = ground (arith, eq_iff "u1" "")

only_hs256 : (method : SigningMethod) → is_hs256 method ≡ true → method ≡ hs256
only_hs256 hs256 h = refl
only_hs256 hs384 h = cc h
only_hs256 hs512 h = cc h
only_hs256 other_method h = cc h

signed_ok :
    (method : SigningMethod) (secret : String) (c : Claims) (token : String)
    → toy.sign method secret c ≡ ok token
    → (token ≡ "token")
      × (c.user_id ≡ "u1")
      × (c.email ≡ "ann@x.org")
      × (secret ≡ "secret")
      × (method ≡ hs256)
signed_ok method secret c token signed = elim (Bool-cases (can_sign method secret c)) [
  | inl own ↦ (
    cc (rw own at signed),
    ground (arith, own, eq_iff c.user_id "u1"),
    ground (arith, own, eq_iff c.email "ann@x.org"),
    ground (arith, own, eq_iff secret "secret"),
    only_hs256 method (ground (arith, own)),
  )
  | inr other ↦ cc (rw other at signed)
]

toy-ParsesOwn : ParsesOwn toy toy_jwt
toy-ParsesOwn method secret key c token at signed =
    let s = signed_ok method secret c token signed in
    (
      λ (e : token ≡ ""). token_named (cc (s.0, e)),
      λ given live.
          let known : key hs256 ≡ some "secret" = cc (given, s.3, s.4) in
          rw (s.0, s.1, s.2, known, opened) refl,
    )

abbrev cfg : AuthConfig
cfg = record { jwt_secret = "secret"; access_expiry = 900 * second; refresh_expiry = 7000 * second }

made : (generate_access_token calm toy cfg ann start).0 ≡ ok "token"
unfolding generate_access_token
made = refl

access_token_roundtrip_example :
    authenticate toy_jwt 899 "secret" (record { x_access_token = "token"; authorization = "" })
    ≡ some "u1"
access_token_roundtrip_example =
    access_token_roundtrip calm toy cfg toy_jwt ann start "token" "" 899 toy-ParsesOwn made
      ann_named (omega arith)
