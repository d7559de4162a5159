-- ===== src/RateLimit/Cleanup.antt =====
-- `cleanup` cannot be observed: it deletes only entries that the next request would reset.
use task_flow_alisha_sharma.Common.{
  ℕ, ◌≤◌, String, ◌≡◌, refl, Option, none, some, Bool, List, [], ◌∷◌, arith, if◌then◌else◌, ◌==◌,
  eq_iff,
}
use task_flow_alisha_sharma.Common.Dict.{lookup}
use task_flow_alisha_sharma.RateLimit.{
  RateLimitConfig, Entry, Entries, Verdict, hit, rate_limit, expired, cleanup,
}
use task_flow_alisha_sharma.RateLimit.Window.{lookup-rate_limit, verdict-rate_limit}

abbrev has_key : String → String × Entry → Bool
has_key k (j, e) = j == k

-- A map holds each key once.
abbrev pub IsMap : Entries → Type 0
IsMap [] = Unit
IsMap ((k, e) ∷ m) = (lookup k m ≡ none) × IsMap m

abbrev unexpired : ℕ → Option Entry → Option Entry
unexpired now none = none
unexpired now (some e) = if expired now e then none else some e

pub lookup-cleanup :
    (now : ℕ) (key : String) (m : Entries)
    → IsMap m
    → lookup key (cleanup now m) ≡ unexpired now (lookup key m)
unfolding lookup cleanup
lookup-cleanup now key [] h = refl
lookup-cleanup now key ((k, e) ∷ m) h = ground (arith, lookup-cleanup now key m h.1, eq_iff k key)

pub hit-unexpired :
    (cfg : RateLimitConfig) (before now : ℕ) (o : Option Entry)
    → before ≤ now
    → hit cfg now (unexpired before o) ≡ hit cfg now o
unfolding hit
hit-unexpired cfg before now o h = ground arith

-- Requests with their keys and readings of the clock, and the answers to them.
abbrev pub Requests : Type 0
Requests = List (String × ℕ)

unfoldable pub answers : RateLimitConfig → Requests → Entries → List Verdict
answers cfg [] m = []
answers cfg ((key, now) ∷ rest) m =
    let here = rate_limit cfg key now now m in here.0 ∷ answers cfg rest here.1

abbrev pub AllFrom : ℕ → Requests → Type 0
AllFrom start [] = Unit
AllFrom start ((key, now) ∷ rest) = (start ≤ now) × AllFrom start rest

-- What two maps make of any request from `start` on.
abbrev pub SameHits : RateLimitConfig → ℕ → Entries → Entries → Type 0
SameHits cfg start m m' =
    (key : String) (now : ℕ)
    → start ≤ now
    → hit cfg now (lookup key m) ≡ hit cfg now (lookup key m')

pub rate_limit-SameHits :
    (cfg : RateLimitConfig) (start : ℕ) (m m' : Entries) (key : String) (now : ℕ)
    → start ≤ now
    → SameHits cfg start m m'
    → SameHits cfg start (rate_limit cfg key now now m).1 (rate_limit cfg key now now m').1
rate_limit-SameHits cfg start m m' key now h same other at l =
    rw
      (
        lookup-rate_limit cfg key other now now m,
        lookup-rate_limit cfg key other now now m',
        same key now h,
      )
      (ground (arith, same other at l))

answers-SameHits :
    (cfg : RateLimitConfig) (start : ℕ) (reqs : Requests) (m m' : Entries)
    → AllFrom start reqs
    → SameHits cfg start m m'
    → answers cfg reqs m ≡ answers cfg reqs m'
unfolding answers
answers-SameHits cfg start [] m m' h same = refl
answers-SameHits cfg start ((key, now) ∷ rest) m m' h same =
    rw
      (
        verdict-rate_limit cfg key now now m,
        verdict-rate_limit cfg key now now m',
        same key now h.0,
        answers-SameHits cfg start rest _ _ h.1
            (rate_limit-SameHits cfg start m m' key now h.0 same),
      )
      refl

-- A cleanup of a map with one entry for each key changes the answer to no request at or after its
-- time, of whatever keys and in whatever order.
pub answers-cleanup :
    (cfg : RateLimitConfig) (start : ℕ) (reqs : Requests) (m : Entries)
    → IsMap m
    → AllFrom start reqs
    → answers cfg reqs (cleanup start m) ≡ answers cfg reqs m
answers-cleanup cfg start reqs m h from =
    answers-SameHits cfg start reqs (cleanup start m) m from
      λ key now l. rw (lookup-cleanup start key m h) (hit-unexpired cfg start now (lookup key m) l)
