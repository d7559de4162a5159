-- ===== src/RateLimit/Sweeps.antt =====
-- The rounds of `cleanup` between requests cannot be observed.
use task_flow_alisha_sharma.Common.{
  ℕ, ◌≤◌, String, ◌≡◌, refl, List, [], ◌∷◌, arith, ◌==◌, eq_iff, Bool-cases, inl, inr,
}
use task_flow_alisha_sharma.Common.Dict.{lookup, insert, lookup-insert}
use task_flow_alisha_sharma.RateLimit.{
  RateLimitConfig, Entry, Entries, Verdict, Wake, ticked, stopped, hit, rate_limit, expired,
  cleanup, cleanup_loop,
}
use task_flow_alisha_sharma.RateLimit.Window.{verdict-rate_limit}
use task_flow_alisha_sharma.RateLimit.Cleanup.{
  IsMap, Requests, answers, lookup-cleanup, hit-unexpired, SameHits, rate_limit-SameHits,
}

-- What the goroutine of `cleanup` takes between a request and the one before it.
abbrev pub Work : Type 0
Work = List (List Wake × String × ℕ)

unfoldable pub swept_answers : RateLimitConfig → Work → Entries → List Verdict
swept_answers cfg [] m = []
swept_answers cfg ((wakes, key, now) ∷ rest) m =
    let here = rate_limit cfg key now now (cleanup_loop wakes m) in
    here.0 ∷ swept_answers cfg rest here.1

abbrev pub requests_of : Work → Requests
requests_of [] = []
requests_of ((wakes, key, now) ∷ rest) = (key, now) ∷ requests_of rest

abbrev pub AllBy : ℕ → List Wake → Type 0
AllBy now [] = Unit
AllBy now (ticked at ∷ wakes) = (at ≤ now) × AllBy now wakes
AllBy now (stopped ∷ wakes) = AllBy now wakes

-- The clock is read in order.
abbrev pub InOrder : ℕ → Work → Type 0
InOrder start [] = Unit
InOrder start ((wakes, key, now) ∷ rest) = (start ≤ now) × AllBy now wakes × InOrder now rest

cleanup-IsMap : (now : ℕ) (m : Entries) → IsMap m → IsMap (cleanup now m)
unfolding cleanup
cleanup-IsMap now [] h = tt
cleanup-IsMap now ((k, e) ∷ m) h = elim (Bool-cases (expired now e)) [
  | inl old ↦ rw old (cleanup-IsMap now m h.1)
  | inr young ↦ rw young (rw (lookup-cleanup now k m h.1, h.0) refl, cleanup-IsMap now m h.1)
]

cleanup_loop-IsMap : (wakes : List Wake) (m : Entries) → IsMap m → IsMap (cleanup_loop wakes m)
unfolding cleanup_loop
cleanup_loop-IsMap [] m h = h
cleanup_loop-IsMap (ticked at ∷ wakes) m h =
    cleanup_loop-IsMap wakes (cleanup at m) (cleanup-IsMap at m h)
cleanup_loop-IsMap (stopped ∷ wakes) m h = h

insert-IsMap : (key : String) (e : Entry) (m : Entries) → IsMap m → IsMap (insert key e m)
unfolding insert lookup
insert-IsMap key e [] h = (refl, tt)
insert-IsMap key e ((k, f) ∷ m) h = elim (Bool-cases (k == key)) [
  | inl here ↦ let same : k ≡ key = (eq_iff k key).0 here in rw here (rw (← same) h.0, h.1)
  | inr away ↦ rw away (
    rw (lookup-insert key k e m) (ground (arith, away, h.0, eq_iff key k, eq_iff k key)),
    insert-IsMap key e m h.1,
  )
]

rate_limit-IsMap :
    (cfg : RateLimitConfig) (key : String) (now later : ℕ) (m : Entries)
    → IsMap m
    → IsMap (rate_limit cfg key now later m).1
unfolding rate_limit
rate_limit-IsMap cfg key now later m h = insert-IsMap key (hit cfg now (lookup key m)) m h

cleanup_loop-SameHits :
    (cfg : RateLimitConfig) (now : ℕ) (wakes : List Wake) (m m' : Entries)
    → IsMap m
    → AllBy now wakes
    → SameHits cfg now m m'
    → SameHits cfg now (cleanup_loop wakes m) m'
unfolding cleanup_loop
cleanup_loop-SameHits cfg now [] m m' h by same = same
cleanup_loop-SameHits cfg now (ticked at ∷ wakes) m m' h by same =
    cleanup_loop-SameHits cfg now wakes (cleanup at m) m' (cleanup-IsMap at m h) by.1 λ key t l.
      rw (lookup-cleanup at key m h, hit-unexpired cfg at t (lookup key m) (omega (arith, by.0, l)))
        (same key t l)
cleanup_loop-SameHits cfg now (stopped ∷ wakes) m m' h by same = same

swept-SameHits :
    (cfg : RateLimitConfig) (start : ℕ) (work : Work) (m m' : Entries)
    → IsMap m
    → InOrder start work
    → SameHits cfg start m m'
    → swept_answers cfg work m ≡ answers cfg (requests_of work) m'
unfolding swept_answers answers
swept-SameHits cfg start [] m m' h order same = refl
swept-SameHits cfg start ((wakes, key, now) ∷ rest) m m' h order same =
    let left = cleanup_loop wakes m in
    let alike : SameHits cfg now left m' =
      cleanup_loop-SameHits cfg now wakes m m' h order.1
        (λ k t l. same k t (omega (arith, order.0, l))) in
    rw
      (
        verdict-rate_limit cfg key now now left,
        verdict-rate_limit cfg key now now m',
        alike key now (omega arith),
        swept-SameHits cfg now rest (rate_limit cfg key now now left).1
            (rate_limit cfg key now now m').1
            (rate_limit-IsMap cfg key now now left (cleanup_loop-IsMap wakes m h)) order.2
            (rate_limit-SameHits cfg now left m' key now (omega arith) alike),
      )
      refl

-- Whatever rounds the goroutine of `cleanup` makes between requests, of whatever keys, and wherever
-- it stops, the answers are those without it, where the map has one entry for each key and the
-- readings of the clock do not go back.
pub answers_unswept :
    (cfg : RateLimitConfig) (start : ℕ) (work : Work) (m : Entries)
    → IsMap m
    → InOrder start work
    → swept_answers cfg work m ≡ answers cfg (requests_of work) m
answers_unswept cfg start work m h order =
    swept-SameHits cfg start work m m h order λ key now l. refl
