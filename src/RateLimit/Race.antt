-- ===== src/RateLimit/Race.antt =====
-- Requests of one key that run at the same time. Their handlers share the entry, and nothing orders
-- what they do to it: `e.count++` loads and stores, and the comparison loads once more. What stands
-- here is the part of the handler after the reset, of requests within one window.
pub mod Fairness
mod Tests
use mathlib.Core.Path.{subst}
use mathlib.Core.List.{append_assoc}
use task_flow_alisha_sharma.Common.{
  ℕ, zero, suc, ◌+◌, ◌≤◌, ◌<◌, ◌≡◌, ◌≢◌, refl, List, [], ◌∷◌, ◌++◌, All, All-append, length,
  length-append, length-replicate, replicate, arith,
}
use task_flow_alisha_sharma.Common.Int.{ℤ, pos, ltb_ℤ}
use task_flow_alisha_sharma.RateLimit.{RateLimitConfig, Entry, Verdict, pass, refuse, verdict}

-- Where a request's handler stands.
pub data Thread : Type 0 where
  arrived : Thread
  loaded : ℕ → Thread
  stored : Thread
  answered : Verdict → Thread

pub record Race : Type 0 where
  pub entry : Entry
  pub threads : List Thread

abbrev pub with_count : ℕ → Entry → Entry
with_count n e = record e { count = n }

pub data Move (cfg : RateLimitConfig) (e : Entry) : Thread → Entry → Thread → Type 0 where
  load : Move cfg e arrived e (loaded e.count)
  store : {c : ℕ} → Move cfg e (loaded c) (with_count (suc c) e) stored
  decide : (later : ℕ) → Move cfg e stored e (answered (verdict cfg later e))

pub data Reach (cfg : RateLimitConfig) (r : Race) : Race → Type 0 where
  start : Reach cfg r r
  step :
      {e f : Entry} {t u : Thread} (before after : List Thread)
      → Reach cfg r (record { entry = e; threads = before ++ t ∷ after })
      → Move cfg e t f u
      → Reach cfg r (record { entry = f; threads = before ++ u ∷ after })

-- `n` requests that are about to count themselves.
abbrev pub arrivals : ℕ → Entry → Race
arrivals n e = record { entry = e; threads = replicate n arrived }

-- One request after the other makes the same move, where that leaves the entry as it is.
sweep :
    {cfg : RateLimitConfig} {r : Race} {e : Entry} {t u : Thread}
    → Move cfg e t e u
    → (done : List Thread) (n : ℕ)
    → Reach cfg r (record { entry = e; threads = done ++ replicate n t })
    → Reach cfg r (record { entry = e; threads = done ++ replicate n u })
sweep mv done zero reach = reach
sweep {cfg} {r} {e} {t} {u} mv done (suc n) reach =
    let here : (m : Thread) → (done ++ u ∷ []) ++ replicate n m ≡ done ++ u ∷ replicate n m =
      λ (m : Thread). append_assoc done (u ∷ []) (replicate n m) in
    let moved : Reach cfg r (record { entry = e; threads = (done ++ u ∷ []) ++ replicate n t }) =
      rw (here t) (step done (replicate n t) reach mv) in
    rw (← (here u)) (sweep mv (done ++ u ∷ []) n moved)

pub passes :
    (cfg : RateLimitConfig) (later m : ℕ) (e : Entry)
    → cfg.max ≡ pos m
    → e.count ≤ m
    → verdict cfg later e ≡ pass
unfolding verdict
passes cfg later m e max room = rw max (ground (arith, room))

-- The limit does not hold for requests at the same time: where the entry leaves room for one more
-- request, any number of requests can all pass, in the order in which all load the count before any
-- stores it, and the entry has then counted one of them.
pub race_passes :
    (cfg : RateLimitConfig) (m n later : ℕ) (e : Entry)
    → cfg.max ≡ pos m
    → e.count < m
    → Reach cfg
        (arrivals (suc n) e)
        (record { entry = with_count (suc e.count) e; threads = replicate (suc n) (answered pass) })
race_passes cfg m n later e max room =
    let allow = passes cfg later m (with_count (suc e.count) e) max room in
    let loads = sweep {r = arrivals (suc n) e} load [] (suc n) start in
    let first = step [] (replicate n (loaded e.count)) loads store in
    let stores = sweep store (stored ∷ []) n first in
    subst
      (λ (v : Verdict).
        Reach cfg (arrivals (suc n) e)
          (record { entry = with_count (suc e.count) e; threads = replicate (suc n) (answered v) }))
      allow (sweep (decide later) [] (suc n) stores)
