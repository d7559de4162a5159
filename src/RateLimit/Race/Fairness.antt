-- ===== src/RateLimit/Race/Fairness.antt =====
-- The race on the counter never costs a request that is within the limit.
use task_flow_alisha_sharma.Common.{
  ℕ, zero, suc, ◌+◌, ◌≤◌, ◌≡◌, List, [], ◌∷◌, ◌++◌, All, All-append, length, length-append,
  length-replicate, replicate, arith,
}
use task_flow_alisha_sharma.Common.Int.{pos}
use task_flow_alisha_sharma.RateLimit.{RateLimitConfig, Entry, pass}
use task_flow_alisha_sharma.RateLimit.Race.{
  Thread, arrived, loaded, stored, answered, Race, Move, load, store, decide, Reach, start, step,
  arrivals, passes,
}

-- A handler that has stored or decided.
abbrev counted : Thread → ℕ
counted arrived = 0
counted (loaded c) = 0
counted stored = 1
counted (answered v) = 1

abbrev total : List Thread → ℕ
total [] = 0
total (t ∷ ts) = counted t + total ts

total-append : (xs ys : List Thread) → total (xs ++ ys) ≡ total xs + total ys
total-append [] ys = omega arith
total-append (x ∷ xs) ys = omega (arith, total-append xs ys)

total-le : (xs : List Thread) → total xs ≤ length xs
total-le [] = omega arith
total-le (arrived ∷ xs) = omega (arith, total-le xs)
total-le (loaded c ∷ xs) = omega (arith, total-le xs)
total-le (stored ∷ xs) = omega (arith, total-le xs)
total-le (answered v ∷ xs) = omega (arith, total-le xs)

-- What a handler has loaded is at most `bound`, and it was not refused.
abbrev Fair : ℕ → Thread → Type 0
Fair bound (loaded c) = c ≤ bound
Fair bound (answered v) = v ≡ pass
Fair bound t = Unit

Fair-le : (a b : ℕ) (xs : List Thread) → a ≤ b → All (Fair a) xs → All (Fair b) xs
Fair-le a b [] h fair = tt
Fair-le a b (arrived ∷ xs) h fair = (tt, Fair-le a b xs h fair.1)
Fair-le a b (loaded c ∷ xs) h fair = (omega (arith, h, fair.0), Fair-le a b xs h fair.1)
Fair-le a b (stored ∷ xs) h fair = (tt, Fair-le a b xs h fair.1)
Fair-le a b (answered v ∷ xs) h fair = (fair.0, Fair-le a b xs h fair.1)

All-split :
    (P : Thread → Type 0) (xs : List Thread) (y : Thread) (ys : List Thread)
    → All P (xs ++ y ∷ ys)
    → All P xs × P y × All P ys
All-split P [] y ys h = (tt, h.0, h.1)
All-split P (x ∷ xs) y ys h = let r = All-split P xs y ys h.1 in ((h.0, r.0), r.1, r.2)

record Bounded (k n : ℕ) (r : Race) : Type 0 where
  few : r.entry.count ≤ k + total r.threads
  fair : All (Fair (k + total r.threads)) r.threads
  all_there : length r.threads ≡ n

-- One handler's part of that.
Move-Fair :
    {cfg : RateLimitConfig} {e f : Entry} {t u : Thread} (m b : ℕ)
    → Move cfg e t f u
    → cfg.max ≡ pos m
    → b ≤ m
    → e.count ≤ b
    → Fair b t
    → (f.count + counted t ≤ b + counted u) × Fair b u
Move-Fair m b load max room few fair = (omega (arith, few), few)
Move-Fair m b store max room few fair = (omega (arith, fair), tt)
Move-Fair {cfg} {e} m b (decide later) max room few fair =
    (omega (arith, few), passes cfg later m e max (omega (arith, few, room)))

counted-Move :
    {cfg : RateLimitConfig} {e f : Entry} {t u : Thread} → Move cfg e t f u → counted t ≤ counted u
counted-Move load = omega arith
counted-Move store = omega arith
counted-Move (decide later) = omega arith

Bounded-Move :
    {cfg : RateLimitConfig} {e f : Entry} {t u : Thread} (m k n : ℕ) (before after : List Thread)
    → Move cfg e t f u
    → cfg.max ≡ pos m
    → k + n ≤ m
    → Bounded k n (record { entry = e; threads = before ++ t ∷ after })
    → Bounded k n (record { entry = f; threads = before ++ u ∷ after })
Bounded-Move {t} {u} m k n before after mv max room inv =
    let b = k + total (before ++ t ∷ after) in
    let b' = k + total (before ++ u ∷ after) in
    let old = total-append before (t ∷ after) in
    let new = total-append before (u ∷ after) in
    let parts = All-split (Fair b) before t after inv.fair in
    let small : b ≤ m = omega (arith, total-le (before ++ t ∷ after), inv.all_there, room) in
    let here = Move-Fair m b mv max small inv.few parts.1 in
    let up : b ≤ b' = omega (arith, old, new, counted-Move mv) in
    let keep : (xs : List Thread) → All (Fair b) xs → All (Fair b') xs =
      λ (xs : List Thread). Fair-le b b' xs up in
    let mine = keep (u ∷ []) (here.1, tt) in
    record {
      few = omega (arith, here.0, old, new);
      fair =
          All-append (Fair b') before (u ∷ after) (keep before parts.0)
            (mine.0, keep after parts.2);
      all_there = omega (
        arith,
        inv.all_there,
        length-append before (t ∷ after),
        length-append before (u ∷ after),
      );
    }

arrivals-Fair : (b n : ℕ) → All (Fair b) (replicate n arrived)
arrivals-Fair b zero = tt
arrivals-Fair b (suc n) = (tt, arrivals-Fair b n)

Reach-Bounded :
    {cfg : RateLimitConfig} {r s : Race} (m k n : ℕ)
    → cfg.max ≡ pos m
    → k + n ≤ m
    → Bounded k n r
    → Reach cfg r s
    → Bounded k n s
Reach-Bounded m k n max room inv start = inv
Reach-Bounded m k n max room inv (step before after reach mv) =
    Bounded-Move m k n before after mv max room (Reach-Bounded m k n max room inv reach)

-- The request is not one that was refused.
abbrev pub Unrefused : Thread → Type 0
Unrefused (answered v) = v ≡ pass
Unrefused t = Unit

Fair-Unrefused : (b : ℕ) (xs : List Thread) → All (Fair b) xs → All Unrefused xs
Fair-Unrefused b [] fair = tt
Fair-Unrefused b (arrived ∷ xs) fair = (tt, Fair-Unrefused b xs fair.1)
Fair-Unrefused b (loaded c ∷ xs) fair = (tt, Fair-Unrefused b xs fair.1)
Fair-Unrefused b (stored ∷ xs) fair = (tt, Fair-Unrefused b xs fair.1)
Fair-Unrefused b (answered v ∷ xs) fair = (fair.0, Fair-Unrefused b xs fair.1)

-- The race never refuses a request that is within the limit: where the entry has room for all `n`
-- requests that run at the same time, none of them is refused, in whatever order they load, store and
-- compare.
pub race_fair :
    (cfg : RateLimitConfig) (m n : ℕ) (e : Entry) (r : Race)
    → cfg.max ≡ pos m
    → e.count + n ≤ m
    → Reach cfg (arrivals n e) r
    → All Unrefused r.threads
race_fair cfg m n e r max room reach =
    let begin : Bounded e.count n (arrivals n e) = record {
      few = omega arith;
      fair = arrivals-Fair _ n;
      all_there = length-replicate n arrived;
    } in
    Fair-Unrefused _ r.threads (Reach-Bounded m e.count n max room begin reach).fair
