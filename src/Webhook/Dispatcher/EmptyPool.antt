-- ===== src/Webhook/Dispatcher/EmptyPool.antt =====
-- A dispatcher with a pool of size 0.
use task_flow_alisha_sharma.Common.{ℕ, ◌+◌, ◌<◌, ◌≤◌, ◌≡◌, List, [], ◌∷◌, ◌++◌, length, arith}
use task_flow_alisha_sharma.Common.Int.{ℤ}
use task_flow_alisha_sharma.Webhook.Dispatcher.{
  Goroutine, looking, starting, waiting, delivering, leaving, Shared, Dispatcher, idle, Move, found,
  started, all_started, acquired, delivered, done, dispatched, moved, Reach, start, later, Drained,
}
use task_flow_alisha_sharma.Webhook.Dispatcher.Invariant.{
  running, total, total-append, Sound, Reach-Sound, Sound-idle,
}

abbrev pub waits : Goroutine → ℕ
waits (waiting sub evt) = 1
waits g = 0

-- The number of goroutines that wait for the semaphore.
abbrev pub queued : Dispatcher → ℕ
queued d = total waits d.live

Move-waits :
    {k : ℤ} {s t : Shared} {g : Goroutine} {next : List Goroutine}
    → Move k s g t next
    → s.capacity ≡ 0
    → waits g ≤ total waits next
Move-waits (found env w) full = omega arith
Move-waits started full = omega arith
Move-waits all_started full = omega arith
Move-waits (acquired room) full = absurd (omega arith)
Move-waits (delivered client fine e) full = omega arith
Move-waits (done e) full = omega arith

Reach-queued : {k : ℤ} {d e : Dispatcher} → Sound 0 d → Reach k d e → queued d ≤ queued e
Reach-queued inv start = omega arith
Reach-queued {k} {d} inv (later r (dispatched evt)) = omega (arith, Reach-queued inv r)
Reach-queued inv (later {e} r (moved before after {next} {g} mv_at mv)) =
    let here : queued e ≡ total waits before + (waits g + total waits after) =
      rw mv_at (total-append waits before (g ∷ after)) in
    omega (
      arith,
      Reach-queued inv r,
      here,
      Move-waits mv (Reach-Sound r inv).size,
      total-append waits before (next ++ after),
      total-append waits next after,
    )

-- With a pool of size 0 no delivery ever runs, and once a goroutine waits for the semaphore the wait
-- group is never at 0 again, so that Shutdown waits until its context ends.
pub empty_pool_stuck :
    (k : ℤ) (d e : Dispatcher)
    → Reach k (idle 0) d
    → Reach k d e
    → (running e ≡ 0) × (0 < queued d → ¬ (Drained e))
empty_pool_stuck k d e r rest =
    let inv = Reach-Sound rest (Sound-idle r) in
    (
      omega (arith, inv.slots, inv.bounded),
      λ some_wait h.
          omega
            (arith, some_wait, h, inv.counted, Reach-queued (Sound-idle r) rest, waits-le e.live),
    )
  where
    waits-one : (g : Goroutine) → waits g ≤ 1
    waits-one (waiting sub evt) = omega arith
    waits-one (looking evt) = omega arith
    waits-one (starting evt subs) = omega arith
    waits-one (delivering sub evt) = omega arith
    waits-one leaving = omega arith

    waits-le : (gs : List Goroutine) → total waits gs ≤ length gs
    waits-le [] = omega arith
    waits-le (g ∷ gs) = omega (arith, waits-one g, waits-le gs)
