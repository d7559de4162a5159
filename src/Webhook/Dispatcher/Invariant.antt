-- ===== src/Webhook/Dispatcher/Invariant.antt =====
-- What holds of the dispatcher in every state that it reaches.
use task_flow_alisha_sharma.Common.{
  ℕ, suc, ◌+◌, ◌≤◌, ◌≡◌, refl, ◌∙◌, List, [], ◌∷◌, ◌++◌, length, length-append, arith,
}
use task_flow_alisha_sharma.Common.Int.{ℤ}
use task_flow_alisha_sharma.Common.Exec.{Result, ok, err}
use task_flow_alisha_sharma.Model.{Event, WebhookSubscription}
use task_flow_alisha_sharma.AppError.{DbError}
use task_flow_alisha_sharma.Webhook.Dispatcher.{
  Goroutine, delivering, Shared, Dispatcher, idle, looked, Move, found, started, all_started,
  acquired, delivered, done, Step, dispatched, moved, Reach, start, later,
}

abbrev pub holds : Goroutine → ℕ
holds (delivering sub evt) = 1
holds g = 0

abbrev pub total : (Goroutine → ℕ) → List Goroutine → ℕ
total f [] = 0
total f (g ∷ gs) = f g + total f gs

-- The number of deliveries that are running.
abbrev pub running : Dispatcher → ℕ
running d = total holds d.live

pub total-append :
    (f : Goroutine → ℕ) (gs hs : List Goroutine) → total f (gs ++ hs) ≡ total f gs + total f hs
total-append f [] hs = omega arith
total-append f (g ∷ gs) hs = omega (arith, total-append f gs hs)

pub record Sound (n : ℕ) (d : Dispatcher) : Type 0 where
  pub slots : d.shared.held ≡ running d
  pub bounded : d.shared.held ≤ n
  pub counted : d.shared.wg ≡ length d.live
  pub size : d.shared.capacity ≡ n

-- One goroutine's part of the invariant.
record Kept (s t : Shared) (g : Goroutine) (next : List Goroutine) : Type 0 where
  slots : s.held + total holds next ≡ t.held + holds g
  bounded : s.held ≤ s.capacity → t.held ≤ t.capacity
  counted : s.wg + length next ≡ suc t.wg
  same_capacity : t.capacity ≡ s.capacity

looked-idle :
    (evt : Event) (r : Result DbError (List WebhookSubscription)) → holds (looked evt r) ≡ 0
looked-idle evt (ok subs) = refl
looked-idle evt (err e) = refl

Move-Kept :
    {k : ℤ} {s t : Shared} {g : Goroutine} {next : List Goroutine}
    → Move k s g t next
    → Kept s t g next
Move-Kept {s} (found {evt} env w) = record {
  slots = omega (arith, looked-idle evt _);
  bounded = λ h. h;
  counted = omega arith;
  same_capacity = refl;
}
Move-Kept started = record {
  slots = omega arith;
  bounded = λ h. h;
  counted = omega arith;
  same_capacity = refl;
}
Move-Kept all_started = record {
  slots = omega arith;
  bounded = λ h. h;
  counted = omega arith;
  same_capacity = refl;
}
Move-Kept (acquired room) = record {
  slots = omega arith;
  bounded = λ h. omega arith;
  counted = omega arith;
  same_capacity = refl;
}
Move-Kept (delivered client fine e) = record {
  slots = omega arith;
  bounded = λ h. omega arith;
  counted = omega arith;
  same_capacity = refl;
}
Move-Kept (done e) = record {
  slots = omega arith;
  bounded = λ h. h;
  counted = omega arith;
  same_capacity = refl;
}

pub Step-Sound : {k : ℤ} {n : ℕ} {d e : Dispatcher} → Step k d e → Sound n d → Sound n e
Step-Sound (dispatched evt) inv = record {
  slots = omega (arith, inv.slots);
  bounded = inv.bounded;
  counted = omega (arith, inv.counted);
  size = inv.size;
}
Step-Sound {d} (moved before after {next} {g} mv_at mv) inv =
    let kept = Move-Kept mv in
    let here : running d ≡ total holds before + (holds g + total holds after) =
      rw mv_at (total-append holds before (g ∷ after)) in
    let len : length d.live ≡ length before + suc (length after) =
      rw mv_at (length-append before (g ∷ after)) in
    record {
      slots = omega (
        arith,
        kept.slots,
        inv.slots,
        here,
        total-append holds before (next ++ after),
        total-append holds next after,
      );
      bounded = omega (
        arith,
        kept.bounded (omega (arith, inv.bounded, inv.size)),
        kept.same_capacity,
        inv.size,
      );
      counted = omega (
        arith,
        kept.counted,
        inv.counted,
        len,
        length-append before (next ++ after),
        length-append next after,
      );
      size = kept.same_capacity ∙ inv.size;
    }

pub Reach-Sound : {k : ℤ} {n : ℕ} {d e : Dispatcher} → Reach k d e → Sound n d → Sound n e
Reach-Sound start inv = inv
Reach-Sound (later r st) inv = Step-Sound st (Reach-Sound r inv)

pub Sound-idle : {k : ℤ} {n : ℕ} {d : Dispatcher} → Reach k (idle n) d → Sound n d
Sound-idle r =
    Reach-Sound r (record { slots = refl; bounded = omega arith; counted = refl; size = refl })

-- In every state that a dispatcher with a pool of `n` workers reaches, by calls of `Dispatch` and
-- steps of its goroutines in any order, the semaphore counts the deliveries that are running, at most
-- `n` of them run, and the wait group counts the goroutines that have not ended.
pub pool_bounds :
    (k : ℤ) (n : ℕ) (d : Dispatcher)
    → Reach k (idle n) d
    → (d.shared.held ≡ running d) × (running d ≤ n) × (d.shared.wg ≡ length d.live)
pool_bounds k n d r =
    let inv = Sound-idle r in (inv.slots, omega (arith, inv.slots, inv.bounded), inv.counted)
