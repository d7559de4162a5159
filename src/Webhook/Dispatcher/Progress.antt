-- ===== src/Webhook/Dispatcher/Progress.antt =====
-- That the goroutines of the dispatcher do not block one another for ever.
use task_flow_alisha_sharma.Common.{
  ℕ, zero, suc, ◌+◌, ◌-◌, ◌*◌, ◌<◌, ◌≤◌, ◌≡◌, ◌≢◌, refl, ◌⊎◌, inl, inr, List, [], ◌∷◌, ◌++◌, length,
  arith,
}
use task_flow_alisha_sharma.Common.Int.{ℤ}
use task_flow_alisha_sharma.Common.Exec.{Result, ok, err}
use task_flow_alisha_sharma.Model.{Event, WebhookSubscription, event_name}
use task_flow_alisha_sharma.AppError.{DbError}
use task_flow_alisha_sharma.Database.{Env, World}
use task_flow_alisha_sharma.Repository.Webhooks.{find_matching_subscriptions}
use task_flow_alisha_sharma.Webhook.{Client, panicked, deliver}
use task_flow_alisha_sharma.Webhook.Dispatcher.{
  Goroutine, looking, starting, waiting, delivering, leaving, Shared, Dispatcher, idle, looked,
  Move, found, started, all_started, acquired, delivered, done, Step, moved, Reach, start, later,
}
use task_flow_alisha_sharma.Webhook.Dispatcher.EmptyPool.{waits}
use task_flow_alisha_sharma.Webhook.Dispatcher.Invariant.{
  holds, total, total-append, Sound, Sound-idle, Step-Sound,
}

-- The steps that a goroutine and those that it starts still have, with these answers of the database.
module _ (env : Env) (w : World) where
  abbrev spawned : Goroutine → ℕ
  spawned (waiting sub evt) = 3
  spawned (delivering sub evt) = 2
  spawned leaving = 1
  spawned (starting evt subs) = 2 + 4 * length subs
  spawned (looking evt) = 0

  abbrev steps : Goroutine → ℕ
  steps (looking evt) =
      1
      + spawned
          (looked evt (find_matching_subscriptions env (event_name evt.kind) evt.project_id w).0)
  steps (waiting sub evt) = 3
  steps (delivering sub evt) = 2
  steps leaving = 1
  steps (starting evt subs) = 2 + 4 * length subs

  steps-looked :
      (evt : Event) (r : Result DbError (List WebhookSubscription))
      → steps (looked evt r) ≡ spawned (looked evt r)
  steps-looked evt (ok subs) = refl
  steps-looked evt (err e) = refl

  -- What a goroutine can do next, if it can.
  record Forward (k : ℤ) (s : Shared) (g : Goroutine) : Type 0 where
    to : Shared
    next : List Goroutine
    move : Move k s g to next
    fewer : total steps next < steps g

  module _ (k : ℤ) (client : Client) (fine : (deliver k client).result ≢ panicked) where
    forward :
        (s : Shared) (g : Goroutine) (n m : ℕ)
        → (0 < waits g → s.held < s.capacity)
        → (0 < holds g → s.held ≡ suc n)
        → s.wg ≡ suc m
        → Forward k s g
    forward s (looking evt) n m free slot alive = record {
      to = s;
      next = _;
      move = found env w;
      fewer = omega (
        arith,
        steps-looked evt (find_matching_subscriptions env (event_name evt.kind) evt.project_id w).0,
      );
    }
    forward s (starting evt []) n m free slot alive = record {
      to = s;
      next = _;
      move = all_started;
      fewer = omega arith;
    }
    forward s (starting evt (sub ∷ subs)) n m free slot alive = record {
      to = _;
      next = _;
      move = started;
      fewer = omega arith;
    }
    forward s (waiting sub evt) n m free slot alive = record {
      to = _;
      next = _;
      move = acquired (free (omega arith));
      fewer = omega arith;
    }
    forward s (delivering sub evt) n m free slot alive = record {
      to = _;
      next = _;
      move = delivered client fine (slot (omega arith));
      fewer = omega arith;
    }
    forward s leaving n m free slot alive = record {
      to = _;
      next = _;
      move = done alive;
      fewer = omega arith;
    }

    -- A step of the dispatcher after which less is left to do.
    abbrev Progress : Dispatcher → Type 0
    Progress d = (e : Dispatcher) × Step k d e × (total steps e.live < total steps d.live)

    Forward-Progress :
        (d : Dispatcher) (before after : List Goroutine) (g : Goroutine)
        → d.live ≡ before ++ g ∷ after
        → Forward k d.shared g
        → Progress d
    Forward-Progress d before after g at f =
        let here : total steps d.live ≡ total steps before + (steps g + total steps after) =
          rw at (total-append steps before (g ∷ after)) in
        (
          _,
          moved before after at f.move,
          omega (
            arith,
            f.fewer,
            here,
            total-append steps before (f.next ++ after),
            total-append steps f.next after,
          ),
        )

    -- Some goroutine does not wait for the semaphore, or no delivery is running.
    busy :
        (gs : List Goroutine)
        → ((before : List Goroutine) × (g : Goroutine) × (after : List Goroutine) × (gs
              ≡ before ++ g ∷ after)
            × (waits g ≡ 0))
          ⊎ (total holds gs ≡ 0)
    busy [] = inr refl
    busy (waiting sub evt ∷ gs) = elim (busy gs) [
      | inl (before, g, after, at, free) ↦
          inl (waiting sub evt ∷ before, g, after, rw at refl, free)
      | inr none_holds ↦ inr (omega (arith, none_holds))
    ]
    busy (looking evt ∷ gs) = inl ([], looking evt, gs, refl, refl)
    busy (starting evt subs ∷ gs) = inl ([], starting evt subs, gs, refl, refl)
    busy (delivering sub evt ∷ gs) = inl ([], delivering sub evt, gs, refl, refl)
    busy (leaving ∷ gs) = inl ([], leaving, gs, refl, refl)

    pred : (n : ℕ) → 0 < n → n ≡ suc (n - 1)
    pred n h = omega arith

    progress :
        (n : ℕ) (d : Dispatcher) (g : Goroutine) (rest : List Goroutine)
        → 0 < n
        → Sound n d
        → d.live ≡ g ∷ rest
        → Progress d
    progress n d g rest some_slot inv at =
        let len : length d.live ≡ suc (length rest) = rw at refl in
        let alive = pred d.shared.wg (omega (arith, inv.counted, len)) in
        elim (busy d.live) [
          | inl (before, h, after, split, free) ↦
              let here : total holds d.live ≡ total holds before + (holds h + total holds after) =
                rw split (total-append holds before (h ∷ after)) in
              Forward-Progress d before after h split (
                forward d.shared h (d.shared.held - 1) (d.shared.wg - 1)
                  (λ w. absurd (omega (arith, free, w)))
                  (λ own. pred d.shared.held (omega (arith, own, here, inv.slots))) alive)
          | inr none_holds ↦ Forward-Progress d [] rest g at (
              forward d.shared g (d.shared.held - 1) (d.shared.wg - 1)
                (λ w. omega (arith, inv.slots, none_holds, inv.size, some_slot))
                (λ own.
                  let here : total holds d.live ≡ holds g + total holds rest = rw at refl in
                  absurd (omega (arith, own, here, none_holds)))
                alive)
        ]

    Live-cases :
        (gs : List Goroutine)
        → (gs ≡ []) ⊎ ((g : Goroutine) × (rest : List Goroutine) × (gs ≡ g ∷ rest))
    Live-cases [] = inl refl
    Live-cases (g ∷ gs) = inr (g, gs, refl)

    drains :
        (fuel n : ℕ) (d e : Dispatcher)
        → 0 < n
        → Sound n e
        → Reach k d e
        → total steps e.live ≤ fuel
        → (f : Dispatcher) × Reach k d f × (f.live ≡ [])
    drains zero n d e some_slot inv r enough = elim (Live-cases e.live) [
      | inl over ↦ (e, r, over)
      | inr (g, rest, at) ↦ absurd (omega (arith, enough, (progress n e g rest some_slot inv at).2))
    ]
    drains (suc fuel) n d e some_slot inv r enough = elim (Live-cases e.live) [
      | inl over ↦ (e, r, over)
      | inr (g, rest, at) ↦
          let p = progress n e g rest some_slot inv at in
          drains fuel n d p.0 some_slot (Step-Sound p.1 inv) (later r p.1)
            (omega (arith, enough, p.2))
    ]

-- The dispatcher never blocks for good: whatever its goroutines and calls of `Dispatch` have done so
-- far, with a pool of at least one worker there are further steps after which no goroutine is left,
-- where the client lets some delivery end without a panic.
pub can_drain :
    (env : Env) (w : World) (k : ℤ) (client : Client) (n : ℕ) (d : Dispatcher)
    → (deliver k client).result ≢ panicked
    → 0 < n
    → Reach k (idle n) d
    → (e : Dispatcher) × Reach k d e × (e.live ≡ [])
can_drain env w k client n d fine some_slot r =
    drains env w k client fine (total (steps env w) d.live) n d d some_slot (Sound-idle r) start
      (omega arith)
