-- ===== src/Webhook/Dispatcher.antt =====
-- backend/internal/service/webhook_dispatcher.go: the goroutines of `Dispatch`, the semaphore and the
-- wait group, as a relation that makes one step of one goroutine. What a goroutine computes between
-- two operations on shared state is one step with the operation before it.
pub mod Invariant
pub mod EmptyPool
pub mod Progress
mod Tests
use task_flow_alisha_sharma.Common.{
  ℕ, suc, ◌<◌, String, ◌≡◌, ◌≢◌, Option, none, some, List, [], ◌∷◌, ◌++◌,
}
use task_flow_alisha_sharma.Common.Int.{ℤ, pos, negsuc}
use task_flow_alisha_sharma.Common.Exec.{Result, ok, err}
use task_flow_alisha_sharma.Model.{Event, WebhookSubscription, event_name}
use task_flow_alisha_sharma.AppError.{DbError}
use task_flow_alisha_sharma.Database.{Env, World}
use task_flow_alisha_sharma.Repository.Webhooks.{find_matching_subscriptions}
use task_flow_alisha_sharma.Webhook.{Client, Ending, panicked, deliver}

-- Where a goroutine stands. Those of the first two places run the outer function of `Dispatch`, those
-- of the next two the inner one; `leaving` is before `wg.Done`, in either.
pub data Goroutine : Type 0 where
  looking : Event → Goroutine
  starting : Event → List WebhookSubscription → Goroutine
  waiting : WebhookSubscription → Event → Goroutine
  delivering : WebhookSubscription → Event → Goroutine
  leaving : Goroutine

-- The semaphore, a channel that holds `held` values, and the counter of the wait group.
pub record Shared : Type 0 where
  pub capacity : ℕ
  pub held : ℕ
  pub wg : ℕ

pub record Dispatcher : Type 0 where
  pub shared : Shared
  pub live : List Goroutine

-- With a semaphore of this capacity.
abbrev pub idle : ℕ → Dispatcher
idle n = record { shared = record { capacity = n; held = 0; wg = 0 }; live = [] }

-- `make` panics on a negative size.
abbrev pub new_dispatcher : ℤ → Option Dispatcher
new_dispatcher (negsuc n) = none
new_dispatcher (pos n) = some (idle n)

abbrev pub dispatch : Event → Dispatcher → Dispatcher
dispatch evt d = record {
  shared = record d.shared { wg = suc d.shared.wg };
  live = looking evt ∷ d.live;
}

abbrev pub looked : Event → Result DbError (List WebhookSubscription) → Goroutine
looked evt (ok subs) = starting evt subs
looked evt (err e) = leaving

-- What one goroutine does next: the shared state after it, and the goroutines that it is then, with a
-- new one or without itself. A delivery that panics takes the process down, and has no next step.
pub data Move (max_retries : ℤ) (s : Shared) : Goroutine → Shared → List Goroutine → Type 0 where
  found :
      {evt : Event} (env : Env) (w : World)
      → Move max_retries s (looking evt) s (
          looked evt (find_matching_subscriptions env (event_name evt.kind) evt.project_id w).0
          ∷ [])
  started :
      {evt : Event} {sub : WebhookSubscription} {subs : List WebhookSubscription}
      → Move max_retries s
          (starting evt (sub ∷ subs))
          (record s { wg = suc s.wg })
          (waiting sub evt ∷ starting evt subs ∷ [])
  all_started : {evt : Event} → Move max_retries s (starting evt []) s (leaving ∷ [])
  acquired :
      {evt : Event} {sub : WebhookSubscription}
      → s.held < s.capacity
      → Move max_retries s
          (waiting sub evt)
          (record s { held = suc s.held })
          (delivering sub evt ∷ [])
  delivered :
      {evt : Event} {sub : WebhookSubscription} {n : ℕ} (client : Client)
      → (deliver max_retries client).result ≢ panicked
      → s.held ≡ suc n
      → Move max_retries s (delivering sub evt) (record s { held = n }) (leaving ∷ [])
  done : {n : ℕ} → s.wg ≡ suc n → Move max_retries s leaving (record s { wg = n }) []

-- A call of `Dispatch`, or a step of the goroutine between `before` and `after`.
pub data Step (max_retries : ℤ) (d : Dispatcher) : Dispatcher → Type 0 where
  dispatched : (evt : Event) → Step max_retries d (dispatch evt d)
  moved :
      (before after : List Goroutine) {next : List Goroutine} {g : Goroutine} {s : Shared}
      → d.live ≡ before ++ g ∷ after
      → Move max_retries d.shared g s next
      → Step max_retries d (record { shared = s; live = before ++ (next ++ after) })

pub data Reach (max_retries : ℤ) (d : Dispatcher) : Dispatcher → Type 0 where
  start : Reach max_retries d d
  later : {e f : Dispatcher} → Reach max_retries d e → Step max_retries e f → Reach max_retries d f

-- `Shutdown` waits for the counter of the wait group to be 0, or for its context.
abbrev pub Drained : Dispatcher → Type 0
Drained d = d.shared.wg ≡ 0
