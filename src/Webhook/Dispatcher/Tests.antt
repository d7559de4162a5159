-- ===== src/Webhook/Dispatcher/Tests.antt =====
-- A dispatcher that delivers one event to one subscription.
use task_flow_alisha_sharma.Common.{
  ℕ, ◌<◌, ◌≤◌, ◌≡◌, ◌≢◌, refl, [], ◌∷◌, length, select, true, arith,
}
use task_flow_alisha_sharma.Common.Int.{pos}
use task_flow_alisha_sharma.Common.Exec.{ok}
use task_flow_alisha_sharma.Model.{Event, WebhookSubscription, task_deleted, of_id}
use task_flow_alisha_sharma.Database.{World, statement}
use task_flow_alisha_sharma.Repository.Tests.{calm, start as world, tables}
use task_flow_alisha_sharma.Repository.Webhooks.{find_matching_subscriptions}
use task_flow_alisha_sharma.Webhook.{Client, answered, deliver, panicked}
use task_flow_alisha_sharma.Webhook.Dispatcher.{
  Dispatcher, idle, Reach, start, later, dispatched, moved, starting, waiting, delivering, found,
  started, acquired, Drained,
}
use task_flow_alisha_sharma.Webhook.Dispatcher.Invariant.{running, pool_bounds}
use task_flow_alisha_sharma.Webhook.Dispatcher.EmptyPool.{queued, empty_pool_stuck}
use task_flow_alisha_sharma.Webhook.Dispatcher.Progress.{can_drain}

abbrev gone : Event
gone = record {
  job_id = "j1";
  kind = task_deleted;
  project_id = "p1";
  actor_id = "u1";
  payload = of_id "t1";
  timestamp = 5;
}

abbrev hook : WebhookSubscription
hook = record {
  id = "w1";
  user_id = "u1";
  url = "https://hooks.example.org";
  secret = "0123456789abcdef";
  event_types = "task.deleted" ∷ [];
  project_ids = "p1" ∷ [];
  active = true;
  created_at = 3;
}

abbrev subscribed : World
subscribed = record world { db = record tables { subscriptions = hook ∷ [] } }

finds_hook : (find_matching_subscriptions calm "task.deleted" "p1" subscribed).0 ≡ ok (hook ∷ [])
unfolding find_matching_subscriptions statement select
finds_hook = refl

abbrev queueing : ℕ → Dispatcher
queueing n = record {
  shared = record { capacity = n; held = 0; wg = 2 };
  live = waiting hook gone ∷ starting gone [] ∷ [];
}

queueing-Reach : (n : ℕ) → Reach (pos 3) (idle n) (queueing n)
unfolding find_matching_subscriptions statement select
queueing-Reach n =
    later (later (later start (dispatched gone)) (moved [] [] refl (found calm subscribed)))
      (moved [] [] refl started)

abbrev sending : Dispatcher
sending = record {
  shared = record { capacity = 2; held = 1; wg = 2 };
  live = delivering hook gone ∷ starting gone [] ∷ [];
}

sending-Reach : Reach (pos 3) (idle 2) sending
sending-Reach =
    later (queueing-Reach 2) (moved [] (starting gone [] ∷ []) refl (acquired (omega arith)))

pool_bounds_example : (1 ≡ running sending) × (running sending ≤ 2) × (2 ≡ length sending.live)
pool_bounds_example = pool_bounds (pos 3) 2 sending sending-Reach

empty_pool_stuck_example :
    (running (queueing 0) ≡ 0) × (0 < queued (queueing 0) → ¬ (Drained (queueing 0)))
empty_pool_stuck_example =
    empty_pool_stuck (pos 3) (queueing 0) (queueing 0) (queueing-Reach 0) start

abbrev accepting : Client
accepting attempt = answered 200

accepts : (deliver (pos 3) accepting).result ≢ panicked
unfolding deliver
accepts e = cc

can_drain_example : (e : Dispatcher) × Reach (pos 3) sending e × (e.live ≡ [])
can_drain_example =
    can_drain calm subscribed (pos 3) accepting 2 sending accepts (omega arith) sending-Reach
