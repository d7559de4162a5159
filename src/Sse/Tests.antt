-- ===== src/Sse/Tests.antt =====
-- Runs of the broker, and its theorems at concrete inputs.
use task_flow_alisha_sharma.Common.{
  ℕ, String, ◌≡◌, refl, some, true, List, [], ◌∷◌, arith, ◌||◌, ltb, select, option_or, ◌≤◌, ◌+◌,
}
use task_flow_alisha_sharma.Common.Dict.{lookup}
use task_flow_alisha_sharma.Model.{Event, task_deleted, of_id}
use task_flow_alisha_sharma.Sse.{SseClient, SseBroker, new_broker, run_for, subscribe, shutdown}
use task_flow_alisha_sharma.Sse.Registry.{listed}
use task_flow_alisha_sharma.Sse.Delivery.{copies, publish_all, subscribed_receives}
use task_flow_alisha_sharma.Sse.Shutdown.{closings, bit, shutdown_closes}

abbrev ann : SseClient
ann = record { id = "c1"; user_id = "ann"; events = 0; done = 1 }

abbrev event : String → String → Event
event job project = record {
  job_id = job;
  kind = task_deleted;
  project_id = project;
  actor_id = "ann";
  payload = of_id "t";
  timestamp = 5;
}

abbrev stream : List Event
stream = event "j1" "p1" ∷ event "j2" "p2" ∷ event "j3" "p1" ∷ []

fresh_empty : (pid : String) → copies 0 (option_or (lookup pid []) []) ≡ 0
unfolding copies lookup
fresh_empty pid = refl

subscribed_receives_example :
    let b = run_for 3 (publish_all stream (subscribe ann ("p1" ∷ []) new_broker)) in
    (b.buffers 0 ≡ select (λ e. listed e.project_id ("p1" ∷ [])) stream) × (b.event_ch ≡ [])
unfolding select
subscribed_receives_example =
    subscribed_receives ann ("p1" ∷ []) stream new_broker fresh_empty refl refl (omega arith)
      (omega arith)

received :
    select (λ (e : Event). listed e.project_id ("p1" ∷ [])) stream
    ≡ event "j1" "p1" ∷ event "j3" "p1" ∷ []
unfolding select
received = refl

one_listener : SseBroker
one_listener = record new_broker { clients = ("p1", ("c1", ann) ∷ []) ∷ [] }

closings_once : (d : ℕ) → closings d one_listener.clients + bit (one_listener.closed d) ≤ 1
unfolding closings one_listener
closings_once d = ground arith

shutdown_closes_example :
    (b' : SseBroker) × (shutdown one_listener ≡ some b')
    × (b'.clients ≡ [])
    × (b'.stopped ≡ true)
    × ((d : ℕ) → b'.closed d ≡ (one_listener.closed d || ltb 0 (closings d one_listener.clients)))
unfolding one_listener
shutdown_closes_example = shutdown_closes one_listener refl closings_once
