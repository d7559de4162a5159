-- ===== src/Sse.antt =====
-- backend/internal/service/sse_broker.go: the broker behind the event stream. `clients` is the map
-- from projects to clients. A client holds the handles of its two channels, whose contents stand in
-- `buffers` (events that wait to be written) and `closed`. Go walks a map in no fixed order; the
-- walks here follow the association list.
pub mod Registry
pub mod Delivery
pub mod Vacancy
pub mod Shutdown
mod Tests
use task_flow_alisha_sharma.Common.{
  ℕ, String, Option, none, some, Bool, true, false, List, [], ◌∷◌, ◌++◌, ltb, if◌then◌else◌,
  option_or, length, put_at,
}
use task_flow_alisha_sharma.Common.Dict.{Dict, lookup, insert, erase}
use task_flow_alisha_sharma.Model.{Event}

pub record SseClient : Type 0 where
  pub id : String
  pub user_id : String
  pub events : ℕ
  pub done : ℕ

abbrev pub Registry : Type 0
Registry = Dict (Dict SseClient)

pub record SseBroker : Type 0 where
  pub clients : Registry
  pub event_ch : List Event
  pub stopped : Bool
  pub buffers : ℕ → List Event
  pub closed : ℕ → Bool

-- The capacities that `make` gives the channels.
abbrev pub broker_capacity : ℕ
broker_capacity = 256

abbrev pub client_capacity : ℕ
client_capacity = 64

abbrev pub new_broker : SseBroker
new_broker = record {
  clients = [];
  event_ch = [];
  stopped = false;
  buffers = λ r. [];
  closed = λ r. false;
}

-- A send that drops the event where the channel is full.
unfoldable pub publish : Event → SseBroker → SseBroker
publish evt b =
    if ltb (length b.event_ch) broker_capacity
    then record b { event_ch = b.event_ch ++ evt ∷ [] }
    else b

offer : ℕ → Event → (ℕ → List Event) → ℕ → List Event
offer r evt buffers =
    if ltb (length (buffers r)) client_capacity
    then put_at r (buffers r ++ evt ∷ []) buffers
    else buffers

fan_out_to : Event → Dict SseClient → (ℕ → List Event) → ℕ → List Event
fan_out_to evt [] buffers = buffers
fan_out_to evt ((id, client) ∷ rest) buffers = fan_out_to evt rest (offer client.events evt buffers)

fan_out : Event → SseBroker → SseBroker
unfolding fan_out_to offer
fan_out evt b = elim (lookup evt.project_id b.clients) [
  | none ↦ b
  | some clients ↦ record b { buffers = fan_out_to evt clients b.buffers }
]

-- One round of `run` with `stop` open: it receives the next event, and waits where there is none.
run_once : SseBroker → SseBroker
run_once b = elim b.event_ch [ [] ↦ b | evt ∷ rest ↦ fan_out evt (record b { event_ch = rest }) ]

pub run_for : ℕ → SseBroker → SseBroker
run_for ℕ.zero b = b
run_for (ℕ.suc n) b = run_for n (run_once b)

pub register : SseClient → String → Registry → Registry
register client pid m = insert pid (insert client.id client (option_or (lookup pid m) [])) m

register_all : SseClient → List String → Registry → Registry
register_all client [] m = m
register_all client (pid ∷ pids) m = register_all client pids (register client pid m)

unfoldable pub subscribe : SseClient → List String → SseBroker → SseBroker
unfolding register_all register
subscribe client project_ids b = record b { clients = register_all client project_ids b.clients }

abbrev is_empty : Dict SseClient → Bool
is_empty [] = true
is_empty (c ∷ cs) = false

-- An inner map that is left empty is deleted.
put_back : String → Dict SseClient → Registry → Registry
put_back pid clients m = if is_empty clients then erase pid m else insert pid clients m

pub leave : String → String → Registry → Registry
unfolding put_back
leave id pid m = elim (lookup pid m) [ none ↦ m | some clients ↦ put_back pid (erase id clients) m ]

leave_all : String → List String → Registry → Registry
leave_all id [] m = m
leave_all id (pid ∷ pids) m = leave_all id pids (leave id pid m)

unfoldable pub unsubscribe : String → List String → SseBroker → SseBroker
unfolding leave_all leave
unsubscribe id project_ids b = record b { clients = leave_all id project_ids b.clients }

-- `close` panics on a channel that is closed; `none` is the panic.
close_clients : Dict SseClient → (ℕ → Bool) → Option (ℕ → Bool)
close_clients [] closed = some closed
close_clients ((id, client) ∷ rest) closed =
    let go_on = close_clients rest (put_at client.done true closed) in
    if closed client.done then none else go_on

close_projects : Registry → (ℕ → Bool) → Option (ℕ → Bool)
close_projects [] closed = some closed
close_projects ((pid, clients) ∷ rest) closed = elim (close_clients clients closed) [
  | none ↦ none
  | some closed' ↦ close_projects rest closed'
]

pub shutdown : SseBroker → Option SseBroker
shutdown b = if b.stopped then none else elim (close_projects b.clients b.closed) [
  | none ↦ none
  | some closed ↦ some (record b { clients = []; stopped = true; closed = closed })
]
