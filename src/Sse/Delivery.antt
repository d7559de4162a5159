-- ===== src/Sse/Delivery.antt =====
-- What reaches a client's channel through `Publish`, `run` and `fanOut`.
use task_flow_alisha_sharma.Common.{
  ℕ, suc, ◌+◌, ◌≤◌, ◌<◌, String, ◌≡◌, refl, sym, ◌∙◌, true, false, some, List, [], ◌∷◌, ◌++◌, arith,
  eqb, ◌==◌, eq_iff, eq_self, ◌⊎◌, select, if◌then◌else◌, option_or, length, length-append,
  replicate, length-replicate, put_at, Option-cases, Bool-cases, inl, inr,
}
use mathlib.Core.List.{append_assoc, append-nil}
use task_flow_alisha_sharma.Common.Dict.{Dict, lookup, insert, lookup-insert}
use task_flow_alisha_sharma.Model.{Event}
use task_flow_alisha_sharma.Sse.{
  SseClient, SseBroker, Registry, broker_capacity, client_capacity, publish, offer, fan_out_to,
  fan_out, run_once, run_for, register, register_all, subscribe,
}
use task_flow_alisha_sharma.Sse.Registry.{registered, listed, registered-register}

-- How many of the clients write to the channel `r`.
unfoldable pub copies : ℕ → Dict SseClient → ℕ
copies r [] = 0
copies r ((id, c) ∷ cs) = if eqb r c.events then suc (copies r cs) else copies r cs

abbrev pub listeners : Registry → Event → Dict SseClient
listeners m evt = option_or (lookup evt.project_id m) []

-- The events, in order, that the registry addresses to the channel `r`.
unfoldable pub heard : ℕ → Registry → List Event → List Event
unfolding copies
heard r m [] = []
heard r m (evt ∷ evts) = replicate (copies r (listeners m evt)) evt ++ heard r m evts

offer_hit :
    (r q : ℕ) (evt : Event) (buffers : ℕ → List Event)
    → eqb r q ≡ true
    → suc (length (buffers r)) ≤ client_capacity
    → offer q evt buffers r ≡ buffers r ++ evt ∷ []
unfolding offer put_at
offer_hit r q evt buffers e h = ground arith

offer_miss :
    (r q : ℕ) (evt : Event) (buffers : ℕ → List Event)
    → eqb r q ≡ false
    → offer q evt buffers r ≡ buffers r
unfolding offer put_at
offer_miss r q evt buffers e = ground arith

-- One event adds as many copies as clients of the project write to the channel.
fan_out_to_lem :
    (r : ℕ) (evt : Event) (cs : Dict SseClient) (buffers : ℕ → List Event)
    → length (buffers r) + copies r cs ≤ client_capacity
    → fan_out_to evt cs buffers r ≡ buffers r ++ replicate (copies r cs) evt
unfolding fan_out_to copies
fan_out_to_lem r evt [] buffers h = sym (append-nil (buffers r))
fan_out_to_lem r evt ((id, c) ∷ cs) buffers h = elim (Bool-cases (eqb r c.events)) [
  | inl same ↦
      let e = offer_hit r c.events evt buffers same (ground arith) in
      fan_out_to_lem r evt cs (offer c.events evt buffers)
        (rw e (ground (arith, length-append (buffers r) (evt ∷ []))))
      ∙ rw (e, same, append_assoc) refl
  | inr other ↦
      let e = offer_miss r c.events evt buffers other in
      fan_out_to_lem r evt cs (offer c.events evt buffers) (rw e (ground arith))
      ∙ rw (e, other) refl
]

fan_out-buffers :
    (r : ℕ) (evt : Event) (b : SseBroker)
    → length (b.buffers r) + copies r (listeners b.clients evt) ≤ client_capacity
    → (fan_out evt b).buffers r ≡ b.buffers r ++ replicate (copies r (listeners b.clients evt)) evt
fan_out-buffers r evt b = elim (Option-cases (lookup evt.project_id b.clients)) [
  | inl e ↦ unfold fan_out copies in rw (e, fan_out) (λ h. sym (append-nil (b.buffers r)))
  | inr (cs, e) ↦ unfold fan_out in rw (e, fan_out) (fan_out_to_lem r evt cs b.buffers)
]

fan_out-clients : (evt : Event) (b : SseBroker) → (fan_out evt b).clients ≡ b.clients
unfolding fan_out
fan_out-clients evt b = ground arith

fan_out-event_ch : (evt : Event) (b : SseBroker) → (fan_out evt b).event_ch ≡ b.event_ch
unfolding fan_out
fan_out-event_ch evt b = ground arith

run_once_lem :
    (evt : Event) (queue : List Event) (b : SseBroker)
    → b.event_ch ≡ evt ∷ queue
    → run_once b ≡ fan_out evt (record b { event_ch = queue })
unfolding run_once
run_once_lem evt queue b e = ground (arith, e)

-- As many rounds of `run` as events wait in the queue empty it.
run_for_lem :
    (r : ℕ) (queue : List Event) (b : SseBroker)
    → b.event_ch ≡ queue
    → length (b.buffers r) + length (heard r b.clients queue) ≤ client_capacity
    → ((run_for (length queue) b).buffers r ≡ b.buffers r ++ heard r b.clients queue)
      × ((run_for (length queue) b).event_ch ≡ [])
unfolding run_for heard
run_for_lem r [] b e h = (sym (append-nil (b.buffers r)), e)
run_for_lem r (evt ∷ queue) b e h =
    rw (run_once_lem evt queue b e, run_for)
      (let b' = fan_out evt (record b { event_ch = queue }) in
        let sent =
          fan_out-buffers r evt (record b { event_ch = queue }) (omega (arith, total, many)) in
        let same : b'.clients ≡ b.clients = fan_out-clients evt (record b { event_ch = queue }) in
        let rest =
          run_for_lem r queue b' (fan_out-event_ch evt (record b { event_ch = queue }))
            (rw (same, sent) (omega (arith, total, many, length-append (b.buffers r) now))) in
        (rest.0 ∙ rw (same, sent, append_assoc) refl, rest.1))
  where
    now : List Event
    now = replicate (copies r (listeners b.clients evt)) evt

    total : length (b.buffers r) + (length now + length (heard r b.clients queue)) ≤ client_capacity
    total = rw (← length-append now (heard r b.clients queue)) h

    many : length now ≡ copies r (listeners b.clients evt)
    many = length-replicate (copies r (listeners b.clients evt)) evt

copies-insert :
    (c : SseClient) (cs : Dict SseClient)
    → copies c.events cs ≡ 0
    → copies c.events (insert c.id c cs) ≡ 1
unfolding copies insert
copies-insert c [] h = ground arith
copies-insert c ((j, d) ∷ cs) h = ground (arith, copies-insert c cs)

-- Each project reaches the client's channel not at all, or once and through the client itself.
abbrev IsSole : SseClient → Registry → String → Type 0
IsSole c m pid =
    (copies c.events (option_or (lookup pid m) []) ≡ 0)
    ⊎ ((copies c.events (option_or (lookup pid m) []) ≡ 1) × (registered m pid c.id ≡ some c))

insert_same :
    (id : String) (c : SseClient) (cs : Dict SseClient)
    → lookup id cs ≡ some c
    → insert id c cs ≡ cs
unfolding lookup insert
insert_same id c [] h = cc
insert_same id c ((j, d) ∷ cs) h = ground (arith, insert_same id c cs, eq_iff j id)

copies-register :
    (c : SseClient) (q pid : String) (m : Registry)
    → IsSole c m q
    → copies c.events (option_or (lookup pid (register c q m)) [])
      ≡ (if q == pid then 1 else copies c.events (option_or (lookup pid m) []))
unfolding register
copies-register c q pid m h =
    let inner = option_or (lookup q m) [] in
    rw (lookup-insert q pid (insert c.id c inner) m)
      (ground (arith, copies-insert c inner, insert_same c.id c inner))

register-IsSole :
    (c : SseClient) (q pid : String) (m : Registry)
    → IsSole c m q
    → IsSole c m pid
    → IsSole c (register c q m) pid
register-IsSole c q pid m h k =
    rw (copies-register c q pid m h, registered-register c q pid c.id m)
      (ground (arith, eq_self c.id))

copies-register_all :
    (c : SseClient) (qs : List String) (pid : String) (m : Registry)
    → ((q : String) → IsSole c m q)
    → copies c.events (option_or (lookup pid (register_all c qs m)) [])
      ≡ (if listed pid qs then 1 else copies c.events (option_or (lookup pid m) []))
unfolding register_all
copies-register_all c [] pid m h = refl
copies-register_all c (q ∷ qs) pid m h =
    copies-register_all c qs pid (register c q m) (λ p. register-IsSole c q p m (h q) (h p))
    ∙ rw (copies-register c q pid m (h q)) (ground arith)

heard-subscribe :
    (c : SseClient) (qs : List String) (m : Registry)
    → ((pid : String) → copies c.events (option_or (lookup pid m) []) ≡ 0)
    → (evts : List Event)
    → heard c.events (register_all c qs m) evts ≡ select (λ e. listed e.project_id qs) evts
unfolding heard select
heard-subscribe c qs m fresh [] = refl
heard-subscribe c qs m fresh (evt ∷ evts) =
    rw
      (
        copies-register_all c qs evt.project_id m (λ q. inl (fresh q)),
        heard-subscribe c qs m fresh evts,
        fresh evt.project_id,
      )
      (ground arith)

-- The handlers' calls of `Publish`, one after the other.
pub publish_all : List Event → SseBroker → SseBroker
publish_all [] b = b
publish_all (evt ∷ evts) b = publish_all evts (publish evt b)

publish-room :
    (evt : Event) (b : SseBroker)
    → length b.event_ch < broker_capacity
    → publish evt b ≡ record b { event_ch = b.event_ch ++ evt ∷ [] }
unfolding publish
publish-room evt b h = ground arith

-- While the queue has room nothing is dropped, and nothing else of the broker changes.
publish_all_lem :
    (evts : List Event) (b : SseBroker)
    → length b.event_ch + length evts ≤ broker_capacity
    → publish_all evts b ≡ record b { event_ch = b.event_ch ++ evts }
unfolding publish_all
publish_all_lem [] b h = rw append-nil
publish_all_lem (evt ∷ evts) b h =
    rw (publish-room evt b (omega arith), publish_all)
      (publish_all_lem evts (record b { event_ch = b.event_ch ++ evt ∷ [] })
          (omega (arith, length-append b.event_ch (evt ∷ [])))
        ∙ rw append_assoc)

-- On a broker whose queue is empty, a client with a channel of its own, still empty, subscribes to
-- some projects; then events are published, at most 256 of them and at most 64 for those projects,
-- and the broker runs one round for each. The channel then holds the events of the listed projects, each once and in the order of
-- publication, and the queue is empty.
pub subscribed_receives :
    (c : SseClient) (qs : List String) (evts : List Event) (b : SseBroker)
    → ((pid : String) → copies c.events (option_or (lookup pid b.clients) []) ≡ 0)
    → b.buffers c.events ≡ []
    → b.event_ch ≡ []
    → length evts ≤ broker_capacity
    → length (select (λ e. listed e.project_id qs) evts) ≤ client_capacity
    → let b' = run_for (length evts) (publish_all evts (subscribe c qs b)) in
      (b'.buffers c.events ≡ select (λ e. listed e.project_id qs) evts) × (b'.event_ch ≡ [])
unfolding subscribe
subscribed_receives c qs evts b fresh quiet idle few room =
    let b' = record b { clients = register_all c qs b.clients; event_ch = evts } in
    let same = heard-subscribe c qs b.clients fresh evts in
    let ran = run_for_lem c.events evts b' refl (rw (same, quiet) (omega arith)) in
    rw
      (
        publish_all_lem evts (record b { clients = register_all c qs b.clients })
            (rw idle (omega arith)),
        idle,
      )
      (ran.0 ∙ rw (same, quiet) refl, ran.1)
