-- ===== src/Sse/Vacancy.antt =====
-- A broker that nobody is registered with.
use task_flow_alisha_sharma.Common.{
  String, ◌≡◌, refl, ◌∙◌, inl, inr, none, some, true, false, List, [], ◌∷◌, ◌==◌, ◌&&◌, arith,
  Bool-cases, Option, eq_self,
}
use task_flow_alisha_sharma.Common.Dict.{lookup}
use task_flow_alisha_sharma.Model.{Event}
use task_flow_alisha_sharma.Sse.{
  SseClient, SseBroker, Registry, publish, subscribe, unsubscribe, shutdown, close_projects,
}
use task_flow_alisha_sharma.Sse.Registry.{
  registered, listed, registered-subscribe, registered-unsubscribe, IsTrim, subscriptions-IsTrim,
}

-- There is a broker, without clients, and `Shutdown` has not been called.
abbrev pub Vacant : Option SseBroker → Type 0
Vacant none = ⊥
Vacant (some b) = (b.clients ≡ []) × (b.stopped ≡ false)

pub publish-Vacant : (evt : Event) (b : SseBroker) → Vacant (some b) → Vacant (some (publish evt b))
unfolding publish
publish-Vacant evt b h = (ground (arith, h.0), ground (arith, h.1))

trim_and_none :
    (m : Registry) → IsTrim m → ((pid id : String) → registered m pid id ≡ none) → m ≡ []
unfolding lookup
trim_and_none [] trim nobody = refl
trim_and_none ((pid, []) ∷ rest) trim nobody = absurd (trim pid (rw (eq_self pid) refl))
trim_and_none ((pid, (id, c) ∷ cs) ∷ rest) trim nobody =
    absurd (ground (arith, nobody pid id, eq_self pid, eq_self id))

empty-IsTrim : IsTrim []
unfolding lookup
empty-IsTrim pid = cc

empty-registered : (pid id : String) → registered [] pid id ≡ none
unfolding lookup
empty-registered pid id = refl

pub passing-Vacant :
    (c : SseClient) (qs : List String) (b : SseBroker)
    → Vacant (some b)
    → Vacant (some (unsubscribe c.id qs (subscribe c qs b)))
unfolding subscribe unsubscribe
passing-Vacant c qs b h =
    let on = subscriptions-IsTrim c c.id qs b (rw h.0 empty-IsTrim) in
    let off = subscriptions-IsTrim c c.id qs (subscribe c qs b) on.0 in
    (
      trim_and_none (unsubscribe c.id qs (subscribe c qs b)).clients off.1 λ pid id.
          elim (Bool-cases (listed pid qs && c.id == id)) [
            | inl hit ↦ registered-unsubscribe c.id qs (subscribe c qs b) pid id ∙ rw hit refl
            | inr miss ↦
                registered-unsubscribe c.id qs (subscribe c qs b) pid id
                ∙ rw miss
                    (registered-subscribe c qs b pid id ∙ rw (miss, h.0) (empty-registered pid id))
          ],
      h.1,
    )

pub shutdown-Vacant : (b : SseBroker) → Vacant (some b) → (b' : SseBroker) × (shutdown b ≡ some b')
unfolding shutdown close_projects
shutdown-Vacant b h =
    (record b { clients = []; stopped = true; closed = b.closed }, rw (h.1, h.0) refl)
