-- ===== src/Sse/Shutdown.antt =====
-- `Shutdown` closes the `Done` channel of a client once for each project that lists it.
use task_flow_alisha_sharma.Common.{
  ℕ, ◌+◌, ◌≤◌, ◌<◌, String, ◌≡◌, refl, Bool, true, false, Option, none, some, [], ◌∷◌, arith, eqb,
  ltb, ◌||◌, if◌then◌else◌, put_at, eq_iff, eq_self, ◌≢◌, Option-cases, inl, inr,
}
use task_flow_alisha_sharma.Common.Dict.{Dict, lookup}
use task_flow_alisha_sharma.Sse.{
  SseClient, SseBroker, Registry, close_clients, close_projects, shutdown, subscribe,
}
use task_flow_alisha_sharma.Sse.Registry.{registered, registered-subscribe}

-- How often the registry names the `Done` channel `d`.
closings_of : ℕ → Dict SseClient → ℕ
closings_of d [] = 0
closings_of d ((id, c) ∷ cs) = (if eqb d c.done then 1 else 0) + closings_of d cs

unfoldable pub closings : ℕ → Registry → ℕ
unfolding closings_of
closings d [] = 0
closings d ((pid, cs) ∷ m) = closings_of d cs + closings d m

abbrev pub bit : Bool → ℕ
bit true = 1
bit false = 0

abbrev OutcomeOf : ℕ → ℕ → (ℕ → Bool) → Option (ℕ → Bool) → Type 0
OutcomeOf d n closed none = 0 < 1
OutcomeOf d n closed (some closed') = (n + bit (closed d) ≤ 1) × (closed' d ≡ (closed d || ltb 0 n))

-- Where the loop over one project's clients returns, each channel was closed at most once.
close_clients_lem :
    (d : ℕ) (cs : Dict SseClient) (closed : ℕ → Bool)
    → OutcomeOf d (closings_of d cs) closed (close_clients cs closed)
unfolding close_clients closings_of put_at
close_clients_lem d [] closed = ground arith
close_clients_lem d ((id, c) ∷ cs) closed =
    ground (arith, close_clients_lem d cs (put_at c.done true closed))

close_projects_lem :
    (d : ℕ) (m : Registry) (closed : ℕ → Bool)
    → OutcomeOf d (closings d m) closed (close_projects m closed)
unfolding close_projects closings
close_projects_lem d [] closed = ground arith
close_projects_lem d ((pid, cs) ∷ m) closed = elim (Option-cases (close_clients cs closed)) [
  | inl e ↦ rw (e, close_projects) (omega arith)
  | inr (closed', e) ↦
      rw (e, close_projects)
        (ground (arith, (rw e at (close_clients_lem d cs closed)), close_projects_lem d m closed'))
]

named_twice_panics : (b : SseBroker) (d : ℕ) → 2 ≤ closings d b.clients → shutdown b ≡ none
unfolding shutdown
named_twice_panics b d h = ground (arith, close_projects_lem d b.clients b.closed)

closings_of-lookup :
    (c : SseClient) (id : String) (cs : Dict SseClient)
    → lookup id cs ≡ some c
    → 1 ≤ closings_of c.done cs
unfolding lookup closings_of
closings_of-lookup c id [] h = cc
closings_of-lookup c id ((j, d) ∷ cs) h = ground (arith, closings_of-lookup c id cs)

closings-registered :
    (c : SseClient) (pid id : String) (m : Registry)
    → registered m pid id ≡ some c
    → 1 ≤ closings c.done m
unfolding lookup closings
closings-registered c pid id [] h = cc
closings-registered c pid id ((q, cs) ∷ m) h =
    ground (arith, closings_of-lookup c id cs, closings-registered c pid id m)

closings-registered_twice :
    (c : SseClient) (p q id : String) (m : Registry)
    → p ≢ q
    → registered m p id ≡ some c
    → registered m q id ≡ some c
    → 2 ≤ closings c.done m
unfolding lookup closings
closings-registered_twice c p q id [] d h k = cc
closings-registered_twice c p q id ((i, cs) ∷ m) d h k = ground (
  arith,
  eq_iff i p,
  eq_iff i q,
  closings_of-lookup c id cs,
  closings-registered c p id m,
  closings-registered c q id m,
  closings-registered_twice c p q id m,
)

-- `Shutdown` panics on a broker, whatever else it holds, to which a client has subscribed for two
-- different projects: it closes that client's `Done` channel twice.
pub shutdown_panics :
    (c : SseClient) (p q : String) (b : SseBroker)
    → p ≢ q
    → shutdown (subscribe c (p ∷ q ∷ []) b) ≡ none
shutdown_panics c p q b d =
    let pids = p ∷ q ∷ [] in
    named_twice_panics (subscribe c pids b) c.done (
      closings-registered_twice c p q c.id (subscribe c pids b).clients d
        (rw registered-subscribe (ground (arith, eq_self p, eq_self c.id)))
        (rw registered-subscribe (ground (arith, eq_self q, eq_self c.id))))

close_clients_total :
    (cs : Dict SseClient) (closed : ℕ → Bool)
    → ((d : ℕ) → closings_of d cs + bit (closed d) ≤ 1)
    → (closed' : ℕ → Bool) × (close_clients cs closed ≡ some closed')
unfolding close_clients closings_of
close_clients_total [] closed h = (closed, refl)
close_clients_total ((id, c) ∷ cs) closed h =
    let rest =
      close_clients_total cs (put_at c.done true closed)
        (λ d. unfold put_at in ground (arith, h d)) in
    (rest.0, ground (arith, h c.done, rest.1))

close_projects_total :
    (m : Registry) (closed : ℕ → Bool)
    → ((d : ℕ) → closings d m + bit (closed d) ≤ 1)
    → (closed' : ℕ → Bool) × (close_projects m closed ≡ some closed')
unfolding close_projects closings
close_projects_total [] closed h = (closed, refl)
close_projects_total ((pid, cs) ∷ m) closed h =
    let first = close_clients_total cs closed (λ d. omega (arith, h d)) in
    let rest =
      close_projects_total m first.0
        (λ d. ground (arith, h d, (rw first.1 at (close_clients_lem d cs closed)))) in
    (rest.0, rw (first.1, close_projects) rest.1)

-- On a broker that runs, where each `Done` channel is named at most once and an open one, `Shutdown`
-- returns: it has closed exactly the named channels, and has no client left.
pub shutdown_closes :
    (b : SseBroker)
    → b.stopped ≡ false
    → ((d : ℕ) → closings d b.clients + bit (b.closed d) ≤ 1)
    → (b' : SseBroker) × (shutdown b ≡ some b')
      × (b'.clients ≡ [])
      × (b'.stopped ≡ true)
      × ((d : ℕ) → b'.closed d ≡ (b.closed d || ltb 0 (closings d b.clients)))
unfolding shutdown
shutdown_closes b run h =
    let (closed', e) = close_projects_total b.clients b.closed h in
    (
      record b { clients = []; stopped = true; closed = closed' },
      ground (arith, run, e),
      refl,
      refl,
      λ d. (rw e at (close_projects_lem d b.clients b.closed)).1,
    )
