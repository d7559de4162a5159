-- ===== src/Handler/Stream/Registration.antt =====
-- What is left of a stream when its handler has returned.
use mathlib.Core.Path.{subst}
use task_flow_alisha_sharma.Common.{
  String, ◌≡◌, refl, ◌∙◌, ◌⊎◌, inl, inr, Option, none, some, List, [], ◌∷◌, ◌==◌, ◌&&◌,
  if◌then◌else◌, any, arith, eq_iff, eq_self, Bool-cases, Option-cases,
}
use task_flow_alisha_sharma.Common.Int.{ℤ, pos, negsuc, ◌-ℤ◌, leb_ℤ}
use task_flow_alisha_sharma.Common.Dict.{lookup-insert}
use task_flow_alisha_sharma.Common.Text.{split}
use task_flow_alisha_sharma.Common.Exec.{ok}
use task_flow_alisha_sharma.Database.{Env, World, statement-bus}
use task_flow_alisha_sharma.Sse.{SseClient, SseBroker, subscribe, unsubscribe}
use task_flow_alisha_sharma.Sse.Registry.{
  registered, listed, registered-subscribe, registered-unsubscribe,
}
use task_flow_alisha_sharma.Repository.Projects.{is_user_in_project, has_id, involves}
use task_flow_alisha_sharma.Http.{Reply}
use task_flow_alisha_sharma.Handler.Stream.{
  Streams, conns_of, count_up, count_down, check_projects, open_stream, close_stream, finish, admit,
  stream_for, stream, access, client_of, max_conns_per_user,
}

up_down : (z : ℤ) → z -ℤ negsuc 0 -ℤ pos 1 ≡ z
up_down (pos n) = ground arith
up_down (negsuc n) = ground arith

-- The counters of all users are as they were.
abbrev pub SameConns : Streams → Streams → Type 0
SameConns s t = (v : String) → conns_of v t ≡ conns_of v s

conns-count_up :
    (u v : String) (s : Streams)
    → conns_of v (count_up u s) ≡ (if u == v then conns_of u s -ℤ negsuc 0 else conns_of v s)
unfolding count_up
conns-count_up u v s = rw (lookup-insert u v (conns_of u s -ℤ negsuc 0) s.user_conns) (ground arith)

conns-count_down :
    (u v : String) (s : Streams)
    → conns_of v (count_down u s) ≡ (if u == v then conns_of u s -ℤ pos 1 else conns_of v s)
unfolding count_down
conns-count_down u v s = rw (lookup-insert u v (conns_of u s -ℤ pos 1) s.user_conns) (ground arith)

-- No registration has appeared, and a broker is still a broker.
abbrev pub NoNewcomer : Option SseBroker → Option SseBroker → Type 0
NoNewcomer none bus = bus ≡ none
NoNewcomer (some b) bus =
    (b' : SseBroker) × (bus ≡ some b')
    × ((pid id : String)
        → (registered b'.clients pid id ≡ none)
          ⊎ (registered b'.clients pid id ≡ registered b.clients pid id))

unsubscribe_subscribed :
    (c : SseClient) (qs : List String) (b : SseBroker) (pid id : String)
    → let b' = unsubscribe c.id qs (subscribe c qs b) in
      (registered b'.clients pid id ≡ none)
      ⊎ (registered b'.clients pid id ≡ registered b.clients pid id)
unsubscribe_subscribed c qs b pid id = elim (Bool-cases (listed pid qs && c.id == id)) [
  | inl hit ↦ inl (registered-unsubscribe c.id qs (subscribe c qs b) pid id ∙ rw hit refl)
  | inr miss ↦ inr (
      registered-unsubscribe c.id qs (subscribe c qs b) pid id
      ∙ rw miss (registered-subscribe c qs b pid id ∙ rw miss refl))
]

-- One up and one down, whatever the rest of the handler makes of the world in between.
up_then_down :
    (u v : String) (s t : Streams)
    → t.user_conns ≡ (count_up u s).user_conns
    → conns_of v (count_down u t) ≡ conns_of v s
up_then_down u v s t same =
    let at : (x : String) → conns_of x t ≡ conns_of x (count_up u s) =
      λ (x : String). rw same refl in
    ground (
      arith,
      conns-count_down u v t,
      at u,
      at v,
      conns-count_up u u s,
      conns-count_up u v s,
      eq_self u,
      eq_iff u v,
      up_down (conns_of u s),
    )

NoNewcomer-refl : (bus : Option SseBroker) → NoNewcomer bus bus
NoNewcomer-refl none = refl
NoNewcomer-refl (some b) = (b, refl, λ pid id. inr refl)

abbrev pub with_event_bus : Option SseBroker → Streams → Streams
with_event_bus bus s = record s { world = record s.world { event_bus = bus } }

finish-NoNewcomer :
    (env : Env) (u : String) (pids : List String) (s : Streams)
    → NoNewcomer s.world.event_bus (finish u pids (open_stream env u pids s)).1.world.event_bus
unfolding open_stream close_stream count_down count_up
finish-NoNewcomer env u pids s =
    elim s.world.event_bus
      as (λ (bus : Option SseBroker).
        NoNewcomer bus
          (finish u pids (open_stream env u pids (with_event_bus bus s))).1.world.event_bus) [
            | none ↦ refl
            | some b ↦ (
              _,
              refl,
              λ pid id.
                  unsubscribe_subscribed (client_of (env.new_uuid s.world.ticks) u s.handles) pids b
                    pid id,
            )
          ]

finish-SameConns :
    (env : Env) (u : String) (pids : List String) (s : Streams)
    → SameConns s (finish u pids (open_stream env u pids s)).1
unfolding open_stream close_stream
finish-SameConns env u pids s v =
    elim s.world.event_bus
      as (λ (bus : Option SseBroker).
        conns_of v (finish u pids (open_stream env u pids (with_event_bus bus s))).1
        ≡ conns_of v s) [
          | none ↦ up_then_down u v (with_event_bus none s) _ refl
          | some b ↦ up_then_down u v (with_event_bus (some b) s) _ refl
        ]

member-bus :
    (env : Env) (pid u : String) (w : World)
    → (is_user_in_project env pid u w).1.event_bus ≡ w.event_bus
unfolding is_user_in_project
member-bus env pid u w =
    (statement-bus env
      (λ at db. (ok (any (λ p. has_id pid p && involves u db.tasks p) db.projects), db)) w).0

pub check_projects-bus :
    (env : Env) (u : String) (pids : List String) (w : World)
    → (check_projects env u pids w).1.event_bus ≡ w.event_bus
unfolding check_projects
check_projects-bus env u [] w = refl
check_projects-bus env u (pid ∷ pids) w =
    let seen = is_user_in_project env pid u w in
    elim (Option-cases (access seen.0 none)) [
      | inl e ↦
          rw (e, check_projects) (check_projects-bus env u pids seen.1 ∙ member-bus env pid u w)
      | inr (r, e) ↦ rw (e, check_projects) (member-bus env pid u w)
    ]

admit_lem :
    (env : Env) (u : String) (pids : List String) (r : Option Reply) (s : Streams)
    → let t = (admit env u pids r s).1 in
      SameConns s t × NoNewcomer s.world.event_bus t.world.event_bus
admit_lem env u pids (some r) s = (λ v. refl, NoNewcomer-refl s.world.event_bus)
admit_lem env u pids none s = elim (Bool-cases (leb_ℤ max_conns_per_user (conns_of u s))) [
  | inl full ↦ rw full (λ v. refl, NoNewcomer-refl s.world.event_bus)
  | inr room ↦ rw room (finish-SameConns env u pids s, finish-NoNewcomer env u pids s)
]

stream_for_lem :
    (env : Env) (u projects : String) (s : Streams)
    → let t = (stream_for env u projects s).1 in
      SameConns s t × NoNewcomer s.world.event_bus t.world.event_bus
stream_for_lem env u projects s = elim (Bool-cases (projects == "")) [
  | inl none_named ↦ rw none_named (λ v. refl, NoNewcomer-refl s.world.event_bus)
  | inr named ↦
      let seen = check_projects env u (split projects) s.world in
      let bus = check_projects-bus env u (split projects) s.world in
      rw named (
        let lem = admit_lem env u (split projects) seen.0 (record s { world = seen.1 }) in
        (
          lem.0,
          subst
              (λ (x : Option SseBroker).
                NoNewcomer x
                  (admit env u (split projects) seen.0
                    (record s { world = seen.1 })).1.world.event_bus)
              bus lem.1,
        ))
]

-- A stream is over for the broker when its handler returns, whatever it replies: no registration has
-- been added to those from before, so that no later event reaches the client, and the connection
-- counts of all users are those from before.
pub stream_unsubscribes :
    (env : Env) (user : Option String) (projects : String) (s : Streams)
    → let t = (stream env user projects s).1 in
      SameConns s t × NoNewcomer s.world.event_bus t.world.event_bus
unfolding stream
stream_unsubscribes env none projects s = (λ v. refl, NoNewcomer-refl s.world.event_bus)
stream_unsubscribes env (some u) projects s = stream_for_lem env u projects s
