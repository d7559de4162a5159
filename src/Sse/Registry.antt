-- ===== src/Sse/Registry.antt =====
-- Who is registered after `Subscribe` and `Unsubscribe`.
use task_flow_alisha_sharma.Common.{
  String, ◌≡◌, refl, Bool, false, Option, none, some, ◌≢◌, ◌||◌, ◌&&◌, List, [], ◌∷◌, arith, ◌==◌,
  inl, inr, Option-cases, eq_iff, if◌then◌else◌, option_or,
}
use task_flow_alisha_sharma.Common.Dict.{
  Dict, lookup, insert, erase, lookup-insert, lookup-erase, lookup-empty,
}
use task_flow_alisha_sharma.Sse.{
  SseClient, SseBroker, Registry, put_back, register, register_all, subscribe, leave, leave_all,
  unsubscribe,
}

-- The client that is registered for a project under an id.
abbrev pub registered : Registry → String → String → Option SseClient
registered m pid id = lookup id (option_or (lookup pid m) [])

abbrev pub listed : String → List String → Bool
listed pid [] = false
listed pid (q ∷ qs) = q == pid || listed pid qs

pub registered-register :
    (c : SseClient) (q pid id : String) (m : Registry)
    → registered (register c q m) pid id
      ≡ (if q == pid && c.id == id then some c else registered m pid id)
unfolding register
registered-register c q pid id m =
    rw (lookup-insert q pid (insert c.id c (option_or (lookup q m) [])) m)
      (ground (arith, eq_iff q pid, lookup-insert c.id id c (option_or (lookup q m) [])))

registered-register_all :
    (c : SseClient) (qs : List String) (pid id : String) (m : Registry)
    → registered (register_all c qs m) pid id
      ≡ (if listed pid qs && c.id == id then some c else registered m pid id)
unfolding register_all
registered-register_all c [] pid id m = refl
registered-register_all c (q ∷ qs) pid id m =
    rw (registered-register_all c qs pid id (register c q m), registered-register c q pid id m)
      (ground arith)

registered-put_back :
    (q pid id : String) (m : Registry) (left : Dict SseClient)
    → registered (put_back q left m) pid id
      ≡ (if q == pid then lookup id left else registered m pid id)
unfolding put_back
registered-put_back q pid id m [] =
    rw (lookup-erase q pid m) (ground (arith, lookup-empty {V = SseClient} id))
registered-put_back q pid id m (x ∷ xs) = rw (lookup-insert q pid (x ∷ xs) m) (ground arith)

registered-leave :
    (cid q pid id : String) (m : Registry)
    → registered (leave cid q m) pid id
      ≡ (if q == pid && cid == id then none else registered m pid id)
registered-leave cid q pid id m = elim (Option-cases (lookup q m)) [
  | inl e ↦
      unfold leave in
      rw (e, leave) (ground (arith, e, eq_iff q pid, lookup-empty {V = SseClient} id))
  | inr (cs, e) ↦
      unfold leave in
      rw (e, leave)
        (rw (registered-put_back q pid id m (erase cid cs), lookup-erase cid id cs)
          (ground (arith, e, eq_iff q pid)))
]

registered-leave_all :
    (cid : String) (qs : List String) (pid id : String) (m : Registry)
    → registered (leave_all cid qs m) pid id
      ≡ (if listed pid qs && cid == id then none else registered m pid id)
unfolding leave_all
registered-leave_all cid [] pid id m = refl
registered-leave_all cid (q ∷ qs) pid id m =
    rw (registered-leave_all cid qs pid id (leave cid q m), registered-leave cid q pid id m)
      (ground arith)

-- After `Subscribe` the client is registered, under its id, for exactly the listed projects, and
-- every other registration is as before.
pub registered-subscribe :
    (c : SseClient) (qs : List String) (b : SseBroker) (pid id : String)
    → registered (subscribe c qs b).clients pid id
      ≡ (if listed pid qs && c.id == id then some c else registered b.clients pid id)
unfolding subscribe
registered-subscribe c qs b pid id = registered-register_all c qs pid id b.clients

-- After `Unsubscribe` the id is registered for none of the listed projects, and every other
-- registration is as before.
pub registered-unsubscribe :
    (cid : String) (qs : List String) (b : SseBroker) (pid id : String)
    → registered (unsubscribe cid qs b).clients pid id
      ≡ (if listed pid qs && cid == id then none else registered b.clients pid id)
unfolding unsubscribe
registered-unsubscribe cid qs b pid id = registered-leave_all cid qs pid id b.clients

-- No project keeps an empty map of clients.
abbrev pub IsTrim : Registry → Type 0
IsTrim m = (pid : String) → lookup pid m ≢ some []

insert-ne-nil : (id : String) (c : SseClient) (cs : Dict SseClient) → insert id c cs ≢ []
unfolding insert
insert-ne-nil id c [] = cc
insert-ne-nil id c ((j, d) ∷ cs) = ground arith

register-IsTrim : (c : SseClient) (q : String) (m : Registry) → IsTrim m → IsTrim (register c q m)
unfolding register
register-IsTrim c q m h pid =
    rw (lookup-insert q pid (insert c.id c (option_or (lookup q m) [])) m)
      (ground (arith, h pid, insert-ne-nil c.id c (option_or (lookup q m) [])))

put_back-IsTrim :
    (q : String) (left : Dict SseClient) (m : Registry) → IsTrim m → IsTrim (put_back q left m)
unfolding put_back
put_back-IsTrim q [] m h pid = rw (lookup-erase q pid m) (ground (arith, h pid))
put_back-IsTrim q (x ∷ xs) m h pid = rw (lookup-insert q pid (x ∷ xs) m) (ground (arith, h pid))

leave-IsTrim : (cid q : String) (m : Registry) → IsTrim m → IsTrim (leave cid q m)
leave-IsTrim cid q m h = elim (Option-cases (lookup q m)) [
  | inl e ↦ unfold leave in rw (e, leave) h
  | inr (cs, e) ↦ unfold leave in rw (e, leave) (put_back-IsTrim q (erase cid cs) m h)
]

register_all-IsTrim :
    (c : SseClient) (qs : List String) (m : Registry) → IsTrim m → IsTrim (register_all c qs m)
unfolding register_all
register_all-IsTrim c [] m h = h
register_all-IsTrim c (q ∷ qs) m h =
    register_all-IsTrim c qs (register c q m) (register-IsTrim c q m h)

leave_all-IsTrim :
    (cid : String) (qs : List String) (m : Registry) → IsTrim m → IsTrim (leave_all cid qs m)
unfolding leave_all
leave_all-IsTrim cid [] m h = h
leave_all-IsTrim cid (q ∷ qs) m h = leave_all-IsTrim cid qs (leave cid q m) (leave-IsTrim cid q m h)

-- Neither `Subscribe` nor `Unsubscribe` leaves a project with an empty map of clients.
pub subscriptions-IsTrim :
    (c : SseClient) (cid : String) (qs : List String) (b : SseBroker)
    → IsTrim b.clients
    → IsTrim (subscribe c qs b).clients × IsTrim (unsubscribe cid qs b).clients
unfolding subscribe unsubscribe
subscriptions-IsTrim c cid qs b h =
    (register_all-IsTrim c qs b.clients h, leave_all-IsTrim cid qs b.clients h)
