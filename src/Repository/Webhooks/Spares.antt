-- ===== src/Repository/Webhooks/Spares.antt =====
-- The statements on the webhook_subscriptions table leave the subscriptions of other users alone.
use task_flow_alisha_sharma.Common.{
  ℕ, String, ◌≡◌, refl, not, List, [], ◌∷◌, ◌++◌, select, any, Bool, arith, eq_iff,
}
use task_flow_alisha_sharma.Common.Exec.{ok}
use task_flow_alisha_sharma.Model.{WebhookSubscription}
use task_flow_alisha_sharma.Database.{Db, Statement}
use task_flow_alisha_sharma.Database.Others.{foreign_subscriptions, Harmless}
use task_flow_alisha_sharma.Repository.Webhooks.{owned_row, insert_subscription}

foreign-append :
    (u : String) (ss : List WebhookSubscription) (s : WebhookSubscription)
    → s.user_id ≡ u
    → foreign_subscriptions u (ss ++ s ∷ []) ≡ foreign_subscriptions u ss
unfolding select
foreign-append u [] s mine = ground (arith, mine, eq_iff s.user_id u)
foreign-append u (r ∷ ss) s mine = ground (arith, foreign-append u ss s mine)

foreign-delete :
    (u id : String) (ss : List WebhookSubscription)
    → foreign_subscriptions u (select (λ s. not (owned_row id u s)) ss) ≡ foreign_subscriptions u ss
unfolding select
foreign-delete u id [] = refl
foreign-delete u id (s ∷ ss) = ground (arith, foreign-delete u id ss)

insert_subscription-projects :
    (s : WebhookSubscription) (at : ℕ) (db : Db)
    → (insert_subscription s at db).1.projects ≡ db.projects
unfolding insert_subscription
insert_subscription-projects s at db = ground arith

pub insert_subscription-Harmless :
    (u : String) (s : WebhookSubscription) → s.user_id ≡ u → Harmless u (insert_subscription s)
unfolding insert_subscription
insert_subscription-Harmless u s mine at db = record {
  projects = ground arith;
  subscriptions = ground (arith, foreign-append u db.subscriptions s mine);
  users = ground arith;
  refresh_tokens = ground arith;
  keyed = λ d. rw (insert_subscription-projects s at db) d;
}

-- The statement of `Delete`.
abbrev pub delete_statement : String → String → Statement Bool
delete_statement id u at db = (
  ok (any (owned_row id u) db.subscriptions),
  record db { subscriptions = select (λ s. not (owned_row id u s)) db.subscriptions },
)

pub delete_statement-Harmless : (u id : String) → Harmless u (delete_statement id u)
delete_statement-Harmless u id at db = record {
  projects = refl;
  subscriptions = foreign-delete u id db.subscriptions;
  users = refl;
  refresh_tokens = refl;
  keyed = λ d. d;
}
