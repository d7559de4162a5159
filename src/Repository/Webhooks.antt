-- ===== src/Repository/Webhooks.antt =====
-- backend/internal/repository/webhook.go
pub mod Spares
use task_flow_alisha_sharma.Common.{
  String, Option, Bool, false, not, ◌&&◌, ◌||◌, List, [], ◌∷◌, ◌++◌, ◌==◌, ltb, if◌then◌else◌, find,
  any, select,
}
use task_flow_alisha_sharma.Common.Exec.{ok, err}
use task_flow_alisha_sharma.Model.{WebhookSubscription}
use task_flow_alisha_sharma.AppError.{duplicate_key, foreign_key, too_long}
use task_flow_alisha_sharma.Database.{Env, Repo, Statement, statement, user_exists, fits}

abbrev pub has_id : String → WebhookSubscription → Bool
has_id id s = s.id == id

-- The constraint webhook_subs_unique.
abbrev pub same_target : WebhookSubscription → WebhookSubscription → Bool
same_target s r = r.user_id == s.user_id && r.url == s.url

unfoldable pub insert_subscription : WebhookSubscription → Statement (Unit {0})
insert_subscription s at db =
    if any (has_id s.id) db.subscriptions || any (same_target s) db.subscriptions
    then (err duplicate_key, db)
    else if not (fits 256 s.secret)
    then (err too_long, db)
    else if not (user_exists s.user_id db)
    then (err foreign_key, db)
    else (ok tt, record db { subscriptions = db.subscriptions ++ s ∷ [] })

unfoldable pub create : Env → WebhookSubscription → Repo (Unit {0})
unfolding statement insert_subscription
create env s = statement env (insert_subscription s)

-- ORDER BY created_at DESC; rows of one instant come in the order of the table.
place : WebhookSubscription → List WebhookSubscription → List WebhookSubscription
place s [] = s ∷ []
place s (r ∷ rs) =
    let rest = place s rs in if ltb r.created_at s.created_at then s ∷ r ∷ rs else r ∷ rest

unfoldable pub newest_first : List WebhookSubscription → List WebhookSubscription
unfolding place
newest_first [] = []
newest_first (s ∷ ss) = place s (newest_first ss)

unfoldable pub find_by_user : Env → String → Repo (List WebhookSubscription)
unfolding statement
find_by_user env user_id = statement env λ at db. (
  ok (newest_first (select (λ (s : WebhookSubscription). s.user_id == user_id) db.subscriptions)),
  db,
)

unfoldable pub find_by_id : Env → String → Repo (Option WebhookSubscription)
unfolding statement
find_by_id env id = statement env λ at db. (ok (find (has_id id) db.subscriptions), db)

abbrev pub owned_row : String → String → WebhookSubscription → Bool
owned_row id user_id s = has_id id s && s.user_id == user_id

unfoldable pub delete : Env → String → String → Repo Bool
unfolding statement
delete env id user_id = statement env λ at db. (
  ok (any (owned_row id user_id) db.subscriptions),
  record db { subscriptions = select (λ s. not (owned_row id user_id s)) db.subscriptions },
)

abbrev pub contains : List String → String → Bool
contains [] s = false
contains (t ∷ ts) s = t == s || contains ts s

-- active = true AND $1 = ANY(event_types) AND $2 = ANY(project_ids)
abbrev pub subscribed_to : String → String → WebhookSubscription → Bool
subscribed_to event_type project_id s =
    s.active && contains s.event_types event_type && contains s.project_ids project_id

unfoldable pub find_matching_subscriptions : Env → String → String → Repo (List WebhookSubscription)
unfolding statement
find_matching_subscriptions env event_type project_id =
    statement env λ at db. (ok (select (subscribed_to event_type project_id) db.subscriptions), db)
