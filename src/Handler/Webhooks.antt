-- ===== src/Handler/Webhooks.antt =====
-- backend/internal/handler/webhook.go
use task_flow_alisha_sharma.Common.{ℕ, String, Option, true, false, Bool, map}
use task_flow_alisha_sharma.Common.Exec.{pure, wrap_error, ◌>>=◌, ◌>>◌}
use task_flow_alisha_sharma.Model.{WebhookSubscription}
use task_flow_alisha_sharma.AppError.{
  AppError, DbError, is_duplicate, db, internal, conflict, not_found,
}
use task_flow_alisha_sharma.Database.{Env, now, new_id}
use task_flow_alisha_sharma.Repository.Webhooks as Webhooks
use task_flow_alisha_sharma.Validator.{Checker}
use task_flow_alisha_sharma.Validator.Rules.{CreateWebhookRequest, create_webhook_rules}
use task_flow_alisha_sharma.Service.Events.{App, or_internal, guard}
use task_flow_alisha_sharma.Http.{
  Reply, Handler, WebhookResponse, answer, webhook, webhook_list, or_return, or_panic,
}
use task_flow_alisha_sharma.Handler.{with_body, no_content}

abbrev pub new_subscription : CreateWebhookRequest → String → String → ℕ → WebhookSubscription
new_subscription req user_id id at = record {
  id = id;
  user_id = user_id;
  url = req.url;
  secret = req.secret;
  event_types = req.event_types;
  project_ids = req.project_ids;
  active = true;
  created_at = at;
}

abbrev pub response : WebhookSubscription → WebhookResponse
response s = record {
  id = s.id;
  url = s.url;
  event_types = s.event_types;
  project_ids = s.project_ids;
  active = s.active;
  created_at = s.created_at;
}

abbrev pub on_insert : Bool → DbError → AppError
on_insert true e = conflict "webhook subscription already exists for this URL and event type"
on_insert false e = internal (db e)

abbrev pub insert : Env → WebhookSubscription → App (Unit {0})
insert env s = wrap_error (λ e. on_insert (is_duplicate e) e) (Webhooks.create env s)

module _ (env : Env) (check : Checker) (user : Option String) where
  unfoldable pub create : Option CreateWebhookRequest → Handler Reply
  create parsed = with_body check create_webhook_rules parsed λ req. or_panic user >>= λ user_id.
      new_id env >>= λ id. now env >>= λ at.
      or_return (insert env (new_subscription req user_id id at))
      >> pure (answer 201 (webhook (response (new_subscription req user_id id at))))

  unfoldable pub list : Handler Reply
  list = or_panic user >>= λ user_id.
      or_return (or_internal (Webhooks.find_by_user env user_id)) >>= λ subs.
      pure (answer 200 (webhook_list (map response subs)))

  unfoldable pub delete : String → Handler Reply
  delete id = or_panic user >>= λ user_id.
      or_return (or_internal (Webhooks.delete env id user_id)) >>= λ deleted.
      or_return (guard deleted (not_found "not found")) >> pure no_content
