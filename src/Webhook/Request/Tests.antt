-- ===== src/Webhook/Request/Tests.antt =====
-- A receiver that checks the signature.
use task_flow_alisha_sharma.Common.{◌≡◌, refl, some, true, ◌==◌, if◌then◌else◌, ◌∷◌, []}
use task_flow_alisha_sharma.Common.Int.{pos}
use task_flow_alisha_sharma.Common.Text.{◌<>◌}
use task_flow_alisha_sharma.Model.{Event, WebhookSubscription, task_deleted, of_id}
use task_flow_alisha_sharma.Webhook.{answered, delivered, deliver}
use task_flow_alisha_sharma.Webhook.Request.{Libraries, deliver_event}

abbrev toy : Libraries
toy = record {
  marshal = λ p. some p.event;
  hmac_sha256 = λ secret body. secret <> body;
  accepts = λ url. true;
  send = λ post attempt.
      if post.signature == "sha256=key" <> post.body then answered 204 else answered 401;
}

abbrev gone : Event
gone = record {
  job_id = "j1";
  kind = task_deleted;
  project_id = "p1";
  actor_id = "u1";
  payload = of_id "t1";
  timestamp = 5;
}

abbrev hook : WebhookSubscription
hook = record {
  id = "w1";
  user_id = "u1";
  url = "https://hooks.example.org";
  secret = "key";
  event_types = "task.deleted" ∷ [];
  project_ids = "p1" ∷ [];
  active = true;
  created_at = 3;
}

signed_and_accepted :
    deliver_event toy (pos 3) hook gone
    ≡ some (record { result = delivered; attempts = 1; slept = 0 })
unfolding deliver_event deliver
signed_and_accepted = refl
