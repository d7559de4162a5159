-- ===== src/Webhook/Request.antt =====
-- backend/internal/service/webhook_dispatcher.go: what `deliver` sends, and `computeSignature`. The
-- libraries for JSON, HMAC and HTTP are not part of the repository.
mod Tests
use task_flow_alisha_sharma.Common.{ℕ, String, Option, none, some, Bool, if◌then◌else◌}
use task_flow_alisha_sharma.Common.Int.{ℤ}
use task_flow_alisha_sharma.Common.Text.{◌<>◌}
use task_flow_alisha_sharma.Model.{Event, Payload, WebhookSubscription, event_name}
use task_flow_alisha_sharma.Webhook.{Client, Report, deliver}

pub record WebhookPayload : Type 0 where
  pub event : String
  pub project_id : String
  pub job_id : String
  pub payload : Payload
  pub timestamp : ℕ

pub record Post : Type 0 where
  pub url : String
  pub content_type : String
  pub signature : String
  pub body : String

pub record Libraries : Type 0 where
  pub marshal : WebhookPayload → Option String
  -- the HMAC with SHA-256 of a text under a secret, in hexadecimal
  pub hmac_sha256 : String → String → String
  -- `http.NewRequest` accepts the URL
  pub accepts : String → Bool
  -- the receiver's answers to the attempts
  pub send : Post → Client

abbrev payload_of : Event → WebhookPayload
payload_of evt = record {
  event = event_name evt.kind;
  project_id = evt.project_id;
  job_id = evt.job_id;
  payload = evt.payload;
  timestamp = evt.timestamp;
}

abbrev compute_signature : Libraries → String → String → String
compute_signature lib secret body = "sha256=" <> lib.hmac_sha256 secret body

abbrev post_of : Libraries → WebhookSubscription → String → Post
post_of lib sub body = record {
  url = sub.url;
  content_type = "application/json";
  signature = compute_signature lib sub.secret body;
  body = body;
}

abbrev deliver_body : Libraries → ℤ → WebhookSubscription → Option String → Option Report
deliver_body lib max_retries sub none = none
deliver_body lib max_retries sub (some body) =
    if lib.accepts sub.url
    then some (deliver max_retries (lib.send (post_of lib sub body)))
    else none

-- The whole of `deliver`; `none` is a return before the first attempt.
unfoldable pub deliver_event : Libraries → ℤ → WebhookSubscription → Event → Option Report
deliver_event lib max_retries sub evt =
    deliver_body lib max_retries sub (lib.marshal (payload_of evt))
