-- ===== src/Webhook/Tests.antt =====
-- The theorems on deliveries at concrete clients.
use task_flow_alisha_sharma.Common.{ℕ, ◌<◌, ◌≡◌, refl, arith, ltb, false, if◌then◌else◌}
use task_flow_alisha_sharma.Common.Int.{pos, negsuc}
use task_flow_alisha_sharma.Webhook.{
  Client, failed, answered, delivered, exhausted, panicked, deliver, is_success,
}
use task_flow_alisha_sharma.Webhook.Delivery.{
  waited, deliver_succeeds, deliver_exhausts, deliver_panics,
}

abbrev always_500 : Client
always_500 attempt = answered 500

-- The third attempt is the first to be answered by 204.
abbrev third_time : Client
third_time attempt = if ltb attempt 2 then failed else answered 204

third_time_fails : (j : ℕ) → j < 2 → is_success (third_time j) ≡ false
third_time_fails j h = ground arith

deliver_succeeds_example :
    deliver (pos 3) third_time ≡ record { result = delivered; attempts = 3; slept = waited 3 }
deliver_succeeds_example =
    deliver_succeeds 3 2 third_time (omega arith) (omega arith) third_time_fails refl

deliver_exhausts_example :
    deliver (pos 3) always_500 ≡ record { result = exhausted; attempts = 4; slept = waited 4 }
deliver_exhausts_example = deliver_exhausts 3 always_500 (omega arith) (λ j h. refl)

deliver_panics_example :
    deliver (pos 4) always_500 ≡ record { result = panicked; attempts = 4; slept = 31 }
deliver_panics_example = deliver_panics 4 always_500 (omega arith) (λ j h. refl)

-- A negative number of retries makes no attempt.
deliver_negative :
    deliver (negsuc 0) third_time ≡ record { result = exhausted; attempts = 0; slept = 0 }
unfolding deliver
deliver_negative = refl
