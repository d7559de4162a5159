-- ===== src/Webhook.antt =====
-- backend/internal/service/webhook_dispatcher.go: the delivery of one event to one subscription.
-- The HTTP client is not part of the repository: `Client` is its answer to each attempt.
pub mod Delivery
pub mod Dispatcher
pub mod Request
mod Tests
use task_flow_alisha_sharma.Common.{
  ℕ, zero, suc, ◌+◌, ◌-◌, ◌≤◌, Option, none, some, Bool, true, false, ◌&&◌, List, [], ◌∷◌, ◌++◌,
  leb, ltb, if◌then◌else◌, get_elem?,
}
use task_flow_alisha_sharma.Common.Int.{ℤ, pos, negsuc}

-- httpClient.Do: an error, or the status code of the response.
pub data Response : Type 0 where
  failed : Response
  answered : ℕ → Response

abbrev pub Client : Type 0
Client = ℕ → Response

-- What `deliver` has done: the number of the last attempt that was made, and how it ended. A
-- `panicked` delivery takes the process down, since nothing in its goroutine recovers.
pub data Ending : Type 0 where
  delivered exhausted panicked : Ending

pub record Report : Type 0 where
  pub result : Ending
  pub attempts : ℕ
  pub slept : ℕ

-- In seconds.
abbrev pub backoff : List ℕ
backoff = 1 ∷ 5 ∷ 25 ∷ []

-- The wait before the attempt, `backoff[attempt-1]`; `none` is an index out of range.
abbrev pub pause : ℕ → Option ℕ
pause zero = some 0
pause (suc attempt) = get_elem? backoff attempt

abbrev pub is_success : Response → Bool
is_success failed = false
is_success (answered status) = leb 200 status && ltb status 300

-- The loop, with the number of rounds that its condition leaves.
pub deliver_from : ℕ → Client → ℕ → ℕ → Report
deliver_from zero client attempt slept = record {
  result = exhausted;
  attempts = attempt;
  slept = slept;
}
deliver_from (suc rounds) client attempt slept = elim (pause attempt) [
  | none ↦ record { result = panicked; attempts = attempt; slept = slept }
  | some wait ↦
      let rest = deliver_from rounds client (suc attempt) (slept + wait) in
      if is_success (client attempt)
      then record { result = delivered; attempts = suc attempt; slept = slept + wait }
      else rest
]

abbrev pub panics : Ending → Bool
panics panicked = true
panics other = false

-- `attempt <= WebhookMaxRetries` from 0 on.
abbrev pub rounds_of : ℤ → ℕ
rounds_of (pos n) = suc n
rounds_of (negsuc n) = 0

unfoldable pub deliver : ℤ → Client → Report
unfolding deliver_from
deliver max_retries client = deliver_from (rounds_of max_retries) client 0 0

-- A panic of the delivery ends the process.
abbrev pub takes_down : ℤ → Client → Bool
takes_down max_retries client = panics (deliver max_retries client).result
