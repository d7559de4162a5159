-- ===== src/Webhook/Delivery.antt =====
-- How a delivery ends.
use task_flow_alisha_sharma.Common.{
  inl, inr, Bool-cases, ℕ, zero, suc, ◌+◌, ◌-◌, ◌≤◌, ◌<◌, ◌≡◌, refl, ◌∙◌, some, true, false, arith,
  option_or,
}
use task_flow_alisha_sharma.Common.Int.{ℤ, pos, negsuc, ◌≤ℤ◌}
use task_flow_alisha_sharma.Webhook.{
  Client, delivered, exhausted, panicked, panics, takes_down, pause, is_success, deliver_from,
  deliver,
}
use native.Mathlib.Nat.{sub-zero, sub_self}

-- The seconds slept up to the attempt.
pub waited : ℕ → ℕ
waited zero = 0
waited (suc attempt) = waited attempt + option_or (pause attempt) 0

-- The attempts before this one did not succeed.
abbrev pub FailsBefore : Client → ℕ → Type 0
FailsBefore client k = (j : ℕ) → j < k → is_success (client j) ≡ false

pause-some : (k : ℕ) → k < 4 → pause k ≡ some (option_or (pause k) 0)
pause-some zero h = refl
pause-some (suc zero) h = refl
pause-some (suc (suc zero)) h = refl
pause-some (suc (suc (suc zero))) h = refl
pause-some (suc (suc (suc (suc k)))) h = absurd (omega arith)

deliver_from_fail :
    (rounds : ℕ) (client : Client) (k slept wait : ℕ)
    → pause k ≡ some wait
    → is_success (client k) ≡ false
    → deliver_from (suc rounds) client k slept ≡ deliver_from rounds client (suc k) (slept + wait)
unfolding deliver_from
deliver_from_fail rounds client k slept wait e fails = rw (e, deliver_from, fails) refl

deliver_from_success :
    (rounds : ℕ) (client : Client) (k slept wait : ℕ)
    → pause k ≡ some wait
    → is_success (client k) ≡ true
    → deliver_from (suc rounds) client k slept
      ≡ record { result = delivered; attempts = suc k; slept = slept + wait }
unfolding deliver_from
deliver_from_success rounds client k slept wait e hit = rw (e, deliver_from, hit) refl

-- While the attempts fail and there are waits for them, the loop goes on.
deliver_from_skip :
    (client : Client) (rounds k : ℕ)
    → k ≤ rounds
    → k ≤ 4
    → FailsBefore client k
    → deliver_from rounds client 0 0 ≡ deliver_from (rounds - k) client k (waited k)
unfolding waited
deliver_from_skip client rounds zero h few fails = rw sub-zero refl
deliver_from_skip client rounds (suc k) h few fails =
    deliver_from_skip client rounds k (omega arith) (omega arith) (λ j l. fails j (omega arith))
    ∙ rw (left_lem rounds k h) (
        deliver_from_fail (rounds - suc k) client k (waited k) (option_or (pause k) 0)
          (pause-some k few) (fails k (omega arith)))
  where
    left_lem : (a b : ℕ) → suc b ≤ a → a - b ≡ suc (a - suc b)
    left_lem a b h = omega arith

-- A delivery whose attempts before `k` fail and whose attempt `k` is answered by a status from 200
-- to 299, within the retries and the four waits, has been delivered by that attempt.
pub deliver_succeeds :
    (max_retries k : ℕ) (client : Client)
    → k ≤ max_retries
    → k ≤ 3
    → FailsBefore client k
    → is_success (client k) ≡ true
    → deliver (pos max_retries) client
      ≡ record { result = delivered; attempts = suc k; slept = waited (suc k) }
unfolding deliver waited
deliver_succeeds max_retries k client h few fails hit =
    deliver_from_skip client (suc max_retries) k (omega arith) (omega arith) fails
    ∙ rw left (
        deliver_from_success (max_retries - k) client k (waited k) (option_or (pause k) 0)
          (pause-some k (omega arith)) hit)
  where
    left : suc max_retries - k ≡ suc (max_retries - k)
    left = omega arith

-- With at most three retries a delivery whose every attempt fails is given up after all of them, and
-- does not panic.
pub deliver_exhausts :
    (max_retries : ℕ) (client : Client)
    → max_retries ≤ 3
    → FailsBefore client (suc max_retries)
    → deliver (pos max_retries) client
      ≡ record { result = exhausted; attempts = suc max_retries; slept = waited (suc max_retries) }
unfolding deliver
deliver_exhausts max_retries client few fails =
    deliver_from_skip client (suc max_retries) (suc max_retries) (omega arith) (omega arith) fails
    ∙ rw (sub_self (suc max_retries)) (unfold deliver_from in refl)

-- With four retries or more a delivery whose first four attempts fail panics: it indexes `backoff`
-- out of range before the fifth.
pub deliver_panics :
    (max_retries : ℕ) (client : Client)
    → 4 ≤ max_retries
    → FailsBefore client 4
    → deliver (pos max_retries) client ≡ record { result = panicked; attempts = 4; slept = 31 }
unfolding deliver waited
deliver_panics max_retries client many fails =
    deliver_from_skip client (suc max_retries) 4 (omega arith) (omega arith) fails
    ∙ rw left (unfold deliver_from in refl)
  where
    left : suc max_retries - 4 ≡ suc (max_retries - 4)
    left = omega arith

deliver_from_calm :
    (rounds : ℕ) (client : Client) (k slept : ℕ)
    → k + rounds ≤ 4
    → panics (deliver_from rounds client k slept).result ≡ false
deliver_from_calm zero client k slept h = unfold deliver_from in refl
deliver_from_calm (suc rounds) client k slept h =
    let wait = option_or (pause k) 0 in
    let waits : pause k ≡ some wait = pause-some k (omega arith) in
    elim (Bool-cases (is_success (client k))) [
      | inl hit ↦ rw (deliver_from_success rounds client k slept wait waits hit) refl
      | inr miss ↦
          rw (deliver_from_fail rounds client k slept wait waits miss)
            (deliver_from_calm rounds client (suc k) (slept + wait) (omega arith))
    ]

-- With at most three retries, or a negative number of them, no delivery ends the process.
pub takes_down-calm :
    (max_retries : ℤ) (client : Client)
    → max_retries ≤ℤ pos 3
    → takes_down max_retries client ≡ false
unfolding deliver
takes_down-calm (pos n) client few = deliver_from_calm (suc n) client 0 0 (omega (arith, few))
takes_down-calm (negsuc n) client few = deliver_from_calm 0 client 0 0 (omega arith)
