-- ===== src/RateLimit/Tests.antt =====
-- Runs of the limiter, and its theorems at concrete inputs.
use task_flow_alisha_sharma.Common.{◌≡◌, refl, inl, [], ◌∷◌, arith}
use task_flow_alisha_sharma.Common.Int.{pos}
use task_flow_alisha_sharma.Common.Dict.{lookup, lookup-empty}
use task_flow_alisha_sharma.RateLimit.{
  RateLimitConfig, Entry, Entries, ticked, stopped, refuse, rate_limit,
}
use task_flow_alisha_sharma.RateLimit.Window.{passed, window_limit, burst}
use task_flow_alisha_sharma.RateLimit.Cleanup.{answers}
use task_flow_alisha_sharma.RateLimit.Sweeps.{Work, swept_answers, requests_of, answers_unswept}

abbrev two_each : RateLimitConfig
two_each = record { max = pos 2; window = 1_000_000_000 }

third_is_refused :
    (rate_limit two_each "auth:ip" 7 7
      (("auth:ip", record { count = 2; expires_at = 1_000_000_005 }) ∷ [])).0
    ≡ refuse (pos 1)
unfolding rate_limit lookup
third_is_refused = refl

window_limit_example : (passed two_each "k" (5 ∷ 6 ∷ 7 ∷ []) []).0 ≡ 2
window_limit_example =
    window_limit two_each "k" 5 (6 ∷ 7 ∷ []) [] (inl (lookup-empty {V = Entry} "k")) (omega arith)

burst_example :
    let first = passed two_each "k" (5 ∷ 1_000_000_005 ∷ []) [] in
    let second = passed two_each "k" (1_000_000_006 ∷ 1_000_000_006 ∷ []) first.1 in
    (first.0 ≡ 2) × (second.0 ≡ 2)
burst_example = burst 1 1_000_000_000 5 "k" [] (inl (lookup-empty {V = Entry} "k"))

abbrev stale : Entries
stale = ("a", record { count = 9; expires_at = 3 }) ∷ []

-- The cleanup deletes the entry of "a" before its request, and stops before that of "b".
abbrev work : Work
work = (ticked 4 ∷ [], "a", 5) ∷ (stopped ∷ ticked 6 ∷ [], "b", 6) ∷ []

answers_unswept_example :
    swept_answers two_each work stale ≡ answers two_each (requests_of work) stale
answers_unswept_example =
    answers_unswept two_each 4 work stale (lookup-empty {V = Entry} "a", tt) (omega arith)
