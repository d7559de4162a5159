-- ===== src/RateLimit/Race/Tests.antt =====
-- Requests at the same time, under a limit of five.
use task_flow_alisha_sharma.Common.{ℕ, refl, All, replicate, arith}
use task_flow_alisha_sharma.Common.Int.{pos}
use task_flow_alisha_sharma.RateLimit.{RateLimitConfig, Entry, pass}
use task_flow_alisha_sharma.RateLimit.Race.{
  Race, answered, with_count, Reach, arrivals, race_passes,
}
use task_flow_alisha_sharma.RateLimit.Race.Fairness.{Unrefused, race_fair}

abbrev five : RateLimitConfig
five = record { max = pos 5; window = 60 }

abbrev fresh : Entry
fresh = record { count = 0; expires_at = 100 }

abbrev all_passed : ℕ → Race
all_passed n = record { entry = with_count 1 fresh; threads = replicate n (answered pass) }

race_passes_example : Reach five (arrivals 10 fresh) (all_passed 10)
race_passes_example = race_passes five 5 9 50 fresh refl (omega arith)

race_fair_example : All Unrefused (all_passed 3).threads
race_fair_example =
    race_fair five 5 3 fresh (all_passed 3) refl (omega arith)
      (race_passes five 5 2 50 fresh refl (omega arith))
