-- ===== src/Handler/Health.antt =====
-- backend/internal/handler/health.go. What the pool tells of itself is the argument of the handlers.
use task_flow_alisha_sharma.Common.{ℕ, ◌-◌, ◌/◌, String, Option, none, some, leb, if◌then◌else◌}
use task_flow_alisha_sharma.Common.Int.{ℤ, pos, sub_ℕ}
use task_flow_alisha_sharma.RateLimit.{second}
use task_flow_alisha_sharma.Http.{Reply, PoolStat, healthy, not_ready, ready, answer}

-- int(time.Since(t).Seconds()), truncated towards zero
abbrev uptime : ℕ → ℕ → ℤ
uptime started at =
    if leb started at then pos ((at - started) / second) else sub_ℕ 0 ((started - at) / second)

unfoldable pub health : ℕ → ℕ → PoolStat → Reply
health started at stat = answer 200 (healthy (uptime started at) stat)

-- The error of the ping, if there is one.
unfoldable pub check_ready : Option String → Reply
check_ready (some e) = answer 503 not_ready
check_ready none = answer 200 ready
