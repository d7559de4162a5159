-- ===== src/RateLimit.antt =====
-- backend/internal/middleware/ratelimit.go. `entries` maps a key to its counter; a `sync.Map` call is
-- atomic. Times and durations are numbers of nanoseconds, the window is not negative, and `Max` is
-- a Go `int`. A handler runs whole.
pub mod Window
pub mod Cleanup
pub mod Sweeps
pub mod Race
mod Tests
use task_flow_alisha_sharma.Common.{
  ℕ, ◌+◌, ◌-◌, ◌/◌, ◌^◌, String, Option, none, some, Bool, true, false, List, [], ◌∷◌, leb, ltb,
  if◌then◌else◌,
}
use task_flow_alisha_sharma.Common.Int.{ℤ, pos, ltb_ℤ, sub_ℕ}
use task_flow_alisha_sharma.Common.Dict.{Dict, lookup, insert, erase}

pub record RateLimitConfig : Type 0 where
  pub max : ℤ
  pub window : ℕ

pub record Entry : Type 0 where
  pub count : ℕ
  pub expires_at : ℕ

abbrev pub Entries : Type 0
Entries = Dict Entry

-- The next handler runs, or the answer is 429 with this number of seconds in `Retry-After`.
pub data Verdict : Type 0 where
  pass : Verdict
  refuse : ℤ → Verdict

-- LoadOrStore: the entry of the key, which is a new one if there is none.
abbrev pub load_or_store : RateLimitConfig → ℕ → Option Entry → Entry
load_or_store cfg now none = record { count = 0; expires_at = now + cfg.window }
load_or_store cfg now (some e) = e

-- now.After(e.expiresAt)
abbrev pub expired : ℕ → Entry → Bool
expired now e = ltb e.expires_at now

abbrev pub reset : RateLimitConfig → ℕ → Entry → Entry
reset cfg now e = if expired now e then record { count = 0; expires_at = now + cfg.window } else e

abbrev pub second : ℕ
second = 1_000_000_000

-- int(time.Until(t).Seconds()) + 1, truncated towards zero
abbrev pub retry_after : ℕ → ℕ → ℤ
retry_after expires_at at =
    if leb at expires_at
    then pos ((expires_at - at) / second + 1)
    else sub_ℕ 1 ((at - expires_at) / second)

-- What the handler stores for the key, and what it answers; `later` is its second look at the clock.
unfoldable pub hit : RateLimitConfig → ℕ → Option Entry → Entry
hit cfg now found =
    let e = reset cfg now (load_or_store cfg now found) in record e { count = e.count + 1 }

unfoldable pub verdict : RateLimitConfig → ℕ → Entry → Verdict
verdict cfg later e =
    if ltb_ℤ cfg.max (pos e.count) then refuse (retry_after e.expires_at later) else pass

unfoldable pub rate_limit : RateLimitConfig → String → ℕ → ℕ → Entries → Verdict × Entries
unfolding hit verdict
rate_limit cfg key now later entries =
    let e = hit cfg now (lookup key entries) in (verdict cfg later e, insert key e entries)

-- One round of `cleanup`: the expired entries are deleted.
unfoldable pub cleanup : ℕ → Entries → Entries
cleanup now [] = []
cleanup now ((key, e) ∷ rest) =
    let kept = cleanup now rest in if expired now e then kept else (key, e) ∷ kept

-- What the `select` of the cleanup goroutine takes: a tick, with the time that the round reads, or the
-- closed channel `stop`.
pub data Wake : Type 0 where
  ticked : ℕ → Wake
  stopped : Wake

unfoldable pub cleanup_loop : List Wake → Entries → Entries
cleanup_loop [] entries = entries
cleanup_loop (ticked now ∷ wakes) entries = cleanup_loop wakes (cleanup now entries)
cleanup_loop (stopped ∷ wakes) entries = entries

-- `StopRateLimiterCleanup`, on whether `stop` is closed: a second `close` panics.
unfoldable pub stop_cleanup : Bool → Option Bool
stop_cleanup false = some true
stop_cleanup true = none
