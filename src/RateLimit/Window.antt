-- ===== src/RateLimit/Window.antt =====
-- How many requests of one key pass.
use Prim.Native.Nat.{min}
use task_flow_alisha_sharma.Common.{
  ℕ, zero, suc, ◌+◌, ◌-◌, ◌≤◌, ◌<◌, String, ◌≡◌, refl, ◌∙◌, ◌⊎◌, inl, inr, none, some, List, [],
  ◌∷◌, arith, if◌then◌else◌, ◌==◌, eq_self, replicate, length-replicate, All, length,
}
use task_flow_alisha_sharma.Common.Int.{pos, pos_part}
use task_flow_alisha_sharma.Common.Dict.{lookup, lookup-insert}
use task_flow_alisha_sharma.RateLimit.{
  RateLimitConfig, Entry, Entries, Verdict, pass, refuse, hit, verdict, rate_limit,
}

abbrev pub passes : Verdict → ℕ
passes pass = 1
passes (refuse seconds) = 0

-- The requests of one key, by the readings of the clock: how many pass, and what is stored then.
unfoldable pub passed : RateLimitConfig → String → List ℕ → Entries → ℕ × Entries
passed cfg key [] entries = (0, entries)
passed cfg key (now ∷ times) entries =
    let here = rate_limit cfg key now now entries in
    let rest = passed cfg key times here.1 in (passes here.0 + rest.0, rest.1)

-- A request writes the entry of its own key.
pub lookup-rate_limit :
    (cfg : RateLimitConfig) (key other : String) (now later : ℕ) (entries : Entries)
    → lookup other (rate_limit cfg key now later entries).1
      ≡ (if key == other then some (hit cfg now (lookup key entries)) else lookup other entries)
unfolding rate_limit
lookup-rate_limit cfg key other now later entries =
    lookup-insert key other (hit cfg now (lookup key entries)) entries

lookup-rate_limit_self :
    (cfg : RateLimitConfig) (key : String) (now later : ℕ) (entries : Entries)
    → lookup key (rate_limit cfg key now later entries).1 ≡ some (hit cfg now (lookup key entries))
lookup-rate_limit_self cfg key now later entries =
    rw (lookup-rate_limit cfg key key now later entries, eq_self key) refl

pub verdict-rate_limit :
    (cfg : RateLimitConfig) (key : String) (now later : ℕ) (entries : Entries)
    → (rate_limit cfg key now later entries).0
      ≡ verdict cfg later (hit cfg now (lookup key entries))
unfolding rate_limit
verdict-rate_limit cfg key now later entries = refl

hit_open :
    (cfg : RateLimitConfig) (now : ℕ) (e : Entry)
    → now ≤ e.expires_at
    → hit cfg now (some e) ≡ record e { count = e.count + 1 }
unfolding hit
hit_open cfg now e h = ground arith

hit_new :
    (cfg : RateLimitConfig) (now : ℕ)
    → hit cfg now none ≡ record { count = 1; expires_at = now + cfg.window }
unfolding hit
hit_new cfg now = ground arith

hit_expired :
    (cfg : RateLimitConfig) (now : ℕ) (e : Entry)
    → e.expires_at < now
    → hit cfg now (some e) ≡ record { count = 1; expires_at = now + cfg.window }
unfolding hit
hit_expired cfg now e h = ground arith

passes-verdict :
    (cfg : RateLimitConfig) (later : ℕ) (e : Entry)
    → 1 ≤ e.count
    → passes (verdict cfg later e) ≡ min 1 (pos_part cfg.max + 1 - e.count)
unfolding verdict
passes-verdict cfg later e h = ground arith

-- In a window that stays open the first requests pass, as many as the limit leaves.
passed_open :
    (cfg : RateLimitConfig) (key : String) (times : List ℕ) (entries : Entries) (e : Entry)
    → lookup key entries ≡ some e
    → All (λ t. t ≤ e.expires_at) times
    → ((passed cfg key times entries).0 ≡ min (length times) (pos_part cfg.max - e.count))
      × (lookup key (passed cfg key times entries).1
          ≡ some (record e { count = e.count + length times }))
unfolding passed
passed_open cfg key [] entries e h within = (omega arith, h ∙ ground arith)
passed_open cfg key (t ∷ ts) entries e h within =
    let here : hit cfg t (lookup key entries) ≡ record e { count = e.count + 1 } =
      rw h (hit_open cfg t e within.0) in
    let one = verdict-rate_limit cfg key t t entries in
    let now = passes-verdict cfg t (record e { count = e.count + 1 }) (omega arith) in
    let rest =
      passed_open cfg key ts (rate_limit cfg key t t entries).1 (record e { count = e.count + 1 })
        (lookup-rate_limit_self cfg key t t entries ∙ rw here refl) within.1 in
    (rw (one, here) (omega (arith, now, rest.0)), rest.1 ∙ ground arith)

-- A window begins with a request that finds no entry of its key, or an expired one.
abbrev pub Begins : String → ℕ → Entries → Type 0
Begins key now entries =
    (lookup key entries ≡ none)
    ⊎ ((e : Entry) × (lookup key entries ≡ some e) × (e.expires_at < now))

hit-Begins :
    (cfg : RateLimitConfig) (key : String) (now : ℕ) (entries : Entries)
    → Begins key now entries
    → hit cfg now (lookup key entries) ≡ record { count = 1; expires_at = now + cfg.window }
hit-Begins cfg key now entries (inl e) = rw e (hit_new cfg now)
hit-Begins cfg key now entries (inr (e, found, over)) = rw found (hit_expired cfg now e over)

passed-Begins :
    (cfg : RateLimitConfig) (key : String) (now : ℕ) (times : List ℕ) (entries : Entries)
    → Begins key now entries
    → All (λ t. t ≤ now + cfg.window) times
    → ((passed cfg key (now ∷ times) entries).0 ≡ min (suc (length times)) (pos_part cfg.max))
      × (lookup key (passed cfg key (now ∷ times) entries).1
          ≡ some (record { count = suc (length times); expires_at = now + cfg.window }))
unfolding passed
passed-Begins cfg key now times entries new within =
    let here = hit-Begins cfg key now entries new in
    let first : Entry = record { count = 1; expires_at = now + cfg.window } in
    let one = verdict-rate_limit cfg key now now entries in
    let passes_now = passes-verdict cfg now first (omega arith) in
    let rest =
      passed_open cfg key times (rate_limit cfg key now now entries).1 first
        (lookup-rate_limit_self cfg key now now entries ∙ rw here refl) within in
    (rw (one, here) (omega (arith, passes_now, rest.0)), rest.1 ∙ ground arith)

-- Of the requests of one key in a window, from the one that begins it to the last at or before its
-- end, exactly the first `Max` pass (none where `Max` is negative), and all of them where they are
-- fewer.
pub window_limit :
    (cfg : RateLimitConfig) (key : String) (now : ℕ) (times : List ℕ) (entries : Entries)
    → Begins key now entries
    → All (λ t. t ≤ now + cfg.window) times
    → (passed cfg key (now ∷ times) entries).0 ≡ min (suc (length times)) (pos_part cfg.max)
window_limit cfg key now times entries new within =
    (passed-Begins cfg key now times entries new within).0

All-replicate : (n a b : ℕ) → a ≤ b → All (λ t. t ≤ b) (replicate n a)
All-replicate zero a b h = tt
All-replicate (suc n) a b h = (h, All-replicate n a b h)

-- The windows are fixed and do not slide. For any positive limit `suc n`: after a first request that
-- begins a window, `n` requests in the window's last instant and `suc n` in the next one all pass,
-- `n + suc n` of them within one nanosecond.
pub burst :
    (n window now : ℕ) (key : String) (entries : Entries)
    → Begins key now entries
    → let cfg : RateLimitConfig = record { max = pos (suc n); window = window } in
      let first = passed cfg key (now ∷ replicate n (now + window)) entries in
      let second = passed cfg key (replicate (suc n) (now + window + 1)) first.1 in
      (first.0 ≡ suc n) × (second.0 ≡ suc n)
burst n window now key entries new =
    let cfg : RateLimitConfig = record { max = pos (suc n); window = window } in
    let many = replicate n (now + window) in
    let more = replicate n (now + window + 1) in
    let opened =
      passed-Begins cfg key now many entries new
        (All-replicate n (now + window) (now + window) (omega arith)) in
    let again =
      passed-Begins cfg key (now + window + 1) more (passed cfg key (now ∷ many) entries).1
        (inr (_, opened.1, omega arith))
        (All-replicate n (now + window + 1) (now + window + 1 + window) (omega arith)) in
    (
      opened.0 ∙ omega (arith, length-replicate n (now + window)),
      again.0 ∙ omega (arith, length-replicate n (now + window + 1)),
    )
