-- ===== src/WebLimit/Bucket.antt =====
-- The time that a refusal of one bucket names, and when the bucket allows a call again.
use syncstudies.Base.{ℕ, suc, ◌+◌, ◌-◌, ◌*◌, ◌/◌, ◌≤◌, ◌<◌, ◌≡◌, ◌↔◌, true, some, arith}
use syncstudies.Base.Int.{ℤ, pos, pos_part, neg_part, ◌+ℤ◌, ◌-ℤ◌, ◌*ℤ◌, ◌≤ℤ◌, ◌<ℤ◌, *ℤ_parts}
use syncstudies.WebLimit.Policies.{RateLimitPolicy}
use syncstudies.WebLimit.{TokenCount, JsWait, refilled, take_token}

-- A limit and a window that are not zero, as all of the table's are.
pub record IsProper (policy : RateLimitPolicy) : Type 0 where
  pub some_limit : 0 < policy.limit
  pub some_window : 0 < policy.window_ms

-- The window fits the full bucket.
pub window-le :
    (policy : RateLimitPolicy)
    → IsProper policy
    → policy.window_ms ≤ policy.limit * policy.window_ms
window-le policy ok = grind arith

-- A wait by `*ℤ pos` on both parts.
pub scaled_parts :
    (d : ℤ) (k : ℕ)
    → pos_part (d *ℤ pos k) + neg_part d * k ≡ neg_part (d *ℤ pos k) + pos_part d * k
scaled_parts d k = omega (arith, *ℤ_parts d (pos k))

-- The time to the next token in whole milliseconds, rounded up but for that exact.
unfoldable pub exact_wait : RateLimitPolicy → ℤ → ℕ
exact_wait policy tokens =
    (pos_part (pos policy.window_ms -ℤ tokens) + (policy.limit - 1)) / policy.limit

-- Whether a token is there at a time.
pub allowed_iff :
    (js : JsWait) (policy : RateLimitPolicy) (b : TokenCount) (now : ℤ)
    → IsProper policy
    → ((take_token js policy (some b) now).1.allowed ≡ true)
      ↔ (pos policy.window_ms ≤ℤ b.tokens +ℤ (now -ℤ b.updated_ms) *ℤ pos policy.limit)
unfolding take_token refilled
allowed_iff js policy b now ok = ground (arith, window-le policy ok)

-- The doubles name the time to within a millisecond.
pub record IsClose (js : JsWait) (policy : RateLimitPolicy) (tokens : ℤ) : Type 0 where
  pub late : js.wait_for_token policy tokens ≤ suc (exact_wait policy tokens)
  pub early : exact_wait policy tokens ≤ suc (js.wait_for_token policy tokens)

module _ (js : JsWait) (policy : RateLimitPolicy) (ok : IsProper policy) (tokens now : ℤ)
    (low : tokens <ℤ pos policy.window_ms) where
  abbrev left : TokenCount
  left = record { tokens = tokens; updated_ms = now }
