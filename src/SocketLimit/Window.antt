-- ===== src/SocketLimit/Window.antt =====
-- One window: how many calls it lets through, in process and in Redis alike.
use Prim.Native.Nat.{min}
use syncstudies.Base.{
  ℕ, suc, ◌+◌, ◌<◌, ◌≡◌, Option, none, some, List, [], ◌∷◌, arith, Bool-cases, inl, inr,
  if◌then◌else◌, ltb, length, All,
}
use syncstudies.Base.Int.{ℤ, pos, ◌+ℤ◌, ◌<ℤ◌, ltb_ℤ_of_lt, max_ℤ, -ℤ_parts}
use syncstudies.SocketLimit.{
  RateRule, RateVerdict, verdict_allowed, verdict_refused, LocalWindow, Counter, local_step,
  rate_limit_script,
}

-- The calls that a row of calls lets through.
pub allowed_count : Option LocalWindow → RateRule → List ℤ → ℕ
allowed_count w rule [] = 0
allowed_count w rule (t ∷ ts) =
    let (w', verdict) = local_step w rule t in
    (if verdict.allowed then 1 else 0) + allowed_count (some w') rule ts

open_window :
    (w : LocalWindow) (rule : RateRule) (ts : List ℤ)
    → All (λ t. t <ℤ w.reset_at) ts
    → allowed_count (some w) rule ts + min w.count rule.limit ≡ min (w.count + length ts) rule.limit
unfolding allowed_count local_step
open_window w rule [] early = omega arith
open_window w rule (t ∷ ts) (now, early) =
    let rest = open_window (record w { count = suc w.count }) rule ts early in
    rw (ltb_ℤ_of_lt t w.reset_at now) (elim (Bool-cases (ltb rule.limit (suc w.count))) [
      | inl full ↦ rw full (ground arith)
      | inr free ↦ rw free (ground arith)
    ])

-- Of the calls in one window, which the first one opens, exactly the first `limit` are allowed, at
-- whatever times of the window they come. The limit is positive.
pub allowed_count_window :
    (rule : RateRule) (t₀ : ℤ) (ts : List ℤ)
    → 0 < rule.limit
    → All (λ t. t <ℤ t₀ +ℤ pos rule.window_ms) ts
    → allowed_count none rule (t₀ ∷ ts) ≡ min (suc (length ts)) rule.limit
unfolding allowed_count local_step
allowed_count_window rule t₀ ts some_limit early =
    omega
      (arith, open_window (record { count = 1; reset_at = t₀ +ℤ pos rule.window_ms }) rule ts early)

-- The Redis counter that holds what the in-process window holds.
abbrev pub as_counter : Option LocalWindow → Option Counter
as_counter none = none
as_counter (some w) = some (record { count = w.count; expires_at = some w.reset_at })

abbrev pub verdict_of : Option ℤ → RateVerdict
verdict_of none = verdict_allowed
verdict_of (some ttl) = verdict_refused (max_ℤ (pos 0) ttl)

-- The in-process window is no weaker than the one in Redis: on the same count both give the same
-- verdict and keep the same count, for a rule that allows anything.
pub local_step-script :
    (w : Option LocalWindow) (rule : RateRule) (now : ℤ)
    → 0 < rule.limit
    → let (w', verdict) = local_step w rule now in
      let (c, reply) = rate_limit_script (as_counter w) rule.limit rule.window_ms now in
      (some c ≡ as_counter (some w')) × (verdict_of reply ≡ verdict)
unfolding local_step rate_limit_script
local_step-script none rule now h = ground arith
local_step-script (some w) rule now h = ground (arith, -ℤ_parts w.reset_at now)
