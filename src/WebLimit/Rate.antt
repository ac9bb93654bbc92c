-- ===== src/WebLimit/Rate.antt =====
-- What a call pays: an account of the tokens of one bucket.
use syncstudies.Base.{ℕ, ◌*◌, ◌≡◌, refl, false, some, arith, Bool-cases, inl, inr, if◌then◌else◌}
use syncstudies.Base.Int.{ℤ, pos, ◌+ℤ◌, ◌-ℤ◌, ◌*ℤ◌, ◌≤ℤ◌, ltb_ℤ, min_ℤ, int_laws, *ℤ_nonneg}
use syncstudies.WebLimit.Policies.{RateLimitPolicy}
use syncstudies.WebLimit.{JsWait, TokenCount, RateLimitResult, refilled, take_token}

refilled-le :
    (policy : RateLimitPolicy) (b : TokenCount) (now : ℤ)
    → refilled policy b now ≤ℤ b.tokens +ℤ (now -ℤ b.updated_ms) *ℤ pos policy.limit
unfolding refilled
refilled-le policy b now = ground arith

refilled_nonneg :
    (policy : RateLimitPolicy) (b : TokenCount) (now : ℤ)
    → pos 0 ≤ℤ b.tokens
    → b.updated_ms ≤ℤ now
    → pos 0 ≤ℤ refilled policy b now
unfolding refilled
refilled_nonneg policy b now solvent since = least_nonneg (policy.limit * policy.window_ms) _ (
    sum_nonneg b.tokens _ solvent (
      *ℤ_nonneg (now -ℤ b.updated_ms) (pos policy.limit) (ahead b.updated_ms now since)
        (omega arith)))
  where
    least_nonneg : (c : ℕ) (x : ℤ) → pos 0 ≤ℤ x → pos 0 ≤ℤ min_ℤ (pos c) x
    least_nonneg c x h = ground arith

    sum_nonneg : (x y : ℤ) → pos 0 ≤ℤ x → pos 0 ≤ℤ y → pos 0 ≤ℤ x +ℤ y
    sum_nonneg x y h k = omega int_laws

    ahead : (u t : ℤ) → u ≤ℤ t → pos 0 ≤ℤ t -ℤ u
    ahead u t h = omega int_laws

abbrev pub cost : RateLimitPolicy → RateLimitResult → ℤ
cost policy result = pos (if result.allowed then policy.window_ms else 0)

-- A call pays for its token with what the bucket held and what it has been refilled with since, and
-- leaves no debt.
pub take_token-pays :
    (js : JsWait) (policy : RateLimitPolicy) (b : TokenCount) (now : ℤ)
    → pos 0 ≤ℤ b.tokens
    → b.updated_ms ≤ℤ now
    → let (b', result) = take_token js policy (some b) now in
      (b'.updated_ms ≡ now)
      × (pos 0 ≤ℤ b'.tokens)
      × (b'.tokens +ℤ cost policy result ≤ℤ b.tokens +ℤ (now -ℤ b.updated_ms) *ℤ pos policy.limit)
unfolding take_token
take_token-pays js policy b now solvent since =
    let at_most = refilled-le policy b now in
    let at_least = refilled_nonneg policy b now solvent since in
    elim (Bool-cases (ltb_ℤ (refilled policy b now) (pos policy.window_ms))) [
      | inl low ↦ rw low (refl, at_least, omega int_laws)
      | inr high ↦
          rw high (refl, left_over (refilled policy b now) policy.window_ms high, omega int_laws)
    ]
  where
    left_over : (t : ℤ) (w : ℕ) → ltb_ℤ t (pos w) ≡ false → pos 0 ≤ℤ t -ℤ pos w
    left_over t w h = let le : pos w ≤ℤ t = ground arith in omega int_laws
