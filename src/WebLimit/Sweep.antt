-- ===== src/WebLimit/Sweep.antt =====
-- What the sweep of old buckets changes: nothing for a window of at most an hour, and the count of
-- a longer one.
use syncstudies.Base.{
  ℕ, zero, suc, ◌/◌, ◌+◌, ◌-◌, ◌*◌, ◌≤◌, ◌<◌, ◌≡◌, refl, sym, ap, ◌∙◌, true, false, Option, none,
  some, arith, Bool-cases, inl, inr,
}
use syncstudies.Base.Text.{String}
use syncstudies.Base.Int.{
  ℤ, pos, negsuc, pos_part, neg_part, ◌+ℤ◌, ◌-ℤ◌, ◌*ℤ◌, ◌≤ℤ◌, ◌<ℤ◌, ltb_ℤ, ltb_ℤ_of_lt, ltb_ℤ_of_le,
  lt-le-absurd, min_ℤ, int_laws, +ℤ_parts,
}
use native.Mathlib.Nat.{add-mul-div_right}
use syncstudies.WebLimit.Policies.{RateLimitPolicy, RateScope, rate_limits, hour}
use syncstudies.WebLimit.{
  JsWait, TokenCount, LimiterState, refilled, take_token, drop_older, sweep, sweep_interval_ms,
  bucket_key, consume_as,
}
use syncstudies.WebLimit.Bucket.{IsProper, window-le, scaled_parts, allowed_iff}

least : (c x : ℤ) → c ≤ℤ x → min_ℤ c x ≡ c
least c x h = ground arith

whole : (d : ℤ) (w l : ℕ) → pos w ≤ℤ d → l * w + neg_part d * l ≤ pos_part d * l
whole (pos n) w l h = grind arith
whole (negsuc n) w l h = absurd (omega arith)

-- After a whole window a bucket is full, if it held no debt.
refilled_full :
    (policy : RateLimitPolicy) (b : TokenCount) (now : ℤ)
    → pos 0 ≤ℤ b.tokens
    → pos policy.window_ms ≤ℤ now -ℤ b.updated_ms
    → refilled policy b now ≡ pos (policy.limit * policy.window_ms)
unfolding refilled
refilled_full policy b now solvent long =
    least (pos (policy.limit * policy.window_ms))
      (b.tokens +ℤ (now -ℤ b.updated_ms) *ℤ pos policy.limit)
      (omega (
        arith,
        scaled_parts (now -ℤ b.updated_ms) policy.limit,
        +ℤ_parts b.tokens ((now -ℤ b.updated_ms) *ℤ pos policy.limit),
        whole (now -ℤ b.updated_ms) policy.window_ms policy.limit long,
      ))

one_less : (l w : ℕ) → 0 < l → (l - 1) * w + w ≡ l * w
one_less zero w h = elim h [ ]
one_less (suc k) w h = let e : suc k - 1 ≡ k = omega arith in rw e (omega arith)

full_less_one : (l w : ℕ) → 0 < l → pos (l * w) -ℤ pos w ≡ pos ((l - 1) * w)
full_less_one l w h = omega (int_laws, one_less l w h)

times-div : (n w : ℕ) → 0 < w → n * w / w ≡ n
times-div n w h =
    let e : 0 + n * w ≡ n * w = omega arith in rw (← e) (add-mul-div_right 0 n h ∙ omega arith)

-- A full bucket answers as a new one does.
pub take_token-full :
    (js : JsWait) (policy : RateLimitPolicy) (b : TokenCount) (now : ℤ)
    → IsProper policy
    → pos 0 ≤ℤ b.tokens
    → pos policy.window_ms ≤ℤ now -ℤ b.updated_ms
    → take_token js policy (some b) now ≡ take_token js policy none now
unfolding take_token
take_token-full js policy b now ok solvent long =
    let enough : ltb_ℤ (pos (policy.limit * policy.window_ms)) (pos policy.window_ms) ≡ false =
      ground (arith, window-le policy ok) in
    rw (
      refilled_full policy b now solvent long,
      enough,
      full_less_one policy.limit policy.window_ms ok.some_limit,
      times-div (policy.limit - 1) policy.window_ms ok.some_window,
    )

-- No bucket holds a debt.
abbrev pub IsSolvent : Option TokenCount → Type 0
IsSolvent none = Unit {0}
IsSolvent (some b) = pos 0 ≤ℤ b.tokens

pub hour_long : (d : ℤ) (w : ℕ) → w ≤ hour → ltb_ℤ (pos hour) d ≡ true → pos w ≤ℤ d
hour_long d w short old = ground arith

take_token-drop_older :
    (js : JsWait) (policy : RateLimitPolicy) (b : Option TokenCount) (now : ℤ)
    → IsProper policy
    → policy.window_ms ≤ hour
    → IsSolvent b
    → take_token js policy (drop_older (λ c. c.updated_ms) (pos hour) now b) now
      ≡ take_token js policy b now
take_token-drop_older js policy none now ok short solvent = refl
take_token-drop_older js policy (some b) now ok short solvent =
    elim (Bool-cases (ltb_ℤ (pos hour) (now -ℤ b.updated_ms))) [
      | inl old ↦ rw old (
          sym (
            take_token-full js policy b now ok solvent
              (hour_long (now -ℤ b.updated_ms) policy.window_ms short old)))
      | inr new ↦ rw new
    ]

-- Where the window is at most an hour the sweep changes no answer: a call is answered from the
-- bucket as it stands, which holds no debt. The policy has a positive limit and window.
pub consume_as-sweep :
    (js : JsWait) (st : LimiterState) (scope : RateScope) (identifier : String) (now : ℤ)
    → IsProper (rate_limits scope)
    → (rate_limits scope).window_ms ≤ hour
    → IsSolvent (st.buckets (bucket_key scope identifier))
    → (consume_as js st scope identifier now).1
      ≡ (take_token js (rate_limits scope) (st.buckets (bucket_key scope identifier)) now).1
unfolding consume_as sweep
consume_as-sweep js st scope identifier now ok short solvent =
    elim (Bool-cases (ltb_ℤ (now -ℤ st.last_sweep_ms) sweep_interval_ms)) [
      | inl early ↦ rw early
      | inr due ↦ rw due (
          ap (λ r. r.1)
            (take_token-drop_older js (rate_limits scope) (st.buckets (bucket_key scope identifier))
              now ok short solvent))
    ]

-- When the sweep is due, a bucket that was last touched more than an hour ago and would still
-- refuse the call is forgotten, and the call goes through. The policy has a positive limit and
-- window.
pub sweep_forgets :
    (js : JsWait) (st : LimiterState) (scope : RateScope) (identifier : String) (now : ℤ)
    (b : TokenCount)
    → IsProper (rate_limits scope)
    → st.buckets (bucket_key scope identifier) ≡ some b
    → sweep_interval_ms ≤ℤ now -ℤ st.last_sweep_ms
    → pos hour <ℤ now -ℤ b.updated_ms
    → b.tokens +ℤ (now -ℤ b.updated_ms) *ℤ pos (rate_limits scope).limit
      <ℤ pos (rate_limits scope).window_ms
    → ((take_token js (rate_limits scope) (some b) now).1.allowed ≡ false)
      × ((consume_as js st scope identifier now).1.allowed ≡ true)
unfolding consume_as sweep
sweep_forgets js st scope identifier now b ok there due old empty = (
  elim (Bool-cases (take_token js (rate_limits scope) (some b) now).1.allowed) [
    | inl granted ↦ absurd (
        lt-le-absurd (b.tokens +ℤ (now -ℤ b.updated_ms) *ℤ pos (rate_limits scope).limit)
          (pos (rate_limits scope).window_ms) empty
          ((allowed_iff js (rate_limits scope) b now ok).0 granted))
    | inr no_token ↦ no_token
  ],
  rw (
    ltb_ℤ_of_le (now -ℤ st.last_sweep_ms) sweep_interval_ms due,
    there,
    ltb_ℤ_of_lt (pos hour) (now -ℤ b.updated_ms) old,
  ),
)
