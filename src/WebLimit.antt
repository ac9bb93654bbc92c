-- ===== src/WebLimit.antt =====
-- apps/web/lib/server/rate-limit.ts: the token buckets of the web tier.
-- Time is an argument of each call. A bucket's tokens are kept times its policy's `windowMs`, so
-- that the fractions of the source are integers: one token is `windowMs`, and a millisecond
-- refills `limit`. How the engine rounds the time that a refusal names is the parameter `JsWait`.
-- The Map of buckets is the function that `get` computes.
mod Policies
pub mod Bucket
pub mod Rate
pub mod Sweep
pub mod Traffic
pub mod Failures
pub mod Examples
pub use Policies.*
use syncstudies.Base.{
  ℕ, suc, ◌+◌, ◌-◌, ◌*◌, ◌/◌, Bool, true, false, not, ◌||◌, Option, none, some, if◌then◌else◌,
}
use syncstudies.Base.Text.{String, str_eq}
use syncstudies.Base.Int.{ℤ, pos, pos_part, ◌+ℤ◌, ◌-ℤ◌, ◌*ℤ◌, ltb_ℤ, min_ℤ}
use Policies.{RateLimitPolicy, RateScope, rate_limits, scope_text, minute, hour}
use Prim.Native.String

pub record TokenCount : Type 0 where
  pub tokens : ℤ
  pub updated_ms : ℤ

pub record FailureCount : Type 0 where
  pub count : ℕ
  pub updated_ms : ℤ

pub record LimiterState : Type 0 where
  pub buckets : String → Option TokenCount
  pub failures : String → Option FailureCount
  pub last_sweep_ms : ℤ

abbrev pub update {ℓ} : {V : Type ℓ} → (String → Option V) → String → Option V → String → Option V
update m k v q = if str_eq k q then v else m q

abbrev pub sweep_interval_ms : ℤ
sweep_interval_ms = pos (5 * minute)

abbrev pub failure_ttl_ms : ℤ
failure_ttl_ms = pos (15 * minute)

-- `delete` the entry if it has not been touched for longer than `age`.
abbrev pub drop_older {ℓ} : {V : Type ℓ} → (V → ℤ) → ℤ → ℤ → Option V → Option V
drop_older touched age now none = none
drop_older touched age now (some v) = if ltb_ℤ age (now -ℤ touched v) then none else some v

unfoldable pub sweep : LimiterState → ℤ → LimiterState
sweep st now = if ltb_ℤ (now -ℤ st.last_sweep_ms) sweep_interval_ms then st else (record {
  buckets = λ k. drop_older (λ b. b.updated_ms) (pos hour) now (st.buckets k);
  failures = λ k. drop_older (λ f. f.updated_ms) failure_ttl_ms now (st.failures k);
  last_sweep_ms = now;
})

-- RateLimitResult, less the policy that the caller named.
pub record RateLimitResult : Type 0 where
  pub allowed : Bool
  pub remaining : ℕ
  pub retry_after_ms : ℕ

unfoldable pub refilled : RateLimitPolicy → TokenCount → ℤ → ℤ
refilled policy bucket now =
    min_ℤ (pos (policy.limit * policy.window_ms))
      (bucket.tokens +ℤ (now -ℤ bucket.updated_ms) *ℤ pos policy.limit)

-- `Math.ceil((1 - refilled) / refillPerMs)`, which the engine works out in doubles.
pub record JsWait : Type 0 where
  pub wait_for_token : RateLimitPolicy → ℤ → ℕ

-- The part of `consume` behind the key: the bucket that it leaves, and the result.
unfoldable pub take_token :
    JsWait → RateLimitPolicy → Option TokenCount → ℤ → TokenCount × RateLimitResult
take_token js policy none now = (
  record { tokens = pos ((policy.limit - 1) * policy.window_ms); updated_ms = now },
  record { allowed = true; remaining = policy.limit - 1; retry_after_ms = 0 },
)
take_token js policy (some bucket) now =
    let tokens = refilled policy bucket now in
    if ltb_ℤ tokens (pos policy.window_ms)
    then (
      record { tokens = tokens; updated_ms = now },
      record { allowed = false; remaining = 0; retry_after_ms = js.wait_for_token policy tokens },
    )
    else (
      record { tokens = tokens -ℤ pos policy.window_ms; updated_ms = now },
      record {
        allowed = true;
        remaining = pos_part (tokens -ℤ pos policy.window_ms) / policy.window_ms;
        retry_after_ms = 0;
      },
    )

unfoldable pub bucket_key : RateScope → String → String
bucket_key scope identifier = String.◌++◌ (scope_text scope) (String.◌++◌ "|" identifier)

unfoldable pub consume_as :
    JsWait → LimiterState → RateScope → String → ℤ → LimiterState × RateLimitResult
unfolding take_token sweep
consume_as js st scope identifier now =
    let swept = sweep st now in
    let key = bucket_key scope identifier in
    let (bucket, result) = take_token js (rate_limits scope) (swept.buckets key) now in
    (record swept { buckets = update swept.buckets key (some bucket) }, result)

-- The answer to a caller that could not be identified.
unfoldable pub unidentified : RateScope → RateLimitResult
unidentified scope = record {
  allowed = not (rate_limits scope).fail_closed;
  remaining = 0;
  retry_after_ms = if (rate_limits scope).fail_closed then (rate_limits scope).window_ms else 0;
}

unfoldable pub consume :
    JsWait → LimiterState → RateScope → Option String → ℤ → LimiterState × RateLimitResult
unfolding consume_as unidentified
consume js st scope none now = (st, unidentified scope)
consume js st scope (some identifier) now =
    if str_eq identifier "" then (st, unidentified scope) else consume_as js st scope identifier now

-- `limitOr429`: the seconds of the `Retry-After` header of a refusal.
unfoldable pub limit_or_429 :
    JsWait → LimiterState → RateScope → Option String → ℤ → LimiterState × Option ℕ
unfolding consume
limit_or_429 js st scope identifier now =
    let (st', result) = consume js st scope identifier now in
    (
      st',
      if result.allowed
          then none
          else some (Prim.Native.Nat.max 1 ((result.retry_after_ms + 999) / 1000)),
    )

unfoldable pub next_failure_count : Option FailureCount → ℤ → ℕ
next_failure_count none now = 1
next_failure_count (some f) now =
    if ltb_ℤ (now -ℤ f.updated_ms) failure_ttl_ms then f.count + 1 else 1

unfoldable pub record_auth_failure : LimiterState → String → ℤ → LimiterState × ℕ
unfolding next_failure_count
record_auth_failure st key now =
    let count = next_failure_count (st.failures key) now in
    (
      record st {
        failures = update st.failures key (some (record { count = count; updated_ms = now }));
      },
      count,
    )

unfoldable pub auth_failure_count : LimiterState → String → ℤ → LimiterState × ℕ
auth_failure_count st key now = elim (st.failures key) [
  | none ↦ (st, 0)
  | some f ↦
      if ltb_ℤ failure_ttl_ms (now -ℤ f.updated_ms)
      then (record st { failures = update st.failures key none }, 0)
      else (st, f.count)
]

unfoldable pub clear_auth_failures : LimiterState → String → LimiterState
clear_auth_failures st key = record st { failures = update st.failures key none }
