-- ===== src/WebLimit/Examples.antt =====
-- The web tier's limiter at concrete inputs, and the theorems applied there.
use syncstudies.Base.{◌≡◌, refl, true, false, none, some, List, [], ◌∷◌, All, arith}
use syncstudies.Base.Text.{String, str_eq}
use syncstudies.Base.Int.{pos, ◌+ℤ◌, ◌-ℤ◌, ◌*ℤ◌, ◌≤ℤ◌, ◌<ℤ◌}
use syncstudies.WebLimit.Policies.{rate_limits, auth_login_handle, reports_create_user, hour}
use syncstudies.WebLimit.{
  TokenCount, LimiterState, take_token, JsWait, update, bucket_key, consume_as, failure_ttl_ms,
  sweep_interval_ms,
}
use syncstudies.WebLimit.Bucket.{IsProper, exact_wait}
use syncstudies.WebLimit.Traffic.{Call, own, other, IsApart, granted, granted-le}
use syncstudies.WebLimit.Sweep.{sweep_forgets}

-- Five sign-ins in a quarter of an hour, all used up at time 0.
abbrev spent : TokenCount
spent = record { tokens = pos 0; updated_ms = pos 0 }

login-IsProper : IsProper (rate_limits auth_login_handle)
login-IsProper = omega arith

reports-IsProper : IsProper (rate_limits reports_create_user)
reports-IsProper = omega arith

-- A wait without rounding errors.
abbrev exact : JsWait
exact = record { wait_for_token = exact_wait }

abbrev refused_once : TokenCount
refused_once = (take_token exact (rate_limits auth_login_handle) (some spent) (pos 1000)).0

-- One caller's bucket, at a key of the scope.
abbrev with_spent : String → LimiterState
with_spent key = record {
  buckets = update (λ _. none) key (some spent);
  failures = λ _. none;
  last_sweep_ms = pos 0;
}

abbrev reporting : LimiterState
reporting = with_spent "reports:create:user|sam"

reporting_bucket : reporting.buckets (bucket_key reports_create_user "sam") ≡ some spent
unfolding bucket_key
reporting_bucket = refl

abbrev logging_in : LimiterState
logging_in = with_spent "auth:login:handle|sam"

logging_in_bucket : logging_in.buckets (bucket_key auth_login_handle "sam") ≡ some spent
unfolding bucket_key
logging_in_bucket = refl

-- The others' calls go by other buckets, by none, or to the same scope.
abbrev traffic : List Call
traffic =
    own (pos 1000)
    ∷ other reports_create_user (some "sam") (pos 100_000)
    ∷ own (pos 200_000)
    ∷ other auth_login_handle (some "ann") (pos 3_900_000)
    ∷ own (pos 4_000_000)
    ∷ []

traffic-IsApart : All (IsApart (bucket_key auth_login_handle "sam")) traffic
unfolding bucket_key
traffic-IsApart = (tt, (refl, (tt, (refl, (tt, tt)))))

sam_named : str_eq "sam" "" ≡ false
sam_named = refl

granted-le_example :
    granted exact logging_in auth_login_handle "sam" traffic
    ≤ℤ pos 0 +ℤ (pos 4_000_000 -ℤ pos 0) *ℤ pos 5
granted-le_example =
    granted-le exact logging_in auth_login_handle "sam" spent traffic login-IsProper (omega arith)
      sam_named logging_in_bucket (omega arith)
      (omega arith, (omega arith, (omega arith, (omega arith, (omega arith, tt))))) traffic-IsApart

hour_later : (sweep_interval_ms ≤ℤ pos 3_700_000 -ℤ pos 0) × (pos hour <ℤ pos 3_700_000 -ℤ pos 0)
unfolding ◌-ℤ◌
hour_later = (omega arith, omega arith)

no_report_left : pos 0 +ℤ (pos 3_700_000 -ℤ pos 0) *ℤ pos 10 <ℤ pos 86_400_000
unfolding ◌+ℤ◌ ◌-ℤ◌ ◌*ℤ◌
no_report_left = omega arith

-- An hour and a bit after ten reports of the day an eleventh goes through.
sweep_forgets_example :
    ((take_token exact (rate_limits reports_create_user) (some spent) (pos 3_700_000)).1.allowed
      ≡ false)
    × ((consume_as exact reporting reports_create_user "sam" (pos 3_700_000)).1.allowed ≡ true)
sweep_forgets_example =
    sweep_forgets exact reporting reports_create_user "sam" (pos 3_700_000) spent reports-IsProper
      reporting_bucket hour_later.0 hour_later.1 no_report_left

soon : pos 200 -ℤ pos 100 <ℤ failure_ttl_ms
unfolding ◌-ℤ◌
soon = omega arith
