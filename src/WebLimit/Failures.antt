-- ===== src/WebLimit/Failures.antt =====
-- The count of failed sign-ins.
use syncstudies.Base.{suc, ◌≡◌, arith}
use syncstudies.Base.Text.{String, str_eq_refl}
use syncstudies.Base.Int.{ℤ, ◌-ℤ◌, ◌≤ℤ◌, ◌<ℤ◌, ltb_ℤ_of_lt, ltb_ℤ_of_le}
use syncstudies.WebLimit.{
  LimiterState, failure_ttl_ms, record_auth_failure, auth_failure_count, clear_auth_failures,
}

-- A recorded failure counts for a quarter of an hour: until then it is reported with the number
-- that the recording gave, later as none, and after a success as none at once.
pub auth_failure_count-record :
    (st : LimiterState) (key : String) (now later : ℤ)
    → let (st', count) = record_auth_failure st key now in
      (later -ℤ now ≤ℤ failure_ttl_ms → (auth_failure_count st' key later).1 ≡ count)
      × (failure_ttl_ms <ℤ later -ℤ now → (auth_failure_count st' key later).1 ≡ 0)
      × ((auth_failure_count (clear_auth_failures st' key) key later).1 ≡ 0)
unfolding auth_failure_count clear_auth_failures record_auth_failure
auth_failure_count-record st key now later = (
  λ h. rw (str_eq_refl key, auth_failure_count, ltb_ℤ_of_le failure_ttl_ms (later -ℤ now) h),
  λ h. rw (str_eq_refl key, auth_failure_count, ltb_ℤ_of_lt failure_ttl_ms (later -ℤ now) h),
  rw (str_eq_refl key, auth_failure_count),
)

-- Failures in a row, each within a quarter of an hour of the one before, are numbered one by one.
pub record_auth_failure-consecutive :
    (st : LimiterState) (key : String) (now later : ℤ)
    → later -ℤ now <ℤ failure_ttl_ms
    → let (st', count) = record_auth_failure st key now in
      (record_auth_failure st' key later).1 ≡ suc count
unfolding record_auth_failure
record_auth_failure-consecutive st key now later soon =
    rw (str_eq_refl key, ltb_ℤ_of_lt (later -ℤ now) failure_ttl_ms soon) (omega arith)
