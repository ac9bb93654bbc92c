-- ===== src/WebLimit/Policies.antt =====
-- The policies of apps/web/lib/server/rate-limit.ts, less their messages.
use syncstudies.Base.{ℕ, ◌*◌, Bool, true, false}
use syncstudies.Base.Text.{String}

abbrev pub minute : ℕ
minute = 60_000

abbrev pub hour : ℕ
hour = 60 * minute

abbrev pub day : ℕ
day = 24 * hour

pub record RateLimitPolicy : Type 0 where
  pub limit : ℕ
  pub window_ms : ℕ
  pub fail_closed : Bool

pub data RateScope : Type 0 where
  auth_signup_ip auth_login_ip auth_login_handle auth_recover_ip auth_recover_handle : RateScope
  auth_handle_available_ip auth_password_change_user auth_recovery_code_user me_update_user
        me_export_user :
      RateScope
  reports_create_user feedback_user me_delete_user realtime_ticket_user : RateScope

abbrev policy : ℕ → ℕ → Bool → RateLimitPolicy
policy limit window_ms fail_closed = record {
  limit = limit;
  window_ms = window_ms;
  fail_closed = fail_closed;
}

abbrev pub rate_limits : RateScope → RateLimitPolicy
rate_limits auth_signup_ip = policy 5 hour true
rate_limits auth_login_ip = policy 10 (15 * minute) true
rate_limits auth_login_handle = policy 5 (15 * minute) true
rate_limits auth_recover_ip = policy 5 hour true
rate_limits auth_recover_handle = policy 3 hour true
rate_limits auth_handle_available_ip = policy 30 minute true
rate_limits auth_password_change_user = policy 5 hour true
rate_limits auth_recovery_code_user = policy 5 hour true
rate_limits me_update_user = policy 30 (5 * minute) false
rate_limits me_export_user = policy 3 hour false
rate_limits reports_create_user = policy 10 day true
rate_limits feedback_user = policy 20 hour true
rate_limits me_delete_user = policy 5 hour true
rate_limits realtime_ticket_user = policy 120 (5 * minute) false

abbrev pub scope_text : RateScope → String
scope_text auth_signup_ip = "auth:signup:ip"
scope_text auth_login_ip = "auth:login:ip"
scope_text auth_login_handle = "auth:login:handle"
scope_text auth_recover_ip = "auth:recover:ip"
scope_text auth_recover_handle = "auth:recover:handle"
scope_text auth_handle_available_ip = "auth:handle-available:ip"
scope_text auth_password_change_user = "auth:password-change:user"
scope_text auth_recovery_code_user = "auth:recovery-code:user"
scope_text me_update_user = "me:update:user"
scope_text me_export_user = "me:export:user"
scope_text reports_create_user = "reports:create:user"
scope_text feedback_user = "feedback:user"
scope_text me_delete_user = "me:delete:user"
scope_text realtime_ticket_user = "realtime:ticket:user"
