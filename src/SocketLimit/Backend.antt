-- ===== src/SocketLimit/Backend.antt =====
-- When Redis does not answer.
use syncstudies.Base.{ℕ, ◌≡◌, true, false, arith, if◌then◌else◌}
use syncstudies.Base.Text.{String}
use syncstudies.Base.Int.{ℤ, pos}
use syncstudies.SocketLimit.{
  RateRule, redis, Limiter, verdict_allowed, verdict_refused, hit, evaluate, struck, consume,
}

hit-down :
    (l : Limiter) (key : String) (limit window : ℕ) (rule : RateRule) (now : ℤ)
    → l.redis_up ≡ false
    → hit l key limit window rule now
      ≡ (l, if rule.fail_open then verdict_allowed else verdict_refused (pos rule.window_ms))
unfolding hit
hit-down l key limit window rule now down = rw down

evaluate-down :
    (l : Limiter) (socket_id key_event : String) (rule : RateRule) (now : ℤ)
    → l.redis_up ≡ false
    → evaluate l socket_id key_event rule now
      ≡ (l, if rule.fail_open then verdict_allowed else verdict_refused (pos rule.window_ms))
unfolding evaluate hit
evaluate-down l socket_id key_event rule now down = ground arith

-- With Redis down a rule that counts in Redis lets everything through or nothing, as it says: what
-- fails open is allowed and costs no strike, what fails closed is refused for a whole window.
pub consume-redis_down :
    (l : Limiter) (socket_id key_event : String) (rule : RateRule) (now : ℤ)
    → l.redis_up ≡ false
    → rule.scope ≡ redis
    → (rule.fail_open ≡ true → consume l socket_id key_event rule now ≡ (l, verdict_allowed))
      × (rule.fail_open ≡ false
          → ((consume l socket_id key_event rule now).1.allowed ≡ false)
            × ((consume l socket_id key_event rule now).1.retry_after_ms ≡ pos rule.window_ms))
unfolding consume struck
consume-redis_down l socket_id key_event rule now down counted = (
  λ opens. ground (arith, evaluate-down l socket_id key_event rule now down),
  λ closed. ground (arith, evaluate-down l socket_id key_event rule now down),
)
