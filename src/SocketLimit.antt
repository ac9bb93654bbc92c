-- ===== src/SocketLimit.antt =====
-- apps/realtime/src/ratelimit/tokenBucket.ts and apps/realtime/src/scripts/rateLimit.lua.
-- Time is an argument. The two Maps, and the keys of Redis, are the functions that `get` computes;
-- the metric and the log are left out.
mod Rules
pub mod Window
pub mod Backend
pub mod Strikes
pub mod Examples
pub use Rules.*
use Prim.Native.String
use syncstudies.Base.{
  ℕ, suc, ◌+◌, ◌*◌, Bool, true, false, ◌||◌, List, [], ◌∷◌, ◌++◌, Option, none, some, if◌then◌else◌,
  ltb, leb, keep, length,
}
use syncstudies.Base.Text.{String, str_eq}
use syncstudies.Base.Int.{ℤ, pos, ◌+ℤ◌, ◌-ℤ◌, ltb_ℤ, max_ℤ}
use text.Mathlib.Text.{starts_with}
use Rules.{RateRule, Scope, redis, local, strike_limit, strike_window_ms, cooldown_ms}

pub record RateVerdict : Type 0 where
  pub allowed : Bool
  pub retry_after_ms : ℤ
  pub disconnect : Bool

abbrev pub verdict_allowed : RateVerdict
verdict_allowed = record { allowed = true; retry_after_ms = pos 0; disconnect = false }

abbrev pub verdict_refused : ℤ → RateVerdict
verdict_refused retry = record { allowed = false; retry_after_ms = retry; disconnect = false }

-- An entry of `localWindows`.
pub record LocalWindow : Type 0 where
  pub count : ℕ
  pub reset_at : ℤ

-- A counter in Redis, with the time at which it expires, if it does.
pub record Counter : Type 0 where
  pub count : ℕ
  pub expires_at : Option ℤ

-- The in-process state, and what Redis holds. `redis_up` says whether its calls succeed.
pub record Limiter : Type 0 where
  pub strikes : String → List ℤ
  pub local_windows : String → Option LocalWindow
  pub counters : String → Option Counter
  pub cooldowns : String → Option ℤ
  pub redis_up : Bool

abbrev pub update {ℓ} : {V : Type ℓ} → (String → V) → String → V → String → V
update m k v q = if str_eq k q then v else m q

-- A key is gone once its expiry has come.
abbrev pub unexpired : Option Counter → ℤ → Option Counter
unexpired none now = none
unexpired (some c) now = elim c.expires_at [
  | none ↦ some c
  | some t ↦ if ltb_ℤ now t then some c else none
]

-- INCR, with PEXPIRE on the first.
abbrev pub incremented : Option Counter → ℕ → ℤ → Counter
incremented none window_ms now = record { count = 1; expires_at = some (now +ℤ pos window_ms) }
incremented (some c) window_ms now = record { count = suc c.count; expires_at = c.expires_at }

-- The reply `{1, 0}` is `none`, and `{0, ttl}` is `some ttl`.
unfoldable pub rate_limit_script : Option Counter → ℕ → ℕ → ℤ → Counter × Option ℤ
rate_limit_script stored limit window_ms now =
    let c = incremented (unexpired stored now) window_ms now in
    if ltb limit c.count
    then elim c.expires_at [
      | none ↦ (record c { expires_at = some (now +ℤ pos window_ms) }, some (pos window_ms))
      | some t ↦ (c, some (t -ℤ now))
    ]
    else (c, none)

-- One window in Redis; an error of the backend is answered by the rule.
unfoldable pub hit : Limiter → String → ℕ → ℕ → RateRule → ℤ → Limiter × RateVerdict
unfolding rate_limit_script
hit l scope_key limit window_ms rule now =
    if l.redis_up
    then (let (c, reply) = rate_limit_script (l.counters scope_key) limit window_ms now in
        (
          record l { counters = update l.counters scope_key (some c) },
          elim reply [ none ↦ verdict_allowed | some ttl ↦ verdict_refused (max_ℤ (pos 0) ttl) ],
        ))
    else (l, if rule.fail_open then verdict_allowed else verdict_refused (pos rule.window_ms))

abbrev pub key_of : String → String → String
key_of socket_id key_event = String.◌++◌ socket_id (String.◌++◌ ":" key_event)

unfoldable pub evaluate : Limiter → String → String → RateRule → ℤ → Limiter × RateVerdict
unfolding hit
evaluate l socket_id key_event rule now = elim rule.burst [
  | none ↦ hit l (key_of socket_id key_event) rule.limit rule.window_ms rule now
  | some burst ↦
      let (l', primary) = hit l (key_of socket_id key_event) burst rule.window_ms rule now in
      let sustained =
        hit l' (key_of socket_id (String.◌++◌ key_event ":sustained")) (rule.limit * 2)
          (rule.window_ms * 2) rule now in
      if primary.allowed then sustained else (l', primary)
]

-- One call on an entry of `localWindows`.
unfoldable pub local_step : Option LocalWindow → RateRule → ℤ → LocalWindow × RateVerdict
local_step none rule now =
    (record { count = 1; reset_at = now +ℤ pos rule.window_ms }, verdict_allowed)
local_step (some w) rule now =
    if ltb_ℤ now w.reset_at
    then (
      record w { count = suc w.count },
      if ltb rule.limit (suc w.count) then verdict_refused (w.reset_at -ℤ now) else verdict_allowed,
    )
    else (record { count = 1; reset_at = now +ℤ pos rule.window_ms }, verdict_allowed)

unfoldable pub evaluate_local : Limiter → String → String → RateRule → ℤ → Limiter × RateVerdict
unfolding local_step
evaluate_local l socket_id key_event rule now =
    let key = key_of socket_id key_event in
    let (w, verdict) = local_step (l.local_windows key) rule now in
    (record l { local_windows = update l.local_windows key (some w) }, verdict)

abbrev pub is_recent : ℤ → ℤ → Bool
is_recent now t = ltb_ℤ (now -ℤ t) (pos strike_window_ms)

unfoldable pub record_strike : Limiter → String → ℤ → Limiter × Bool
record_strike l socket_id now =
    let recent = keep (is_recent now) (l.strikes socket_id) ++ now ∷ [] in
    (record l { strikes = update l.strikes socket_id recent }, leb strike_limit (length recent))

-- A refusal is a strike, and the third strike disconnects.
unfoldable pub struck : Limiter × RateVerdict → String → ℤ → Limiter × RateVerdict
unfolding record_strike
struck (l, verdict) socket_id now =
    let (l', disconnect) = record_strike l socket_id now in
    if verdict.allowed then (l, verdict) else (l', record verdict { disconnect = disconnect })

unfoldable pub consume_local : Limiter → String → String → RateRule → ℤ → Limiter × RateVerdict
unfolding struck evaluate_local
consume_local l socket_id key_event rule now =
    struck (evaluate_local l socket_id key_event rule now) socket_id now

unfoldable pub consume : Limiter → String → String → RateRule → ℤ → Limiter × RateVerdict
unfolding struck evaluate consume_local
consume l socket_id key_event rule now = elim rule.scope [
  | local ↦ consume_local l socket_id key_event rule now
  | redis ↦ struck (evaluate l socket_id key_event rule now) socket_id now
]

unfoldable pub apply_cooldown : Limiter → String → ℤ → Limiter
apply_cooldown l user_id now =
    if l.redis_up
    then record l { cooldowns = update l.cooldowns user_id (some (now +ℤ pos cooldown_ms)) }
    else l

-- `none` where the call of Redis fails.
unfoldable pub in_cooldown : Limiter → String → ℤ → Option Bool
in_cooldown l user_id now =
    if l.redis_up
    then some (elim (l.cooldowns user_id) [ none ↦ false | some t ↦ ltb_ℤ now t ])
    else none

unfoldable pub forget : Limiter → String → Limiter
forget l socket_id = record l {
  strikes = update l.strikes socket_id [];
  local_windows =
      λ k. if starts_with k (String.◌++◌ socket_id ":") then none else l.local_windows k;
}
