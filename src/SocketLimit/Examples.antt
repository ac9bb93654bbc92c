-- ===== src/SocketLimit/Examples.antt =====
-- The socket limiter at concrete inputs, and the theorems applied there.
use syncstudies.Base.{false, none, []}
use syncstudies.Base.Int.{pos}
use syncstudies.SocketLimit.{Limiter, LocalWindow}

-- A node that cannot reach Redis.
abbrev cut_off : Limiter
cut_off = record {
  strikes = λ s. [];
  local_windows = λ k. none;
  counters = λ k. none;
  cooldowns = λ u. none;
  redis_up = false;
}

-- The thirtieth ping of a window has been counted.
abbrev full : LocalWindow
full = record { count = 30; reset_at = pos 10_000 }
