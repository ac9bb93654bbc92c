-- ===== src/Leader.antt =====
-- apps/realtime/src/rooms/leader.ts: which node leads a room.
-- The sets are their membership tests. A loop over a set treats each room by its own key in Redis,
-- so `tick` is given room by room; `redis_up` says whether the calls of Redis succeed. The timer, the
-- log and the two callbacks are left out.
pub mod Foreign
pub mod Examples
use syncstudies.Base.{ℕ, Bool, true, false, not, ◌&&◌, Option, none, some, if◌then◌else◌}
use syncstudies.Base.Text.{String, str_eq}
use syncstudies.Base.Int.{ℤ, pos, ◌+ℤ◌, ltb_ℤ}

abbrev pub leader_lock_ttl_ms : ℕ
leader_lock_ttl_ms = 15_000

-- The value and the expiry of a room's key.
pub record Lease : Type 0 where
  pub owner : String
  pub expires_at : ℤ

pub record Store : Type 0 where
  pub leases : String → Option Lease
  pub redis_up : Bool

pub record LeaderElection : Type 0 where
  pub node_id : String
  pub tracked : String → Bool
  pub held : String → Bool
  pub stopping : Bool

abbrev pub put {ℓ} : {V : Type ℓ} → (String → V) → String → V → String → V
put m k v q = if str_eq k q then v else m q

-- A key is gone once its expiry has come.
abbrev pub unexpired : Option Lease → ℤ → Option Lease
unexpired none now = none
unexpired (some lease) now = if ltb_ℤ now lease.expires_at then some lease else none

abbrev pub is_owner : Option Lease → String → Bool
is_owner none node = false
is_owner (some lease) node = str_eq lease.owner node

abbrev pub new_lease : String → ℤ → Lease
new_lease node now = record { owner = node; expires_at = now +ℤ pos leader_lock_ttl_ms }

-- RENEW_LUA and RELEASE_LUA.
unfoldable pub renew_script : Option Lease → String → ℤ → Option Lease × Bool
renew_script stored node now =
    if is_owner (unexpired stored now) node
    then (some (new_lease node now), true)
    else (stored, false)

unfoldable pub release_script : Option Lease → String → ℤ → Option Lease
release_script stored node now = if is_owner (unexpired stored now) node then none else stored

-- SET NX PX.
abbrev pub set_if_absent : Option Lease → Option Lease → String → ℤ → Option Lease × Bool
set_if_absent stored none node now = (some (new_lease node now), true)
set_if_absent stored (some lease) node now = (stored, false)

unfoldable pub try_acquire : Store → LeaderElection → String → ℤ → Store × LeaderElection
try_acquire s n room now =
    let (lease, got) =
      set_if_absent (s.leases room) (unexpired (s.leases room) now) n.node_id now in
    if s.redis_up && got
    then (record s { leases = put s.leases room lease }, record n { held = put n.held room true })
    else (s, n)

unfoldable pub track : Store → LeaderElection → String → ℤ → Store × LeaderElection
track s n room now =
    let n' : LeaderElection = record n { tracked = put n.tracked room true } in
    if n.stopping then (s, n) else if n.held room then (s, n') else try_acquire s n' room now

unfoldable pub release : Store → LeaderElection → String → ℤ → Store × LeaderElection
release s n room now = if not (n.held room) then (s, n) else (
  if s.redis_up
      then record s { leases = put s.leases room (release_script (s.leases room) n.node_id now) }
      else s,
  record n { held = put n.held room false },
)

unfoldable pub untrack : Store → LeaderElection → String → ℤ → Store × LeaderElection
untrack s n room now = release s (record n { tracked = put n.tracked room false }) room now

-- The first loop of `tick`, for one room: the lease is renewed, or given up where it is lost.
unfoldable pub renew : Store → LeaderElection → String → ℤ → Store × LeaderElection
renew s n room now =
    let (lease, renewed) = renew_script (s.leases room) n.node_id now in
    if n.held room && s.redis_up
    then (
      record s { leases = put s.leases room lease },
      if renewed then n else record n { held = put n.held room false },
    )
    else (s, n)

-- The second loop, for one room.
unfoldable pub pursue : Store → LeaderElection → String → ℤ → Store × LeaderElection
pursue s n room now =
    if n.tracked room && not (n.held room) then try_acquire s n room now else (s, n)

unfoldable pub tick_room : Store → LeaderElection → String → ℤ → Store × LeaderElection
tick_room s n room now =
    let (s', n') = renew s n room now in if n.stopping then (s, n) else pursue s' n' room now
