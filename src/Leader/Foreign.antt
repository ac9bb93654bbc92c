-- ===== src/Leader/Foreign.antt =====
-- Whose lease a node may touch, and what it believes of its own.
use mathlib.Core.Path.{subst}
use syncstudies.Base.{
  ◌≡◌, refl, sym, ap, ◌∙◌, true, false, not, ◌&&◌, Option, some, arith, if_either,
}
use syncstudies.Base.Text.{String, str_eq, str_eq_refl}
use syncstudies.Base.Int.{ℤ, ltb_ℤ}
use syncstudies.Leader.{
  Lease, Store, LeaderElection, put, unexpired, renew_script, release_script, set_if_absent,
  try_acquire, track, untrack, release, renew, pursue, tick_room,
}

-- The lease of another node.
pub record IsForeign (stored : Option Lease) (node : String) (now : ℤ) (lease : Lease)
    : Type 0 where
  pub there : stored ≡ some lease
  pub fresh : ltb_ℤ now lease.expires_at ≡ true
  pub other : str_eq lease.owner node ≡ false

renew_script-foreign :
    (stored : Option Lease) (node : String) (now : ℤ) (lease : Lease)
    → IsForeign stored node now lease
    → renew_script stored node now ≡ (stored, false)
unfolding renew_script
renew_script-foreign stored node now lease f = rw (f.there, f.fresh, f.other)

release_script-foreign :
    (stored : Option Lease) (node : String) (now : ℤ) (lease : Lease)
    → IsForeign stored node now lease
    → release_script stored node now ≡ stored
unfolding release_script
release_script-foreign stored node now lease f = rw (f.there, f.fresh, f.other)

set_if_absent-foreign :
    (stored : Option Lease) (node : String) (now : ℤ) (lease : Lease)
    → IsForeign stored node now lease
    → set_if_absent stored (unexpired stored now) node now ≡ (stored, false)
set_if_absent-foreign stored node now lease f = rw (f.there, f.fresh)

-- After a call the room's lease is still the other node's.
abbrev pub StillForeign : String → ℤ → Lease → Store × LeaderElection → Type 0
StillForeign room now lease (s, n) = IsForeign (s.leases room) n.node_id now lease

still :
    {stored : Option Lease} {stored' : Option Lease} {node : String} {now : ℤ} {lease : Lease}
    → IsForeign stored node now lease
    → stored' ≡ stored
    → IsForeign stored' node now lease
still f e = record { there = e ∙ f.there; fresh = f.fresh; other = f.other }

-- What is written back to a key is what was there.
put-same :
    (m : String → Option Lease) (room : String) (v : Option Lease)
    → v ≡ m room
    → put m room v room ≡ m room
put-same m room v e = rw (str_eq_refl room, e)

try_acquire-foreign :
    (s : Store) (n : LeaderElection) (room : String) (now : ℤ) (lease : Lease)
    → IsForeign (s.leases room) n.node_id now lease
    → try_acquire s n room now ≡ (s, n)
unfolding try_acquire
try_acquire-foreign s n room now lease f =
    if_either (λ p. p ≡ (s, n))
      (s.redis_up
        && (set_if_absent (s.leases room) (unexpired (s.leases room) now) n.node_id now).1)
      _ _
      (λ go.
        let no = ap (λ p. p.1) (set_if_absent-foreign (s.leases room) n.node_id now lease f) in
        ground arith)
      (λ stay. refl)

release-StillForeign :
    (s : Store) (n : LeaderElection) (room : String) (now : ℤ) (lease : Lease)
    → IsForeign (s.leases room) n.node_id now lease
    → StillForeign room now lease (release s n room now)
unfolding release
release-StillForeign s n room now lease f =
    if_either (StillForeign room now lease) (not (n.held room)) _ _ (λ other. f)
      (λ mine.
        if_either (λ (v : Store). IsForeign (v.leases room) n.node_id now lease) s.redis_up _ _
          (λ up. still f (
            put-same s.leases room _
              (release_script-foreign (s.leases room) n.node_id now lease f)))
          (λ down. f))

-- A renewal leaves the lease, and gives up the room.
renew-foreign :
    (s : Store) (n : LeaderElection) (room : String) (now : ℤ) (lease : Lease)
    → s.redis_up ≡ true
    → IsForeign (s.leases room) n.node_id now lease
    → StillForeign room now lease (renew s n room now) × ((renew s n room now).1.held room ≡ false)
unfolding renew
renew-foreign s n room now lease up f =
    let lost = renew_script-foreign (s.leases room) n.node_id now lease f in
    let no : (renew_script (s.leases room) n.node_id now).1 ≡ false = ap (λ p. p.1) lost in
    if_either
      (λ (p : Store × LeaderElection). StillForeign room now lease p × (p.1.held room ≡ false))
      (n.held room && s.redis_up) _ _
      (λ mine.
        if_either
          (λ (m : LeaderElection).
            IsForeign (put s.leases room (renew_script (s.leases room) n.node_id now).0 room)
              m.node_id now lease
            × (m.held room ≡ false))
          (renew_script (s.leases room) n.node_id now).1 _ _ (λ yes. ground arith)
          (λ _. (still f (put-same s.leases room _ (ap (λ p. p.0) lost)), rw (str_eq_refl room))))
      (λ other. (f, ground arith))

pursue-foreign :
    (s : Store) (n : LeaderElection) (room : String) (now : ℤ) (lease : Lease)
    → StillForeign room now lease (s, n) × (n.held room ≡ false)
    → StillForeign room now lease (pursue s n room now)
      × ((pursue s n room now).1.held room ≡ false)
unfolding pursue
pursue-foreign s n room now lease (f, out) =
    let P : Store × LeaderElection → Type 0 =
      λ p. StillForeign room now lease p × (p.1.held room ≡ false) in
    if_either P (n.tracked room && not (n.held room)) _ _
      (λ go. subst P (sym (try_acquire-foreign s n room now lease f)) (f, out)) (λ stay. (f, out))

-- A node that has lost a room to another's lease steps down at its next tick: it leaves the lease
-- alone and no longer thinks that it leads. Redis answers, and the node is not stopping.
pub tick_room-foreign :
    (s : Store) (n : LeaderElection) (room : String) (now : ℤ) (lease : Lease)
    → n.stopping ≡ false
    → s.redis_up ≡ true
    → IsForeign (s.leases room) n.node_id now lease
    → StillForeign room now lease (tick_room s n room now)
      × ((tick_room s n room now).1.held room ≡ false)
unfolding tick_room
tick_room-foreign s n room now lease running up f =
    let (s', n') = renew s n room now in
    if_either
      (λ (p : Store × LeaderElection). StillForeign room now lease p × (p.1.held room ≡ false))
      n.stopping _ _ (λ stopped. ground arith)
      (λ _. pursue-foreign s' n' room now lease (renew-foreign s n room now lease up f))

-- Nothing that a node does when its sockets come and go touches a lease that another node holds,
-- whatever the node believes, and whether or not Redis answers.
pub track-foreign :
    (s : Store) (n : LeaderElection) (room : String) (now : ℤ) (lease : Lease)
    → IsForeign (s.leases room) n.node_id now lease
    → StillForeign room now lease (track s n room now)
      × StillForeign room now lease (untrack s n room now)
      × StillForeign room now lease (release s n room now)
unfolding track untrack
track-foreign s n room now lease f =
    let n' : LeaderElection = record n { tracked = put n.tracked room true } in
    let left : LeaderElection = record n { tracked = put n.tracked room false } in
    (
      if_either (StillForeign room now lease) n.stopping _ _ (λ stopped. f)
          (λ running.
            if_either (StillForeign room now lease) (n.held room) _ _ (λ mine. f)
              (λ other.
                subst (StillForeign room now lease)
                  (sym (try_acquire-foreign s n' room now lease f)) f)),
      release-StillForeign s left room now lease f,
      release-StillForeign s n room now lease f,
    )
