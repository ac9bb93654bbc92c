-- ===== src/Timeline/Conflict.antt =====
-- Who wins when two people press at once: `decideControl` and the control lock.
use syncstudies.Base.{
  ◌≡◌, ◌≢◌, ◌↔◌, ◌⊎◌, inl, inr, refl, sym, true, false, ◌&&◌, Option, some, arith, Bool-cases,
}
use syncstudies.Base.Text.{String, str_eq_iff}
use syncstudies.Base.Int.{ℤ, pos, ◌-ℤ◌, ◌+ℤ◌, ◌≤ℤ◌, ◌<ℤ◌, ltb_ℤ, eq_ℤ_iff}
use syncstudies.Timeline.Anchor.{
  VideoAnchor, ControlCommand, accepted, rejected, stale_revision, recently_changed,
}
use syncstudies.Timeline.{
  other_actor, is_stale, is_locked, decide_control, apply_control, apply_action,
}

-- The command names the current revision, or asks for no check.
abbrev pub IsCurrent : VideoAnchor → ℤ → Type 0
IsCurrent cur expected = (expected <ℤ pos 0) ⊎ (expected ≡ cur.revision)

-- Nobody has changed the room, or the actor did, or the lock has run out.
abbrev pub IsUnlocked : VideoAnchor → String → ℤ → ℤ → Type 0
IsUnlocked cur actor now_ms lock_ms =
    (cur.last_actor_id ≡ Option.none)
    ⊎ ((cur.last_actor_id ≡ some actor) ⊎ (lock_ms ≤ℤ now_ms -ℤ cur.last_change_ms))

pub is_stale_iff :
    (cur : VideoAnchor) (expected : ℤ) → (is_stale cur expected ≡ false) ↔ IsCurrent cur expected
unfolding is_stale
is_stale_iff cur expected = ground (arith, eq_ℤ_iff expected cur.revision)

-- The same by the stored actor, on which the test splits.
unlocked_iff :
    (last : Option String) (actor : String) (elapsed lock_ms : ℤ)
    → ((other_actor last actor && ltb_ℤ elapsed lock_ms) ≡ false)
      ↔ ((last ≡ Option.none) ⊎ ((last ≡ some actor) ⊎ (lock_ms ≤ℤ elapsed)))
unlocked_iff Option.none actor elapsed lock_ms = (λ _. inl refl, λ _. refl)
unlocked_iff (some a) actor elapsed lock_ms = ground (arith, str_eq_iff a actor)

pub is_locked_iff :
    (cur : VideoAnchor) (actor : String) (now_ms lock_ms : ℤ)
    → (is_locked cur actor now_ms lock_ms ≡ false) ↔ IsUnlocked cur actor now_ms lock_ms
unfolding is_locked
is_locked_iff cur actor now_ms lock_ms =
    unlocked_iff cur.last_actor_id actor (now_ms -ℤ cur.last_change_ms) lock_ms

-- A control is accepted exactly when its revision is current and the room is not locked against
-- its sender. It is refused as stale exactly when its revision is not current, locked or not.
pub decide_control-cases :
    (cur : VideoAnchor) (expected : ℤ) (actor : String) (now_ms lock_ms : ℤ)
    → ((decide_control cur expected actor now_ms lock_ms ≡ accepted)
        ↔ (IsCurrent cur expected × IsUnlocked cur actor now_ms lock_ms))
      × ((decide_control cur expected actor now_ms lock_ms ≡ rejected stale_revision)
          ↔ (¬ IsCurrent cur expected))
unfolding decide_control
decide_control-cases cur expected actor now_ms lock_ms = elim (Bool-cases (is_stale cur expected)) [
  | inl old ↦ rw old (
    (λ e. cc, λ h. cc ((is_stale_iff cur expected).1 h.0)),
    (λ _ c. cc ((is_stale_iff cur expected).1 c), λ _. refl),
  )
  | inr fresh ↦ elim (Bool-cases (is_locked cur actor now_ms lock_ms)) [
    | inl held ↦
        rw (fresh, held)
          (
            (λ e. cc, λ h. cc ((is_locked_iff cur actor now_ms lock_ms).1 h.1)),
            (λ e. cc, λ n. absurd (n ((is_stale_iff cur expected).0 fresh))),
          )
    | inr free ↦
        rw (fresh, free)
          (
            (
              λ _. (
                (is_stale_iff cur expected).0 fresh,
                (is_locked_iff cur actor now_ms lock_ms).0 free,
              ),
              λ _. refl,
            ),
            (λ e. cc, λ n. absurd (n ((is_stale_iff cur expected).0 fresh))),
          )
  ]
]

-- The anchor after a control of `actor`, as the handler leaves it.
abbrev pub controlled : VideoAnchor → ControlCommand → String → ℤ → VideoAnchor
controlled cur cmd actor now_ms = record (apply_control cur cmd now_ms) {
  last_actor_id = some actor;
}

apply_control-marks :
    (cur : VideoAnchor) (cmd : ControlCommand) (now_ms : ℤ)
    → ((apply_control cur cmd now_ms).revision ≡ cur.revision +ℤ pos 1)
      × ((apply_control cur cmd now_ms).last_change_ms ≡ now_ms)
unfolding apply_control apply_action
apply_control-marks cur cmd now_ms = ground arith

controlled-fresh :
    (cur : VideoAnchor) (cmd : ControlCommand) (actor : String) (now_ms : ℤ)
    → IsCurrent (controlled cur cmd actor now_ms) (cur.revision +ℤ pos 1)
controlled-fresh cur cmd actor now_ms = inr (sym (apply_control-marks cur cmd now_ms).0)

controlled-locked :
    (cur : VideoAnchor) (cmd : ControlCommand) (actor other : String) (now_ms later_ms lock_ms : ℤ)
    → other ≢ actor
    → later_ms -ℤ now_ms <ℤ lock_ms
    → is_locked (controlled cur cmd actor now_ms) other later_ms lock_ms ≡ true
unfolding is_locked
controlled-locked cur cmd actor other now_ms later_ms lock_ms differ soon =
    rw ((apply_control-marks cur cmd now_ms).1) (ground (arith, str_eq_iff actor other))

-- For `lock_ms` after a control, everybody else who knows the new revision is refused for the lock,
-- and the control's actor is accepted.
pub control_lock :
    (cur : VideoAnchor) (cmd : ControlCommand) (actor other : String) (now_ms later_ms lock_ms : ℤ)
    → other ≢ actor
    → later_ms -ℤ now_ms <ℤ lock_ms
    → (decide_control
          (controlled cur cmd actor now_ms)
          (cur.revision +ℤ pos 1)
          actor
          later_ms
          lock_ms
        ≡ accepted)
      × (decide_control
            (controlled cur cmd actor now_ms)
            (cur.revision +ℤ pos 1)
            other
            later_ms
            lock_ms
          ≡ rejected recently_changed)
unfolding decide_control
control_lock cur cmd actor other now_ms later_ms lock_ms differ soon = (
  (decide_control-cases next (cur.revision +ℤ pos 1) actor later_ms lock_ms).0.1
      (fresh, inr (inl refl)),
  rw (
    (is_stale_iff next (cur.revision +ℤ pos 1)).1 fresh,
    controlled-locked cur cmd actor other now_ms later_ms lock_ms differ soon,
  ),
)
  where
    next : VideoAnchor
    next = controlled cur cmd actor now_ms

    fresh : IsCurrent next (cur.revision +ℤ pos 1)
    fresh = controlled-fresh cur cmd actor now_ms
