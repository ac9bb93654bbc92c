-- ===== src/WaitForSlow/System.antt =====
-- When a system control is written, and what it leaves.
use syncstudies.Base.{◌≡◌, ◌≢◌, refl, ap, ◌∙◌, false, none, some, arith}
use syncstudies.Base.Int.{ℤ, pos, ◌+ℤ◌, ◌<ℤ◌, eq_ℤ_iff}
use syncstudies.Timeline.{
  VideoAnchor, recently_changed, ControlAction, play, pause, seek, rate, apply_control, is_stale,
}
use syncstudies.RoomState.{Hash, JsNumber, anchor_from_hash, apply_atomic, written, refused}
use syncstudies.RoomState.Decision.{system_lock, system_control-locked}
use syncstudies.RoomState.SystemWrites.{system_control-written}
use syncstudies.RoomState.Commit.{control_over, apply_atomic-control, apply_atomic-refused}
use syncstudies.WaitForSlow.{
  WaitRoom, emit, state_sent, system_next, system_args, after_system, system_control,
}

is_stale-own : (a : VideoAnchor) → is_stale a a.revision ≡ false
unfolding is_stale
is_stale-own a = ground (arith, eq_ℤ_iff a.revision a.revision)

-- A system control leaves the video alone.
control_over-system :
    (cur : VideoAnchor) (action : ControlAction) (now : ℤ)
    → control_over cur (system_args action cur now)
      ≡ record (system_next action cur now) { revision = cur.revision +ℤ pos 1 }
unfolding system_args system_next apply_control
control_over-system cur play now = refl
control_over-system cur pause now = refl
control_over-system cur seek now = refl
control_over-system cur rate now = refl

-- The anchor that a system control leaves.
abbrev pub system_done : ControlAction → VideoAnchor → ℤ → VideoAnchor
system_done action cur now = record (system_next action cur now) {
  revision = cur.revision +ℤ pos 1;
}

module _ (js : JsNumber) where
  system-wins :
      (h : Hash) (action : ControlAction) (now : ℤ)
      → system_lock (anchor_from_hash js h) now ≡ false
      → (apply_atomic js h (system_args action (anchor_from_hash js h) now)).1
        ≡ written ((anchor_from_hash js h).revision +ℤ pos 1)
  unfolding system_args
  system-wins h action now free =
      system_control-written js h (system_args action (anchor_from_hash js h) now) refl refl
        (is_stale-own (anchor_from_hash js h)) free

  pub system-stored :
      (h : Hash) (action : ControlAction) (now rev : ℤ)
      → (apply_atomic js h (system_args action (anchor_from_hash js h) now)).1 ≡ written rev
      → anchor_from_hash js (apply_atomic js h (system_args action (anchor_from_hash js h) now)).0
        ≡ system_done action (anchor_from_hash js h) now
  unfolding system_args
  system-stored h action now rev wins =
      apply_atomic-control js h (system_args action (anchor_from_hash js h) now) rev refl
        (λ e. cc e) wins
      ∙ control_over-system (anchor_from_hash js h) action now

  -- What a system control leaves in the room, when the system is not locked out.
  pub system_control-done :
      (room : WaitRoom) (action : ControlAction) (now : ℤ)
      → system_lock (anchor_from_hash js room.hash) now ≡ false
      → let cur = anchor_from_hash js room.hash in
        let after = (apply_atomic js room.hash (system_args action cur now)).0 in
        system_control js room action now ≡ (
          emit (record room { hash = after }) (state_sent (system_done action cur now)),
          some (system_done action cur now),
        )
  unfolding system_control
  system_control-done room action now free =
      ap
        (after_system room (system_next action (anchor_from_hash js room.hash) now)
          (apply_atomic js room.hash (system_args action (anchor_from_hash js room.hash) now)).0)
        (system-wins room.hash action now free)

  pub system_control-anchor :
      (room : WaitRoom) (action : ControlAction) (now : ℤ)
      → system_lock (anchor_from_hash js room.hash) now ≡ false
      → anchor_from_hash js (system_control js room action now).0.hash
        ≡ system_done action (anchor_from_hash js room.hash) now
  system_control-anchor room action now free =
      ap (λ r. anchor_from_hash js r.0.hash) (system_control-done room action now free)
      ∙ system-stored room.hash action now _ (system-wins room.hash action now free)

  -- When a person's change bears a later time, a system control does nothing.
  pub system_control-late :
      (room : WaitRoom) (action : ControlAction) (now : ℤ)
      → (anchor_from_hash js room.hash).last_actor_id ≢ none
      → now <ℤ (anchor_from_hash js room.hash).last_change_ms
      → system_control js room action now ≡ (room, none)
  unfolding system_control system_args
  system_control-late room action now person ahead =
      let cur : VideoAnchor = anchor_from_hash js room.hash in
      let lost : (apply_atomic js room.hash (system_args action cur now)).1
          ≡ refused recently_changed cur.revision =
        (system_control-locked js room.hash (system_args action cur now) refl refl
            (is_stale-own cur)).1
          (person, ahead) in
      ap
        (after_system room (system_next action cur now)
          (apply_atomic js room.hash (system_args action cur now)).0)
        lost
      ∙ ap (λ h. (record room { hash = h }, none))
          (apply_atomic-refused js room.hash (system_args action cur now) (λ rev w. cc (lost, w)))
