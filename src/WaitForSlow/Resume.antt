-- ===== src/WaitForSlow/Resume.antt =====
-- How a wait ends.
use mathlib.Core.Path.{subst}
use syncstudies.Base.{◌≡◌, refl, ap, ◌∙◌, Bool, true, false, not, ◌&&◌, [], arith, if_either}
use syncstudies.Base.Int.{ℤ}
use syncstudies.Timeline.{VideoAnchor, play, pause, is_playing, apply_control, position_at}
use syncstudies.Timeline.Position.{position_at-apply_control, position_at-pause}
use syncstudies.RoomState.{JsNumber, anchor_from_hash, ScriptReply, written, refused, apply_atomic}
use syncstudies.RoomState.Decision.{system_lock}
use syncstudies.WaitForSlow.{
  WaitRoom, emit, waiting_sent, is_empty, waits_for_slow, system_command, system_next, system_args,
  after_system, system_control, resume_after_wait, stop_waiting_and_resume, on_cap, after_pause,
  evaluate_wait_for_slow,
}
use syncstudies.WaitForSlow.System.{
  system_done, system-stored, system_control-done, system_control-anchor,
}

-- A room set playing by the system stands where it stood.
play-stays :
    (cur : VideoAnchor) (now : ℤ) → position_at (system_done play cur now) now ≡ position_at cur now
unfolding position_at system_next
play-stays cur now = position_at-apply_control cur (system_command play cur now) now (λ e. cc e)

play-plays : (cur : VideoAnchor) (now : ℤ) → is_playing (system_done play cur now).status ≡ true
unfolding system_next apply_control
play-plays cur now = refl

pause-stays :
    (cur : VideoAnchor) (now later : ℤ)
    → position_at (system_done pause cur now) later ≡ position_at cur now
unfolding position_at system_next
pause-stays cur now later = position_at-pause cur (system_command pause cur now) now later refl

-- A pause by the system keeps nobody out.
pause-unlocked :
    (cur : VideoAnchor) (now later : ℤ) → system_lock (system_done pause cur now) later ≡ false
unfolding system_next
pause-unlocked cur now later = refl

module _ (js : JsNumber) where
  -- A room that plays, from where another stood at that time, and is waited for no more.
  abbrev pub PlaysFrom : ℤ → ℤ → WaitRoom → Type 0
  PlaysFrom now position room =
      (is_playing (anchor_from_hash js room.hash).status ≡ true)
      × (position_at (anchor_from_hash js room.hash) now ≡ position)
      × (room.waiting ≡ false)

  resume-PlaysFrom :
      (room : WaitRoom) (force : Bool) (now : ℤ)
      → room.waiting ≡ false
      → (not force && not room.is_leader) ≡ false
      → system_lock (anchor_from_hash js room.hash) now ≡ false
      → PlaysFrom now
          (position_at (anchor_from_hash js room.hash) now)
          (resume_after_wait js room force now)
  unfolding resume_after_wait
  resume-PlaysFrom room force now over may free =
      if_either (PlaysFrom now (position_at (anchor_from_hash js room.hash) now))
        (not force && not room.is_leader) _ _ (λ not_leader. ground arith)
        (λ _.
          let called : WaitRoom = emit room (waiting_sent [] now) in
          let cur : VideoAnchor = anchor_from_hash js room.hash in
          let left : anchor_from_hash js (system_control js called play now).0.hash
              ≡ system_done play cur now =
            system_control-anchor js called play now free in
          (
            ap (λ a. is_playing a.status) left ∙ play-plays cur now,
            ap (λ a. position_at a now) left ∙ play-stays cur now,
            ap (λ r. r.0.waiting) (system_control-done js called play now free) ∙ over,
          ))

  -- A wait that ends on the room's leader, the system not being locked out, leaves the room playing
  -- from where it stands, whatever was done to it during the wait: also if a person paused it or set
  -- another video.
  pub stop_waiting-PlaysFrom :
      (room : WaitRoom) (now : ℤ)
      → room.waiting ≡ true
      → room.is_leader ≡ true
      → system_lock (anchor_from_hash js room.hash) now ≡ false
      → PlaysFrom now
          (position_at (anchor_from_hash js room.hash) now)
          (stop_waiting_and_resume js room false now)
  unfolding stop_waiting_and_resume
  stop_waiting-PlaysFrom room now held leads free =
      if_either (PlaysFrom now (position_at (anchor_from_hash js room.hash) now)) room.waiting _ _
        (λ _. resume-PlaysFrom (record room { waiting = false }) false now refl (ground arith) free)
        (λ off. ground arith)

  -- What is known of a room that has just been paused for a wait.
  abbrev PausedFor : WaitRoom → ℤ → WaitRoom → Type 0
  PausedFor room now after =
      after.waiting ≡ true
      → (anchor_from_hash js after.hash ≡ system_done pause (anchor_from_hash js room.hash) now)
        × (after.is_leader ≡ true)

  after_system-PausedFor :
      (room : WaitRoom) (now : ℤ) (reply : ScriptReply)
      → room.waiting ≡ false
      → room.is_leader ≡ true
      → (apply_atomic js room.hash (system_args pause (anchor_from_hash js room.hash) now)).1
        ≡ reply
      → PausedFor room now (
          after_pause now (
            after_system room
              (system_next pause (anchor_from_hash js room.hash) now)
              (apply_atomic js room.hash (system_args pause (anchor_from_hash js room.hash) now)).0
              reply))
  after_system-PausedFor room now (refused reason rev) off leads e w = ground arith
  after_system-PausedFor room now (written rev) off leads e w =
      (system-stored js room.hash pause now rev e, leads)

  stop-PausedFor :
      (room : WaitRoom) (now : ℤ)
      → room.waiting ≡ false
      → PausedFor room now (stop_waiting_and_resume js room false now)
  unfolding stop_waiting_and_resume
  stop-PausedFor room now off =
      if_either (PausedFor room now) room.waiting _ _ (λ on w. ground arith) (λ _ w. ground arith)

  evaluate-PausedFor :
      (room : WaitRoom) (now : ℤ)
      → room.waiting ≡ false
      → PausedFor room now (evaluate_wait_for_slow js room now)
  unfolding evaluate_wait_for_slow system_control
  evaluate-PausedFor room now off =
      if_either (PausedFor room now) (not room.is_leader) _ _ (λ _ w. ground arith)
        (λ leads.
          if_either (PausedFor room now) (not (waits_for_slow room.meta)) _ _
            (λ _. stop-PausedFor room now off)
            (λ _.
              if_either (PausedFor room now) (is_empty room.buffering) _ _
                (λ _. stop-PausedFor room now off)
                (λ _.
                  if_either (PausedFor room now) room.waiting _ _ (λ on w. ground arith)
                    (λ _.
                      if_either (PausedFor room now)
                        (not (is_playing (anchor_from_hash js room.hash).status)) _ _
                        (λ _ w. ground arith)
                        (λ _.
                          after_system-PausedFor room now
                            (apply_atomic js room.hash
                              (system_args pause (anchor_from_hash js room.hash) now)).1
                            off (ground arith) refl)))))

  -- A wait ends. If nobody else changes the room while it is held, then the cap timer, whenever it
  -- fires, leaves it playing from exactly where the wait had stopped it, and waited for no more.
  pub wait_ends :
      (room : WaitRoom) (now later : ℤ)
      → room.waiting ≡ false
      → (evaluate_wait_for_slow js room now).waiting ≡ true
      → PlaysFrom later
          (position_at (anchor_from_hash js room.hash) now)
          (on_cap js (evaluate_wait_for_slow js room now) later)
  unfolding on_cap
  wait_ends room now later off held =
      let paused : WaitRoom = evaluate_wait_for_slow js room now in
      let cur : VideoAnchor = anchor_from_hash js room.hash in
      let (stored, leads) = evaluate-PausedFor room now off held in
      let free : system_lock (anchor_from_hash js paused.hash) later ≡ false =
        ap (λ a. system_lock a later) stored ∙ pause-unlocked cur now later in
      let stood : position_at (anchor_from_hash js paused.hash) later ≡ position_at cur now =
        ap (λ a. position_at a later) stored ∙ pause-stays cur now later in
      if_either (PlaysFrom later (position_at cur now)) paused.waiting _ _
        (λ _.
          subst
            (λ p.
              PlaysFrom later p
                (resume_after_wait js (record paused { waiting = false }) false later))
            stood
            (resume-PlaysFrom (record paused { waiting = false }) false later refl (ground arith)
              free))
        (λ none_held. ground arith)
