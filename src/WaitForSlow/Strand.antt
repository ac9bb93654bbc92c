-- ===== src/WaitForSlow/Strand.antt =====
-- How a wait can end without the room being resumed.
use mathlib.Core.Path.{subst}
use syncstudies.Base.{◌≡◌, ◌≢◌, refl, sym, [], true, false, not, ◌&&◌, none, arith, if_either}
use syncstudies.Base.Int.{ℤ, ◌<ℤ◌}
use syncstudies.Timeline.{play, is_playing}
use syncstudies.RoomState.{JsNumber, anchor_from_hash}
use syncstudies.WaitForSlow.{
  WaitRoom, emit, waiting_sent, resume_after_wait, stop_waiting_and_resume, on_cap,
  evaluate_wait_for_slow,
}
use syncstudies.WaitForSlow.System.{system_control-late}

module _ (js : JsNumber) where
  -- A room that nobody is waited for and that does not play is left as it is.
  evaluate-idle :
      (room : WaitRoom) (now : ℤ)
      → room.waiting ≡ false
      → is_playing (anchor_from_hash js room.hash).status ≡ false
      → evaluate_wait_for_slow js room now ≡ room
  unfolding evaluate_wait_for_slow stop_waiting_and_resume
  evaluate-idle room now off still = ground arith

  -- A resume that comes too early by another node's clock is lost: if a person's change during the
  -- wait bears a later time than the cap timer's, and the room is not playing, then after the timer
  -- the room has not changed, the wait is forgotten, and no later look at the slow ones resumes it.
  pub on_cap-strands :
      (room : WaitRoom) (now later : ℤ)
      → room.waiting ≡ true
      → (anchor_from_hash js room.hash).last_actor_id ≢ none
      → now <ℤ (anchor_from_hash js room.hash).last_change_ms
      → is_playing (anchor_from_hash js room.hash).status ≡ false
      → ((on_cap js room now).hash ≡ room.hash)
        × ((on_cap js room now).waiting ≡ false)
        × (evaluate_wait_for_slow js (on_cap js room now) later ≡ on_cap js room now)
  unfolding on_cap resume_after_wait
  on_cap-strands room now later held person ahead still =
      let over : WaitRoom = record room { waiting = false } in
      let told : WaitRoom = emit over (waiting_sent [] now) in
      if_either
        (λ (r : WaitRoom).
          (r.hash ≡ room.hash) × (r.waiting ≡ false) × (evaluate_wait_for_slow js r later ≡ r))
        room.waiting _ _
        (λ _.
          if_either
            (λ (r : WaitRoom).
              (r.hash ≡ room.hash) × (r.waiting ≡ false) × (evaluate_wait_for_slow js r later ≡ r))
            (not false && not room.is_leader) _ _
            (λ not_leader. (refl, refl, evaluate-idle over later refl still))
            (λ leads.
              subst
                (λ r.
                  (r.0.hash ≡ room.hash)
                  × (r.0.waiting ≡ false)
                  × (evaluate_wait_for_slow js r.0 later ≡ r.0))
                (sym (system_control-late js told play now person ahead))
                (refl, refl, evaluate-idle told later refl still)))
        (λ off. ground arith)
