-- ===== src/VideoHandlers/Accept.antt =====
-- Which controls `video:control` accepts.
use mathlib.Core.Path.{subst}
use syncstudies.Base.{◌≡◌, ◌↔◌, refl, sym, ap, ◌∙◌, true, false, not, Option, arith, if_either}
use syncstudies.Base.Int.{ℤ, pos, ◌+ℤ◌, eq_ℤ_iff}
use syncstudies.Timeline.{
  VideoAnchor, ControlCommand, ControlDecision, accepted, rejected, decide_control, is_stale,
}
use syncstudies.Permissions.{can_control_video}
use syncstudies.RoomState.{Hash, JsNumber, anchor_from_hash, written, apply_atomic}
use syncstudies.RoomState.Decision.{apply_atomic-decides, reply_of}
use syncstudies.VideoHandlers.{
  Sender, Handled, control_lock_ms, reject_control, lacks_video, next_anchor, revision_to_check,
  control_args, after_script, send_control, after_decision, handle_control,
}

-- The revision that is sent to the script passes the check that the command's revision passed.
checked-decides :
    (from : Sender) (cur : VideoAnchor) (cmd : ControlCommand) (now_ms : ℤ)
    → decide_control cur cmd.expected_revision from.user_id now_ms control_lock_ms ≡ accepted
    → decide_control cur (revision_to_check cur cmd) from.user_id now_ms control_lock_ms ≡ accepted
unfolding decide_control is_stale revision_to_check
checked-decides from cur cmd now_ms e = ground (arith, eq_ℤ_iff cur.revision cur.revision)

module _ (js : JsNumber) where
  script-writes :
      (from : Sender) (live : Hash) (cur : VideoAnchor) (cmd : ControlCommand) (now_ms : ℤ)
      → anchor_from_hash js live ≡ cur
      → decide_control cur cmd.expected_revision from.user_id now_ms control_lock_ms ≡ accepted
      → (apply_atomic js live (control_args from cur cmd now_ms)).1
        ≡ written (cur.revision +ℤ pos 1)
  unfolding control_args
  script-writes from live cur cmd now_ms same e =
      apply_atomic-decides js live (control_args from cur cmd now_ms) from.user_id refl
      ∙ ap
          (λ a.
            reply_of
              (decide_control a (revision_to_check cur cmd) from.user_id now_ms control_lock_ms)
              a.revision)
          same
      ∙ ap (λ d. reply_of d cur.revision) (checked-decides from cur cmd now_ms e)

  send_control-ok :
      (from : Sender) (live : Hash) (cur : VideoAnchor) (fresh : Option VideoAnchor)
      (cmd : ControlCommand) (now_ms : ℤ)
      → anchor_from_hash js live ≡ cur
      → decide_control cur cmd.expected_revision from.user_id now_ms control_lock_ms ≡ accepted
      → (send_control js from live cur fresh cmd now_ms).ack.ok ≡ true
  unfolding send_control
  send_control-ok from live cur fresh cmd now_ms same e =
      subst
        (λ reply.
          (after_script js fresh cur (next_anchor from cur cmd now_ms)
            (apply_atomic js live (control_args from cur cmd now_ms)).0 reply).ack.ok
          ≡ true)
        (sym (script-writes from live cur cmd now_ms same e)) refl

  -- A rejection is not an acceptance.
  after_decision-accepted :
      (from : Sender) (live : Hash) (cur : VideoAnchor) (fresh : Option VideoAnchor)
      (cmd : ControlCommand) (now_ms : ℤ) (d : ControlDecision)
      → (after_decision js from live cur fresh cmd now_ms d).ack.ok ≡ true
      → d ≡ accepted
  unfolding reject_control
  after_decision-accepted from live cur fresh cmd now_ms (rejected reason) e = ground arith
  after_decision-accepted from live cur fresh cmd now_ms accepted e = refl

  -- If nobody changes the room between the handler's read and the script, a control is accepted
  -- exactly when the policy of the room lets its sender control the video, there is a video, and
  -- `decideControl` accepts it.
  pub handle_control-accepts :
      (from : Sender) (live : Hash) (cur : VideoAnchor) (fresh : Option VideoAnchor)
      (cmd : ControlCommand) (now_ms : ℤ)
      → anchor_from_hash js live ≡ cur
      → ((handle_control js from live cur fresh cmd now_ms).ack.ok ≡ true) ↔ (
          (can_control_video from.role from.policy.playback_control ≡ true)
          × (lacks_video cur ≡ false)
          × (decide_control cur cmd.expected_revision from.user_id now_ms control_lock_ms
              ≡ accepted))
  unfolding handle_control reject_control
  handle_control-accepts from live cur fresh cmd now_ms same = (
    if_either
        (λ (r : Handled).
          r.ack.ok ≡ true
          → (can_control_video from.role from.policy.playback_control ≡ true)
            × (lacks_video cur ≡ false)
            × (decide_control cur cmd.expected_revision from.user_id now_ms control_lock_ms
                ≡ accepted))
        (not (can_control_video from.role from.policy.playback_control)) _ _
        (λ denied e. ground arith)
        (λ allowed.
          if_either
            (λ (r : Handled).
              r.ack.ok ≡ true
              → (can_control_video from.role from.policy.playback_control ≡ true)
                × (lacks_video cur ≡ false)
                × (decide_control cur cmd.expected_revision from.user_id now_ms control_lock_ms
                    ≡ accepted))
            (lacks_video cur) _ _ (λ no_video e. ground arith)
            (λ video e.
              (ground arith, video, after_decision-accepted from live cur fresh cmd now_ms _ e))),
    λ (allowed, video, decided).
        if_either (λ (r : Handled). r.ack.ok ≡ true)
          (not (can_control_video from.role from.policy.playback_control)) _ _
          (λ denied. ground arith)
          (λ _.
            if_either (λ (r : Handled). r.ack.ok ≡ true) (lacks_video cur) _ _
              (λ no_video. ground arith)
              (λ _.
                subst (λ d. (after_decision js from live cur fresh cmd now_ms d).ack.ok ≡ true)
                  (sym decided) (send_control-ok from live cur fresh cmd now_ms same decided))),
  )
