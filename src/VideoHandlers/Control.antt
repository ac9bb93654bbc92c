-- ===== src/VideoHandlers/Control.antt =====
-- What `video:control` does to the room and tells its members.
use mathlib.Core.Path.{subst}
use syncstudies.Base.{
  ◌≡◌, ◌≢◌, refl, sym, ap, ◌∙◌, true, false, not, Option, none, some, arith, if_either,
}
use syncstudies.Base.Int.{ℤ, pos, ◌+ℤ◌}
use syncstudies.Timeline.{
  VideoAnchor, ControlCommand, ControlAction, play, pause, seek, rate, ControlDecision, accepted,
  rejected, apply_control,
}
use syncstudies.Permissions.{can_control_video}
use syncstudies.RoomState.{
  Hash, JsNumber, anchor_from_hash, ScriptReply, written, refused, apply_atomic,
}
use syncstudies.RoomState.Commit.{
  control_over, apply_atomic-written, apply_atomic-control, apply_atomic-refused,
}
use syncstudies.VideoHandlers.{
  Sender, Handled, reject_control, lacks_video, next_anchor, control_args, after_script,
  send_control, after_decision, handle_control,
}

module _ (js : JsNumber) where
  -- A result that tells the truth: an accepted control is broadcast and acked with the anchor that
  -- the room then has, and a refused one changes nothing and is not broadcast.
  pub record IsFaithful (live : Hash) (r : Handled) : Type 0 where
    pub told : r.ack.ok ≡ true → anchor_from_hash js r.hash ≡ r.ack.anchor
    pub shown : r.ack.ok ≡ true → r.broadcast ≡ some r.ack.anchor
    pub unchanged : r.ack.ok ≡ false → r.hash ≡ live
    pub silent : r.ack.ok ≡ false → r.broadcast ≡ none

  reject_control-IsFaithful :
      (live : Hash) (fresh : Option VideoAnchor) (reason : _) (fallback : VideoAnchor)
      → IsFaithful live (reject_control live fresh reason fallback)
  unfolding reject_control
  reject_control-IsFaithful live fresh reason fallback = record {
    told = λ e. ground arith;
    shown = λ e. ground arith;
    unchanged = λ e. refl;
    silent = λ e. refl;
  }

  -- A control leaves the video alone.
  apply_action-control_over :
      (from : Sender) (cur : VideoAnchor) (cmd : ControlCommand) (now_ms : ℤ) (a : ControlAction)
      → cmd.action ≡ a
      → control_over cur (control_args from cur cmd now_ms)
        ≡ record (next_anchor from cur cmd now_ms) { revision = cur.revision +ℤ pos 1 }
  unfolding control_args next_anchor apply_control
  apply_action-control_over from cur cmd now_ms play e = rw e
  apply_action-control_over from cur cmd now_ms pause e = rw e
  apply_action-control_over from cur cmd now_ms seek e = rw e
  apply_action-control_over from cur cmd now_ms rate e = rw e

  -- What a write leaves, for a control that was worked out from the anchor that the script found.
  stored :
      (from : Sender) (live : Hash) (cur : VideoAnchor) (cmd : ControlCommand) (now_ms rev : ℤ)
      → from.user_id ≢ ""
      → anchor_from_hash js live ≡ cur
      → (apply_atomic js live (control_args from cur cmd now_ms)).1 ≡ written rev
      → anchor_from_hash js (apply_atomic js live (control_args from cur cmd now_ms)).0
        ≡ record (next_anchor from cur cmd now_ms) { revision = cur.revision +ℤ pos 1 }
  unfolding control_args
  stored from live cur cmd now_ms rev named same e =
      apply_atomic-control js live (control_args from cur cmd now_ms) rev refl (λ n. named (cc n)) e
      ∙ ap (λ a. control_over a (control_args from cur cmd now_ms)) same
      ∙ apply_action-control_over from cur cmd now_ms cmd.action refl

  after_script-IsFaithful :
      (from : Sender) (live : Hash) (cur : VideoAnchor) (fresh : Option VideoAnchor)
      (cmd : ControlCommand) (now_ms : ℤ) (reply : ScriptReply)
      → from.user_id ≢ ""
      → anchor_from_hash js live ≡ cur
      → (apply_atomic js live (control_args from cur cmd now_ms)).1 ≡ reply
      → IsFaithful live (
          after_script js fresh cur
            (next_anchor from cur cmd now_ms)
            (apply_atomic js live (control_args from cur cmd now_ms)).0
            reply)
  after_script-IsFaithful from live cur fresh cmd now_ms (refused reason rev) named same e =
      let after : Hash = (apply_atomic js live (control_args from cur cmd now_ms)).0 in
      subst (λ h. IsFaithful h (reject_control after fresh reason cur))
        (apply_atomic-refused js live (control_args from cur cmd now_ms) (λ r w. cc (e, w)))
        (reject_control-IsFaithful after fresh reason cur)
  after_script-IsFaithful from live cur fresh cmd now_ms (written rev) named same e = record {
    told = λ _.
        stored from live cur cmd now_ms rev named same e
        ∙ ap (λ r. record (next_anchor from cur cmd now_ms) { revision = r })
            (ap (λ a. a.revision +ℤ pos 1) (sym same)
              ∙ sym (apply_atomic-written js live (control_args from cur cmd now_ms) rev e).0);
    shown = λ _. refl;
    unchanged = λ n. ground arith;
    silent = λ n. ground arith;
  }

  after_decision-IsFaithful :
      (from : Sender) (live : Hash) (cur : VideoAnchor) (fresh : Option VideoAnchor)
      (cmd : ControlCommand) (now_ms : ℤ) (decision : ControlDecision)
      → from.user_id ≢ ""
      → anchor_from_hash js live ≡ cur
      → IsFaithful live (after_decision js from live cur fresh cmd now_ms decision)
  unfolding send_control
  after_decision-IsFaithful from live cur fresh cmd now_ms (rejected reason) named same =
      reject_control-IsFaithful live fresh reason cur
  after_decision-IsFaithful from live cur fresh cmd now_ms accepted named same =
      after_script-IsFaithful from live cur fresh cmd now_ms _ named same refl

  -- If nobody changes the room between the handler's read and the script, an accepted control is
  -- broadcast and acked with exactly the anchor that the room then has, and a refused one changes
  -- nothing and is not broadcast. The sender has a name.
  pub handle_control-IsFaithful :
      (from : Sender) (live : Hash) (cur : VideoAnchor) (fresh : Option VideoAnchor)
      (cmd : ControlCommand) (now_ms : ℤ)
      → from.user_id ≢ ""
      → anchor_from_hash js live ≡ cur
      → IsFaithful live (handle_control js from live cur fresh cmd now_ms)
  unfolding handle_control
  handle_control-IsFaithful from live cur fresh cmd now_ms named same =
      if_either (IsFaithful live) (not (can_control_video from.role from.policy.playback_control)) _
        _ (λ _. reject_control-IsFaithful live fresh _ cur)
        (λ _.
          if_either (IsFaithful live) (lacks_video cur) _ _
            (λ _. reject_control-IsFaithful live fresh _ cur)
            (λ _. after_decision-IsFaithful from live cur fresh cmd now_ms _ named same))
