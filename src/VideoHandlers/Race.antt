-- ===== src/VideoHandlers/Race.antt =====
-- `video:control` when another node changes the room in between.
use mathlib.Core.Path.{subst}
use syncstudies.Base.{◌≡◌, ◌≢◌, refl, sym, ap, ◌∙◌, false, not, Option, none, arith, if_either}
use syncstudies.Base.Int.{ℤ, pos, ◌≤ℤ◌, eq_ℤ_iff}
use syncstudies.Timeline.{
  VideoAnchor, ControlCommand, ControlDecision, accepted, rejected, stale_revision, decide_control,
  is_stale,
}
use syncstudies.Permissions.{can_control_video}
use syncstudies.RoomState.{Hash, JsNumber, anchor_from_hash, refused, apply_atomic}
use syncstudies.RoomState.Commit.{apply_atomic-refused}
use syncstudies.RoomState.Decision.{apply_atomic-decides, reply_of}
use syncstudies.VideoHandlers.{
  Sender, Handled, control_lock_ms, reject_control, lacks_video, next_anchor, revision_to_check,
  control_args, after_script, send_control, after_decision, handle_control,
}

-- What the script checks is the revision that was read, whether or not the command named it.
revision_to_check-read :
    (from : Sender) (cur : VideoAnchor) (cmd : ControlCommand) (now_ms : ℤ)
    → decide_control cur cmd.expected_revision from.user_id now_ms control_lock_ms ≡ accepted
    → revision_to_check cur cmd ≡ cur.revision
unfolding decide_control is_stale revision_to_check
revision_to_check-read from cur cmd now_ms e =
    ground (arith, eq_ℤ_iff cmd.expected_revision cur.revision)

decide_control-moved :
    (a : VideoAnchor) (expected : ℤ) (actor : _) (now_ms lock_ms : ℤ)
    → pos 0 ≤ℤ expected
    → a.revision ≢ expected
    → decide_control a expected actor now_ms lock_ms ≡ rejected stale_revision
unfolding decide_control is_stale
decide_control-moved a expected actor now_ms lock_ms h n =
    ground (arith, eq_ℤ_iff expected a.revision)

module _ (js : JsNumber) where
  -- Nothing is changed, nothing is broadcast, and the sender is told no.
  abbrev pub LeavesAlone : Hash → Handled → Type 0
  LeavesAlone live r = (r.ack.ok ≡ false) × (r.hash ≡ live) × (r.broadcast ≡ none)

  send_control-moved :
      (from : Sender) (live : Hash) (cur : VideoAnchor) (fresh : Option VideoAnchor)
      (cmd : ControlCommand) (now_ms : ℤ)
      → pos 0 ≤ℤ cur.revision
      → (anchor_from_hash js live).revision ≢ cur.revision
      → decide_control cur cmd.expected_revision from.user_id now_ms control_lock_ms ≡ accepted
      → LeavesAlone live (send_control js from live cur fresh cmd now_ms)
  unfolding send_control control_args reject_control
  send_control-moved from live cur fresh cmd now_ms h moved e =
      let reply : (apply_atomic js live (control_args from cur cmd now_ms)).1
          ≡ refused stale_revision (anchor_from_hash js live).revision =
        apply_atomic-decides js live (control_args from cur cmd now_ms) from.user_id refl
        ∙ ap
            (λ n.
              reply_of
                (decide_control (anchor_from_hash js live) n from.user_id now_ms control_lock_ms)
                (anchor_from_hash js live).revision)
            (revision_to_check-read from cur cmd now_ms e)
        ∙ ap (λ d. reply_of d (anchor_from_hash js live).revision)
            (decide_control-moved (anchor_from_hash js live) cur.revision from.user_id now_ms
              control_lock_ms h moved) in
      subst
        (λ r. LeavesAlone live (
          after_script js fresh cur (next_anchor from cur cmd now_ms)
            (apply_atomic js live (control_args from cur cmd now_ms)).0 r))
        (sym reply)
        (
          refl,
          apply_atomic-refused js live (control_args from cur cmd now_ms) (λ r w. cc (reply, w)),
          refl,
        )

  after_decision-moved :
      (from : Sender) (live : Hash) (cur : VideoAnchor) (fresh : Option VideoAnchor)
      (cmd : ControlCommand) (now_ms : ℤ) (d : ControlDecision)
      → pos 0 ≤ℤ cur.revision
      → (anchor_from_hash js live).revision ≢ cur.revision
      → decide_control cur cmd.expected_revision from.user_id now_ms control_lock_ms ≡ d
      → LeavesAlone live (after_decision js from live cur fresh cmd now_ms d)
  unfolding reject_control
  after_decision-moved from live cur fresh cmd now_ms (rejected reason) h moved e =
      (refl, refl, refl)
  after_decision-moved from live cur fresh cmd now_ms accepted h moved e =
      send_control-moved from live cur fresh cmd now_ms h moved e

  -- A control that was worked out from a state that the room has left is never written: if the room
  -- is at another revision when the script runs, the sender is refused, the room stays as it is and
  -- nothing is broadcast, also for a command that names no revision. The revision that was read is
  -- not negative.
  pub handle_control-moved :
      (from : Sender) (live : Hash) (cur : VideoAnchor) (fresh : Option VideoAnchor)
      (cmd : ControlCommand) (now_ms : ℤ)
      → pos 0 ≤ℤ cur.revision
      → (anchor_from_hash js live).revision ≢ cur.revision
      → LeavesAlone live (handle_control js from live cur fresh cmd now_ms)
  unfolding handle_control reject_control
  handle_control-moved from live cur fresh cmd now_ms h moved =
      if_either (LeavesAlone live) (not (can_control_video from.role from.policy.playback_control))
        _ _ (λ _. (refl, refl, refl))
        (λ _.
          if_either (LeavesAlone live) (lacks_video cur) _ _ (λ _. (refl, refl, refl))
            (λ _. after_decision-moved from live cur fresh cmd now_ms _ h moved refl))
