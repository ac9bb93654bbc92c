-- ===== src/RoomState/SystemWrites.antt =====
-- A control by nobody, when nobody holds the room against it.
use syncstudies.Base.{◌≡◌, false, none, inl, inr}
use syncstudies.Base.Int.{pos, ◌+ℤ◌}
use syncstudies.Timeline.{is_stale}
use syncstudies.RoomState.RedisHash.{Hash, JsNumber}
use syncstudies.RoomState.Codec.{anchor_from_hash}
use syncstudies.RoomState.Script.{ApplyControlArgs, script_args, apply_atomic, written}
use syncstudies.RoomState.Decision.{
  system_lock, script_locked-system, script_stale-is_stale, transact_video-cases, revision-num,
}

module _ (js : JsNumber) where
  -- A system control at a revision that is not stale is written, if the system is not locked out.
  pub system_control-written :
      (h : Hash) (args : ApplyControlArgs)
      → args.actor_id ≡ none
      → args.lock_ms ≡ pos 0
      → is_stale (anchor_from_hash js h) args.expected_revision ≡ false
      → system_lock (anchor_from_hash js h) args.now_ms ≡ false
      → (apply_atomic js h args).1 ≡ written ((anchor_from_hash js h).revision +ℤ pos 1)
  unfolding apply_atomic
  system_control-written h args system off fresh free =
      elim (transact_video-cases js h (script_args js args)) [
        | inl (old, t) ↦ cc (script_stale-is_stale js h args)
        | inr (inl (new, held, t)) ↦ cc (script_locked-system js h args system off)
        | inr (inr (new, none_held, t)) ↦ rw (t, revision-num js h)
      ]
