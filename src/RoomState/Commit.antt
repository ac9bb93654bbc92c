-- ===== src/RoomState/Commit.antt =====
-- What an accepted control leaves in the hash.
use syncstudies.Base.{◌≡◌, ◌≢◌, ap, inl, inr, List, [], ◌∷◌, some}
use syncstudies.Base.Text.{String}
use syncstudies.Base.Int.{ℤ, pos, ◌+ℤ◌}
use syncstudies.Timeline.{VideoAnchor, normal_rate}
use syncstudies.RoomState.RedisHash.{JsNumber, Hash}
use syncstudies.RoomState.Codec.{anchor_from_hash, provider_text, str, duration_text}
use syncstudies.RoomState.Script.{
  ApplyControlArgs, written, script_args, write_fields, apply_atomic,
}
use syncstudies.RoomState.RoundTrip.{
  or_null-str, as_status-text, as_provider-text, num-show, num_or_null-text,
}
use syncstudies.RoomState.Decision.{transact_video-cases, revision-num}

-- The trailing pairs of `video:set`.
abbrev pub video_fields : JsNumber → VideoAnchor → List (String × String)
video_fields js next =
    ("provider", provider_text next.provider)
    ∷ ("videoRef", str next.video_ref)
    ∷ ("title", str next.title)
    ∷ ("duration", duration_text js next.duration_sec)
    ∷ []

-- What a write takes from the caller's anchor, over the anchor that it finds.
abbrev pub control_over : VideoAnchor → ApplyControlArgs → VideoAnchor
control_over cur args = record cur {
  status = args.next.status;
  anchor_position_sec = args.next.anchor_position_sec;
  anchor_server_ms = args.next.anchor_server_ms;
  playback_rate = args.next.playback_rate;
  revision = cur.revision +ℤ pos 1;
  last_actor_id = args.actor_id;
  last_change_ms = args.now_ms;
}

abbrev pub video_over : VideoAnchor → ApplyControlArgs → VideoAnchor
video_over cur args = record (control_over cur args) {
  provider = args.next.provider;
  video_ref = args.next.video_ref;
  title = args.next.title;
  duration_sec = args.next.duration_sec;
}

module _ (js : JsNumber) where
  write_fields-control :
      (h : Hash) (args : ApplyControlArgs)
      → args.extra ≡ []
      → args.actor_id ≢ some ""
      → anchor_from_hash js
          (write_fields js h (script_args js args) ((anchor_from_hash js h).revision +ℤ pos 1))
        ≡ control_over (anchor_from_hash js h) args
  unfolding anchor_from_hash write_fields
  write_fields-control h args plain ok = rw plain (λ i. record (anchor_from_hash js h) {
    status = as_status-text args.next.status i;
    anchor_position_sec = num-show js args.next.anchor_position_sec (pos 0) i;
    anchor_server_ms = num-show js args.next.anchor_server_ms (pos 0) i;
    playback_rate = num-show js args.next.playback_rate normal_rate i;
    revision = num-show js ((anchor_from_hash js h).revision +ℤ pos 1) (pos 0) i;
    last_actor_id = or_null-str args.actor_id ok i;
    last_change_ms = num-show js args.now_ms (pos 0) i;
  })

  write_fields-video :
      (h : Hash) (args : ApplyControlArgs)
      → args.extra ≡ video_fields js args.next
      → args.actor_id ≢ some ""
      → args.next.video_ref ≢ some ""
      → args.next.title ≢ some ""
      → anchor_from_hash js
          (write_fields js h (script_args js args) ((anchor_from_hash js h).revision +ℤ pos 1))
        ≡ video_over (anchor_from_hash js h) args
  unfolding anchor_from_hash write_fields
  write_fields-video h args whole ok ref_ok title_ok = rw whole (λ i.
      record (anchor_from_hash js h) {
        provider = as_provider-text args.next.provider i;
        video_ref = or_null-str args.next.video_ref ref_ok i;
        title = or_null-str args.next.title title_ok i;
        duration_sec = num_or_null-text js args.next.duration_sec i;
        status = as_status-text args.next.status i;
        anchor_position_sec = num-show js args.next.anchor_position_sec (pos 0) i;
        anchor_server_ms = num-show js args.next.anchor_server_ms (pos 0) i;
        playback_rate = num-show js args.next.playback_rate normal_rate i;
        revision = num-show js ((anchor_from_hash js h).revision +ℤ pos 1) (pos 0) i;
        last_actor_id = or_null-str args.actor_id ok i;
        last_change_ms = num-show js args.now_ms (pos 0) i;
      })

  -- A script call that writes does so at the revision that it finds, and raises it by one.
  pub apply_atomic-written :
      (h : Hash) (args : ApplyControlArgs) (rev : ℤ)
      → (apply_atomic js h args).1 ≡ written rev
      → (rev ≡ (anchor_from_hash js h).revision +ℤ pos 1)
        × ((apply_atomic js h args).0
            ≡ write_fields js h (script_args js args) ((anchor_from_hash js h).revision +ℤ pos 1))
  unfolding apply_atomic
  apply_atomic-written h args rev e = elim (transact_video-cases js h (script_args js args)) [
    | inl (_, t) ↦ cc t
    | inr (inl (_, _, t)) ↦ cc t
    | inr (inr (_, _, t)) ↦ (cc (t, revision-num js h), rw (t, revision-num js h))
  ]

  -- A call without extra pairs that writes leaves the caller's control over the anchor that it
  -- found, and nothing else of the caller's anchor: the video stays the one that was there. The
  -- sender is not the empty text.
  pub apply_atomic-control :
      (h : Hash) (args : ApplyControlArgs) (rev : ℤ)
      → args.extra ≡ []
      → args.actor_id ≢ some ""
      → (apply_atomic js h args).1 ≡ written rev
      → anchor_from_hash js (apply_atomic js h args).0 ≡ control_over (anchor_from_hash js h) args
  apply_atomic-control h args rev plain ok e =
      rw ((apply_atomic-written h args rev e).1) (write_fields-control h args plain ok)

  -- A call of `video:set` that writes leaves the video of the caller's anchor, at the next revision,
  -- if the sender, the video's reference and its title are none of them the empty text.
  pub apply_atomic-video :
      (h : Hash) (args : ApplyControlArgs) (rev : ℤ)
      → args.extra ≡ video_fields js args.next
      → args.actor_id ≢ some ""
      → args.next.video_ref ≢ some ""
      → args.next.title ≢ some ""
      → (apply_atomic js h args).1 ≡ written rev
      → anchor_from_hash js (apply_atomic js h args).0 ≡ video_over (anchor_from_hash js h) args
  apply_atomic-video h args rev whole ok ref_ok title_ok e =
      rw ((apply_atomic-written h args rev e).1)
        (write_fields-video h args whole ok ref_ok title_ok)

  -- A call that is refused writes nothing.
  pub apply_atomic-refused :
      (h : Hash) (args : ApplyControlArgs)
      → ((rev : ℤ) → (apply_atomic js h args).1 ≢ written rev)
      → (apply_atomic js h args).0 ≡ h
  unfolding apply_atomic
  apply_atomic-refused h args n = elim (transact_video-cases js h (script_args js args)) [
    | inl (_, t) ↦ rw t
    | inr (inl (_, _, t)) ↦ rw t
    | inr (inr (_, _, t)) ↦ absurd (n _ (ap (λ r. r.1) t))
  ]
