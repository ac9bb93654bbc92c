-- ===== src/Timeline/Position.antt =====
-- What the controls do to the position of the room.
use syncstudies.Base.{
  ◌≡◌, ◌≢◌, refl, ◌∙◌, true, false, Option, some, arith, Bool-cases, inl, inr, if◌then◌else◌,
}
use syncstudies.Base.Int.{
  ℤ, pos, ◌+ℤ◌, ◌-ℤ◌, ◌*ℤ◌, ◌≤ℤ◌, int_laws, *ℤ_nonneg, move_none, move_split,
}
use syncstudies.Timeline.Anchor.{
  VideoAnchor, ControlAction, play, pause, seek, rate, ControlCommand,
}
use syncstudies.Timeline.{
  is_playing, clamp_to_duration, course, position_at, apply_control, freeze_anchor, apply_action,
}

pub clamp_idem :
    (p : ℤ) (d : Option ℤ) → clamp_to_duration (clamp_to_duration p d) d ≡ clamp_to_duration p d
unfolding clamp_to_duration
clamp_idem p Option.none = ground arith
clamp_idem p (some d) = ground arith

-- Nothing is lost by clamping a nonnegative position before it moves forward.
pub clamp_forward :
    (p q : ℤ) (d : Option ℤ)
    → pos 0 ≤ℤ p
    → pos 0 ≤ℤ q
    → clamp_to_duration (clamp_to_duration p d +ℤ q) d ≡ clamp_to_duration (p +ℤ q) d
unfolding clamp_to_duration ◌+ℤ◌
clamp_forward p q Option.none h k = ground arith
clamp_forward p q (some d) h k = ground arith

pub clamp_mono : (p q : ℤ) (d : Option ℤ) → p ≤ℤ q → clamp_to_duration p d ≤ℤ clamp_to_duration q d
unfolding clamp_to_duration
clamp_mono p q Option.none h = ground arith
clamp_mono p q (some d) h = ground arith

pub position_at_playing :
    (a : VideoAnchor) (t : ℤ)
    → is_playing a.status ≡ true
    → position_at a t ≡ clamp_to_duration (course a t) a.duration_sec
unfolding position_at
position_at_playing a t h = rw h

pub position_at_still :
    (a : VideoAnchor) (t : ℤ)
    → is_playing a.status ≡ false
    → position_at a t ≡ clamp_to_duration a.anchor_position_sec a.duration_sec
unfolding position_at
position_at_still a t h = rw h

pub course_step :
    (a : VideoAnchor) (t t' : ℤ) → course a t' ≡ course a t +ℤ (t' -ℤ t) *ℤ a.playback_rate
unfolding course
course_step a t t' = move_split a.anchor_position_sec a.anchor_server_ms t t' a.playback_rate

-- A position is within the video already.
pub clamp-position_at :
    (a : VideoAnchor) (t : ℤ) → clamp_to_duration (position_at a t) a.duration_sec ≡ position_at a t
unfolding position_at
clamp-position_at a t = elim (Bool-cases (is_playing a.status)) [
  | inl p ↦ rw p (clamp_idem (course a t) a.duration_sec)
  | inr s ↦ rw s (clamp_idem a.anchor_position_sec a.duration_sec)
]

pub position_at-anchored :
    (a : VideoAnchor) (now_ms : ℤ)
    → a.anchor_server_ms ≡ now_ms
    → position_at a now_ms ≡ clamp_to_duration a.anchor_position_sec a.duration_sec
unfolding position_at course
position_at-anchored a now_ms e = elim (Bool-cases (is_playing a.status)) [
  | inl p ↦ rw (p, e, move_none a.anchor_position_sec now_ms a.playback_rate)
  | inr s ↦ rw s
]

-- The anchor that `applyControl` starts from.
abbrev pub bumped : VideoAnchor → ℤ → VideoAnchor
bumped cur now_ms = record cur { last_change_ms = now_ms; revision = cur.revision +ℤ pos 1 }

apply_action-keeps :
    (a : ControlAction) (cur : VideoAnchor) (cmd : ControlCommand) (now_ms : ℤ)
    → a ≢ seek
    → position_at (apply_action a (bumped cur now_ms) cur cmd now_ms) now_ms
      ≡ position_at cur now_ms
unfolding apply_action
apply_action-keeps play cur cmd now_ms h =
    position_at-anchored (apply_action play (bumped cur now_ms) cur cmd now_ms) now_ms refl
    ∙ resumed
  where
    resumed :
        clamp_to_duration
          (if is_playing cur.status then position_at cur now_ms else cur.anchor_position_sec)
          cur.duration_sec
        ≡ position_at cur now_ms
    resumed = elim (Bool-cases (is_playing cur.status)) [
      | inl p ↦ rw p (clamp-position_at cur now_ms)
      | inr s ↦ rw (s, position_at_still cur now_ms s)
    ]
apply_action-keeps pause cur cmd now_ms h =
    position_at-anchored (apply_action pause (bumped cur now_ms) cur cmd now_ms) now_ms refl
    ∙ clamp-position_at cur now_ms
apply_action-keeps seek cur cmd now_ms h = absurd (h refl)
apply_action-keeps rate cur cmd now_ms h =
    position_at-anchored (apply_action rate (bumped cur now_ms) cur cmd now_ms) now_ms refl
    ∙ clamp-position_at cur now_ms

-- No control but a seek moves the room at the moment at which it is applied.
pub position_at-apply_control :
    (cur : VideoAnchor) (cmd : ControlCommand) (now_ms : ℤ)
    → cmd.action ≢ seek
    → position_at (apply_control cur cmd now_ms) now_ms ≡ position_at cur now_ms
unfolding apply_control
position_at-apply_control cur cmd now_ms h = apply_action-keeps cmd.action cur cmd now_ms h

-- A pause freezes the room where the server had it: at every later time it is still there.
pub position_at-pause :
    (cur : VideoAnchor) (cmd : ControlCommand) (now_ms later_ms : ℤ)
    → cmd.action ≡ pause
    → position_at (apply_control cur cmd now_ms) later_ms ≡ position_at cur now_ms
unfolding apply_control position_at
position_at-pause cur cmd now_ms later_ms e = rw e (clamp-position_at cur now_ms)

freeze_anchor-still :
    (a : VideoAnchor) (now_ms : ℤ) → is_playing (freeze_anchor a now_ms).status ≡ false
unfolding freeze_anchor
freeze_anchor-still a now_ms = ground arith

-- A frozen anchor does not play, and at every later time it stands where the live one stood when
-- it was frozen.
pub position_at-freeze_anchor :
    (a : VideoAnchor) (now_ms later_ms : ℤ)
    → (is_playing (freeze_anchor a now_ms).status ≡ false)
      × (position_at (freeze_anchor a now_ms) later_ms ≡ position_at a now_ms)
position_at-freeze_anchor a now_ms later_ms = (
  freeze_anchor-still a now_ms,
  position_at_still (freeze_anchor a now_ms) later_ms (freeze_anchor-still a now_ms)
      ∙ unfold freeze_anchor in clamp-position_at a now_ms,
)

-- While a room plays at a nonnegative rate, its position never falls as time passes.
pub position_at_mono :
    (a : VideoAnchor) (t t' : ℤ)
    → pos 0 ≤ℤ a.playback_rate
    → t ≤ℤ t'
    → position_at a t ≤ℤ position_at a t'
position_at_mono a t t' h k = elim (Bool-cases (is_playing a.status)) [
  | inl p ↦
      let step : course a t' ≡ course a t +ℤ (t' -ℤ t) *ℤ a.playback_rate = course_step a t t' in
      let ahead = *ℤ_nonneg (t' -ℤ t) a.playback_rate (omega int_laws) h in
      rw (position_at_playing a t p, position_at_playing a t' p)
        (clamp_mono (course a t) (course a t') a.duration_sec (rw step (omega int_laws)))
  | inr s ↦ rw (position_at_still a t s, position_at_still a t' s) (omega arith)
]
