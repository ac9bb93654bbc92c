-- ===== src/DriftLoop/Jumps.antt =====
-- The loop does not give up, and its seeks land on the room.
use syncstudies.Base.{
  ℕ, ◌*◌, ◌≤◌, ◌≡◌, refl, sym, ap, ◌∙◌, arith, Bool, true, false, List, [], ◌∷◌, ◌++◌, Option, none,
  some, append_assoc, append-nil,
}
use syncstudies.Base.Int.{
  ℤ, pos, ◌+ℤ◌, ◌-ℤ◌, ◌*ℤ◌, add_sub_self, *ℤ_parts, -ℤ_parts, +ℤ_parts, eq_of_parts,
}
use syncstudies.Timeline.Position.{position_at_playing, course_step}
use syncstudies.Timeline.{VideoAnchor, is_playing, clamp_to_duration, course, position_at}
use syncstudies.DriftLoop.Loop.{
  Loop, Reading, PlayerCall, seek_to, report_buffering, play_now, magnitude, hard_seek_at,
  max_backoff, fresh_loop,
}
use syncstudies.DriftLoop.Moves.{set_drift_state, hard_seek_to, clamp_to_video, end_stall}
use syncstudies.DriftLoop.Tick.{
  tick, follow, jump, aim, gap_passed, bypass_cooldown, record_drift_sample,
}
use syncstudies.DriftLoop.History.{Event, run}
use syncstudies.DriftLoop.Sound.{run-IsSound}
use syncstudies.DriftLoop.Watching.{
  Watches, expected, drift, seen, unstalled, prepared, estimated, tick-follow,
}

abbrev pub seek_of : PlayerCall → List ℤ
seek_of (seek_to p) = p ∷ []
seek_of _ = []

-- Where the player was sent, in order.
unfoldable pub seeks : List PlayerCall → List ℤ
seeks [] = []
seeks (c ∷ cs) = seek_of c ++ seeks cs

seeks-append : (cs ds : List PlayerCall) → seeks (cs ++ ds) ≡ seeks cs ++ seeks ds
unfolding seeks
seeks-append [] ds = refl
seeks-append (c ∷ cs) ds =
    ap (λ xs. seek_of c ++ xs) (seeks-append cs ds)
    ∙ sym (append_assoc (seek_of c) (seeks cs) (seeks ds))

-- A call that is no seek.
pub seeks-quiet :
    (cs : List PlayerCall) (c : PlayerCall) → seek_of c ≡ [] → seeks (cs ++ c ∷ []) ≡ seeks cs
unfolding seeks
seeks-quiet cs c h = seeks-append cs (c ∷ []) ∙ rw h (append-nil (seeks cs))

pub seeks-seek : (cs : List PlayerCall) (p : ℤ) → seeks (cs ++ seek_to p ∷ []) ≡ seeks cs ++ p ∷ []
unfolding seeks
seeks-seek cs p = seeks-append cs (seek_to p ∷ [])

-- The cooldown at its longest.
abbrev pub longest_gap_ms : ℤ
longest_gap_ms = pos 40_000

gap_passed-longest :
    (last : Option ℤ) (mono : ℤ) (n : ℕ)
    → n ≤ max_backoff
    → gap_passed last mono longest_gap_ms ≡ true
    → gap_passed last mono (pos (5_000 * n)) ≡ true
gap_passed-longest none mono n h gap = refl
gap_passed-longest (some t) mono n h gap = ground arith

jump-seeks :
    (l : Loop) (r : Reading) (e d : ℤ) (b : Bool)
    → l.backoff ≤ max_backoff
    → gap_passed l.last_hard_seek r.mono longest_gap_ms ≡ true
    → seeks (jump l r e d b).done ≡ seeks l.done ++ clamp_to_video (aim l e) r.anchor ∷ []
unfolding jump set_drift_state hard_seek_to
jump-seeks l r e d b backed gap =
    let target : ℤ = clamp_to_video (aim l e) r.anchor in
    ground (
      arith,
      gap_passed-longest l.last_hard_seek r.mono l.backoff backed gap,
      seeks-seek l.done target,
      seeks-quiet (l.done ++ seek_to target ∷ []) play_now refl,
    )

pub follow-jump :
    (l : Loop) (r : Reading) (e d : ℤ) (b : Bool)
    → hard_seek_at ≤ magnitude d
    → follow l r e d b ≡ jump l r e d b
unfolding follow
follow-jump l r e d b h = ground arith

-- A stall that ends leaves what a hard seek depends on.
pub record KeepsAim (l l' : Loop) : Type 0 where
  pub sought : seeks l'.done ≡ seeks l.done
  pub latency : l'.seek_latency ≡ l.seek_latency
  pub last : l'.last_hard_seek ≡ l.last_hard_seek
  pub backoff : l'.backoff ≡ l.backoff
  pub failures : l'.failures ≡ l.failures

KeepsAim-end_stall :
    (l : Loop) (since : Option ℤ) (a : VideoAnchor) (p : ℤ) → KeepsAim l (end_stall l since a p)
KeepsAim-end_stall l none a p = record {
  sought = refl;
  latency = refl;
  last = refl;
  backoff = refl;
  failures = refl;
}
KeepsAim-end_stall l (some t) a p =
    ground (arith, seeks-quiet l.done (report_buffering false (clamp_to_video p a)) refl)

pub KeepsAim-prepared : (l : Loop) (r : Reading) → KeepsAim (seen l r) (prepared l r)
unfolding record_drift_sample
KeepsAim-prepared l r =
    let k : KeepsAim (seen l r) (end_stall (seen l r) l.buffering_since r.anchor r.position) =
      KeepsAim-end_stall (seen l r) l.buffering_since r.anchor r.position in
    record {
      sought = k.sought;
      latency = k.latency;
      last = k.last;
      backoff = k.backoff;
      failures = k.failures;
    }

-- Where a hard seek at this reading goes.
abbrev pub hard_target : Loop → Reading → ℤ
hard_target l r = clamp_to_video (aim (seen l r) (expected r)) r.anchor

sought-tick :
    (l : Loop) (r : Reading)
    → l.backoff ≤ max_backoff
    → Watches l r
    → hard_seek_at ≤ magnitude (drift r)
    → gap_passed l.last_hard_seek r.mono longest_gap_ms ≡ true
    → seeks (tick l r).done ≡ seeks l.done ++ hard_target l r ∷ []
unfolding aim
sought-tick l r backed w far gap =
    let p : Loop = prepared l r in
    let k : KeepsAim (seen l r) p = KeepsAim-prepared l r in
    let b : Bool = bypass_cooldown (unstalled l r) r in
    ap (λ u. seeks u.done) (tick-follow l r w ∙ follow-jump p r (expected r) (drift r) b far)
    ∙ jump-seeks p r (expected r) (drift r) b (omega (arith, k.backoff))
        (ap (λ t. gap_passed t r.mono longest_gap_ms) k.last ∙ gap)
    ∙ λ i. k.sought i ++ clamp_to_video (expected r +ℤ (k.latency i).value) r.anchor ∷ []

-- The loop backs off and does not give up: whatever happened to a controller before, a tick that
-- finds a playing player two to thirty seconds away from a playing room, forty seconds or more after
-- the last hard seek, sends the player once, to where the room is and as much further as the
-- estimate of a seek's time says, within the video. So it does also after a fatal error of the
-- player. The loop runs, is not paused by the user, is past the blind window and did not sleep; the
-- clock is ready and not under review, the transport is up, and the player can be measured.
pub tick-seeks :
    (es : List Event) (r : Reading)
    → Watches (run fresh_loop es) r
    → hard_seek_at ≤ magnitude (drift r)
    → gap_passed (run fresh_loop es).last_hard_seek r.mono longest_gap_ms ≡ true
    → seeks (tick (run fresh_loop es) r).done
      ≡ seeks (run fresh_loop es).done ++ hard_target (run fresh_loop es) r ∷ []
tick-seeks es r w far gap = sought-tick (run fresh_loop es) r (run-IsSound es).returns w far gap

-- A position that lies within the video.
abbrev pub LiesIn : VideoAnchor → ℤ → Type 0
LiesIn a p = clamp_to_duration p a.duration_sec ≡ p

position_at-LiesIn :
    (a : VideoAnchor) (t : ℤ)
    → is_playing a.status ≡ true
    → LiesIn a (course a t)
    → position_at a t ≡ course a t
position_at-LiesIn a t plays h = position_at_playing a t plays ∙ h

rates_apart : (c r : ℤ) (n : ℕ) → c +ℤ pos (n * 100) -ℤ (c +ℤ pos n *ℤ r) ≡ pos n *ℤ (pos 100 -ℤ r)
rates_apart c r n = omega (
  arith,
  *ℤ_parts (pos n) r,
  *ℤ_parts (pos n) (pos 100 -ℤ r),
  ap (λ (m : ℕ). n * m) (-ℤ_parts (pos 100) r),
  -ℤ_parts (c +ℤ pos (n * 100)) (c +ℤ pos n *ℤ r),
  +ℤ_parts c (pos (n * 100)),
  +ℤ_parts c (pos n *ℤ r),
  eq_of_parts,
)

-- Where a hard seek lands: if it takes the player as long as the loop estimates, the player is then
-- ahead of the room by that time times what the rate is short of one. So it lands on the room at the
-- normal rate, and at twice the speed as far behind as a seek takes. Neither the room nor the target
-- runs out of the video meanwhile.
pub hard_target-lands :
    (l : Loop) (r : Reading) (latency_ms : ℕ)
    → (estimated l r).value ≡ pos (latency_ms * 100)
    → is_playing r.anchor.status ≡ true
    → LiesIn r.anchor (course r.anchor r.server_now)
    → LiesIn r.anchor (course r.anchor (r.server_now +ℤ pos latency_ms))
    → clamp_to_video (course r.anchor r.server_now +ℤ pos (latency_ms * 100)) r.anchor
      ≡ course r.anchor r.server_now +ℤ pos (latency_ms * 100)
    → hard_target l r -ℤ position_at r.anchor (r.server_now +ℤ pos latency_ms)
      ≡ pos latency_ms *ℤ (pos 100 -ℤ r.anchor.playback_rate)
unfolding aim
hard_target-lands l r n e plays now then_ reach =
    rw
      (
        position_at-LiesIn r.anchor (r.server_now +ℤ pos n) plays then_,
        position_at-LiesIn r.anchor r.server_now plays now,
        e,
        reach,
        course_step r.anchor r.server_now (r.server_now +ℤ pos n),
        add_sub_self r.server_now (pos n),
      )
      (rates_apart (course r.anchor r.server_now) r.anchor.playback_rate n)
