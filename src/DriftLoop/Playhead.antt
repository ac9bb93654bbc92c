-- ===== src/DriftLoop/Playhead.antt =====
-- apps/web/lib/sync/controller.ts: the playhead that the page shows, and the preview of a drag. What
-- the player, the clock and the store answer is a `Look`.
use syncstudies.Base.{ℕ, ◌&&◌, Option, none, some, if◌then◌else◌}
use syncstudies.Base.Int.{ℤ, pos, ◌+ℤ◌, ◌-ℤ◌, ◌*ℤ◌, ltb_ℤ, eq_ℤ, max_ℤ, min_ℤ}
use syncstudies.Timeline.{VideoAnchor, clamp_to_duration}
use syncstudies.DriftLoop.Loop.{PlayerState, plays, or_normal}
use syncstudies.DriftLoop.Moves.{clamp_to_video}

abbrev pub extrapolation_max : ℤ
extrapolation_max = pos 50_000

abbrev pub scrub_preview_ttl_ms : ℕ
scrub_preview_ttl_ms = 2_000

abbrev pub one_second : ℤ
one_second = pos 100_000

pub record PlayheadSample : Type 0 where
  pub position : ℤ
  pub at_mono : ℤ

pub record Playhead : Type 0 where
  pub scrub_preview : Option ℤ
  pub scrub_until : ℤ
  pub sample : Option PlayheadSample
  pub last_playhead : Option ℤ

pub record Look : Type 0 where
  pub mono : ℤ
  pub raw : ℤ
  pub player : PlayerState
  pub anchor : VideoAnchor

abbrev pub resampled : Option PlayheadSample → Look → PlayheadSample
resampled none k = record { position = k.raw; at_mono = k.mono }
resampled (some s) k =
    if eq_ℤ s.position k.raw then s else record { position = k.raw; at_mono = k.mono }

unfoldable pub extrapolated : PlayheadSample → Look → ℤ
extrapolated s k =
    clamp_to_duration
      (s.position
        +ℤ min_ℤ extrapolation_max
            (max_ℤ (pos 0) (k.mono -ℤ s.at_mono) *ℤ or_normal k.anchor.playback_rate))
      k.anchor.duration_sec

-- Not backwards by less than a second.
abbrev pub steadied : Option ℤ → ℤ → ℤ
steadied none estimate = estimate
steadied (some previous) estimate =
    if ltb_ℤ estimate previous && ltb_ℤ (previous -ℤ estimate) one_second
    then previous
    else estimate

abbrev pub smoothed : Playhead → Look → ℤ × Playhead
smoothed p k =
    let s : PlayheadSample = resampled p.sample k in
    let shown : ℤ = if plays k.player then steadied p.last_playhead (extrapolated s k) else k.raw in
    (shown, record p { sample = some s; last_playhead = some shown })

abbrev pub unless_previewed : Playhead → Look → Option ℤ → ℤ × Playhead
unless_previewed p k none = smoothed p k
unless_previewed p k (some preview) =
    if ltb_ℤ k.mono p.scrub_until then (preview, p) else smoothed p k

-- `getPlayheadSec`
unfoldable pub get_playhead : Playhead → Look → ℤ × Playhead
get_playhead p k = unless_previewed p k p.scrub_preview

-- What a move of the drag sets, besides the seek that it may send.
unfoldable pub preview_seek : Playhead → ℤ → VideoAnchor → ℤ → Playhead
preview_seek p position anchor mono = record p {
  scrub_preview = some (clamp_to_video position anchor);
  scrub_until = mono +ℤ pos scrub_preview_ttl_ms;
}

unfoldable pub commit_seek : Playhead → Playhead
commit_seek p = record p { scrub_preview = none; scrub_until = pos 0 }

unfoldable pub forget_playhead : Playhead → Playhead
forget_playhead p = record p { sample = none; last_playhead = none }
