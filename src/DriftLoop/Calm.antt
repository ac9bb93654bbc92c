-- ===== src/DriftLoop/Calm.antt =====
-- A client that is in step calms down.
use syncstudies.Base.{
  suc, ◌+◌, ◌≤◌, ◌<◌, ◌≡◌, refl, ap, ◌∙◌, arith, Bool, List, [], ◌∷◌, Option, none, some, length,
}
use syncstudies.Base.Int.{ℤ}
use syncstudies.Timeline.{VideoAnchor}
use syncstudies.ClientStore.Data.{good}
use syncstudies.DriftLoop.Loop.{
  Loop, Reading, magnitude, dead_zone, quality_of, quality_recovery_ticks,
}
use syncstudies.DriftLoop.Moves.{note_calm, set_drift_state, end_stall}
use syncstudies.DriftLoop.Tick.{tick, run_ticks, follow, bypass_cooldown, record_drift_sample}
use syncstudies.DriftLoop.Quiet.{player_calls, player_calls-end_stall}
use syncstudies.DriftLoop.Watching.{
  Watches, expected, drift, seen, unstalled, prepared, tick-follow,
}

-- Each tick watches, and measures the player within the dead zone.
abbrev pub AllCalm : Loop → List Reading → Type 0
AllCalm l [] = Unit
AllCalm l (r ∷ rs) = Watches l r × (magnitude (drift r) < dead_zone) × AllCalm (tick l r) rs

-- What a calm tick leaves.
record IsCalmer (l l' : Loop) : Type 0 where
  calls : player_calls l' ≡ player_calls l
  failures : l'.failures ≡ 0
  calm : l'.calm_ticks ≡ suc l.calm_ticks
  backoff : quality_recovery_ticks ≤ l'.calm_ticks → l'.backoff ≡ 1

pub follow-calm :
    (l : Loop) (r : Reading) (e d : ℤ) (b : Bool)
    → magnitude d < dead_zone
    → follow l r e d b ≡ note_calm l d
unfolding follow
follow-calm l r e d b h = ground arith

end_stall-calm_ticks :
    (l : Loop) (since : Option ℤ) (a : VideoAnchor) (p : ℤ)
    → (end_stall l since a p).calm_ticks ≡ l.calm_ticks
end_stall-calm_ticks l none a p = refl
end_stall-calm_ticks l (some t) a p = ground arith

player_calls-prepared : (l : Loop) (r : Reading) → player_calls (prepared l r) ≡ player_calls l
unfolding player_calls record_drift_sample
player_calls-prepared l r = player_calls-end_stall (seen l r) l.buffering_since r.anchor r.position

calm_ticks-prepared : (l : Loop) (r : Reading) → (prepared l r).calm_ticks ≡ l.calm_ticks
unfolding record_drift_sample
calm_ticks-prepared l r = end_stall-calm_ticks (seen l r) l.buffering_since r.anchor r.position

note_calm-IsCalmer : (l : Loop) (d : ℤ) → IsCalmer l (note_calm l d)
unfolding note_calm set_drift_state player_calls
note_calm-IsCalmer l d = ground arith

quality-good : (l : Loop) → l.failures ≡ 0 → l.backoff ≡ 1 → quality_of l ≡ good
unfolding quality_of
quality-good l f b = ground arith

tick-IsCalmer :
    (l : Loop) (r : Reading) → Watches l r → magnitude (drift r) < dead_zone → IsCalmer l (tick l r)
tick-IsCalmer l r w near =
    rw
      (
        tick-follow l r w,
        follow-calm (prepared l r) r (expected r) (drift r) (bypass_cooldown (unstalled l r) r)
            near,
      )
      (record {
        calls = noted.calls ∙ player_calls-prepared l r;
        failures = noted.failures;
        calm = noted.calm ∙ ap suc (calm_ticks-prepared l r);
        backoff = noted.backoff;
      })
  where
    noted : IsCalmer (prepared l r) (note_calm (prepared l r) (drift r))
    noted = note_calm-IsCalmer (prepared l r) (drift r)

-- After `n` calm ticks more than five have been counted.
calm_run :
    (l : Loop) (rs : List Reading)
    → AllCalm l rs
    → quality_recovery_ticks ≤ l.calm_ticks + length rs
    → 0 < length rs
    → (quality_of (run_ticks l rs) ≡ good) × (player_calls (run_ticks l rs) ≡ player_calls l)
unfolding run_ticks
calm_run l [] h enough any = absurd (omega arith)
calm_run l (r ∷ []) (w, near, h) enough any =
    let c : IsCalmer l (tick l r) = tick-IsCalmer l r w near in
    (quality-good (tick l r) c.failures (c.backoff (omega (arith, c.calm))), c.calls)
calm_run l (r ∷ r' ∷ rs) (w, near, h) enough any =
    let c : IsCalmer l (tick l r) = tick-IsCalmer l r w near in
    let rest = calm_run (tick l r) (r' ∷ rs) h (omega (arith, c.calm)) (omega arith) in
    (rest.0, rest.1 ∙ c.calls)

-- A client that is in step calms down: after six ticks in a row, or more, that watch a playing
-- player within the dead zone, its quality is good again, however often it had failed before; and
-- none of them asks anything of the player.
pub run_ticks-calm :
    (l : Loop) (rs : List Reading)
    → AllCalm l rs
    → 6 ≤ length rs
    → (quality_of (run_ticks l rs) ≡ good) × (player_calls (run_ticks l rs) ≡ player_calls l)
run_ticks-calm l rs h six = calm_run l rs h (omega arith) (omega arith)
