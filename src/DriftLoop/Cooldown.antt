-- ===== src/DriftLoop/Cooldown.antt =====
-- How long the loop waits from one hard seek to the next, and how the wait grows.
use syncstudies.Base.{
  suc, ◌*◌, ◌≤◌, ◌≡◌, refl, ap, ◌∙◌, arith, Bool, false, Bool-cases, inl, inr, List, [], ◌∷◌, ◌++◌,
  append-nil, if◌then◌else◌, leb, min, ℕ,
}
use syncstudies.Base.Int.{ℤ, pos, ◌+ℤ◌}
use syncstudies.DriftLoop.Loop.{
  Loop, Reading, fresh_loop, hard_seek_at, magnitude, max_backoff, max_consecutive_failures,
  min_hard_seek_gap_ms, play_now, seek_to,
}
use syncstudies.DriftLoop.Moves.{clamp_to_video, hard_seek_to, set_drift_state}
use syncstudies.DriftLoop.Tick.{tick, jump, count_failure, aim, gap_passed, bypass_cooldown}
use syncstudies.DriftLoop.History.{Event, run}
use syncstudies.DriftLoop.Bounds.{IsSound}
use syncstudies.DriftLoop.Sound.{run-IsSound}
use syncstudies.DriftLoop.Watching.{
  Watches, drift, expected, prepared, seen, unstalled, tick-follow,
}
use syncstudies.DriftLoop.Jumps.{
  KeepsAim, KeepsAim-prepared, follow-jump, hard_target, seeks, seeks-seek, seeks-quiet,
}

-- Five seconds times the backoff have passed since the last hard seek, if there was one.
abbrev pub is_due : Loop → Reading → Bool
is_due l r = gap_passed l.last_hard_seek r.mono (pos (min_hard_seek_gap_ms * l.backoff))

-- The backoff after a tick that came too early: doubled from the third failure in a row on, up to
-- eight.
abbrev pub doubled : Loop → ℕ
doubled l =
    if leb max_consecutive_failures (suc l.failures)
    then min max_backoff (l.backoff * 2)
    else l.backoff

module _ (l : Loop) (r : Reading) (e d : ℤ) where
  abbrev Cools : Loop → Type 0
  Cools l' =
      (seeks l'.done
        ≡ seeks l.done ++ (if is_due l r then clamp_to_video (aim l e) r.anchor ∷ [] else []))
      × (l'.backoff ≡ (if is_due l r then l.backoff else doubled l))

  jump-Cools : Cools (jump l r e d false)
  unfolding jump set_drift_state hard_seek_to count_failure
  jump-Cools = elim (Bool-cases (is_due l r)) [
    | inl due ↦ ground (
      arith,
      seeks-seek l.done (clamp_to_video (aim l e) r.anchor),
      seeks-quiet (l.done ++ seek_to (clamp_to_video (aim l e) r.anchor) ∷ []) play_now refl,
    )
    | inr early ↦ ground (arith, append-nil (seeks l.done))
  ]

cooled-tick :
    (l : Loop) (r : Reading)
    → Watches l r
    → hard_seek_at ≤ magnitude (drift r)
    → bypass_cooldown (unstalled l r) r ≡ false
    → (seeks (tick l r).done ≡ seeks l.done ++ (if is_due l r then hard_target l r ∷ [] else []))
      × ((tick l r).backoff ≡ (if is_due l r then l.backoff else doubled l))
unfolding aim
cooled-tick l r w far scheduled =
    let p : Loop = prepared l r in
    let k : KeepsAim (seen l r) p = KeepsAim-prepared l r in
    let tried : tick l r ≡ jump p r (expected r) (drift r) false =
      tick-follow l r w
      ∙ follow-jump p r (expected r) (drift r) (bypass_cooldown (unstalled l r) r) far
      ∙ ap (jump p r (expected r) (drift r)) scheduled in
    let cools = jump-Cools p r (expected r) (drift r) in
    let due : is_due p r ≡ is_due l r =
      λ i. gap_passed (k.last i) r.mono (pos (min_hard_seek_gap_ms * k.backoff i)) in
    (
      ap (λ u. seeks u.done) tried ∙ cools.0 ∙ λ i.
          k.sought i
          ++ (if due i
              then clamp_to_video (expected r +ℤ (k.latency i).value) r.anchor ∷ []
              else []),
      ap (λ u. u.backoff) tried ∙ cools.1 ∙ λ i.
          if due i
          then k.backoff i
          else if leb max_consecutive_failures (suc (k.failures i))
          then min max_backoff (k.backoff i * 2)
          else k.backoff i,
    )

-- The cooldown of the hard band. Whatever happened to a controller before, a fatal error of the
-- player too, a tick on its schedule that finds a playing player two to thirty seconds away from a playing room sends the player to it
-- exactly if five seconds times the backoff have passed since the last hard seek, and otherwise
-- sends it nowhere and, from the third failure in a row on, doubles the backoff up to eight. The
-- backoff lies between one and eight, and the estimate of a seek's time between 80 and 1200 ms. The
-- tick has no allowance to seek at once: none for a join, after a stall, or from its caller. The
-- loop runs, is not paused by the user, is past the blind window and did not sleep; the clock is
-- ready and not under review, the transport is up, and the player can be measured.
pub tick-cooldown :
    (es : List Event) (r : Reading)
    → Watches (run fresh_loop es) r
    → hard_seek_at ≤ magnitude (drift r)
    → bypass_cooldown (unstalled (run fresh_loop es) r) r ≡ false
    → ((seeks (tick (run fresh_loop es) r).done
          ≡ seeks (run fresh_loop es).done
            ++ (if is_due (run fresh_loop es) r
                then hard_target (run fresh_loop es) r ∷ []
                else []))
        × ((tick (run fresh_loop es) r).backoff ≡ (
            if is_due (run fresh_loop es) r
            then (run fresh_loop es).backoff
            else doubled (run fresh_loop es))))
      × IsSound (run fresh_loop es)
tick-cooldown es r w far scheduled =
    (cooled-tick (run fresh_loop es) r w far scheduled, run-IsSound es)
