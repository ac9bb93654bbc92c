-- ===== src/ServerClock/Examples.antt =====
-- Tests of the estimate of apps/web/lib/sync/clock.ts, at concrete pings.
use syncstudies.Base.{inl, ◌≡◌, refl, arith, true, List, [], ◌∷◌, Option, none, some}
use syncstudies.Base.Int.{pos, ◌+ℤ◌, ◌-ℤ◌, ◌*ℤ◌}
use syncstudies.ServerClock.{
  Clock, Sample, collect, fresh_samples, initial_clock, median, best_samples, syncs,
}
use syncstudies.ServerClock.Truth.{IsNear, syncs-IsNear}
use syncstudies.ServerClock.Step.{AreApart, collect-keeps_step}

-- The server is ten seconds ahead; three pings, one of them lost and one slow and lopsided.
abbrev answers : List (Option Sample)
answers =
    some (record { offset = pos 10_000_000; rtt = pos 40 })
    ∷ none
    ∷ some (record { offset = pos 10_200_000; rtt = pos 600 })
    ∷ []

syncs_test : (syncs initial_clock (answers ∷ [])).offset ≡ pos 10_000_000
unfolding syncs collect fresh_samples best_samples median
syncs_test = refl

syncs-IsNear_example : IsNear (pos 10_000_000) (syncs initial_clock (answers ∷ answers ∷ [])).offset
unfolding syncs collect fresh_samples ◌-ℤ◌ ◌+ℤ◌ ◌*ℤ◌
syncs-IsNear_example =
    syncs-IsNear (pos 10_000_000) initial_clock (answers ∷ answers ∷ []) (λ e. absurd (cc))
      (
        ((omega arith, omega arith), (tt, ((omega arith, omega arith), tt))),
        (((omega arith, omega arith), (tt, ((omega arith, omega arith), tt))), tt),
      )
      refl

-- The browser's clock has stepped back by a minute.
abbrev stepped : Clock
stepped = record { offset = pos 70_000_000; one_way = pos 20_000; ready = true }

abbrev right : Sample
right = record { offset = pos 10_000_000; rtt = pos 40 }

collect-keeps_step_example :
    AreApart
      (pos 34_000_000)
      (pos 10_000_000)
      (collect stepped (some right ∷ some right ∷ [])).offset
unfolding fresh_samples ◌+ℤ◌
collect-keeps_step_example =
    collect-keeps_step stepped (some right ∷ some right ∷ []) right (right ∷ []) (pos 10_000_000)
      refl refl ((omega arith, omega arith), ((omega arith, omega arith), tt)) (inl (omega arith))
