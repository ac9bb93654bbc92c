-- ===== src/WriteBehind/Examples.antt =====
-- The queue on concrete histories, and the theorems applied there.
use mathlib.Core.List.{Sublist}
use syncstudies.Base.{ℕ, ◌+◌, ◌≤◌, ◌≡◌, refl, Bool, true, false, ◌&&◌, List, [], ◌∷◌, arith, length}
use syncstudies.WriteBehind.{
  WriteBehindOptions, WriteEvent, pushes, answers, finishes, is_idle, is_empty, new_queue, stop,
  run, drain, step, push, overflow, flush, arm, on_answer, on_failed, on_finally,
}
use syncstudies.WriteBehind.Follows.{aloft, carried}
use syncstudies.WriteBehind.Order.{accepted, run-order}
use syncstudies.WriteBehind.Sound.{is_moving}
use syncstudies.WriteBehind.Bounds.{run-bounds}
use syncstudies.WriteBehind.Drain.{stop-drain}

abbrev small : WriteBehindOptions
small = record { max_batch = 2; max_queue = 3; max_attempts = 2 }

-- Two messages go out and come back, while a third and a fourth arrive; the first is then too many.
abbrev blip : List (WriteEvent ℕ)
blip = pushes 1 ∷ pushes 2 ∷ pushes 3 ∷ pushes 4 ∷ answers false ∷ finishes ∷ pushes 5 ∷ []

-- The oldest goes, and the next batch is on its way.
blip_drops : (run small new_queue blip).dropped ≡ 2
unfolding run step push overflow flush arm on_answer on_failed on_finally
blip_drops = refl

blip_in_order : carried (run small new_queue blip) ≡ 3 ∷ 4 ∷ 5 ∷ []
unfolding run step push overflow flush arm on_answer on_failed on_finally
blip_in_order = refl

run-order_example :
    Sublist (carried (run small new_queue blip)) (accepted false blip)
    × (length (carried (run small new_queue blip)) + (run small new_queue blip).dropped ≡ 5)
run-order_example = run-order small blip

run-bounds_example :
    let w = run small new_queue blip in
    (length (aloft w.in_flight) + length w.queue ≤ 5) × (is_moving w ≡ true)
run-bounds_example = run-bounds small blip (omega arith)

-- Twelve answers, the first of them refusals.
abbrev recovering : List Bool
recovering =
    false ∷ false ∷ true ∷ true ∷ true ∷ true ∷ true ∷ true ∷ true ∷ true ∷ true ∷ true ∷ []

stop-drain_example :
    let w = drain small (stop (run small new_queue blip)) recovering in
    ((is_empty w.queue && is_idle w.in_flight) ≡ true)
    × Sublist w.written (accepted false blip)
    × (length w.written + w.dropped ≡ length (accepted false blip))
stop-drain_example = stop-drain small blip recovering (omega arith) (omega arith) (omega arith)
