-- ===== src/WriteBehind/Bounds.antt =====
-- How large a queue may grow, and that no row is ever left waiting without something to move it.
use syncstudies.Base.{ℕ, ◌+◌, ◌≤◌, ◌<◌, ◌≡◌, refl, true, List, [], ◌∷◌, arith, length}
use syncstudies.WriteBehind.Follows.{aloft}
use syncstudies.WriteBehind.{
  WriteBehindOptions, Flight, idle, writing, settled, WriteBehind, WriteEvent, new_queue, step, run,
}
use syncstudies.WriteBehind.Sound.{is_moving, FlightFits, IsSound, step-IsSound}

module _ {T : Type 0} where
  run-IsSound :
      (opts : WriteBehindOptions) (w : WriteBehind T) (es : List (WriteEvent T))
      → IsSound opts w
      → IsSound opts (run opts w es)
  unfolding run
  run-IsSound opts w [] s = s
  run-IsSound opts w (e ∷ es) s = run-IsSound opts (step opts w e) es (step-IsSound opts w e s)

  pub run_new-IsSound :
      (opts : WriteBehindOptions) (es : List (WriteEvent T))
      → 0 < opts.max_attempts
      → IsSound opts (run opts new_queue es)
  run_new-IsSound opts es h =
      run-IsSound opts new_queue es (record { fits = omega arith; tries = h; moving = refl })

  pending_fits :
      (opts : WriteBehindOptions) (n : ℕ) (f : Flight T)
      → FlightFits opts n f
      → length (aloft f) + n ≤ opts.max_queue + opts.max_batch
  pending_fits opts n idle h = omega arith
  pending_fits opts n (writing batch) (h, k) = omega arith
  pending_fits opts n settled h = omega arith

  -- After any history a queue and the batch that is being written hold no more than `maxQueue` and
  -- `maxBatch` rows together; and unless the queue is empty or stopped, its timer is set or a write
  -- is out. A batch has at least one try.
  pub run-bounds :
      (opts : WriteBehindOptions) (es : List (WriteEvent T))
      → 0 < opts.max_attempts
      → let w = run opts new_queue es in
        (length (aloft w.in_flight) + length w.queue ≤ opts.max_queue + opts.max_batch)
        × (is_moving w ≡ true)
  run-bounds opts es h =
      let s : IsSound opts (run opts new_queue es) = run_new-IsSound opts es h in
      (
        pending_fits opts (length (run opts new_queue es).queue) (run opts new_queue es).in_flight
            s.fits,
        s.moving,
      )
