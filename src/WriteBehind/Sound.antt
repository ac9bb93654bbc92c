-- ===== src/WriteBehind/Sound.antt =====
-- The invariant of a queue: what comes back fits, tries are left, and something moves it on.
use syncstudies.Base.{
  ℕ, suc, ◌+◌, ◌-◌, ◌≤◌, ◌<◌, ◌≡◌, refl, Bool, true, false, not, ◌&&◌, ◌||◌, [], ◌∷◌, ◌++◌, arith,
  if_either, ltb, leb, length, length-append, length-drop, length-take,
}
use syncstudies.WriteBehind.{
  WriteBehindOptions, Flight, idle, writing, settled, WriteBehind, WriteEvent, pushes, fires,
  answers, finishes, drains, stops, is_idle, is_empty, arm, flush, overflow, push, on_timer,
  on_written, on_failed, answer_at, on_answer, finally_at, on_finally, stop, step,
}

module _ {T : Type 0} where
  -- Something will move the queue on: it is empty or stopped, its timer is set, or a write is out.
  abbrev pub is_moving : WriteBehind T → Bool
  is_moving w = is_empty w.queue || w.stopped || w.timer || not (is_idle w.in_flight)

  -- While a batch is out the queue leaves room for it to come back.
  abbrev pub FlightFits : WriteBehindOptions → ℕ → Flight T → Type 0
  FlightFits opts n idle = n ≤ opts.max_queue + opts.max_batch
  FlightFits opts n settled = n ≤ opts.max_queue + opts.max_batch
  FlightFits opts n (writing batch) = (length batch ≤ opts.max_batch) × (n ≤ opts.max_queue)

  pub record IsSound (opts : WriteBehindOptions) (w : WriteBehind T) : Type 0 where
    pub fits : FlightFits opts (length w.queue) w.in_flight
    pub tries : w.attempts < opts.max_attempts
    pub moving : is_moving w ≡ true

  fits_shrink :
      (opts : WriteBehindOptions) (n m : ℕ) (f : Flight T)
      → m ≤ n
      → FlightFits opts n f
      → FlightFits opts m f
  fits_shrink opts n m idle h k = omega arith
  fits_shrink opts n m settled h k = omega arith
  fits_shrink opts n m (writing batch) h (k, l) = (k, omega arith)

  fits_within :
      (opts : WriteBehindOptions) (n m : ℕ) (f : Flight T)
      → m ≤ opts.max_queue
      → FlightFits opts n f
      → FlightFits opts m f
  fits_within opts n m idle h k = omega arith
  fits_within opts n m settled h k = omega arith
  fits_within opts n m (writing batch) h (k, l) = (k, h)

  idle_fits :
      (opts : WriteBehindOptions) (n : ℕ) (f : Flight T)
      → is_idle f ≡ true
      → FlightFits opts n f
      → n ≤ opts.max_queue + opts.max_batch
  idle_fits opts n idle e h = h
  idle_fits opts n (writing batch) e h = ground arith
  idle_fits opts n settled e h = h

  -- Whatever it finds, `flush` leaves something to move the queue on.
  flush-IsSound :
      (opts : WriteBehindOptions) (w : WriteBehind T)
      → FlightFits opts (length w.queue) w.in_flight
      → w.attempts < opts.max_attempts
      → IsSound opts (flush opts w)
  unfolding flush
  flush-IsSound opts w fits tries =
      if_either (IsSound opts) (is_idle w.in_flight && not (is_empty w.queue)) _ _
        (λ go. record {
          fits =
              let room : length w.queue ≤ opts.max_queue + opts.max_batch =
                idle_fits opts (length w.queue) w.in_flight (ground arith) fits in
              (
                omega (arith, length-take opts.max_batch w.queue),
                omega (arith, length-drop opts.max_batch w.queue),
              );
          tries = tries;
          moving = ground arith;
        })
        (λ stay. record { fits = fits; tries = tries; moving = ground arith })

  -- After an overflow the queue is no longer than it may be.
  overflow_fits :
      (opts : WriteBehindOptions) (w : WriteBehind T)
      → length (overflow opts w).queue ≤ opts.max_queue
  unfolding overflow
  overflow_fits opts w =
      if_either (λ (v : WriteBehind T). length v.queue ≤ opts.max_queue)
        (ltb opts.max_queue (length w.queue)) _ _
        (λ over. omega (arith, length-drop (length w.queue - opts.max_queue) w.queue))
        (λ within. ground arith)

  overflow_same :
      (opts : WriteBehindOptions) (w : WriteBehind T)
      → ((overflow opts w).in_flight ≡ w.in_flight) × ((overflow opts w).attempts ≡ w.attempts)
  unfolding overflow
  overflow_same opts w =
      if_either (λ (v : WriteBehind T). (v.in_flight ≡ w.in_flight) × (v.attempts ≡ w.attempts))
        (ltb opts.max_queue (length w.queue)) _ _ (λ over. (refl, refl)) (λ within. (refl, refl))

  push-IsSound :
      (opts : WriteBehindOptions) (w : WriteBehind T) (item : T)
      → IsSound opts w
      → IsSound opts (push opts w item)
  unfolding push arm
  push-IsSound opts w item s =
      let w₁ : WriteBehind T = record w { queue = w.queue ++ item ∷ [] } in
      let w₂ : WriteBehind T = overflow opts w₁ in
      let fits : FlightFits opts (length w₂.queue) w₂.in_flight = rw (overflow_same opts w₁).0 (
        fits_within opts (length w.queue) (length w₂.queue) w.in_flight (overflow_fits opts w₁)
          s.fits) in
      let tries : w₂.attempts < opts.max_attempts = rw (overflow_same opts w₁).1 s.tries in
      if_either (IsSound opts) w.stopped _ _ (λ stopped. s)
        (λ running.
          if_either (IsSound opts) (leb opts.max_batch (length w₂.queue)) _ _
            (λ full. flush-IsSound opts w₂ fits tries)
            (λ room. record { fits = fits; tries = tries; moving = ground arith }))

  on_timer-IsSound :
      (opts : WriteBehindOptions) (w : WriteBehind T)
      → IsSound opts w
      → IsSound opts (on_timer opts w)
  unfolding on_timer
  on_timer-IsSound opts w s =
      if_either (IsSound opts) w.timer _ _
        (λ set. flush-IsSound opts (record w { timer = false }) s.fits s.tries) (λ unset. s)

  answer_at-IsSound :
      (opts : WriteBehindOptions) (w : WriteBehind T) (ok : Bool) (f : Flight T)
      → w.in_flight ≡ f
      → IsSound opts w
      → FlightFits opts (length w.queue) f
      → IsSound opts (answer_at opts w ok f)
  unfolding on_written on_failed
  answer_at-IsSound opts w ok idle e s fits = s
  answer_at-IsSound opts w true (writing batch) e s fits = record {
    fits = ground arith;
    tries = omega (arith, s.tries);
    moving = ground arith;
  }
  answer_at-IsSound opts w false (writing batch) e s (small, room) =
      if_either (IsSound opts) (leb opts.max_attempts (suc w.attempts)) _ _
        (λ enough. record {
          fits = omega arith;
          tries = omega (arith, s.tries);
          moving = ground arith;
        })
        (λ again. record {
          fits = omega (arith, length-append batch w.queue);
          tries = ground arith;
          moving = ground arith;
        })
  answer_at-IsSound opts w ok settled e s fits = s

  finally_at-IsSound :
      (opts : WriteBehindOptions) (w : WriteBehind T) (f : Flight T)
      → w.in_flight ≡ f
      → IsSound opts w
      → FlightFits opts (length w.queue) f
      → IsSound opts (finally_at w f)
  unfolding arm
  finally_at-IsSound opts w idle e s fits = s
  finally_at-IsSound opts w (writing batch) e s fits = s
  finally_at-IsSound opts w settled e s fits =
      if_either (IsSound opts) (not (is_empty w.queue) && not w.stopped) _ _
        (λ more. record { fits = fits; tries = s.tries; moving = ground arith })
        (λ done. record { fits = fits; tries = s.tries; moving = ground arith })

  pub stop-IsSound :
      (opts : WriteBehindOptions) (w : WriteBehind T) → IsSound opts w → IsSound opts (stop w)
  unfolding stop
  stop-IsSound opts w s = record { fits = s.fits; tries = s.tries; moving = ground arith }

  pub step-IsSound :
      (opts : WriteBehindOptions) (w : WriteBehind T) (e : WriteEvent T)
      → IsSound opts w
      → IsSound opts (step opts w e)
  unfolding step stop on_answer on_finally
  step-IsSound opts w (pushes item) s = push-IsSound opts w item s
  step-IsSound opts w fires s = on_timer-IsSound opts w s
  step-IsSound opts w (answers ok) s = answer_at-IsSound opts w ok w.in_flight refl s s.fits
  step-IsSound opts w finishes s = finally_at-IsSound opts w w.in_flight refl s s.fits
  step-IsSound opts w drains s = flush-IsSound opts w s.fits s.tries
  step-IsSound opts w stops s = stop-IsSound opts w s
