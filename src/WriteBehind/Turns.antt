-- ===== src/WriteBehind/Turns.antt =====
-- How each turn of `drain` brings its end nearer.
use native.Mathlib.Nat.{mul-le-mul_right}
use syncstudies.Base.{
  ℕ, suc, ◌+◌, ◌-◌, ◌*◌, ◌≤◌, ◌<◌, ◌≡◌, Bool, true, false, not, ◌&&◌, List, [], ◌∷◌, ◌++◌, arith,
  if_either, leb, length, take, drop, length-append, length-drop, length-take,
}
use syncstudies.WriteBehind.Follows.{aloft}
use syncstudies.WriteBehind.Sound.{IsSound, step-IsSound}
use syncstudies.WriteBehind.{
  WriteBehindOptions, Flight, idle, writing, settled, WriteBehind, answers, finishes, drains,
  is_idle, is_empty, arm, flush, on_written, on_failed, answer_at, on_answer, finally_at,
  on_finally, step, drain_turn,
}

-- A count of rows times the tries for each, less the tries used up, goes down with a row fewer,
fewer : (m n a b k : ℕ) → m < n → a < k → m * k - b < n * k - a
fewer m n a b k h l = omega (arith, mul-le-mul_right k h)

-- and with one more try.
once_more : (m n a k : ℕ) → m ≤ n → 0 < n → suc a < k → m * k - suc a < n * k - a
once_more m n a k h p l =
    let one : 1 * k ≤ n * k = mul-le-mul_right k p in omega (arith, mul-le-mul_right k h, one)

module _ {T : Type 0} where
  abbrev pub busy : Flight T → ℕ
  busy idle = 0
  busy (writing batch) = 1
  busy settled = 1

  -- Answers of the database that are enough to empty a queue.
  abbrev pub turns_left : WriteBehindOptions → WriteBehind T → ℕ
  turns_left opts w =
      (length (aloft w.in_flight) + length w.queue + busy w.in_flight) * opts.max_attempts
      - w.attempts

  finally_turns :
      (opts : WriteBehindOptions) (w : WriteBehind T)
      → turns_left opts (finally_at w settled) ≡ length w.queue * opts.max_attempts - w.attempts
  unfolding arm
  finally_turns opts w =
      if_either
        (λ (v : WriteBehind T). turns_left opts v ≡ length w.queue * opts.max_attempts - w.attempts)
        (not (is_empty w.queue) && not w.stopped) _ _ (λ more. omega arith) (λ done. omega arith)

  -- The end of a write, with at least as many rows before it and one more than stay queued.
  write_turns :
      (opts : WriteBehindOptions) (w : WriteBehind T) (batch : List T) (ok : Bool) (n : ℕ)
      → w.attempts < opts.max_attempts
      → length w.queue < n
      → length batch + length w.queue ≤ n
      → turns_left opts (on_finally (answer_at opts w ok (writing batch)))
        < n * opts.max_attempts - w.attempts
  unfolding on_written on_failed on_finally
  write_turns opts w batch true n tries h k =
      rw (finally_turns opts (on_written w batch))
        (fewer (length w.queue) n w.attempts 0 opts.max_attempts h tries)
  write_turns opts w batch false n tries h k =
      if_either
        (λ (v : WriteBehind T). turns_left opts (on_finally v) < n * opts.max_attempts - w.attempts)
        (leb opts.max_attempts (suc w.attempts)) _ _
        (λ enough.
          let v : WriteBehind T = record w {
            attempts = 0;
            dropped = w.dropped + length batch;
            in_flight = settled;
          } in
          rw (finally_turns opts v)
            (fewer (length w.queue) n w.attempts 0 opts.max_attempts h tries))
        (λ left.
          let v : WriteBehind T = record w {
            attempts = suc w.attempts;
            queue = batch ++ w.queue;
            in_flight = settled;
          } in
          rw (finally_turns opts v, length-append batch w.queue)
            (once_more (length batch + length w.queue) n w.attempts opts.max_attempts k
              (omega arith) (ground arith)))

  nonempty : (xs : List T) → is_empty xs ≡ false → 0 < length xs
  nonempty [] h = ground arith
  nonempty (x ∷ xs) h = ground arith

  -- Every turn brings the end nearer.
  pub drain_turn_lt :
      (opts : WriteBehindOptions) (w : WriteBehind T) (ok : Bool) (f : Flight T)
      → 0 < opts.max_batch
      → w.attempts < opts.max_attempts
      → (is_empty w.queue && is_idle f) ≡ false
      → turns_left opts (drain_turn opts (record w { in_flight = f }) ok)
        < turns_left opts (record w { in_flight = f })
  unfolding drain_turn flush on_answer on_finally
  drain_turn_lt opts w ok idle some_batch tries more =
      let v : WriteBehind T = record w {
        in_flight = writing (take opts.max_batch w.queue);
        queue = drop opts.max_batch w.queue;
      } in
      let rows : 0 < length w.queue = nonempty w.queue (ground arith) in
      if_either
        (λ (u : WriteBehind T).
          turns_left opts (on_finally (on_answer opts u ok))
          < turns_left opts (record w { in_flight = idle }))
        (not (is_empty w.queue)) _ _
        (λ go. omega (
          arith,
          write_turns opts v (take opts.max_batch w.queue) ok (length w.queue) tries
              (omega (arith, length-drop opts.max_batch w.queue))
              (omega
                (arith, length-drop opts.max_batch w.queue, length-take opts.max_batch w.queue)),
        ))
        (λ stay. ground arith)
  drain_turn_lt opts w ok (writing batch) some_batch tries more =
      let v : WriteBehind T = record w { in_flight = writing batch } in
      omega (
        arith,
        write_turns opts v batch ok (suc (length batch + length w.queue)) tries (omega arith)
            (omega arith),
      )
  drain_turn_lt opts w ok settled some_batch tries more =
      let v : WriteBehind T = record w { in_flight = settled } in
      omega (
        arith,
        finally_turns opts v,
        fewer (length w.queue) (suc (length w.queue)) w.attempts w.attempts opts.max_attempts
            (omega arith) tries,
      )

  pub drain_turn-IsSound :
      (opts : WriteBehindOptions) (w : WriteBehind T) (ok : Bool)
      → IsSound opts w
      → IsSound opts (drain_turn opts w ok)
  unfolding drain_turn step
  drain_turn-IsSound opts w ok s =
      step-IsSound opts (on_answer opts (flush opts w) ok) finishes
        (step-IsSound opts (flush opts w) (answers ok) (step-IsSound opts w drains s))
