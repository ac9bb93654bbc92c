-- ===== src/WriteBehind/Drain.antt =====
-- `drain` ends: how many answers of the database are enough.
use native.Mathlib.Nat.{mul-le-mul_right}
use mathlib.Core.Path.{subst}
use mathlib.Core.List.{Sublist}
use mathlib.Core.List.Sublist.{trans}
use syncstudies.Base.{
  ℕ, ◌+◌, ◌*◌, ◌≤◌, ◌<◌, ◌≡◌, refl, Bool, true, false, ◌&&◌, List, [], ◌∷◌, ◌++◌, arith, if_either,
  Bool-cases, inl, inr, append-nil, ap, ◌∙◌, length,
}
use syncstudies.WriteBehind.Follows.{
  aloft, carried, Follows, Follows-same, Follows-trans, flush-Follows, on_answer-Follows,
  on_finally-Follows,
}
use syncstudies.WriteBehind.Order.{accepted, run-order}
use syncstudies.WriteBehind.Sound.{IsSound, stop-IsSound}
use syncstudies.WriteBehind.Bounds.{run_new-IsSound, run-bounds}
use syncstudies.WriteBehind.{
  WriteBehindOptions, Flight, idle, writing, settled, WriteBehind, WriteEvent, is_idle, is_empty,
  new_queue, flush, on_answer, on_finally, stop, run, drain_turn, drain,
}
use syncstudies.WriteBehind.Turns.{busy, turns_left, drain_turn_lt, drain_turn-IsSound}

few_and_one : (m b n : ℕ) → m ≤ n → b ≤ 1 → m + b ≤ n + 1
few_and_one m b n h k = omega arith

module _ {T : Type 0} where
  -- A sound queue is emptied.
  drain_ends :
      (opts : WriteBehindOptions) (w : WriteBehind T) (oks : List Bool)
      → 0 < opts.max_batch
      → IsSound opts w
      → turns_left opts w ≤ length oks
      → (is_empty (drain opts w oks).queue && is_idle (drain opts w oks).in_flight) ≡ true
  unfolding drain
  drain_ends opts w [] some_batch s h =
      elim (Bool-cases (is_empty w.queue && is_idle w.in_flight)) [
        | inl done ↦ done
        | inr more ↦ ground (arith, drain_turn_lt opts w true w.in_flight some_batch s.tries more)
      ]
  drain_ends opts w (ok ∷ oks) some_batch s h =
      if_either (λ (v : WriteBehind T). (is_empty v.queue && is_idle v.in_flight) ≡ true)
        (is_empty w.queue && is_idle w.in_flight) _ _ (λ done. done)
        (λ more.
          drain_ends opts (drain_turn opts w ok) oks some_batch (drain_turn-IsSound opts w ok s)
            (omega (arith, drain_turn_lt opts w ok w.in_flight some_batch s.tries more)))

  drain-Follows :
      (opts : WriteBehindOptions) (w : WriteBehind T) (oks : List Bool)
      → Follows w (drain opts w oks)
  unfolding drain drain_turn
  drain-Follows opts w [] = Follows-same w w refl refl refl
  drain-Follows opts w (ok ∷ oks) =
      let v : WriteBehind T = on_answer opts (flush opts w) ok in
      let turn : Follows w (on_finally v) =
        Follows-trans w (flush opts w) (on_finally v) (flush-Follows opts w) (
          Follows-trans (flush opts w) v (on_finally v) (on_answer-Follows opts (flush opts w) ok)
            (on_finally-Follows v)) in
      if_either (Follows w) (is_empty w.queue && is_idle w.in_flight) _ _
        (λ done. Follows-same w w refl refl refl)
        (λ more. Follows-trans w (on_finally v) _ turn (drain-Follows opts (on_finally v) oks))

  -- With nothing queued or under way a queue carries what the database holds.
  carried_done : (q : List T) (f : Flight T) → (is_empty q && is_idle f) ≡ true → aloft f ++ q ≡ []
  carried_done [] idle h = refl
  carried_done [] (writing batch) h = ground arith
  carried_done [] settled h = ground arith
  carried_done (x ∷ q) f h = ground arith

  carried_is_written :
      (w : WriteBehind T) → (is_empty w.queue && is_idle w.in_flight) ≡ true → carried w ≡ w.written
  carried_is_written w done =
      ap (λ l. w.written ++ l) (carried_done w.queue w.in_flight done) ∙ append-nil w.written

  busy_le : (f : Flight T) → busy f ≤ 1
  busy_le idle = omega arith
  busy_le (writing batch) = omega arith
  busy_le settled = omega arith

  -- `stop` after any history ends, once the database has answered a given number of writes, and it
  -- may refuse as many of them as it likes: then nothing is queued or under way, and the database
  -- holds what was pushed before, in the order of the pushes, less as many rows as are counted as
  -- dropped. A batch has at least one row and one try.
  pub stop-drain :
      (opts : WriteBehindOptions) (es : List (WriteEvent T)) (oks : List Bool)
      → 0 < opts.max_batch
      → 0 < opts.max_attempts
      → (opts.max_queue + opts.max_batch + 1) * opts.max_attempts ≤ length oks
      → let w = drain opts (stop (run opts new_queue es)) oks in
        ((is_empty w.queue && is_idle w.in_flight) ≡ true)
        × Sublist w.written (accepted false es)
        × (length w.written + w.dropped ≡ length (accepted false es))
  unfolding stop
  stop-drain opts es oks some_batch some_try enough =
      let v : WriteBehind T = run opts new_queue es in
      let w : WriteBehind T = drain opts (stop v) oks in
      let s : IsSound opts (stop v) = stop-IsSound opts v (run_new-IsSound opts es some_try) in
      let few : length (aloft v.in_flight) + length v.queue ≤ opts.max_queue + opts.max_batch =
        (run-bounds opts es some_try).0 in
      let turns : turns_left opts (stop v)
          ≤ (opts.max_queue + opts.max_batch + 1) * opts.max_attempts =
        omega (
          arith,
          mul-le-mul_right opts.max_attempts (few_and_one _ _ _ few (busy_le v.in_flight)),
        ) in
      let done : (is_empty w.queue && is_idle w.in_flight) ≡ true =
        drain_ends opts (stop v) oks some_batch s (omega arith) in
      let f : Follows (stop v) w = drain-Follows opts (stop v) oks in
      let (order, count) = run-order opts es in
      let e : carried w ≡ w.written = carried_is_written w done in
      (
        done,
        subst (λ l. Sublist l (accepted false es)) e (trans f.order order),
        subst (λ l. length l + w.dropped ≡ length (accepted false es)) e (f.count ∙ count),
      )
