-- ===== src/WriteBehind/Follows.antt =====
-- What one step does to the rows that a queue carries.
use mathlib.Core.List.{Sublist, sublist-append_right}
use mathlib.Core.List.Sublist.{append, trans, refl as Sublist-refl}
use mathlib.Core.Path.{subst}
use syncstudies.Base.{
  ℕ, suc, ◌+◌, ◌-◌, ◌≤◌, ◌≡◌, refl, sym, ◌∙◌, Bool, true, false, not, ◌&&◌, List, [], ◌∷◌, ◌++◌,
  arith, Bool-cases, if_either, inl, inr, ltb, leb, length, take, drop, length-append, length-drop,
  take-append-drop, append_assoc,
}
use syncstudies.WriteBehind.{
  WriteBehindOptions, Flight, idle, writing, settled, WriteBehind, is_idle, is_empty, arm, flush,
  overflow, push, on_timer, on_written, on_failed, answer_at, on_answer, finally_at, on_finally,
}

module _ {T : Type 0} where
  abbrev pub aloft : Flight T → List T
  aloft idle = []
  aloft (writing batch) = batch
  aloft settled = []

  -- What the database holds and what is on its way to it, oldest first.
  abbrev pub carried : WriteBehind T → List T
  carried w = w.written ++ (aloft w.in_flight ++ w.queue)

  -- The second holds the same rows in the same order, less those that it counts as dropped.
  pub record Follows (w w' : WriteBehind T) : Type 0 where
    pub order : Sublist (carried w') (carried w)
    pub count : length (carried w') + w'.dropped ≡ length (carried w) + w.dropped
    pub same : w'.stopped ≡ w.stopped

  pub Follows-same :
      (w w' : WriteBehind T)
      → carried w' ≡ carried w
      → w'.dropped ≡ w.dropped
      → w'.stopped ≡ w.stopped
      → Follows w w'
  Follows-same w w' e d s = record {
    order = subst (λ l. Sublist l (carried w)) (sym e) (Sublist-refl (carried w));
    count = rw (e, d);
    same = s;
  }

  pub Follows-trans : (u v w : WriteBehind T) → Follows u v → Follows v w → Follows u w
  Follows-trans u v w f g = record {
    order = trans g.order f.order;
    count = g.count ∙ f.count;
    same = g.same ∙ f.same;
  }

  idle-aloft : (f : Flight T) → is_idle f ≡ true → aloft f ≡ []
  idle-aloft idle h = refl
  idle-aloft (writing batch) h = ground arith
  idle-aloft settled h = refl

  pub flush-Follows : (opts : WriteBehindOptions) (w : WriteBehind T) → Follows w (flush opts w)
  unfolding flush
  flush-Follows opts w = elim (Bool-cases (is_idle w.in_flight && not (is_empty w.queue))) [
    | inl go ↦ rw go (
        Follows-same w _
          (rw (idle-aloft w.in_flight (ground arith), take-append-drop opts.max_batch w.queue)) refl
          refl)
    | inr stay ↦ rw stay (Follows-same w w refl refl refl)
  ]

  -- Dropping the oldest of the queue.
  drop-Follows :
      (w : WriteBehind T) (n : ℕ)
      → n ≤ length w.queue
      → Follows w (record w { queue = drop n w.queue; dropped = w.dropped + n })
  drop-Follows w n h = record {
    order = append (Sublist-refl w.written) (
        append (Sublist-refl (aloft w.in_flight)) (
          subst (λ l. Sublist (drop n w.queue) l) (take-append-drop n w.queue)
            (sublist-append_right (take n w.queue) (drop n w.queue))));
    count = omega (
      arith,
      length-append w.written (aloft w.in_flight ++ w.queue),
      length-append w.written (aloft w.in_flight ++ drop n w.queue),
      length-append (aloft w.in_flight) w.queue,
      length-append (aloft w.in_flight) (drop n w.queue),
      length-drop n w.queue,
    );
    same = refl;
  }

  overflow-Follows : (opts : WriteBehindOptions) (w : WriteBehind T) → Follows w (overflow opts w)
  unfolding overflow
  overflow-Follows opts w = elim (Bool-cases (ltb opts.max_queue (length w.queue))) [
    | inl over ↦ rw over (drop-Follows w (length w.queue - opts.max_queue) (omega arith))
    | inr within ↦ rw within (Follows-same w w refl refl refl)
  ]

  on_written-Follows :
      (w : WriteBehind T) (batch : List T)
      → w.in_flight ≡ writing batch
      → Follows w (on_written w batch)
  unfolding on_written
  on_written-Follows w batch e =
      Follows-same w _ (rw (e, append_assoc w.written batch w.queue)) refl refl

  on_failed-Follows :
      (opts : WriteBehindOptions) (w : WriteBehind T) (batch : List T)
      → w.in_flight ≡ writing batch
      → Follows w (on_failed opts w batch)
  unfolding on_failed
  on_failed-Follows opts w batch e = elim (Bool-cases (leb opts.max_attempts (suc w.attempts))) [
    | inl enough ↦ rw enough (record {
      order = rw e (append (Sublist-refl w.written) (sublist-append_right batch w.queue));
      count = rw e (
          omega (
            arith,
            length-append w.written w.queue,
            length-append w.written (batch ++ w.queue),
            length-append batch w.queue,
          ));
      same = refl;
    })
    | inr again ↦ rw again (Follows-same w _ (rw e) refl refl)
  ]

  answer_at-Follows :
      (opts : WriteBehindOptions) (w : WriteBehind T) (ok : Bool) (f : Flight T)
      → w.in_flight ≡ f
      → Follows w (answer_at opts w ok f)
  answer_at-Follows opts w ok idle e = Follows-same w w refl refl refl
  answer_at-Follows opts w true (writing batch) e = on_written-Follows w batch e
  answer_at-Follows opts w false (writing batch) e = on_failed-Follows opts w batch e
  answer_at-Follows opts w ok settled e = Follows-same w w refl refl refl

  finally_at-Follows :
      (w : WriteBehind T) (f : Flight T) → w.in_flight ≡ f → Follows w (finally_at w f)
  unfolding arm
  finally_at-Follows w idle e = Follows-same w w refl refl refl
  finally_at-Follows w (writing batch) e = Follows-same w w refl refl refl
  finally_at-Follows w settled e =
      if_either (Follows w) (not (is_empty w.queue) && not w.stopped) _ _
        (λ more. Follows-same w _ (rw e) refl refl) (λ done. Follows-same w _ (rw e) refl refl)

  pub on_timer-Follows :
      (opts : WriteBehindOptions) (w : WriteBehind T) → Follows w (on_timer opts w)
  unfolding on_timer
  on_timer-Follows opts w =
      let w' : WriteBehind T = record w { timer = false } in
      if_either (Follows w) w.timer _ _
        (λ set. Follows-trans w w' _ (Follows-same w w' refl refl refl) (flush-Follows opts w'))
        (λ unset. Follows-same w w refl refl refl)

  pub push-Follows :
      (opts : WriteBehindOptions) (w : WriteBehind T) (item : T)
      → w.stopped ≡ false
      → Follows (record w { queue = w.queue ++ item ∷ [] }) (push opts w item)
  unfolding push arm
  push-Follows opts w item running =
      let w₁ : WriteBehind T = record w { queue = w.queue ++ item ∷ [] } in
      let w₂ : WriteBehind T = overflow opts w₁ in
      let over : Follows w₁ w₂ = overflow-Follows opts w₁ in
      if_either (Follows w₁) w.stopped _ _ (λ stopped. ground arith)
        (λ _.
          if_either (Follows w₁) (leb opts.max_batch (length w₂.queue)) _ _
            (λ full. Follows-trans w₁ w₂ _ over (flush-Follows opts w₂))
            (λ room. Follows-trans w₁ w₂ _ over (Follows-same w₂ _ refl refl refl)))

  pub on_answer-Follows :
      (opts : WriteBehindOptions) (w : WriteBehind T) (ok : Bool) → Follows w (on_answer opts w ok)
  unfolding on_answer
  on_answer-Follows opts w ok = answer_at-Follows opts w ok w.in_flight refl

  pub on_finally-Follows : (w : WriteBehind T) → Follows w (on_finally w)
  unfolding on_finally
  on_finally-Follows w = finally_at-Follows w w.in_flight refl
