-- ===== src/WriteBehind/Order.antt =====
-- What becomes of the rows: in order, never twice, and each accounted for.
use mathlib.Core.List.{Sublist}
use mathlib.Core.List.Sublist.{append, trans, refl as Sublist-refl}
use mathlib.Core.Path.{subst}
use syncstudies.Base.{
  ◌+◌, ◌≡◌, refl, sym, ◌∙◌, Bool, true, false, List, [], ◌∷◌, ◌++◌, arith, if_either, length,
  length-append, append_assoc, append-nil, if◌then◌else◌,
}
use syncstudies.WriteBehind.Follows.{
  aloft, carried, Follows, flush-Follows, on_timer-Follows, on_answer-Follows, on_finally-Follows,
  push-Follows,
}
use syncstudies.WriteBehind.{
  WriteBehindOptions, WriteBehind, WriteEvent, pushes, fires, answers, finishes, drains, stops,
  new_queue, flush, push, on_timer, on_answer, on_finally, stop, step, run,
}

module _ {T : Type 0} where
  -- The items that are pushed before `stop`.
  abbrev pub accepted : Bool → List (WriteEvent T) → List T
  accepted stopped [] = []
  accepted stopped (pushes item ∷ es) =
      if stopped then accepted stopped es else item ∷ accepted stopped es
  accepted stopped (stops ∷ es) = accepted true es
  accepted stopped (fires ∷ es) = accepted stopped es
  accepted stopped (answers ok ∷ es) = accepted stopped es
  accepted stopped (finishes ∷ es) = accepted stopped es
  accepted stopped (drains ∷ es) = accepted stopped es

  -- The account of a queue: what it carries is what it was given, in that order, less the dropped.
  abbrev pub Accounts : WriteBehind T → List T → Type 0
  Accounts w given = Sublist (carried w) given × (length (carried w) + w.dropped ≡ length given)

  Follows-Accounts :
      (w w' : WriteBehind T) (given : List T) → Follows w w' → Accounts w given → Accounts w' given
  Follows-Accounts w w' given f (order, count) = (trans f.order order, f.count ∙ count)

  queued-carried :
      (w : WriteBehind T) (item : T)
      → carried (record w { queue = w.queue ++ item ∷ [] }) ≡ carried w ++ item ∷ []
  queued-carried w item = rw (
    append_assoc w.written (aloft w.in_flight ++ w.queue) (item ∷ []),
    append_assoc (aloft w.in_flight) w.queue (item ∷ []),
  )

  queued-Accounts :
      (w : WriteBehind T) (item : T) (given : List T)
      → Accounts w given
      → Accounts (record w { queue = w.queue ++ item ∷ [] }) (given ++ item ∷ [])
  queued-Accounts w item given (order, count) = (
    subst (λ l. Sublist l (given ++ item ∷ [])) (sym (queued-carried w item))
        (append order (Sublist-refl (item ∷ []))),
    rw (queued-carried w item) (
        omega
          (arith, count, length-append (carried w) (item ∷ []), length-append given (item ∷ []))),
  )

  stopped_as :
      {w w' : WriteBehind T} (es : List (WriteEvent T)) (given : List T) (v : WriteBehind T)
      → Follows w w'
      → Accounts v (given ++ accepted w'.stopped es)
      → Accounts v (given ++ accepted w.stopped es)
  stopped_as es given v f a = subst (λ s. Accounts v (given ++ accepted s es)) f.same a

  push-stopped :
      (opts : WriteBehindOptions) (w : WriteBehind T) (item : T)
      → w.stopped ≡ true
      → push opts w item ≡ w
  unfolding push
  push-stopped opts w item e = ground arith

  run-Accounts :
      (opts : WriteBehindOptions) (w : WriteBehind T) (es : List (WriteEvent T)) (given : List T)
      → Accounts w given
      → Accounts (run opts w es) (given ++ accepted w.stopped es)
  unfolding run step stop
  run-Accounts opts w [] given a = rw (append-nil given) a
  run-Accounts opts w (pushes item ∷ es) given a =
      let v : WriteBehind T = push opts w item in
      if_either (λ l. Accounts (run opts v es) (given ++ l)) w.stopped _ _
        (λ stopped.
          subst (λ u. Accounts (run opts u es) (given ++ accepted w.stopped es))
            (sym (push-stopped opts w item stopped)) (run-Accounts opts w es given a))
        (λ running.
          let f : Follows (record w { queue = w.queue ++ item ∷ [] }) v =
            push-Follows opts w item running in
          subst (Accounts (run opts v es)) (append_assoc given (item ∷ []) (accepted w.stopped es))
            (stopped_as es (given ++ item ∷ []) (run opts v es) f (
              run-Accounts opts v es (given ++ item ∷ [])
                (Follows-Accounts _ v (given ++ item ∷ []) f (queued-Accounts w item given a)))))
  run-Accounts opts w (fires ∷ es) given a =
      stopped_as es given (run opts (on_timer opts w) es) (on_timer-Follows opts w) (
        run-Accounts opts (on_timer opts w) es given
          (Follows-Accounts w _ given (on_timer-Follows opts w) a))
  run-Accounts opts w (answers ok ∷ es) given a =
      let f : Follows w (on_answer opts w ok) = on_answer-Follows opts w ok in
      stopped_as es given (run opts (on_answer opts w ok) es) f
        (run-Accounts opts (on_answer opts w ok) es given (Follows-Accounts w _ given f a))
  run-Accounts opts w (finishes ∷ es) given a =
      let f : Follows w (on_finally w) = on_finally-Follows w in
      stopped_as es given (run opts (on_finally w) es) f
        (run-Accounts opts (on_finally w) es given (Follows-Accounts w _ given f a))
  run-Accounts opts w (drains ∷ es) given a =
      let f : Follows w (flush opts w) = flush-Follows opts w in
      stopped_as es given (run opts (flush opts w) es) f
        (run-Accounts opts (flush opts w) es given (Follows-Accounts w _ given f a))
  run-Accounts opts w (stops ∷ es) given a = run-Accounts opts (stop w) es given a

  -- Whatever pushes, timers, answers of the database and turns of `drain` come, and in whatever
  -- order: what the database holds, followed by what is being written and by what is queued, is what
  -- was pushed before `stop`, in the order of the pushes and without repetition, less as many rows as
  -- are counted as dropped.
  pub run-order :
      (opts : WriteBehindOptions) (es : List (WriteEvent T))
      → Sublist (carried (run opts new_queue es)) (accepted false es)
        × (length (carried (run opts new_queue es)) + (run opts new_queue es).dropped
            ≡ length (accepted false es))
  run-order opts es = run-Accounts opts new_queue es [] (Sublist-refl [], refl)
