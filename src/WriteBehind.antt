-- ===== src/WriteBehind.antt =====
-- apps/realtime/src/chat/writeBehind.ts: the queue between a broadcast and Postgres.
-- `inFlight` is a promise of three moments, `Flight`: no write, a batch at the database, and a batch
-- whose answer has been dealt with and whose `finally` has not yet run. Timers and answers are
-- events; of the metrics the count of dropped rows is kept, and `written` is what the database took.
mod Follows
pub mod Order
mod Sound
pub mod Bounds
mod Turns
pub mod Drain
pub mod Examples
use syncstudies.Base.{
  ℕ, zero, suc, ◌+◌, ◌-◌, Bool, true, false, ◌&&◌, not, List, [], ◌∷◌, ◌++◌, if◌then◌else◌, ltb,
  leb, length, take, drop,
}

pub record WriteBehindOptions : Type 0 where
  pub max_batch : ℕ
  pub max_queue : ℕ
  pub max_attempts : ℕ

pub data Flight (T : Type 0) : Type 0 where
  idle : Flight T
  writing : List T → Flight T
  settled : Flight T

pub record WriteBehind (T : Type 0) : Type 0 where
  pub queue : List T
  pub in_flight : Flight T
  pub attempts : ℕ
  pub timer : Bool
  pub stopped : Bool
  pub dropped : ℕ
  pub written : List T

-- What may happen to a queue: a push, the timer, the database's answer (`true` where it took the
-- batch), the `finally` of that write, one turn of `drain`, and the start of `stop`.
pub data WriteEvent (T : Type 0) : Type 0 where
  pushes : T → WriteEvent T
  fires : WriteEvent T
  answers : Bool → WriteEvent T
  finishes : WriteEvent T
  drains : WriteEvent T
  stops : WriteEvent T

module _ {T : Type 0} where
  abbrev pub is_idle : Flight T → Bool
  is_idle idle = true
  is_idle (writing batch) = false
  is_idle settled = false

  abbrev pub new_queue : WriteBehind T
  new_queue = record {
    queue = [];
    in_flight = idle;
    attempts = 0;
    timer = false;
    stopped = false;
    dropped = 0;
    written = [];
  }

  unfoldable pub arm : WriteBehind T → WriteBehind T
  arm w = record w { timer = true }

  abbrev pub is_empty : List T → Bool
  is_empty [] = true
  is_empty (x ∷ xs) = false

  unfoldable pub flush : WriteBehindOptions → WriteBehind T → WriteBehind T
  flush opts w =
      if is_idle w.in_flight && not (is_empty w.queue)
      then record w {
        in_flight = writing (take opts.max_batch w.queue);
        queue = drop opts.max_batch w.queue;
      }
      else w

  -- Past `maxQueue` the oldest go.
  unfoldable pub overflow : WriteBehindOptions → WriteBehind T → WriteBehind T
  overflow opts w =
      let excess = length w.queue - opts.max_queue in
      if ltb opts.max_queue (length w.queue)
      then record w { queue = drop excess w.queue; dropped = w.dropped + excess }
      else w

  unfoldable pub push : WriteBehindOptions → WriteBehind T → T → WriteBehind T
  push opts w item =
      let w' = overflow opts (record w { queue = w.queue ++ item ∷ [] }) in
      if w.stopped
      then w
      else if leb opts.max_batch (length w'.queue)
      then flush opts w'
      else arm w'

  -- The callbacks of `arm`'s timer and of the write.
  unfoldable pub on_timer : WriteBehindOptions → WriteBehind T → WriteBehind T
  on_timer opts w = if w.timer then flush opts (record w { timer = false }) else w

  unfoldable pub on_written : WriteBehind T → List T → WriteBehind T
  on_written w batch = record w { attempts = 0; written = w.written ++ batch; in_flight = settled }

  unfoldable pub on_failed : WriteBehindOptions → WriteBehind T → List T → WriteBehind T
  on_failed opts w batch =
      if leb opts.max_attempts (suc w.attempts)
      then record w { attempts = 0; dropped = w.dropped + length batch; in_flight = settled }
      else record w { attempts = suc w.attempts; queue = batch ++ w.queue; in_flight = settled }

  abbrev pub answer_at : WriteBehindOptions → WriteBehind T → Bool → Flight T → WriteBehind T
  answer_at opts w ok idle = w
  answer_at opts w true (writing batch) = on_written w batch
  answer_at opts w false (writing batch) = on_failed opts w batch
  answer_at opts w ok settled = w

  unfoldable pub on_answer : WriteBehindOptions → WriteBehind T → Bool → WriteBehind T
  on_answer opts w ok = answer_at opts w ok w.in_flight

  abbrev pub finally_at : WriteBehind T → Flight T → WriteBehind T
  finally_at w idle = w
  finally_at w (writing batch) = w
  finally_at w settled =
      if not (is_empty w.queue) && not w.stopped
      then arm (record w { in_flight = idle })
      else record w { in_flight = idle }

  unfoldable pub on_finally : WriteBehind T → WriteBehind T
  on_finally w = finally_at w w.in_flight

  unfoldable pub stop : WriteBehind T → WriteBehind T
  stop w = record w { stopped = true; timer = false }

  unfoldable pub step : WriteBehindOptions → WriteBehind T → WriteEvent T → WriteBehind T
  step opts w (pushes item) = push opts w item
  step opts w fires = on_timer opts w
  step opts w (answers ok) = on_answer opts w ok
  step opts w finishes = on_finally w
  step opts w drains = flush opts w
  step opts w stops = stop w

  unfoldable pub run : WriteBehindOptions → WriteBehind T → List (WriteEvent T) → WriteBehind T
  run opts w [] = w
  run opts w (e ∷ es) = run opts (step opts w e) es

  -- One turn of `drain`: the write under way, or else a flush, up to the end of its `finally`.
  unfoldable pub drain_turn : WriteBehindOptions → WriteBehind T → Bool → WriteBehind T
  drain_turn opts w ok = on_finally (on_answer opts (flush opts w) ok)

  -- `drain` without a timeout, on the answers that the database gives.
  unfoldable pub drain : WriteBehindOptions → WriteBehind T → List Bool → WriteBehind T
  drain opts w [] = w
  drain opts w (ok ∷ oks) =
      let rest = drain opts (drain_turn opts w ok) oks in
      if is_empty w.queue && is_idle w.in_flight then w else rest
