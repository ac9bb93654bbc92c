-- ===== src/RoomState/Examples.antt =====
-- A room's hash at concrete inputs. Numbers are written as tallies, which keeps the runs short.
use Prim.Native.Char.{code}
use syncstudies.Base.{
  ℕ, zero, suc, ◌≡◌, ◌≢◌, refl, ap, ◌==◌, if◌then◌else◌, false, [], ◌∷◌, Option, none, some, arith,
  length,
}
use syncstudies.Base.Text.{String}
use syncstudies.Base.Int.{ℤ, pos, negsuc, ◌+ℤ◌, ◌-ℤ◌}
use syncstudies.Timeline.{
  VideoProvider, VideoAnchor, idle_anchor, playing, paused, decide_control, recently_changed,
  is_stale,
}
use syncstudies.RoomState.RedisHash.{JsNumber, Hash, empty_hash}
use syncstudies.RoomState.Codec.{anchor_from_hash, write_anchor, get_state}
use syncstudies.RoomState.Script.{
  ApplyControlArgs, written, refused, apply_atomic, transact_video, script_stale, script_locked,
  write_fields,
}
use syncstudies.RoomState.RoundTrip.{IsStorable, get_state-write_anchor}
use syncstudies.RoomState.Decision.{reply_of, apply_atomic-decides}
use syncstudies.RoomState.Commit.{control_over, video_fields, apply_atomic-control}
use syncstudies.RoomState.History.{
  revision_of, run_calls, write_log, count_up, write_log-count_up, no_double_commit,
}

strokes : ℕ → String
strokes zero = String.[]
strokes (suc n) = String.◌∷◌ "1" (strokes n)

count_strokes : String → ℕ
count_strokes String.[] = 0
count_strokes (String.◌∷◌ c s) = suc (count_strokes s)

unfoldable pub tally_show : ℤ → String
unfolding strokes
tally_show (pos n) = String.◌∷◌ "+" (strokes n)
tally_show (negsuc n) = String.◌∷◌ "-" (strokes n)

unfoldable pub tally_read : String → Option ℤ
unfolding count_strokes
tally_read String.[] = none
tally_read (String.◌∷◌ c s) =
    if code c == b'+' then some (pos (count_strokes s)) else some (negsuc (count_strokes s))

count_strokes-strokes : (n : ℕ) → count_strokes (strokes n) ≡ n
unfolding strokes count_strokes
count_strokes-strokes zero = refl
count_strokes-strokes (suc n) = ap suc (count_strokes-strokes n)

pub tally_read-show : (n : ℤ) → tally_read (tally_show n) ≡ some n
unfolding tally_read tally_show
tally_read-show (pos n) = ap (λ k. some (pos k)) (count_strokes-strokes n)
tally_read-show (negsuc n) = ap (λ k. some (negsuc k)) (count_strokes-strokes n)

pub tally_show-ne-empty : (n : ℤ) → tally_show n ≢ ""
unfolding tally_show
tally_show-ne-empty (pos n) e = cc e
tally_show-ne-empty (negsuc n) e = cc e

abbrev pub tally : JsNumber
tally = record {
  show = tally_show;
  read = tally_read;
  read-show = tally_read-show;
  show-ne-empty = tally_show-ne-empty;
}

abbrev pub lecture : VideoAnchor
lecture = record idle_anchor {
  provider = VideoProvider.youtube;
  video_ref = some "dQw4w9WgXcQ";
  status = playing;
  anchor_position_sec = pos 20;
  anchor_server_ms = pos 5;
  revision = pos 3;
  last_actor_id = some "priya";
  last_change_ms = pos 5;
}

abbrev pub live : Hash
live = write_anchor tally empty_hash lecture

-- Priya pauses at 9 ms.
abbrev priya_pauses : ApplyControlArgs
priya_pauses = record {
  next = record lecture { status = paused; anchor_server_ms = pos 9 };
  expected_revision = pos 3;
  actor_id = some "priya";
  now_ms = pos 9;
  lock_ms = pos 6;
  extra = [];
}

abbrev sam_pauses : ApplyControlArgs
sam_pauses = record priya_pauses { actor_id = some "sam" }

-- The system, on a node whose clock is behind.
abbrev system_pauses : ApplyControlArgs
system_pauses = record priya_pauses { actor_id = none; now_ms = pos 4; lock_ms = pos 0 }

abbrev priya_sets : ApplyControlArgs
priya_sets = record priya_pauses {
  next = record lecture { video_ref = some "aaaaaaaaaaa" };
  extra = video_fields tally (record lecture { video_ref = some "aaaaaaaaaaa" });
}

pub lecture-IsStorable : IsStorable tally lecture
lecture-IsStorable = record {
  ref_ne_empty = λ e. cc e;
  title_ne_empty = λ e. cc e;
  actor_ne_empty = λ e. cc e;
}

get_state-write_anchor_example : get_state tally live ≡ some lecture
get_state-write_anchor_example = get_state-write_anchor tally empty_hash lecture lecture-IsStorable

apply_atomic-decides_example :
    (apply_atomic tally live sam_pauses).1
    ≡ reply_of
        (decide_control (anchor_from_hash tally live) (pos 3) "sam" (pos 9) (pos 6))
        (anchor_from_hash tally live).revision
apply_atomic-decides_example = apply_atomic-decides tally live sam_pauses "sam" refl

-- Sam is locked out, Priya is not.
replies :
    ((apply_atomic tally live sam_pauses).1 ≡ refused recently_changed (pos 3))
    × ((apply_atomic tally live priya_pauses).1 ≡ written (pos 4))
unfolding apply_atomic transact_video script_stale script_locked write_fields write_anchor
    tally_show tally_read ◌+ℤ◌ ◌-ℤ◌
replies = (refl, refl)

system_fresh : is_stale (anchor_from_hash tally live) (pos 3) ≡ false
unfolding is_stale anchor_from_hash write_anchor tally_show tally_read
system_fresh = refl

apply_atomic-control_example :
    anchor_from_hash tally (apply_atomic tally live priya_pauses).0
    ≡ control_over (anchor_from_hash tally live) priya_pauses
apply_atomic-control_example =
    apply_atomic-control tally live priya_pauses (pos 4) refl (λ e. cc e) replies.1

priya_sets_reply : (apply_atomic tally live priya_sets).1 ≡ written (pos 4)
unfolding apply_atomic transact_video script_stale script_locked write_fields write_anchor
    tally_show tally_read ◌+ℤ◌ ◌-ℤ◌
priya_sets_reply = refl

write_log-count_up_example :
    let log = write_log tally live (priya_pauses ∷ sam_pauses ∷ []) in
    (log ≡ count_up (revision_of tally live) (length log))
    × (revision_of tally (run_calls tally live (priya_pauses ∷ sam_pauses ∷ []))
        ≡ revision_of tally live +ℤ pos (length log))
write_log-count_up_example =
    write_log-count_up tally live (priya_pauses ∷ sam_pauses ∷ []) (tt, (tt, tt))

no_double_commit_example :
    (apply_atomic tally
      (run_calls tally (apply_atomic tally live priya_pauses).0 (sam_pauses ∷ []))
      sam_pauses).1
    ≢ written (pos 5)
no_double_commit_example =
    no_double_commit tally live priya_pauses sam_pauses (sam_pauses ∷ []) (pos 4) (pos 5) tt
      (tt, tt) (omega arith) refl replies.1
