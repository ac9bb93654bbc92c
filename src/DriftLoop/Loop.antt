-- ===== src/DriftLoop/Loop.antt =====
-- apps/web/lib/sync/controller.ts: the fields of the loop; apps/web/lib/sync/seek-latency.ts: the
-- estimate of how long a seek takes.
use syncstudies.Base.{
  ℕ, suc, ◌/◌, Bool, true, false, not, ◌&&◌, ◌||◌, List, [], length, Option, none, some,
  if◌then◌else◌, leb, ltb,
}
use syncstudies.Base.Int.{ℤ, pos, negsuc, pos_part, ◌+ℤ◌, ◌-ℤ◌, ◌*ℤ◌, ltb_ℤ, max_ℤ, min_ℤ}
use syncstudies.Base.Text.{String}
use syncstudies.Timeline.{VideoAnchor, ControlAction}
use syncstudies.ClientStore.Data.{
  DriftState, idle, PlayerErrorInfo, SyncStatus, SyncQuality, good, poor,
}

pub data PlayerState : Type 0 where
  unstarted ended playing paused buffering cued : PlayerState

abbrev pub plays : PlayerState → Bool
plays playing = true
plays unstarted = false
plays ended = false
plays paused = false
plays buffering = false
plays cued = false

abbrev pub is_buffering : PlayerState → Bool
is_buffering buffering = true
is_buffering unstarted = false
is_buffering ended = false
is_buffering playing = false
is_buffering paused = false
is_buffering cued = false

abbrev pub is_unstarted : PlayerState → Bool
is_unstarted unstarted = true
is_unstarted buffering = false
is_unstarted ended = false
is_unstarted playing = false
is_unstarted paused = false
is_unstarted cued = false

abbrev pub dead_zone : ℕ
dead_zone = 35_000

abbrev pub soft_max : ℕ
soft_max = 120_000

abbrev pub hard_seek_at : ℕ
hard_seek_at = 200_000

abbrev pub clock_sanity_drift : ℕ
clock_sanity_drift = 3_000_000

abbrev pub micro_seek_min : ℕ
micro_seek_min = 60_000

abbrev pub min_hard_seek_gap_ms : ℕ
min_hard_seek_gap_ms = 5_000

abbrev pub min_micro_seek_gap_ms : ℕ
min_micro_seek_gap_ms = 3_000

abbrev pub post_seek_blind_ms : ℕ
post_seek_blind_ms = 700

abbrev pub max_consecutive_failures : ℕ
max_consecutive_failures = 3

abbrev pub hard_seek_window_ms : ℕ
hard_seek_window_ms = 60_000

abbrev pub max_backoff : ℕ
max_backoff = 8

abbrev pub quality_recovery_ticks : ℕ
quality_recovery_ticks = 6

abbrev pub cold_resume_gap_ms : ℤ
cold_resume_gap_ms = pos 30_000

abbrev pub join_convergence_ticks : ℕ
join_convergence_ticks = 3

abbrev pub buffering_report_after_ms : ℤ
buffering_report_after_ms = pos 1_200

abbrev pub seek_latency_init : ℤ
seek_latency_init = pos 25_000

abbrev pub seek_latency_min : ℤ
seek_latency_min = pos 8_000

abbrev pub seek_latency_max : ℤ
seek_latency_max = pos 120_000

pub record PendingSeek : Type 0 where
  pub target : ℤ
  pub started_at_ms : ℤ

pub record SeekLatency : Type 0 where
  pub value : ℤ
  pub pending : Option PendingSeek

abbrev pub clamp : ℤ → ℤ → ℤ → ℤ
clamp value low high = min_ℤ high (max_ℤ low value)

abbrev pub begin : SeekLatency → ℤ → ℤ → SeekLatency
begin l target now = record l { pending = some (record { target = target; started_at_ms = now }) }

abbrev pub cancel : SeekLatency → SeekLatency
cancel l = record l { pending = none }

-- The share of 1/4 for the new sample.
unfoldable pub blend : ℤ → ℤ → ℤ
blend value elapsed = pos (pos_part (value *ℤ pos 3 +ℤ elapsed *ℤ pos 100) / 4)

abbrev pub or_normal : ℤ → ℤ
or_normal rate = if ltb_ℤ (pos 0) rate then rate else pos 100

abbrev pub landed : PendingSeek → ℤ → ℤ → ℤ → Bool
landed p elapsed position rate =
    not (ltb_ℤ position (p.target -ℤ pos dead_zone))
    && not (ltb_ℤ (p.target +ℤ pos dead_zone +ℤ max_ℤ (pos 0) elapsed *ℤ or_normal rate) position)

abbrev pub observe_pending : SeekLatency → PendingSeek → PlayerState → ℤ → ℤ → ℤ → SeekLatency
observe_pending l p state position rate now =
    let elapsed : ℤ = now -ℤ p.started_at_ms in
    if ltb_ℤ (pos 4_800) elapsed
    then cancel l
    else if plays state && landed p elapsed position rate
    then record {
      value = clamp (blend l.value elapsed) seek_latency_min seek_latency_max;
      pending = none;
    }
    else l

abbrev pub observe_if : SeekLatency → Option PendingSeek → PlayerState → ℤ → ℤ → ℤ → SeekLatency
observe_if l none state position rate now = l
observe_if l (some p) state position rate now = observe_pending l p state position rate now

unfoldable pub observe : SeekLatency → PlayerState → ℤ → ℤ → ℤ → SeekLatency
observe l state position rate now = observe_if l l.pending state position rate now

-- What the loop asks for.
pub data PlayerCall : Type 0 where
  seek_to : ℤ → PlayerCall
  play_now pause_now : PlayerCall
  set_rate : ℤ → ℕ → PlayerCall
  sync_clock : ℕ → Bool → PlayerCall
  report_buffering : Bool → ℤ → PlayerCall
  mute unmute : PlayerCall
  load : String → ℤ → PlayerCall
  send_control : ControlAction → Option ℤ → PlayerCall

pub record Loop : Type 0 where
  pub stopped : Bool
  pub last_tick : Option ℤ
  pub suppress_until : ℤ
  pub last_hard_seek : Option ℤ
  pub last_micro_seek : Option ℤ
  pub join_ticks : ℕ
  pub failures : ℕ
  pub backoff : ℕ
  pub calm_ticks : ℕ
  pub buffering_since : Option ℤ
  pub buffering_reported : Bool
  pub recovering_from_stall : Bool
  pub clock_sync_pending : Bool
  pub clock_sanity_tripped : Bool
  pub playback_blocked : Bool
  pub transport_connected : Bool
  pub rate_restoring : Bool
  pub nudged_rate : Bool
  pub drift_state : DriftState
  pub published_drift : ℤ
  pub auto_sync_paused : Bool
  pub gesture_granted : Bool
  pub gate_running : Bool
  pub needs_gesture : Bool
  pub muted_for_autoplay : Bool
  pub last_revision : Option ℤ
  pub loaded_video_ref : Option String
  pub pending_evaluation : Bool
  pub player_error : Option PlayerErrorInfo
  pub buffering_flag : Bool
  pub hard_seek_times : List ℤ
  pub seek_latency : SeekLatency
  pub done : List PlayerCall

-- What is read during one tick: the monotonic clock, whether the server's clock is known and what
-- it says, the anchor, and the player; and what the tick was called with.
pub record Reading : Type 0 where
  pub mono : ℤ
  pub clock_ready : Bool
  pub server_now : ℤ
  pub anchor : VideoAnchor
  pub player : PlayerState
  pub position : ℤ
  pub measurable : Bool
  pub fine_rates : Bool
  pub player_after_seek : PlayerState
  pub bypass_cooldown : Bool
  pub bypass_pause : Bool

abbrev pub magnitude : ℤ → ℕ
magnitude (pos n) = n
magnitude (negsuc n) = suc n

unfoldable pub quality_of : Loop → SyncQuality
quality_of l = if leb max_consecutive_failures l.failures || ltb 1 l.backoff then poor else good

-- What `publish` hands on.
unfoldable pub status_of : Loop → SyncStatus
unfolding quality_of
status_of l = record {
  drift = l.drift_state;
  drift_sec = l.published_drift;
  quality = quality_of l;
  hard_seeks_last_minute = length l.hard_seek_times;
  auto_sync_paused = l.auto_sync_paused;
  buffering = l.buffering_flag;
  error = l.player_error;
  needs_gesture = l.needs_gesture;
  muted_for_autoplay = l.muted_for_autoplay;
}

-- A controller as it is built: stopped, with nothing learned.
abbrev pub fresh_loop : Loop
fresh_loop = record {
  stopped = true;
  last_tick = none;
  suppress_until = pos 0;
  last_hard_seek = none;
  last_micro_seek = none;
  join_ticks = join_convergence_ticks;
  failures = 0;
  backoff = 1;
  calm_ticks = 0;
  buffering_since = none;
  buffering_reported = false;
  recovering_from_stall = false;
  clock_sync_pending = false;
  clock_sanity_tripped = false;
  playback_blocked = false;
  transport_connected = true;
  rate_restoring = false;
  nudged_rate = false;
  drift_state = idle;
  published_drift = pos 0;
  auto_sync_paused = false;
  gesture_granted = false;
  gate_running = false;
  needs_gesture = false;
  muted_for_autoplay = false;
  last_revision = none;
  loaded_video_ref = none;
  pending_evaluation = false;
  player_error = none;
  buffering_flag = false;
  hard_seek_times = [];
  seek_latency = record { value = seek_latency_init; pending = none };
  done = [];
}
