-- ===== src/DriftLoop/Examples.antt =====
-- Runs of the loop at concrete inputs, and the theorems applied there.
use syncstudies.Base.{
  ◌≡◌, refl, true, false, List, [], ◌∷◌, ◌++◌, some, none, arith, ℕ, zero, suc, ◌<◌, sym, ◌∙◌,
}
use mathlib.Core.Path.{subst}
use syncstudies.Base.Int.{ℤ, pos, ◌+ℤ◌, ◌-ℤ◌, ◌*ℤ◌}
use syncstudies.Timeline.{
  VideoAnchor, VideoProvider, idle_anchor, position_at, clamp_to_duration, course,
}
use syncstudies.Timeline.{playing as room_playing}
use syncstudies.ClientStore.Data.{good, PlayerErrorInfo}
use syncstudies.DriftLoop.Loop.{
  Loop, Reading, playing, fresh_loop, mute, play_now, quality_of, observe, magnitude, dead_zone,
}
use syncstudies.DriftLoop.Moves.{track_buffering, hard_seek_to, asks, set_drift_state, note_calm}
use syncstudies.DriftLoop.Tick.{
  tick_awake, with_anchor, after_buffering, measured, review, correct, follow, jump, gated, aim,
  tick, run_ticks, no_video, record_drift_sample, bypass_cooldown,
}
use syncstudies.DriftLoop.Control.{
  start, apply_anchor, adopt_anchor, load_video, join_start_position,
}
use syncstudies.DriftLoop.History.{Event, started, ticked, failed, happen, run, on_player_error}
use syncstudies.DriftLoop.Quiet.{hands_off, player_calls, run_ticks-hands_off}
use syncstudies.DriftLoop.Bounds.{IsSound}
use syncstudies.DriftLoop.Cooldown.{tick-cooldown}
use syncstudies.DriftLoop.Watching.{Watches, drift, expected, prepared, unstalled, tick-follow}
use syncstudies.DriftLoop.Calm.{AllCalm, follow-calm, run_ticks-calm}
use syncstudies.DriftLoop.Jumps.{seeks, hard_target, tick-seeks, hard_target-lands}
use syncstudies.DriftLoop.Playhead.{Playhead, extrapolated, get_playhead, forget_playhead}
use syncstudies.DriftLoop.Steady.{Act, look, sought, IsForward, shown, shown-IsForward}
use syncstudies.DriftLoop.Silence.{silenced, refused_once, refused_once-silences}

-- A lecture that plays since 1000 ms from second 10, at twice the speed.
abbrev lecture : VideoAnchor
lecture = record idle_anchor {
  provider = VideoProvider.youtube;
  video_ref = some "dQw4w9WgXcQ";
  status = room_playing;
  anchor_position_sec = pos 1_000_000;
  anchor_server_ms = pos 1000;
  playback_rate = pos 200;
  revision = pos 7;
}

-- At 3000 ms the room is at second 14, and the player at 14.1.
abbrev near_reading : Reading
near_reading = record {
  mono = pos 90_000;
  clock_ready = true;
  server_now = pos 3000;
  anchor = lecture;
  player = playing;
  position = pos 1_410_000;
  measurable = true;
  fine_rates = false;
  player_after_seek = playing;
  bypass_cooldown = false;
  bypass_pause = false;
}

-- Four seconds behind.
abbrev far_reading : Reading
far_reading = record near_reading { position = pos 1_000_000 }

abbrev early_reading : Reading
early_reading = record near_reading { mono = pos 80_000 }

abbrev watching : Loop
watching = record fresh_loop { stopped = false; failures = 4; backoff = 4 }

abbrev reviewing : Loop
reviewing = record watching { clock_sync_pending = true }

near_drift : drift near_reading ≡ pos 10_000
unfolding position_at clamp_to_duration ◌+ℤ◌ ◌-ℤ◌ ◌*ℤ◌ course
near_drift = refl

near_is_near : magnitude (drift near_reading) < dead_zone
near_is_near = rw near_drift (omega arith)

run_ticks-hands_off_example :
    player_calls (run_ticks reviewing (far_reading ∷ near_reading ∷ [])) ≡ player_calls reviewing
unfolding hands_off
run_ticks-hands_off_example =
    run_ticks-hands_off reviewing (far_reading ∷ near_reading ∷ []) refl (refl, (refl, tt))

-- The video refuses to be embedded.
abbrev denied : PlayerErrorInfo
denied = record { code = pos 150; embed_denied = true; message = "embedding denied" }

abbrev joined : List Event
joined = started early_reading ∷ failed denied ∷ []

far_reading-Watches : Watches (run fresh_loop joined) far_reading
unfolding run happen start on_player_error no_video apply_anchor adopt_anchor load_video
    join_start_position position_at clamp_to_duration course ◌+ℤ◌ ◌-ℤ◌ ◌*ℤ◌
far_reading-Watches = record {
  running = refl;
  awake = refl;
  synced = refl;
  video = refl;
  room_plays = refl;
  player_plays = refl;
  trusted = refl;
  seeing = refl;
  wanted = refl;
  settled = refl;
  connected = refl;
  counted = omega arith;
  plausible = omega arith;
}

tick-seeks_example :
    seeks (tick (run fresh_loop joined) far_reading).done
    ≡ seeks (run fresh_loop joined).done ++ hard_target (run fresh_loop joined) far_reading ∷ []
unfolding run happen start on_player_error no_video apply_anchor adopt_anchor load_video position_at
    clamp_to_duration course ◌+ℤ◌ ◌-ℤ◌ ◌*ℤ◌
tick-seeks_example = tick-seeks joined far_reading far_reading-Watches (omega arith) refl

-- After a join whose three ticks were near, one tick sent the player off; two seconds later it is
-- still four seconds behind.
abbrev at_ms : ℤ → Reading → Reading
at_ms mono r = record r { mono = mono }

abbrev settled_in : List Event
settled_in =
    started early_reading
    ∷ ticked (at_ms (pos 82_000) near_reading)
    ∷ ticked (at_ms (pos 82_500) near_reading)
    ∷ ticked (at_ms (pos 83_000) near_reading)
    ∷ ticked far_reading
    ∷ []

abbrev later_reading : Reading
later_reading = at_ms (pos 92_000) far_reading

later_reading-Watches : Watches (run fresh_loop settled_in) later_reading
unfolding run happen start no_video apply_anchor adopt_anchor load_video join_start_position
    position_at clamp_to_duration course ◌+ℤ◌ ◌-ℤ◌ ◌*ℤ◌ tick tick_awake with_anchor after_buffering
    measured review correct follow jump note_calm set_drift_state record_drift_sample
    track_buffering gated bypass_cooldown observe hard_seek_to aim
later_reading-Watches = record {
  running = refl;
  awake = refl;
  synced = refl;
  video = refl;
  room_plays = refl;
  player_plays = refl;
  trusted = refl;
  seeing = refl;
  wanted = refl;
  settled = refl;
  connected = refl;
  counted = omega arith;
  plausible = omega arith;
}

tick-cooldown_example :
    ((seeks (tick (run fresh_loop settled_in) later_reading).done
        ≡ seeks (run fresh_loop settled_in).done)
      × ((tick (run fresh_loop settled_in) later_reading).backoff ≡ 1))
    × IsSound (run fresh_loop settled_in)
unfolding run happen start no_video apply_anchor adopt_anchor load_video join_start_position
    position_at clamp_to_duration course ◌+ℤ◌ ◌-ℤ◌ ◌*ℤ◌ tick tick_awake with_anchor after_buffering
    measured review correct follow jump note_calm set_drift_state record_drift_sample
    track_buffering gated bypass_cooldown observe hard_seek_to aim seeks
tick-cooldown_example =
    tick-cooldown settled_in later_reading later_reading-Watches (omega arith) refl

-- A seek of 250 ms at twice the speed lands a quarter of a second behind.
hard_target-lands_example :
    hard_target watching far_reading -ℤ position_at lecture (pos 3000 +ℤ pos 250)
    ≡ pos 250 *ℤ (pos 100 -ℤ pos 200)
unfolding observe position_at clamp_to_duration course ◌+ℤ◌ ◌-ℤ◌ ◌*ℤ◌
hard_target-lands_example = hard_target-lands watching far_reading 250 refl refl refl refl refl

abbrev silent : Loop
silent = record (asks (asks watching mute) play_now) {
  muted_for_autoplay = true;
  needs_gesture = true;
}

refused_once-silences_example :
    (silenced false (run silent (refused_once near_reading)).done ≡ true)
    × ((run silent (refused_once near_reading)).needs_gesture ≡ false)
    × ((run silent (refused_once near_reading)).muted_for_autoplay ≡ false)
unfolding silenced
refused_once-silences_example = refused_once-silences silent near_reading refl refl

-- A loop whose last tick was at the near reading, and that nothing holds back.
abbrev IsSteady : Loop → Type 0
IsSteady l =
    (l.stopped ≡ false)
    × (l.last_tick ≡ some (pos 90_000))
    × (l.suppress_until ≡ pos 0)
    × (l.auto_sync_paused ≡ false)
    × (l.clock_sync_pending ≡ false)
    × (l.transport_connected ≡ true)
    × (l.buffering_since ≡ none)

steady-Watches : (l : Loop) → IsSteady l → Watches l near_reading
unfolding no_video position_at clamp_to_duration course ◌+ℤ◌ ◌-ℤ◌ ◌*ℤ◌
steady-Watches l (running, last, seeing, wanted, settled, connected, moving) = record {
  running = running;
  awake = rw last;
  synced = refl;
  video = refl;
  room_plays = refl;
  player_plays = refl;
  trusted = refl;
  seeing = rw seeing;
  wanted = wanted;
  settled = settled;
  connected = connected;
  counted = omega arith;
  plausible = omega arith;
}

-- Each tick leaves it so.
tick-IsSteady : (l : Loop) → IsSteady l → IsSteady (tick l near_reading)
unfolding note_calm set_drift_state record_drift_sample
tick-IsSteady l s =
    let d : ℤ = drift near_reading in
    let e : tick l near_reading ≡ note_calm (prepared l near_reading) d =
      tick-follow l near_reading (steady-Watches l s)
      ∙ follow-calm (prepared l near_reading) near_reading (expected near_reading) d
          (bypass_cooldown (unstalled l near_reading) near_reading) near_is_near in
    subst IsSteady (sym e) (ground arith)

abbrev again : ℕ → List Reading
again zero = []
again (suc n) = near_reading ∷ again n

again-AllCalm : (n : ℕ) (l : Loop) → IsSteady l → AllCalm l (again n)
again-AllCalm zero l s = tt
again-AllCalm (suc n) l s =
    (steady-Watches l s, near_is_near, again-AllCalm n (tick l near_reading) (tick-IsSteady l s))

abbrev waited : Loop
waited = record watching { last_tick = some (pos 90_000) }

run_ticks-calm_example :
    (quality_of (run_ticks waited (again 6)) ≡ good)
    × (player_calls (run_ticks waited (again 6)) ≡ player_calls waited)
run_ticks-calm_example =
    run_ticks-calm waited (again 6)
      (again-AllCalm 6 waited (refl, refl, refl, refl, refl, refl, refl)) (omega arith)

-- Three looks in half a second, with one report of the player in between, a tenth of a second back;
-- then a seek, and a look that shows the player a fifth of a second further back.
abbrev look_at : ℤ → ℤ → Act
look_at mono raw = look (record { mono = mono; raw = raw; player = playing; anchor = lecture })

abbrev acts : List Act
acts =
    look_at (pos 1000) (pos 1_400_000)
    ∷ look_at (pos 1200) (pos 1_400_000)
    ∷ look_at (pos 1500) (pos 1_390_000)
    ∷ sought
    ∷ look_at (pos 1600) (pos 1_420_000)
    ∷ []

abbrev unseen : Playhead
unseen = record { scrub_preview = none; scrub_until = pos 0; sample = none; last_playhead = none }

shown_test :
    shown unseen acts
    ≡ some (pos 1_400_000)
      ∷ some (pos 1_440_000)
      ∷ some (pos 1_440_000)
      ∷ none
      ∷ some (pos 1_420_000)
      ∷ []
unfolding shown get_playhead forget_playhead extrapolated clamp_to_duration ◌+ℤ◌ ◌-ℤ◌ ◌*ℤ◌
shown_test = refl

shown-IsForward_example : IsForward none (shown unseen acts)
shown-IsForward_example = shown-IsForward unseen acts refl (refl, (refl, (refl, (tt, (refl, tt)))))
