-- ===== src/DriftLoop/Silence.antt =====
-- The gate of autoplay mutes the player; who takes the sound back.
use syncstudies.Base.{Bool, true, false, List, [], ◌∷◌, ◌++◌, ◌≡◌, refl, ◌∙◌, append_assoc, none}
use syncstudies.Timeline.{play}
use syncstudies.DriftLoop.Loop.{Loop, Reading, PlayerCall, mute, unmute, play_now, send_control}
use syncstudies.DriftLoop.Gate.{play_answered, on_autoplay_error, clear_gesture_prompt}
use syncstudies.DriftLoop.Intents.{play_intent}
use syncstudies.DriftLoop.History.{Event, happen, run, refused, play_ended, user_plays}

abbrev pub sound_after : Bool → PlayerCall → Bool
sound_after silent mute = true
sound_after silent unmute = false
sound_after silent _ = silent

-- Whether the player is muted after these calls, having been muted or not before.
unfoldable pub silenced : Bool → List PlayerCall → Bool
silenced silent [] = silent
silenced silent (c ∷ cs) = silenced (sound_after silent c) cs

silenced-append :
    (b : Bool) (cs ds : List PlayerCall) → silenced b (cs ++ ds) ≡ silenced (silenced b cs) ds
unfolding silenced
silenced-append b [] ds = refl
silenced-append b (c ∷ cs) ds = silenced-append (sound_after b c) cs ds

-- The player refuses a later attempt to play, by an error and by its answer; then the user presses
-- play, and it plays.
abbrev pub refused_once : Reading → List Event
refused_once r = refused true ∷ play_ended false ∷ user_plays true r ∷ play_ended true ∷ []

-- The controller may leave the player muted with nothing on screen that offers sound: if it muted
-- the player for autoplay, and a later attempt to play is refused, then the press of play that
-- follows takes the prompt down and does not take the sound back.
pub refused_once-silences :
    (l : Loop) (r : Reading)
    → silenced false l.done ≡ true
    → l.muted_for_autoplay ≡ true
    → (silenced false (run l (refused_once r)).done ≡ true)
      × ((run l (refused_once r)).needs_gesture ≡ false)
      × ((run l (refused_once r)).muted_for_autoplay ≡ false)
unfolding silenced run happen on_autoplay_error play_answered play_intent clear_gesture_prompt
refused_once-silences l r h m =
    let asked : List PlayerCall = play_now ∷ send_control play none ∷ [] in
    (rw append_assoc (silenced-append false l.done asked ∙ rw h), refl, refl)
