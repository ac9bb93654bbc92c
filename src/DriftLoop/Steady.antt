-- ===== src/DriftLoop/Steady.antt =====
-- What the page shows of the playhead, look by look.
use mathlib.Core.Path.{subst}
use syncstudies.Base.{
  ◌≡◌, sym, ap, ◌∙◌, arith, true, ◌&&◌, ◌⊎◌, inl, inr, List, [], ◌∷◌, Option, none, some,
  if◌then◌else◌, All, if_either, Bool-cases,
}
use syncstudies.Base.Int.{ℤ, ◌+ℤ◌, ◌-ℤ◌, ◌≤ℤ◌, ltb_ℤ, +ℤ_parts, -ℤ_parts}
use syncstudies.DriftLoop.Loop.{plays}
use syncstudies.DriftLoop.Playhead.{
  Playhead, Look, one_second, get_playhead, resampled, extrapolated, smoothed, steadied,
  unless_previewed, forget_playhead,
}

-- The page looks; or the controller sends the player somewhere or resumes after a sleep, at which
-- it forgets the playhead.
pub data Act : Type 0 where
  look : Look → Act
  sought : Act

-- What each look shows, and nothing for a seek.
unfoldable pub shown : Playhead → List Act → List (Option ℤ)
shown p [] = []
shown p (look k ∷ acts) = some (get_playhead p k).0 ∷ shown (get_playhead p k).1 acts
shown p (sought ∷ acts) = none ∷ shown (forget_playhead p) acts

-- Forwards, or back by a second or more.
abbrev pub Follows : ℤ → ℤ → Type 0
Follows a b = (a ≤ℤ b) ⊎ (b +ℤ one_second ≤ℤ a)

-- From one look to the next without a seek in between.
abbrev pub FollowsIf : Option ℤ → Option ℤ → Type 0
FollowsIf none b = Unit
FollowsIf (some a) none = Unit
FollowsIf (some a) (some b) = Follows a b

abbrev pub IsForward : Option ℤ → List (Option ℤ) → Type 0
IsForward a [] = Unit
IsForward a (b ∷ bs) = FollowsIf a b × IsForward b bs

abbrev pub IsPlaying : Act → Type 0
IsPlaying (look k) = plays k.player ≡ true
IsPlaying sought = Unit

steadied-Follows : (previous estimate : ℤ) → Follows previous (steadied (some previous) estimate)
steadied-Follows previous estimate =
    if_either (Follows previous)
      (ltb_ℤ estimate previous && ltb_ℤ (previous -ℤ estimate) one_second) previous estimate
      (λ near. inl (omega arith))
      (λ far. elim (Bool-cases (ltb_ℤ estimate previous)) [
        | inl back ↦
            inr
              (ground (arith, far, back, -ℤ_parts previous estimate, +ℤ_parts estimate one_second))
        | inr on ↦ inl (ground (arith, on))
      ])

get_playhead-smoothed :
    (p : Playhead) (k : Look) → p.scrub_preview ≡ none → get_playhead p k ≡ smoothed p k
unfolding get_playhead
get_playhead-smoothed p k h = ap (unless_previewed p k) h

smoothed-steadied :
    (p : Playhead) (k : Look)
    → plays k.player ≡ true
    → (smoothed p k).0 ≡ steadied p.last_playhead (extrapolated (resampled p.sample k) k)
smoothed-steadied p k h =
    ap (λ b. if b then steadied p.last_playhead (extrapolated (resampled p.sample k) k) else k.raw)
      h

get_playhead-steadied :
    (p : Playhead) (k : Look)
    → p.scrub_preview ≡ none
    → plays k.player ≡ true
    → FollowsIf p.last_playhead (some (get_playhead p k).0)
get_playhead-steadied p k h playing =
    let estimate : ℤ = extrapolated (resampled p.sample k) k in
    let value : (get_playhead p k).0 ≡ steadied p.last_playhead estimate =
      ap (λ r. r.0) (get_playhead-smoothed p k h) ∙ smoothed-steadied p k playing in
    subst (λ x. FollowsIf p.last_playhead (some x)) (sym value) (go p.last_playhead estimate)
  where
    go : (o : Option ℤ) (estimate : ℤ) → FollowsIf o (some (steadied o estimate))
    go none estimate = tt
    go (some previous) estimate = steadied-Follows previous estimate

-- While the player plays and nothing is dragged, the playhead that the page shows does not jitter:
-- from one look to the next it goes forward or stays, or it goes back by a second or more, if the
-- controller has neither sent the player anywhere nor resumed after a sleep in between; whatever the
-- player reports, however often the page looks, and whatever seeks come before and after. It begins
-- from what was last shown, if that is not forgotten.
pub shown-IsForward :
    (p : Playhead) (acts : List Act)
    → p.scrub_preview ≡ none
    → All IsPlaying acts
    → IsForward p.last_playhead (shown p acts)
unfolding shown forget_playhead
shown-IsForward p [] h on = tt
shown-IsForward p (sought ∷ acts) h (playing, on) =
    (until_seek p.last_playhead, shown-IsForward (forget_playhead p) acts h on)
  where
    until_seek : (o : Option ℤ) → FollowsIf o none
    until_seek none = tt
    until_seek (some a) = tt
shown-IsForward p (look k ∷ acts) h (playing, on) =
    let g : get_playhead p k ≡ smoothed p k = get_playhead-smoothed p k h in
    let kept : (get_playhead p k).1.last_playhead ≡ some (get_playhead p k).0 =
      ap (λ r. r.1.last_playhead) g ∙ ap (λ r. some r.0) (sym g) in
    (
      get_playhead-steadied p k h playing,
      subst (λ o. IsForward o (shown (get_playhead p k).1 acts)) kept
          (shown-IsForward (get_playhead p k).1 acts (ap (λ r. r.1.scrub_preview) g ∙ h) on),
    )
