-- ===== src/ServerClock/Step.antt =====
-- A step of the browser's own clock, which moves the skew, and the sync that follows it.
use syncstudies.Base.{
  ◌≡◌, sym, ap, ◌∙◌, arith, ◌⊎◌, inl, inr, true, List, ◌∷◌, Option, if◌then◌else◌, All, map,
}
use mathlib.Core.Path.{subst}
use syncstudies.Base.Int.{ℤ, pos, ◌+ℤ◌, ◌-ℤ◌, ◌*ℤ◌, ◌≤ℤ◌, +ℤ_parts, -ℤ_parts, *ℤ_parts}
use syncstudies.ServerClock.{
  Clock, Sample, ewma, median, best_samples, adjust, collect, fresh_samples, floor_div,
}
use syncstudies.ServerClock.Truth.{Within, median-Within}

-- Samples that are exactly right.
abbrev pub IsExact : ℤ → Sample → Type 0
IsExact skew s = (skew ≤ℤ s.offset) × (s.offset ≤ℤ skew)

module _ (x y : ℤ) where
  tenth_above : y *ℤ pos 10 ≤ℤ x → y ≤ℤ floor_div x 10
  unfolding ◌*ℤ◌
  tenth_above h = ground arith

  tenth_below : x ≤ℤ y *ℤ pos 10 → floor_div x 10 ≤ℤ y
  unfolding ◌*ℤ◌
  tenth_below h = ground arith

-- Two readings that are at least so far apart, whichever is ahead.
abbrev pub AreApart : ℤ → ℤ → ℤ → Type 0
AreApart far a b = (a +ℤ far ≤ℤ b) ⊎ (b +ℤ far ≤ℤ a)

ewma-AreApart :
    (skew a b : ℤ)
    → Within skew skew b
    → AreApart (pos 50_000_000) skew a
    → AreApart (pos 34_000_000) skew (ewma a b)
unfolding ewma
ewma-AreApart skew a b right (inl ahead) = inl (
    tenth_above (a *ℤ pos 7 +ℤ b *ℤ pos 3) (skew +ℤ pos 34_000_000) (
      omega (
        arith,
        right.0,
        ahead,
        +ℤ_parts skew (pos 50_000_000),
        +ℤ_parts skew (pos 34_000_000),
        *ℤ_parts (skew +ℤ pos 34_000_000) (pos 10),
        *ℤ_parts a (pos 7),
        *ℤ_parts b (pos 3),
        +ℤ_parts (a *ℤ pos 7) (b *ℤ pos 3),
      )))
ewma-AreApart skew a b right (inr behind) =
    let limit : ℤ = skew -ℤ pos 34_000_000 in
    let low : floor_div (a *ℤ pos 7 +ℤ b *ℤ pos 3) 10 ≤ℤ limit =
      tenth_below (a *ℤ pos 7 +ℤ b *ℤ pos 3) limit (
        omega (
          arith,
          right.1,
          behind,
          +ℤ_parts a (pos 50_000_000),
          -ℤ_parts skew (pos 34_000_000),
          *ℤ_parts limit (pos 10),
          *ℤ_parts a (pos 7),
          *ℤ_parts b (pos 3),
          +ℤ_parts (a *ℤ pos 7) (b *ℤ pos 3),
        )) in
    inr (
      omega (
        arith,
        low,
        -ℤ_parts skew (pos 34_000_000),
        +ℤ_parts (floor_div (a *ℤ pos 7 +ℤ b *ℤ pos 3) 10) (pos 34_000_000),
      ))

-- A clock that is ready and is off by fifty seconds or more, ahead or behind, as after a step of the
-- browser's own clock, is still off by 34 seconds or more after a sync whose samples are exactly
-- right, of which there is one at least: the old estimate keeps seven tenths of its weight.
pub collect-keeps_step :
    (c : Clock) (answers : List (Option Sample)) (s : Sample) (ss : List Sample) (skew : ℤ)
    → c.ready ≡ true
    → fresh_samples answers ≡ s ∷ ss
    → All (IsExact skew) (s ∷ ss)
    → AreApart (pos 50_000_000) skew c.offset
    → AreApart (pos 34_000_000) skew (collect c answers).offset
unfolding collect
collect-keeps_step c answers s ss skew ready e exact far =
    let next : ℤ = median (map (λ s. s.offset) (best_samples (s ∷ ss))) in
    let adjusted : (collect c answers).offset ≡ ewma c.offset next =
      ap (λ f. (adjust c f).offset) e ∙ ap (λ b. if b then ewma c.offset next else next) ready in
    subst (AreApart (pos 34_000_000) skew) (sym adjusted)
      (ewma-AreApart skew c.offset next (median-Within skew skew s ss exact) far)
