-- ===== src/ServerClock/Truth.antt =====
-- How far the estimate can be from the server's clock.
use syncstudies.Base.{
  ℕ, zero, suc, ◌+◌, ◌-◌, ◌/◌, ◌%◌, ◌≤◌, ◌<◌, ◌≡◌, refl, ap, arith, Bool, true, not, List, [], ◌∷◌,
  Option, none, some, ◌==◌, take, length, map, All, if_either, length-take,
}
use syncstudies.Base.Int.{
  ℤ, pos, pos_part, neg_part, ◌+ℤ◌, ◌-ℤ◌, ◌*ℤ◌, ◌≤ℤ◌, ltb_ℤ, +ℤ_parts, -ℤ_parts, *ℤ_parts,
}
use syncstudies.Base.Sorting.{sort_by, insert_by, All-sort_by}
use syncstudies.ServerClock.{
  Clock, Sample, clock_max_rtt_ms, floor_div, value_at, middle_of, median, pong, fresh_samples,
  best_samples, ewma, adjust, collect, syncs,
}

-- Between two bounds.
module _ (lo hi : ℤ) where
  abbrev pub Within : ℤ → Type 0
  Within x = (lo ≤ℤ x) × (x ≤ℤ hi)

  value_at-Within : (xs : List ℤ) (i : ℕ) → i < length xs → All Within xs → Within (value_at xs i)
  value_at-Within [] i h w = absurd (omega arith)
  value_at-Within (x ∷ xs) zero h (wx, w) = wx
  value_at-Within (x ∷ xs) (suc i) h (wx, w) = value_at-Within xs i (omega arith) w

  mean-Within : (a b : ℤ) → Within a → Within b → Within (floor_div (a +ℤ b) 2)
  unfolding ◌+ℤ◌
  mean-Within a b h k = ground arith

  pub tenth-Within : (x : ℤ) → lo *ℤ pos 10 ≤ℤ x → x ≤ℤ hi *ℤ pos 10 → Within (floor_div x 10)
  unfolding ◌*ℤ◌
  tenth-Within x h k = ground arith

  ewma-Within : (a b : ℤ) → Within a → Within b → Within (ewma a b)
  unfolding ewma
  ewma-Within a b h k =
      tenth-Within (a *ℤ pos 7 +ℤ b *ℤ pos 3)
        (omega (
          arith,
          *ℤ_parts lo (pos 10),
          *ℤ_parts a (pos 7),
          *ℤ_parts b (pos 3),
          +ℤ_parts (a *ℤ pos 7) (b *ℤ pos 3),
        ))
        (omega (
          arith,
          *ℤ_parts hi (pos 10),
          *ℤ_parts a (pos 7),
          *ℤ_parts b (pos 3),
          +ℤ_parts (a *ℤ pos 7) (b *ℤ pos 3),
        ))

  middle_of-Within : (xs : List ℤ) → 1 ≤ length xs → All Within xs → Within (middle_of xs)
  middle_of-Within xs h w =
      if_either Within (length xs % 2 == 1) (value_at xs (length xs / 2))
        (floor_div (value_at xs (length xs / 2 - 1) +ℤ value_at xs (length xs / 2)) 2)
        (λ odd. value_at-Within xs (length xs / 2) (omega arith) w)
        (λ even.
          mean-Within (value_at xs (length xs / 2 - 1)) (value_at xs (length xs / 2))
            (value_at-Within xs (length xs / 2 - 1) (omega arith) w)
            (value_at-Within xs (length xs / 2) (omega arith) w))

module _ {A : Type 0} where
  length-insert_by :
      (less : A → A → Bool) (x : A) (ys : List A) → length (insert_by less x ys) ≡ suc (length ys)
  length-insert_by less x [] = refl
  length-insert_by less x (y ∷ ys) = ground (arith, length-insert_by less x ys)

  length-sort_by : (less : A → A → Bool) (xs : List A) → length (sort_by less xs) ≡ length xs
  length-sort_by less [] = refl
  length-sort_by less (x ∷ xs) =
      omega (arith, length-insert_by less x (sort_by less xs), length-sort_by less xs)

  All-take : (P : A → Type 0) (n : ℕ) (xs : List A) → All P xs → All P (take n xs)
  All-take P zero xs h = tt
  All-take P (suc n) [] h = tt
  All-take P (suc n) (x ∷ xs) (px, h) = (px, All-take P n xs h)

All-map_to :
    (P : ℤ → Type 0) (f : Sample → ℤ) (xs : List Sample) → All (λ s. P (f s)) xs → All P (map f xs)
All-map_to P f [] h = tt
All-map_to P f (x ∷ xs) (px, h) = (px, All-map_to P f xs h)

length-map_to : (f : Sample → ℤ) (xs : List Sample) → length (map f xs) ≡ length xs
length-map_to f [] = refl
length-map_to f (x ∷ xs) = omega (arith, length-map_to f xs)

-- The median of the better half lies where all offsets lie.
pub median-Within :
    (lo hi : ℤ) (s : Sample) (ss : List Sample)
    → All (λ s. Within lo hi s.offset) (s ∷ ss)
    → Within lo hi (median (map (λ s. s.offset) (best_samples (s ∷ ss))))
unfolding median best_samples
median-Within lo hi s ss h =
    let sorted : List Sample = sort_by (λ a b. ltb_ℤ a.rtt b.rtt) (s ∷ ss) in
    let n : ℕ = (length (s ∷ ss) + 1) / 2 in
    let values : List ℤ = map (λ s. s.offset) (take n sorted) in
    middle_of-Within lo hi (sort_by ltb_ℤ values)
      (omega (
        arith,
        length-sort_by ltb_ℤ values,
        length-map_to (λ s. s.offset) (take n sorted),
        length-take n sorted,
        length-sort_by (λ (a b : Sample). ltb_ℤ a.rtt b.rtt) (s ∷ ss),
      ))
      (All-sort_by ltb_ℤ (Within lo hi) values (
        All-map_to (Within lo hi) (λ s. s.offset) (take n sorted)
          (All-take (λ s. Within lo hi s.offset) n sorted
            (All-sort_by (λ a b. ltb_ℤ a.rtt b.rtt) (λ s. Within lo hi s.offset) (s ∷ ss) h))))

-- A sample is off by no more than half the time that its ping took; all in microseconds.
abbrev pub Fits : ℤ → Sample → Type 0
Fits skew s = (skew -ℤ s.rtt *ℤ pos 500 ≤ℤ s.offset) × (s.offset ≤ℤ skew +ℤ s.rtt *ℤ pos 500)

-- Whatever the ping's two ways take: the server reads its clock, which is ahead by the skew, at a
-- time between the ping's start and its end.
pong-Fits :
    (t0 at t2 server_ms skew : ℤ)
    → t0 ≤ℤ at
    → at ≤ℤ t2
    → server_ms *ℤ pos 1_000 ≡ at *ℤ pos 1_000 +ℤ skew
    → Fits skew (pong t0 server_ms t2)
unfolding pong
pong-Fits t0 at t2 server_ms skew h k e = (
  omega (
    arith,
    *ℤ_parts (t2 -ℤ t0) (pos 500),
    *ℤ_parts (t0 +ℤ t2) (pos 500),
    *ℤ_parts at (pos 1_000),
    -ℤ_parts t2 t0,
    +ℤ_parts t0 t2,
    +ℤ_parts (at *ℤ pos 1_000) skew,
    -ℤ_parts skew ((t2 -ℤ t0) *ℤ pos 500),
    +ℤ_parts skew ((t2 -ℤ t0) *ℤ pos 500),
    -ℤ_parts (server_ms *ℤ pos 1_000) ((t0 +ℤ t2) *ℤ pos 500),
    ap pos_part e,
    ap neg_part e,
  ),
  omega (
    arith,
    *ℤ_parts (t2 -ℤ t0) (pos 500),
    *ℤ_parts (t0 +ℤ t2) (pos 500),
    *ℤ_parts at (pos 1_000),
    -ℤ_parts t2 t0,
    +ℤ_parts t0 t2,
    +ℤ_parts (at *ℤ pos 1_000) skew,
    -ℤ_parts skew ((t2 -ℤ t0) *ℤ pos 500),
    +ℤ_parts skew ((t2 -ℤ t0) *ℤ pos 500),
    -ℤ_parts (server_ms *ℤ pos 1_000) ((t0 +ℤ t2) *ℤ pos 500),
    ap pos_part e,
    ap neg_part e,
  ),
)

-- What a sync gets: nothing, or a sample that fits.
abbrev pub AnswerFits : ℤ → Option Sample → Type 0
AnswerFits skew none = Unit
AnswerFits skew (some s) = Fits skew s

abbrev pub longest_error : ℤ
longest_error = pos 750_000

module _ (skew : ℤ) where
  abbrev pub IsNear : ℤ → Type 0
  IsNear x = (skew -ℤ longest_error ≤ℤ x) × (x ≤ℤ skew +ℤ longest_error)

  short-IsNear :
      (s : Sample) → Fits skew s → not (ltb_ℤ clock_max_rtt_ms s.rtt) ≡ true → IsNear s.offset
  short-IsNear s fit short =
      let rtt : s.rtt ≤ℤ clock_max_rtt_ms = ground (arith, short) in
      let within : s.rtt *ℤ pos 500 ≤ℤ longest_error = omega (arith, *ℤ_parts s.rtt (pos 500)) in
      (
        omega (arith, fit.0, -ℤ_parts skew longest_error, -ℤ_parts skew (s.rtt *ℤ pos 500)),
        omega (arith, fit.1, +ℤ_parts skew longest_error, +ℤ_parts skew (s.rtt *ℤ pos 500)),
      )

  fresh_samples-IsNear :
      (answers : List (Option Sample))
      → All (AnswerFits skew) answers
      → All (λ s. IsNear s.offset) (fresh_samples answers)
  unfolding fresh_samples
  fresh_samples-IsNear [] h = tt
  fresh_samples-IsNear (none ∷ answers) (n, h) = fresh_samples-IsNear answers h
  fresh_samples-IsNear (some s ∷ answers) (fit, h) =
      if_either (All (λ s. IsNear s.offset)) (not (ltb_ℤ clock_max_rtt_ms s.rtt))
        (s ∷ fresh_samples answers) (fresh_samples answers)
        (λ short. (short-IsNear s fit short, fresh_samples-IsNear answers h))
        (λ long. fresh_samples-IsNear answers h)

  adjust-IsNear :
      (c : Clock) (fresh : List Sample)
      → (c.ready ≡ true → IsNear c.offset)
      → All (λ s. IsNear s.offset) fresh
      → (adjust c fresh).ready ≡ true
      → IsNear (adjust c fresh).offset
  adjust-IsNear c [] ok near ready = ok ready
  adjust-IsNear c (s ∷ ss) ok near ready =
      let next : ℤ = median (map (λ s. s.offset) (best_samples (s ∷ ss))) in
      let fine : IsNear next =
        median-Within (skew -ℤ longest_error) (skew +ℤ longest_error) s ss near in
      if_either IsNear c.ready (ewma c.offset next) next
        (λ was.
          ewma-Within (skew -ℤ longest_error) (skew +ℤ longest_error) c.offset next (ok was) fine)
        (λ fresh. fine)

  -- Once the clock is ready it is off by no more than 750 ms, and it stays so, whatever syncs come
  -- and however many of their pings are lost: the skew of the server's clock stays as it is, and a
  -- sample is off by no more than half the time that its ping took. The clock starts so.
  pub syncs-IsNear :
      (c : Clock) (answers : List (List (Option Sample)))
      → (c.ready ≡ true → IsNear c.offset)
      → All (λ a. All (AnswerFits skew) a) answers
      → (syncs c answers).ready ≡ true
      → IsNear (syncs c answers).offset
  unfolding syncs collect
  syncs-IsNear c [] ok fit ready = ok ready
  syncs-IsNear c (a ∷ more) ok (fit, fits) ready =
      syncs-IsNear (collect c a) more
        (adjust-IsNear c (fresh_samples a) ok (fresh_samples-IsNear a fit)) fits ready
