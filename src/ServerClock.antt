-- ===== src/ServerClock.antt =====
-- apps/web/lib/sync/clock.ts: the browser's estimate of the server's clock. Offsets are counted in
-- microseconds, rounded down. The answers to the pings of one `sync` are a list, shorter if the
-- socket was lost meanwhile, with nothing for a ping that timed out.
use syncstudies.Base.{
  ℕ, zero, suc, ◌+◌, ◌/◌, ◌%◌, ◌-◌, Bool, true, false, not, List, [], ◌∷◌, Option, none, some,
  if◌then◌else◌, ◌==◌, take, keep, length, map,
}
use syncstudies.Base.Int.{ℤ, pos, negsuc, ◌+ℤ◌, ◌-ℤ◌, ◌*ℤ◌, ltb_ℤ}
use syncstudies.Base.Sorting.{sort_by}
pub mod Truth
pub mod Step
pub mod Examples

abbrev pub clock_max_rtt_ms : ℤ
clock_max_rtt_ms = pos 1_500

pub record Sample : Type 0 where
  pub offset : ℤ
  pub rtt : ℤ

abbrev pub floor_div : ℤ → ℕ → ℤ
floor_div (pos a) n = pos (a / n)
floor_div (negsuc a) n = negsuc (a / n)

-- What `ping` makes of the answer to a ping, by the three times.
unfoldable pub pong : ℤ → ℤ → ℤ → Sample
pong t0 server_ms t2 = record {
  offset = server_ms *ℤ pos 1_000 -ℤ (t0 +ℤ t2) *ℤ pos 500;
  rtt = t2 -ℤ t0;
}

abbrev pub value_at : List ℤ → ℕ → ℤ
value_at [] i = pos 0
value_at (x ∷ xs) zero = x
value_at (x ∷ xs) (suc i) = value_at xs i

abbrev pub middle_of : List ℤ → ℤ
middle_of sorted =
    let mid : ℕ = length sorted / 2 in
    if length sorted % 2 == 1
    then value_at sorted mid
    else floor_div (value_at sorted (mid - 1) +ℤ value_at sorted mid) 2

unfoldable pub median : List ℤ → ℤ
median values = middle_of (sort_by ltb_ℤ values)

-- The samples that `collect` keeps as they come in.
unfoldable pub fresh_samples : List (Option Sample) → List Sample
fresh_samples [] = []
fresh_samples (none ∷ answers) = fresh_samples answers
fresh_samples (some s ∷ answers) =
    let rest : List Sample = fresh_samples answers in
    if not (ltb_ℤ clock_max_rtt_ms s.rtt) then s ∷ rest else rest

-- The better half by the time that the ping took.
unfoldable pub best_samples : List Sample → List Sample
best_samples fresh = take ((length fresh + 1) / 2) (sort_by (λ a b. ltb_ℤ a.rtt b.rtt) fresh)

pub record Clock : Type 0 where
  pub offset : ℤ
  pub one_way : ℤ
  pub ready : Bool

abbrev pub initial_clock : Clock
initial_clock = record { offset = pos 0; one_way = pos 40_000; ready = false }

-- Seven tenths of what was, three tenths of what is new.
unfoldable pub ewma : ℤ → ℤ → ℤ
ewma previous next = floor_div (previous *ℤ pos 7 +ℤ next *ℤ pos 3) 10

abbrev pub adjust : Clock → List Sample → Clock
adjust c [] = c
adjust c (s ∷ ss) =
    let best : List Sample = best_samples (s ∷ ss) in
    let next_offset : ℤ = median (map (λ s. s.offset) best) in
    let next_one_way : ℤ = median (map (λ s. s.rtt *ℤ pos 500) best) in
    record {
      offset = if c.ready then ewma c.offset next_offset else next_offset;
      one_way = if c.ready then ewma c.one_way next_one_way else next_one_way;
      ready = true;
    }

unfoldable pub collect : Clock → List (Option Sample) → Clock
collect c answers = adjust c (fresh_samples answers)

unfoldable pub syncs : Clock → List (List (Option Sample)) → Clock
syncs c [] = c
syncs c (answers ∷ more) = syncs (collect c answers) more
