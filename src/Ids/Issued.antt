-- ===== src/Ids/Issued.antt =====
-- The ids that one process issues, call by call.
use syncstudies.Base.{ℕ, ◌^◌, ◌≤◌, ◌<◌, ◌≡◌, refl, arith, List, [], ◌∷◌, Option, none, some, All}
use syncstudies.Base.Searching.{All-map}
use syncstudies.Ids.Lex.{Precedes, Precedes-trans}
use syncstudies.Ids.Uuid.{Sequence, entropy_max, fresh_entropy, next_stamp, or_zero, pack, uuidv7}
use syncstudies.Ids.Order.{IsLater, pack-Precedes}

-- The clock's reading and the bytes drawn, for each call of `uuidv7`.
abbrev pub Calls : Type 0
Calls = List (ℕ × List ℕ)

unfoldable pub issued : Sequence → Calls → List (List ℕ)
issued s [] = []
issued s ((now_ms, drawn) ∷ calls) =
    (uuidv7 s now_ms drawn).1 ∷ issued (uuidv7 s now_ms drawn).0 calls

unfoldable pub after : Sequence → Calls → Sequence
after s [] = s
after s ((now_ms, drawn) ∷ calls) = after (uuidv7 s now_ms drawn).0 calls

-- Each stands before all that follow it.
abbrev pub IsAscending : List (List ℕ) → Type 0
IsAscending [] = Unit
IsAscending (id ∷ ids) = All (Precedes id) ids × IsAscending ids

-- The time of a sequence that has issued an id.
abbrev stamped : ℕ → ℕ → Sequence
stamped ms e = record { last_ms = some ms; last_entropy = e }

next_stamp-entropy :
    (s : Sequence) (now_ms : ℕ) (drawn : List ℕ) → (next_stamp s now_ms drawn).1 ≤ entropy_max
unfolding next_stamp fresh_entropy
next_stamp-entropy s now_ms drawn = ground arith

next_stamp-IsLater :
    (ms e now_ms : ℕ) (drawn : List ℕ) → IsLater (ms, e) (next_stamp (stamped ms e) now_ms drawn)
unfolding next_stamp
next_stamp-IsLater ms e now_ms drawn = ground arith

next_stamp-le :
    (s : Sequence) (now_ms : ℕ) (drawn : List ℕ) → or_zero s.last_ms ≤ (next_stamp s now_ms drawn).0
unfolding next_stamp
next_stamp-le s now_ms drawn = go s.last_ms refl
  where
    go : (o : Option ℕ) → s.last_ms ≡ o → or_zero s.last_ms ≤ (next_stamp s now_ms drawn).0
    go none e = rw e (omega arith)
    go (some t) e = ground arith

after-le : (s : Sequence) (calls : Calls) → or_zero s.last_ms ≤ or_zero (after s calls).last_ms
unfolding after uuidv7
after-le s [] = omega arith
after-le s ((now_ms, drawn) ∷ calls) =
    omega (arith, next_stamp-le s now_ms drawn, after-le (uuidv7 s now_ms drawn).0 calls)

-- All that is issued after a stamp stands behind it.
issued-follow :
    (ms e : ℕ) (calls : Calls)
    → or_zero (after (stamped ms e) calls).last_ms < 2 ^ 48
    → All (Precedes (pack ms e)) (issued (stamped ms e) calls)
unfolding issued after uuidv7
issued-follow ms e [] h = tt
issued-follow ms e ((now_ms, drawn) ∷ calls) h =
    let next = next_stamp (stamped ms e) now_ms drawn in
    let first : Precedes (pack ms e) (pack next.0 next.1) =
      pack-Precedes ms e next.0 next.1 (next_stamp-IsLater ms e now_ms drawn)
        (omega (arith, after-le (stamped next.0 next.1) calls))
        (next_stamp-entropy (stamped ms e) now_ms drawn) in
    (
      first,
      All-map (Precedes (pack next.0 next.1)) (Precedes (pack ms e))
          (issued (stamped next.0 next.1) calls)
          (λ id. Precedes-trans (pack ms e) (pack next.0 next.1) id first)
          (issued-follow next.0 next.1 calls h),
    )

-- The ids that a process issues stand in the order of its calls, each before all later ones, as the
-- texts by which they are sorted: whatever the clock reads, also if it stands still or steps back,
-- and whatever is drawn. The time in the last of them fits into 48 bits.
pub issued-IsAscending :
    (s : Sequence) (calls : Calls)
    → or_zero (after s calls).last_ms < 2 ^ 48
    → IsAscending (issued s calls)
unfolding issued after uuidv7
issued-IsAscending s [] h = tt
issued-IsAscending s ((now_ms, drawn) ∷ calls) h =
    let next = next_stamp s now_ms drawn in
    (issued-follow next.0 next.1 calls h, issued-IsAscending (stamped next.0 next.1) calls h)
