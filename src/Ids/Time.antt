-- ===== src/Ids/Time.antt =====
-- The time that an id carries.
use syncstudies.Base.{
  ℕ, ◌+◌, ◌*◌, ◌/◌, ◌%◌, ◌^◌, ◌≤◌, ◌<◌, ◌≡◌, refl, sym, ap, ◌∙◌, arith, Bool, true, not, List, [],
  ◌∷◌, Option, none, some, All, take, drop, keep, keep-append, take-append-drop, ◌==◌,
}
use syncstudies.Ids.Lex.{insert_at}
use syncstudies.Ids.Uuid.{
  Sequence, from_bytes, next_stamp, or_zero, pack_bytes, hex_digit, hex, dashed, pack, uuidv7,
  uuidv7_time, parse_hex, digit_value, byte_at,
}

abbrev no_dash : ℕ → Bool
no_dash c = not (c == b'-')

hex_digit-no_dash : (n : ℕ) → no_dash (hex_digit n) ≡ true
unfolding hex_digit
hex_digit-no_dash n = ground arith

keep-hex : (bs : List ℕ) → keep no_dash (hex bs) ≡ hex bs
unfolding hex
keep-hex [] = refl
keep-hex (b ∷ bs) =
    ground (arith, hex_digit-no_dash (b / 16), hex_digit-no_dash (b % 16), keep-hex bs)

keep-insert_at : (k : ℕ) (xs : List ℕ) → keep no_dash (insert_at k b'-' xs) ≡ keep no_dash xs
unfolding insert_at
keep-insert_at k xs =
    keep-append no_dash (take k xs) (b'-' ∷ drop k xs)
    ∙ sym (keep-append no_dash (take k xs) (drop k xs))
    ∙ ap (keep no_dash) (take-append-drop k xs)

keep-dashed : (xs : List ℕ) → keep no_dash (dashed xs) ≡ keep no_dash xs
unfolding dashed
keep-dashed xs =
    keep-insert_at 8 _ ∙ keep-insert_at 12 _ ∙ keep-insert_at 16 _ ∙ keep-insert_at 20 xs

digit_value-hex_digit : (n : ℕ) → n < 16 → digit_value (hex_digit n) ≡ n
unfolding hex_digit digit_value
digit_value-hex_digit n h = ground arith

parse_hex-hex :
    (v : ℕ) (bs : List ℕ) → All (λ (b : ℕ). b < 256) bs → parse_hex v (hex bs) ≡ from_bytes v bs
unfolding parse_hex hex
parse_hex-hex v [] h = refl
parse_hex-hex v (b ∷ bs) (small, h) =
    ap (λ n. parse_hex n (hex bs)) two_digits ∙ parse_hex-hex (v * 256 + b) bs h
  where
    two_digits :
        (v * 16 + digit_value (hex_digit (b / 16))) * 16 + digit_value (hex_digit (b % 16))
        ≡ v * 256 + b
    two_digits = omega (
      arith,
      digit_value-hex_digit (b / 16) (omega arith),
      digit_value-hex_digit (b % 16) (omega arith),
    )

abbrev time_bytes : ℕ → List ℕ
time_bytes ms =
    byte_at ms 40 ∷ byte_at ms 32 ∷ byte_at ms 24 ∷ byte_at ms 16 ∷ byte_at ms 8 ∷ ms % 256 ∷ []

from_bytes-time : (ms : ℕ) → ms < 2 ^ 48 → from_bytes 0 (time_bytes ms) ≡ ms
from_bytes-time ms h = omega arith

pack-time : (ms e : ℕ) → ms < 2 ^ 48 → uuidv7_time (pack ms e) ≡ ms
unfolding uuidv7_time pack pack_bytes hex
pack-time ms e h =
    ap (λ xs. parse_hex 0 (take 12 xs))
      (keep-dashed (hex (pack_bytes ms e)) ∙ keep-hex (pack_bytes ms e))
    ∙ parse_hex-hex 0 (time_bytes ms) (omega arith)
    ∙ from_bytes-time ms h

clock-le : (s : Sequence) (now_ms : ℕ) (drawn : List ℕ) → now_ms ≤ (next_stamp s now_ms drawn).0
unfolding next_stamp
clock-le s now_ms drawn = go s.last_ms refl
  where
    go : (o : Option ℕ) → s.last_ms ≡ o → now_ms ≤ (next_stamp s now_ms drawn).0
    go none e = rw e (omega arith)
    go (some t) e = ground arith

-- The time in an id is the one that the process has noted for it, and no earlier than the clock's,
-- while it fits into 48 bits.
pub uuidv7_time-uuidv7 :
    (s : Sequence) (now_ms : ℕ) (drawn : List ℕ)
    → or_zero (uuidv7 s now_ms drawn).0.last_ms < 2 ^ 48
    → (uuidv7_time (uuidv7 s now_ms drawn).1 ≡ or_zero (uuidv7 s now_ms drawn).0.last_ms)
      × (now_ms ≤ uuidv7_time (uuidv7 s now_ms drawn).1)
unfolding uuidv7
uuidv7_time-uuidv7 s now_ms drawn h =
    let next = next_stamp s now_ms drawn in
    let carried : uuidv7_time (pack next.0 next.1) ≡ next.0 = pack-time next.0 next.1 h in
    (carried, omega (arith, carried, clock-le s now_ms drawn))
