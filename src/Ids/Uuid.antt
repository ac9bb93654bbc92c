-- ===== src/Ids/Uuid.antt =====
-- packages/shared/src/ids.ts: `uuidv7`, the bytes of an id, its text, and the time in it.
use syncstudies.Base.{
  ℕ, ◌+◌, ◌-◌, ◌*◌, ◌/◌, ◌%◌, ◌^◌, Bool, true, not, List, [], ◌∷◌, Option, none, some,
  if◌then◌else◌, ltb, ◌==◌, take, keep,
}
use Prim.Native.Nat.{bit_or}
use syncstudies.Ids.Lex.{insert_at}

abbrev pub entropy_max : ℕ
entropy_max = 2 ^ 74 - 1

abbrev pub from_bytes : ℕ → List ℕ → ℕ
from_bytes value [] = value
from_bytes value (b ∷ bs) = from_bytes (value * 256 + b) bs

-- The lowest 74 bits of the ten bytes drawn.
unfoldable pub fresh_entropy : List ℕ → ℕ
fresh_entropy bytes = from_bytes 0 bytes % 2 ^ 74

-- `lastMs` is -1 before the first id; `lastEntropy`.
pub record Sequence : Type 0 where
  pub last_ms : Option ℕ
  pub last_entropy : ℕ

abbrev pub is_later : ℕ → Option ℕ → Bool
is_later ms none = true
is_later ms (some last) = ltb last ms

abbrev pub or_zero : Option ℕ → ℕ
or_zero none = 0
or_zero (some ms) = ms

-- The time and the entropy of the next id, on the bytes that the draw gives if one is made.
unfoldable pub next_stamp : Sequence → ℕ → List ℕ → ℕ × ℕ
next_stamp s now_ms drawn =
    if is_later now_ms s.last_ms
    then (now_ms, fresh_entropy drawn)
    else if ltb entropy_max (s.last_entropy + 1)
    then (or_zero s.last_ms + 1, fresh_entropy drawn)
    else (or_zero s.last_ms, s.last_entropy + 1)

-- `n >> k` and `& 0xff`.
abbrev pub byte_at : ℕ → ℕ → ℕ
byte_at n k = n / 2 ^ k % 256

unfoldable pub pack_bytes : ℕ → ℕ → List ℕ
pack_bytes ms entropy =
    byte_at ms 40
    ∷ byte_at ms 32
    ∷ byte_at ms 24
    ∷ byte_at ms 16
    ∷ byte_at ms 8
    ∷ ms % 256
    ∷ bit_or 0x70 (entropy / 2 ^ 70 % 16)
    ∷ byte_at entropy 62
    ∷ bit_or 0x80 (entropy / 2 ^ 56 % 64)
    ∷ byte_at entropy 48
    ∷ byte_at entropy 40
    ∷ byte_at entropy 32
    ∷ byte_at entropy 24
    ∷ byte_at entropy 16
    ∷ byte_at entropy 8
    ∷ byte_at entropy 0
    ∷ []

unfoldable pub hex_digit : ℕ → ℕ
hex_digit n = if ltb n 10 then b'0' + n else b'a' + (n - 10)

-- `b.toString(16).padStart(2, '0')`, joined.
unfoldable pub hex : List ℕ → List ℕ
hex [] = []
hex (b ∷ bs) = hex_digit (b / 16) ∷ hex_digit (b % 16) ∷ hex bs

-- The slices 0-8, 8-12, 12-16, 16-20 and from 20, joined by dashes, put in from the right.
unfoldable pub dashed : List ℕ → List ℕ
dashed digits = insert_at 8 b'-' (insert_at 12 b'-' (insert_at 16 b'-' (insert_at 20 b'-' digits)))

unfoldable pub pack : ℕ → ℕ → List ℕ
pack ms entropy = dashed (hex (pack_bytes ms entropy))

unfoldable pub uuidv7 : Sequence → ℕ → List ℕ → Sequence × List ℕ
uuidv7 s now_ms drawn =
    let (ms, entropy) = next_stamp s now_ms drawn in
    (record { last_ms = some ms; last_entropy = entropy }, pack ms entropy)

unfoldable pub uuidv7_at : ℕ → List ℕ → List ℕ
uuidv7_at ms drawn = pack ms (fresh_entropy drawn)

unfoldable pub digit_value : ℕ → ℕ
digit_value c = if ltb c b'a' then c - b'0' else c - b'a' + 10

-- `parseInt(digits, 16)` of hexadecimal digits in lower case.
unfoldable pub parse_hex : ℕ → List ℕ → ℕ
parse_hex value [] = value
parse_hex value (c ∷ cs) = parse_hex (value * 16 + digit_value c) cs

unfoldable pub uuidv7_time : List ℕ → ℕ
uuidv7_time id = parse_hex 0 (take 12 (keep (λ c. not (c == b'-')) id))
