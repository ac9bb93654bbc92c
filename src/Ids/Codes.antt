-- ===== src/Ids/Codes.antt =====
-- packages/shared/src/ids.ts: room codes. How the engine trims and upper-cases a text is the
-- parameter `JsCase`.
use syncstudies.Base.{
  ℕ, ◌+◌, ◌-◌, ◌*◌, ◌/◌, ◌%◌, ◌≤◌, ◌<◌, ◌≡◌, Bool, true, false, not, ◌&&◌, ◌||◌, List, [], ◌∷◌,
  ◌++◌, Option, none, some, if◌then◌else◌, ltb, leb, ◌==◌, take, drop, keep, length, get_elem?, All,
  map,
}

abbrev pub code_alphabet : List ℕ
code_alphabet =
    b'2' ∷ b'3' ∷ b'4' ∷ b'5' ∷ b'6' ∷ b'7' ∷ b'8' ∷ b'9' ∷ b'A' ∷ b'B' ∷ b'C' ∷ b'D' ∷ b'E' ∷ b'F'
    ∷ b'G' ∷ b'H' ∷ b'J' ∷ b'K' ∷ b'M' ∷ b'N' ∷ b'P' ∷ b'Q' ∷ b'R' ∷ b'S' ∷ b'T' ∷ b'V' ∷ b'W'
    ∷ b'X' ∷ b'Y' ∷ b'Z' ∷ []

abbrev pub room_code_length : ℕ
room_code_length = 8

-- The index of the symbol that a byte stands for, if the byte is not rejected.
unfoldable pub pick_index : ℕ → ℕ → Option ℕ
pick_index n byte = if leb (256 / n * n) byte then none else some (byte % n)

unfoldable pub pick : List ℕ → ℕ → Option ℕ
pick alphabet byte = elim (pick_index (length alphabet) byte) [
  | none ↦ none
  | some i ↦ get_elem? alphabet i
]

-- The loop over the bytes of one draw, which it leaves when the code is full.
unfoldable pub fill : List ℕ → ℕ → List ℕ → List ℕ → List ℕ
fill alphabet size out [] = out
fill alphabet size out (byte ∷ bytes) = elim (pick alphabet byte) [
  | none ↦ fill alphabet size out bytes
  | some ch ↦ elim (length (out ++ ch ∷ []) == size) [
    | true ↦ out ++ ch ∷ []
    | false ↦ fill alphabet size (out ++ ch ∷ []) bytes
  ]
]

-- Draw by draw; none if the draws at hand do not suffice.
unfoldable pub fill_draws : List ℕ → ℕ → List ℕ → List (List ℕ) → Option (List ℕ)
fill_draws alphabet size out [] = if ltb (length out) size then none else some out
fill_draws alphabet size out (draw ∷ draws) = elim (ltb (length out) size) [
  | true ↦ fill_draws alphabet size (fill alphabet size out draw) draws
  | false ↦ some out
]

unfoldable pub random_code : ℕ → List ℕ → List (List ℕ) → Option (List ℕ)
random_code size alphabet draws = fill_draws alphabet size [] draws

abbrev pub upper_unit : ℕ → ℕ
upper_unit c = if leb b'a' c && leb c b'z' then c - 32 else c

abbrev pub lower_unit : ℕ → ℕ
lower_unit c = if leb b'A' c && leb c b'Z' then c + 32 else c

-- What the engine's `trim`, `toUpperCase` and `\s` do, as far as the code relies on it.
pub record JsCase : Type 0 where
  pub is_space : ℕ → Bool
  pub trim : List ℕ → List ℕ
  pub upper : List ℕ → List ℕ
  pub graphic : (c : ℕ) → 33 ≤ c → c < 127 → is_space c ≡ false
  pub trim_none : (xs : List ℕ) → All (λ c. is_space c ≡ false) xs → trim xs ≡ xs
  pub upper_ascii : (xs : List ℕ) → All (λ (c : ℕ). c < 128) xs → upper xs ≡ map upper_unit xs

abbrev pub among : List ℕ → ℕ → Bool
among [] c = false
among (x ∷ xs) c = x == c || among xs c

abbrev pub is_symbol : ℕ → Bool
is_symbol c = among code_alphabet c

abbrev pub all_symbols : List ℕ → Bool
all_symbols [] = true
all_symbols (c ∷ cs) = is_symbol c && all_symbols cs

abbrev pub is_separator : JsCase → ℕ → Bool
is_separator js c = js.is_space c || c == b'-' || c == b'_' || c == b'.'

-- `normalizeRecoveryCode`, with which `normalizeRoomCode` begins.
unfoldable pub normalize_recovery_code : JsCase → List ℕ → List ℕ
normalize_recovery_code js input = keep (λ c. not (is_separator js c)) (js.upper (js.trim input))

unfoldable pub normalize_room_code : JsCase → List ℕ → Option (List ℕ)
unfolding normalize_recovery_code
normalize_room_code js input =
    let code : List ℕ = normalize_recovery_code js input in
    if not (length code == room_code_length)
    then none
    else if not (all_symbols code)
    then none
    else some code

unfoldable pub format_room_code : List ℕ → List ℕ
format_room_code code =
    if length code == room_code_length then take 4 code ++ b'-' ∷ drop 4 code else code
