-- ===== src/Ids/Examples.antt =====
-- Tests of the identifiers and codes of packages/shared/src/ids.ts, at concrete inputs.
use syncstudies.Base.{
  ℕ, ◌≤◌, ◌<◌, ◌≡◌, refl, ap, ◌∙◌, arith, Bool, true, false, ◌&&◌, ◌||◌, List, [], ◌∷◌, none, some,
  if◌then◌else◌, All, map, leb, ◌==◌,
}
use syncstudies.Ids.Uuid.{Sequence, fresh_entropy, next_stamp, uuidv7}
use syncstudies.Ids.Issued.{Calls, issued, after, IsAscending, issued-IsAscending}
use syncstudies.Ids.Codes.{
  fill, fill_draws, pick, pick_index, code_alphabet, random_code, upper_unit, JsCase,
  normalize_room_code, format_room_code,
}
use syncstudies.Ids.Typed.{typed, normalize-format}

abbrev fresh : Sequence
fresh = record { last_ms = none; last_entropy = 0 }

abbrev ten_bytes : List ℕ
ten_bytes = 255 ∷ 255 ∷ 255 ∷ 255 ∷ 255 ∷ 255 ∷ 255 ∷ 255 ∷ 255 ∷ 255 ∷ []

-- The clock stands still, with the entropy at its maximum, and then steps back.
abbrev calls : Calls
calls = (1700000000000, ten_bytes) ∷ (1700000000000, ten_bytes) ∷ (1699999999990, ten_bytes) ∷ []

issued-IsAscending_example : IsAscending (issued fresh calls)
unfolding after uuidv7 next_stamp fresh_entropy
issued-IsAscending_example = issued-IsAscending fresh calls (omega arith)

-- The first byte of each draw is rejected.
abbrev draws : List (List ℕ)
draws = (255 ∷ 0 ∷ 31 ∷ []) ∷ (240 ∷ 8 ∷ 9 ∷ []) ∷ []

random_code_test : random_code 3 code_alphabet draws ≡ some (b'2' ∷ b'3' ∷ b'A' ∷ [])
unfolding random_code fill_draws fill pick pick_index
random_code_test = refl

-- An engine that knows the spaces and letters of ASCII.
abbrev ascii_space : ℕ → Bool
ascii_space c = c == 32 || leb 9 c && leb c 13

trim_start : List ℕ → List ℕ
trim_start [] = []
trim_start (c ∷ cs) = if ascii_space c then trim_start cs else c ∷ cs

trim_end : List ℕ → List ℕ
trim_end [] = []
trim_end (c ∷ cs) = add (trim_end cs)
  where
    add : List ℕ → List ℕ
    add [] = if ascii_space c then [] else c ∷ []
    add (d ∷ ds) = c ∷ d ∷ ds

abbrev ascii_trim : List ℕ → List ℕ
ascii_trim cs = trim_end (trim_start cs)

ascii_space-graphic : (c : ℕ) → 33 ≤ c → c < 127 → ascii_space c ≡ false
ascii_space-graphic c h k = ground arith

trim_start_none : (cs : List ℕ) → All (λ c. ascii_space c ≡ false) cs → trim_start cs ≡ cs
unfolding trim_start
trim_start_none [] h = refl
trim_start_none (c ∷ cs) (p, h) = rw p refl

trim_end_none : (cs : List ℕ) → All (λ c. ascii_space c ≡ false) cs → trim_end cs ≡ cs
unfolding trim_end
trim_end_none [] h = refl
trim_end_none (c ∷ []) (p, h) = rw p refl
trim_end_none (c ∷ d ∷ ds) (p, h) = rw (trim_end_none (d ∷ ds) h) refl

abbrev ascii : JsCase
ascii = record {
  is_space = ascii_space;
  trim = ascii_trim;
  upper = map upper_unit;
  graphic = ascii_space-graphic;
  trim_none = λ xs h. ap trim_end (trim_start_none xs h) ∙ trim_end_none xs h;
  upper_ascii = λ xs h. refl;
}

abbrev a_code : List ℕ
a_code = b'7' ∷ b'K' ∷ b'2' ∷ b'Q' ∷ b'M' ∷ b'9' ∷ b'X' ∷ b'F' ∷ []

normalize-format_example :
    normalize_room_code ascii (map (typed true) (format_room_code a_code)) ≡ some a_code
normalize-format_example = normalize-format ascii a_code true refl refl
