-- ===== src/Ids/Typed.antt =====
-- A room code as it is displayed and as it is typed.
use mathlib.Core.Path.{subst}
use syncstudies.Base.Searching.{All-map}
use syncstudies.Base.{
  ℕ, zero, suc, ◌≤◌, ◌<◌, ◌≡◌, refl, sym, ap, ◌∙◌, arith, Bool, true, false, not, ◌&&◌, ◌||◌, List,
  [], ◌∷◌, ◌++◌, some, if◌then◌else◌, All, keep, keep-append, take, drop, take-append-drop, length,
  map, leb, ◌==◌, ==_iff, All-append, leb→le, Bool-cases, inl, inr,
}
use syncstudies.Ids.Codes.{
  code_alphabet, room_code_length, upper_unit, lower_unit, JsCase, among, is_symbol, all_symbols,
  is_separator, normalize_recovery_code, normalize_room_code, format_room_code,
}
use syncstudies.Ids.Order.{passes, passes-each}

-- Typed in capitals or in small letters.
abbrev pub typed : Bool → ℕ → ℕ
typed small c = if small then lower_unit c else c

-- What every symbol is, and the dash, on either keyboard.
abbrev fits : ℕ → Bool
fits c =
    not (is_symbol c)
    || leb 48 c && leb (lower_unit c) 122 && upper_unit c == c && upper_unit (lower_unit c) == c

fits_table : passes fits 128 ≡ true
unfolding passes
fits_table = refl

among-lt : (xs : List ℕ) (c : ℕ) → All (λ (x : ℕ). x < 128) xs → among xs c ≡ true → c < 128
among-lt [] c h m = cc
among-lt (x ∷ xs) c (p, h) m = ground (arith, among-lt xs c h)

record IsPlain (c : ℕ) : Type 0 where
  low : 48 ≤ c
  high : lower_unit c ≤ 122
  capital : upper_unit c ≡ c
  back : upper_unit (lower_unit c) ≡ c

all_four :
    (s a b d e : Bool)
    → (not s || a && b && d && e) ≡ true
    → s ≡ true
    → (a ≡ true) × (b ≡ true) × (d ≡ true) × (e ≡ true)
all_four s a b d e h k = ground arith

is_symbol-IsPlain : (c : ℕ) → is_symbol c ≡ true → IsPlain c
is_symbol-IsPlain c h =
    let small : c < 128 = among-lt code_alphabet c (omega arith) h in
    let t =
      all_four (is_symbol c) (leb 48 c) (leb (lower_unit c) 122) (upper_unit c == c)
        (upper_unit (lower_unit c) == c) (passes-each fits 128 c small fits_table) h in
    record {
      low = leb→le 48 c t.0;
      high = leb→le (lower_unit c) 122 t.1;
      capital = (==_iff (upper_unit c) c).0 t.2;
      back = (==_iff (upper_unit (lower_unit c)) c).0 t.3;
    }

typed-upper : (small : Bool) (c : ℕ) → is_symbol c ≡ true → upper_unit (typed small c) ≡ c
typed-upper true c h = (is_symbol-IsPlain c h).back
typed-upper false c h = (is_symbol-IsPlain c h).capital

typed-range :
    (small : Bool) (c : ℕ) → is_symbol c ≡ true → (48 ≤ typed small c) × (typed small c ≤ 122)
typed-range small c h = let p : IsPlain c = is_symbol-IsPlain c h in ground (arith, p.low, p.high)

-- Of each unit typed: it is a graphic ASCII character.
IsGraphic : ℕ → Type 0
IsGraphic c = (33 ≤ c) × (c < 127)

all_symbols-cons :
    (c : ℕ) (cs : List ℕ)
    → all_symbols (c ∷ cs) ≡ true
    → (is_symbol c ≡ true) × (all_symbols cs ≡ true)
all_symbols-cons c cs h = and_parts (is_symbol c) (all_symbols cs) h
  where
    and_parts : (a b : Bool) → (a && b) ≡ true → (a ≡ true) × (b ≡ true)
    and_parts a b e = ground arith

typed-IsGraphic :
    (small : Bool) (cs : List ℕ) → all_symbols cs ≡ true → All IsGraphic (map (typed small) cs)
unfolding IsGraphic
typed-IsGraphic small [] h = tt
typed-IsGraphic small (c ∷ cs) h =
    let (first, rest) = all_symbols-cons c cs h in
    let r = typed-range small c first in
    ((omega (arith, r.0), omega (arith, r.1)), typed-IsGraphic small cs rest)

all_symbols-take :
    (n : ℕ) (cs : List ℕ)
    → all_symbols cs ≡ true
    → (all_symbols (take n cs) ≡ true) × (all_symbols (drop n cs) ≡ true)
all_symbols-take zero cs h = (refl, h)
all_symbols-take (suc n) [] h = (refl, refl)
all_symbols-take (suc n) (c ∷ cs) h =
    let (first, rest) = all_symbols-cons c cs h in
    let r = all_symbols-take n cs rest in
    (both (is_symbol c) (all_symbols (take n cs)) first r.0, r.1)
  where
    both : (a b : Bool) → a ≡ true → b ≡ true → (a && b) ≡ true
    both a b p q = ground arith

map_upper-typed :
    (small : Bool) (cs : List ℕ)
    → all_symbols cs ≡ true
    → map upper_unit (map (typed small) cs) ≡ cs
map_upper-typed small [] h = refl
map_upper-typed small (c ∷ cs) h =
    let (first, rest) = all_symbols-cons c cs h in
    ap (λ d. d ∷ map upper_unit (map (typed small) cs)) (typed-upper small c first)
    ∙ ap (λ ds. c ∷ ds) (map_upper-typed small cs rest)

not_underscore : (c : ℕ) → is_symbol c ≡ true → (c == b'_') ≡ false
not_underscore c h = elim (Bool-cases (c == b'_')) [
  | inl same ↦
      let e : c ≡ b'_' = (==_iff c b'_').0 same in
      let no : is_symbol c ≡ false = ap is_symbol e in absurd (cc)
  | inr other ↦ other
]

keep_yes : (p : ℕ → Bool) (x : ℕ) (xs : List ℕ) → p x ≡ true → keep p (x ∷ xs) ≡ x ∷ keep p xs
keep_yes p x xs h = ground arith

keep_no : (p : ℕ → Bool) (x : ℕ) (xs : List ℕ) → p x ≡ false → keep p (x ∷ xs) ≡ keep p xs
keep_no p x xs h = ground arith

either_true : (a : Bool) → not (a || true || false || false) ≡ false
either_true a = ground arith

module _ (js : JsCase) where
  not_separator : (c : ℕ) → is_symbol c ≡ true → is_separator js c ≡ false
  not_separator c h =
      let p = is_symbol-IsPlain c h in
      ground (
        arith,
        p.low,
        p.high,
        not_underscore c h,
        js.graphic c (omega (arith, p.low)) (ground (arith, p.low, p.high)),
      )

  keep-symbols : (cs : List ℕ) → all_symbols cs ≡ true → keep (λ c. not (is_separator js c)) cs ≡ cs
  keep-symbols [] h = refl
  keep-symbols (c ∷ cs) h =
      let (first, rest) = all_symbols-cons c cs h in
      keep_yes (λ c. not (is_separator js c)) c cs (ap not (not_separator c first))
      ∙ ap (λ xs. c ∷ xs) (keep-symbols cs rest)

  -- A code in two parts with a dash between them.
  keep-dashed_code :
      (xs ys : List ℕ)
      → all_symbols xs ≡ true
      → all_symbols ys ≡ true
      → keep (λ c. not (is_separator js c)) (xs ++ b'-' ∷ ys) ≡ xs ++ ys
  keep-dashed_code xs ys h k =
      keep-append (λ c. not (is_separator js c)) xs (b'-' ∷ ys)
      ∙ ap (λ zs. zs ++ keep (λ c. not (is_separator js c)) (b'-' ∷ ys)) (keep-symbols xs h)
      ∙ ap (λ zs. xs ++ zs)
          (keep_no (λ c. not (is_separator js c)) b'-' ys dash ∙ keep-symbols ys k)
    where
      dash : not (is_separator js b'-') ≡ false
      dash = either_true (js.is_space b'-')

  map-units : (f : ℕ → ℕ) (xs ys : List ℕ) → map f (xs ++ ys) ≡ map f xs ++ map f ys
  map-units f [] ys = refl
  map-units f (x ∷ xs) ys = ap (λ zs. f x ∷ zs) (map-units f xs ys)

  module _ (small : Bool) (xs ys : List ℕ) (h : all_symbols xs ≡ true)
      (k : all_symbols ys ≡ true) where
    abbrev shown : List ℕ
    shown = map (typed small) (xs ++ b'-' ∷ ys)

    dash-typed : typed small b'-' ≡ b'-'
    dash-typed = ground arith

    shown-parts : shown ≡ map (typed small) xs ++ b'-' ∷ map (typed small) ys
    shown-parts =
        map-units (typed small) xs (b'-' ∷ ys)
        ∙ ap (λ c. map (typed small) xs ++ c ∷ map (typed small) ys) dash-typed

    shown-IsGraphic : All IsGraphic shown
    unfolding IsGraphic
    shown-IsGraphic = subst (All IsGraphic) (sym shown-parts) (
        All-append IsGraphic (map (typed small) xs) (b'-' ∷ map (typed small) ys)
          (typed-IsGraphic small xs h) ((omega arith, omega arith), typed-IsGraphic small ys k))

    upper-shown : map upper_unit shown ≡ xs ++ b'-' ∷ ys
    upper-shown =
        ap (map upper_unit) shown-parts
        ∙ map-units upper_unit (map (typed small) xs) (b'-' ∷ map (typed small) ys)
        ∙ ap (λ zs. zs ++ b'-' ∷ map upper_unit (map (typed small) ys)) (map_upper-typed small xs h)
        ∙ ap (λ zs. xs ++ b'-' ∷ zs) (map_upper-typed small ys k)

    recovery-shown : normalize_recovery_code js shown ≡ xs ++ ys
    unfolding normalize_recovery_code IsGraphic
    recovery-shown =
        ap (λ zs. keep (λ c. not (is_separator js c)) (js.upper zs))
          (js.trim_none shown (
            All-map IsGraphic (λ c. js.is_space c ≡ false) shown (λ c g. js.graphic c g.0 g.1)
              shown-IsGraphic))
        ∙ ap (keep (λ c. not (is_separator js c))) (
            js.upper_ascii shown (
              All-map IsGraphic (λ (c : ℕ). c < 128) shown (λ c g. omega (arith, g.1))
                shown-IsGraphic)
            ∙ upper-shown)
        ∙ keep-dashed_code xs ys h k

  -- A room code survives being displayed and typed again, in capitals or in small letters, with the
  -- dash that the display puts into it.
  pub normalize-format :
      (code : List ℕ) (small : Bool)
      → length code ≡ room_code_length
      → all_symbols code ≡ true
      → normalize_room_code js (map (typed small) (format_room_code code)) ≡ some code
  unfolding normalize_room_code format_room_code
  normalize-format code small long fine =
      let parts = all_symbols-take 4 code fine in
      ground (
        arith,
        recovery-shown small (take 4 code) (drop 4 code) parts.0 parts.1,
        take-append-drop 4 code,
      )
