-- ===== src/Ids/Draws.antt =====
-- `randomCode`: what it returns, and that each symbol is as likely as any other.
use mathlib.Core.Path.{subst}
use native.Mathlib.Nat.{mul-add-mod_self_right, mod-eq_of_lt, zero-mul, div-mul-le_self}
use native.Mathlib.Decide.{dec_lt}
use syncstudies.Base.{
  min, if◌then◌else◌, le→ltb_false, length-take, ℕ, zero, suc, ◌+◌, ◌*◌, ◌/◌, ◌%◌, ◌≤◌, ◌<◌, ◌≡◌,
  refl, sym, ap, ◌∙◌, arith, Bool, true, false, List, [], ◌∷◌, ◌++◌, Bool-cases, inl, inr, Option,
  none, some, ltb, ◌==◌, ==_iff, take, length, length-append, append_assoc, append-nil,
}
use syncstudies.Base.Searching.{count}
use syncstudies.Ids.Codes.{pick_index, pick, fill, fill_draws, random_code}

abbrev pub to_list {ℓ} : {A : Type ℓ} → Option A → List A
to_list none = []
to_list (some a) = a ∷ []

-- The symbols that the bytes stand for, those rejected left out.
unfoldable pub picks : List ℕ → List ℕ → List ℕ
picks alphabet [] = []
picks alphabet (b ∷ bs) = to_list (pick alphabet b) ++ picks alphabet bs

unfoldable pub joined : List (List ℕ) → List ℕ
joined [] = []
joined (d ∷ ds) = d ++ joined ds

picks-append :
    (alphabet xs ys : List ℕ) → picks alphabet (xs ++ ys) ≡ picks alphabet xs ++ picks alphabet ys
unfolding picks
picks-append alphabet [] ys = refl
picks-append alphabet (x ∷ xs) ys =
    ap (λ zs. to_list (pick alphabet x) ++ zs) (picks-append alphabet xs ys)
    ∙ sym (append_assoc (to_list (pick alphabet x)) (picks alphabet xs) (picks alphabet ys))

take-append : (n : ℕ) (xs ys : List ℕ) → n ≤ length xs → take n (xs ++ ys) ≡ take n xs
take-append zero xs ys h = refl
take-append (suc n) [] ys h = absurd (omega arith)
take-append (suc n) (x ∷ xs) ys h = ap (λ zs. x ∷ zs) (take-append n xs ys (omega arith))

take-all : (n : ℕ) (xs : List ℕ) → length xs ≤ n → take n xs ≡ xs
take-all zero [] h = refl
take-all zero (x ∷ xs) h = absurd (omega arith)
take-all (suc n) [] h = refl
take-all (suc n) (x ∷ xs) h = ap (λ zs. x ∷ zs) (take-all n xs (omega arith))

length-snoc : (xs : List ℕ) (c : ℕ) → length (xs ++ c ∷ []) ≡ suc (length xs)
length-snoc xs c = omega (arith, length-append {0} xs (c ∷ []))

-- One byte, by what is picked for it.
fill_step :
    (alphabet : List ℕ) (size : ℕ) (out bytes : List ℕ) (o : Option ℕ)
    → length out < size
    → ((out' : List ℕ)
        → length out' < size
        → fill alphabet size out' bytes ≡ take size (out' ++ picks alphabet bytes))
    → (elim o [
      | none ↦ fill alphabet size out bytes
      | some ch ↦ elim (length (out ++ ch ∷ []) == size) [
        | true ↦ out ++ ch ∷ []
        | false ↦ fill alphabet size (out ++ ch ∷ []) bytes
      ]
    ])
      ≡ take size (out ++ (to_list o ++ picks alphabet bytes))
fill_step alphabet size out bytes none h ih = ih out h
fill_step alphabet size out bytes (some ch) h ih =
    let more : List ℕ = out ++ ch ∷ [] in
    elim (Bool-cases (length more == size)) [
      | inl full ↦
          let e : length more ≡ size = (==_iff (length more) size).0 full in
          rw full (
            sym (take-all size more (omega arith))
            ∙ sym (take-append size more (picks alphabet bytes) (omega arith))
            ∙ ap (take size) (append_assoc out (ch ∷ []) (picks alphabet bytes)))
      | inr open_ ↦ rw open_ (
          ih more (shorter open_)
          ∙ ap (take size) (append_assoc out (ch ∷ []) (picks alphabet bytes)))
    ]
  where
    shorter : (length (out ++ ch ∷ []) == size) ≡ false → length (out ++ ch ∷ []) < size
    shorter e = ground (arith, length-snoc out ch)

-- One draw adds its symbols up to the size.
fill-take :
    (alphabet : List ℕ) (size : ℕ) (out bytes : List ℕ)
    → length out < size
    → fill alphabet size out bytes ≡ take size (out ++ picks alphabet bytes)
unfolding fill picks
fill-take alphabet size out [] h = rw append-nil (sym (take-all size out (omega arith)))
fill-take alphabet size out (b ∷ bs) h =
    fill_step alphabet size out bs (pick alphabet b) h (λ out'. fill-take alphabet size out' bs)

take-take_append : (n : ℕ) (xs ys : List ℕ) → take n (take n xs ++ ys) ≡ take n (xs ++ ys)
take-take_append zero xs ys = refl
take-take_append (suc n) [] ys = refl
take-take_append (suc n) (x ∷ xs) ys = ap (λ zs. x ∷ zs) (take-take_append n xs ys)

length-take_append : (n : ℕ) (xs ys : List ℕ) → n ≤ length (xs ++ ys) → n ≤ length (take n xs ++ ys)
length-take_append n xs ys h =
    omega (arith, length-append {0} xs ys, length-append {0} (take n xs) ys, length-take {0} n xs)

module _ (alphabet : List ℕ) (size : ℕ) (out d : List ℕ) (ds : List (List ℕ)) where
  fill_more :
      length out < size
      → fill_draws alphabet size out (d ∷ ds)
        ≡ fill_draws alphabet size (fill alphabet size out d) ds
  unfolding fill_draws
  fill_more h = ground arith

  fill_done : size ≤ length out → fill_draws alphabet size out (d ∷ ds) ≡ some out
  unfolding fill_draws
  fill_done h = ground arith

fill_draws-take :
    (alphabet : List ℕ) (size : ℕ) (out : List ℕ) (draws : List (List ℕ))
    → length out ≤ size
    → size ≤ length (out ++ picks alphabet (joined draws))
    → fill_draws alphabet size out draws ≡ some (take size (out ++ picks alphabet (joined draws)))
unfolding fill_draws joined picks
fill_draws-take alphabet size out [] h k =
    let e : length (out ++ []) ≡ length out = ap length (append-nil out) in
    let full : length out ≡ size = omega (arith, e) in
    let whole : take size (out ++ []) ≡ out = rw append-nil (take-all size out (omega arith)) in
    rw (whole, le→ltb_false (length out) size (omega arith))
fill_draws-take alphabet size out (d ∷ ds) h k =
    let all : List ℕ = out ++ picks alphabet d in
    let regroup : out ++ picks alphabet (d ++ joined ds) ≡ all ++ picks alphabet (joined ds) =
      ap (λ xs. out ++ xs) (picks-append alphabet d (joined ds))
      ∙ sym (append_assoc out (picks alphabet d) (picks alphabet (joined ds))) in
    let k' : size ≤ length (all ++ picks alphabet (joined ds)) =
      subst (λ xs. size ≤ length xs) regroup k in
    elim (dec_lt (length out) size) [
      | yes room ↦
          let filled : fill alphabet size out d ≡ take size all =
            fill-take alphabet size out d room in
          fill_more alphabet size out d ds room
          ∙ ap (λ xs. fill_draws alphabet size xs ds) filled
          ∙ fill_draws-take alphabet size (take size all) ds
              (omega (arith, length-take {0} size all))
              (length-take_append size all (picks alphabet (joined ds)) k')
          ∙ ap some (
              take-take_append size all (picks alphabet (joined ds)) ∙ sym (ap (take size) regroup))
      | no full ↦
          fill_done alphabet size out d ds (omega arith)
          ∙ ap some (
              sym (take-all size out h)
              ∙ sym (take-append size out (picks alphabet (d ++ joined ds)) (omega arith)))
    ]

-- `randomCode` returns as soon as the bytes drawn bear enough symbols, and then the first `size` of
-- them, in the order drawn: whatever the alphabet, and however the bytes fall into draws.
pub random_code-take :
    (size : ℕ) (alphabet : List ℕ) (draws : List (List ℕ))
    → size ≤ length (picks alphabet (joined draws))
    → random_code size alphabet draws ≡ some (take size (picks alphabet (joined draws)))
unfolding random_code
random_code-take size alphabet draws h = fill_draws-take alphabet size [] draws (omega arith) h

-- The bytes below `n`.
unfoldable pub bytes_below : ℕ → List ℕ
bytes_below zero = []
bytes_below (suc n) = n ∷ bytes_below n

abbrev pub picks_index : ℕ → ℕ → ℕ → Bool
picks_index n k byte = elim (pick_index n byte) [ none ↦ false | some i ↦ i == k ]

-- A stretch of `j` bytes from a multiple of `n` on.
count_block :
    (n k q j t : ℕ)
    → k < n
    → j ≤ n
    → t ≡ q * n + j
    → count (λ b. b % n == k) (bytes_below t)
      ≡ count (λ b. b % n == k) (bytes_below (q * n)) + (if ltb k j then 1 else 0)
unfolding bytes_below
count_block n k q zero t h l e = let same : t ≡ q * n = omega arith in rw same (ground arith)
count_block n k q (suc j) zero h l e = absurd (omega arith)
count_block n k q (suc j) (suc t) h l e =
    let e' : t ≡ q * n + j = omega arith in
    let byte : t % n ≡ j = rw e' (mul-add-mod_self_right q n j ∙ mod-eq_of_lt l) in
    ground (arith, byte, count_block n k q j t h (omega arith) e')

count_residue : (n k q : ℕ) → k < n → count (λ b. b % n == k) (bytes_below (q * n)) ≡ q
unfolding bytes_below
count_residue n k zero h = rw zero-mul refl
count_residue n k (suc q) h =
    let whole : suc q * n ≡ q * n + n = grind arith in
    let block = count_block n k q n (suc q * n) h (omega arith) whole in
    ground (arith, block, count_residue n k q h)

-- The bytes at and past the limit are rejected.
count_accepted :
    (n k m : ℕ)
    → count (picks_index n k) (bytes_below m)
      ≡ count (λ b. b % n == k) (bytes_below (min m (256 / n * n)))
unfolding bytes_below pick_index
count_accepted n k zero = let none_left : min 0 (256 / n * n) ≡ 0 = omega arith in rw none_left refl
count_accepted n k (suc m) = elim (dec_lt m (256 / n * n)) [
  | yes below ↦
      let here : min (suc m) (256 / n * n) ≡ suc m = omega arith in
      let before : min m (256 / n * n) ≡ m = omega arith in
      let rest : count (picks_index n k) (bytes_below m) ≡ count (λ b. b % n == k) (bytes_below m) =
        count_accepted n k m ∙ ap (λ t. count (λ b. b % n == k) (bytes_below t)) before in
      rw here (ground (arith, rest))
  | no past ↦
      let here : min (suc m) (256 / n * n) ≡ min m (256 / n * n) = omega arith in
      rw here (ground (arith, count_accepted n k m))
]

-- Every symbol is as likely as any other: of the 256 values of a byte each index of an alphabet
-- of `n` symbols is picked for exactly `256 / n`.
pub pick_index-fair :
    (n k : ℕ) → k < n → n ≤ 256 → count (picks_index n k) (bytes_below 256) ≡ 256 / n
pick_index-fair n k h small = count_accepted n k 256 ∙ rw limit_fits (count_residue n k (256 / n) h)
  where
    limit_fits : min 256 (256 / n * n) ≡ 256 / n * n
    limit_fits = omega (arith, div-mul-le_self 256 n)
