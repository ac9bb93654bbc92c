-- ===== src/Ids/Lex.antt =====
-- The order of texts, unit by unit, and of the digits of numbers.
use syncstudies.Base.{
  ℕ, zero, suc, ◌*◌, ◌/◌, ◌%◌, ◌≤◌, ◌<◌, ◌≡◌, refl, ap, ◌⊎◌, inl, inr, arith, List, [], ◌∷◌, ◌++◌,
  take, drop,
}
use native.Mathlib.Nat.{div-lt_iff_lt-mul, mul_comm, div-add-mod}
use native.Mathlib.Decide.{dec_lt}

-- `a < b` for texts of one length.
abbrev pub Precedes : List ℕ → List ℕ → Type 0
Precedes [] ys = ⊥
Precedes (x ∷ xs) [] = ⊥
Precedes (x ∷ xs) (y ∷ ys) = (x < y) ⊎ ((x ≡ y) × Precedes xs ys)

pub Precedes-trans : (xs ys zs : List ℕ) → Precedes xs ys → Precedes ys zs → Precedes xs zs
Precedes-trans [] ys zs h k = h
Precedes-trans (x ∷ xs) [] zs h k = absurd h
Precedes-trans (x ∷ xs) (y ∷ ys) [] h k = k
Precedes-trans (x ∷ xs) (y ∷ ys) (z ∷ zs) (inl p) (inl q) = inl (omega arith)
Precedes-trans (x ∷ xs) (y ∷ ys) (z ∷ zs) (inl p) (inr (e, q)) = inl (omega arith)
Precedes-trans (x ∷ xs) (y ∷ ys) (z ∷ zs) (inr (e, p)) (inl q) = inl (omega arith)
Precedes-trans (x ∷ xs) (y ∷ ys) (z ∷ zs) (inr (e, p)) (inr (f, q)) =
    inr (omega arith, Precedes-trans xs ys zs p q)

-- The same front, or anything behind, changes nothing.
pub Precedes-append : (xs ys zs : List ℕ) → Precedes ys zs → Precedes (xs ++ ys) (xs ++ zs)
Precedes-append [] ys zs h = h
Precedes-append (x ∷ xs) ys zs h = inr (refl, Precedes-append xs ys zs h)

pub append-Precedes : (xs ys us vs : List ℕ) → Precedes xs ys → Precedes (xs ++ us) (ys ++ vs)
append-Precedes [] ys us vs h = absurd h
append-Precedes (x ∷ xs) [] us vs h = absurd h
append-Precedes (x ∷ xs) (y ∷ ys) us vs (inl p) = inl p
append-Precedes (x ∷ xs) (y ∷ ys) us vs (inr (f, p)) = inr (f, append-Precedes xs ys us vs p)

-- A separator at the same place changes nothing.
unfoldable pub insert_at : ℕ → ℕ → List ℕ → List ℕ
insert_at k d xs = take k xs ++ d ∷ drop k xs

pub insert_at-Precedes :
    (k d : ℕ) (xs ys : List ℕ) → Precedes xs ys → Precedes (insert_at k d xs) (insert_at k d ys)
unfolding insert_at
insert_at-Precedes zero d xs ys h = inr (refl, h)
insert_at-Precedes (suc k) d [] ys h = absurd h
insert_at-Precedes (suc k) d (x ∷ xs) [] h = absurd h
insert_at-Precedes (suc k) d (x ∷ xs) (y ∷ ys) (inl p) = inl p
insert_at-Precedes (suc k) d (x ∷ xs) (y ∷ ys) (inr (e, p)) =
    inr (e, insert_at-Precedes k d xs ys p)

-- The digits of `n` in mixed radices, the last radix first, the most significant digit first.
unfoldable pub digits_in : List ℕ → ℕ → List ℕ
digits_in [] n = []
digits_in (r ∷ rs) n = digits_in rs (n / r) ++ (n % r) ∷ []

abbrev pub product : List ℕ → ℕ
product [] = 1
product (r ∷ rs) = r * product rs

quotient_mono : (r n m : ℕ) → n < m → n / r ≤ m / r
quotient_mono r n m h = grind arith

quotients :
    (r p n m : ℕ)
    → n < m
    → m < r * p
    → (m / r < p) × ((n / r < m / r) ⊎ ((n / r ≡ m / r) × (n % r < m % r)))
quotients r p n m h k = (
  (div-lt_iff_lt-mul {k = r} {x = m} {y = p} (grind arith)).1 (rw mul_comm k),
  elim (dec_lt (n / r) (m / r)) [
    | yes less ↦ inl less
    | no same ↦
        let e : n / r ≡ m / r = omega (arith, quotient_mono r n m h) in
        inr (e, omega (arith, div-add-mod n r, div-add-mod m r, ap (λ (q : ℕ). r * q) e))
  ],
)

-- A smaller number has smaller digits.
pub digits_in-Precedes :
    (rs : List ℕ) (n m : ℕ) → n < m → m < product rs → Precedes (digits_in rs n) (digits_in rs m)
unfolding digits_in
digits_in-Precedes [] n m h k = absurd (omega arith)
digits_in-Precedes (r ∷ rs) n m h k =
    let q = quotients r (product rs) n m h k in
    elim q.1 [
      | inl less ↦
          append-Precedes (digits_in rs (n / r)) (digits_in rs (m / r)) _ _
            (digits_in-Precedes rs (n / r) (m / r) less q.0)
      | inr (same, less) ↦ rw same (Precedes-append (digits_in rs (m / r)) _ _ (inl less))
    ]
