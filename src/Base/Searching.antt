-- ===== src/Base/Searching.antt =====
-- Searches, counts and changes of one element by a Boolean test, and a Map as the list of its
-- values.
use Prim.Native.Nat.{ℕ, suc, ◌+◌, ◌≤◌}
use mathlib.Core.Path.{◌≡◌, refl}
use mathlib.Core.Bool.{Bool, true, false, not}
use mathlib.Core.Option.{Option, none, some}
use mathlib.Core.List.{List, [], ◌∷◌, ◌++◌}
use native.Mathlib.Omega.{arith}
use syncstudies.Base.Lists.{All, keep}

module _ {ℓ} {A : Type ℓ} where
  -- `xs.find(p)`
  abbrev pub find : (A → Bool) → List A → Option A
  find p [] = none
  find p (x ∷ xs) = elim (p x) [ true ↦ some x | false ↦ find p xs ]

  abbrev pub count : (A → Bool) → List A → ℕ
  count p [] = 0
  count p (x ∷ xs) = elim (p x) [ true ↦ suc (count p xs) | false ↦ count p xs ]

  -- `next = xs.slice(); next[xs.findIndex(p)] = f(existing)`, and nothing where none is found.
  abbrev pub replace_first : (A → Bool) → (A → A) → List A → List A
  replace_first p f [] = []
  replace_first p f (x ∷ xs) = elim (p x) [ true ↦ f x ∷ xs | false ↦ x ∷ replace_first p f xs ]

  pub count-append : (p : A → Bool) (xs ys : List A) → count p (xs ++ ys) ≡ count p xs + count p ys
  count-append p [] ys = omega arith
  count-append p (x ∷ xs) ys = ground (arith, count-append p xs ys)

  pub count-keep_le : (p q : A → Bool) (xs : List A) → count p (keep q xs) ≤ count p xs
  count-keep_le p q [] = omega arith
  count-keep_le p q (x ∷ xs) = ground (arith, count-keep_le p q xs)

  pub find-none : (p : A → Bool) (xs : List A) → count p xs ≡ 0 → find p xs ≡ none
  find-none p [] h = refl
  find-none p (x ∷ xs) h = ground (arith, find-none p xs)

  pub All-map : (P Q : A → Type 0) (xs : List A) → ((x : A) → P x → Q x) → All P xs → All Q xs
  All-map P Q [] f h = h
  All-map P Q (x ∷ xs) f (px, h) = (f x px, All-map P Q xs f h)

  pub keep-All : (P : A → Type 0) (q : A → Bool) (xs : List A) → All P xs → All P (keep q xs)
  keep-All P q [] h = h
  keep-All P q (x ∷ xs) (p, h) =
      elim (q x) as (λ b. All P (elim b [ true ↦ x ∷ keep q xs | false ↦ keep q xs ])) [
        | true ↦ (p, keep-All P q xs h)
        | false ↦ keep-All P q xs h
      ]

  pub find-append :
      (p : A → Bool) (xs ys : List A)
      → find p (xs ++ ys) ≡ elim (find p xs) [ none ↦ find p ys | some x ↦ some x ]
  find-append p [] ys = refl
  find-append p (x ∷ xs) ys = ground (arith, find-append p xs ys)

  -- `map.set(key, x)` of a Map that is the list of its values, where `p` tests for the key.
  abbrev pub set_by : (A → Bool) → A → List A → List A
  set_by p x [] = x ∷ []
  set_by p x (y ∷ ys) = elim (p y) [ true ↦ x ∷ ys | false ↦ y ∷ set_by p x ys ]

  pub All-set_by :
      (P : A → Type 0) (p : A → Bool) (x : A) (xs : List A) → P x → All P xs → All P (set_by p x xs)
  All-set_by P p x [] px h = (px, h)
  All-set_by P p x (y ∷ ys) px (py, h) =
      elim (p y) as (λ b. All P (elim b [ true ↦ x ∷ ys | false ↦ y ∷ set_by p x ys ])) [
        | true ↦ (px, h)
        | false ↦ (py, All-set_by P p x ys px h)
      ]

  pub find-set_by :
      (p : A → Bool) (x : A) (xs : List A) → p x ≡ true → find p (set_by p x xs) ≡ some x
  find-set_by p x [] h = ground arith
  find-set_by p x (y ∷ ys) h = ground (arith, find-set_by p x ys)

  pub find-set_by_other :
      (p q : A → Bool) (x : A) (xs : List A)
      → q x ≡ false
      → ((y : A) → p y ≡ true → q y ≡ false)
      → find q (set_by p x xs) ≡ find q xs
  find-set_by_other p q x [] h other = ground arith
  find-set_by_other p q x (y ∷ ys) h other = ground (arith, find-set_by_other p q x ys, other y)

  pub count-set_by :
      (p : A → Bool) (x : A) (xs : List A)
      → p x ≡ true
      → count p xs ≤ 1
      → count p (set_by p x xs) ≤ 1
  count-set_by p x [] h one = ground arith
  count-set_by p x (y ∷ ys) h one = ground (arith, count-set_by p x ys)

  pub count-set_by_other :
      (p q : A → Bool) (x : A) (xs : List A)
      → q x ≡ false
      → ((y : A) → p y ≡ true → q y ≡ false)
      → count q (set_by p x xs) ≡ count q xs
  count-set_by_other p q x [] h other = ground arith
  count-set_by_other p q x (y ∷ ys) h other = ground (arith, count-set_by_other p q x ys, other y)

  pub find-keep : (p : A → Bool) (xs : List A) → find p (keep (λ x. not (p x)) xs) ≡ none
  find-keep p [] = refl
  find-keep p (x ∷ xs) = ground (arith, find-keep p xs)

  pub find-keep_other :
      (p q : A → Bool) (xs : List A)
      → ((y : A) → p y ≡ true → q y ≡ false)
      → find q (keep (λ x. not (p x)) xs) ≡ find q xs
  find-keep_other p q [] other = refl
  find-keep_other p q (x ∷ xs) other = ground (arith, find-keep_other p q xs, other x)

  pub count-replace_first :
      (p q : A → Bool) (f : A → A) (xs : List A)
      → ((x : A) → p x ≡ true → q (f x) ≡ q x)
      → count q (replace_first p f xs) ≡ count q xs
  count-replace_first p q f [] same = refl
  count-replace_first p q f (x ∷ xs) same = ground (arith, count-replace_first p q f xs, same x)

  pub All-replace_first :
      (P : A → Type 0) (p : A → Bool) (f : A → A) (xs : List A)
      → ((x : A) → p x ≡ true → P x → P (f x))
      → All P xs
      → All P (replace_first p f xs)
  All-replace_first P p f [] keeps h = h
  All-replace_first P p f (x ∷ xs) keeps (px, h) =
      elim (p x)
          as (λ b.
            p x ≡ b → All P (elim b [ true ↦ f x ∷ xs | false ↦ x ∷ replace_first p f xs ])) [
              | true ↦ (λ found. (keeps x found px, h))
              | false ↦ (λ other. (px, All-replace_first P p f xs keeps h))
            ]
        refl

  pub count-keep_out : (p : A → Bool) (xs : List A) → count p (keep (λ x. not (p x)) xs) ≡ 0
  count-keep_out p [] = refl
  count-keep_out p (x ∷ xs) = ground (arith, count-keep_out p xs)

  pub count_le :
      (p q : A → Bool) (xs : List A) → ((x : A) → p x ≡ true → q x ≡ true) → count p xs ≤ count q xs
  count_le p q [] h = omega arith
  count_le p q (x ∷ xs) h = ground (arith, count_le p q xs, h x)
