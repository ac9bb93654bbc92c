-- ===== src/Base/Sorting.antt =====
-- `[...list].sort(compare)`, which is stable: insertion from the right, by the test that the
-- comparison is negative. With it what a sort keeps: counts, and what a search finds.
use Prim.Native.Nat.{◌≤◌}
use mathlib.Core.Path.{◌≡◌, refl, ◌∙◌}
use mathlib.Core.Bool.{Bool, true, false}
use mathlib.Core.List.{List, [], ◌∷◌}
use native.Mathlib.Omega.{arith}
use syncstudies.Base.Lists.{All, keep}
use syncstudies.Base.Searching.{All-replace_first, All-map, count, find, keep-All, replace_first}

module _ {ℓ} {A : Type ℓ} where
  abbrev pub insert_by : (A → A → Bool) → A → List A → List A
  insert_by less x [] = x ∷ []
  insert_by less x (y ∷ ys) = elim (less y x) [
    | true ↦ y ∷ insert_by less x ys
    | false ↦ x ∷ y ∷ ys
  ]

  abbrev pub sort_by : (A → A → Bool) → List A → List A
  sort_by less [] = []
  sort_by less (x ∷ xs) = insert_by less x (sort_by less xs)

  pub count-insert_by :
      (less : A → A → Bool) (p : A → Bool) (x : A) (ys : List A)
      → count p (insert_by less x ys) ≡ count p (x ∷ ys)
  count-insert_by less p x [] = refl
  count-insert_by less p x (y ∷ ys) = ground (arith, count-insert_by less p x ys)

  pub count-sort_by :
      (less : A → A → Bool) (p : A → Bool) (xs : List A) → count p (sort_by less xs) ≡ count p xs
  count-sort_by less p [] = refl
  count-sort_by less p (x ∷ xs) =
      count-insert_by less p x (sort_by less xs) ∙ ground (arith, count-sort_by less p xs)

  find-insert_by :
      (less : A → A → Bool) (p : A → Bool) (x : A) (ys : List A)
      → count p (x ∷ ys) ≤ 1
      → find p (insert_by less x ys) ≡ find p (x ∷ ys)
  find-insert_by less p x [] h = refl
  find-insert_by less p x (y ∷ ys) h = ground (arith, find-insert_by less p x ys)

  count-tail : (p : A → Bool) (x : A) (xs : List A) → count p xs ≤ count p (x ∷ xs)
  count-tail p x xs = ground arith

  pub find-sort_by :
      (less : A → A → Bool) (p : A → Bool) (xs : List A)
      → count p xs ≤ 1
      → find p (sort_by less xs) ≡ find p xs
  find-sort_by less p [] h = refl
  find-sort_by less p (x ∷ xs) h =
      find-insert_by less p x (sort_by less xs) (ground (arith, count-sort_by less p xs))
      ∙ ground (arith, find-sort_by less p xs)

-- What the source relies on when it sorts: a test that orders everything, ties allowed.
pub record IsOrder {ℓ} {A : Type ℓ} (less : A → A → Bool) : Type ℓ where
  pub asym : (a b : A) → less a b ≡ true → less b a ≡ false
  pub past : (a b c : A) → less b a ≡ false → less c b ≡ false → less c a ≡ false

module _ {A : Type 0} (less : A → A → Bool) where
  -- Nothing stands before what is less than it.
  abbrev pub IsSorted : List A → Type 0
  IsSorted [] = Unit
  IsSorted (x ∷ xs) = All (λ y. less y x ≡ false) xs × IsSorted xs

  All-insert_by :
      (P : A → Type 0) (x : A) (ys : List A) → P x → All P ys → All P (insert_by less x ys)
  All-insert_by P x [] px h = (px, h)
  All-insert_by P x (y ∷ ys) px (py, h) =
      elim (less y x)
        as (λ b. All P (elim b [ true ↦ y ∷ insert_by less x ys | false ↦ x ∷ y ∷ ys ])) [
          | true ↦ (py, All-insert_by P x ys px h)
          | false ↦ (px, (py, h))
        ]

  pub All-sort_by : (P : A → Type 0) (xs : List A) → All P xs → All P (sort_by less xs)
  All-sort_by P [] h = h
  All-sort_by P (x ∷ xs) (px, h) = All-insert_by P x (sort_by less xs) px (All-sort_by P xs h)

  pub insert_by-IsSorted :
      (x : A) (ys : List A) → IsOrder less → IsSorted ys → IsSorted (insert_by less x ys)
  insert_by-IsSorted x [] ok h = (h, h)
  insert_by-IsSorted x (y ∷ ys) ok (first, h) =
      elim (less y x)
          as (λ b.
            less y x ≡ b
            → IsSorted (elim b [ true ↦ y ∷ insert_by less x ys | false ↦ x ∷ y ∷ ys ])) [
              | true ↦ (λ before. (
                All-insert_by (λ z. less z y ≡ false) x ys (ok.asym y x before) first,
                insert_by-IsSorted x ys ok h,
              ))
              | false ↦ (λ after. (
                (
                  after,
                  All-map (λ z. less z y ≡ false) (λ z. less z x ≡ false) ys
                      (λ z. ok.past x y z after) first,
                ),
                (first, h),
              ))
            ]
        refl

  pub sort_by-IsSorted : (xs : List A) → IsOrder less → IsSorted (sort_by less xs)
  sort_by-IsSorted [] ok = tt
  sort_by-IsSorted (x ∷ xs) ok = insert_by-IsSorted x (sort_by less xs) ok (sort_by-IsSorted xs ok)

  pub keep-IsSorted : (q : A → Bool) (xs : List A) → IsSorted xs → IsSorted (keep q xs)
  keep-IsSorted q [] h = h
  keep-IsSorted q (x ∷ xs) (first, h) =
      elim (q x) as (λ b. IsSorted (elim b [ true ↦ x ∷ keep q xs | false ↦ keep q xs ])) [
        | true ↦ (keep-All (λ y. less y x ≡ false) q xs first, keep-IsSorted q xs h)
        | false ↦ keep-IsSorted q xs h
      ]

  pub replace_first-IsSorted :
      (p : A → Bool) (f : A → A) (xs : List A)
      → ((x y : A) → p x ≡ true → less (f x) y ≡ less x y)
      → ((x y : A) → p x ≡ true → less y (f x) ≡ less y x)
      → IsSorted xs
      → IsSorted (replace_first p f xs)
  replace_first-IsSorted p f [] left right h = h
  replace_first-IsSorted p f (x ∷ xs) left right (first, h) =
      elim (p x)
          as (λ b.
            p x ≡ b → IsSorted (elim b [ true ↦ f x ∷ xs | false ↦ x ∷ replace_first p f xs ])) [
              | true ↦ (λ found. (
                All-map (λ y. less y x ≡ false) (λ y. less y (f x) ≡ false) xs
                    (λ y e. right x y found ∙ e) first,
                h,
              ))
              | false ↦ (λ other. (
                All-replace_first (λ y. less y x ≡ false) p f xs (λ y found e. left y x found ∙ e)
                    first,
                replace_first-IsSorted p f xs left right h,
              ))
            ]
        refl
