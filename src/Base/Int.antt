-- ===== src/Base/Int.antt =====
-- Signed integers over the native numbers, under the library's names (its ℤ stands on the unary ℕ).
-- Sums and orders go through the two parts of an integer, which are numbers that `omega` reads.
use syncstudies.Base.{
  ℕ, suc, ◌+◌, ◌-◌, ◌*◌, ◌≤◌, ◌<◌, ◌≡◌, refl, ap, ◌⊎◌, inl, inr, ◌↔◌, Bool, true, false, arith, ltb,
  leb, ◌==◌, if◌then◌else◌,
}

-- `negsuc n` is -(n + 1).
pub data ℤ : Type 0 where
  pos : ℕ → ℤ
  negsuc : ℕ → ℤ

abbrev pub pos_part : ℤ → ℕ
pos_part (pos n) = n
pos_part (negsuc n) = 0

abbrev pub neg_part : ℤ → ℕ
neg_part (pos n) = 0
neg_part (negsuc n) = suc n

-- a - b, as an integer.
abbrev pub sub_ℕ : ℕ → ℕ → ℤ
sub_ℕ a b = if leb b a then pos (a - b) else negsuc (b - a - 1)

infixl 65 ◌+ℤ◌ ◌-ℤ◌
infixl 70 ◌*ℤ◌
infix 50 ◌≤ℤ◌
unfoldable pub ◌+ℤ◌ : ℤ → ℤ → ℤ
a +ℤ b = sub_ℕ (pos_part a + pos_part b) (neg_part a + neg_part b)

unfoldable pub ◌-ℤ◌ : ℤ → ℤ → ℤ
a -ℤ b = sub_ℕ (pos_part a + neg_part b) (neg_part a + pos_part b)

unfoldable pub ◌*ℤ◌ : ℤ → ℤ → ℤ
a *ℤ b =
    sub_ℕ (pos_part a * pos_part b + neg_part a * neg_part b)
      (pos_part a * neg_part b + neg_part a * pos_part b)

abbrev pub ◌≤ℤ◌ : ℤ → ℤ → Type 0
a ≤ℤ b = pos_part a + neg_part b ≤ pos_part b + neg_part a

infix 50 ◌<ℤ◌
abbrev pub ◌<ℤ◌ : ℤ → ℤ → Type 0
a <ℤ b = pos_part a + neg_part b < pos_part b + neg_part a

abbrev pub ltb_ℤ : ℤ → ℤ → Bool
ltb_ℤ a b = ltb (pos_part a + neg_part b) (pos_part b + neg_part a)

-- With the operations unfolded `ground` splits on the signs.
pub +ℤ_comm : (a b : ℤ) → a +ℤ b ≡ b +ℤ a
unfolding ◌+ℤ◌
+ℤ_comm a b = ground arith

pub +ℤ_assoc : (a b c : ℤ) → a +ℤ b +ℤ c ≡ a +ℤ (b +ℤ c)
unfolding ◌+ℤ◌
+ℤ_assoc a b c = ground arith

pub +ℤ_cancel : (a b : ℤ) → a +ℤ b -ℤ b ≡ a
unfolding ◌+ℤ◌ ◌-ℤ◌
+ℤ_cancel a b = ground arith

pub ≤ℤ_total : (a b : ℤ) → (a ≤ℤ b) ⊎ (b ≤ℤ a)
≤ℤ_total a b = omega arith

-- One lemma for each operation lets `omega` work with the operations shut, at any depth.
pub +ℤ_parts :
    (a b : ℤ)
    → pos_part (a +ℤ b) + neg_part a + neg_part b ≡ neg_part (a +ℤ b) + pos_part a + pos_part b
unfolding ◌+ℤ◌
+ℤ_parts a b = ground arith

pub -ℤ_parts :
    (a b : ℤ)
    → pos_part (a -ℤ b) + neg_part a + pos_part b ≡ neg_part (a -ℤ b) + pos_part a + neg_part b
unfolding ◌-ℤ◌
-ℤ_parts a b = ground arith

pub eq_of_parts : (a b : ℤ) → pos_part a + neg_part b ≡ pos_part b + neg_part a → a ≡ b
eq_of_parts a b h = ground arith

pub ruleset int_laws = (arith, +ℤ_parts, -ℤ_parts, eq_of_parts)

pub +ℤ_mono : (a b c d : ℤ) → a ≤ℤ b → c ≤ℤ d → a +ℤ c ≤ℤ b +ℤ d
+ℤ_mono a b c d h k = omega int_laws

abbrev pub eq_ℤ : ℤ → ℤ → Bool
eq_ℤ a b = pos_part a + neg_part b == pos_part b + neg_part a

pub eq_ℤ_iff : (a b : ℤ) → (eq_ℤ a b ≡ true) ↔ (a ≡ b)
eq_ℤ_iff a b = ground arith

abbrev pub max_ℤ : ℤ → ℤ → ℤ
max_ℤ a b = if ltb_ℤ a b then b else a

abbrev pub min_ℤ : ℤ → ℤ → ℤ
min_ℤ a b = if ltb_ℤ b a then b else a

-- An integer difference of two equal amounts, whatever the amounts.
pub sub_ℕ_eq : (a b c d : ℕ) → a + d ≡ c + b → sub_ℕ a b ≡ sub_ℕ c d
sub_ℕ_eq a b c d h = ground arith

pub ltb_ℤ_of_lt : (a b : ℤ) → a <ℤ b → ltb_ℤ a b ≡ true
ltb_ℤ_of_lt a b h = ground arith

pub ltb_ℤ_of_le : (a b : ℤ) → b ≤ℤ a → ltb_ℤ a b ≡ false
ltb_ℤ_of_le a b h = ground arith

pub lt-le-absurd : (a b : ℤ) → a <ℤ b → b ≤ℤ a → ⊥
lt-le-absurd a b h k = omega arith

-- One of the two parts is zero.
pub parts_zero : (a : ℤ) → (pos_part a ≡ 0) ⊎ (neg_part a ≡ 0)
parts_zero (pos n) = inr refl
parts_zero (negsuc n) = inl refl

pub add_sub_self : (a b : ℤ) → a +ℤ b -ℤ a ≡ b
add_sub_self a b = omega int_laws

pub zero-*ℤ : (a : ℤ) → pos 0 *ℤ a ≡ pos 0
unfolding ◌*ℤ◌
zero-*ℤ a = ground arith

pub sub_self : (a : ℤ) → a -ℤ a ≡ pos 0
sub_self a = omega int_laws

pub *ℤ_parts :
    (a b : ℤ)
    → pos_part (a *ℤ b) + (pos_part a * neg_part b + neg_part a * pos_part b)
      ≡ neg_part (a *ℤ b) + (pos_part a * pos_part b + neg_part a * neg_part b)
unfolding ◌*ℤ◌
*ℤ_parts a b = ground arith

-- Nonnegative factors have a nonnegative product.
pub *ℤ_nonneg : (a b : ℤ) → pos 0 ≤ℤ a → pos 0 ≤ℤ b → pos 0 ≤ℤ a *ℤ b
unfolding ◌*ℤ◌
*ℤ_nonneg a b h k = ground arith

pub *ℤ_nonpos : (a b : ℤ) → a ≤ℤ pos 0 → pos 0 ≤ℤ b → a *ℤ b ≤ℤ pos 0
unfolding ◌*ℤ◌
*ℤ_nonpos a b h k = ground arith

pub le-+ℤ : (a b : ℤ) → pos 0 ≤ℤ b → a ≤ℤ a +ℤ b
le-+ℤ a b h = omega int_laws

pub +ℤ-*ℤ : (a b c : ℤ) → (a +ℤ b) *ℤ c ≡ a *ℤ c +ℤ b *ℤ c
+ℤ-*ℤ a b c = omega (
  arith,
  *ℤ_parts (a +ℤ b) c,
  *ℤ_parts a c,
  *ℤ_parts b c,
  +ℤ_parts (a *ℤ c) (b *ℤ c),
  ap (λ (n : ℕ). n * pos_part c) (+ℤ_parts a b),
  ap (λ (n : ℕ). n * neg_part c) (+ℤ_parts a b),
  eq_of_parts,
)

-- A motion at the rate `r`: none in no time, and split at any time in between.
pub move_none : (p t r : ℤ) → p +ℤ (t -ℤ t) *ℤ r ≡ p
move_none p t r = rw (sub_self t, zero-*ℤ r) (omega int_laws)

pub move_split : (p t₀ t₁ t₂ r : ℤ) → p +ℤ (t₂ -ℤ t₀) *ℤ r ≡ p +ℤ (t₁ -ℤ t₀) *ℤ r +ℤ (t₂ -ℤ t₁) *ℤ r
move_split p t₀ t₁ t₂ r =
    let split : t₂ -ℤ t₀ ≡ (t₁ -ℤ t₀) +ℤ (t₂ -ℤ t₁) = omega int_laws in
    rw (split, +ℤ-*ℤ (t₁ -ℤ t₀) (t₂ -ℤ t₁) r) (omega int_laws)

pub mixed_signs : pos 3 -ℤ pos 10 *ℤ negsuc 1 ≡ pos 23
unfolding ◌-ℤ◌ ◌*ℤ◌
mixed_signs = refl
