-- ===== src/Ids/Order.antt =====
-- The ids that one process issues are in the order of its calls.
use syncstudies.Base.{
  ℕ, zero, suc, ◌+◌, ◌/◌, ◌%◌, ◌^◌, ◌≤◌, ◌<◌, ◌≡◌, refl, sym, ◌⊎◌, inl, inr, arith, Bool, true,
  ◌&&◌, List, [], ◌∷◌, ◌++◌, ◌==◌, ==_iff,
}
use Prim.Native.Nat.{bit_or}
use mathlib.Core.Path.{subst, subst₂}
use native.Mathlib.Decide.{dec_lt}
use syncstudies.Ids.Lex.{
  Precedes, Precedes-append, append-Precedes, insert_at-Precedes, digits_in, digits_in-Precedes,
}
use syncstudies.Ids.Uuid.{entropy_max, pack_bytes, hex_digit, hex, dashed, pack, byte_at}

-- A test of every number up to a bound, which an evaluation settles.
module _ (test : ℕ → Bool) where
  unfoldable pub passes : ℕ → Bool
  passes zero = true
  passes (suc top) = passes top && test top

  pub passes-each : (bound k : ℕ) → k < bound → passes bound ≡ true → test k ≡ true
  unfolding passes
  passes-each (suc top) k lower whole = ground (arith, passes-each top k)
  passes-each zero k lower whole = absurd (omega arith)

version_table : passes (λ x. bit_or 0x70 x == 0x70 + x) 16 ≡ true
unfolding passes
version_table = refl

variant_table : passes (λ x. bit_or 0x80 x == 0x80 + x) 64 ≡ true
unfolding passes
variant_table = refl

version_bits : (x : ℕ) → x < 16 → bit_or 0x70 x ≡ 0x70 + x
version_bits x h = (==_iff _ _).0 (passes-each _ 16 x h version_table)

variant_bits : (x : ℕ) → x < 64 → bit_or 0x80 x ≡ 0x80 + x
variant_bits x h = (==_iff _ _).0 (passes-each _ 64 x h variant_table)

abbrev time_radices : List ℕ
time_radices = 256 ∷ 256 ∷ 256 ∷ 256 ∷ 256 ∷ 256 ∷ []

abbrev entropy_radices : List ℕ
entropy_radices = 256 ∷ 256 ∷ 256 ∷ 256 ∷ 256 ∷ 256 ∷ 256 ∷ 64 ∷ 256 ∷ 16 ∷ []

abbrev time_bytes : ℕ → List ℕ
time_bytes ms =
    byte_at ms 40 ∷ byte_at ms 32 ∷ byte_at ms 24 ∷ byte_at ms 16 ∷ byte_at ms 8 ∷ ms % 256 ∷ []

time_bytes-digits : (ms : ℕ) → digits_in time_radices ms ≡ time_bytes ms
unfolding digits_in
time_bytes-digits ms = ground arith

abbrev low_bytes : ℕ → List ℕ
low_bytes e =
    byte_at e 48
    ∷ byte_at e 40
    ∷ byte_at e 32
    ∷ byte_at e 24
    ∷ byte_at e 16
    ∷ byte_at e 8
    ∷ byte_at e 0
    ∷ []

abbrev plain : ℕ → List ℕ
plain e = e / 2 ^ 70 % 16 ∷ byte_at e 62 ∷ e / 2 ^ 56 % 64 ∷ low_bytes e

plain-digits : (e : ℕ) → digits_in entropy_radices e ≡ plain e
unfolding digits_in
plain-digits e = ground arith

abbrev tagged : ℕ → List ℕ
tagged e =
    bit_or 0x70 (e / 2 ^ 70 % 16) ∷ byte_at e 62 ∷ bit_or 0x80 (e / 2 ^ 56 % 64) ∷ low_bytes e

-- What stands above a digit in its byte leaves the order of the digits.
tags_mono :
    (a b c a' b' c' : ℕ) (xs ys : List ℕ)
    → Precedes (a ∷ b ∷ c ∷ xs) (a' ∷ b' ∷ c' ∷ ys)
    → Precedes ((0x70 + a) ∷ b ∷ (0x80 + c) ∷ xs) ((0x70 + a') ∷ b' ∷ (0x80 + c') ∷ ys)
tags_mono a b c a' b' c' xs ys (inl p) = inl (omega arith)
tags_mono a b c a' b' c' xs ys (inr (e, inl p)) = inr (omega arith, inl p)
tags_mono a b c a' b' c' xs ys (inr (e, inr (f, inl p))) =
    inr (omega arith, inr (f, inl (omega arith)))
tags_mono a b c a' b' c' xs ys (inr (e, inr (f, inr (g, p)))) =
    inr (omega arith, inr (f, inr (omega arith, p)))

tag_mono : (e e' : ℕ) → Precedes (plain e) (plain e') → Precedes (tagged e) (tagged e')
tag_mono e e' h =
    rw
      (
        version_bits (e / 2 ^ 70 % 16) (omega arith),
        version_bits (e' / 2 ^ 70 % 16) (omega arith),
        variant_bits (e / 2 ^ 56 % 64) (omega arith),
        variant_bits (e' / 2 ^ 56 % 64) (omega arith),
      )
      (tags_mono (e / 2 ^ 70 % 16) (byte_at e 62) (e / 2 ^ 56 % 64) (e' / 2 ^ 70 % 16)
        (byte_at e' 62) (e' / 2 ^ 56 % 64) (low_bytes e) (low_bytes e') h)

entropy-Precedes : (e e' : ℕ) → e < e' → e' ≤ entropy_max → Precedes (tagged e) (tagged e')
entropy-Precedes e e' h k = tag_mono e e' (
    subst₂ Precedes (plain-digits e) (plain-digits e')
      (digits_in-Precedes entropy_radices e e' h (omega arith)))

time-Precedes : (ms ms' : ℕ) → ms < ms' → ms' < 2 ^ 48 → Precedes (time_bytes ms) (time_bytes ms')
time-Precedes ms ms' h k =
    subst₂ Precedes (time_bytes-digits ms) (time_bytes-digits ms')
      (digits_in-Precedes time_radices ms ms' h (omega arith))

-- A later stamp: a later time, or the same time and more entropy.
abbrev pub IsLater : ℕ × ℕ → ℕ × ℕ → Type 0
IsLater (ms, e) (ms', e') = (ms < ms') ⊎ ((ms ≡ ms') × (e < e'))

pack_bytes-Precedes :
    (ms e ms' e' : ℕ)
    → IsLater (ms, e) (ms', e')
    → ms' < 2 ^ 48
    → e' ≤ entropy_max
    → Precedes (pack_bytes ms e) (pack_bytes ms' e')
unfolding pack_bytes
pack_bytes-Precedes ms e ms' e' (inl h) k l =
    append-Precedes (time_bytes ms) (time_bytes ms') (tagged e) (tagged e')
      (time-Precedes ms ms' h k)
pack_bytes-Precedes ms e ms' e' (inr (same, h)) k l =
    subst (λ t. Precedes (time_bytes t ++ tagged e) (time_bytes ms' ++ tagged e')) (sym same)
      (Precedes-append (time_bytes ms') (tagged e) (tagged e') (entropy-Precedes e e' h l))

hex_digit_mono : (a b : ℕ) → a < b → hex_digit a < hex_digit b
unfolding hex_digit
hex_digit_mono a b h = ground arith

hex-Precedes : (xs ys : List ℕ) → Precedes xs ys → Precedes (hex xs) (hex ys)
unfolding hex
hex-Precedes [] ys h = absurd h
hex-Precedes (x ∷ xs) [] h = absurd h
hex-Precedes (x ∷ xs) (y ∷ ys) (inr (e, h)) = inr (rw e, inr (rw e, hex-Precedes xs ys h))
hex-Precedes (x ∷ xs) (y ∷ ys) (inl h) = elim (dec_lt (x / 16) (y / 16)) [
  | yes less ↦ inl (hex_digit_mono (x / 16) (y / 16) less)
  | no same ↦
      let e : x / 16 ≡ y / 16 = omega arith in
      inr (rw e, inl (hex_digit_mono (x % 16) (y % 16) (omega arith)))
]

pub pack-Precedes :
    (ms e ms' e' : ℕ)
    → IsLater (ms, e) (ms', e')
    → ms' < 2 ^ 48
    → e' ≤ entropy_max
    → Precedes (pack ms e) (pack ms' e')
unfolding pack dashed
pack-Precedes ms e ms' e' h k l = insert_at-Precedes 8 b'-' _ _ (
    insert_at-Precedes 12 b'-' _ _ (
      insert_at-Precedes 16 b'-' _ _ (
        insert_at-Precedes 20 b'-' _ _ (
          hex-Precedes (pack_bytes ms e) (pack_bytes ms' e')
            (pack_bytes-Precedes ms e ms' e' h k l)))))
