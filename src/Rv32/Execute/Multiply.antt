-- ===== src/Rv32/Execute/Multiply.antt =====
-- The high words of products, against the products of the integers that the operands stand for.
use native.Mathlib.Nat.{mul-le-mul}
use risc_v_cpu_emulator.Prelude.{
  ℕ, suc, ◌+◌, ◌-◌, ◌*◌, ◌%◌, ◌^◌, ◌≤◌, ◌<◌, ◌≡◌, ap, ◌⊎◌, inl, inr, Bool-cases, arith, ltb,
}
use risc_v_cpu_emulator.Prelude.Int.{ℤ, pos, negsuc, ◌*ℤ◌, ◌+ℤ◌, abs}
use risc_v_cpu_emulator.Words.Fields.{bit_of_top, bit_and-two_pow}
use risc_v_cpu_emulator.Rv32.Execute.Signed.{
  as_signed_word, as_int32, to_unsigned, high_word, multiply_high_signed,
  multiply_high_signed_unsigned,
}

pub as_signed_word-eq : (value : ℕ) → value < 2 ^ 32 → as_signed_word value ≡ as_int32 value
unfolding as_signed_word
as_signed_word-eq value h = ground (arith, bit_and-two_pow 31 value, bit_of_top 31 value h)

pub mulhu-mul :
    (a b : ℕ) → a < 2 ^ 32 → b < 2 ^ 32 → high_word (a * b) * 2 ^ 32 + a * b % 2 ^ 32 ≡ a * b
unfolding high_word
mulhu-mul a b p q =
    let bound : a * b ≤ (2 ^ 32 - 1) * (2 ^ 32 - 1) = grind arith in omega (arith, bound)

-- A product in the signed 64-bit range is its high word, read as signed, and its low word.
split_product :
    (product : ℤ)
    → abs product ≤ 2 ^ 63 - 1
    → as_int32 (high_word (to_unsigned 64 product)) *ℤ pos (2 ^ 32)
        +ℤ pos (to_unsigned 64 product % 2 ^ 32)
      ≡ product
unfolding high_word ◌*ℤ◌ ◌+ℤ◌
split_product (pos n) h = ground arith
split_product (negsuc n) h = ground arith

product_bound : (a b m n : ℕ) → a ≤ m → b ≤ n → a * b ≤ m * n
product_bound a b m n p q = mul-le-mul p q

-- Products of the magnitudes of negative words, whose sums with the words are the modulus.
product_of_complements :
    (a b : ℕ)
    → a ≤ 2 ^ 32
    → b ≤ 2 ^ 32
    → (2 ^ 32 - a) * (2 ^ 32 - b) + 2 ^ 32 * a + 2 ^ 32 * b ≡ 2 ^ 64 + a * b
product_of_complements a b p q =
    let left : (2 ^ 32 - a) + a ≡ 2 ^ 32 = omega arith in
    let right : (2 ^ 32 - b) + b ≡ 2 ^ 32 = omega arith in
    omega (arith, ap (λ (t : ℕ). t * b) left, ap (λ (t : ℕ). (2 ^ 32 - a) * t) right)

pub as_int32-cases :
    (value : ℕ)
    → ((value < 2 ^ 31) × (as_int32 value ≡ pos value))
      ⊎ ((2 ^ 31 ≤ value) × (as_int32 value ≡ negsuc (2 ^ 32 - 1 - value)))
as_int32-cases value = elim (Bool-cases (ltb value (2 ^ 31))) [
  | inl below ↦ inl (ground arith, rw below)
  | inr above ↦ inr (ground arith, rw above)
]

-- The low word of a product does not depend on the signs, and the product fits 64 bits.
module _ (a b : ℕ) (in_a : a < 2 ^ 32) (in_b : b < 2 ^ 32) where
  abbrev pub IsProduct : ℤ → Type 0
  IsProduct product =
      (to_unsigned 64 product % 2 ^ 32 ≡ a * b % 2 ^ 32) × (abs product ≤ 2 ^ 63 - 1)

  both_positive : a < 2 ^ 31 → b < 2 ^ 31 → IsProduct (pos a *ℤ pos b)
  unfolding ◌*ℤ◌
  both_positive p q =
      let bound : a * b ≤ 2 ^ 31 * 2 ^ 31 =
        product_bound a b (2 ^ 31) (2 ^ 31) (omega arith) (omega arith) in
      ground (arith, bound)

  both_negative :
      2 ^ 31 ≤ a → 2 ^ 31 ≤ b → IsProduct (negsuc (2 ^ 32 - 1 - a) *ℤ negsuc (2 ^ 32 - 1 - b))
  unfolding ◌*ℤ◌
  both_negative p q =
      let bound : (2 ^ 32 - a) * (2 ^ 32 - b) ≤ 2 ^ 31 * 2 ^ 31 =
        product_bound (2 ^ 32 - a) (2 ^ 32 - b) (2 ^ 31) (2 ^ 31) (omega arith) (omega arith) in
      let left : suc (2 ^ 32 - 1 - a) ≡ 2 ^ 32 - a = omega arith in
      let right : suc (2 ^ 32 - 1 - b) ≡ 2 ^ 32 - b = omega arith in
      rw (left, right)
        (ground (arith, bound, product_of_complements a b (omega arith) (omega arith)))

  -- `a * (2 ^ 32 - b)` against `a * b`.
  product_of_complement : (c d : ℕ) → d ≤ 2 ^ 32 → c * (2 ^ 32 - d) + c * d ≡ c * 2 ^ 32
  product_of_complement c d h =
      let whole : (2 ^ 32 - d) + d ≡ 2 ^ 32 = omega arith in
      omega (arith, ap (λ (t : ℕ). c * t) whole)

  first_positive : a < 2 ^ 31 → IsProduct (pos a *ℤ negsuc (2 ^ 32 - 1 - b))
  unfolding ◌*ℤ◌
  first_positive p =
      let bound : a * (2 ^ 32 - b) ≤ (2 ^ 31 - 1) * 2 ^ 32 =
        product_bound a (2 ^ 32 - b) (2 ^ 31 - 1) (2 ^ 32) (omega arith) (omega arith) in
      let right : suc (2 ^ 32 - 1 - b) ≡ 2 ^ 32 - b = omega arith in
      rw right (ground (arith, bound, product_of_complement a b (omega arith)))

  second_positive : 2 ^ 31 ≤ a → b < 2 ^ 32 → IsProduct (negsuc (2 ^ 32 - 1 - a) *ℤ pos b)
  unfolding ◌*ℤ◌
  second_positive p q =
      let bound : (2 ^ 32 - a) * b ≤ 2 ^ 31 * (2 ^ 32 - 1) =
        product_bound (2 ^ 32 - a) b (2 ^ 31) (2 ^ 32 - 1) (omega arith) (omega arith) in
      let left : suc (2 ^ 32 - 1 - a) ≡ 2 ^ 32 - a = omega arith in
      rw left (ground (arith, bound, product_of_complement b a (omega arith)))

  first_unsigned : a < 2 ^ 31 → IsProduct (pos a *ℤ pos b)
  unfolding ◌*ℤ◌
  first_unsigned p =
      let bound : a * b ≤ (2 ^ 31 - 1) * 2 ^ 32 =
        product_bound a b (2 ^ 31 - 1) (2 ^ 32) (omega arith) (omega arith) in
      ground (arith, bound)

  signed-IsProduct : IsProduct (as_int32 a *ℤ as_int32 b)
  signed-IsProduct = elim (as_int32-cases a) [
    | inl (p, e) ↦ elim (as_int32-cases b) [
      | inl (q, f) ↦ rw (e, f) (both_positive p q)
      | inr (q, f) ↦ rw (e, f) (first_positive p)
    ]
    | inr (p, e) ↦ elim (as_int32-cases b) [
      | inl (q, f) ↦ rw (e, f) (second_positive p in_b)
      | inr (q, f) ↦ rw (e, f) (both_negative p q)
    ]
  ]

  mixed-IsProduct : IsProduct (as_int32 a *ℤ pos b)
  mixed-IsProduct = elim (as_int32-cases a) [
    | inl (p, e) ↦ rw e (first_unsigned p)
    | inr (p, e) ↦ rw e (second_positive p in_b)
  ]

  -- MULH and MUL together are the product of the signed operands: the high word, read as signed,
  -- times 2 ^ 32, plus the low word.
  pub multiply_high_signed-mul :
      as_int32 (multiply_high_signed a b) *ℤ pos (2 ^ 32) +ℤ pos (a * b % 2 ^ 32)
      ≡ as_int32 a *ℤ as_int32 b
  unfolding multiply_high_signed
  multiply_high_signed-mul =
      rw (as_signed_word-eq a in_a, as_signed_word-eq b in_b, ← signed-IsProduct.0)
        (split_product _ signed-IsProduct.1)

  -- MULHSU and MUL together are the product of a signed and an unsigned operand.
  pub multiply_high_signed_unsigned-mul :
      as_int32 (multiply_high_signed_unsigned a b) *ℤ pos (2 ^ 32) +ℤ pos (a * b % 2 ^ 32)
      ≡ as_int32 a *ℤ pos b
  unfolding multiply_high_signed_unsigned
  multiply_high_signed_unsigned-mul =
      rw (as_signed_word-eq a in_a, ← mixed-IsProduct.0) (split_product _ mixed-IsProduct.1)
