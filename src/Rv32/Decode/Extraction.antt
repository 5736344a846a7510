-- ===== src/Rv32/Decode/Extraction.antt =====
-- What `get_bits` and `sign_extend` compute, as arithmetic.
use native.Mathlib.Nat.{pow-le-pow_right, mod-eq_of_lt, mod-eq-sub-mod, one-le-pow}
use risc_v_cpu_emulator.Prelude.{
  ℕ, suc, ◌+◌, ◌-◌, ◌*◌, ◌/◌, ◌%◌, ◌^◌, ◌≤◌, ◌<◌, ◌≡◌, sym, ap, ◌∙◌, arith, bit_and, bit_or, true,
  false, inl, inr, Bool-cases, ltb, ◌==◌, if◌then◌else◌,
}
use risc_v_cpu_emulator.Words.{shl32, not32, has_bits}
use risc_v_cpu_emulator.Words.Fields.{
  bit_of_top, bit_and-mask, bit_and-two_pow, bit_or-eq-add_low, two_pow-mod,
}
use risc_v_cpu_emulator.Rv32.Decode.Fields.{get_bits, sign_extend}

low_mask : (width : ℕ) → width < 32 → shl32 1 width - 1 ≡ 2 ^ width - 1
low_mask width h =
    let bound : 2 ^ width ≤ 2 ^ 31 = pow-le-pow_right (omega arith) {j = 31} (omega arith) in
    let small : 1 * 2 ^ width < 2 ^ 32 = omega arith in
    ap (λ (t : ℕ). t - 1) (mod-eq_of_lt small) ∙ omega arith

-- Of a word, and inside its range, `get_bits` is the field of the bits from `low` to `high`.
pub get_bits_lem :
    (value high low : ℕ)
    → value < 2 ^ 32
    → high < 32
    → low ≤ high
    → get_bits value high low ≡ value / 2 ^ low % 2 ^ (high - low + 1)
unfolding get_bits
get_bits_lem value high low small in_word ordered = elim (Bool-cases (high - low + 1 == 32)) [
  | inl whole ↦
      let top : high ≡ 31 = ground arith in
      let bottom : low ≡ 0 = ground arith in rw (top, bottom) (omega arith)
  | inr part ↦
      let narrow : high - low + 1 < 32 = ground arith in
      let mask = low_mask (high - low + 1) narrow in
      let field = bit_and-mask (high - low + 1) (value / 2 ^ low) in ground (arith, mask, field)
]

module _ (value k : ℕ) (narrow : k < 31) (small : value < 2 ^ suc k) where
  masked : bit_and value (shl32 1 (suc k) - 1) ≡ value
  masked = rw (low_mask (suc k) (omega arith)) (bit_and-mask (suc k) value ∙ mod-eq_of_lt small)

  sign_bit : shl32 1 k ≡ 2 ^ k
  sign_bit =
      let bound : 2 ^ k ≤ 2 ^ 31 = pow-le-pow_right (omega arith) {j = 31} (omega arith) in
      let fits : 1 * 2 ^ k < 2 ^ 32 = omega arith in mod-eq_of_lt fits ∙ omega arith

  sign_test : has_bits value (2 ^ k) ≡ (if ltb value (2 ^ k) then false else true)
  sign_test = ground (arith, bit_and-two_pow k value, one-le-pow k 2, bit_of_top k value small)

  upper_ones : bit_or value (not32 (2 ^ suc k - 1)) ≡ value + (2 ^ 32 - 2 ^ suc k)
  upper_ones =
      let bound : 2 ^ suc k ≤ 2 ^ 32 = pow-le-pow_right (omega arith) {j = 32} (omega arith) in
      let complement : not32 (2 ^ suc k - 1) ≡ 2 ^ 32 - 2 ^ suc k =
        omega (arith, one-le-pow (suc k) 2) in
      let multiple : (2 ^ 32 - 2 ^ suc k) % 2 ^ suc k ≡ 0 =
        sym (mod-eq-sub-mod bound) ∙ two_pow-mod 32 (suc k) (omega arith) in
      rw complement (bit_or-eq-add_low (suc k) value _ small multiple)

-- `sign_extend` of a value of `suc k` bits, with `k` below 31, copies the top bit above it: where it is
-- clear the value stays, else the ones above are added.
pub sign_extend_lem :
    (value k : ℕ)
    → k < 31
    → value < 2 ^ suc k
    → sign_extend value (suc k)
      ≡ (if ltb value (2 ^ k) then value else value + (2 ^ 32 - 2 ^ suc k))
unfolding sign_extend
sign_extend_lem value k narrow small =
    let below : suc k - 1 ≡ k = omega arith in
    rw (masked value k narrow small, below, sign_bit value k narrow small)
      (ground (
        arith,
        sign_test value k narrow small,
        upper_ones value k narrow small,
        low_mask (suc k) (omega arith),
      ))
