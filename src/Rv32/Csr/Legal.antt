-- ===== src/Rv32/Csr/Legal.antt =====
-- core32/src/csr.cpp: `sanitize_mstatus`, digit by digit.
use risc_v_cpu_emulator.Prelude.{
  ℕ, ◌+◌, ◌*◌, ◌/◌, ◌^◌, ◌≤◌, ◌<◌, ◌≡◌, ◌≢◌, ◌⊎◌, refl, inl, inr, Bool-cases, arith, min, bit_and,
  ◌==◌, leb, ◌&&◌, if◌then◌else◌, true, ◌||◌, Bool,
}
use risc_v_cpu_emulator.Words.{shr, not32}
use risc_v_cpu_emulator.Words.Bits.{bit_of, bit_of-lt, bit_and-bit_of, bit_of_high}
use risc_v_cpu_emulator.Words.Fields.{bit_and_shifted, bit_and-mask, bit_of_ext_all}
use risc_v_cpu_emulator.Words.Masks.{all_below, all_below_lem}
use risc_v_cpu_emulator.Rv32.Csr.Bits.{status_mpp, implemented}
use risc_v_cpu_emulator.Rv32.Csr.Access.{sanitize_mstatus}

pub mpp_field : (x : ℕ) → shr (bit_and x status_mpp) 11 ≡ bit_of x 11 + 2 * bit_of x 12
unfolding bit_of
mpp_field x = omega (arith, bit_and_shifted 11 x 3, bit_and-mask 2 (x / 2 ^ 11))

implemented_mpp :
    (value : ℕ)
    → (bit_of (bit_and value implemented) 11 ≡ bit_of value 11)
      × (bit_of (bit_and value implemented) 12 ≡ bit_of value 12)
unfolding bit_of
implemented_mpp value =
    omega (arith, bit_and-bit_of value implemented 11, bit_and-bit_of value implemented 12)

-- Where the status is split on the test for the reserved mode.
sanitize_mstatus-cases :
    (value : ℕ)
    → ((bit_of value 11 ≡ 0)
        × (bit_of value 12 ≡ 1)
        × (sanitize_mstatus value ≡ bit_and (bit_and value implemented) (not32 status_mpp)))
      ⊎ ((bit_of value 12 ≤ bit_of value 11) × (sanitize_mstatus value ≡ bit_and value implemented))
unfolding sanitize_mstatus
sanitize_mstatus-cases value =
    let kept : ℕ = bit_and value implemented in
    let field = mpp_field kept in
    let low = implemented_mpp value in
    elim (Bool-cases (shr (bit_and kept status_mpp) 11 == 2)) [
      | inl e ↦ inl (
        ground (arith, bit_of-lt value 11, bit_of-lt value 12),
        ground (arith, bit_of-lt value 11, bit_of-lt value 12),
        rw e refl,
      )
      | inr e ↦ inr (ground (arith, bit_of-lt value 11, bit_of-lt value 12), rw e refl)
    ]

abbrev outside_mpp : ℕ → Bool
outside_mpp k = k == 11 || k == 12 || bit_of (not32 status_mpp) k == 1

outside_mpp_lem : (k : ℕ) → k < 32 → outside_mpp k ≡ true
unfolding all_below bit_of
outside_mpp_lem k h = all_below_lem 32 outside_mpp k refl h

pub implemented_high : (k : ℕ) → 32 ≤ k → bit_of implemented k ≡ 0
implemented_high k h = bit_of_high implemented 32 k (omega arith) h

not_mpp_top : bit_of (not32 status_mpp) 12 ≡ 0
unfolding bit_of
not_mpp_top = refl

-- Each digit but 12 is kept where it is implemented; digit 12 only where digit 11 is set too.
pub sanitize_mstatus-bit_of :
    (value k : ℕ)
    → k ≢ 12
    → bit_of (sanitize_mstatus value) k ≡ min (bit_of value k) (bit_of implemented k)
sanitize_mstatus-bit_of value k other = elim (sanitize_mstatus-cases value) [
  | inl (low, high, e) ↦ rw e (
      ground (
        arith,
        low,
        bit_and-bit_of (bit_and value implemented) (not32 status_mpp) k,
        bit_and-bit_of value implemented k,
        outside_mpp_lem k,
        implemented_high k,
        bit_of-lt implemented k,
        bit_of-lt (not32 status_mpp) k,
      ))
  | inr (low, e) ↦ rw e (bit_and-bit_of value implemented k)
]

pub sanitize_mstatus-top :
    (value : ℕ) → bit_of (sanitize_mstatus value) 12 ≡ min (bit_of value 12) (bit_of value 11)
sanitize_mstatus-top value = elim (sanitize_mstatus-cases value) [
  | inl (low, high, e) ↦
      rw (e, low, bit_and-bit_of (bit_and value implemented) (not32 status_mpp) 12) cleared_top
  | inr (low, e) ↦ rw e (omega (arith, low, implemented_mpp value))
]
  where
    cleared_top :
        min (bit_of (bit_and value implemented) 12) (bit_of (not32 status_mpp) 12)
        ≡ min (bit_of value 12) 0
    cleared_top = omega (arith, not_mpp_top)

-- What `sanitize_mstatus` returns, it leaves as it is.
pub sanitize_mstatus_idempotent :
    (value : ℕ) → sanitize_mstatus (sanitize_mstatus value) ≡ sanitize_mstatus value
sanitize_mstatus_idempotent value = bit_of_ext_all _ _ λ k. elim (Bool-cases (k == 12)) [
  | inl e ↦
      let top : k ≡ 12 = ground arith in
      let outer = sanitize_mstatus-top (sanitize_mstatus value) in
      let inner = sanitize_mstatus-top value in
      rw top (
        omega (
          arith,
          outer,
          inner,
          sanitize_mstatus-bit_of value 11 (omega arith),
          implemented_mpp value,
          bit_and-bit_of value implemented 11,
        ))
  | inr e ↦
      let other : k ≢ 12 = ground arith in
      omega (
        arith,
        sanitize_mstatus-bit_of (sanitize_mstatus value) k other,
        sanitize_mstatus-bit_of value k other,
      )
]

-- SIE, MIE, SPIE, MPIE, SPP, the lower digit of MPP, and MPRV, SUM, MXR, TVM, TW and TSR.
abbrev pub is_implemented_digit : ℕ → Bool
is_implemented_digit k =
    k == 1 || k == 3 || k == 5 || k == 7 || k == 8 || k == 11 || leb 17 k && leb k 22

abbrev mask_has_digit : ℕ → Bool
mask_has_digit k = k == 12 || bit_of implemented k == (if is_implemented_digit k then 1 else 0)

mask_has_digit_lem : (k : ℕ) → k < 32 → mask_has_digit k ≡ true
unfolding all_below bit_of
mask_has_digit_lem k h = all_below_lem 32 mask_has_digit k refl h

-- Digit by digit, of any value: an implemented field is kept and every other digit is cleared, but
-- that the saved mode 2, which no mode has, becomes 0.
pub sanitize_mstatus_digits :
    (value k : ℕ)
    → bit_of (sanitize_mstatus value) k ≡ (
        if k == 12
        then (if bit_of value 11 == 0 then 0 else bit_of value 12)
        else if is_implemented_digit k
        then bit_of value k
        else 0)
sanitize_mstatus_digits value k = elim (Bool-cases (k == 12)) [
  | inl e ↦
      let top : k ≡ 12 = ground arith in
      rw top (ground (arith, sanitize_mstatus-top value, bit_of-lt value 11, bit_of-lt value 12))
  | inr e ↦
      let other : k ≢ 12 = ground arith in
      rw (e, sanitize_mstatus-bit_of value k other)
        (ground (arith, e, mask_has_digit_lem k, implemented_high k, bit_of-lt value k))
]
