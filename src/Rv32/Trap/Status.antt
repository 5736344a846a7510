-- ===== src/Rv32/Trap/Status.antt =====
-- The stack of interrupt enables and modes that trap entry pushes and MRET and SRET pop.
use native.Mathlib.Nat.{one-le-pow}
use risc_v_cpu_emulator.Prelude.{
  ℕ, ◌+◌, ◌*◌, ◌^◌, ◌≡◌, ◌≢◌, refl, ap, arith, min, max, bit_and, bit_or, ◌==◌, true, if◌then◌else◌,
}
use risc_v_cpu_emulator.Words.{shl32, not32, has_bits}
use risc_v_cpu_emulator.Words.Bits.{bit_of, bit_of-lt, bit_and-bit_of, bit_or-bit_of}
use risc_v_cpu_emulator.Words.Fields.{bit_and-two_pow}
use risc_v_cpu_emulator.Rv32.Types.{PrivilegeMode, privilege_value}
use risc_v_cpu_emulator.Rv32.Csr.Bits.{implemented}
use risc_v_cpu_emulator.Rv32.Csr.Access.{sanitize_mstatus}
use risc_v_cpu_emulator.Rv32.Csr.Legal.{
  sanitize_mstatus_idempotent, sanitize_mstatus-bit_of, sanitize_mstatus-top, mpp_field,
}
use risc_v_cpu_emulator.Rv32.Trap.Entry.{enter_machine_status, enter_supervisor_status}
use risc_v_cpu_emulator.Rv32.Trap.Privileged.{
  return_machine_status, previous_privilege, mode_of, valid_privilege,
}

-- A mask of one digit tests that digit.
pub has_bits-bit_of : (x k : ℕ) → has_bits x (2 ^ k) ≡ (bit_of x k == 1)
has_bits-bit_of x k = ground (arith, bit_and-two_pow k x, one-le-pow k 2, bit_of-lt x k)

-- Digit `j` set where digit `k` of `m` is, after a clearing mask.
module _ (m mask k j : ℕ) where
  abbrev pub stacked : ℕ
  stacked = if has_bits m (2 ^ k) then bit_or (bit_and m mask) (2 ^ j) else bit_and m mask

  pub stacked-bit_of :
      (i : ℕ)
      → bit_of stacked i
        ≡ max (min (bit_of m i) (bit_of mask i)) (if bit_of m k == 1 then bit_of (2 ^ j) i else 0)
  stacked-bit_of i =
      rw (has_bits-bit_of m k)
        (ground (arith, bit_or-bit_of (bit_and m mask) (2 ^ j) i, bit_and-bit_of m mask i))

-- Entry to machine mode disables interrupts, and saves the old enable and the old mode.
pub enter_machine_status-bit_of :
    (old : ℕ) (privilege : PrivilegeMode) (k : ℕ)
    → k ≢ 12
    → bit_of (enter_machine_status old privilege) k
      ≡ min
          (max
            (max
              (min (bit_of (sanitize_mstatus old) k) (bit_of (not32 0x1888) k))
              (if bit_of (sanitize_mstatus old) 3 == 1 then bit_of 0x80 k else 0))
            (bit_of (shl32 (privilege_value privilege) 11) k))
          (bit_of implemented k)
unfolding enter_machine_status
enter_machine_status-bit_of old privilege k other =
    let m = sanitize_mstatus old in
    let pushed = stacked m (not32 0x1888) 3 7 in
    omega (
      arith,
      sanitize_mstatus-bit_of (bit_or pushed (shl32 (privilege_value privilege) 11)) k other,
      bit_or-bit_of pushed (shl32 (privilege_value privilege) 11) k,
      stacked-bit_of m (not32 0x1888) 3 7 k,
    )

enter_machine_status-top :
    (old : ℕ) (privilege : PrivilegeMode)
    → bit_of (enter_machine_status old privilege) 12
      ≡ min
          (bit_of (shl32 (privilege_value privilege) 11) 12)
          (bit_of (shl32 (privilege_value privilege) 11) 11)
unfolding enter_machine_status bit_of
enter_machine_status-top old privilege =
    let m = sanitize_mstatus old in
    let mode : ℕ = shl32 (privilege_value privilege) 11 in
    let pushed = stacked m (not32 0x1888) 3 7 in
    ground (
      arith,
      sanitize_mstatus-top (bit_or pushed mode),
      bit_or-bit_of pushed mode 12,
      bit_or-bit_of pushed mode 11,
      stacked-bit_of m (not32 0x1888) 3 7 12,
      stacked-bit_of m (not32 0x1888) 3 7 11,
    )

pub previous_privilege-bit_of :
    (mstatus : ℕ) → previous_privilege mstatus ≡ mode_of (bit_of mstatus 11 + 2 * bit_of mstatus 12)
unfolding previous_privilege
previous_privilege-bit_of mstatus = ap mode_of (mpp_field mstatus)

-- The digits of a mode at the place of MPP.
mode_digits :
    (privilege : PrivilegeMode)
    → valid_privilege privilege ≡ true
    → let mode : ℕ = shl32 (privilege_value privilege) 11 in
      (bit_of mode 3 ≡ 0)
      × (bit_of mode 7 ≡ 0)
      × (mode_of (bit_of mode 11 + 2 * min (bit_of mode 12) (bit_of mode 11)) ≡ privilege)
unfolding bit_of mode_of valid_privilege
mode_digits PrivilegeMode.user h = (refl, refl, refl)
mode_digits PrivilegeMode.supervisor h = (refl, refl, refl)
mode_digits PrivilegeMode.reserved h = absurd (cc)
mode_digits PrivilegeMode.machine h = (refl, refl, refl)

constant_digits :
    (bit_of implemented 3 ≡ 1)
    × (bit_of implemented 7 ≡ 1)
    × (bit_of implemented 11 ≡ 1)
    × (bit_of (not32 0x1888) 3 ≡ 0)
    × (bit_of (not32 0x1888) 7 ≡ 0)
    × (bit_of (not32 0x1888) 11 ≡ 0)
    × (bit_of 0x80 3 ≡ 0)
    × (bit_of 0x80 7 ≡ 1)
    × (bit_of 0x80 11 ≡ 0)
unfolding bit_of
constant_digits = (refl, refl, refl, refl, refl, refl, refl, refl, refl)

-- Entry to machine mode, from a mode that exists, clears MIE, and saves the old MIE in MPIE and the
-- old mode in MPP.
pub enter_machine_status_lem :
    (old : ℕ) (privilege : PrivilegeMode)
    → valid_privilege privilege ≡ true
    → (bit_of (enter_machine_status old privilege) 3 ≡ 0)
      × (bit_of (enter_machine_status old privilege) 7 ≡ bit_of old 3)
      × (previous_privilege (enter_machine_status old privilege) ≡ privilege)
enter_machine_status_lem old privilege h =
    let digit = λ (k : ℕ) (g : k ≢ 12). enter_machine_status-bit_of old privilege k g in
    let kept = sanitize_mstatus-bit_of old 3 (omega arith) in
    let mode : ℕ = shl32 (privilege_value privilege) 11 in
    let modes = mode_digits privilege h in
    let low : bit_of (enter_machine_status old privilege) 11 ≡ bit_of mode 11 =
      ground (arith, digit 11 (omega arith), constant_digits, bit_of-lt mode 11) in
    (
      ground (arith, digit 3 (omega arith), constant_digits, modes.0),
      ground (arith, digit 7 (omega arith), constant_digits, modes.1, kept, bit_of-lt old 3),
      rw
          (
            previous_privilege-bit_of (enter_machine_status old privilege),
            low,
            enter_machine_status-top old privilege,
          )
          modes.2,
    )

-- MRET enables machine interrupts as they were saved.
pub return_machine_status-bit_of : (old : ℕ) → bit_of (return_machine_status old) 3 ≡ bit_of old 7
unfolding return_machine_status bit_of
return_machine_status-bit_of old =
    let enabled = stacked old (not32 0x1888) 7 3 in
    ground (
      arith,
      stacked-bit_of old (not32 0x1888) 7 3 3,
      bit_or-bit_of enabled 0x80 3,
      bit_and-bit_of (bit_or enabled 0x80) (not32 0x20000) 3,
      bit_of-lt old 7,
    )

-- Trap entry leaves a status that is sanitized, and a sanitized status holds an existing mode.
pub enter_machine_status_fixed :
    (old : ℕ) (privilege : PrivilegeMode)
    → sanitize_mstatus (enter_machine_status old privilege) ≡ enter_machine_status old privilege
unfolding enter_machine_status
enter_machine_status_fixed old privilege = sanitize_mstatus_idempotent _

pub previous_privilege_valid :
    (value : ℕ) → valid_privilege (previous_privilege (sanitize_mstatus value)) ≡ true
unfolding mode_of valid_privilege
previous_privilege_valid value =
    rw (previous_privilege-bit_of (sanitize_mstatus value), sanitize_mstatus-top value)
      (ground (
        arith,
        sanitize_mstatus-bit_of value 11 (omega arith),
        bit_of-lt value 11,
        bit_of-lt value 12,
        constant_digits,
      ))

pub enter_supervisor_status_fixed :
    (old : ℕ) (privilege : PrivilegeMode)
    → sanitize_mstatus (enter_supervisor_status old privilege)
      ≡ enter_supervisor_status old privilege
unfolding enter_supervisor_status
enter_supervisor_status_fixed old privilege = sanitize_mstatus_idempotent _
