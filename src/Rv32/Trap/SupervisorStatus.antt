-- ===== src/Rv32/Trap/SupervisorStatus.antt =====
-- The stack of enables and modes of supervisor mode: what entry pushes and SRET pops.
use risc_v_cpu_emulator.Prelude.{
  ℕ, ◌≡◌, ◌≢◌, refl, inl, inr, Bool-cases, arith, min, max, bit_and, bit_or, ◌==◌, if◌then◌else◌,
}
use risc_v_cpu_emulator.Words.{not32}
use risc_v_cpu_emulator.Words.Bits.{bit_of, bit_of-lt, bit_and-bit_of, bit_or-bit_of}
use risc_v_cpu_emulator.Rv32.Types.{PrivilegeMode}
use risc_v_cpu_emulator.Rv32.Csr.Bits.{implemented, status_spp, supervisor_view}
use risc_v_cpu_emulator.Rv32.Csr.Access.{is_supervisor, sanitize_mstatus}
use risc_v_cpu_emulator.Rv32.Csr.File.{merge}
use risc_v_cpu_emulator.Rv32.Csr.Legal.{sanitize_mstatus-bit_of}
use risc_v_cpu_emulator.Rv32.Trap.Entry.{enter_supervisor_status}
use risc_v_cpu_emulator.Rv32.Trap.Privileged.{
  supervisor_previous_privilege, return_supervisor_status,
}
use risc_v_cpu_emulator.Rv32.Trap.Status.{has_bits-bit_of, stacked, stacked-bit_of}

-- The digits of the status on entry: of SIE, SPIE, SPP and TSR.
module _ (old : ℕ) (privilege : PrivilegeMode) where
  abbrev pushed : ℕ
  pushed = stacked (sanitize_mstatus old) (not32 0x122) 1 5

  entered-bit_of :
      (k : ℕ)
      → k ≢ 12
      → bit_of (enter_supervisor_status old privilege) k
        ≡ min
            (max (bit_of pushed k) (if is_supervisor privilege then bit_of status_spp k else 0))
            (bit_of implemented k)
  unfolding enter_supervisor_status
  entered-bit_of k other = elim (Bool-cases (is_supervisor privilege)) [
    | inl e ↦ rw e (
        omega (
          arith,
          sanitize_mstatus-bit_of (bit_or pushed status_spp) k other,
          bit_or-bit_of pushed status_spp k,
        ))
    | inr e ↦ rw e (omega (arith, sanitize_mstatus-bit_of pushed k other))
  ]

  -- Entry to supervisor mode clears SIE, saves the old SIE in SPIE and the mode in SPP, and keeps TSR.
  pub enter_supervisor_status_lem :
      (bit_of (enter_supervisor_status old privilege) 1 ≡ 0)
      × (bit_of (enter_supervisor_status old privilege) 5 ≡ bit_of old 1)
      × (bit_of (enter_supervisor_status old privilege) 8
          ≡ (if is_supervisor privilege then 1 else 0))
      × (bit_of (enter_supervisor_status old privilege) 22 ≡ bit_of old 22)
  unfolding bit_of
  enter_supervisor_status_lem =
      let m : ℕ = sanitize_mstatus old in
      (
        ground (arith, entered-bit_of 1 (omega arith), stacked-bit_of m (not32 0x122) 1 5 1),
        ground (
          arith,
          entered-bit_of 5 (omega arith),
          stacked-bit_of m (not32 0x122) 1 5 5,
          sanitize_mstatus-bit_of old 1 (omega arith),
        ),
        ground (arith, entered-bit_of 8 (omega arith), stacked-bit_of m (not32 0x122) 1 5 8),
        ground (
          arith,
          entered-bit_of 22 (omega arith),
          stacked-bit_of m (not32 0x122) 1 5 22,
          sanitize_mstatus-bit_of old 22 (omega arith),
        ),
      )

pub supervisor_previous_privilege-bit_of :
    (mstatus : ℕ)
    → supervisor_previous_privilege mstatus
      ≡ (if bit_of mstatus 8 == 1 then PrivilegeMode.supervisor else PrivilegeMode.user)
unfolding supervisor_previous_privilege
supervisor_previous_privilege-bit_of mstatus = rw (has_bits-bit_of mstatus 8) refl

-- SRET enables supervisor interrupts as they were saved, through the write to `sstatus` and the
-- clearing of MPRV.
pub restored_sie :
    (current old : ℕ)
    → bit_of
        (bit_and
          (sanitize_mstatus (merge supervisor_view current (return_supervisor_status old)))
          (not32 0x20000))
        1
      ≡ bit_of old 5
unfolding return_supervisor_status bit_of
restored_sie current old =
    let enabled : ℕ = stacked old (not32 0x122) 5 1 in
    let new : ℕ = bit_and (bit_or enabled 0x20) (not32 0x20000) in
    let merged : ℕ = merge supervisor_view current new in
    ground (
      arith,
      bit_and-bit_of (sanitize_mstatus merged) (not32 0x20000) 1,
      sanitize_mstatus-bit_of merged 1 (omega arith),
      bit_or-bit_of (bit_and current (not32 supervisor_view)) (bit_and new supervisor_view) 1,
      bit_and-bit_of current (not32 supervisor_view) 1,
      bit_and-bit_of new supervisor_view 1,
      bit_and-bit_of (bit_or enabled 0x20) (not32 0x20000) 1,
      bit_or-bit_of enabled 0x20 1,
      stacked-bit_of old (not32 0x122) 5 1 1,
      bit_of-lt old 5,
    )
