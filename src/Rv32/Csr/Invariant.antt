-- ===== src/Rv32/Csr/Invariant.antt =====
-- core32/src/csr.cpp: the values that the CSRs of the write-any, read-legal kind can hold.
use risc_v_cpu_emulator.Prelude.{ℕ, ◌≡◌, ◌⊎◌, refl, ap, arith, bit_and, leb, if◌then◌else◌}
use risc_v_cpu_emulator.Words.{not32}
use risc_v_cpu_emulator.Words.Bits.{bit_of, bit_of-lt, bit_and-bit_of, bit_or-bit_of}
use risc_v_cpu_emulator.Words.Fields.{
  bit_and-Within, bit_and-eq_of_Within, bit_of_ext_all, bit_and-mask,
}
use risc_v_cpu_emulator.Rv32.Types.{CpuSnapshot, MachineCsrState, SupervisorCsrState}
use risc_v_cpu_emulator.Rv32.Csr.Bits.{
  supervisor_view, supported_exception_delegation, supported_interrupt_delegation,
  supported_interrupts, machine_writable_pending, supported_counter_enable, supervisor_interrupts,
  supervisor_writable_pending,
}
use risc_v_cpu_emulator.Rv32.Csr.Access.{sanitize_mstatus, sanitize_mtvec, sanitize_satp}
use risc_v_cpu_emulator.Rv32.Csr.Legal.{sanitize_mstatus_idempotent}
use risc_v_cpu_emulator.Rv32.Csr.File.{merge, write_counter, write_machine, write_validated}

-- `value` has no digit outside `mask`.
abbrev pub IsMasked : ℕ → ℕ → Type 0
IsMasked mask value = bit_and value mask ≡ value

pub record IsLegalMachine (csrs : MachineCsrState) : Type 0 where
  pub in_mstatus : sanitize_mstatus csrs.mstatus ≡ csrs.mstatus
  pub in_medeleg : IsMasked supported_exception_delegation csrs.medeleg
  pub in_mideleg : IsMasked supported_interrupt_delegation csrs.mideleg
  pub in_mie : IsMasked supported_interrupts csrs.mie
  pub in_mip : IsMasked machine_writable_pending csrs.mip_software
  pub in_mcounteren : IsMasked supported_counter_enable csrs.mcounteren
  pub in_mtvec : bit_of csrs.mtvec 1 ≡ 0
  pub in_mepc : bit_of csrs.mepc 0 ≡ 0

pub record IsLegalSupervisor (csrs : SupervisorCsrState) : Type 0 where
  pub in_scounteren : IsMasked supported_counter_enable csrs.scounteren
  pub in_stvec : bit_of csrs.stvec 1 ≡ 0
  pub in_sepc : bit_of csrs.sepc 0 ≡ 0
  pub in_satp : (csrs.satp ≡ 0) ⊎ (bit_of csrs.satp 31 ≡ 1)

-- The registers hold implemented modes, masks and alignments only.
pub record IsLegal (state : CpuSnapshot) : Type 0 where
  pub in_machine : IsLegalMachine state.machine_csrs
  pub in_supervisor : IsLegalSupervisor state.supervisor_csrs

pub masked : (mask value : ℕ) → IsMasked mask (bit_and value mask)
masked mask value = bit_and-eq_of_Within (bit_and value mask) mask (bit_and-Within value mask)

-- A merge through a narrower mask.
pub merge-IsMasked :
    (wide mask old value : ℕ)
    → IsMasked wide old
    → IsMasked wide mask
    → IsMasked wide (merge mask old value)
merge-IsMasked wide mask old value p q = bit_of_ext_all _ _ λ k. omega (
  arith,
  bit_and-bit_of (merge mask old value) wide k,
  bit_or-bit_of (bit_and old (not32 mask)) (bit_and value mask) k,
  bit_and-bit_of old (not32 mask) k,
  bit_and-bit_of value mask k,
  bit_and-bit_of old wide k,
  bit_and-bit_of mask wide k,
  ap (λ (x : ℕ). bit_of x k) p,
  ap (λ (x : ℕ). bit_of x k) q,
)

pub narrowed : (wide mask value : ℕ) → IsMasked wide mask → IsMasked wide (bit_and value mask)
narrowed wide mask value q = bit_of_ext_all _ _ λ k. omega (
  arith,
  bit_and-bit_of (bit_and value mask) wide k,
  bit_and-bit_of value mask k,
  bit_and-bit_of mask wide k,
  ap (λ (x : ℕ). bit_of x k) q,
)

pub even_cleared : (x : ℕ) → bit_of (bit_and x (not32 1)) 0 ≡ 0
unfolding bit_of
even_cleared x = omega (arith, bit_and-bit_of x (not32 1) 0)

pub sanitize_mtvec-bit_of : (x : ℕ) → bit_of (sanitize_mtvec x) 1 ≡ 0
unfolding sanitize_mtvec bit_of
sanitize_mtvec-bit_of x =
    let base : ℕ = bit_and x (not32 3) in
    let mode : ℕ = bit_and x 3 in
    let kept : ℕ = if leb mode 1 then mode else 0 in
    ground (arith, bit_or-bit_of base kept 1, bit_and-bit_of x (not32 3) 1, bit_and-mask 2 x)

pub sanitize_satp-cases : (x : ℕ) → (sanitize_satp x ≡ 0) ⊎ (bit_of (sanitize_satp x) 31 ≡ 1)
unfolding sanitize_satp bit_of
sanitize_satp-cases x =
    let rest : ℕ = bit_and x 0x7FFFFFFF in
    ground (arith, bit_or-bit_of 0x80000000 rest 31, bit_of-lt rest 31)

module _ (state : CpuSnapshot) (legal : IsLegal state) (address value : ℕ) where
  write_counter-IsLegal : IsLegal (write_counter state address value)
  unfolding write_counter
  write_counter-IsLegal = ground (arith, legal.in_machine, legal.in_supervisor)

  write_machine-IsLegal : IsLegal (write_machine state address value)
  unfolding write_machine
  write_machine-IsLegal = ground (
    arith,
    legal.in_machine,
    legal.in_supervisor,
    write_counter-IsLegal,
    masked supported_exception_delegation value,
    masked supported_interrupt_delegation value,
    masked supported_interrupts value,
    masked supported_counter_enable value,
    masked machine_writable_pending value,
    even_cleared value,
    sanitize_mtvec-bit_of value,
    sanitize_mstatus_idempotent value,
  )

  -- Where the CSR values are legal, a write of any value to any address leaves them legal.
  pub write_validated-IsLegal : IsLegal (write_validated state address value)
  unfolding write_validated
  write_validated-IsLegal = ground (
    arith,
    legal.in_machine,
    legal.in_supervisor,
    write_machine-IsLegal,
    masked supported_counter_enable value,
    even_cleared value,
    sanitize_mtvec-bit_of value,
    sanitize_satp-cases value,
    sanitize_mstatus_idempotent (merge supervisor_view state.machine_csrs.mstatus value),
    merge-IsMasked supported_interrupts (bit_and state.machine_csrs.mideleg supervisor_interrupts)
        state.machine_csrs.mie value,
    merge-IsMasked machine_writable_pending
        (bit_and state.machine_csrs.mideleg supervisor_writable_pending)
        state.machine_csrs.mip_software value,
    narrowed supported_interrupts supervisor_interrupts state.machine_csrs.mideleg refl,
    narrowed machine_writable_pending supervisor_writable_pending state.machine_csrs.mideleg refl,
  )
