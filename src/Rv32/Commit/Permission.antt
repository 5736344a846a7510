-- ===== src/Rv32/Commit/Permission.antt =====
-- Who may write which CSR, and what a write leaves alone.
use risc_v_cpu_emulator.Prelude.{
  ℕ, ◌≤◌, ◌<◌, ◌≡◌, ◌≢◌, refl, ap, arith, bit_and, true, false, ◌||◌, ◌==◌, inl, inr, Bool-cases,
}
use risc_v_cpu_emulator.Words.{not32}
use risc_v_cpu_emulator.Words.Bits.{bit_of, bit_of-lt, bit_and-bit_of, bit_or-bit_of}
use risc_v_cpu_emulator.Words.Fields.{not32-bit_of}
use risc_v_cpu_emulator.Rv32.Types.{PrivilegeMode, privilege_value, CpuSnapshot, DecodedInstruction}
use risc_v_cpu_emulator.Rv32.Csr.Address
use risc_v_cpu_emulator.Rv32.Csr.Bits.{supervisor_view}
use risc_v_cpu_emulator.Rv32.Csr.Access.{
  CsrAccessStatus, csr_is_read_only, csr_minimum_privilege, csr_privilege_allows,
  satp_access_trapped, is_writable_machine_address, is_writable_supervisor_address,
  sanitize_mstatus,
}
use risc_v_cpu_emulator.Rv32.Csr.File.{validate_write, write_validated, merge}
use risc_v_cpu_emulator.Rv32.Csr.Legal.{sanitize_mstatus-bit_of, sanitize_mstatus-top}
use risc_v_cpu_emulator.Rv32.Execute.Integer.{not_ready, ready_commit}
use risc_v_cpu_emulator.Rv32.Commit.{
  CsrExecutionStatus, not_csr, planned, csr_plan, csr_run, csr_refuse, csr_finish, execute_csr,
  commit_pending, rejects, is_execute_ready,
}

-- A writable address is none that the two top bits of its number mark as read-only.
writable_not_read_only :
    (address : ℕ)
    → (is_writable_machine_address address || is_writable_supervisor_address address) ≡ true
    → csr_is_read_only address ≡ false
unfolding is_writable_machine_address is_writable_supervisor_address csr_is_read_only
writable_not_read_only address h = ground (arith, h)

-- Where `validate_write` is ready, the address's own bits allow it: it is in no read-only range, its
-- minimum privilege is at most the current one, and it is not the trapped `satp`.
pub validate_write_lem :
    (state : CpuSnapshot) (address : ℕ) (privilege : PrivilegeMode)
    → validate_write state address privilege ≡ CsrAccessStatus.ready
    → (csr_is_read_only address ≡ false)
      × (csr_minimum_privilege address ≤ privilege_value privilege)
      × (satp_access_trapped state address privilege ≡ false)
unfolding validate_write csr_privilege_allows
validate_write_lem state address privilege h = ground (arith, h, writable_not_read_only address)

sstatus_merged :
    (old value k : ℕ)
    → bit_of supervisor_view k ≡ 0
    → k < 32
    → bit_of (merge supervisor_view old value) k ≡ bit_of old k
sstatus_merged old value k outside in_word = omega (
  arith,
  bit_or-bit_of (bit_and old (not32 supervisor_view)) (bit_and value supervisor_view) k,
  bit_and-bit_of old (not32 supervisor_view) k,
  bit_and-bit_of value supervisor_view k,
  not32-bit_of supervisor_view k (omega arith) in_word,
  bit_of-lt old k,
)

view_mpp : (bit_of supervisor_view 11 ≡ 0) × (bit_of supervisor_view 12 ≡ 0)
unfolding bit_of
view_mpp = (refl, refl)

-- A write to `sstatus` changes no digit of a sanitized `mstatus` outside the supervisor's view: not
-- the machine's interrupt enables, nor MPP, MPRV, TVM, TW and TSR.
pub write_sstatus_isolated :
    (state : CpuSnapshot) (value k : ℕ)
    → sanitize_mstatus state.machine_csrs.mstatus ≡ state.machine_csrs.mstatus
    → bit_of supervisor_view k ≡ 0
    → k < 32
    → bit_of (write_validated state Address.sstatus value).machine_csrs.mstatus k
      ≡ bit_of state.machine_csrs.mstatus k
unfolding write_validated
write_sstatus_isolated state value k legal outside in_word =
    let old : ℕ = state.machine_csrs.mstatus in
    let new : ℕ = merge supervisor_view old value in
    elim (Bool-cases (k == 12)) [
      | inl e ↦
          let top : k ≡ 12 = ground arith in
          rw top (
            omega (
              arith,
              sanitize_mstatus-top new,
              sanitize_mstatus-top old,
              ap (λ (x : ℕ). bit_of x 12) legal,
              sstatus_merged old value 12 view_mpp.1 (omega arith),
              sstatus_merged old value 11 view_mpp.0 (omega arith),
            ))
      | inr e ↦
          let other : k ≢ 12 = ground arith in
          omega (
            arith,
            sanitize_mstatus-bit_of new k other,
            sanitize_mstatus-bit_of old k other,
            ap (λ (x : ℕ). bit_of x k) legal,
            sstatus_merged old value k outside in_word,
          )
    ]

-- A CSR instruction that `execute_csr` finds ready, with a register number below 32, is one that
-- `commit_pending` accepts in the same state.
pub execute_csr_accepted :
    (state : CpuSnapshot) (time rs1_value : ℕ) (decoded : DecodedInstruction)
    → decoded.rd < 32
    → (execute_csr state time decoded state.privilege state.pc rs1_value).status
      ≡ CsrExecutionStatus.ready
    → (commit_pending state
        (execute_csr state time decoded state.privilege state.pc rs1_value).pending
        true).1
      ≡ true
unfolding execute_csr csr_run csr_refuse csr_finish commit_pending rejects is_execute_ready
    not_ready ready_commit
execute_csr_accepted state time rs1_value decoded h ready =
    elim (csr_plan decoded.kind decoded rs1_value)
        as (λ p.
          (csr_run state time decoded state.privilege state.pc p).status ≡ CsrExecutionStatus.ready
          → (commit_pending state (csr_run state time decoded state.privilege state.pc p).pending
              true).1
            ≡ true) [ not_csr ↦ λ e. absurd (cc) | planned plan ↦ λ e. ground (arith, e) ]
      ready
