-- ===== src/Rv32/Commit/Preservation.antt =====
-- core32/src/execute.cpp: the invariant of the CPU state, and `commit_pending`.
use risc_v_cpu_emulator.Prelude.{
  ℕ, zero, suc, ◌<◌, ◌^◌, ◌≡◌, ◌≢◌, refl, ap, ◌∙◌, arith, bit_and, Bool, true, false, ◌==◌, inl,
  inr, Bool-cases, List, [], ◌∷◌, length, get_or, set, length-set, get_or-set_self,
}
use risc_v_cpu_emulator.Words.{not32}
use risc_v_cpu_emulator.Words.Bits.{bit_of, bit_of-lt, bit_and-bit_of}
use risc_v_cpu_emulator.Words.Fields.{bit_of_ext_all}
use risc_v_cpu_emulator.Rv32.Types.{PrivilegeMode, CpuSnapshot, PendingCommit}
use risc_v_cpu_emulator.Rv32.Csr.Bits.{status_mprv}
use risc_v_cpu_emulator.Rv32.Csr.Access.{sanitize_mstatus}
use risc_v_cpu_emulator.Rv32.Csr.File.{write_validated, write_machine, write_counter}
use risc_v_cpu_emulator.Rv32.Csr.Legal.{sanitize_mstatus-bit_of, sanitize_mstatus-top}
use risc_v_cpu_emulator.Rv32.Csr.Invariant.{IsLegal, write_validated-IsLegal}
use risc_v_cpu_emulator.Rv32.Execute.Results.{IsWordCommit}
use risc_v_cpu_emulator.Rv32.Trap.Privileged.{valid_privilege}
use risc_v_cpu_emulator.Rv32.Commit.{
  commit_pending, commit_registers, commit_csr, clear_mprv, rejects,
}

abbrev pub AllWords : List ℕ → Type 0
AllWords [] = Unit
AllWords (x ∷ xs) = (x < 2 ^ 32) × AllWords xs

set-AllWords : (xs : List ℕ) (i v : ℕ) → v < 2 ^ 32 → AllWords xs → AllWords (set xs i v)
set-AllWords [] i v h k = k
set-AllWords (x ∷ xs) zero v h k = (h, k.1)
set-AllWords (x ∷ xs) (suc i) v h k = (k.0, set-AllWords xs i v h k.1)

-- There are 32 registers, each a word and x0 zero, in a mode that exists.
pub record IsCpu (registers : List ℕ) (privilege : PrivilegeMode) : Type 0 where
  pub register_count : length registers ≡ 32
  pub register_words : AllWords registers
  pub zero_register : get_or registers 0 0 ≡ 0
  pub mode_exists : valid_privilege privilege ≡ true

pub record IsWellFormed (state : CpuSnapshot) : Type 0 where
  pub cpu : IsCpu state.registers state.privilege
  pub word_pc : state.pc < 2 ^ 32
  pub legal : IsLegal state

-- A register write followed by the clearing of x0.
pub cleared-IsCpu :
    (registers : List ℕ) (privilege : PrivilegeMode)
    → length registers ≡ 32
    → AllWords registers
    → valid_privilege privilege ≡ true
    → IsCpu (set registers 0 0) privilege
cleared-IsCpu registers privilege count words exists = record {
  register_count = length-set registers 0 0 ∙ count;
  register_words = set-AllWords registers 0 0 (omega arith) words;
  zero_register = get_or-set_self registers 0 0 0 (omega (arith, count));
  mode_exists = exists;
}

mprv_digits : (bit_of (not32 status_mprv) 11 ≡ 1) × (bit_of (not32 status_mprv) 12 ≡ 1)
unfolding bit_of
mprv_digits = (refl, refl)

-- The clearing of MPRV leaves a sanitized status sanitized.
clear_mprv-sanitized :
    (status : ℕ)
    → sanitize_mstatus status ≡ status
    → sanitize_mstatus (bit_and status (not32 status_mprv)) ≡ bit_and status (not32 status_mprv)
clear_mprv-sanitized status h =
    let cleared : ℕ = bit_and status (not32 status_mprv) in
    bit_of_ext_all _ _ λ k. elim (Bool-cases (k == 12)) [
      | inl e ↦
          let top : k ≡ 12 = ground arith in
          rw top (
            omega (
              arith,
              sanitize_mstatus-top cleared,
              sanitize_mstatus-top status,
              ap (λ (x : ℕ). bit_of x 12) h,
              bit_and-bit_of status (not32 status_mprv) 12,
              bit_and-bit_of status (not32 status_mprv) 11,
              mprv_digits,
              bit_of-lt status 11,
              bit_of-lt status 12,
            ))
      | inr e ↦
          let other : k ≢ 12 = ground arith in
          omega (
            arith,
            sanitize_mstatus-bit_of cleared k other,
            sanitize_mstatus-bit_of status k other,
            ap (λ (x : ℕ). bit_of x k) h,
            bit_and-bit_of status (not32 status_mprv) k,
          )
    ]

pub clear_mprv-IsLegal :
    (state : CpuSnapshot) (pending : PendingCommit)
    → IsLegal state
    → IsLegal (clear_mprv state pending)
unfolding clear_mprv
clear_mprv-IsLegal state pending h = ground (
  arith,
  h.in_machine,
  h.in_supervisor,
  clear_mprv-sanitized state.machine_csrs.mstatus h.in_machine.in_mstatus,
)

abbrev pub IsKept : CpuSnapshot → CpuSnapshot → Type 0
IsKept state new =
    (new.registers ≡ state.registers) × (new.privilege ≡ state.privilege) × (new.pc ≡ state.pc)

-- A CSR write touches neither registers nor mode nor PC.
module _ (state : CpuSnapshot) (address value : ℕ) where
  write_machine-IsKept : IsKept state (write_machine state address value)
  unfolding write_machine write_counter
  write_machine-IsKept = ground arith

  write_validated-IsKept : IsKept state (write_validated state address value)
  unfolding write_validated
  write_validated-IsKept = ground (arith, write_machine-IsKept)

pub commit_csr-IsKept :
    (state : CpuSnapshot) (pending : PendingCommit) → IsKept state (commit_csr state pending)
unfolding commit_csr
commit_csr-IsKept state pending =
    ground (arith, write_validated-IsKept state pending.csr_write.address pending.csr_write.value)

pub commit_csr-IsLegal :
    (state : CpuSnapshot) (pending : PendingCommit)
    → IsLegal state
    → IsLegal (commit_csr state pending)
unfolding commit_csr
commit_csr-IsLegal state pending h =
    ground
      (arith, h, write_validated-IsLegal state h pending.csr_write.address pending.csr_write.value)

pub clear_mprv-IsKept :
    (state : CpuSnapshot) (pending : PendingCommit) → IsKept state (clear_mprv state pending)
unfolding clear_mprv
clear_mprv-IsKept state pending = ground arith

commit_registers-IsWellFormed :
    (state : CpuSnapshot) (pending : PendingCommit)
    → IsWellFormed state
    → IsWordCommit pending
    → (pending.privilege_write.enabled ≡ true
        → valid_privilege pending.privilege_write.value ≡ true)
    → IsWellFormed (commit_registers state pending)
unfolding commit_registers
commit_registers-IsWellFormed state pending h w exists =
    let index : ℕ = pending.register_write.index in
    let value : ℕ = pending.register_write.value in
    record {
      cpu =
          cleared-IsCpu _ _
            (ground (arith, h.cpu.register_count, length-set state.registers index value))
            (ground (
              arith,
              set-AllWords state.registers index value w.in_value h.cpu.register_words,
              h.cpu.register_words,
            ))
            (ground (arith, h.cpu.mode_exists, exists));
      word_pc = w.in_next_pc;
      legal = record { in_machine = h.legal.in_machine; in_supervisor = h.legal.in_supervisor };
    }

pub accepted_mode :
    (state : CpuSnapshot) (pending : PendingCommit) (csr_access : Bool)
    → rejects state pending csr_access ≡ false
    → pending.privilege_write.enabled ≡ true
    → valid_privilege pending.privilege_write.value ≡ true
unfolding rejects
accepted_mode state pending csr_access h e = ground (arith, h, e)

kept-IsWellFormed :
    (state new : CpuSnapshot)
    → IsWellFormed state
    → IsKept state new
    → IsLegal new
    → IsWellFormed new
kept-IsWellFormed state new h (registers, privilege, pc) legal = record {
  cpu = rw (registers, privilege) h.cpu;
  word_pc = rw pc h.word_pc;
  legal = legal;
}

-- `commit_pending` keeps the CPU state well-formed: 32 word registers with x0 zero, a mode that
-- exists, a word PC and legal CSR values, for every result that writes words, rejected or not.
pub commit_pending-IsWellFormed :
    (state : CpuSnapshot) (pending : PendingCommit) (csr_access : Bool)
    → IsWellFormed state
    → IsWordCommit pending
    → IsWellFormed (commit_pending state pending csr_access).0
unfolding commit_pending
commit_pending-IsWellFormed state pending csr_access h w =
    elim (Bool-cases (rejects state pending csr_access)) [
      | inl e ↦ rw e h
      | inr e ↦
          let written : CpuSnapshot = commit_registers state pending in
          let first : IsWellFormed written =
            commit_registers-IsWellFormed state pending h w
              (accepted_mode state pending csr_access e) in
          let csr : CpuSnapshot = commit_csr written pending in
          let second : IsWellFormed csr =
            kept-IsWellFormed written csr first (commit_csr-IsKept written pending)
              (commit_csr-IsLegal written pending first.legal) in
          rw e (
            kept-IsWellFormed csr _ second (clear_mprv-IsKept csr pending)
              (clear_mprv-IsLegal csr pending second.legal))
    ]
