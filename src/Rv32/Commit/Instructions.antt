-- ===== src/Rv32/Commit/Instructions.antt =====
-- The path of an instruction without memory access: decode, execute on the registers, commit.
use risc_v_cpu_emulator.Prelude.{
  ℕ, zero, suc, ◌<◌, ◌^◌, ◌≡◌, refl, arith, true, false, Option, none, some, List, [], ◌∷◌, get_or,
}
use risc_v_cpu_emulator.Rv32.Types.{
  CpuSnapshot, DecodedInstruction, PendingCommit, ExecuteStatus, InstructionKind as Kind,
}
use risc_v_cpu_emulator.Rv32.Decode.Ranges.{IsDecoded}
use risc_v_cpu_emulator.Rv32.Execute.Integer.{
  execute_decoded, execute_kind, ready_commit, not_ready,
}
use risc_v_cpu_emulator.Rv32.Execute.ControlFlow.{
  ControlFlowStatus, ControlFlowResult, execute_control_flow, control_flow_kind, finish_target,
  branch_on, continue_at, refuse,
}
use risc_v_cpu_emulator.Rv32.Execute.Results.{
  IsWordCommit, execute_decoded-IsWordCommit, execute_control_flow-IsWordCommit,
}
use risc_v_cpu_emulator.Rv32.Commit.{commit_pending, rejects, is_execute_ready}
use risc_v_cpu_emulator.Rv32.Commit.Preservation.{
  AllWords, IsWellFormed, commit_pending-IsWellFormed,
}

get_or-AllWords : (xs : List ℕ) (i : ℕ) → AllWords xs → get_or xs i 0 < 2 ^ 32
get_or-AllWords [] i h = omega arith
get_or-AllWords (x ∷ xs) zero h = h.0
get_or-AllWords (x ∷ xs) (suc i) h = get_or-AllWords xs i h.1

-- A result that concerns the given PC, and writes neither a CSR nor the mode.
abbrev IsPlain : ℕ → PendingCommit → Type 0
IsPlain pc pending =
    (pending.pc ≡ pc)
    × (pending.csr_write.enabled ≡ false)
    × (pending.privilege_write.enabled ≡ false)

execute_kind-IsPlain :
    (kind : Kind) (decoded : DecodedInstruction) (pc : ℕ) (value : Option ℕ)
    → IsPlain pc (execute_kind kind decoded pc value)
unfolding execute_kind ready_commit not_ready
execute_kind-IsPlain Kind.fence decoded pc value = (refl, refl, refl)
execute_kind-IsPlain _ decoded pc none = ground arith
execute_kind-IsPlain _ decoded pc (some v) = ground arith

control_flow_kind-IsPlain :
    (kind : Kind) (decoded : DecodedInstruction) (pc a b : ℕ)
    → IsPlain pc (control_flow_kind decoded pc kind a b).pending
unfolding control_flow_kind finish_target branch_on continue_at refuse ready_commit not_ready
control_flow_kind-IsPlain Kind.auipc decoded pc a b = (refl, refl, refl)
control_flow_kind-IsPlain _ decoded pc a b = ground arith

-- The two statuses of a result agree.
control_flow_kind-ready :
    (kind : Kind) (decoded : DecodedInstruction) (pc a b : ℕ)
    → (control_flow_kind decoded pc kind a b).status ≡ ControlFlowStatus.ready
    → (control_flow_kind decoded pc kind a b).pending.status ≡ ExecuteStatus.ready
unfolding control_flow_kind finish_target branch_on continue_at refuse ready_commit not_ready
control_flow_kind-ready Kind.auipc decoded pc a b h = refl
control_flow_kind-ready _ decoded pc a b h = ground (arith, h)

plain_accepted :
    (state : CpuSnapshot) (pending : PendingCommit)
    → IsPlain state.pc pending
    → IsWordCommit pending
    → pending.status ≡ ExecuteStatus.ready
    → (commit_pending state pending true).1 ≡ true
unfolding commit_pending rejects is_execute_ready
plain_accepted state pending plain words ready = ground (arith, plain, words.in_index, ready)

-- The operands that the core reads for an instruction.
abbrev pub rs1_value : CpuSnapshot → DecodedInstruction → ℕ
rs1_value state decoded = get_or state.registers decoded.rs1 0

abbrev pub rs2_value : CpuSnapshot → DecodedInstruction → ℕ
rs2_value state decoded = get_or state.registers decoded.rs2 0

abbrev pub run_integer : CpuSnapshot → DecodedInstruction → PendingCommit
run_integer state decoded =
    execute_decoded decoded state.pc (rs1_value state decoded) (rs2_value state decoded)

abbrev pub run_control_flow : CpuSnapshot → DecodedInstruction → ControlFlowResult
run_control_flow state decoded =
    execute_control_flow decoded state.pc (rs1_value state decoded) (rs2_value state decoded)

module _ (state : CpuSnapshot) (decoded : DecodedInstruction) (raw length : ℕ)
    (h : IsWellFormed state) (d : IsDecoded raw length decoded) where
  -- From a well-formed state, what a decoder returned and `execute_decoded` completes on the values of
  -- its registers is committed, and the state stays well-formed.
  pub execute_decoded_committed :
      (run_integer state decoded).status ≡ ExecuteStatus.ready
      → ((commit_pending state (run_integer state decoded) true).1 ≡ true)
        × IsWellFormed (commit_pending state (run_integer state decoded) true).0
  unfolding execute_decoded
  execute_decoded_committed ready =
      let words =
        execute_decoded-IsWordCommit decoded state.pc _ _ raw length d h.word_pc
          (get_or-AllWords state.registers decoded.rs1 h.cpu.register_words)
          (get_or-AllWords state.registers decoded.rs2 h.cpu.register_words) in
      (
        plain_accepted state _ (execute_kind-IsPlain decoded.kind decoded state.pc _) words ready,
        commit_pending-IsWellFormed state _ true h words,
      )

  -- From a well-formed state, what a decoder returned and `execute_control_flow` finds ready on the
  -- values of its registers is committed, and the state stays well-formed.
  pub execute_control_flow_committed :
      (run_control_flow state decoded).status ≡ ControlFlowStatus.ready
      → ((commit_pending state (run_control_flow state decoded).pending true).1 ≡ true)
        × IsWellFormed (commit_pending state (run_control_flow state decoded).pending true).0
  unfolding execute_control_flow
  execute_control_flow_committed ready =
      let words =
        execute_control_flow-IsWordCommit decoded state.pc (rs1_value state decoded)
          (rs2_value state decoded) raw length d h.word_pc in
      (
        plain_accepted state _ (control_flow_kind-IsPlain decoded.kind decoded state.pc _ _) words
            (control_flow_kind-ready decoded.kind decoded state.pc _ _ ready),
        commit_pending-IsWellFormed state _ true h words,
      )
