-- ===== src/Rv32/Core/Step/Soundness.antt =====
-- core32/src/core.cpp: the parts of a step after the fetch, their outcome and the caches.
use risc_v_cpu_emulator.Prelude.{
  ℕ, ◌≡◌, ◌≢◌, refl, ap, ◌∙◌, arith, true, false, not, ◌⊎◌, if◌then◌else◌, inl, inr, Bool-cases,
}
use risc_v_cpu_emulator.Words.{add32}
use risc_v_cpu_emulator.Common.Bus.{BusFault, CpuBus}
use risc_v_cpu_emulator.Rv32.Types.{
  PrivilegeMode, CpuSnapshot, InstructionKind as Kind, DecodedInstruction, PendingCommit,
}
use risc_v_cpu_emulator.Rv32.Csr.Access.{sanitize_mstatus, is_user}
use risc_v_cpu_emulator.Rv32.Trap.Entry.{
  ExceptionCause, take_trap, take_machine_trap, take_supervisor_trap, enter_machine,
  enter_supervisor,
}
use risc_v_cpu_emulator.Rv32.Trap.Privileged.{execute_privileged}
use risc_v_cpu_emulator.Rv32.Execute.Integer.{execute_decoded}
use risc_v_cpu_emulator.Rv32.Execute.ControlFlow.{execute_control_flow}
use risc_v_cpu_emulator.Rv32.Execute.Memory.{execute_memory, memory_plan}
use risc_v_cpu_emulator.Rv32.Execute.Atomic.{execute_atomic, atomic_plan}
use risc_v_cpu_emulator.Rv32.Mmu.Space.{AddressSpace}
use risc_v_cpu_emulator.Rv32.Frontend.Fetch.{is_valid, FrontendResult}
use risc_v_cpu_emulator.Rv32.Frontend.Decoding.{IsFaithful, clear_decoded-IsFaithful}
use risc_v_cpu_emulator.Rv32.Frontend.Lines.{IsLine, AreLines, clear-AreLines, sfence_vma-AreLines}
use risc_v_cpu_emulator.Rv32.Commit.{
  CsrExecutionStatus, Planned, not_csr, planned, execute_csr, csr_plan, csr_run, csr_refuse,
  csr_finish, commit_pending, rejects,
}
use risc_v_cpu_emulator.Rv32.Commit.Permission.{execute_csr_accepted}
use risc_v_cpu_emulator.Rv32.Core.Dispatch.{
  ExecutionUnit, integer, privileged, control_flow, atomic, csr, memory, execution_unit,
  unit_number, Verdict, raises, yields, csr_verdict,
}
use risc_v_cpu_emulator.Rv32.Core.Dispatch.Units.{number_of}
use risc_v_cpu_emulator.Rv32.Core.Dispatch.Completions.{atomic_planned, csr_planned}
use risc_v_cpu_emulator.Rv32.Core.Dispatch.Reference.{not_yet, run_unit}
use risc_v_cpu_emulator.Rv32.Core.Hart.{
  StepStatus, StepResult, Hart, is_waiting, step_result, is_sfence, is_fence_i,
}
use risc_v_cpu_emulator.Rv32.Core.Step.{trap, fence_caches, retire, act_on}
use risc_v_cpu_emulator.Rv32.Core.Step.Acceptance.{
  accepts, integer_accepted, control_flow_accepted, privileged_accepted,
}
use risc_v_cpu_emulator.Rv32.Core.Step.BusUnits.{atomic_accepted, memory_accepted}

pub valid_kind :
    (decoded : DecodedInstruction) → is_valid decoded ≡ true → decoded.kind ≢ Kind.illegal
unfolding is_valid
valid_kind decoded h e = absurd (ground (arith, h, e))

module _ (before after : CpuSnapshot) (result : StepResult) where
  -- No instruction is running: the core stands still, or has just executed WFI.
  abbrev pub Waits : Type 0
  Waits = (result.status ≡ StepStatus.waiting_for_interrupt) × (is_waiting after ≡ true)

  -- The core has entered a handler in a privileged mode, and nothing was committed.
  abbrev pub Traps : Type 0
  Traps =
      (result.status ≡ StepStatus.trap_taken)
      × (result.commit.valid ≡ false)
      × (after.instructions_retired ≡ before.instructions_retired)
      × (is_user after.privilege ≡ false)
      × (is_waiting after ≡ false)

  -- An instruction was committed, and its trace says where the core goes on.
  abbrev pub Retires : Type 0
  Retires =
      (result.status ≡ StepStatus.retired)
      × (result.commit.valid ≡ true)
      × (result.commit.next_pc ≡ after.pc)
      × (is_waiting after ≡ false)

  -- One of the three.
  unfoldable pub Outcome : Type 0
  Outcome = Waits ⊎ (Traps ⊎ Retires)

csr_attempted :
    (state : CpuSnapshot) (time : ℕ) (decoded : DecodedInstruction) (privilege : PrivilegeMode)
    (pc : ℕ) (plan : Planned)
    → plan ≢ not_csr
    → (csr_run state time decoded privilege pc plan).status ≢ CsrExecutionStatus.not_csr_instruction
unfolding csr_run csr_refuse csr_finish
csr_attempted state time decoded privilege pc not_csr h e = h refl
csr_attempted state time decoded privilege pc (planned plan) h e = absurd (ground (arith, e))

commit_rejects :
    (state : CpuSnapshot) (pending : PendingCommit)
    → (commit_pending state pending true).1 ≡ true
    → not (rejects state pending true) ≡ true
unfolding commit_pending
commit_rejects state pending h = ground (arith, h)

module _ {B : Type 0} (ops : CpuBus B) (state : CpuSnapshot) (decoded : DecodedInstruction)
    (instruction a b : ℕ) (line : IsLine instruction decoded) where
  csr_unit_accepted :
      (time : ℕ)
      → number_of decoded.kind ≡ 4
      → accepts state (
          csr_verdict
            (not_yet decoded state.pc)
            (execute_csr state time decoded state.privilege state.pc a)
            (execute_csr state time decoded state.privilege state.pc a).status)
        ≡ true
  unfolding csr_verdict execute_csr
  csr_unit_accepted time n =
      let plan : Planned = csr_plan decoded.kind decoded a in
      let result = csr_run state time decoded state.privilege state.pc plan in
      ground (
        arith,
        csr_attempted state time decoded state.privilege state.pc plan
            (csr_planned decoded.kind decoded a n),
        execute_csr_accepted state time a decoded line.in_rd,
        commit_rejects state result.pending,
      )

  pub run_unit_accepted :
      (unit : ExecutionUnit) (bus : B) (space : AddressSpace)
      → execution_unit decoded.kind ≡ unit
      → accepts state (run_unit ops state decoded state.pc instruction a b unit bus space).verdict
        ≡ true
  unfolding run_unit execute_decoded execute_privileged execute_control_flow execute_atomic
      execute_memory
  run_unit_accepted integer bus space e =
      integer_accepted decoded state line.in_rd decoded.kind decoded.immediate a b
        (ap unit_number e) (valid_kind decoded line.accepted)
  run_unit_accepted privileged bus space e =
      privileged_accepted decoded state line.in_rd decoded.kind
        (sanitize_mstatus state.machine_csrs.mstatus) (not_yet decoded state.pc) (ap unit_number e)
  run_unit_accepted control_flow bus space e =
      control_flow_accepted decoded state line.in_rd decoded.kind a b (not_yet decoded state.pc)
        (ap unit_number e)
  run_unit_accepted atomic bus space e =
      atomic_accepted ops decoded state state.hart_id a b (not_yet decoded state.pc) line.in_rd
        space bus (atomic_plan decoded.kind) (atomic_planned decoded.kind (ap unit_number e))
  run_unit_accepted csr bus space e = csr_unit_accepted (ops.read_time bus) (ap unit_number e)
  run_unit_accepted memory bus space e =
      memory_accepted ops decoded state (add32 a decoded.immediate) instruction line.in_rd space bus
        (memory_plan decoded.kind) b

-- What a commit leaves: the core waits, or the instruction is retired.
committed_outcome :
    (before after : CpuSnapshot) (result : StepResult)
    → result.commit.valid ≡ true
    → result.commit.next_pc ≡ after.pc
    → result.status
      ≡ (if is_waiting after then StepStatus.waiting_for_interrupt else StepStatus.retired)
    → Outcome before after result
unfolding Outcome
committed_outcome before after result valid next status = elim (Bool-cases (is_waiting after)) [
  | inl e ↦ inl (status ∙ rw e refl, e)
  | inr e ↦ inr (inr (status ∙ rw e refl, valid, next, e))
]

module _ {B : Type 0} where
  -- The caches of a hart are sound.
  pub record IsSoundHart (hart : Hart B) : Type 0 where
    pub in_decode_cache : IsFaithful hart.decode_cache
    pub in_instruction_cache : AreLines hart.instruction_cache

  -- The caches stay sound, and the core waits, traps or retires an instruction.
  abbrev pub IsProgress : CpuSnapshot → Hart B × StepResult → Type 0
  IsProgress before answer = IsSoundHart answer.0 × Outcome before answer.0.state answer.1

  fence_caches-IsSoundHart :
      (hart : Hart B) (decoded : DecodedInstruction) (a b : ℕ)
      → IsSoundHart hart
      → IsSoundHart (fence_caches hart decoded a b)
  unfolding fence_caches
  fence_caches-IsSoundHart hart decoded a b h = elim (Bool-cases (is_sfence decoded.kind)) [
    | inl e ↦ rw e (record {
      in_decode_cache = h.in_decode_cache;
      in_instruction_cache = sfence_vma-AreLines hart.instruction_cache h.in_instruction_cache _ _;
    })
    | inr e ↦ elim (Bool-cases (is_fence_i decoded.kind)) [
      | inl f ↦
          rw (e, f)
            (record {
              in_decode_cache = clear_decoded-IsFaithful;
              in_instruction_cache = clear-AreLines hart.instruction_cache h.in_instruction_cache;
            })
      | inr f ↦ rw (e, f) h
    ]
  ]

  pub fence_caches_state :
      (hart : Hart B) (decoded : DecodedInstruction) (a b : ℕ)
      → (fence_caches hart decoded a b).state ≡ hart.state
  unfolding fence_caches
  fence_caches_state hart decoded a b = ground arith

  pub trap-IsProgress :
      (hart : Hart B) (frontend : FrontendResult) (cause : ExceptionCause) (value : ℕ)
      (fault : BusFault)
      → IsSoundHart hart
      → IsProgress hart.state (trap hart frontend cause value fault)
  unfolding trap step_result take_trap take_machine_trap take_supervisor_trap enter_machine
      enter_supervisor Outcome
  trap-IsProgress hart frontend cause value fault h = (
    record { in_decode_cache = h.in_decode_cache; in_instruction_cache = h.in_instruction_cache },
    inr (inl (refl, refl, ground arith, ground arith, ground arith)),
  )

  retire-IsProgress :
      (hart : Hart B) (frontend : FrontendResult) (pending : PendingCommit) (a b : ℕ)
      → IsSoundHart hart
      → not (rejects hart.state pending true) ≡ true
      → IsProgress hart.state (retire hart frontend pending a b)
  unfolding retire step_result commit_pending
  retire-IsProgress hart frontend pending a b h accepted =
      let clean : rejects hart.state pending true ≡ false = ground (arith, accepted) in
      rw clean (
        fence_caches-IsSoundHart _ frontend.decoded a b (record {
          in_decode_cache = h.in_decode_cache;
          in_instruction_cache = h.in_instruction_cache;
        }),
        rw (fence_caches_state _ frontend.decoded a b)
            (committed_outcome hart.state _ _ refl refl refl),
      )

  pub act_on-IsProgress :
      (hart : Hart B) (frontend : FrontendResult) (a b : ℕ) (verdict : Verdict)
      → IsSoundHart hart
      → accepts hart.state verdict ≡ true
      → IsProgress hart.state (act_on hart frontend a b verdict)
  unfolding act_on
  act_on-IsProgress hart frontend a b (raises cause value fault) h e =
      trap-IsProgress hart frontend cause value fault h
  act_on-IsProgress hart frontend a b (yields pending) h e =
      retire-IsProgress hart frontend pending a b h e
