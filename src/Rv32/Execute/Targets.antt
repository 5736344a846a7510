-- ===== src/Rv32/Execute/Targets.antt =====
-- core32/src/execute.cpp: where the jumps and branches of `execute_control_flow` go.
use risc_v_cpu_emulator.Prelude.{
  ℕ, ◌+◌, ◌-◌, ◌%◌, ◌^◌, ◌<◌, ◌≡◌, ◌⊎◌, refl, arith, bit_and, Bool, true, false, ◌||◌, ltb, leb,
  ◌==◌, if◌then◌else◌, inl, inr, Bool-cases,
}
use risc_v_cpu_emulator.Prelude.Int.{pos_part, neg_part}
use risc_v_cpu_emulator.Words.{add32}
use risc_v_cpu_emulator.Words.Fields.{bit_and-mask, even_value}
use risc_v_cpu_emulator.Rv32.Types.{InstructionKind as Kind, DecodedInstruction}
use risc_v_cpu_emulator.Rv32.Execute.Signed.{less_signed, as_int32}
use risc_v_cpu_emulator.Rv32.Execute.Integer.{not_ready, ready_commit}
use risc_v_cpu_emulator.Rv32.Execute.ControlFlow.{
  ControlFlowStatus, ControlFlowResult, refuse, continue_at, finish_target, branch_on,
  control_flow_kind, execute_control_flow,
}

abbrev pub biased : ℕ → ℕ
biased word = (word + 2 ^ 31) % 2 ^ 32

as_int32_bias :
    (a : ℕ) → a < 2 ^ 32 → pos_part (as_int32 a) + 2 ^ 31 ≡ neg_part (as_int32 a) + biased a
as_int32_bias a p = ground (arith, p)

-- The order of signed words is that of the words biased by 2 ^ 31.
pub less_signed_lem :
    (a b : ℕ) → a < 2 ^ 32 → b < 2 ^ 32 → less_signed a b ≡ ltb (biased a) (biased b)
unfolding less_signed
less_signed_lem a b p q = ground (arith, as_int32_bias a p, as_int32_bias b q)

-- The jumps and branches, with the condition on which each goes to its target.
pub data Transfer : Type 0 where
  jal jalr beq bne blt bge bltu bgeu : Transfer

abbrev pub kind_of : Transfer → Kind
kind_of Transfer.jal = Kind.jal
kind_of Transfer.jalr = Kind.jalr
kind_of Transfer.beq = Kind.beq
kind_of Transfer.bne = Kind.bne
kind_of Transfer.blt = Kind.blt
kind_of Transfer.bge = Kind.bge
kind_of Transfer.bltu = Kind.bltu
kind_of Transfer.bgeu = Kind.bgeu

abbrev pub is_jump : Transfer → Bool
is_jump Transfer.jal = true
is_jump Transfer.jalr = true
is_jump _ = false

abbrev pub goes : Transfer → ℕ → ℕ → Bool
goes Transfer.beq a b = a == b
goes Transfer.bne a b = ltb a b || ltb b a
goes Transfer.blt a b = ltb (biased a) (biased b)
goes Transfer.bge a b = leb (biased b) (biased a)
goes Transfer.bltu a b = ltb a b
goes Transfer.bgeu a b = leb b a
goes _ a b = true

module _ (decoded : DecodedInstruction) (pc : ℕ) where
  abbrev pub target_of : Transfer → ℕ → ℕ
  target_of Transfer.jalr a =
      (a + decoded.immediate) % 2 ^ 32 - (a + decoded.immediate) % 2 ^ 32 % 2
  target_of _ a = (pc + decoded.immediate) % 2 ^ 32

  -- It goes to an even target, where a jump links; or it reports an odd one, stays and writes nothing;
  -- or it goes on behind the instruction, without a write.
  abbrev pub IsTransferred : (jumps goes : Bool) → (target : ℕ) → ControlFlowResult → Type 0
  IsTransferred jumps goes target result =
      let following = (pc + decoded.length) % 2 ^ 32 in
      ((goes ≡ true)
        × (target % 2 ≡ 0)
        × (result.status ≡ ControlFlowStatus.ready)
        × (result.pending.next_pc ≡ target)
        × (result.pending.register_write ≡ record {
          enabled = jumps;
          index = decoded.rd;
          value = if jumps then following else 0;
        }))
      ⊎ ((goes ≡ true)
          × (target % 2 ≡ 1)
          × (result.status ≡ ControlFlowStatus.instruction_address_misaligned)
          × (result.trap_value ≡ target)
          × (result.pending.next_pc ≡ pc)
          × (result.pending.register_write.enabled ≡ false))
      ⊎ ((goes ≡ false)
          × (result.status ≡ ControlFlowStatus.ready)
          × (result.pending.next_pc ≡ following)
          × (result.pending.register_write.enabled ≡ false))

  finish_target-IsTransferred :
      (jumps : Bool) (target : ℕ)
      → IsTransferred jumps true target (
          finish_target decoded pc target jumps
            (if jumps then (pc + decoded.length) % 2 ^ 32 else 0))
  unfolding finish_target refuse continue_at ready_commit not_ready
  finish_target-IsTransferred jumps target = elim (Bool-cases (target % 2 == 0)) [
    | inl e ↦
        let even : bit_and target 1 ≡ 0 = ground (arith, bit_and-mask 1 target, e) in
        rw even (inl (refl, ground (arith, e), refl, refl, refl))
    | inr e ↦
        let odd : bit_and target 1 ≡ 1 = ground (arith, bit_and-mask 1 target, e) in
        rw odd (inr (inl (refl, ground (arith, e), refl, refl, refl, refl)))
  ]

  branch_on-IsTransferred :
      (taken : Bool)
      → IsTransferred false taken ((pc + decoded.immediate) % 2 ^ 32) (branch_on decoded pc taken)
  unfolding branch_on continue_at ready_commit
  branch_on-IsTransferred true = finish_target-IsTransferred false _
  branch_on-IsTransferred false = inr (inr (refl, refl, refl, refl))

  -- Such a branch, on the same condition written in another way.
  branch_as :
      (taken condition : Bool)
      → taken ≡ condition
      → IsTransferred false condition
          ((pc + decoded.immediate) % 2 ^ 32)
          (branch_on decoded pc taken)
  branch_as taken condition e = rw (← e) (branch_on-IsTransferred taken)

  control_flow_kind-IsTransferred :
      (transfer : Transfer) (a b : ℕ)
      → a < 2 ^ 32
      → b < 2 ^ 32
      → IsTransferred
          (is_jump transfer)
          (goes transfer a b)
          (target_of transfer a)
          (control_flow_kind decoded pc (kind_of transfer) a b)
  unfolding control_flow_kind
  control_flow_kind-IsTransferred Transfer.jal a b p q = finish_target-IsTransferred true _
  control_flow_kind-IsTransferred Transfer.jalr a b p q =
      rw (even_value (add32 a decoded.immediate) (omega arith)) (finish_target-IsTransferred true _)
  control_flow_kind-IsTransferred Transfer.beq a b p q = branch_on-IsTransferred _
  control_flow_kind-IsTransferred Transfer.bne a b p q = branch_as _ _ (ground arith)
  control_flow_kind-IsTransferred Transfer.blt a b p q = branch_as _ _ (less_signed_lem a b p q)
  control_flow_kind-IsTransferred Transfer.bge a b p q =
      branch_as _ _ (ground (arith, less_signed_lem a b p q))
  control_flow_kind-IsTransferred Transfer.bltu a b p q = branch_on-IsTransferred _
  control_flow_kind-IsTransferred Transfer.bgeu a b p q = branch_as _ _ (ground arith)

kind-IsTransferred :
    (decoded : DecodedInstruction) (pc a b : ℕ) (transfer : Transfer) (kind : Kind)
    → kind ≡ kind_of transfer
    → a < 2 ^ 32
    → b < 2 ^ 32
    → IsTransferred decoded pc
        (is_jump transfer)
        (goes transfer a b)
        (target_of decoded pc transfer a)
        (control_flow_kind decoded pc kind a b)
kind-IsTransferred decoded pc a b transfer kind e p q =
    rw e (control_flow_kind-IsTransferred decoded pc transfer a b p q)

-- A jump or a branch on word operands: JAL and JALR go, and a branch goes where its operands are equal,
-- different, or in its order, which is that of the words for an unsigned one and that of the words
-- biased by 2 ^ 31 for a signed one. If it goes, to the PC plus the immediate or for JALR to the even
-- part of rs1 plus the immediate, its result is that target, with the following address in rd for a
-- jump; or the target is odd, is reported as misaligned, the PC stays and nothing is written. If it
-- does not go, it goes on behind the instruction and writes nothing.
pub execute_control_flow-IsTransferred :
    (decoded : DecodedInstruction) (pc a b : ℕ) (transfer : Transfer)
    → decoded.kind ≡ kind_of transfer
    → a < 2 ^ 32
    → b < 2 ^ 32
    → IsTransferred decoded pc
        (is_jump transfer)
        (goes transfer a b)
        (target_of decoded pc transfer a)
        (execute_control_flow decoded pc a b)
unfolding execute_control_flow
execute_control_flow-IsTransferred decoded pc a b transfer e p q =
    kind-IsTransferred decoded pc a b transfer decoded.kind e p q
