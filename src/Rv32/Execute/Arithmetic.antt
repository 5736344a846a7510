-- ===== src/Rv32/Execute/Arithmetic.antt =====
-- core32/src/execute.cpp: the integer operations of `execute_decoded`, against their meaning.
use Prim.Native.Nat.{differ}
use risc_v_cpu_emulator.Prelude.{
  ℕ, ◌+◌, ◌*◌, ◌/◌, ◌%◌, ◌^◌, ◌<◌, ◌≡◌, refl, arith, min, max, bit_and, true, ltb, if◌then◌else◌,
  zero, suc, ◌∙◌, bit_xor,
}
use risc_v_cpu_emulator.Words.{add32}
use risc_v_cpu_emulator.Words.Bits.{
  bit_of, bit_of-lt, bit_and-bit_of, bit_or-bit_of, bit_xor-bit_of,
}
use risc_v_cpu_emulator.Words.Fields.{bit_and-mask}
use risc_v_cpu_emulator.Rv32.Types.{
  InstructionKind as Kind, DecodedInstruction, ExecuteStatus, PendingCommit,
}
use risc_v_cpu_emulator.Rv32.Execute.Integer.{
  ready_commit, integer_value, execute_kind, execute_decoded,
}
use risc_v_cpu_emulator.Rv32.Execute.Signed.{shift_right_arithmetic}
use risc_v_cpu_emulator.Rv32.Execute.Shifts.{shift_right_arithmetic-bit_of}
use risc_v_cpu_emulator.Rv32.Execute.Targets.{biased, less_signed_lem}

-- The operations with a form for each source of the second operand.
pub data Operation : Type 0 where
  add slt sltu xor or and sll srl sra : Operation

pub data Source : Type 0 where
  from_register from_immediate : Source

abbrev pub kind_of : Operation → Source → Kind
kind_of Operation.add Source.from_register = Kind.add
kind_of Operation.add Source.from_immediate = Kind.addi
kind_of Operation.slt Source.from_register = Kind.slt
kind_of Operation.slt Source.from_immediate = Kind.slti
kind_of Operation.sltu Source.from_register = Kind.sltu
kind_of Operation.sltu Source.from_immediate = Kind.sltiu
kind_of Operation.xor Source.from_register = Kind.xor
kind_of Operation.xor Source.from_immediate = Kind.xori
kind_of Operation.or Source.from_register = Kind.or
kind_of Operation.or Source.from_immediate = Kind.ori
kind_of Operation.and Source.from_register = Kind.and
kind_of Operation.and Source.from_immediate = Kind.andi
kind_of Operation.sll Source.from_register = Kind.sll
kind_of Operation.sll Source.from_immediate = Kind.slli
kind_of Operation.srl Source.from_register = Kind.srl
kind_of Operation.srl Source.from_immediate = Kind.srli
kind_of Operation.sra Source.from_register = Kind.sra
kind_of Operation.sra Source.from_immediate = Kind.srai

abbrev pub operand : Source → (immediate rs2_value : ℕ) → ℕ
operand Source.from_register immediate rs2_value = rs2_value
operand Source.from_immediate immediate rs2_value = immediate

-- What the value of an operation is, as a number or by its digits.
abbrev pub Means : Operation → (a b value : ℕ) → Type 0
Means Operation.add a b value = value ≡ (a + b) % 2 ^ 32
Means Operation.slt a b value = value ≡ (if ltb (biased a) (biased b) then 1 else 0)
Means Operation.sltu a b value = value ≡ (if ltb a b then 1 else 0)
Means Operation.xor a b value = (k : ℕ) → bit_of value k ≡ (bit_of a k + bit_of b k) % 2
Means Operation.or a b value = (k : ℕ) → bit_of value k ≡ max (bit_of a k) (bit_of b k)
Means Operation.and a b value = (k : ℕ) → bit_of value k ≡ min (bit_of a k) (bit_of b k)
Means Operation.sll a b value = value ≡ a * 2 ^ (b % 32) % 2 ^ 32
Means Operation.srl a b value = value ≡ a / 2 ^ (b % 32)
Means Operation.sra a b value =
    (k : ℕ) → k < 32 → bit_of value k ≡ bit_of a (if ltb (k + b % 32) 32 then k + b % 32 else 31)

differ_sum : (x y : ℕ) → x < 2 → y < 2 → differ x y ≡ (x + y) % 2
differ_sum zero zero p q = refl
differ_sum zero (suc zero) p q = refl
differ_sum (suc zero) zero p q = refl
differ_sum (suc zero) (suc zero) p q = refl
differ_sum (suc (suc x)) y p q = absurd (omega arith)
differ_sum x (suc (suc y)) p q = absurd (omega arith)

xor_digit : (a b k : ℕ) → bit_of (bit_xor a b) k ≡ (bit_of a k + bit_of b k) % 2
xor_digit a b k =
    bit_xor-bit_of a b k ∙ differ_sum (bit_of a k) (bit_of b k) (bit_of-lt a k) (bit_of-lt b k)

-- The low five digits of the amount.
amount : (b : ℕ) → bit_and b 0x1F ≡ b % 32
amount b = bit_and-mask 5 b

arithmetic_digit :
    (a b k : ℕ)
    → a < 2 ^ 32
    → k < 32
    → bit_of (shift_right_arithmetic a (bit_and b 0x1F)) k
      ≡ bit_of a (if ltb (k + b % 32) 32 then k + b % 32 else 31)
arithmetic_digit a b k p h =
    rw (amount b) (ground (arith, shift_right_arithmetic-bit_of a (b % 32) k p h))

-- A result that is ready, goes on behind the instruction and writes a value of this meaning to rd.
pub record IsComputed (decoded : DecodedInstruction) (pc : ℕ) (meaning : ℕ → Type 0)
    (pending : PendingCommit) : Type 0 where
  pub is_ready : pending.status ≡ ExecuteStatus.ready
  pub following : pending.next_pc ≡ (pc + decoded.length) % 2 ^ 32
  pub writes : pending.register_write.enabled ≡ true
  pub to_rd : pending.register_write.index ≡ decoded.rd
  pub means : meaning pending.register_write.value

module _ (decoded : DecodedInstruction) (pc a b : ℕ) (word_a : a < 2 ^ 32) (word_b : b < 2 ^ 32)
    (word_immediate : decoded.immediate < 2 ^ 32) where
  computed :
      (meaning : ℕ → Type 0) (value : ℕ)
      → meaning value
      → IsComputed decoded pc meaning (
          ready_commit pc decoded.raw
            (add32 pc decoded.length)
            (record { enabled = true; index = decoded.rd; value = value }))
  unfolding ready_commit
  computed meaning value m = record {
    is_ready = refl;
    following = refl;
    writes = refl;
    to_rd = refl;
    means = m;
  }

  operation-IsComputed :
      (operation : Operation) (source : Source)
      → IsComputed decoded pc (Means operation a (operand source decoded.immediate b)) (
          execute_kind
            (kind_of operation source)
            decoded
            pc
            (integer_value (kind_of operation source) decoded.immediate a b))
  unfolding execute_kind integer_value ready_commit
  operation-IsComputed Operation.add Source.from_register = computed _ _ (refl)
  operation-IsComputed Operation.add Source.from_immediate = computed _ _ (refl)
  operation-IsComputed Operation.slt Source.from_register =
      computed _ _ (rw (less_signed_lem a b word_a word_b) refl)
  operation-IsComputed Operation.slt Source.from_immediate =
      computed _ _ (rw (less_signed_lem a decoded.immediate word_a word_immediate) refl)
  operation-IsComputed Operation.sltu Source.from_register = computed _ _ (refl)
  operation-IsComputed Operation.sltu Source.from_immediate = computed _ _ (refl)
  operation-IsComputed Operation.xor Source.from_register = computed _ _ (λ k. xor_digit a b k)
  operation-IsComputed Operation.xor Source.from_immediate =
      computed _ _ (λ k. xor_digit a decoded.immediate k)
  operation-IsComputed Operation.or Source.from_register = computed _ _ (λ k. bit_or-bit_of a b k)
  operation-IsComputed Operation.or Source.from_immediate =
      computed _ _ (λ k. bit_or-bit_of a decoded.immediate k)
  operation-IsComputed Operation.and Source.from_register = computed _ _ (λ k. bit_and-bit_of a b k)
  operation-IsComputed Operation.and Source.from_immediate =
      computed _ _ (λ k. bit_and-bit_of a decoded.immediate k)
  operation-IsComputed Operation.sll Source.from_register = computed _ _ (rw (amount b) refl)
  operation-IsComputed Operation.sll Source.from_immediate =
      computed _ _ (rw (amount decoded.immediate) refl)
  operation-IsComputed Operation.srl Source.from_register = computed _ _ (rw (amount b) refl)
  operation-IsComputed Operation.srl Source.from_immediate =
      computed _ _ (rw (amount decoded.immediate) refl)
  operation-IsComputed Operation.sra Source.from_register =
      computed _ _ (λ k h. arithmetic_digit a b k word_a h)
  operation-IsComputed Operation.sra Source.from_immediate =
      computed _ _ (λ k h. arithmetic_digit a decoded.immediate k word_a h)

  kind-IsComputed :
      (operation : Operation) (source : Source) (kind : Kind)
      → kind ≡ kind_of operation source
      → IsComputed decoded pc
          (Means operation a (operand source decoded.immediate b))
          (execute_kind kind decoded pc (integer_value kind decoded.immediate a b))
  kind-IsComputed operation source kind e = rw e (operation-IsComputed operation source)

  -- An addition, comparison, bitwise operation or shift on word operands, from rs2 or the immediate, is ready, goes on behind the
  -- instruction and writes to rd: the sum modulo 2 ^ 32; 1 or 0 by the order of the operands, biased by
  -- 2 ^ 31 where it is signed; their digits' sum modulo 2, maximum or minimum; or rs1 shifted by the
  -- amount modulo 32, as a product modulo 2 ^ 32, a quotient, or digit by digit with copies of the
  -- highest.
  pub execute_decoded-IsComputed :
      (operation : Operation) (source : Source)
      → decoded.kind ≡ kind_of operation source
      → IsComputed decoded pc
          (Means operation a (operand source decoded.immediate b))
          (execute_decoded decoded pc a b)
  unfolding execute_decoded
  execute_decoded-IsComputed operation source e = kind-IsComputed operation source decoded.kind e
