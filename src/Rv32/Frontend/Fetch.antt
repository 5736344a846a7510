-- ===== src/Rv32/Frontend/Fetch.antt =====
-- core32/src/frontend.cpp: `fetch_decode`, with its two fetches of a halfword. A cache that the
-- caller does not pass is `none`.
use risc_v_cpu_emulator.Prelude.{
  ℕ, ◌*◌, ◌%◌, ◌^◌, bit_and, bit_or, Bool, true, false, not, ◌&&◌, ◌==◌, if◌then◌else◌, Option,
  none, some,
}
use risc_v_cpu_emulator.Words.{add32, has_bits}
use risc_v_cpu_emulator.Common.Bus.{
  AccessWidth, AccessKind, BusFault, is_none, is_misaligned, CpuBus,
}
use risc_v_cpu_emulator.Rv32.Types.{CpuSnapshot, InstructionKind as Kind, DecodedInstruction}
use risc_v_cpu_emulator.Rv32.Mmu.Walk.{MemoryAccessType, TranslationStatus, is_ready}
use risc_v_cpu_emulator.Rv32.Mmu.Space.{AddressSpace, physical, walked, cached, Located, locate}
use risc_v_cpu_emulator.Rv32.Frontend.DecodeCache.{
  DecodeCache, decode, decode_of_length, default_decoded,
}
use risc_v_cpu_emulator.Rv32.Frontend.InstructionCache.{
  InstructionCache, CachedInstruction, lookup, insert,
}

pub data FrontendStatus : Type 0 where
  ready instruction_address_misaligned instruction_access_fault : FrontendStatus
  instruction_page_fault illegal_instruction : FrontendStatus

pub record FrontendResult : Type 0 where
  pub status : FrontendStatus
  pub pc : ℕ
  pub instruction : ℕ
  pub decoded : DecodedInstruction
  pub bus_fault : BusFault
  pub trap_value : ℕ

pub record HalfwordFetchResult : Type 0 where
  pub status : FrontendStatus
  pub value : ℕ
  pub physical_address : ℕ
  pub bus_fault : BusFault
  pub trap_value : ℕ

abbrev pub is_fetched : HalfwordFetchResult → Bool
is_fetched result = elim result.status [ FrontendStatus.ready ↦ true | _ ↦ false ]

-- The state that a fetch changes: the bus, the TLB in the address space, and the caches.
pub record Machine (B : Type 0) : Type 0 where
  pub bus : B
  pub space : AddressSpace
  pub decode_cache : Option DecodeCache
  pub instruction_cache : Option InstructionCache

-- The state pointer that goes with an address space.
abbrev pub space_state : AddressSpace → Option CpuSnapshot
space_state physical = none
space_state (walked state) = some state
space_state (cached state tlb) = some state

unfoldable pub fetch_status : TranslationStatus → FrontendStatus
fetch_status TranslationStatus.page_fault = FrontendStatus.instruction_page_fault
fetch_status _ = FrontendStatus.instruction_access_fault

unfoldable pub is_valid : DecodedInstruction → Bool
is_valid decoded = elim decoded.kind [ Kind.illegal ↦ false | _ ↦ true ]

unfoldable pub fetch_failure : ℕ → ℕ → HalfwordFetchResult → FrontendResult
fetch_failure pc partial_instruction failure = record {
  status = failure.status;
  pc = pc;
  instruction = partial_instruction;
  decoded = default_decoded;
  bus_fault = failure.bus_fault;
  trap_value = failure.trap_value;
}

unfoldable pub decoded_result : ℕ → ℕ → DecodedInstruction → FrontendResult
decoded_result pc instruction decoded =
    if is_valid decoded
    then record {
      status = FrontendStatus.ready;
      pc = pc;
      instruction = instruction;
      decoded = decoded;
      bus_fault = BusFault.no_fault;
      trap_value = 0;
    }
    else record {
      status = FrontendStatus.illegal_instruction;
      pc = pc;
      instruction = instruction;
      decoded = decoded;
      bus_fault = BusFault.no_fault;
      trap_value = instruction;
    }

unfoldable pub misaligned_pc : ℕ → FrontendResult
misaligned_pc pc = record {
  status = FrontendStatus.instruction_address_misaligned;
  pc = pc;
  instruction = 0;
  decoded = default_decoded;
  bus_fault = BusFault.misaligned;
  trap_value = pc;
}

-- `translate_fetch_address`, on what the translation found.
unfoldable pub translated_fetch : {B : Type 0} → ℕ → Located B → HalfwordFetchResult
translated_fetch virtual_address found =
    if is_ready found.translation
    then record {
      status = FrontendStatus.ready;
      value = 0;
      physical_address = found.translation.physical_address;
      bus_fault = BusFault.no_fault;
      trap_value = 0;
    }
    else record {
      status = fetch_status found.translation.status;
      value = 0;
      physical_address = 0;
      bus_fault = found.translation.bus_fault;
      trap_value = virtual_address;
    }

unfoldable pub decode_with : Option DecodeCache → ℕ → ℕ → Option DecodeCache × DecodedInstruction
decode_with none instruction length = (none, decode_of_length instruction length)
decode_with (some cache) instruction length =
    let answer = decode cache instruction length in (some answer.0, answer.1)

-- The insertion, where there is an instruction cache.
unfoldable pub keep_line :
    Option InstructionCache
    → Bool
    → ℕ
    → Option CpuSnapshot
    → CachedInstruction
    → Option InstructionCache
keep_line none keeps pc state line = none
keep_line (some cache) keeps pc state line =
    some (if keeps then insert cache pc state line else cache)

module _ {B : Type 0} where
  -- What follows the fetch: the decoding, and the insertion into the instruction cache.
  unfoldable pub finish_fetch :
      Machine B → ℕ → (enabled : Bool) → (instruction length : ℕ) → Machine B × FrontendResult
  finish_fetch machine pc enabled instruction length =
      let answer = decode_with machine.decode_cache instruction length in
      let result = decoded_result pc instruction answer.1 in
      let line : CachedInstruction = record { instruction = instruction; decoded = answer.1 } in
      let kept =
        keep_line machine.instruction_cache (is_valid answer.1 && enabled) pc
          (space_state machine.space) line in
      (record machine { decode_cache = answer.0; instruction_cache = kept }, result)

  -- The hit in the instruction cache, where the caller passes one and `pc` is not the last
  -- halfword of a page.
  unfoldable pub cached_fetch : Machine B → ℕ → Option CachedInstruction
  cached_fetch machine pc = elim machine.instruction_cache [
    | none ↦ none
    | some cache ↦
        if bit_and pc 0xFFF == 0xFFE then none else lookup cache pc (space_state machine.space)
  ]

  abbrev pub may_use_instruction_cache : Machine B → ℕ → Bool
  may_use_instruction_cache machine pc = elim machine.instruction_cache [
    | none ↦ false
    | some cache ↦ not (bit_and pc 0xFFF == 0xFFE)
  ]

  -- A hit, or what the rest of the function returns.
  unfoldable pub use_cached :
      Machine B
      → ℕ
      → Option CachedInstruction
      → Machine B × FrontendResult
      → Machine B × FrontendResult
  use_cached machine pc (some line) missed = (
    machine,
    record {
      status = FrontendStatus.ready;
      pc = pc;
      instruction = line.instruction;
      decoded = line.decoded;
      bus_fault = BusFault.no_fault;
      trap_value = 0;
    },
  )
  use_cached machine pc none missed = missed

module _ {B : Type 0} (ops : CpuBus B) where
  unfoldable pub read_halfword : B → ℕ → ℕ → B × HalfwordFetchResult
  read_halfword bus virtual_address physical_address =
      let answer =
        ops.read bus physical_address AccessWidth.half_word AccessKind.instruction_fetch in
      (
        answer.0,
        if is_none answer.1.fault
            then record {
              status = FrontendStatus.ready;
              value = answer.1.value % 2 ^ 16;
              physical_address = physical_address;
              bus_fault = BusFault.no_fault;
              trap_value = 0;
            }
            else record {
              status =
                  (if is_misaligned answer.1.fault
                    then FrontendStatus.instruction_address_misaligned
                    else FrontendStatus.instruction_access_fault);
              value = 0;
              physical_address = physical_address;
              bus_fault = answer.1.fault;
              trap_value = virtual_address;
            },
      )

  unfoldable pub fetch_halfword : Machine B → ℕ → Machine B × HalfwordFetchResult
  fetch_halfword machine virtual_address =
      let found =
        locate ops machine.space machine.bus virtual_address MemoryAccessType.instruction_fetch in
      let translated = translated_fetch virtual_address found in
      let located = record machine { bus = found.bus; space = found.space } in
      let answer = read_halfword found.bus virtual_address translated.physical_address in
      if is_fetched translated
      then (record located { bus = answer.0 }, answer.1)
      else (located, translated)

  -- The second halfword of an instruction that is not compressed.
  unfoldable pub fetch_second :
      Machine B → ℕ → (enabled : Bool) → (first : ℕ) → Machine B × FrontendResult
  fetch_second machine pc enabled first =
      let second = fetch_halfword machine (add32 pc 2) in
      if is_fetched second.1
      then finish_fetch second.0 pc enabled (bit_or first (second.1.value * 2 ^ 16)) 4
      else (second.0, fetch_failure pc first second.1)

  -- The part after a miss, from the first halfword on.
  unfoldable pub fetch_missed : Machine B → ℕ → (may_use : Bool) → Machine B × FrontendResult
  fetch_missed machine pc may_use =
      let first = fetch_halfword machine pc in
      let enabled = may_use && ops.instruction_cacheable first.0.bus first.1.physical_address in
      if not (is_fetched first.1)
      then (first.0, fetch_failure pc 0 first.1)
      else if not (bit_and first.1.value 3 == 3)
      then finish_fetch first.0 pc enabled first.1.value 2
      else fetch_second first.0 pc enabled first.1.value

  unfoldable pub fetch_decode : Machine B → ℕ → Machine B × FrontendResult
  fetch_decode machine pc =
      let missed = fetch_missed machine pc (may_use_instruction_cache machine pc) in
      if has_bits pc 1
      then (machine, misaligned_pc pc)
      else use_cached machine pc (cached_fetch machine pc) missed
