-- ===== src/Rv32/Frontend/Soundness.antt =====
-- core32/src/frontend.cpp: what `fetch_decode` returns, and the caches after it.
use risc_v_cpu_emulator.Prelude.{
  ℕ, ◌*◌, ◌%◌, ◌^◌, ◌<◌, ◌≡◌, ◌≢◌, ◌⊎◌, refl, arith, bit_and, bit_or, Bool, true, false, ◌&&◌, ◌==◌,
  if◌then◌else◌, Option, none, some, inl, inr, Bool-cases,
}
use risc_v_cpu_emulator.Words.Bits.{bit_or-lt}
use risc_v_cpu_emulator.Words.{has_bits, add32}
use risc_v_cpu_emulator.Common.Bus.{CpuBus}
use risc_v_cpu_emulator.Rv32.Mmu.Walk.{MemoryAccessType}
use risc_v_cpu_emulator.Rv32.Mmu.Space.{locate}
use risc_v_cpu_emulator.Rv32.Types.{CpuSnapshot, DecodedInstruction}
use risc_v_cpu_emulator.Rv32.Decode.StandardRanges.{decode_instruction-IsDecoded}
use risc_v_cpu_emulator.Rv32.Decode.CompressedRanges.{decode_compressed_instruction-IsDecoded}
use risc_v_cpu_emulator.Rv32.Frontend.DecodeCache.{DecodeCache, decode_of_length}
use risc_v_cpu_emulator.Rv32.Frontend.InstructionCache.{InstructionCache, CachedInstruction}
use risc_v_cpu_emulator.Rv32.Frontend.Fetch.{
  keep_line, use_cached, is_valid, FrontendStatus, FrontendResult, Machine, HalfwordFetchResult,
  space_state, is_fetched, fetch_failure, decoded_result, misaligned_pc, decode_with, finish_fetch,
  fetch_second, fetch_missed, fetch_halfword, read_halfword, translated_fetch, cached_fetch,
  fetch_decode, may_use_instruction_cache,
}
use risc_v_cpu_emulator.Rv32.Frontend.Decoding.{
  IsFaithful, decode-decode_of_length, decode-IsFaithful,
}
use risc_v_cpu_emulator.Rv32.Frontend.Lines.{IsLine, AreLines, lookup-IsLine, insert-AreLines}

-- An instruction of two bytes or of four.
abbrev pub IsParcel : ℕ → ℕ → Type 0
IsParcel instruction length =
    ((length ≡ 2) × (instruction < 2 ^ 16)) ⊎ ((length ≡ 4) × (instruction < 2 ^ 32))

pub decode_of_length-IsLine :
    (instruction length : ℕ)
    → IsParcel instruction length
    → is_valid (decode_of_length instruction length) ≡ true
    → IsLine instruction (decode_of_length instruction length)
unfolding decode_of_length
decode_of_length-IsLine instruction length (inl (two, small)) valid =
    let d = decode_compressed_instruction-IsDecoded instruction small in
    let whole : instruction % 2 ^ 16 ≡ instruction = omega (arith, small) in
    record {
      accepted = valid;
      same_raw = ground (arith, two, whole, d.same_raw);
      in_rd = ground (arith, two, whole, d.in_rd);
    }
decode_of_length-IsLine instruction length (inr (four, small)) valid =
    let d = decode_instruction-IsDecoded instruction small in
    record {
      accepted = valid;
      same_raw = ground (arith, four, d.same_raw);
      in_rd = ground (arith, four, d.in_rd);
    }

abbrev pub AreDecoded : Option DecodeCache → Type 0
AreDecoded none = Unit
AreDecoded (some cache) = IsFaithful cache

abbrev pub AreCached : Option InstructionCache → Type 0
AreCached none = Unit
AreCached (some cache) = AreLines cache

-- The caches that a machine has are sound.
pub record IsSound {B : Type 0} (machine : Machine B) : Type 0 where
  pub in_decode_cache : AreDecoded machine.decode_cache
  pub in_instruction_cache : AreCached machine.instruction_cache

-- A result is of the PC that was asked for, and where it is ready its instruction is valid.
pub record IsFetched (pc : ℕ) (result : FrontendResult) : Type 0 where
  pub same_pc : result.pc ≡ pc
  pub ready_line : (result.status ≢ FrontendStatus.ready) ⊎ IsLine result.instruction result.decoded

decode_with-AreDecoded :
    (cache : Option DecodeCache) (instruction length : ℕ)
    → AreDecoded cache
    → AreDecoded (decode_with cache instruction length).0
      × ((decode_with cache instruction length).1 ≡ decode_of_length instruction length)
unfolding decode_with
decode_with-AreDecoded none instruction length h = (h, refl)
decode_with-AreDecoded (some cache) instruction length h = (
  decode-IsFaithful cache instruction length h,
  decode-decode_of_length cache instruction length h,
)

if-IsSound :
    {B R : Type 0} (b : Bool) (x y : Machine B × R)
    → IsSound x.0
    → IsSound y.0
    → IsSound (if b then x else y).0
if-IsSound true x y h k = h
if-IsSound false x y h k = k

unfetched :
    (result : HalfwordFetchResult)
    → is_fetched result ≡ false
    → result.status ≢ FrontendStatus.ready
unfetched result e q = absurd (ground (arith, e, q))

keep_line-AreCached :
    (cache : Option InstructionCache) (keeps : Bool) (pc : ℕ) (state : Option CpuSnapshot)
    (line : CachedInstruction)
    → AreCached cache
    → (keeps ≡ false) ⊎ IsLine line.instruction line.decoded
    → AreCached (keep_line cache keeps pc state line)
unfolding keep_line
keep_line-AreCached none keeps pc state line h l = h
keep_line-AreCached (some cache) true pc state line h (inl e) = absurd (cc)
keep_line-AreCached (some cache) true pc state line h (inr l) =
    insert-AreLines cache h pc state line l
keep_line-AreCached (some cache) false pc state line h l = h

decoded-IsLine :
    (instruction length : ℕ)
    → IsParcel instruction length
    → (is_valid (decode_of_length instruction length) ≡ false)
      ⊎ IsLine instruction (decode_of_length instruction length)
decoded-IsLine instruction length p =
    elim (Bool-cases (is_valid (decode_of_length instruction length))) [
      | inl e ↦ inr (decode_of_length-IsLine instruction length p e)
      | inr e ↦ inl e
    ]

module _ {instruction : ℕ} {decoded : DecodedInstruction} where
  kept-IsLine :
      (enabled : Bool)
      → (is_valid decoded ≡ false) ⊎ IsLine instruction decoded
      → ((is_valid decoded && enabled) ≡ false) ⊎ IsLine instruction decoded
  kept-IsLine enabled (inl e) = inl (ground (arith, e))
  kept-IsLine enabled (inr l) = inr l

  certain :
      {P : Type 0}
      → is_valid decoded ≡ true
      → (is_valid decoded ≡ false) ⊎ IsLine instruction decoded
      → P ⊎ IsLine instruction decoded
  certain e (inl q) = absurd (ground (arith, e, q))
  certain e (inr l) = inr l

module _ {B : Type 0} where
  finish_fetch-IsSound :
      (machine : Machine B) (pc : ℕ) (enabled : Bool) (instruction length : ℕ)
      → IsSound machine
      → IsParcel instruction length
      → IsSound (finish_fetch machine pc enabled instruction length).0
        × IsFetched pc (finish_fetch machine pc enabled instruction length).1
  unfolding finish_fetch decoded_result
  finish_fetch-IsSound machine pc enabled instruction length h p =
      let answer =
        decode_with-AreDecoded machine.decode_cache instruction length h.in_decode_cache in
      let decoded : DecodedInstruction = (decode_with machine.decode_cache instruction length).1 in
      let line : (is_valid decoded ≡ false) ⊎ IsLine instruction decoded =
        rw answer.1 (decoded-IsLine instruction length p) in
      (
        record {
          in_decode_cache = answer.0;
          in_instruction_cache =
              keep_line-AreCached machine.instruction_cache (is_valid decoded && enabled) pc
                (space_state machine.space) _ h.in_instruction_cache (kept-IsLine enabled line);
        },
        elim (Bool-cases (is_valid decoded)) [
          | inl e ↦ rw e (record { same_pc = refl; ready_line = certain e line })
          | inr e ↦ rw e (record { same_pc = refl; ready_line = inl (λ q. cc) })
        ],
      )

module _ {B : Type 0} (ops : CpuBus B) where
  fetch_halfword-lt :
      (machine : Machine B) (address : ℕ) → (fetch_halfword ops machine address).1.value < 2 ^ 16
  unfolding fetch_halfword read_halfword translated_fetch
  fetch_halfword-lt machine address = ground arith

  fetch_halfword-IsSound :
      (machine : Machine B) (address : ℕ)
      → IsSound machine
      → IsSound (fetch_halfword ops machine address).0
  unfolding fetch_halfword
  fetch_halfword-IsSound machine address h =
      let found = locate ops machine.space machine.bus address MemoryAccessType.instruction_fetch in
      if-IsSound (is_fetched (translated_fetch address found)) _ _
        (record {
          in_decode_cache = h.in_decode_cache;
          in_instruction_cache = h.in_instruction_cache;
        })
        (record {
          in_decode_cache = h.in_decode_cache;
          in_instruction_cache = h.in_instruction_cache;
        })

  parcel_whole : (x y : ℕ) → x < 2 ^ 16 → y < 2 ^ 16 → bit_or x (y * 2 ^ 16) < 2 ^ 32
  parcel_whole x y p q = bit_or-lt 32 x (y * 2 ^ 16) (omega arith) (omega arith)

  fetch_second-IsSound :
      (machine : Machine B) (pc : ℕ) (enabled : Bool) (first : ℕ)
      → first < 2 ^ 16
      → IsSound machine
      → IsSound (fetch_second ops machine pc enabled first).0
        × IsFetched pc (fetch_second ops machine pc enabled first).1
  unfolding fetch_second fetch_failure
  fetch_second-IsSound machine pc enabled first small h =
      let second = fetch_halfword ops machine (add32 pc 2) in
      let kept = fetch_halfword-IsSound machine (add32 pc 2) h in
      elim (Bool-cases (is_fetched second.1)) [
        | inl e ↦ rw e (
            finish_fetch-IsSound second.0 pc enabled _ 4 kept (
              inr (
                refl,
                parcel_whole first second.1.value small (fetch_halfword-lt machine (add32 pc 2)),
              )))
        | inr e ↦ rw e (kept, record { same_pc = refl; ready_line = inl (unfetched second.1 e) })
      ]

  fetch_missed-IsSound :
      (machine : Machine B) (pc : ℕ) (may_use : Bool)
      → IsSound machine
      → IsSound (fetch_missed ops machine pc may_use).0
        × IsFetched pc (fetch_missed ops machine pc may_use).1
  unfolding fetch_missed fetch_failure
  fetch_missed-IsSound machine pc may_use h =
      let first = fetch_halfword ops machine pc in
      let kept = fetch_halfword-IsSound machine pc h in
      let small = fetch_halfword-lt machine pc in
      elim (Bool-cases (is_fetched first.1)) [
        | inr e ↦ rw e (kept, record { same_pc = refl; ready_line = inl (unfetched first.1 e) })
        | inl e ↦ elim (Bool-cases (bit_and first.1.value 3 == 3)) [
          | inl four ↦ rw (e, four) (fetch_second-IsSound first.0 pc _ first.1.value small kept)
          | inr two ↦
              rw (e, two)
                (finish_fetch-IsSound first.0 pc _ first.1.value 2 kept (inl (refl, small)))
        ]
      ]

  cached_fetch-IsLine :
      (cache : Option InstructionCache) (machine : Machine B) (pc : ℕ) (line : CachedInstruction)
      → machine.instruction_cache ≡ cache
      → AreCached cache
      → cached_fetch machine pc ≡ some line
      → IsLine line.instruction line.decoded
  unfolding cached_fetch
  cached_fetch-IsLine none machine pc line same h e = absurd (ground (arith, same, e))
  cached_fetch-IsLine (some cache) machine pc line same h e =
      lookup-IsLine cache h pc (space_state machine.space) line (ground (arith, same, e))

  use_cached-IsSound :
      (machine : Machine B) (pc : ℕ) (found : Option CachedInstruction)
      (missed : Machine B × FrontendResult)
      → IsSound machine
      → cached_fetch machine pc ≡ found
      → IsSound missed.0 × IsFetched pc missed.1
      → IsSound (use_cached machine pc found missed).0
        × IsFetched pc (use_cached machine pc found missed).1
  unfolding use_cached
  use_cached-IsSound machine pc none missed h e m = m
  use_cached-IsSound machine pc (some line) missed h e m = (
    h,
    record {
      same_pc = refl;
      ready_line = inr (
          cached_fetch-IsLine machine.instruction_cache machine pc line refl h.in_instruction_cache
            e);
    },
  )

  -- With sound caches, `fetch_decode` answers for the PC that was asked, where it is ready with a valid
  -- instruction that keeps its bits and names an existing register; and the caches stay sound.
  pub fetch_decode-IsSound :
      (machine : Machine B) (pc : ℕ)
      → IsSound machine
      → IsSound (fetch_decode ops machine pc).0 × IsFetched pc (fetch_decode ops machine pc).1
  unfolding fetch_decode misaligned_pc
  fetch_decode-IsSound machine pc h = elim (Bool-cases (has_bits pc 1)) [
    | inl e ↦ rw e (h, record { same_pc = refl; ready_line = inl (λ q. cc) })
    | inr e ↦ rw e (
        use_cached-IsSound machine pc (cached_fetch machine pc) _ h refl
          (fetch_missed-IsSound machine pc (may_use_instruction_cache machine pc) h))
  ]
