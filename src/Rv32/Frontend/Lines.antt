-- ===== src/Rv32/Frontend/Lines.antt =====
-- core32/src/frontend.cpp: what the instruction cache holds.
use risc_v_cpu_emulator.Prelude.{
  ℕ, zero, suc, ◌+◌, ◌%◌, ◌^◌, ◌<◌, ◌≡◌, ◌⊎◌, refl, arith, Bool, true, false, ◌==◌, if◌then◌else◌,
  Option, none, some, inl, inr, Bool-cases,
}
use risc_v_cpu_emulator.Rv32.Types.{PrivilegeMode, CpuSnapshot, DecodedInstruction}
use risc_v_cpu_emulator.Rv32.Frontend.InstructionCache.{
  InstructionCache, CachedInstruction, Entry, empty_entry, lookup, insert, clear, sfence_vma,
  entry_matches, cache_index, cache_satp, cache_privilege, fresh_entry,
}
use risc_v_cpu_emulator.Rv32.Frontend.Fetch.{is_valid}

-- A decoded instruction that is valid, keeps its bits and writes an existing register.
pub record IsLine (instruction : ℕ) (decoded : DecodedInstruction) : Type 0 where
  pub accepted : is_valid decoded ≡ true
  pub same_raw : decoded.raw ≡ instruction
  pub in_rd : decoded.rd < 32

abbrev pub IsLineEntry : Entry → Type 0
IsLineEntry entry =
    (entry.generation ≡ 0) ⊎ IsLine entry.instruction.instruction entry.instruction.decoded

-- Every entry was never written, or holds such an instruction; no lookup matches the former.
pub record AreLines (cache : InstructionCache) : Type 0 where
  pub in_generation : 0 < cache.generation
  pub in_entries : (i : ℕ) → IsLineEntry (cache.entries i)

matched :
    (cache : InstructionCache) (address satp : ℕ) (privilege : PrivilegeMode) (entry : Entry)
    → 0 < cache.generation
    → IsLineEntry entry
    → entry_matches cache address satp privilege entry ≡ true
    → IsLine entry.instruction.instruction entry.instruction.decoded
unfolding entry_matches
matched cache address satp privilege entry p (inl zero_generation) e =
    absurd (ground (arith, p, zero_generation, e))
matched cache address satp privilege entry p (inr line) e = line

module _ (cache : InstructionCache) (h : AreLines cache) where
  -- What a lookup finds is a valid instruction.
  pub lookup-IsLine :
      (address : ℕ) (state : Option CpuSnapshot) (line : CachedInstruction)
      → lookup cache address state ≡ some line
      → IsLine line.instruction line.decoded
  unfolding lookup
  lookup-IsLine address state line e =
      let satp : ℕ = cache_satp state in
      let entry : Entry = cache.entries (cache_index address satp (cache_privilege state)) in
      elim (Bool-cases (entry_matches cache address satp (cache_privilege state) entry)) [
        | inl m ↦
            let same : entry.instruction ≡ line = ground (arith, m, e) in
            rw (← same) (
              matched cache address satp (cache_privilege state) entry h.in_generation
                (h.in_entries (cache_index address satp (cache_privilege state))) m)
        | inr m ↦ absurd (ground (arith, m, e))
      ]

  updated :
      (i : ℕ) (b : Bool) (entry : Entry)
      → IsLineEntry entry
      → IsLineEntry (if b then entry else cache.entries i)
  updated i true entry line = line
  updated i false entry line = h.in_entries i

  pub insert-AreLines :
      (address : ℕ) (state : Option CpuSnapshot) (line : CachedInstruction)
      → IsLine line.instruction line.decoded
      → AreLines (insert cache address state line)
  unfolding insert fresh_entry
  insert-AreLines address state line l = record {
    in_generation = h.in_generation;
    in_entries = λ i.
        updated i (i == cache_index address (cache_satp state) (cache_privilege state)) _ (inr l);
  }

  cleared :
      (n : ℕ)
      → AreLines (
          if n == 0
          then record {
            entries = λ _. empty_entry;
            asid_epochs = λ _. 0;
            page_epochs = λ _. 0;
            asid_page_epochs = λ _. 0;
            generation = 1;
          }
          else record cache { generation = n })
  cleared zero = record { in_generation = omega arith; in_entries = λ i. inl refl }
  cleared (suc n) =
      let other : (suc n == 0) ≡ false = ground arith in
      rw other (record { in_generation = omega arith; in_entries = h.in_entries })

  pub clear-AreLines : AreLines (clear cache)
  unfolding clear
  clear-AreLines = cleared ((cache.generation + 1) % 2 ^ 64)

  pub sfence_vma-AreLines : (address asid : Option ℕ) → AreLines (sfence_vma cache address asid)
  unfolding sfence_vma
  sfence_vma-AreLines none none = clear-AreLines
  sfence_vma-AreLines none (some asid) = record {
    in_generation = h.in_generation;
    in_entries = h.in_entries;
  }
  sfence_vma-AreLines (some address) none = record {
    in_generation = h.in_generation;
    in_entries = h.in_entries;
  }
  sfence_vma-AreLines (some address) (some asid) = record {
    in_generation = h.in_generation;
    in_entries = h.in_entries;
  }
