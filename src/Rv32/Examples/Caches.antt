-- ===== src/Rv32/Examples/Caches.antt =====
-- The theorems on the caches of the front end, at single lines.
use risc_v_cpu_emulator.Prelude.{◌≡◌, ◌≢◌, arith, none, some}
use risc_v_cpu_emulator.Rv32.Decode.Standard.{decode_instruction}
use risc_v_cpu_emulator.Rv32.Frontend.DecodeCache.{
  DecodeCache, decode, decode_of_length, clear_decoded,
}
use risc_v_cpu_emulator.Rv32.Frontend.Decoding.{
  IsFaithful, decode-decode_of_length, decode-IsFaithful, clear_decoded-IsFaithful,
}
use risc_v_cpu_emulator.Rv32.Frontend.InstructionCache.{
  InstructionCache, CachedInstruction, cleared_cache, lookup, insert, sfence_vma, page_epoch_index,
  instruction_asid, cache_satp,
}
use risc_v_cpu_emulator.Rv32.Frontend.Epochs.{lookup-sfence_vma-insert, lookup-sfence_vma_other}
use risc_v_cpu_emulator.Rv32.Examples.Buses.{paged_state}

abbrev add_decoded_once : DecodeCache
add_decoded_once = (decode clear_decoded 0x00500093 4).0

add_decoded_once-IsFaithful : IsFaithful add_decoded_once
add_decoded_once-IsFaithful = decode-IsFaithful clear_decoded 0x00500093 4 clear_decoded-IsFaithful

add_decoded_twice : (decode add_decoded_once 0x00500093 4).1 ≡ decode_of_length 0x00500093 4
add_decoded_twice =
    decode-decode_of_length add_decoded_once 0x00500093 4 add_decoded_once-IsFaithful

abbrev add_line : CachedInstruction
add_line = record { instruction = 0x00500093; decoded = decode_instruction 0x00500093 }

-- A line of the megapage at 0x400000.
add_line_hidden :
    (lookup
        (sfence_vma
          (insert (cleared_cache 1) 0x401000 (some paged_state) add_line)
          (some 0x401000)
          none)
        0x401000
        (some paged_state)
      ≡ none)
    × (lookup
          (sfence_vma
            (insert (cleared_cache 1) 0x401000 (some paged_state) add_line)
            none
            (some (instruction_asid (cache_satp (some paged_state)))))
          0x401000
          (some paged_state)
        ≡ none)
    × (lookup
          (sfence_vma
            (insert (cleared_cache 1) 0x401000 (some paged_state) add_line)
            (some 0x401000)
            (some (instruction_asid (cache_satp (some paged_state)))))
          0x401000
          (some paged_state)
        ≡ none)
add_line_hidden =
    lookup-sfence_vma-insert (cleared_cache 1) 0x401000 (some paged_state) add_line (omega arith)
      (omega arith) (omega arith)

abbrev with_add_line : InstructionCache
with_add_line = insert (cleared_cache 1) 0x401000 (some paged_state) add_line

other_page : page_epoch_index 0x401000 ≢ page_epoch_index 0x400000
unfolding page_epoch_index
other_page e = absurd (omega (arith, e))

add_line_kept :
    lookup (sfence_vma with_add_line (some 0x400000) none) 0x401000 (some paged_state)
    ≡ lookup with_add_line 0x401000 (some paged_state)
add_line_kept =
    lookup-sfence_vma_other with_add_line 0x401000 0x400000 (some paged_state) other_page
