-- ===== src/Rv32/Frontend/Decoding.antt =====
-- core32/src/frontend.cpp: `DecodeCache` compared with the decoders.
use risc_v_cpu_emulator.Prelude.{
  ℕ, ◌≡◌, refl, arith, Bool, true, false, ◌==◌, if◌then◌else◌, ◌⊎◌, inl, inr, Bool-cases,
}
use risc_v_cpu_emulator.Rv32.Frontend.DecodeCache.{
  DecodeCache, DecodeEntry, decode, decode_index, decode_of_length, holds, clear_decoded,
}

-- An entry is invalid, or holds the decoding of its own key.
abbrev pub IsFaithfulEntry : DecodeEntry → Type 0
IsFaithfulEntry entry =
    (entry.valid ≡ false) ⊎ (entry.decoded ≡ decode_of_length entry.instruction entry.length)

abbrev pub IsFaithful : DecodeCache → Type 0
IsFaithful cache = (i : ℕ) → IsFaithfulEntry (cache i)

held :
    (entry : DecodeEntry) (instruction length : ℕ)
    → IsFaithfulEntry entry
    → holds entry instruction length ≡ true
    → entry.decoded ≡ decode_of_length instruction length
unfolding holds
held entry instruction length h e = ground (arith, h, e)

module _ (cache : DecodeCache) (instruction length : ℕ) (h : IsFaithful cache) where
  -- With a cache that is faithful, a lookup answers the decoder's result, whether it hits or misses.
  pub decode-decode_of_length :
      (decode cache instruction length).1 ≡ decode_of_length instruction length
  unfolding decode
  decode-decode_of_length =
      let entry : DecodeEntry = cache (decode_index instruction length) in
      elim (Bool-cases (holds entry instruction length)) [
        | inl e ↦ rw e (held entry instruction length (h (decode_index instruction length)) e)
        | inr e ↦ rw e refl
      ]

  written-IsFaithful :
      (i : ℕ) (b : Bool)
      → IsFaithfulEntry (
          if b
          then record {
            valid = true;
            length = length;
            instruction = instruction;
            decoded = decode_of_length instruction length;
          }
          else cache i)
  written-IsFaithful i true = inr refl
  written-IsFaithful i false = h i

  -- A lookup keeps the cache faithful.
  pub decode-IsFaithful : IsFaithful (decode cache instruction length).0
  unfolding decode
  decode-IsFaithful =
      elim (Bool-cases (holds (cache (decode_index instruction length)) instruction length)) [
        | inl e ↦ rw e h
        | inr e ↦ rw e (λ i. written-IsFaithful i (i == decode_index instruction length))
      ]

pub clear_decoded-IsFaithful : IsFaithful clear_decoded
unfolding clear_decoded
clear_decoded-IsFaithful i = inl refl
