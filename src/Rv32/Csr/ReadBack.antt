-- ===== src/Rv32/Csr/ReadBack.antt =====
-- core32/src/csr.cpp: what `CsrFile::read` finds after `CsrFile::write_validated`.
use risc_v_cpu_emulator.Prelude.{
  ℕ, ◌≡◌, ◌*◌, ◌-◌, ◌/◌, ◌%◌, ◌^◌, ◌<◌, refl, sym, ap, ◌∙◌, arith, bit_and, Bool-cases, inl, inr,
  leb, ltb, ◌==◌, if◌then◌else◌,
}
use risc_v_cpu_emulator.Words.{not32}
use risc_v_cpu_emulator.Words.Fields.{even_value, bit_and-mask, bit_and_shifted, bit_or-eq-add}
use risc_v_cpu_emulator.Rv32.Types.{PrivilegeMode, CpuSnapshot}
use risc_v_cpu_emulator.Rv32.Csr.Access.{sanitize_mtvec, sanitize_satp}
use risc_v_cpu_emulator.Rv32.Csr.File.{read, readable, write_validated, write_machine}
use risc_v_cpu_emulator.Rv32.Csr.Frames.{Stored, address_of, field_of, read_field, write_other}

-- The value that a write leaves: delegable exceptions only, the three counters, a direct or a vectored
-- vector, an even PC, and an address space only in the mode that translates.
unfoldable pub stored : Stored → ℕ → ℕ
stored Stored.medeleg value = bit_and value 0xB3FF
stored Stored.mcounteren value = value % 8
stored Stored.mtvec value = if leb (value % 4) 1 then value else value - value % 4
stored Stored.mscratch value = value
stored Stored.mepc value = value - value % 2
stored Stored.mcause value = value
stored Stored.mtval value = value
stored Stored.scounteren value = value % 8
stored Stored.stvec value = if leb (value % 4) 1 then value else value - value % 4
stored Stored.sscratch value = value
stored Stored.sepc value = value - value % 2
stored Stored.scause value = value
stored Stored.stval value = value
stored Stored.satp value = if ltb value (2 ^ 31) then 0 else value

vector_value :
    (value : ℕ)
    → value < 2 ^ 32
    → sanitize_mtvec value ≡ (if leb (value % 4) 1 then value else value - value % 4)
unfolding sanitize_mtvec
vector_value value word =
    let base : bit_and value (not32 3) ≡ value - value % 4 =
      omega (arith, bit_and_shifted 2 value 1073741823, bit_and-mask 30 (value / 4), word) in
    rw (bit_and-mask 2 value, base)
      (ground (
        arith,
        bit_or-eq-add 2 (value - value % 4) (value % 4) (omega arith) (omega arith),
        bit_or-eq-add 2 (value - value % 4) 0 (omega arith) (omega arith),
      ))

space_value :
    (value : ℕ) → value < 2 ^ 32 → sanitize_satp value ≡ (if ltb value (2 ^ 31) then 0 else value)
unfolding sanitize_satp
space_value value word =
    let low : bit_and value 0x7FFFFFFF ≡ value % 2 ^ 31 = bit_and-mask 31 value in
    let top : bit_and value 0x80000000 ≡ value / 2 ^ 31 * 2 ^ 31 =
      omega (arith, bit_and_shifted 31 value 1, bit_and-mask 1 (value / 2 ^ 31), word) in
    rw (low, top)
      (ground
        (arith, word, bit_or-eq-add 31 0x80000000 (value % 2 ^ 31) (omega arith) (omega arith)))

write_same :
    (state : CpuSnapshot) (value : ℕ) (csr : Stored)
    → value < 2 ^ 32
    → field_of (write_validated state (address_of csr) value) csr ≡ stored csr value
unfolding write_validated write_machine field_of stored
write_same state value Stored.medeleg word = refl
write_same state value Stored.mcounteren word = bit_and-mask 3 value
write_same state value Stored.mtvec word = vector_value value word
write_same state value Stored.mscratch word = refl
write_same state value Stored.mepc word = even_value value word
write_same state value Stored.mcause word = refl
write_same state value Stored.mtval word = refl
write_same state value Stored.scounteren word = bit_and-mask 3 value
write_same state value Stored.stvec word = vector_value value word
write_same state value Stored.sscratch word = refl
write_same state value Stored.sepc word = even_value value word
write_same state value Stored.scause word = refl
write_same state value Stored.stval word = refl
write_same state value Stored.satp word = space_value value word

-- After a write of a word at any address, a read of one of these CSRs in machine mode is ready; it
-- answers with the value that the write leaves where it was to this CSR, and else as before.
pub read-write_validated :
    (state : CpuSnapshot) (time address value : ℕ) (csr : Stored)
    → value < 2 ^ 32
    → read (write_validated state address value) time (address_of csr) PrivilegeMode.machine ≡ (
        if address == address_of csr
        then readable (stored csr value)
        else read state time (address_of csr) PrivilegeMode.machine)
read-write_validated state time address value csr word =
    read_field (write_validated state address value) time csr
    ∙ elim (Bool-cases (address == address_of csr)) [
      | inl e ↦
          let same : address ≡ address_of csr = ground (arith, e) in
          rw e (rw same (ap readable (write_same state value csr word)))
      | inr e ↦
          rw e
            (ap readable (write_other state address value csr e) ∙ sym (read_field state time csr))
    ]
