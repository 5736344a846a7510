-- ===== src/Rv32/Csr/Address.antt =====
-- core32/include/rv32/core/csr.hpp, `csr_address`.
use risc_v_cpu_emulator.Prelude.{ℕ}

abbrev pub sstatus : ℕ
sstatus = 0x100

abbrev pub sie : ℕ
sie = 0x104

abbrev pub stvec : ℕ
stvec = 0x105

abbrev pub scounteren : ℕ
scounteren = 0x106

abbrev pub sscratch : ℕ
sscratch = 0x140

abbrev pub sepc : ℕ
sepc = 0x141

abbrev pub scause : ℕ
scause = 0x142

abbrev pub stval : ℕ
stval = 0x143

abbrev pub sip : ℕ
sip = 0x144

abbrev pub satp : ℕ
satp = 0x180

abbrev pub mstatus : ℕ
mstatus = 0x300

abbrev pub misa : ℕ
misa = 0x301

abbrev pub medeleg : ℕ
medeleg = 0x302

abbrev pub mideleg : ℕ
mideleg = 0x303

abbrev pub mie : ℕ
mie = 0x304

abbrev pub mtvec : ℕ
mtvec = 0x305

abbrev pub mcounteren : ℕ
mcounteren = 0x306

abbrev pub mstatush : ℕ
mstatush = 0x310

abbrev pub medelegh : ℕ
medelegh = 0x312

abbrev pub mscratch : ℕ
mscratch = 0x340

abbrev pub mepc : ℕ
mepc = 0x341

abbrev pub mcause : ℕ
mcause = 0x342

abbrev pub mtval : ℕ
mtval = 0x343

abbrev pub mip : ℕ
mip = 0x344

abbrev pub mcycle : ℕ
mcycle = 0xB00

abbrev pub minstret : ℕ
minstret = 0xB02

abbrev pub mcycleh : ℕ
mcycleh = 0xB80

abbrev pub minstreth : ℕ
minstreth = 0xB82

abbrev pub cycle : ℕ
cycle = 0xC00

abbrev pub time : ℕ
time = 0xC01

abbrev pub instret : ℕ
instret = 0xC02

abbrev pub cycleh : ℕ
cycleh = 0xC80

abbrev pub timeh : ℕ
timeh = 0xC81

abbrev pub instreth : ℕ
instreth = 0xC82

abbrev pub mvendorid : ℕ
mvendorid = 0xF11

abbrev pub marchid : ℕ
marchid = 0xF12

abbrev pub mimpid : ℕ
mimpid = 0xF13

abbrev pub mhartid : ℕ
mhartid = 0xF14
