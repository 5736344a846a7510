-- ===== src/Common/Bus.antt =====
-- common/include/rv/common/bus.hpp: the data of a bus access, and `CpuBus`, the interface that the
-- cores use. A bus keeps its state in `B`; an operation returns the new state beside its result.
use risc_v_cpu_emulator.Prelude.{ℕ, Bool, true, false}

pub data AccessWidth : Type 0 where
  byte half_word word double_word : AccessWidth

unfoldable pub width_bytes : AccessWidth → ℕ
width_bytes byte = 1
width_bytes half_word = 2
width_bytes word = 4
width_bytes double_word = 8

pub data AccessKind : Type 0 where
  instruction_fetch load store page_table_walk atomic dma : AccessKind

pub data BusFault : Type 0 where
  no_fault unmapped misaligned out_of_range read_only unsupported device_error : BusFault

-- `fault == BusFault::None` and `fault == BusFault::Misaligned`.
abbrev pub is_none : BusFault → Bool
is_none no_fault = true
is_none _ = false

abbrev pub is_misaligned : BusFault → Bool
is_misaligned misaligned = true
is_misaligned _ = false

pub record ReadResult : Type 0 where
  pub fault : BusFault
  pub value : ℕ

abbrev pub read_ok : ℕ → ReadResult
read_ok value = record { fault = no_fault; value = value }

abbrev pub read_fault : BusFault → ReadResult
read_fault fault = record { fault = fault; value = 0 }

pub record StoreConditionalResult : Type 0 where
  pub fault : BusFault
  pub succeeded : Bool

pub data AmoOperation : Type 0 where
  swap add_word xor_word and_word or_word min_signed max_signed min_unsigned max_unsigned :
      AmoOperation

pub record AtomicResult : Type 0 where
  pub fault : BusFault
  pub original_value : ℕ

pub record CpuBus (B : Type 0) : Type 0 where
  pub read : B → ℕ → AccessWidth → AccessKind → B × ReadResult
  pub write : B → ℕ → AccessWidth → ℕ → AccessKind → B × BusFault
  pub load_reserved_word : B → (hart_id address : ℕ) → B × ReadResult
  pub store_conditional_word : B → (hart_id address value : ℕ) → B × StoreConditionalResult
  pub atomic_word : B → (hart_id address : ℕ) → AmoOperation → ℕ → B × AtomicResult
  pub read_time : B → ℕ
  pub instruction_cacheable : B → ℕ → Bool
