-- ===== src/Rv32/Mmu/Tables.antt =====
-- The page tables as a function from addresses to entries, and the walk of `walk_address` on them.
use risc_v_cpu_emulator.Prelude.{
  ℕ, zero, suc, ◌*◌, ◌%◌, ◌^◌, ◌≡◌, ◌⊎◌, refl, ap, arith, Bool, true, false, ◌&&◌, ◌||◌, ◌==◌,
  Option, none, some, inl, inr,
}
use risc_v_cpu_emulator.Words.{shr, has_bits}
use risc_v_cpu_emulator.Common.Bus.{AccessWidth, AccessKind, read_ok, CpuBus}
use risc_v_cpu_emulator.Rv32.Types.{CpuSnapshot}
use risc_v_cpu_emulator.Rv32.Mmu.Walk.{
  MemoryAccessType, translated, pte_global, privilege_allows, effective_privilege, pte_address_of,
  PteClass, faulty, pointer, leaf, classify_pte, update_pte, leaf_address, walk_leaf, walk_round,
  walk_levels, WalkResult,
}

-- A leaf entry and the level at which it stands.
pub record Leaf : Type 0 where
  pub pte : ℕ
  pub level : ℕ

abbrev pub leaf_at : ℕ → ℕ → Leaf
leaf_at pte level = record { pte = pte; level = level }

-- What a round makes of an entry, with the leaf that the next table would give.
unfoldable pub leaf_round : (pte level : ℕ) → Option Leaf → Option Leaf
leaf_round pte level below = elim (classify_pte pte level) [
  | faulty ↦ none
  | pointer ↦ below
  | leaf ↦ some (leaf_at pte level)
]

-- The leaf for an address, with `n` levels of tables from the one at `table`.
unfoldable pub leaf_of : (tables : ℕ → ℕ) → (n table virtual_address : ℕ) → Option Leaf
leaf_of tables zero table virtual_address = none
leaf_of tables (suc level) table virtual_address =
    let pte = tables (pte_address_of table virtual_address level) % 2 ^ 32 in
    leaf_round pte level (leaf_of tables level (shr pte 10 * 2 ^ 12) virtual_address)

abbrev pub is_misplaced : Leaf → Bool
is_misplaced l = l.level == 1 && has_bits (shr l.pte 10) 0x3FF

PteClass-cases : (c : PteClass) → (c ≡ faulty) ⊎ (c ≡ pointer) ⊎ (c ≡ leaf)
PteClass-cases faulty = inl refl
PteClass-cases pointer = inr (inl refl)
PteClass-cases leaf = inr (inr refl)

-- The bus answers the reads of a walk for an address with the tables' entries, without a fault or a
-- change: the entry in the table at `table`, and where it points to a further table, the one there.
unfoldable pub AreReadable :
    {B : Type 0} → CpuBus B → B → (tables : ℕ → ℕ) → (virtual_address n table : ℕ) → Type 0
AreReadable ops bus tables virtual_address zero table = Unit
AreReadable ops bus tables virtual_address (suc level) table =
    let address = pte_address_of table virtual_address level in
    let pte = tables address % 2 ^ 32 in
    (ops.read bus address AccessWidth.word AccessKind.page_table_walk
      ≡ (bus, read_ok (tables address)))
    × (classify_pte pte level ≡ pointer
        → AreReadable ops bus tables virtual_address level (shr pte 10 * 2 ^ 12))

module _ {B : Type 0} (ops : CpuBus B) (bus : B) (state : CpuSnapshot) (virtual_address : ℕ)
    (access : MemoryAccessType) (l : Leaf) (placed : is_misplaced l ≡ false)
    (allowed : privilege_allows l.pte
        (effective_privilege state access)
        access
        state.machine_csrs.mstatus
      ≡ true)
    (updated : update_pte l.pte access ≡ l.pte) where
  -- A walk leaves the bus and gives the leaf's address.
  abbrev Reaches : WalkResult B → Type 0
  Reaches walked =
      (walked.bus ≡ bus)
      × (walked.result ≡ translated (leaf_address (shr l.pte 10) virtual_address l.level))

  walk_leaf-Reaches :
      (pte_address level pte : ℕ) (global : Bool)
      → pte ≡ l.pte
      → level ≡ l.level
      → Reaches (walk_leaf ops bus state virtual_address access level pte_address pte global)
  unfolding walk_leaf
  walk_leaf-Reaches pte_address level pte global at_pte at_level =
      rw (at_pte, at_level) (ground (arith, placed, allowed, updated))

  walk_round-Reaches :
      (next : B → ℕ → Bool → WalkResult B) (below : Option Leaf) (level pte_address value : ℕ)
      (global : Bool)
      → ((g : Bool)
          → classify_pte (value % 2 ^ 32) level ≡ pointer
          → below ≡ some l
          → Reaches (next bus (shr (value % 2 ^ 32) 10 * 2 ^ 12) g))
      → leaf_round (value % 2 ^ 32) level below ≡ some l
      → Reaches (
          walk_round ops next state virtual_address access level pte_address global
            (bus, read_ok value))
  unfolding walk_round leaf_round
  walk_round-Reaches next below level pte_address value global h found =
      let pte : ℕ = value % 2 ^ 32 in
      elim (PteClass-cases (classify_pte pte level)) [
        | inl e ↦ absurd (ground (arith, e, found))
        | inr (inl e) ↦ rw e (h (global || has_bits pte pte_global) e (ground (arith, e, found)))
        | inr (inr e) ↦
            let same : leaf_at pte level ≡ l = ground (arith, e, found) in
            rw e (
              walk_leaf-Reaches pte_address level pte global (ap (λ (x : Leaf). x.pte) same)
                (ap (λ (x : Leaf). x.level) same))
      ]

  -- Where the walk meets no fault and no change at the entries that it reads, it stops at the leaf; where
  -- the access is permitted and the entry needs no update, it leaves the bus and gives its address.
  pub walk_levels-Reaches :
      (tables : ℕ → ℕ) (n table : ℕ) (global : Bool)
      → AreReadable ops bus tables virtual_address n table
      → leaf_of tables n table virtual_address ≡ some l
      → Reaches (walk_levels ops n bus state virtual_address access table global)
  unfolding leaf_of walk_levels AreReadable
  walk_levels-Reaches tables zero table global reads found = absurd (cc)
  walk_levels-Reaches tables (suc level) table global reads found =
      let address : ℕ = pte_address_of table virtual_address level in
      rw (reads.0) (
        walk_round-Reaches _
          (leaf_of tables level (shr (tables address % 2 ^ 32) 10 * 2 ^ 12) virtual_address) level
          address (tables address) global
          (λ g p e. walk_levels-Reaches tables level _ g (reads.1 p) e) found)
