-- ===== src/Rv32/Interrupt/Selection.antt =====
-- `select_pending_interrupt` against the manual's rule: which causes can be taken, and their order.
use risc_v_cpu_emulator.Prelude.{
  ℕ, ◌^◌, ◌≤◌, ◌≡◌, ◌⊎◌, refl, ap, ◌∙◌, inl, inr, bit_and, arith, Bool, true, false, not, ◌&&◌,
  ◌||◌, ltb, ◌==◌, if◌then◌else◌, List, [], ◌∷◌, Bool-cases,
}
use risc_v_cpu_emulator.Words.Bits.{bit_of, bit_of-lt, bit_and-bit_of}
use risc_v_cpu_emulator.Rv32.Types.{PrivilegeMode, privilege_value, CpuSnapshot}
use risc_v_cpu_emulator.Rv32.Csr.Bits.{supported_interrupts}
use risc_v_cpu_emulator.Rv32.Csr.Access.{is_machine, is_user}
use risc_v_cpu_emulator.Rv32.Csr.File.{pending_interrupts}
use risc_v_cpu_emulator.Rv32.Trap.Entry.{InterruptCause, interrupt_value, TrapTarget}
use risc_v_cpu_emulator.Rv32.Trap.Privileged.{valid_privilege}
use risc_v_cpu_emulator.Rv32.Trap.Status.{has_bits-bit_of}
use risc_v_cpu_emulator.Rv32.Interrupt.{
  PriorityEntry, InterruptSelection, machine_interrupts_globally_enabled,
  supervisor_interrupts_globally_enabled, select_from, select_pending_interrupt, no_selection,
}

-- The mode that takes the cause: digit `interrupt_value cause` of `mideleg` delegates it.
abbrev pub target_of : CpuSnapshot → InterruptCause → TrapTarget
target_of state cause =
    if bit_of state.machine_csrs.mideleg (interrupt_value cause) == 1
    then TrapTarget.supervisor
    else TrapTarget.machine

-- A mode takes interrupts of lower modes always, its own while its enable digit is set.
abbrev pub accepts : CpuSnapshot → TrapTarget → Bool
accepts state TrapTarget.machine =
    ltb (privilege_value state.privilege) 3 || bit_of state.machine_csrs.mstatus 3 == 1
accepts state TrapTarget.supervisor =
    ltb (privilege_value state.privilege) 1
    || privilege_value state.privilege == 1 && bit_of state.machine_csrs.mstatus 1 == 1

abbrev pub deliverable : CpuSnapshot → InterruptCause → Bool
deliverable state cause =
    bit_of (pending_interrupts state) (interrupt_value cause) == 1
    && bit_of state.machine_csrs.mie (interrupt_value cause) == 1
    && accepts state (target_of state cause)

-- MEI, MSI, MTI, SEI, SSI, STI.
abbrev pub rank : InterruptCause → ℕ
rank InterruptCause.machine_external = 0
rank InterruptCause.machine_software = 1
rank InterruptCause.machine_timer = 2
rank InterruptCause.supervisor_external = 3
rank InterruptCause.supervisor_software = 4
rank InterruptCause.supervisor_timer = 5

machine_modes :
    (p : PrivilegeMode) (enable : Bool)
    → (not (is_machine p) || enable) ≡ (ltb (privilege_value p) 3 || enable)
machine_modes PrivilegeMode.user enable = refl
machine_modes PrivilegeMode.supervisor enable = refl
machine_modes PrivilegeMode.reserved enable = refl
machine_modes PrivilegeMode.machine enable = refl

supervisor_modes :
    (p : PrivilegeMode) (enable : Bool)
    → valid_privilege p ≡ true
    → (if is_machine p then false else is_user p || enable)
      ≡ (ltb (privilege_value p) 1 || privilege_value p == 1 && enable)
unfolding valid_privilege
supervisor_modes PrivilegeMode.user enable h = refl
supervisor_modes PrivilegeMode.supervisor enable h = refl
supervisor_modes PrivilegeMode.reserved enable h = absurd (cc)
supervisor_modes PrivilegeMode.machine enable h = refl

supported_digit : (cause : InterruptCause) → bit_of supported_interrupts (interrupt_value cause) ≡ 1
unfolding bit_of
supported_digit InterruptCause.supervisor_software = refl
supported_digit InterruptCause.machine_software = refl
supported_digit InterruptCause.supervisor_timer = refl
supported_digit InterruptCause.machine_timer = refl
supported_digit InterruptCause.supervisor_external = refl
supported_digit InterruptCause.machine_external = refl

abbrev take_first : CpuSnapshot → InterruptCause → InterruptSelection → InterruptSelection
take_first state cause others =
    if deliverable state cause
    then record { pending = true; cause = cause; target = target_of state cause }
    else others

unfoldable entries : List InterruptCause → List PriorityEntry
entries [] = []
entries (cause ∷ rest) = record { cause = cause; bit = 2 ^ interrupt_value cause } ∷ entries rest

unfoldable first_of : CpuSnapshot → List InterruptCause → InterruptSelection
first_of state [] = no_selection
first_of state (cause ∷ rest) = take_first state cause (first_of state rest)

abbrev causes_in_order : List InterruptCause
causes_in_order =
    InterruptCause.machine_external ∷ InterruptCause.machine_software ∷ InterruptCause.machine_timer
    ∷ InterruptCause.supervisor_external ∷ InterruptCause.supervisor_software
    ∷ InterruptCause.supervisor_timer ∷ []

module _ (state : CpuSnapshot) (valid : valid_privilege state.privilege ≡ true) where
  machine_accepts : machine_interrupts_globally_enabled state ≡ accepts state TrapTarget.machine
  unfolding machine_interrupts_globally_enabled
  machine_accepts =
      rw (has_bits-bit_of state.machine_csrs.mstatus 3) (machine_modes state.privilege _)

  supervisor_accepts :
      supervisor_interrupts_globally_enabled state ≡ accepts state TrapTarget.supervisor
  unfolding supervisor_interrupts_globally_enabled
  supervisor_accepts =
      rw (has_bits-bit_of state.machine_csrs.mstatus 1) (supervisor_modes state.privilege _ valid)

  abbrev enabled : ℕ
  enabled = bit_and (bit_and (pending_interrupts state) state.machine_csrs.mie) supported_interrupts

  enabled_test :
      (cause : InterruptCause)
      → (bit_and enabled (2 ^ interrupt_value cause) == 0)
        ≡ not (
            bit_of (pending_interrupts state) (interrupt_value cause) == 1
            && bit_of state.machine_csrs.mie (interrupt_value cause) == 1)
  enabled_test cause =
      let n : ℕ = interrupt_value cause in
      let both : ℕ = bit_and (pending_interrupts state) state.machine_csrs.mie in
      ground (
        arith,
        has_bits-bit_of enabled n,
        bit_and-bit_of both supported_interrupts n,
        bit_and-bit_of (pending_interrupts state) state.machine_csrs.mie n,
        supported_digit cause,
        bit_of-lt (pending_interrupts state) n,
        bit_of-lt state.machine_csrs.mie n,
      )

  -- One entry of the priority list: it is selected where its cause is deliverable.
  select_from_entry :
      (cause : InterruptCause) (rest : List PriorityEntry)
      → select_from state enabled (record { cause = cause; bit = 2 ^ interrupt_value cause } ∷ rest)
        ≡ take_first state cause (select_from state enabled rest)
  unfolding select_from
  select_from_entry cause rest =
      rw
        (
          enabled_test cause,
          has_bits-bit_of state.machine_csrs.mideleg (interrupt_value cause),
          machine_accepts,
          supervisor_accepts,
        )
        (ground arith)

  select_from-entries :
      (causes : List InterruptCause)
      → select_from state enabled (entries causes) ≡ first_of state causes
  unfolding select_from entries first_of
  select_from-entries [] = refl
  select_from-entries (cause ∷ rest) =
      select_from_entry cause (entries rest)
      ∙ ap (take_first state cause) (select_from-entries rest)

  -- The whole list.
  select_pending_interrupt-causes : select_pending_interrupt state ≡ first_of state causes_in_order
  unfolding select_pending_interrupt entries
  select_pending_interrupt-causes = select_from-entries causes_in_order

-- The selection is the first deliverable cause in the order of `rank`, for the mode that takes it;
-- there is none exactly where no cause is deliverable.
abbrev pub IsFirst : CpuSnapshot → InterruptSelection → InterruptCause → Type 0
IsFirst state selection other =
    ((selection.pending ≡ true)
      × (deliverable state selection.cause ≡ true)
      × (selection.target ≡ target_of state selection.cause)
      × ((deliverable state other ≡ false) ⊎ (rank selection.cause ≤ rank other)))
    ⊎ ((selection.pending ≡ false) × (deliverable state other ≡ false))

abbrev IsSound : CpuSnapshot → InterruptSelection → Type 0
IsSound state selection =
    ((selection.pending ≡ true)
      × (deliverable state selection.cause ≡ true)
      × (selection.target ≡ target_of state selection.cause))
    ⊎ (selection.pending ≡ false)

first_of-IsSound :
    (state : CpuSnapshot) (causes : List InterruptCause) → IsSound state (first_of state causes)
unfolding first_of
first_of-IsSound state [] = inr refl
first_of-IsSound state (cause ∷ rest) = elim (Bool-cases (deliverable state cause)) [
  | inl e ↦ rw e (inl (refl, e, refl))
  | inr e ↦ rw e (first_of-IsSound state rest)
]

-- `other` is in the list, and no cause before it has a higher rank.
abbrev IsRankedIn : InterruptCause → List InterruptCause → Type 0
IsRankedIn other [] = ⊥
IsRankedIn other (cause ∷ rest) =
    (cause ≡ other) ⊎ ((rank cause ≤ rank other) × IsRankedIn other rest)

not_taken :
    (state : CpuSnapshot) (selection : InterruptSelection) (other : InterruptCause)
    → IsSound state selection
    → deliverable state other ≡ false
    → IsFirst state selection other
not_taken state selection other (inl (p, d, t)) e = inl (p, d, t, inl e)
not_taken state selection other (inr p) e = inr (p, e)

before :
    (cause other : InterruptCause) (rest : List InterruptCause)
    → IsRankedIn other (cause ∷ rest)
    → rank cause ≤ rank other
before cause other rest (inl p) = rw p (omega arith)
before cause other rest (inr h) = h.0

first_of-IsFirst :
    (state : CpuSnapshot) (causes : List InterruptCause) (other : InterruptCause)
    → IsRankedIn other causes
    → IsFirst state (first_of state causes) other
unfolding first_of
first_of-IsFirst state [] other h = absurd h
first_of-IsFirst state (cause ∷ rest) other h =
    let later : (h : IsRankedIn other rest) → IsFirst state (first_of state rest) other =
      first_of-IsFirst state rest other in
    elim (Bool-cases (deliverable state cause)) [
      | inl e ↦ rw e (inl (refl, e, refl, inr (before cause other rest h)))
      | inr e ↦ rw e (elim h [
        | inl p ↦
            not_taken state (first_of state rest) other (first_of-IsSound state rest) (rw (← p) e)
        | inr g ↦ later g.1
      ])
    ]

every_cause : (other : InterruptCause) → IsRankedIn other causes_in_order
every_cause InterruptCause.machine_external = inl refl
every_cause InterruptCause.machine_software = inr (omega arith, inl refl)
every_cause InterruptCause.machine_timer = inr (omega arith, inr (omega arith, inl refl))
every_cause InterruptCause.supervisor_external =
    inr (omega arith, inr (omega arith, inr (omega arith, inl refl)))
every_cause InterruptCause.supervisor_software =
    inr (omega arith, inr (omega arith, inr (omega arith, inr (omega arith, inl refl))))
every_cause InterruptCause.supervisor_timer = inr (
  omega arith,
  inr (omega arith, inr (omega arith, inr (omega arith, inr (omega arith, inl refl)))),
)

-- In a mode that exists, `select_pending_interrupt` takes a deliverable cause, for the mode that it
-- is delegated to, and no other cause that is deliverable ranks before it; it takes none only where
-- no cause is deliverable.
pub select_pending_interrupt-IsFirst :
    (state : CpuSnapshot) (other : InterruptCause)
    → valid_privilege state.privilege ≡ true
    → IsFirst state (select_pending_interrupt state) other
select_pending_interrupt-IsFirst state other valid =
    rw (select_pending_interrupt-causes state valid)
      (first_of-IsFirst state causes_in_order other (every_cause other))
