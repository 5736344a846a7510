-- ===== src/Words/Masks.antt =====
-- Facts about every digit of a constant mask, by computation.
use risc_v_cpu_emulator.Prelude.{
  ℕ, zero, suc, ◌<◌, ◌≡◌, arith, Bool, true, ◌&&◌, ◌==◌, inl, inr, Bool-cases,
}

unfoldable pub all_below : ℕ → (ℕ → Bool) → Bool
all_below zero test = true
all_below (suc n) test = test n && all_below n test

pub all_below_lem :
    (n : ℕ) (test : ℕ → Bool) (k : ℕ) → all_below n test ≡ true → k < n → test k ≡ true
unfolding all_below
all_below_lem zero test k h p = absurd (omega arith)
all_below_lem (suc n) test k h p = elim (Bool-cases (k == n)) [
  | inl e ↦ let same : k ≡ n = ground arith in rw same (ground arith)
  | inr e ↦ all_below_lem n test k (ground arith) (ground arith)
]
