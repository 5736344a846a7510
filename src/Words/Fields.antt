-- ===== src/Words/Fields.antt =====
-- Masks of one digit and of the lowest digits, complements, and numbers within a mask.
use native.Mathlib.Nat.{pow-succ', one-le-pow, div-div-eq-div-mul, div-add-mod, mul_assoc}
use native.Mathlib.Nat.{add-mul-mod_self_left, mul-mod_right, mod-eq_of_lt}
use risc_v_cpu_emulator.Prelude.{
  ℕ, zero, suc, ◌+◌, ◌-◌, ◌*◌, ◌/◌, ◌%◌, ◌^◌, ◌≤◌, ◌<◌, bit_and, bit_or, ◌≡◌, sym, ap, ◌∙◌, arith,
  ltb, if◌then◌else◌,
}
use risc_v_cpu_emulator.Words.Bits.{
  bit_of, bit_of-zero, bit_of-suc, zero-bit_of, bit_and-bit_of, bit_or-bit_of, bit_of_ext,
  bit_and-le, lt-two_pow, bit_or-le, bit_and_step, bit_or_step,
}

bit_and-zero : (a : ℕ) → bit_and a 0 ≡ 0
bit_and-zero a = omega (arith, bit_and-le a 0)

-- A single-digit mask.
pub bit_and-two_pow : (k a : ℕ) → bit_and a (2 ^ k) ≡ bit_of a k * 2 ^ k
bit_and-two_pow zero a = omega (arith, bit_and_step a 1, bit_and-zero (a / 2), bit_of-zero a)
bit_and-two_pow (suc k) a =
    let half : 2 ^ suc k / 2 ≡ 2 ^ k = omega (arith, pow-succ' 2 k) in
    let doubled : bit_of a (suc k) * 2 ^ suc k ≡ bit_of (a / 2) k * 2 ^ k * 2 =
      rw (bit_of-suc a k, pow-succ' 2 k) (omega arith) in
    bit_and_step a (2 ^ suc k)
    ∙ rw (half, bit_and-two_pow k (a / 2)) (omega (arith, doubled, pow-succ' 2 k))

mod-double : (a m : ℕ) → a % (2 * m) ≡ a / 2 % m * 2 + a % 2
mod-double a zero = omega arith
mod-double a (suc m) =
    let split : a ≡ (a / 2 % suc m * 2 + a % 2) + 2 * suc m * (a / 2 / suc m) =
      omega (arith, div-add-mod (a / 2) (suc m), mul_assoc 2 (suc m) (a / 2 / suc m)) in
    ap (λ (t : ℕ). t % (2 * suc m)) split
    ∙ add-mul-mod_self_left (a / 2 % suc m * 2 + a % 2) (2 * suc m) (a / 2 / suc m)
    ∙ mod-eq_of_lt (omega arith)

-- A mask of the low digits.
pub bit_and-mask : (k a : ℕ) → bit_and a (2 ^ k - 1) ≡ a % 2 ^ k
bit_and-mask zero a = omega (arith, bit_and-zero a)
bit_and-mask (suc k) a =
    let halves : (2 ^ suc k - 1) / 2 ≡ 2 ^ k - 1 = omega (arith, pow-succ' 2 k) in
    bit_and_step a (2 ^ suc k - 1)
    ∙ rw (halves, bit_and-mask k (a / 2), pow-succ' 2 k)
        (omega (arith, one-le-pow k 2, mod-double a (2 ^ k)))

bit_or-zero : (a : ℕ) → bit_or a 0 ≡ a
bit_or-zero a =
    bit_of_ext (suc a) _ _ (omega (arith, bit_or-le a 0, lt-two_pow a, pow-succ' 2 a))
      (omega (arith, lt-two_pow a, pow-succ' 2 a))
      (λ k _. bit_or-bit_of a 0 k ∙ rw (zero-bit_of k) (omega arith))

-- `|` of numbers with no digit in common: one a multiple of `2 ^ k`, the other below it.
pub bit_or-eq-add : (k a b : ℕ) → a % 2 ^ k ≡ 0 → b < 2 ^ k → bit_or a b ≡ a + b
bit_or-eq-add zero a b p q = let e : b ≡ 0 = omega arith in rw e (bit_or-zero a ∙ omega arith)
bit_or-eq-add (suc k) a b p q =
    let double : a / 2 % 2 ^ k * 2 + a % 2 ≡ 0 =
      sym (mod-double a (2 ^ k)) ∙ rw (← pow-succ' 2 k) p in
    omega (
      arith,
      bit_or_step a b,
      bit_or-eq-add k (a / 2) (b / 2) (omega arith) (omega (arith, pow-succ' 2 k)),
    )

complement-bit_of : (n a k : ℕ) → a < 2 ^ n → k < n → bit_of (2 ^ n - 1 - a) k ≡ 1 - bit_of a k
complement-bit_of zero a k h p = absurd (omega arith)
complement-bit_of (suc n) a zero h p =
    bit_of-zero (2 ^ suc n - 1 - a) ∙ omega (arith, bit_of-zero a, pow-succ' 2 n)
complement-bit_of (suc n) a (suc k) h p =
    let half : (2 ^ suc n - 1 - a) / 2 ≡ 2 ^ n - 1 - a / 2 = omega (arith, pow-succ' 2 n) in
    bit_of-suc (2 ^ suc n - 1 - a) k
    ∙ rw (half, bit_of-suc a k)
        (complement-bit_of n (a / 2) k (omega (arith, pow-succ' 2 n)) (omega arith))

pub not32-bit_of : (a k : ℕ) → a < 2 ^ 32 → k < 32 → bit_of (2 ^ 32 - 1 - a) k ≡ 1 - bit_of a k
not32-bit_of a k h p = complement-bit_of 32 a k h p

pub bit_or_comm : (a b : ℕ) → bit_or a b ≡ bit_or b a
bit_or_comm a b =
    bit_of_ext (suc (a + b)) _ _
      (omega (arith, bit_or-le a b, lt-two_pow (a + b), pow-succ' 2 (a + b)))
      (omega (arith, bit_or-le b a, lt-two_pow (a + b), pow-succ' 2 (a + b)))
      λ k _. omega (arith, bit_or-bit_of a b k, bit_or-bit_of b a k)

-- The other order of `bit_or-eq-add`.
pub bit_or-eq-add_low : (k a b : ℕ) → a < 2 ^ k → b % 2 ^ k ≡ 0 → bit_or a b ≡ a + b
bit_or-eq-add_low k a b p q = bit_or_comm a b ∙ bit_or-eq-add k b a q p ∙ omega arith

pub two_pow-add : (i j : ℕ) → 2 ^ (i + j) ≡ 2 ^ i * 2 ^ j
two_pow-add zero j = let same : 0 + j ≡ j = omega arith in rw same (omega arith)
two_pow-add (suc i) j =
    let shifted : suc i + j ≡ suc (i + j) = omega arith in
    rw (shifted, pow-succ' 2 (i + j), two_pow-add i j, pow-succ' 2 i) (omega arith)

pub two_pow-mod : (n k : ℕ) → k ≤ n → 2 ^ n % 2 ^ k ≡ 0
two_pow-mod n k h =
    let split : n ≡ k + (n - k) = omega arith in
    ap (λ (t : ℕ). 2 ^ t % 2 ^ k) split
    ∙ rw (two_pow-add k (n - k)) (mul-mod_right (2 ^ k) (2 ^ (n - k)))

-- The top digit is a comparison.
pub bit_of_top : (k a : ℕ) → a < 2 ^ suc k → bit_of a k ≡ (if ltb a (2 ^ k) then 0 else 1)
bit_of_top zero a h = bit_of-zero a ∙ ground arith
bit_of_top (suc k) a h =
    bit_of-suc a k
    ∙ ground (arith, bit_of_top k (a / 2) (omega (arith, pow-succ' 2 (suc k))), pow-succ' 2 k)

-- A mask that is shifted left looks at the shifted word.
pub bit_and_shifted : (k a m : ℕ) → bit_and a (m * 2 ^ k) ≡ bit_and (a / 2 ^ k) m * 2 ^ k
bit_and_shifted zero a m =
    let unshifted : m * 2 ^ 0 ≡ m = omega arith in
    let whole : a / 2 ^ 0 ≡ a = omega arith in rw (unshifted, whole) (omega arith)
bit_and_shifted (suc k) a m =
    let double : m * 2 ^ suc k ≡ m * 2 ^ k * 2 = rw (pow-succ' 2 k) (omega arith) in
    let half : m * 2 ^ k * 2 / 2 ≡ m * 2 ^ k = omega arith in
    rw
      (
        double,
        bit_and_step a (m * 2 ^ k * 2),
        half,
        bit_and_shifted k (a / 2) m,
        pow-succ' 2 k,
        ← div-div-eq-div-mul a 2 (2 ^ k),
      )
      (omega arith)

-- Extensionality with no bound, for numbers of any size.
pub bit_of_ext_all : (x y : ℕ) → ((k : ℕ) → bit_of x k ≡ bit_of y k) → x ≡ y
bit_of_ext_all x y h =
    bit_of_ext (suc (x + y)) x y (omega (arith, lt-two_pow (x + y), pow-succ' 2 (x + y)))
      (omega (arith, lt-two_pow (x + y), pow-succ' 2 (x + y))) λ k _. h k

-- Every digit of `x` is one of `mask`.
abbrev pub Within : ℕ → ℕ → Type 0
Within mask x = (k : ℕ) → bit_of x k ≤ bit_of mask k

pub bit_and-Within : (x mask : ℕ) → Within mask (bit_and x mask)
bit_and-Within x mask k = omega (arith, bit_and-bit_of x mask k)

pub bit_and-Within_left : (x y mask : ℕ) → Within mask x → Within mask (bit_and x y)
bit_and-Within_left x y mask h k = omega (arith, bit_and-bit_of x y k, h k)

pub bit_or-Within : (x y mask : ℕ) → Within mask x → Within mask y → Within mask (bit_or x y)
bit_or-Within x y mask h g k = omega (arith, bit_or-bit_of x y k, h k, g k)

pub Within-trans : (x y mask : ℕ) → Within y x → Within mask y → Within mask x
Within-trans x y mask h g k = omega (arith, h k, g k)

pub bit_and-eq_of_Within : (x mask : ℕ) → Within mask x → bit_and x mask ≡ x
bit_and-eq_of_Within x mask h = bit_of_ext_all _ _ λ k. omega (arith, bit_and-bit_of x mask k, h k)

-- The mask that clears the lowest digit of a word.
pub even_value : (value : ℕ) → value < 2 ^ 32 → bit_and value 0xFFFFFFFE ≡ value - value % 2
even_value value word =
    omega (arith, bit_and_shifted 1 value 2147483647, bit_and-mask 31 (value / 2), word)
