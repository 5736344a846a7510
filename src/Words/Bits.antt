-- ===== src/Words/Bits.antt =====
-- The binary digits of words: what `&`, `|`, `^`, `~` and the shifts do to each digit, and words
-- with the same digits are equal.
use Prim.Native.Nat.{digits, differ, bit_and-bitwise, bit_or-bitwise, bit_xor-bitwise}
use native.Mathlib.Nat.{pow-succ', div-div-eq-div-mul}
use risc_v_cpu_emulator.Prelude.{
  ℕ, zero, suc, ◌+◌, ◌*◌, ◌/◌, ◌%◌, ◌^◌, ◌≤◌, ◌<◌, min, max, bit_and, bit_or, bit_xor, ◌≡◌, refl,
  sym, ap, ◌∙◌, arith,
}

-- The digit of weight `2 ^ k`.
unfoldable pub bit_of : ℕ → ℕ → ℕ
bit_of x k = x / 2 ^ k % 2

pub bit_of-zero : (x : ℕ) → bit_of x 0 ≡ x % 2
unfolding bit_of
bit_of-zero x = omega arith

pub bit_of-suc : (x k : ℕ) → bit_of x (suc k) ≡ bit_of (x / 2) k
unfolding bit_of
bit_of-suc x k = rw (pow-succ' 2 k, ← div-div-eq-div-mul x 2 (2 ^ k)) refl

pub bit_of-lt : (x k : ℕ) → bit_of x k < 2
unfolding bit_of
bit_of-lt x k = omega arith

pub zero-bit_of : (k : ℕ) → bit_of 0 k ≡ 0
zero-bit_of zero = bit_of-zero 0
zero-bit_of (suc k) = bit_of-suc 0 k ∙ zero-bit_of k

-- A digit-by-digit operation acts on each digit.
module _ (z : ℕ → ℕ) (f : ℕ → ℕ → ℕ) (rest : (b k : ℕ) → bit_of (z b) k ≡ f 0 (bit_of b k))
    (small : (x y : ℕ) → x < 2 → y < 2 → f x y < 2) where
  digits-bit_of : (n a b k : ℕ) → a ≤ n → bit_of (digits z f n a b) k ≡ f (bit_of a k) (bit_of b k)
  digits-bit_of zero zero b k h = rw (zero-bit_of k) (rest b k)
  digits-bit_of zero (suc a) b k h = absurd (omega arith)
  digits-bit_of (suc n) zero b k h = rw (zero-bit_of k) (rest b k)
  digits-bit_of (suc n) (suc a) b zero h =
      rw (bit_of-zero (suc a), bit_of-zero b)
        (bit_of-zero _ ∙ omega (arith, small (suc a % 2) (b % 2) (omega arith) (omega arith)))
  digits-bit_of (suc n) (suc a) b (suc k) h =
      rw (bit_of-suc (suc a) k, bit_of-suc b k)
        (bit_of-suc _ k
          ∙ ap (λ (t : ℕ). bit_of t k)
              (omega (arith, small (suc a % 2) (b % 2) (omega arith) (omega arith)))
          ∙ digits-bit_of n (suc a / 2) (b / 2) k (omega arith))

pub bit_and-bit_of : (a b k : ℕ) → bit_of (bit_and a b) k ≡ min (bit_of a k) (bit_of b k)
bit_and-bit_of a b k = rw (bit_and-bitwise a b) (
    digits-bit_of (λ _. 0) min (λ b k. rw (zero-bit_of k) (omega arith)) (λ x y p q. omega arith) a
      a b k (omega arith))

pub bit_or-bit_of : (a b k : ℕ) → bit_of (bit_or a b) k ≡ max (bit_of a k) (bit_of b k)
bit_or-bit_of a b k =
    rw (bit_or-bitwise a b) (
      digits-bit_of (λ b. b) max (λ b k. omega arith) (λ x y p q. omega arith) a a b k
        (omega arith))

differ-lt : (x y : ℕ) → x < 2 → y < 2 → differ x y < 2
differ-lt zero y p q = q
differ-lt (suc zero) zero p q = omega arith
differ-lt (suc zero) (suc y) p q = omega arith
differ-lt (suc (suc x)) y p q = absurd (omega arith)

pub bit_xor-bit_of : (a b k : ℕ) → bit_of (bit_xor a b) k ≡ differ (bit_of a k) (bit_of b k)
bit_xor-bit_of a b k =
    rw (bit_xor-bitwise a b)
      (digits-bit_of (λ b. b) differ (λ b k. refl) differ-lt a a b k (omega arith))

-- Words with the same digits are equal.
pub bit_of_ext :
    (n x y : ℕ) → x < 2 ^ n → y < 2 ^ n → ((k : ℕ) → k < n → bit_of x k ≡ bit_of y k) → x ≡ y
bit_of_ext zero x y hx hy h = omega arith
bit_of_ext (suc n) x y hx hy h =
    let halves : x / 2 ≡ y / 2 =
      bit_of_ext n (x / 2) (y / 2) (omega (arith, pow-succ' 2 n)) (omega (arith, pow-succ' 2 n))
        λ k p. sym (bit_of-suc x k) ∙ h (suc k) (omega arith) ∙ bit_of-suc y k in
    omega (arith, halves, bit_of-zero x, bit_of-zero y, h 0 (omega arith))

-- No digit beyond the width.
pub bit_of_high : (x n k : ℕ) → x < 2 ^ n → n ≤ k → bit_of x k ≡ 0
bit_of_high x zero k h p =
    let e : x ≡ 0 = omega arith in ap (λ (t : ℕ). bit_of t k) e ∙ zero-bit_of k
bit_of_high x (suc n) zero h p = absurd (omega arith)
bit_of_high x (suc n) (suc k) h p =
    bit_of-suc x k ∙ bit_of_high (x / 2) n k (omega (arith, pow-succ' 2 n)) (omega arith)

-- Bounds.
digits_and-le : (n a b : ℕ) → (digits (λ _. 0) min n a b ≤ a) × (digits (λ _. 0) min n a b ≤ b)
digits_and-le zero a b = omega arith
digits_and-le (suc n) zero b = omega arith
digits_and-le (suc n) (suc a) b = omega (arith, digits_and-le n (suc a / 2) (b / 2))

pub bit_and-le : (a b : ℕ) → (bit_and a b ≤ a) × (bit_and a b ≤ b)
bit_and-le a b = rw (bit_and-bitwise a b) (digits_and-le a a b)

module _ (f : ℕ → ℕ → ℕ) (small : (x y : ℕ) → x < 2 → y < 2 → f x y < 2) where
  digits-lt : (m n a b : ℕ) → a ≤ n → a < 2 ^ m → b < 2 ^ m → digits (λ y. y) f n a b < 2 ^ m
  digits-lt m zero a b h p q = q
  digits-lt m (suc n) zero b h p q = q
  digits-lt zero (suc n) (suc a) b h p q = absurd (omega arith)
  digits-lt (suc m) (suc n) (suc a) b h p q = omega (
    arith,
    small (suc a % 2) (b % 2) (omega arith) (omega arith),
    pow-succ' 2 m,
    digits-lt m n (suc a / 2) (b / 2) (omega arith) (omega (arith, pow-succ' 2 m))
        (omega (arith, pow-succ' 2 m)),
  )

pub bit_or-lt : (n a b : ℕ) → a < 2 ^ n → b < 2 ^ n → bit_or a b < 2 ^ n
bit_or-lt n a b p q =
    rw (bit_or-bitwise a b) (digits-lt max (λ x y p q. omega arith) n a a b (omega arith) p q)

pub bit_xor-lt : (n a b : ℕ) → a < 2 ^ n → b < 2 ^ n → bit_xor a b < 2 ^ n
bit_xor-lt n a b p q =
    rw (bit_xor-bitwise a b) (digits-lt differ differ-lt n a a b (omega arith) p q)

pub lt-two_pow : (n : ℕ) → n < 2 ^ n
lt-two_pow zero = omega arith
lt-two_pow (suc n) = omega (arith, pow-succ' 2 n, lt-two_pow n)

double-bit_of : (x e k : ℕ) → e < 2 → bit_of (x * 2 + e) (suc k) ≡ bit_of x k
double-bit_of x e k h =
    let half : (x * 2 + e) / 2 ≡ x = omega arith in
    bit_of-suc (x * 2 + e) k ∙ ap (λ (t : ℕ). bit_of t k) half

-- The lowest digit apart from the others.
module _ (op f : ℕ → ℕ → ℕ) (small : (x y : ℕ) → x < 2 → y < 2 → f x y < 2)
    (bound : (a b : ℕ) → op a b ≤ a + b)
    (digit : (a b k : ℕ) → bit_of (op a b) k ≡ f (bit_of a k) (bit_of b k)) where
  same_digits :
      (a b k : ℕ) → bit_of (op a b) k ≡ bit_of (op (a / 2) (b / 2) * 2 + f (a % 2) (b % 2)) k
  same_digits a b zero =
      digit a b 0
      ∙ rw (bit_of-zero a, bit_of-zero b, bit_of-zero)
          (omega (arith, small (a % 2) (b % 2) (omega arith) (omega arith)))
  same_digits a b (suc k) =
      digit a b (suc k)
      ∙ rw
          (
            double-bit_of (op (a / 2) (b / 2)) (f (a % 2) (b % 2)) k
                (small _ _ (omega arith) (omega arith)),
            digit (a / 2) (b / 2) k,
            bit_of-suc a k,
            bit_of-suc b k,
          )
          refl

  step_by_digits : (a b : ℕ) → op a b ≡ op (a / 2) (b / 2) * 2 + f (a % 2) (b % 2)
  step_by_digits a b =
      bit_of_ext (suc (a + b)) _ _
        (omega (arith, bound a b, lt-two_pow (a + b), pow-succ' 2 (a + b)))
        (omega (
          arith,
          bound (a / 2) (b / 2),
          small (a % 2) (b % 2) (omega arith) (omega arith),
          lt-two_pow (a + b),
          pow-succ' 2 (a + b),
        ))
        (λ k _. same_digits a b k)

digits_or-le : (n a b : ℕ) → digits (λ y. y) max n a b ≤ a + b
digits_or-le zero a b = omega arith
digits_or-le (suc n) zero b = omega arith
digits_or-le (suc n) (suc a) b = omega (arith, digits_or-le n (suc a / 2) (b / 2))

pub bit_or-le : (a b : ℕ) → bit_or a b ≤ a + b
bit_or-le a b = rw (bit_or-bitwise a b) (digits_or-le a a b)

pub bit_and_step : (a b : ℕ) → bit_and a b ≡ bit_and (a / 2) (b / 2) * 2 + min (a % 2) (b % 2)
bit_and_step =
    step_by_digits bit_and min (λ x y p q. omega arith) (λ a b. omega (arith, bit_and-le a b))
      bit_and-bit_of

pub bit_or_step : (a b : ℕ) → bit_or a b ≡ bit_or (a / 2) (b / 2) * 2 + max (a % 2) (b % 2)
bit_or_step = step_by_digits bit_or max (λ x y p q. omega arith) bit_or-le bit_or-bit_of
