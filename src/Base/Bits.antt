-- ===== src/Base/Bits.antt =====
-- `&`, `|` and `^` at variables. Each works digit by digit, so it splits at any bit position; what
-- masks and disjoint fields do follows from that, at every width.
use Prim.Native.Nat.{
  ℕ, zero, suc, ◌+◌, ◌-◌, ◌*◌, ◌/◌, ◌%◌, ◌^◌, ◌≤◌, ◌<◌, min, max, differ, bit_and, bit_or, bit_xor,
  digits, bitwise, bit_and-bitwise, bit_or-bitwise, bit_xor-bitwise,
}
use mathlib.Core.Path.{◌≡◌, refl, ap}
use native.Mathlib.Nat.{le_refl, pow-suc, one-le-pow}
use native.Mathlib.Omega.{arith}

-- The fuel of `digits` does not matter once it covers the first number.
digits-fuel :
    (z : ℕ → ℕ) (f : ℕ → ℕ → ℕ) (x y fuel more : ℕ)
    → (x ≤ fuel) × (x ≤ more)
    → digits z f fuel x y ≡ digits z f more x y
digits-fuel z f zero y zero zero h = refl
digits-fuel z f zero y zero (suc more) h = refl
digits-fuel z f zero y (suc fuel) zero h = refl
digits-fuel z f zero y (suc fuel) (suc more) h = refl
digits-fuel z f (suc x) y zero more h = absurd (omega arith)
digits-fuel z f (suc x) y (suc fuel) zero h = absurd (omega arith)
digits-fuel z f (suc x) y (suc fuel) (suc more) h =
    rw (digits-fuel z f (suc x / 2) (y / 2) fuel more (omega arith))

-- The lowest digit and the rest, of an operation that works on each binary digit by `d`.
abbrev Splits : (ℕ → ℕ → ℕ) → (ℕ → ℕ → ℕ) → ℕ → ℕ → Type 0
Splits op d x y = op x y ≡ d (x % 2) (y % 2) + 2 * op (x / 2) (y / 2)

bitwise-Splits : (z : ℕ → ℕ) (f : ℕ → ℕ → ℕ) (x y : ℕ) → Splits (bitwise z f) f (suc x) y
bitwise-Splits z f x y =
    omega (arith, digits-fuel z f (suc x / 2) (y / 2) x (suc x / 2) (omega arith))

pub record IsDigitwise (op d : ℕ → ℕ → ℕ) : Type 0 where
  pub at_zero : op 0 0 ≡ 0
  pub step : (x y : ℕ) → Splits op d x y

bit_and-IsDigitwise : IsDigitwise bit_and min
bit_and-IsDigitwise = record { at_zero = refl; step = splits }
  where
    splits : (x y : ℕ) → Splits bit_and min x y
    splits zero y = simp bit_and-bitwise (omega arith)
    splits (suc x) y = simp bit_and-bitwise (bitwise-Splits (λ n. 0) min x y)

bit_or-IsDigitwise : IsDigitwise bit_or max
bit_or-IsDigitwise = record { at_zero = refl; step = splits }
  where
    splits : (x y : ℕ) → Splits bit_or max x y
    splits zero y = simp bit_or-bitwise (omega arith)
    splits (suc x) y = simp bit_or-bitwise (bitwise-Splits (λ n. n) max x y)

bit_xor-IsDigitwise : IsDigitwise bit_xor differ
bit_xor-IsDigitwise = record { at_zero = refl; step = splits }
  where
    splits : (x y : ℕ) → Splits bit_xor differ x y
    splits zero y = simp bit_xor-bitwise (omega arith)
    splits (suc x) y = simp bit_xor-bitwise (bitwise-Splits (λ n. n) differ x y)

pow_doubled : (k q : ℕ) → 2 * (q * 2 ^ k) ≡ q * 2 ^ suc k
pow_doubled k q = omega (arith, ap (λ (power : ℕ). q * power) (pow-suc 2 k))

module _ {op d : ℕ → ℕ → ℕ} (b : IsDigitwise op d) where
  -- Such an operation works on the digits from `k` up and on those below by themselves.
  split_at :
      (k q₁ r₁ q₂ r₂ : ℕ)
      → r₁ < 2 ^ k
      → r₂ < 2 ^ k
      → op (q₁ * 2 ^ k + r₁) (q₂ * 2 ^ k + r₂) ≡ op q₁ q₂ * 2 ^ k + op r₁ r₂
  split_at zero q₁ r₁ q₂ r₂ h₁ h₂ = ground (arith, b.at_zero)
  split_at (suc k) q₁ r₁ q₂ r₂ h₁ h₂ = ground (
    arith,
    pow-suc 2 k,
    pow_doubled k q₁,
    pow_doubled k q₂,
    pow_doubled k (op q₁ q₂),
    b.step (q₁ * 2 ^ suc k + r₁) (q₂ * 2 ^ suc k + r₂),
    b.step r₁ r₂,
    split_at k q₁ (r₁ / 2) q₂ (r₂ / 2) (omega (arith, pow-suc 2 k)) (omega (arith, pow-suc 2 k)),
  )

  -- Where `d` keeps the digits of the first number against 0, so does the operation.
  right_zero : ((x : ℕ) → x < 2 → d x 0 ≡ x) → (n a : ℕ) → a ≤ n → op a 0 ≡ a
  right_zero unit n zero h = b.at_zero
  right_zero unit zero (suc a) h = absurd (omega arith)
  right_zero unit (suc n) (suc a) h = ground (
    arith,
    b.step (suc a) 0,
    unit (suc a % 2) (omega arith),
    right_zero unit n (suc a / 2) (omega arith),
  )

  left_zero : ((x : ℕ) → x < 2 → d 0 x ≡ x) → (n a : ℕ) → a ≤ n → op 0 a ≡ a
  left_zero unit n zero h = b.at_zero
  left_zero unit zero (suc a) h = absurd (omega arith)
  left_zero unit (suc n) (suc a) h = ground (
    arith,
    b.step 0 (suc a),
    unit (suc a % 2) (omega arith),
    left_zero unit n (suc a / 2) (omega arith),
  )

  -- It stays below a power of two, if `d` gives digits.
  below :
      ((x y : ℕ) → x < 2 → y < 2 → d x y < 2) → (k x y : ℕ) → x < 2 ^ k → y < 2 ^ k → op x y < 2 ^ k
  below digit zero zero zero hx hy = omega (arith, b.at_zero)
  below digit zero zero (suc y) hx hy = absurd (omega arith)
  below digit zero (suc x) y hx hy = absurd (omega arith)
  below digit (suc k) x y hx hy = omega (
    arith,
    b.step x y,
    pow-suc 2 k,
    digit (x % 2) (y % 2) (omega arith) (omega arith),
    below digit k (x / 2) (y / 2) (omega (arith, pow-suc 2 k)) (omega (arith, pow-suc 2 k)),
  )

pub bit_or-zero : (a : ℕ) → bit_or a 0 ≡ a
bit_or-zero a = right_zero bit_or-IsDigitwise (λ x h. omega arith) a a (le_refl _)

pub zero-bit_or : (a : ℕ) → bit_or 0 a ≡ a
zero-bit_or a = left_zero bit_or-IsDigitwise (λ x h. omega arith) a a (le_refl _)

differ-zero : (x : ℕ) → x < 2 → differ x 0 ≡ x
differ-zero zero h = refl
differ-zero (suc zero) h = refl
differ-zero (suc (suc x)) h = absurd (omega arith)

pub bit_xor-zero : (a : ℕ) → bit_xor a 0 ≡ a
bit_xor-zero a = right_zero bit_xor-IsDigitwise differ-zero a a (le_refl _)

bit_and-zero-fuel : (n a : ℕ) → a ≤ n → bit_and a 0 ≡ 0
bit_and-zero-fuel n zero h = refl
bit_and-zero-fuel zero (suc a) h = absurd (omega arith)
bit_and-zero-fuel (suc n) (suc a) h =
    ground
      (arith, bit_and-IsDigitwise.step (suc a) 0, bit_and-zero-fuel n (suc a / 2) (omega arith))

pub bit_and-zero : (a : ℕ) → bit_and a 0 ≡ 0
bit_and-zero a = bit_and-zero-fuel a a (le_refl _)

bit_or_split :
    (k q₁ r₁ q₂ r₂ : ℕ)
    → r₁ < 2 ^ k
    → r₂ < 2 ^ k
    → bit_or (q₁ * 2 ^ k + r₁) (q₂ * 2 ^ k + r₂) ≡ bit_or q₁ q₂ * 2 ^ k + bit_or r₁ r₂
bit_or_split = split_at bit_or-IsDigitwise

pub bit_and_split :
    (k q₁ r₁ q₂ r₂ : ℕ)
    → r₁ < 2 ^ k
    → r₂ < 2 ^ k
    → bit_and (q₁ * 2 ^ k + r₁) (q₂ * 2 ^ k + r₂) ≡ bit_and q₁ q₂ * 2 ^ k + bit_and r₁ r₂
bit_and_split = split_at bit_and-IsDigitwise

pub bit_xor_split :
    (k q₁ r₁ q₂ r₂ : ℕ)
    → r₁ < 2 ^ k
    → r₂ < 2 ^ k
    → bit_xor (q₁ * 2 ^ k + r₁) (q₂ * 2 ^ k + r₂) ≡ bit_xor q₁ q₂ * 2 ^ k + bit_xor r₁ r₂
bit_xor_split = split_at bit_xor-IsDigitwise

-- A mask of `k` ones keeps a number of `k` digits.
bit_and_mask_below : (k r : ℕ) → r < 2 ^ k → bit_and r (2 ^ k - 1) ≡ r
bit_and_mask_below zero r h = ground (arith, bit_and-zero r)
bit_and_mask_below (suc k) r h = ground (
  arith,
  pow-suc 2 k,
  one-le-pow k 2,
  bit_and-IsDigitwise.step r (2 ^ suc k - 1),
  bit_and_mask_below k (r / 2),
)

bit_and_mask_fields : (k q r : ℕ) → r < 2 ^ k → bit_and (q * 2 ^ k + r) (2 ^ k - 1) ≡ r
bit_and_mask_fields k q r h = ground (
  arith,
  one-le-pow k 2,
  bit_and_split k q r 0 (2 ^ k - 1),
  bit_and-zero q,
  bit_and_mask_below k r,
)

-- It keeps the `k` low digits of any number.
pub bit_and_mask : (k a : ℕ) → bit_and a (2 ^ k - 1) ≡ a % 2 ^ k
bit_and_mask k a = ground (arith, one-le-pow k 2, bit_and_mask_fields k (a / 2 ^ k) (a % 2 ^ k))

-- `(q << k) | r` is a sum where `r` has `k` digits.
pub bit_or_fields : (k q r : ℕ) → r < 2 ^ k → bit_or (q * 2 ^ k) r ≡ q * 2 ^ k + r
bit_or_fields k q r h =
    ground (arith, one-le-pow k 2, bit_or_split k q 0 0 r, bit_or-zero q, zero-bit_or r)

-- So is `x | (c << k)` where `x` has the digits below `k` and those from `k + w` up, and `c` has `w`.
pub bit_or_between :
    (k w h c l : ℕ)
    → l < 2 ^ k
    → c < 2 ^ w
    → bit_or (h * 2 ^ w * 2 ^ k + l) (c * 2 ^ k) ≡ h * 2 ^ w * 2 ^ k + c * 2 ^ k + l
bit_or_between k w h c l p q = ground (
  arith,
  one-le-pow k 2,
  bit_or_split k (h * 2 ^ w) l c 0,
  ap (λ (t : ℕ). t * 2 ^ k) (bit_or_fields w h c q),
  bit_or-zero l,
)

differ_digit : (x y : ℕ) → x < 2 → y < 2 → differ x y < 2
differ_digit zero zero hx hy = omega arith
differ_digit zero (suc y) hx hy = omega arith
differ_digit (suc x) zero hx hy = omega arith
differ_digit (suc zero) (suc zero) hx hy = omega arith
differ_digit (suc zero) (suc (suc y)) hx hy = absurd (omega arith)
differ_digit (suc (suc x)) (suc y) hx hy = absurd (omega arith)

-- The results have no more digits than the operands.
pub bit_operations_below :
    (k x y : ℕ)
    → x < 2 ^ k
    → y < 2 ^ k
    → (bit_and x y < 2 ^ k) × (bit_or x y < 2 ^ k) × (bit_xor x y < 2 ^ k)
bit_operations_below k x y hx hy = (
  below bit_and-IsDigitwise (λ a b ha hb. omega arith) k x y hx hy,
  below bit_or-IsDigitwise (λ a b ha hb. omega arith) k x y hx hy,
  below bit_xor-IsDigitwise differ_digit k x y hx hy,
)

-- The lowest digit of `&` is clear where that of an operand is.
pub bit_and_even : (x y : ℕ) → y % 2 ≡ 0 → bit_and x y % 2 ≡ 0
bit_and_even x y h = omega (arith, bit_and-IsDigitwise.step x y)
