-- ===== src/Base/Binary.antt =====
-- The binary digits of a number, and what `&`, `1 << i` and `~` do to each of them.
use Prim.Native.Nat.{
  ℕ, zero, suc, ◌+◌, ◌-◌, ◌*◌, ◌/◌, ◌%◌, ◌^◌, ◌≤◌, ◌<◌, min, max, bit_and, bit_or, digits,
  bit_and-bitwise, bit_or-bitwise,
}
use mathlib.Core.Path.{◌≡◌, refl, ap, ◌∙◌}
use native.Mathlib.Nat.{pow-suc, one-le-pow}
use native.Mathlib.Omega.{arith}
use simplefs.Base.Booleans.{◌==◌, ltb, if◌then◌else◌}

-- Digit `i` of `w`, 0 or 1.
abbrev pub bit : ℕ → ℕ → ℕ
bit zero w = w % 2
bit (suc i) w = bit i (w / 2)

pub bit-le-one : (i w : ℕ) → bit i w ≤ 1
bit-le-one zero w = omega arith
bit-le-one (suc i) w = bit-le-one i (w / 2)

-- `bit_and` is a recursion on digits with fuel; any fuel from the first operand on serves.
and_fuel_irrelevant :
    (f g a b : ℕ) → a ≤ f → a ≤ g → digits (λ _. zero) min f a b ≡ digits (λ _. zero) min g a b
and_fuel_irrelevant zero zero a b p q = refl
and_fuel_irrelevant zero (suc g) zero b p q = refl
and_fuel_irrelevant zero (suc g) (suc a) b p q = absurd (omega arith)
and_fuel_irrelevant (suc f) zero zero b p q = refl
and_fuel_irrelevant (suc f) zero (suc a) b p q = absurd (omega arith)
and_fuel_irrelevant (suc f) (suc g) zero b p q = refl
and_fuel_irrelevant (suc f) (suc g) (suc a) b p q =
    rw (and_fuel_irrelevant f g (suc a / 2) (b / 2) (omega arith) (omega arith))

-- The lowest digit of `a & b`, and the rest.
pub bit_and_low : (a b : ℕ) → bit_and a b ≡ bit_and (a / 2) (b / 2) * 2 + min (a % 2) (b % 2)
bit_and_low zero b = omega (arith, bit_and-bitwise 0 b, bit_and-bitwise 0 (b / 2))
bit_and_low (suc a) b = omega (
  arith,
  bit_and-bitwise (suc a) b,
  bit_and-bitwise (suc a / 2) (b / 2),
  and_fuel_irrelevant a (suc a / 2) (suc a / 2) (b / 2) (omega arith) (omega arith),
)

bit_and_half : (a b : ℕ) → bit_and a b / 2 ≡ bit_and (a / 2) (b / 2)
bit_and_half a b = omega (arith, bit_and_low a b)

pub bit-bit_and : (i a b : ℕ) → bit i (bit_and a b) ≡ min (bit i a) (bit i b)
bit-bit_and zero a b = omega (arith, bit_and_low a b)
bit-bit_and (suc i) a b = rw (bit_and_half a b) (bit-bit_and i (a / 2) (b / 2))

bit_and-zero_right : (n a : ℕ) → a ≤ n → bit_and a 0 ≡ 0
bit_and-zero_right zero zero h = bit_and-bitwise 0 0
bit_and-zero_right zero (suc a) h = elim h [ ]
bit_and-zero_right (suc n) zero h = bit_and-bitwise 0 0
bit_and-zero_right (suc n) (suc a) h =
    omega (arith, bit_and_low (suc a) 0, bit_and-zero_right n (suc a / 2) (omega arith))

pow_half : (j : ℕ) → 2 ^ suc j / 2 ≡ 2 ^ j
pow_half j = omega (arith, pow-suc 2 j)

-- `w & (1 << i)` keeps digit `i` alone.
pub bit_and_pow : (i w : ℕ) → bit_and w (2 ^ i) ≡ bit i w * 2 ^ i
bit_and_pow zero w =
    omega (arith, bit_and_low w 1, bit_and-zero_right (w / 2) (w / 2) (omega arith))
bit_and_pow (suc i) w =
    rw (bit_and_low w (2 ^ suc i), pow_half i, bit_and_pow i (w / 2))
      (omega (arith, pow-suc 2 i, ap (λ (t : ℕ). bit i (w / 2) * t) (pow-suc 2 i)))

pub bit-zero : (i : ℕ) → bit i 0 ≡ 0
bit-zero zero = refl
bit-zero (suc i) = bit-zero i

-- The digits of `1 << j`.
pub bit-pow : (i j : ℕ) → bit i (2 ^ j) ≡ (if i == j then 1 else 0)
bit-pow zero zero = refl
bit-pow zero (suc j) = ground (arith, pow-suc 2 j)
bit-pow (suc i) zero = rw (bit-zero i) (ground arith)
bit-pow (suc i) (suc j) = rw (pow_half j) (ground (arith, bit-pow i j))

complement_half : (k m : ℕ) → m < 2 ^ suc k → (2 ^ suc k - 1 - m) / 2 ≡ 2 ^ k - 1 - m / 2
complement_half k m h = omega (arith, pow-suc 2 k, one-le-pow k 2)

-- The digits of `~m` in a word of `k` digits.
pub bit-complement : (k i m : ℕ) → i < k → m < 2 ^ k → bit i (2 ^ k - 1 - m) ≡ 1 - bit i m
bit-complement zero i m hi hm = elim hi [ ]
bit-complement (suc k) zero m hi hm = omega (arith, pow-suc 2 k, one-le-pow k 2)
bit-complement (suc k) (suc i) m hi hm =
    rw (complement_half k m hm)
      (bit-complement k i (m / 2) (omega arith) (omega (arith, pow-suc 2 k)))

pub pow_le : (i j : ℕ) → i ≤ j → 2 ^ i ≤ 2 ^ j
pow_le zero j h = one-le-pow j 2 (omega arith)
pow_le (suc i) zero h = elim h [ ]
pow_le (suc i) (suc j) h = omega (arith, pow_le i j (omega arith), pow-suc 2 i, pow-suc 2 j)

-- The digits of a mask of `k` ones.
pub bit_ones : (i k : ℕ) → bit i (2 ^ k - 1) ≡ (if ltb i k then 1 else 0)
bit_ones zero zero = refl
bit_ones (suc i) zero = rw (bit-zero i) (ground arith)
bit_ones zero (suc k) = ground (arith, pow-suc 2 k, one-le-pow k 2)
bit_ones (suc i) (suc k) =
    let half : (2 ^ suc k - 1) / 2 ≡ 2 ^ k - 1 = omega (arith, pow-suc 2 k, one-le-pow k 2) in
    rw half (ground (arith, bit_ones i k))

-- A word with a digit 1 is not 0.
pub ne_zero_of_bit : (i w : ℕ) → bit i w ≡ 1 → ¬ (w ≡ 0)
ne_zero_of_bit i w h e = omega (arith, ap (bit i) e, bit-zero i)

-- `bit_or` is such a recursion too; one round of it, for an even operand.
or_round :
    (n a q m : ℕ)
    → suc a ≡ 2 * q
    → digits (λ b. b) max (suc n) (suc a) m ≡ digits (λ b. b) max n q (m / 2) * 2 + m % 2
or_round n a q m even =
    let half : suc a / 2 ≡ q = omega (arith, even) in
    let low : suc a % 2 ≡ 0 = omega (arith, even) in rw (half, low) (omega arith)

or_rest : (n b : ℕ) → digits (λ c. c) max n 0 b ≡ b
or_rest zero b = refl
or_rest (suc n) b = refl

-- `(1 << j) | m` for `m` below `1 << j`.
or_digits : (j n m : ℕ) → 2 ^ j ≤ n → m < 2 ^ j → digits (λ b. b) max n (2 ^ j) m ≡ 2 ^ j + m
or_digits zero zero m fuel small = absurd (omega arith)
or_digits zero (suc n) m fuel small = omega (arith, or_rest n (m / 2))
or_digits (suc j) zero m fuel small = absurd (omega (arith, one-le-pow (suc j) 2))
or_digits (suc j) (suc n) m fuel small =
    let double = pow-suc 2 j in
    let pos = one-le-pow j 2 in
    let next : 2 ^ suc j ≡ suc (2 ^ suc j - 1) = omega (arith, double, pos) in
    ap (λ t. digits (λ b. b) max (suc n) t m) next
    ∙ or_round n (2 ^ suc j - 1) (2 ^ j) m (omega (arith, double, pos))
    ∙ omega
        (arith, double, or_digits j n (m / 2) (omega (arith, double, pos)) (omega (arith, double)))

pub or_below : (j m : ℕ) → m < 2 ^ j → bit_or (2 ^ j) m ≡ 2 ^ j + m
or_below j m small = bit_or-bitwise (2 ^ j) m ∙ or_digits j (2 ^ j) m (omega arith) small
