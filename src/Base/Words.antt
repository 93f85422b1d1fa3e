-- ===== src/Base/Words.antt =====
-- Unsigned numbers as bytes, least byte first, and signed 32-bit and 64-bit arithmetic on them.
use Prim.Native.Nat.{ℕ, zero, suc, ◌+◌, ◌-◌, ◌*◌, ◌/◌, ◌%◌, ◌^◌, ◌<◌, ◌≤◌}
use mathlib.Core.Path.{◌≡◌, refl, ap}
use mathlib.Core.List.{List, [], ◌∷◌, ◌++◌}
use native.Mathlib.Nat.{pow-suc}
use mathlib.Core.Logic.{◌⊎◌, ◌↔◌}
use native.Mathlib.Omega.{arith}
use simplefs.Base.Lists.{length}
use simplefs.Base.Booleans.{ltb, if◌then◌else◌}

-- A little-endian integer of `n` bytes.
abbrev pub le_bytes : ℕ → ℕ → List ℕ
le_bytes zero w = []
le_bytes (suc n) w = (w % 256) ∷ le_bytes n (w / 256)

abbrev pub le_value : ℕ → List ℕ → ℕ
le_value zero bs = 0
le_value (suc n) [] = 0
le_value (suc n) (b ∷ bs) = b + 256 * le_value n bs

pub le_value-le_bytes :
    (n w : ℕ) (rest : List ℕ) → w < 256 ^ n → le_value n (le_bytes n w ++ rest) ≡ w
le_value-le_bytes zero w rest h = omega arith
le_value-le_bytes (suc n) w rest h =
    omega (arith, le_value-le_bytes n (w / 256) rest (omega (arith, pow-suc 256 n)))

pub length-le_bytes : (n w : ℕ) → length (le_bytes n w) ≡ n
length-le_bytes zero w = refl
length-le_bytes (suc n) w = ap suc (length-le_bytes n (w / 256))

-- `a - b` on 64-bit words.
abbrev pub sub64 : ℕ → ℕ → ℕ
sub64 a b = (a + 2 ^ 64 - b) % 2 ^ 64

-- A 64-bit word cast to `s32`, as its 32 bits, and such 32 bits as a 64-bit word again.
abbrev pub to_s32 : ℕ → ℕ
to_s32 x = x % 2 ^ 32

abbrev pub of_s32 : ℕ → ℕ
of_s32 w = if ltb w (2 ^ 31) then w else w + (2 ^ 64 - 2 ^ 32)

-- The words that `s32` can hold.
abbrev pub FitsS32 : ℕ → Type 0
FitsS32 x = (x < 2 ^ 31) ⊎ (2 ^ 64 - 2 ^ 31 ≤ x)

pub of_s32-to_s32 : (x : ℕ) → x < 2 ^ 64 → (of_s32 (to_s32 x) ≡ x) ↔ FitsS32 x
of_s32-to_s32 x h = (λ e. ground arith, λ f. ground arith)

pub of_s32_bound : (x : ℕ) → of_s32 (to_s32 x) < 2 ^ 64
of_s32_bound x = ground arith

-- A word is reached from another by the difference, and by no other word.
pub sub64_reaches :
    (a b x : ℕ) → a < 2 ^ 64 → b < 2 ^ 64 → x < 2 ^ 64 → ((a + x) % 2 ^ 64 ≡ b) ↔ (x ≡ sub64 b a)
sub64_reaches a b x ha hb hx = (λ e. omega arith, λ e. omega arith)
