-- ===== src/Simple/Machine.antt =====
-- A kernel that behaves as documented: the bit operations on a word, by its digits.
use simplefs.Base.{
  ℕ, zero, suc, ◌+◌, ◌*◌, ◌/◌, ◌%◌, ◌≤◌, ◌<◌, ◌≡◌, ap, ◌==◌, if◌then◌else◌, bit, arith, Bool-cases,
  inl, inr,
}
use simplefs.Simple.Types.{zero_record}
use simplefs.Simple.State.{Kernel}
use simplefs.Simple.Store.Soundness.{IsKernel}

-- Digit `n` of `w` becomes `b`.
abbrev pub put_bit : ℕ → ℕ → ℕ → ℕ
put_bit b zero w = w / 2 * 2 + b
put_bit b (suc n) w = put_bit b n (w / 2) * 2 + w % 2

bit-put_bit : (b n j w : ℕ) → b ≤ 1 → bit j (put_bit b n w) ≡ (if n == j then b else bit j w)
bit-put_bit b zero zero w h = omega arith
bit-put_bit b zero (suc j) w h =
    let half : (w / 2 * 2 + b) / 2 ≡ w / 2 = omega arith in rw half (ground arith)
bit-put_bit b (suc n) zero w h = ground arith
bit-put_bit b (suc n) (suc j) w h =
    let half : (put_bit b n (w / 2) * 2 + w % 2) / 2 ≡ put_bit b n (w / 2) = omega arith in
    rw half (ground (arith, bit-put_bit b n j (w / 2)))

-- The first zero digit from `i` on, among `n`.
abbrev pub zero_bit_from : ℕ → ℕ → ℕ → ℕ
zero_bit_from zero i w = i
zero_bit_from (suc n) i w = let rest = zero_bit_from n (suc i) w in if bit i w == 0 then i else rest

zero_bit_found :
    (n i j w : ℕ)
    → i ≤ j
    → j < i + n
    → bit j w ≡ 0
    → (zero_bit_from n i w < i + n) × (bit (zero_bit_from n i w) w ≡ 0)
zero_bit_found zero i j w a b c = absurd (omega arith)
zero_bit_found (suc n) i j w a b c = elim (Bool-cases (bit i w == 0)) [
  | inl z ↦ rw z (omega arith, ground arith)
  | inr s ↦ rw s (
      let later : suc i ≤ j = elim (Bool-cases (i == j)) [
        | inl e ↦ let same : i ≡ j = ground arith in absurd (ground (arith, ap (λ m. bit m w) same))
        | inr e ↦ ground arith
      ] in
      let (below, clear) = zero_bit_found n (suc i) j w later (omega arith) c in
      (omega (arith, below), clear))
]

abbrev pub machine : Kernel
machine = record {
  ffz = λ w. zero_bit_from 64 0 w;
  set_bit = put_bit 1;
  clear_bit = put_bit 0;
  wide_shift = λ i. 0;
  past_store = 0;
  stale = λ i. zero_record;
}

pub machine-IsKernel : IsKernel machine
machine-IsKernel = record {
  bit-set_bit = λ n j w a b. bit-put_bit 1 n j w (omega arith);
  bit-clear_bit = λ n j w a b. bit-put_bit 0 n j w (omega arith);
  ffz_clear = λ j w a b. zero_bit_found 64 0 j w (omega arith) a b;
}
