-- ===== src/Simple/Super/Blocks.antt =====
-- What `simplefs_sb_get_a_freeblock` does to the bitmap of free blocks.
use simplefs.Base.{
  ℕ, zero, suc, ◌+◌, ◌-◌, ◌*◌, ◌^◌, ◌≤◌, ◌<◌, ◌≡◌, ◌≢◌, refl, ap, ◌∙◌, true, false, ◌==◌, ltb,
  if◌then◌else◌, arith, bit, bit_and, bit_and_pow, bit-bit_and, bit-pow, bit-complement, bit-le-one,
  pow_le, bit_ones, ne_zero_of_bit, Bool-cases, inl, inr, ◌▷◌,
}
use native.Mathlib.Nat.{one-le-pow}
use simplefs.Simple.Types.{SuperBlock, ok}
use simplefs.Simple.State.{State, Kernel, mutex_lock_sb, mutex_unlock_sb, write_super}
use simplefs.Simple.Super.{
  shl_one, free_block_loop, first_free, take_block, sb_get_a_freeblock, sb_sync,
}

-- In the bits below 31, `1 << i` selects one block.
pub and-shl_one : (k : Kernel) (w i : ℕ) → i < 31 → bit_and w (shl_one k i) ≡ bit i w * 2 ^ i
unfolding shl_one
and-shl_one k w i h = let small : ltb i 31 ≡ true = ground arith in rw small (bit_and_pow i w)

test-shl_one : (k : Kernel) (w i : ℕ) → i < 31 → (bit_and w (shl_one k i) == 0) ≡ (bit i w == 0)
test-shl_one k w i h = elim (Bool-cases (bit i w == 0)) [
  | inl z ↦
      let b : bit i w ≡ 0 = ground arith in
      let p : bit i w * 2 ^ i ≡ 0 = ap (λ (t : ℕ). t * 2 ^ i) b ∙ omega arith in
      ground (arith, and-shl_one k w i h, p)
  | inr s ↦
      let b : bit i w ≡ 1 = ground (arith, bit-le-one i w) in
      let p : bit i w * 2 ^ i ≡ 1 * 2 ^ i = ap (λ (t : ℕ). t * 2 ^ i) b in
      ground (arith, and-shl_one k w i h, p, one-le-pow i 2)
]

-- From a block on, the loop stops at the first free block, if one is below 31.
pub record IsFirstFree (w from i : ℕ) : Type 0 where
  pub low : from ≤ i
  pub free : bit i w ≡ 1
  pub taken : (j : ℕ) → from ≤ j → j < i → bit j w ≡ 0

IsFirstFree-back :
    (w from i : ℕ) → bit from w ≡ 0 → IsFirstFree w (suc from) i → IsFirstFree w from i
IsFirstFree-back w from i z f = record {
  low = omega (arith, f.low);
  free = f.free;
  taken = λ j p q. elim (Bool-cases (j == from)) [
    | inl e ↦ let same : j ≡ from = ground arith in ap (λ m. bit m w) same ∙ z
    | inr e ↦ f.taken j (ground arith) q
  ];
}

pub free_block_loop-IsFirstFree :
    (k : Kernel) (w n from target : ℕ)
    → from ≤ target
    → target < 31
    → target < from + n
    → bit target w ≡ 1
    → IsFirstFree w from (free_block_loop k w n from) × (free_block_loop k w n from ≤ target)
unfolding free_block_loop
free_block_loop-IsFirstFree k w zero from target a b c d = absurd (omega arith)
free_block_loop-IsFirstFree k w (suc n) from target a b c d = elim (Bool-cases (bit from w == 0)) [
  | inl z ↦
      let (f, le) =
        free_block_loop-IsFirstFree k w n (suc from) target (ground arith) b (omega arith) d in
      rw (test-shl_one k w from (omega arith), z) (IsFirstFree-back w from _ (ground arith) f, le)
  | inr s ↦
      rw (test-shl_one k w from (omega arith), s)
        (
          record {
            low = omega arith;
            free = ground (arith, bit-le-one from w);
            taken = λ j p q. absurd (omega arith);
          },
          a,
        )
]

-- No block below 31 is free: the loop comes to 31.
free_block_loop_exhausted :
    (k : Kernel) (w n d r from : ℕ)
    → from + d ≡ 31
    → r ≡ d + n
    → ((j : ℕ) → from ≤ j → j < 31 → bit j w ≡ 0)
    → free_block_loop k w r from ≡ free_block_loop k w n 31
unfolding free_block_loop
free_block_loop_exhausted k w n zero r from e q taken =
    let same_rounds : r ≡ n = omega arith in
    let here : from ≡ 31 = omega arith in
    ap (λ t. free_block_loop k w t from) same_rounds ∙ ap (free_block_loop k w n) here
free_block_loop_exhausted k w n (suc d) zero from e q taken = absurd (omega arith)
free_block_loop_exhausted k w n (suc d) (suc r) from e q taken =
    let none_here : (bit from w == 0) ≡ true = ground (arith, taken from) in
    rw (test-shl_one k w from (omega arith), none_here)
      (free_block_loop_exhausted k w n d r (suc from) (omega arith) (omega arith)
        (λ j a b. taken j (omega arith) b))

-- The bits of the bitmap once a block below 31 is taken.
pub bit-take_block :
    (k : Kernel) (i j : ℕ) (sb : SuperBlock)
    → i < 31
    → j < 64
    → bit j (take_block k i sb).free_blocks ≡ (if i == j then 0 else bit j sb.free_blocks)
unfolding take_block shl_one
bit-take_block k i j sb hi hj =
    let small : ltb i 31 ≡ true = ground arith in
    let w = sb.free_blocks in
    rw
      (
        small,
        bit-bit_and j w (2 ^ 64 - 1 - 2 ^ i),
        bit-complement 64 j (2 ^ i) hj (omega (arith, pow_le i 31 (omega arith))),
        bit-pow j i,
      )
      (ground (arith, bit-le-one j w))

-- Bit 31 of an `int` is its sign, so that `1 << 31` selects the 33 upper bits of a 64-bit word.
take_block_sign :
    (k : Kernel) (j : ℕ) (sb : SuperBlock) → 31 ≤ j → bit j (take_block k 31 sb).free_blocks ≡ 0
unfolding take_block shl_one
take_block_sign k j sb h =
    rw (bit-bit_and j sb.free_blocks (2 ^ 31 - 1), bit_ones j 31)
      (ground (arith, bit-le-one j sb.free_blocks))

sign-test :
    (k : Kernel) (w t : ℕ) → 31 ≤ t → t < 64 → bit t w ≡ 1 → (bit_and w (shl_one k 31) == 0) ≡ false
unfolding shl_one
sign-test k w t low high free =
    let ones : bit t (2 ^ 64 - 2 ^ 31) ≡ 1 =
      bit-complement 64 t (2 ^ 31 - 1) high (omega arith) ∙ rw (bit_ones t 31) (ground arith) in
    let both : bit t (bit_and w (2 ^ 64 - 2 ^ 31)) ≡ 1 =
      bit-bit_and t w (2 ^ 64 - 2 ^ 31) ∙ ground arith in
    ground (arith, ne_zero_of_bit t (bit_and w (2 ^ 64 - 2 ^ 31)) both)

stop_at_sign :
    (k : Kernel) (w n t : ℕ) → 31 ≤ t → t < 64 → bit t w ≡ 1 → free_block_loop k w (suc n) 31 ≡ 31
unfolding free_block_loop
stop_at_sign k w n t low high free = rw (sign-test k w t low high free)

pub first_free-small :
    (k : Kernel) (w target : ℕ) → 3 ≤ target → target < 31 → bit target w ≡ 1 → first_free k w < 31
first_free-small k w target low high free =
    omega (arith, (free_block_loop-IsFirstFree k w 61 3 target low high (omega arith) free).1)

-- The state after block `first_free` is taken.
abbrev pub alloc_state : Kernel → State → State
alloc_state k s =
    s
    ▷ mutex_lock_sb
    ▷ write_super (take_block k (first_free k s.cache.super.free_blocks) s.cache.super)
    ▷ sb_sync
    ▷ mutex_unlock_sb

pub sb_get_a_freeblock-found :
    (k : Kernel) (s : State)
    → first_free k s.cache.super.free_blocks < 31
    → sb_get_a_freeblock k true s ≡ (ok (first_free k s.cache.super.free_blocks), alloc_state k s)
unfolding sb_get_a_freeblock
sb_get_a_freeblock-found k s h =
    let found : (first_free k s.cache.super.free_blocks == 64) ≡ false = ground arith in rw found

-- A block from 3 on is free: what the call hands out and leaves.
pub record IsAllocated (k : Kernel) (s : State) (i : ℕ) (s' : State) : Type 0 where
  pub first : IsFirstFree s.cache.super.free_blocks 3 i
  pub taken : bit i s'.cache.super.free_blocks ≡ 0
  pub kept :
      (j : ℕ) → j < 64 → j ≢ i → bit j s'.cache.super.free_blocks ≡ bit j s.cache.super.free_blocks
  pub synced : s'.disk.super ≡ s'.cache.super

-- If one of the blocks 3 to 30 is free, an uninterrupted call returns the first free block: it was
-- free, no block from 3 on below it was, afterwards it is taken and every other block is as
-- before, and the superblock on disk is the one in memory.
pub sb_get_a_freeblock-IsAllocated :
    (k : Kernel) (s : State) (target : ℕ)
    → 3 ≤ target
    → target < 31
    → bit target s.cache.super.free_blocks ≡ 1
    → (i : ℕ) × ((sb_get_a_freeblock k true s).0 ≡ ok i)
      × IsAllocated k s i (sb_get_a_freeblock k true s).1
unfolding sb_get_a_freeblock sb_sync
sb_get_a_freeblock-IsAllocated k s target low high free =
    let w = s.cache.super.free_blocks in
    let (f, le) = free_block_loop-IsFirstFree k w 61 3 target low high (omega arith) free in
    let found : (first_free k w == 64) ≡ false = ground arith in
    (
      first_free k w,
      rw found,
      rw found (record {
        first = f;
        taken =
            bit-take_block k (first_free k w) (first_free k w) s.cache.super (omega arith)
              (omega arith)
            ∙ ground arith;
        kept = λ j b ne.
            bit-take_block k (first_free k w) j s.cache.super (omega arith) b ∙ ground arith;
        synced = refl;
      }),
    )

-- If none of the blocks 3 to 30 is free and one of 31 to 63 is, an uninterrupted call returns 31,
-- and afterwards no block from 31 on is free any more.
pub sb_get_a_freeblock-sign :
    (k : Kernel) (s : State) (target j : ℕ)
    → ((i : ℕ) → 3 ≤ i → i < 31 → bit i s.cache.super.free_blocks ≡ 0)
    → 31 ≤ target
    → target < 64
    → bit target s.cache.super.free_blocks ≡ 1
    → 31 ≤ j
    → let r = sb_get_a_freeblock k true s in (r.0 ≡ ok 31) × (bit j r.1.cache.super.free_blocks ≡ 0)
unfolding sb_get_a_freeblock sb_sync
sb_get_a_freeblock-sign k s target j taken low high free above =
    rw at_sign (refl, take_block_sign k j s.cache.super above)
  where
    at_sign : first_free k s.cache.super.free_blocks ≡ 31
    at_sign =
        free_block_loop_exhausted k s.cache.super.free_blocks 33 28 61 3 refl refl taken
        ∙ stop_at_sign k s.cache.super.free_blocks 32 target low high free
