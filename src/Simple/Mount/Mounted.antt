-- ===== src/Simple/Mount/Mounted.antt =====
-- What a mount makes of a volume.
use simplefs.Base.{
  ℕ, zero, suc, ◌+◌, ◌≤◌, ◌<◌, ◌≡◌, ◌≢◌, refl, ap, sym, ◌∙◌, List, [], ◌∷◌, true, false, ◌&&◌, some,
  ◌==◌, if◌then◌else◌, ltb, bit, bit-zero, length, take, get_elem?, arith, Bool-cases, inl, inr,
  ◌▷◌,
}
use simplefs.Simple.Types.{Inode, ok, err, eperm, simplefs_magic}
use simplefs.Simple.State.{Volume, State, Kernel, no_locks, sb_bread, brelse}
use simplefs.Simple.Store.{get_inode}
use simplefs.Simple.Store.Counts.{slot_no, in_use, used_count}
use simplefs.Simple.Store.Soundness.{IsKernel, IsSound, IsSound-transport}
use simplefs.Simple.Mount.{MountEnv, fill_root, fill_imap_loop, fill_imap, make_root, fill_super}

-- The memory when a volume is about to be mounted.
abbrev pub completed_mount : MountEnv
completed_mount = record {
  info_alloc = true;
  super_read = true;
  new_inode = true;
  locked = true;
  allocated = true;
  root_made = true;
}

abbrev pub unmounted : Volume → State
unmounted v = record {
  cache = v;
  disk = v;
  imap = 0;
  locks = no_locks;
  refs = 0;
  vfs_inodes = 0;
  sfs_inodes = 0;
}

-- A volume whose inode store is in order: 128 slots, each inode in the slot of its number, none from
-- slot 63 on, and the superblock counts them.
pub record IsOrdered (v : Volume) : Type 0 where
  pub full : length v.store ≡ 128
  pub placed : (i : ℕ) → slot_no v.store i ≢ 0 → slot_no v.store i ≡ suc i
  pub small : (i : ℕ) → 63 ≤ i → slot_no v.store i ≡ 0
  pub counted : v.super.inodes_count ≡ used_count v.store

-- The slots of `l` hold inodes with the numbers from `from + 1` on, below 64.
abbrev IsPlacedFrom : List Inode → ℕ → Type 0
IsPlacedFrom l from = (i : ℕ) → slot_no l i ≢ 0 → (slot_no l i ≡ suc (from + i)) × (from + i < 63)

IsPlacedFrom-tail :
    (x : Inode) (xs : List Inode) (from : ℕ)
    → IsPlacedFrom (x ∷ xs) from
    → IsPlacedFrom xs (suc from)
IsPlacedFrom-tail x xs from placed i h = omega (arith, placed (suc i) h)

module _ (k : Kernel) (laws : IsKernel k) where
  abbrev step : Inode → ℕ → ℕ
  step x imap = if x.inode_no == 0 then imap else k.set_bit x.inode_no imap

  bit-step_other :
      (x : Inode) (xs : List Inode) (from imap n : ℕ)
      → IsPlacedFrom (x ∷ xs) from
      → n < 64
      → n ≢ suc from
      → bit n (step x imap) ≡ bit n imap
  bit-step_other x xs from imap n placed small other = elim (Bool-cases (x.inode_no == 0)) [
    | inl q ↦ rw q
    | inr q ↦
        let (number, below) = placed 0 (ground arith) in
        rw q (ground (arith, laws.bit-set_bit x.inode_no n imap, number, below))
  ]

  bit-step_here :
      (x : Inode) (xs : List Inode) (from imap n : ℕ)
      → IsPlacedFrom (x ∷ xs) from
      → n < 64
      → n ≡ suc from
      → bit n (step x imap) ≡ (if x.inode_no == 0 then bit n imap else 1)
  bit-step_here x xs from imap n placed small here = elim (Bool-cases (x.inode_no == 0)) [
    | inl q ↦ rw q
    | inr q ↦
        let (number, below) = placed 0 (ground arith) in
        rw q (ground (arith, laws.bit-set_bit x.inode_no n imap, number, below))
  ]

  -- The bits up to `from` stay as they are.
  bit-fill_imap_low :
      (l : List Inode) (from imap n : ℕ)
      → IsPlacedFrom l from
      → n < 64
      → n ≤ from
      → bit n (fill_imap_loop k l imap) ≡ bit n imap
  unfolding fill_imap_loop
  bit-fill_imap_low [] from imap n placed small low = refl
  bit-fill_imap_low (x ∷ xs) from imap n placed small low =
      bit-fill_imap_low xs (suc from) (step x imap) n (IsPlacedFrom-tail x xs from placed) small
        (omega arith)
      ∙ bit-step_other x xs from imap n placed small (omega arith)

  -- The bit of each slot in use is set, the others stay as they are.
  bit-fill_imap_loop :
      (l : List Inode) (from imap d n : ℕ)
      → IsPlacedFrom l from
      → n < 64
      → n ≡ suc (from + d)
      → bit n (fill_imap_loop k l imap) ≡ (if slot_no l d == 0 then bit n imap else 1)
  unfolding fill_imap_loop
  bit-fill_imap_loop [] from imap d n placed small eq = refl
  bit-fill_imap_loop (x ∷ xs) from imap zero n placed small eq =
      bit-fill_imap_low xs (suc from) (step x imap) n (IsPlacedFrom-tail x xs from placed) small
        (omega arith)
      ∙ bit-step_here x xs from imap n placed small (omega arith)
  bit-fill_imap_loop (x ∷ xs) from imap (suc d) n placed small eq =
      bit-fill_imap_loop xs (suc from) (step x imap) d n (IsPlacedFrom-tail x xs from placed) small
        (omega arith)
      ∙ ap (λ b. if slot_no xs d == 0 then b else 1)
          (bit-step_other x xs from imap n placed small (omega arith))

slot_no-take :
    (n : ℕ) (l : List Inode) (i : ℕ) → slot_no (take n l) i ≡ (if ltb i n then slot_no l i else 0)
slot_no-take zero l i = ground arith
slot_no-take (suc n) [] i = ground arith
slot_no-take (suc n) (x ∷ xs) zero = ground arith
slot_no-take (suc n) (x ∷ xs) (suc i) = ground (arith, slot_no-take n xs i)

-- Where the slots from 63 on are free, so many of the first slots are as good as all.
slot_no-take_small :
    (n : ℕ) (l : List Inode) (i : ℕ)
    → 63 ≤ n
    → ((j : ℕ) → 63 ≤ j → slot_no l j ≡ 0)
    → slot_no (take n l) i ≡ slot_no l i
slot_no-take_small n l i h small = elim (Bool-cases (ltb i n)) [
  | inl low ↦ slot_no-take n l i ∙ rw low
  | inr high ↦ slot_no-take n l i ∙ rw high (sym (small i (ground arith)))
]

take-IsPlacedFrom :
    (n : ℕ) (l : List Inode)
    → 63 ≤ n
    → ((j : ℕ) → 63 ≤ j → slot_no l j ≡ 0)
    → ((j : ℕ) → slot_no l j ≢ 0 → slot_no l j ≡ suc j)
    → IsPlacedFrom (take n l) 0
take-IsPlacedFrom n l h small placed i used =
    let same = slot_no-take_small n l i h small in
    let there : slot_no l i ≢ 0 = λ e. used (same ∙ e) in
    (omega (arith, same, placed i there), below there)
  where
    below : slot_no l i ≢ 0 → 0 + i < 63
    below there = elim (Bool-cases (ltb i 63)) [
      | inl low ↦ ground arith
      | inr high ↦ absurd (there (small i (ground arith)))
    ]

module _ (k : Kernel) (laws : IsKernel k) (v : Volume) (ordered : IsOrdered v) where
  taken-IsPlaced : IsPlacedFrom (take 127 v.store) 0
  taken-IsPlaced = take-IsPlacedFrom 127 v.store (omega arith) ordered.small ordered.placed

  bit-blank : (n : ℕ) → n < 64 → bit n (k.set_bit 0 0) ≡ (if 0 == n then 1 else 0)
  bit-blank n h =
      laws.bit-set_bit 0 n 0 (omega arith) h ∙ ap (λ b. if 0 == n then 1 else b) (bit-zero n)

  blank_above : (i : ℕ) → i < 63 → bit (suc i) (k.set_bit 0 0) ≡ 0
  blank_above i h = bit-blank (suc i) (omega arith) ∙ ground arith

  mapped_bit :
      (i : ℕ)
      → i < 63
      → bit (suc i) (fill_imap_loop k (take 127 v.store) (k.set_bit 0 0))
        ≡ in_use (slot_no v.store i)
  mapped_bit i h =
      bit-fill_imap_loop k laws (take 127 v.store) 0 (k.set_bit 0 0) i (suc i) taken-IsPlaced
        (omega arith) (omega arith)
      ∙ ap (λ n. if n == 0 then bit (suc i) (k.set_bit 0 0) else 1)
          (slot_no-take_small 127 v.store i (omega arith) ordered.small)
      ∙ ap (λ b. if slot_no v.store i == 0 then b else 1) (blank_above i h)

  fill_imap-IsSound : IsSound (fill_imap k (sb_bread (unmounted v)))
  unfolding fill_imap
  fill_imap-IsSound = record {
    full = ordered.full;
    placed = ordered.placed;
    small = ordered.small;
    mapped = mapped_bit;
    reserved =
        bit-fill_imap_low k laws (take 127 v.store) 0 (k.set_bit 0 0) 0 taken-IsPlaced (omega arith)
          (omega arith)
        ∙ bit-blank 0 (omega arith);
    counted = ordered.counted;
  }

  -- Mounting a volume with the right magic number and block size, whose inode store is in order and
  -- has inode 1, uninterrupted and with memory, succeeds with the store's inode 1 as the root. Then
  -- store, inode bitmap and count of inodes agree, nothing on the volume has changed, no lock is held
  -- and no buffer is kept.
  pub fill_super-IsSound :
      (root : Inode)
      → v.super.magic ≡ simplefs_magic
      → v.super.block_size ≡ 4096
      → get_elem? v.store 0 ≡ some root
      → let r = fill_super k completed_mount (unmounted v) in
        (r.0 ≡ ok (some root))
        × IsSound r.1
        × (r.1.cache ≡ v)
        × (r.1.disk ≡ v)
        × (r.1.locks ≡ no_locks)
        × (r.1.refs ≡ 0)
  unfolding fill_super fill_root get_inode make_root fill_imap
  fill_super-IsSound root magic size first =
      let is_magic : (v.super.magic == simplefs_magic) ≡ true = ground arith in
      let is_size : (v.super.block_size == 4096) ≡ true = ground arith in
      rw (is_magic, is_size, first)
        (refl, IsSound-transport filled _ refl refl refl fill_imap-IsSound, refl, refl, refl, refl)
    where
      filled : State
      filled = fill_imap k (sb_bread (unmounted v))

-- Where block 0 can be read and there is memory for `struct simplefs_sb_info`, a volume with another
-- magic number or another block size is refused with EPERM, and nothing is changed.
pub fill_super_refused :
    (k : Kernel) (e : MountEnv) (s : State)
    → e.super_read ≡ true
    → e.info_alloc ≡ true
    → ((s.cache.super.magic == simplefs_magic) && (s.cache.super.block_size == 4096)) ≡ false
    → fill_super k e s ≡ (err eperm, s)
unfolding fill_super fill_root
fill_super_refused k e s got memory h = elim (Bool-cases (s.cache.super.magic == simplefs_magic)) [
  | inr other ↦ rw (got, memory, other) (ap (λ t. (err eperm, t)) given_back)
  | inl magic ↦
      let size : (s.cache.super.block_size == 4096) ≡ false = rw magic at h in
      rw (got, memory, magic, size) (ap (λ t. (err eperm, t)) given_back)
]
  where
    given_back : (s ▷ sb_bread ▷ brelse) ≡ s
    given_back = ap (λ n. record s { refs = n }) (omega arith)
