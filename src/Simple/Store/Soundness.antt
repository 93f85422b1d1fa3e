-- ===== src/Simple/Store/Soundness.antt =====
-- The inode store, the inode bitmap and the count of inodes agree, and `simplefs_inode_add`,
-- `simplefs_inode_del` and `simplefs_inode_save` keep that.
use simplefs.Base.{
  ℕ, zero, suc, ◌+◌, ◌-◌, ◌^◌, ◌≤◌, ◌<◌, ◌≡◌, ◌≢◌, ◌⊎◌, refl, ap, sym, ◌∙◌, List, [], ◌∷◌, some,
  true, ◌==◌, ltb, if◌then◌else◌, arith, length, length-set, set, bit, Bool-cases, inl, inr, ◌▷◌,
}
use simplefs.Simple.Types.{Inode, zero_inode, ok}
use simplefs.Simple.State.{State, Kernel, mutex_lock_mgmt, mutex_lock_sb, sb_bread}
use simplefs.Simple.Super.{sb_sync}
use simplefs.Simple.Store.{
  inode_search, add_locked, inode_add, del_locked, inode_del, saved_state, inode_save,
}
use simplefs.Simple.Store.Counts.{
  slot_no, in_use, used_count, slot_no-set, used_count-set, used_count-le, used_count-pos,
}

-- The documented behaviour of the kernel's operations on a 64-bit word.
pub record IsKernel (k : Kernel) : Type 0 where
  pub bit-set_bit :
      (n j w : ℕ) → n < 64 → j < 64 → bit j (k.set_bit n w) ≡ (if n == j then 1 else bit j w)
  pub bit-clear_bit :
      (n j w : ℕ) → n < 64 → j < 64 → bit j (k.clear_bit n w) ≡ (if n == j then 0 else bit j w)
  -- `ffz` finds a zero bit where there is one
  pub ffz_clear : (j w : ℕ) → j < 64 → bit j w ≡ 0 → (k.ffz w < 64) × (bit (k.ffz w) w ≡ 0)

-- Each inode is in the slot of its number, the numbers in use are those of the bitmap, bit 0 is
-- reserved, and the superblock counts the inodes.
pub record IsSound (s : State) : Type 0 where
  pub full : length s.cache.store ≡ 128
  pub placed : (i : ℕ) → slot_no s.cache.store i ≢ 0 → slot_no s.cache.store i ≡ suc i
  pub small : (i : ℕ) → 63 ≤ i → slot_no s.cache.store i ≡ 0
  pub mapped : (i : ℕ) → i < 63 → bit (suc i) s.imap ≡ in_use (slot_no s.cache.store i)
  pub reserved : bit 0 s.imap ≡ 1
  pub counted : s.cache.super.inodes_count ≡ used_count s.cache.store

-- Soundness reads four parts of the state.
pub IsSound-transport :
    (s t : State)
    → t.cache.store ≡ s.cache.store
    → t.imap ≡ s.imap
    → t.cache.super.inodes_count ≡ s.cache.super.inodes_count
    → IsSound s
    → IsSound t
IsSound-transport s t store imap count h = record {
  full = ap length store ∙ h.full;
  placed = λ i. rw store (h.placed i);
  small = λ i b. ap (λ l. slot_no l i) store ∙ h.small i b;
  mapped = λ i b. rw (store, imap) (h.mapped i b);
  reserved = ap (bit 0) imap ∙ h.reserved;
  counted = rw (store, count) h.counted;
}

-- A slot in use is one of the first 63.
pub IsSound-below : (s : State) (i : ℕ) → IsSound s → slot_no s.cache.store i ≢ 0 → i < 63
IsSound-below s i sound h = elim (Bool-cases (ltb i 63)) [
  | inl low ↦ ground arith
  | inr high ↦ absurd (h (sound.small i (ground arith)))
]

-- A write to slot `n`, with the bitmap and the count that go with it.
pub record IsWritten (s t : State) (n : ℕ) (x : Inode) : Type 0 where
  pub store : t.cache.store ≡ set s.cache.store n x
  pub below : n < 63
  pub number : (x.inode_no ≡ 0) ⊎ (x.inode_no ≡ suc n)
  pub imap :
      (j : ℕ) → j < 64 → bit j t.imap ≡ (if suc n == j then in_use x.inode_no else bit j s.imap)
  pub count :
      t.cache.super.inodes_count + in_use (slot_no s.cache.store n)
      ≡ s.cache.super.inodes_count + in_use x.inode_no

pub IsWritten-IsSound :
    (s t : State) (n : ℕ) (x : Inode) → IsWritten s t n x → IsSound s → IsSound t
IsWritten-IsSound s t n x w sound = record {
  full = ap length w.store ∙ length-set s.cache.store n x ∙ sound.full;
  placed = λ i. rw w.store (ground (arith, at_slot i, w.number, sound.placed i));
  small = λ i b. rw w.store (ground (arith, at_slot i, w.below, sound.small i));
  mapped = λ i b. rw w.store (ground (arith, at_slot i, w.imap (suc i), sound.mapped i));
  reserved = ground (arith, w.imap 0, sound.reserved);
  counted =
      rw w.store (omega (arith, w.count, sound.counted, used_count-set s.cache.store n x inside));
}
  where
    inside : n < length s.cache.store
    inside = omega (arith, sound.full, w.below)

    at_slot :
        (i : ℕ)
        → slot_no (set s.cache.store n x) i
          ≡ (if n == i then x.inode_no else slot_no s.cache.store i)
    at_slot i = slot_no-set s.cache.store n i x inside

module _ (k : Kernel) (laws : IsKernel k) (s : State) (sound : IsSound s) where
  count-small : s.cache.super.inodes_count < 2 ^ 64 - 1
  count-small = omega (arith, sound.counted, used_count-le s.cache.store, sound.full)

  -- Adding an inode whose number is free.
  pub add_locked-IsWritten :
      (inode : Inode) (n : ℕ)
      → inode.inode_no ≡ suc n
      → n < 63
      → bit (suc n) s.imap ≡ 0
      → IsWritten s (add_locked k inode s) n inode
  unfolding add_locked sb_sync
  add_locked-IsWritten inode n number bound free = record {
    store = ap (λ i. set s.cache.store i inode) (omega arith);
    below = bound;
    number = inr number;
    imap = λ j b. ground (arith, laws.bit-set_bit inode.inode_no j s.imap);
    count = ground (arith, count-small, sound.mapped n);
  }

  -- Deleting an inode of the store.
  pub del_locked-IsWritten :
      (inode : Inode) (n : ℕ)
      → inode.inode_no ≡ suc n
      → slot_no s.cache.store n ≡ suc n
      → IsWritten s (del_locked k inode s) n zero_inode
  unfolding del_locked sb_sync
  del_locked-IsWritten inode n number there = record {
    store = ap (λ i. set s.cache.store i zero_inode) (omega (arith, bound));
    below = bound;
    number = inl refl;
    imap = λ j b. ground (arith, laws.bit-clear_bit inode.inode_no j s.imap, bound);
    count = ground (arith, count-small, sound.counted, used_count-pos s.cache.store n);
  }
    where
      bound : n < 63
      bound = IsSound-below s n sound (omega (arith, there))

-- The search finds the slot of an inode that is in the store, and nothing else.
inode_search-from :
    (k : Kernel) (from n : ℕ) (l : List Inode) (d : ℕ)
    → ((i : ℕ) → slot_no l i ≢ 0 → slot_no l i ≡ suc (from + i))
    → slot_no l d ≡ suc n
    → n ≡ from + d
    → inode_search k from (suc n) l ≡ some n
unfolding inode_search
inode_search-from k from n [] d placed there eq = absurd (omega arith)
inode_search-from k from n (x ∷ l) zero placed there eq = ground arith
inode_search-from k from n (x ∷ l) (suc d) placed there eq =
    ground (
      arith,
      placed 0,
      inode_search-from k (suc from) n l d (λ i h. omega (arith, placed (suc i) h)),
    )

pub inode_search-placed :
    (k : Kernel) (s : State) (n : ℕ)
    → IsSound s
    → slot_no s.cache.store n ≡ suc n
    → inode_search k 0 (suc n) s.cache.store ≡ some n
inode_search-placed k s n sound there =
    inode_search-from k 0 n s.cache.store n (λ i h. omega (arith, sound.placed i h)) there
      (omega arith)

-- `simplefs_inode_add` of an inode whose number is free, and `simplefs_inode_del` of one that is in
-- the store.
pub inode_add-IsSound :
    (k : Kernel) (s : State) (inode : Inode) (n : ℕ)
    → IsKernel k
    → IsSound s
    → inode.inode_no ≡ suc n
    → n < 63
    → bit (suc n) s.imap ≡ 0
    → IsSound (inode_add k true true inode s)
unfolding inode_add
inode_add-IsSound k s inode n laws sound number bound free =
    IsSound-transport (add_locked k inode s') (inode_add k true true inode s) refl refl refl (
      IsWritten-IsSound s' (add_locked k inode s') n inode
        (add_locked-IsWritten k laws s' sound' inode n number bound free) sound')
  where
    s' : State
    s' = s ▷ mutex_lock_mgmt ▷ sb_bread ▷ mutex_lock_sb

    sound' : IsSound s'
    sound' = IsSound-transport s s' refl refl refl sound

-- Saving an inode in its slot.
pub saved_state-IsSound :
    (s : State) (n : ℕ) (inode : Inode)
    → inode.inode_no ≡ suc n
    → slot_no s.cache.store n ≡ suc n
    → IsSound s
    → IsSound (saved_state n inode s)
saved_state-IsSound s n inode number there sound =
    IsWritten-IsSound s (saved_state n inode s) n inode
      (record {
        store = refl;
        below = below;
        number = inr number;
        imap = λ j b. elim (Bool-cases (suc n == j)) [
          | inl here ↦
              let same : suc n ≡ j = ground arith in
              rw here (ap (λ m. bit m s.imap) (sym same) ∙ sound.mapped n below ∙ ground arith)
          | inr other ↦ rw other
        ];
        count = ground (arith, there, number);
      })
      sound
  where
    below : n < 63
    below = IsSound-below s n sound (omega (arith, there))

pub inode_del-IsSound :
    (k : Kernel) (s : State) (inode : Inode) (n : ℕ)
    → IsKernel k
    → IsSound s
    → inode.inode_no ≡ suc n
    → slot_no s.cache.store n ≡ suc n
    → IsSound (inode_del k true true inode s)
unfolding inode_del
inode_del-IsSound k s inode n laws sound number there =
    IsSound-transport (del_locked k inode s') (inode_del k true true inode s) refl refl refl (
      IsWritten-IsSound s' (del_locked k inode s') n zero_inode
        (del_locked-IsWritten k laws s' sound' inode n number there) sound')
  where
    s' : State
    s' = s ▷ mutex_lock_mgmt ▷ sb_bread ▷ mutex_lock_sb

    sound' : IsSound s'
    sound' = IsSound-transport s s' refl refl refl sound

-- A save where the search finds the slot.
pub inode_save-found :
    (k : Kernel) (i : Inode) (s : State) (n : ℕ)
    → inode_search k 0 i.inode_no s.cache.store ≡ some n
    → inode_save k true i s ≡ (ok tt, saved_state n i s)
unfolding inode_save
inode_save-found k i s n h = rw (h, inode_save)
