-- ===== src/Simple/Objects/Unlinked.antt =====
-- What an uninterrupted `simplefs_unlink` leaves in memory and on the disk.
use simplefs.Base.{
  ℕ, suc, ◌<◌, ◌≡◌, ◌≢◌, refl, ap, sym, ◌∙◌, List, ◌∷◌, true, none, some, ◌==◌, ==_refl, ==_false,
  if◌then◌else◌, arith, length, set, Bool-cases, inl, inr,
}
use mathlib.Core.Path.{subst}
use simplefs.Simple.Types.{
  Inode, DirRecord, zero_record, zero_inode, as_records, Outcome, ok, u64_dec,
}
use simplefs.Simple.State.{State, Kernel, no_locks}
use simplefs.Simple.Super.{sb_sync}
use simplefs.Simple.Store.{inode_search, inode_del, del_locked, saved_state}
use simplefs.Simple.Store.Counts.{slot_no, slot_no-set}
use simplefs.Simple.Store.Soundness.{
  IsKernel, IsSound, IsSound-transport, IsSound-below, saved_state-IsSound, inode_del-IsSound,
  inode_search-placed, inode_save-found,
}
use simplefs.Simple.Directory.{DirCache, CacheEntry, used_cache_entry_get, list_del}
use simplefs.Simple.Directory.Coherence.{IsCoherent}
use simplefs.Simple.Directory.Slots.{HasUniqueNames, get-list_del_self}
use simplefs.Simple.Directory.Updates.{give-IsCoherent}
use simplefs.Simple.Objects.{
  Dentry, drop_child, write_record, unlink, unlink_cached, unlink_found, unlink_entry,
}

-- What an unlink needs: the name is in the directory's cache, and the child and its parent are
-- different inodes of the store.
pub record CanUnlink (s : State) (dir : Dentry) (cache : DirCache) (name : List ℕ)
    (found : CacheEntry) (child : Inode) : Type 0 where
  pub sound : IsSound s
  pub unlocked : s.locks ≡ no_locks
  pub parent_slot : ℕ
  pub parent_no : dir.d_inode.inode_no ≡ suc parent_slot
  pub parent_stored : slot_no s.cache.store parent_slot ≡ suc parent_slot
  pub child_slot : ℕ
  pub child_no : child.inode_no ≡ suc child_slot
  pub child_stored : slot_no s.cache.store child_slot ≡ suc child_slot
  pub apart : child_slot ≢ parent_slot
  pub cached : dir.d_fsdata ≡ some cache
  pub coherent : IsCoherent cache (as_records (s.cache.data_block dir.d_inode.data_block_number))
  pub named : used_cache_entry_get cache.used name ≡ some found

abbrev pub UnlinkResult : Type 0
UnlinkResult = Outcome (Unit {0}) × Dentry × State

-- The child's slot of the store is free and counted off, the parent has one child less, the other
-- slots keep their numbers; the block bitmap is as before.
pub record IsUnlinked (s : State) (dir : Dentry) (parent_slot child_slot : ℕ) (r : UnlinkResult)
    : Type 0 where
  pub result : r.0 ≡ ok tt
  pub gone : slot_no r.2.cache.store child_slot ≡ 0
  pub parent : r.1.d_inode ≡ drop_child dir.d_inode
  pub others : (i : ℕ) → i ≢ child_slot → slot_no r.2.cache.store i ≡ slot_no s.cache.store i
  pub count : r.2.cache.super.inodes_count ≡ u64_dec s.cache.super.inodes_count
  pub blocks_kept : r.2.cache.super.free_blocks ≡ s.cache.super.free_blocks

module _ (k : Kernel) (laws : IsKernel k) (dir : Dentry) (cache : DirCache) (name : List ℕ)
    (found : CacheEntry) (child : Inode) (s : State)
    (can : CanUnlink s dir cache name found child) where
  open can use {parent_slot, child_slot}

  abbrev pub cleared : State
  cleared = write_record dir.d_inode.data_block_number found.entry_no zero_record s

  abbrev pub saved : State
  saved = saved_state parent_slot (drop_child dir.d_inode) cleared

  abbrev pub last : State
  last = inode_del k true true child saved

  abbrev pub left_cache : DirCache
  left_cache = record {
    dir_children_count = u64_dec cache.dir_children_count;
    used = list_del found.entry_no cache.used;
    free = found ∷ cache.free;
  }

  abbrev pub left_dir : Dentry
  left_dir = record { d_inode = drop_child dir.d_inode; d_fsdata = some left_cache }

  parent_found : inode_search k 0 dir.d_inode.inode_no cleared.cache.store ≡ some parent_slot
  unfolding write_record
  parent_found = rw can.parent_no (inode_search-placed k s parent_slot can.sound can.parent_stored)

  pub unlink_final : unlink k true true true dir name child s ≡ (ok tt, left_dir, last)
  unfolding unlink unlink_cached unlink_found unlink_entry
  unlink_final =
      ap (unlink_cached k true true true dir name child s) can.cached
      ∙ ap (unlink_found k true true true dir cache child s) can.named
      ∙ ap (λ (r : Outcome (Unit {0}) × State). (ok tt, left_dir, inode_del k true true child r.1))
          (inode_save-found k (drop_child dir.d_inode) cleared parent_slot parent_found)

  cleared-IsSound : IsSound cleared
  unfolding write_record
  cleared-IsSound = IsSound-transport s cleared refl refl refl can.sound

  parent_inside : parent_slot < length s.cache.store
  parent_inside = omega (
    arith,
    IsSound-below s parent_slot can.sound (omega (arith, can.parent_stored)),
    can.sound.full,
  )

  child_inside : child_slot < 63
  child_inside = IsSound-below s child_slot can.sound (omega (arith, can.child_stored))

  saved_slots : (i : ℕ) → slot_no saved.cache.store i ≡ slot_no s.cache.store i
  unfolding write_record
  saved_slots i =
      slot_no-set s.cache.store parent_slot i (drop_child dir.d_inode) parent_inside
      ∙ elim (Bool-cases (parent_slot == i)) [
        | inl here ↦
            let same : parent_slot ≡ i = ground arith in
            rw here (can.parent_no ∙ sym can.parent_stored ∙ ap (slot_no s.cache.store) same)
        | inr other ↦ rw other
      ]

  child_kept : slot_no saved.cache.store child_slot ≡ suc child_slot
  child_kept = saved_slots child_slot ∙ can.child_stored

  saved-IsSound : IsSound saved
  unfolding write_record
  saved-IsSound =
      saved_state-IsSound cleared parent_slot (drop_child dir.d_inode) can.parent_no
        can.parent_stored cleared-IsSound

  last-IsSound : IsSound last
  last-IsSound =
      inode_del-IsSound k saved child child_slot laws saved-IsSound can.child_no child_kept

  at_child : u64_dec child.inode_no ≡ child_slot
  at_child = omega (arith, can.child_no, child_inside)

  last_slots :
      (i : ℕ)
      → slot_no last.cache.store i ≡ (if child_slot == i then 0 else slot_no s.cache.store i)
  unfolding inode_del del_locked sb_sync
  last_slots i = rw at_child (
      slot_no-set saved.cache.store child_slot i zero_inode
        (omega (arith, saved-IsSound.full, child_inside))
      ∙ ap (λ n. if child_slot == i then 0 else n) (saved_slots i))

  last-IsUnlinked : IsUnlinked s dir parent_slot child_slot (ok tt, left_dir, last)
  unfolding inode_del del_locked sb_sync write_record
  last-IsUnlinked = record {
    result = refl;
    gone = last_slots child_slot ∙ rw (==_refl child_slot);
    parent = refl;
    others = λ i a. last_slots i ∙ rw (==_false child_slot i (λ e. a (sym e)));
    count = refl;
    blocks_kept = refl;
  }

  abbrev old_records : List DirRecord
  old_records = as_records (s.cache.data_block dir.d_inode.data_block_number)

  last-records :
      as_records (last.cache.data_block dir.d_inode.data_block_number)
      ≡ set old_records found.entry_no zero_record
  unfolding inode_del del_locked sb_sync write_record as_records
  last-records = rw (==_refl dir.d_inode.data_block_number)

  left-IsCoherent :
      IsCoherent left_cache (as_records (last.cache.data_block dir.d_inode.data_block_number))
  left-IsCoherent = subst (IsCoherent left_cache) (sym last-records) (
      give-IsCoherent cache old_records name found (u64_dec cache.dir_children_count) can.coherent
        can.named)

  -- In a sound state with no lock held, where child and parent are different inodes of the store and
  -- the name is in the parent's cache, which is that of its block (this is `CanUnlink`), an
  -- uninterrupted unlink returns 0. The child's slot of the inode store is free and its count taken
  -- off, the parent has one child less, and the other slots keep their inode numbers. The bitmap of
  -- free blocks is unchanged: the child's block is not given back.
  pub unlink-IsUnlinked :
      IsUnlinked s dir parent_slot child_slot (unlink k true true true dir name child s)
  unlink-IsUnlinked =
      subst (IsUnlinked s dir parent_slot child_slot) (sym unlink_final) last-IsUnlinked

  -- An uninterrupted unlink with all that `CanUnlink` asks for keeps the inode store, the inode bitmap
  -- and the count of inodes in agreement, and the parent's cache is that of its block.
  pub unlink-IsSound :
      let r = unlink k true true true dir name child s in
      IsSound r.2
      × ((c : DirCache) × (r.1.d_fsdata ≡ some c)
          × IsCoherent c (as_records (r.2.cache.data_block dir.d_inode.data_block_number)))
  unlink-IsSound =
      subst
        (λ (r : UnlinkResult).
          IsSound r.2
          × ((c : DirCache) × (r.1.d_fsdata ≡ some c)
              × IsCoherent c (as_records (r.2.cache.data_block dir.d_inode.data_block_number))))
        (sym unlink_final) (last-IsSound, (left_cache, refl, left-IsCoherent))

  -- Where no two entries of the directory have one name, the name is not in the directory's cache
  -- after an uninterrupted unlink with all that `CanUnlink` asks for.
  pub unlink-name_gone :
      HasUniqueNames cache.used
      → let r = unlink k true true true dir name child s in
        (c : DirCache) × (r.1.d_fsdata ≡ some c) × (used_cache_entry_get c.used name ≡ none)
  unlink-name_gone unique =
      subst
        (λ (r : UnlinkResult).
          (c : DirCache) × (r.1.d_fsdata ≡ some c) × (used_cache_entry_get c.used name ≡ none))
        (sym unlink_final) (left_cache, refl, gone)
    where
      gone : used_cache_entry_get (list_del found.entry_no cache.used) name ≡ none
      gone =
          ap (λ l. used_cache_entry_get (list_del found.entry_no l) name) can.coherent.used_eq
          ∙ get-list_del_self 0 old_records name found
              (subst HasUniqueNames can.coherent.used_eq unique)
              (ap (λ l. used_cache_entry_get l name) (sym can.coherent.used_eq) ∙ can.named)

  child_on_disk : slot_no last.disk.store child_slot ≡ suc child_slot
  unfolding inode_del del_locked sb_sync
  child_on_disk = child_kept

  disk_after :
      (last.locks ≡ no_locks)
      × (last.refs ≡ s.refs)
      × (last.disk.super ≡ last.cache.super)
      × (last.disk.data_block dir.d_inode.data_block_number
          ≡ last.cache.data_block dir.d_inode.data_block_number)
      × (slot_no last.disk.store child_slot ≡ suc child_slot)
  unfolding inode_del del_locked sb_sync write_record
  disk_after = (
    rw can.unlocked,
    omega arith,
    refl,
    rw (==_refl dir.d_inode.data_block_number),
    child_on_disk,
  )

  -- After an uninterrupted unlink with all that `CanUnlink` asks for, no lock is held and no buffer is
  -- kept. The disk has the superblock and the directory's block of memory, but the child is still in
  -- its slot of the inode store on the disk.
  pub unlink_disk :
      let t = (unlink k true true true dir name child s).2 in
      (t.locks ≡ no_locks)
      × (t.refs ≡ s.refs)
      × (t.disk.super ≡ t.cache.super)
      × (t.disk.data_block dir.d_inode.data_block_number
          ≡ t.cache.data_block dir.d_inode.data_block_number)
      × (slot_no t.disk.store child_slot ≡ suc child_slot)
  unlink_disk =
      subst
        (λ (r : UnlinkResult).
          (r.2.locks ≡ no_locks)
          × (r.2.refs ≡ s.refs)
          × (r.2.disk.super ≡ r.2.cache.super)
          × (r.2.disk.data_block dir.d_inode.data_block_number
              ≡ r.2.cache.data_block dir.d_inode.data_block_number)
          × (slot_no r.2.disk.store child_slot ≡ suc child_slot))
        (sym unlink_final) disk_after
