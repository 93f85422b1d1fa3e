-- ===== src/Simple/Objects/Created.antt =====
-- What a successful `simplefs_create_fs_object` leaves in memory and on the disk.
use simplefs.Base.{
  ℕ, suc, ◌<◌, ◌≡◌, ◌≢◌, refl, ap, sym, ◌∙◌, List, some, ==_refl, arith, bit, length, length-set,
  get_elem?, get_elem?-set_self, get_elem?-set_ne, set,
}
use mathlib.Core.Path.{subst}
use simplefs.Simple.Types.{Inode, DirRecord, as_records, ok}
use simplefs.Simple.State.{State, Kernel, no_locks, mutex_lock_mgmt}
use simplefs.Simple.Super.{sb_sync, take_block}
use simplefs.Simple.Super.Blocks.{bit-take_block}
use simplefs.Simple.Store.{inode_add, add_locked, saved_state}
use simplefs.Simple.Store.Counts.{slot_no}
use simplefs.Simple.Store.Soundness.{
  IsKernel, IsSound, IsSound-transport, IsSound-below, saved_state-IsSound,
}
use simplefs.Simple.Directory.{DirCache, CacheEntry}
use simplefs.Simple.Directory.Coherence.{IsCoherent}
use simplefs.Simple.Directory.Updates.{take-IsCoherent}
use simplefs.Simple.Objects.{
  CreateResult, Dentry, vfs_inode, add_child, write_record, create_fs_object,
}
use simplefs.Simple.Objects.Create.{
  granted, CanCreate, new_inode, new_record, new_cache, new_slot, final_dir, final, create_final,
  number_is, number_clear, new_free, apart, at_new, added-IsSound, added, recorded, parent_kept,
  block_small,
}

-- The new inode has a free number, its slot of the inode store and a free data block, which is
-- taken; the parent is in the store with one child more.
pub record IsCreated (s : State) (dir : Dentry) (parent_slot mode : ℕ) (r : CreateResult)
    : Type 0 where
  pub inode : Inode
  pub slot : ℕ
  pub result : r.0 ≡ ok (vfs_inode inode)
  pub mode_is : inode.mode ≡ mode
  pub empty : inode.file_size ≡ 0
  pub number : inode.inode_no ≡ suc slot
  pub was_free : slot_no s.cache.store slot ≡ 0
  pub stored : get_elem? r.2.cache.store slot ≡ some inode
  pub parent : r.1.d_inode ≡ add_child dir.d_inode
  pub parent_stored : get_elem? r.2.cache.store parent_slot ≡ some (add_child dir.d_inode)
  pub others :
      (i : ℕ) → i ≢ slot → i ≢ parent_slot → get_elem? r.2.cache.store i ≡ get_elem? s.cache.store i
  pub block_taken : bit inode.data_block_number r.2.cache.super.free_blocks ≡ 0

-- Everything that the call has changed is on the disk, every lock is released, and every buffer.
pub record IsSettled (s : State) (block : ℕ) (t : State) : Type 0 where
  pub unlocked : t.locks ≡ no_locks
  pub released : t.refs ≡ s.refs
  pub super_synced : t.disk.super ≡ t.cache.super
  pub store_synced : t.disk.store ≡ t.cache.store
  pub block_synced : t.disk.data_block block ≡ t.cache.data_block block

module _ (k : Kernel) (laws : IsKernel k) (dir : Dentry) (cache : DirCache) (slot : CacheEntry)
    (name : List ℕ) (mode : ℕ) (s : State) (can : CanCreate s dir cache slot name mode) where
  open can use {parent_slot}

  abbrev pub fresh : Inode
  fresh = new_inode k laws dir cache slot name mode s can

  abbrev pub last : State
  last = final k laws dir cache slot name mode s can

  abbrev pub place : ℕ
  place = new_slot k laws dir cache slot name mode s can

  final-store :
      last.cache.store ≡ set (set s.cache.store place fresh) parent_slot (add_child dir.d_inode)
  unfolding inode_add add_locked write_record sb_sync
  final-store =
      ap (λ i. set (set s.cache.store i fresh) parent_slot (add_child dir.d_inode))
        (at_new k laws dir cache slot name mode s can)

  place_inside : place < length s.cache.store
  place_inside = omega (
    arith,
    number_is k laws dir cache slot name mode s can,
    number_clear k laws dir cache slot name mode s can,
    can.sound.full,
  )

  parent_inside : parent_slot < length s.cache.store
  parent_inside = omega (
    arith,
    IsSound-below s parent_slot can.sound (omega (arith, can.parent_stored)),
    can.sound.full,
  )

  other_slot : parent_slot ≢ place
  other_slot e = apart k laws dir cache slot name mode s can (sym e)

  pub final-stored : get_elem? last.cache.store place ≡ some fresh
  final-stored =
      ap (λ l. get_elem? l place) final-store
      ∙ get_elem?-set_ne (set s.cache.store place fresh) parent_slot place _ other_slot
      ∙ get_elem?-set_self s.cache.store place fresh place_inside

  final-super :
      last.cache.super.free_blocks
      ≡ (take_block k fresh.data_block_number s.cache.super).free_blocks
  unfolding inode_add add_locked write_record sb_sync take_block
  final-super = refl

  small_block : fresh.data_block_number < 31
  small_block = block_small k laws dir cache slot name mode s can

  block_taken : bit fresh.data_block_number last.cache.super.free_blocks ≡ 0
  block_taken =
      ap (bit fresh.data_block_number) final-super
      ∙ bit-take_block k fresh.data_block_number fresh.data_block_number s.cache.super small_block
          (omega (arith, small_block))
      ∙ rw (==_refl fresh.data_block_number)

  final-IsCreated :
      IsCreated s dir parent_slot mode
        (ok (vfs_inode fresh), final_dir k laws dir cache slot name mode s can, last)
  final-IsCreated = record {
    inode = fresh;
    slot = place;
    result = refl;
    mode_is = refl;
    empty = refl;
    number = number_is k laws dir cache slot name mode s can;
    was_free = new_free k laws dir cache slot name mode s can;
    stored = final-stored;
    parent = refl;
    parent_stored =
        ap (λ l. get_elem? l parent_slot) final-store
        ∙ get_elem?-set_self (set s.cache.store place fresh) parent_slot _
            (omega (arith, parent_inside, length-set s.cache.store place fresh));
    others = λ i a b.
        ap (λ l. get_elem? l i) final-store
        ∙ get_elem?-set_ne (set s.cache.store place fresh) parent_slot i _ (λ e. b (sym e))
        ∙ get_elem?-set_ne s.cache.store place i fresh (λ e. a (sym e));
    block_taken = block_taken;
  }

  final-IsSettled : IsSettled s dir.d_inode.data_block_number last
  unfolding inode_add add_locked write_record sb_sync
  final-IsSettled = record {
    unlocked = rw can.unlocked;
    released = omega arith;
    super_synced = refl;
    store_synced = refl;
    block_synced = rw (==_refl dir.d_inode.data_block_number);
  }

  final-IsSound : IsSound last
  unfolding write_record
  final-IsSound = IsSound-transport saved last refl refl refl (
      saved_state-IsSound before parent_slot (add_child dir.d_inode) can.parent_no
        (parent_kept k laws dir cache slot name mode s can)
        (IsSound-transport (added k laws dir cache slot name mode s can) before refl refl refl
          (added-IsSound k laws dir cache slot name mode s can)))
    where
      before : State
      before = mutex_lock_mgmt (recorded k laws dir cache slot name mode s can)

      saved : State
      saved = saved_state parent_slot (add_child dir.d_inode) before

  abbrev old_records : List DirRecord
  old_records = as_records (s.cache.data_block dir.d_inode.data_block_number)

  abbrev record' : DirRecord
  record' = new_record k laws dir cache slot name mode s can

  final-records :
      as_records (last.cache.data_block dir.d_inode.data_block_number)
      ≡ set old_records slot.entry_no record'
  unfolding inode_add add_locked write_record sb_sync as_records
  final-records = rw (==_refl dir.d_inode.data_block_number)

  new_number : k.ffz s.imap ≢ 0
  new_number = omega (arith, number_is k laws dir cache slot name mode s can)

  cached-IsCoherent :
      IsCoherent
        (new_cache k laws dir cache slot name mode s can)
        (as_records (last.cache.data_block dir.d_inode.data_block_number))
  cached-IsCoherent =
      subst (IsCoherent (new_cache k laws dir cache slot name mode s can)) (sym final-records)
        (take-IsCoherent cache old_records slot record' can.coherent can.room new_number)

  done :
      create_fs_object k granted dir name mode s
      ≡ (ok (vfs_inode fresh), final_dir k laws dir cache slot name mode s can, last)
  done = create_final k laws dir cache slot name mode s can

  -- In a sound state with no lock held, where the parent is in the inode store and has the cache of
  -- its block, an uninterrupted create of a file or directory with a name of at most 255 bytes, a free
  -- inode number below 64, a free block from 3 to 30 and a free slot succeeds (this is `CanCreate`).
  -- The new inode has the mode of the request and size 0, a number that was free, its slot of the
  -- inode store and a block that is taken; the parent is in the store with one child more, and the
  -- other slots are as before.
  pub create_fs_object-IsCreated :
      IsCreated s dir parent_slot mode (create_fs_object k granted dir name mode s)
  create_fs_object-IsCreated = subst (IsCreated s dir parent_slot mode) (sym done) final-IsCreated

  -- An uninterrupted create with all that `CanCreate` asks for keeps the inode store, the inode bitmap
  -- and the count of inodes in agreement, and leaves the parent with the cache of its block.
  pub create_fs_object-IsSound :
      let r = create_fs_object k granted dir name mode s in
      IsSound r.2
      × ((c : DirCache) × (r.1.d_fsdata ≡ some c)
          × IsCoherent c (as_records (r.2.cache.data_block dir.d_inode.data_block_number)))
  create_fs_object-IsSound =
      subst
        (λ (r : CreateResult).
          IsSound r.2
          × ((c : DirCache) × (r.1.d_fsdata ≡ some c)
              × IsCoherent c (as_records (r.2.cache.data_block dir.d_inode.data_block_number))))
        (sym done)
        (final-IsSound, (new_cache k laws dir cache slot name mode s can, refl, cached-IsCoherent))

  -- After an uninterrupted create with all that `CanCreate` asks for, no lock is held, no buffer is
  -- kept, and the superblock, the inode store and the parent's block on the disk are those in memory.
  pub create_fs_object-IsSettled :
      IsSettled s dir.d_inode.data_block_number (create_fs_object k granted dir name mode s).2
  create_fs_object-IsSettled =
      subst (λ (r : CreateResult). IsSettled s dir.d_inode.data_block_number r.2) (sym done)
        final-IsSettled
