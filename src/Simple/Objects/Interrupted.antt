-- ===== src/Simple/Objects/Interrupted.antt =====
-- `simplefs_create_fs_object` when a signal interrupts one of its locks.
use simplefs.Base.{
  ℕ, ◌+◌, ◌-◌, bit, ◌≡◌, refl, ap, ◌∙◌, List, Bool, true, false, ==_refl, set, arith, ◌▷◌,
}
use simplefs.Simple.Types.{Inode, DirRecord, as_records, err, eintr}
use simplefs.Simple.State.{
  take_vfs_inode, take_sfs_inode, State, Kernel, no_locks, mutex_lock_children, mutex_lock_mgmt,
  mutex_unlock_mgmt,
}
use simplefs.Simple.Super.{sb_get_a_freeblock, sb_get_objects_count, sb_sync, first_free}
use simplefs.Simple.Super.Blocks.{sb_get_a_freeblock-found}
use simplefs.Simple.Store.{inode_add}
use simplefs.Simple.Store.Counts.{slot_no}
use simplefs.Simple.Store.Soundness.{IsKernel}
use simplefs.Simple.Directory.{DirCache, CacheEntry}
use simplefs.Simple.Objects.{
  CreateEnv, Dentry, write_record, create_update, create_inode, create_allocated, create_cached,
  create_counted, create_typed, create_fs_object,
}
use simplefs.Simple.Objects.Create.{
  granted, CanCreate, create_inode-found, create_entry-room, count_passes, block_small, new_free,
  number_clear,
}

-- The lock of the block allocator, the second one of `simplefs_inode_add`, and that of the update.
abbrev pub interrupted : Bool → Bool → Bool → CreateEnv
interrupted block add update = record granted {
  block_lock = block;
  add_sb_lock = add;
  update_lock = update;
}

module _ (k : Kernel) (laws : IsKernel k) (dir : Dentry) (cache : DirCache) (slot : CacheEntry)
    (name : List ℕ) (mode : ℕ) (s : State) (can : CanCreate s dir cache slot name mode) where
  abbrev counted : State
  counted =
      s ▷ mutex_lock_children ▷ mutex_lock_mgmt ▷ mutex_unlock_mgmt ▷ take_vfs_inode
      ▷ take_sfs_inode

  begun :
      (block add update : Bool)
      → create_fs_object k (interrupted block add update) dir name mode s
        ≡ create_inode k (interrupted block add update) dir cache name mode counted
  unfolding create_fs_object create_cached create_counted create_typed sb_get_objects_count
  begun block add update =
      ap (create_cached k (interrupted block add update) dir name mode s) can.cached
      ∙ rw (count_passes k laws dir cache slot name mode s can, can.typed)

  -- A create, with all that `CanCreate` asks for, whose lock in the block allocator is interrupted
  -- returns EINTR and changes neither memory nor disk; but it has released a mutex that it did not
  -- hold.
  pub create_without_lock :
      (add update : Bool)
      → let r = create_fs_object k (interrupted false add update) dir name mode s in
        (r.0 ≡ err eintr)
        × (r.1 ≡ dir)
        × (r.2.cache ≡ s.cache)
        × (r.2.disk ≡ s.disk)
        × (r.2.imap ≡ s.imap)
        × (r.2.locks ≡ record no_locks { misused = true })
  unfolding create_inode create_allocated sb_get_a_freeblock
  create_without_lock add update =
      rw (begun false add update) (refl, refl, refl, refl, refl, rw can.unlocked)

  abbrev fresh : Inode
  fresh = record {
    mode = mode;
    inode_no = k.ffz s.imap;
    data_block_number = first_free k s.cache.super.free_blocks;
    file_size = 0;
  }

  abbrev new_record : DirRecord
  new_record = record { filename = name; inode_no = k.ffz s.imap }

  -- A create, with all that `CanCreate` asks for, whose second lock of `simplefs_inode_add` and whose
  -- lock of the update are interrupted returns EINTR with the lock of the inodes still held and one
  -- buffer kept. The name is in the parent's block on the disk, with a number whose slot of the
  -- inode store is free and whose bit is clear; store and bitmap are unchanged.
  pub create_half_done :
      let r = create_fs_object k (interrupted true false false) dir name mode s in
      (r.0 ≡ err eintr)
      × (r.2.locks ≡ record no_locks { inodes_mgmt_lock = true })
      × (r.2.refs ≡ s.refs + 1)
      × (r.2.cache.store ≡ s.cache.store)
      × (r.2.imap ≡ s.imap)
      × (slot_no r.2.cache.store (k.ffz s.imap - 1) ≡ 0)
      × (bit (k.ffz s.imap) r.2.imap ≡ 0)
      × (as_records (r.2.disk.data_block dir.d_inode.data_block_number)
          ≡ set
              (as_records (s.cache.data_block dir.d_inode.data_block_number))
              slot.entry_no
              new_record)
  unfolding create_update inode_add write_record sb_sync as_records
  create_half_done =
      rw
        (begun true false false
          ∙ create_inode-found k (interrupted true false false) dir cache name mode counted _ _ (
              sb_get_a_freeblock-found k counted
                (block_small k laws dir cache slot name mode s can))
          ∙ create_entry-room k (interrupted true false false) dir cache name fresh _ slot can.room
              can.short)
        (
          refl,
          rw can.unlocked,
          omega arith,
          refl,
          refl,
          new_free k laws dir cache slot name mode s can,
          (number_clear k laws dir cache slot name mode s can).1,
          rw (==_refl dir.d_inode.data_block_number),
        )
