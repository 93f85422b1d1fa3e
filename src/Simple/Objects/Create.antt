-- ===== src/Simple/Objects/Create.antt =====
-- `simplefs_create_fs_object` when nothing interrupts it, and when it refuses a request.
use simplefs.Base.{
  length, ℕ, zero, suc, ◌-◌, ◌≤◌, ◌<◌, ◌≡◌, ◌≢◌, refl, ap, sym, ◌∙◌, List, true, false, some, leb,
  ◌||◌, arith, bit, ◌▷◌,
}
use simplefs.Simple.Types.{Inode, DirRecord, as_records, ok, s_isdir, s_isreg, u64_dec}
use simplefs.Simple.State.{
  take_vfs_inode, take_sfs_inode, State, Kernel, no_locks, mutex_lock_mgmt, mutex_unlock_mgmt,
  mutex_lock_children, mutex_unlock_children,
}
use simplefs.Simple.Super.{
  sb_get_a_freeblock, sb_get_objects_count, sb_sync, first_free, take_block,
}
use simplefs.Simple.Super.Blocks.{first_free-small, alloc_state, sb_get_a_freeblock-found}
use simplefs.Simple.Store.{inode_add, add_locked, inode_search, saved_state}
use simplefs.Simple.Store.Counts.{slot_no, slot_no-set, used_count-bounded}
use simplefs.Simple.Store.Soundness.{
  IsKernel, IsSound, IsSound-transport, inode_add-IsSound, inode_search-placed, inode_save-found,
}
use simplefs.Simple.Directory.{
  DirCache, CacheEntry, entry, free_cache_entry_get, cache_entry_insert, list_del,
}
use simplefs.Simple.Directory.Coherence.{IsCoherent}
use simplefs.Simple.Objects.{
  CreateEnv, Dentry, vfs_inode, add_child, write_record, create_update, create_entry, create_inode,
  create_typed, create_counted, create_cached, create_allocated, create_saved, create_fs_object,
}

-- Every lock and every allocation is granted.
abbrev pub granted : CreateEnv
granted = record {
  children_lock = true;
  count_lock = true;
  new_inode = true;
  inode_alloc = true;
  block_lock = true;
  add_mgmt_lock = true;
  add_sb_lock = true;
  update_lock = true;
  save_lock = true;
}

-- What a create needs.
pub record CanCreate (s : State) (dir : Dentry) (cache : DirCache) (slot : CacheEntry)
    (name : List ℕ) (mode : ℕ) : Type 0 where
  pub sound : IsSound s
  pub unlocked : s.locks ≡ no_locks
  -- the parent is in the inode store, and its cache is that of its block
  pub parent_slot : ℕ
  pub parent_no : dir.d_inode.inode_no ≡ suc parent_slot
  pub parent_stored : slot_no s.cache.store parent_slot ≡ suc parent_slot
  pub cached : dir.d_fsdata ≡ some cache
  pub coherent : IsCoherent cache (as_records (s.cache.data_block dir.d_inode.data_block_number))
  -- a free slot, the first of the free list; a free block below 31; a free inode number
  pub room : free_cache_entry_get cache ≡ some slot
  pub target : ℕ
  pub target_low : 3 ≤ target
  pub target_high : target < 31
  pub target_free : bit target s.cache.super.free_blocks ≡ 1
  pub number : ℕ
  pub number_small : number < 64
  pub number_free : bit number s.imap ≡ 0
  pub typed : (s_isdir mode || s_isreg mode) ≡ true
  -- the name and its NUL end within the 255 bytes of the array and the byte of padding behind it
  pub short : length name < 256

-- The steps of the code, each at what decides it.
pub create_inode-found :
    (k : Kernel) (e : CreateEnv) (dir : Dentry) (cache : DirCache) (name : List ℕ) (mode : ℕ)
    (s : State) (n : ℕ) (s' : State)
    → sb_get_a_freeblock k e.block_lock s ≡ (ok n, s')
    → let sfs_inode : Inode = record {
      mode = mode;
      inode_no = k.ffz s.imap;
      data_block_number = n;
      file_size = 0;
    } in
      create_inode k e dir cache name mode s
      ≡ create_entry k e dir cache name sfs_inode
          (inode_add k e.add_mgmt_lock e.add_sb_lock sfs_inode s')
unfolding create_inode create_allocated
create_inode-found k e dir cache name mode s n s' h =
    ap (create_allocated k e dir cache name mode (k.ffz s.imap)) h

pub create_entry-room :
    (k : Kernel) (e : CreateEnv) (dir : Dentry) (cache : DirCache) (name : List ℕ) (i : Inode)
    (s : State) (slot : CacheEntry)
    → free_cache_entry_get cache ≡ some slot
    → length name < 256
    → create_entry k e dir cache name i s
      ≡ create_update k e
          (record {
            d_inode = dir.d_inode;
            d_fsdata = some (record cache {
              used =
                  cache_entry_insert
                    (entry (record { filename = name; inode_no = i.inode_no }) slot.entry_no)
                    cache.used;
              free = list_del slot.entry_no cache.free;
            });
          })
          i
          (write_record dir.d_inode.data_block_number slot.entry_no
            (record { filename = name; inode_no = i.inode_no })
            s)
unfolding create_entry
create_entry-room k e dir cache name i s slot h short =
    let fits : leb 256 (length name) ≡ false = ground arith in rw (h, create_entry, fits)

create_update-saved :
    (k : Kernel) (dir : Dentry) (i : Inode) (s : State) (n : ℕ)
    → inode_search k 0 dir.d_inode.inode_no s.cache.store ≡ some n
    → create_update k granted dir i s ≡ (
      ok (vfs_inode i),
      record { d_inode = add_child dir.d_inode; d_fsdata = dir.d_fsdata },
      saved_state n (add_child dir.d_inode) (mutex_lock_mgmt s)
          ▷ mutex_unlock_mgmt
          ▷ mutex_unlock_children,
    )
unfolding create_update create_saved
create_update-saved k dir i s n h =
    ap (create_saved (record { d_inode = add_child dir.d_inode; d_fsdata = dir.d_fsdata }) i)
      (inode_save-found k (add_child dir.d_inode) (mutex_lock_mgmt s) n h)

module _ (k : Kernel) (laws : IsKernel k) (dir : Dentry) (cache : DirCache) (slot : CacheEntry)
    (name : List ℕ) (mode : ℕ) (s : State) (can : CanCreate s dir cache slot name mode) where
  -- The new inode, its record, and the states between the steps of the code.
  abbrev pub new_inode : Inode
  new_inode = record {
    mode = mode;
    inode_no = k.ffz s.imap;
    data_block_number = first_free k s.cache.super.free_blocks;
    file_size = 0;
  }

  abbrev pub new_record : DirRecord
  new_record = record { filename = name; inode_no = k.ffz s.imap }

  abbrev pub counted : State
  counted =
      s ▷ mutex_lock_children ▷ mutex_lock_mgmt ▷ mutex_unlock_mgmt ▷ take_vfs_inode
      ▷ take_sfs_inode

  abbrev pub added : State
  added = inode_add k true true new_inode (alloc_state k counted)

  abbrev pub recorded : State
  recorded = write_record dir.d_inode.data_block_number slot.entry_no new_record added

  pub count_passes : leb 64 s.cache.super.inodes_count ≡ false
  count_passes =
      ground (arith, can.sound.counted, used_count-bounded s.cache.store 63 can.sound.small)

  to_create_inode :
      create_fs_object k granted dir name mode s
      ≡ create_inode k granted dir cache name mode counted
  unfolding create_fs_object create_cached create_counted create_typed sb_get_objects_count
  to_create_inode =
      ap (create_cached k granted dir name mode s) can.cached ∙ rw (count_passes, can.typed)

  pub block_small : first_free k s.cache.super.free_blocks < 31
  block_small =
      first_free-small k s.cache.super.free_blocks can.target can.target_low can.target_high
        can.target_free

  abbrev pub new_cache : DirCache
  new_cache = record cache {
    used = cache_entry_insert (entry new_record slot.entry_no) cache.used;
    free = list_del slot.entry_no cache.free;
  }

  -- The number that `ffz` gives is a free slot of the store.
  abbrev pub new_slot : ℕ
  new_slot = k.ffz s.imap - 1

  pub number_clear : (k.ffz s.imap < 64) × (bit (k.ffz s.imap) s.imap ≡ 0)
  number_clear = laws.ffz_clear can.number s.imap can.number_small can.number_free

  number_pos : (n : ℕ) → bit n s.imap ≡ 0 → n ≢ 0
  number_pos zero clear e = absurd (omega (arith, can.sound.reserved))
  number_pos (suc n) clear e = omega arith

  pub number_is : k.ffz s.imap ≡ suc new_slot
  number_is = omega (arith, number_pos (k.ffz s.imap) number_clear.1)

  pub new_free : slot_no s.cache.store new_slot ≡ 0
  new_free = ground (
    arith,
    can.sound.mapped new_slot,
    number_is,
    number_clear.0,
    ap (λ n. bit n s.imap) (sym number_is) ∙ number_clear.1,
  )

  pub apart : new_slot ≢ can.parent_slot
  apart e = omega (arith, ap (slot_no s.cache.store) e, new_free, can.parent_stored)

  pub at_new : u64_dec (k.ffz s.imap) ≡ new_slot
  at_new = omega (arith, number_is, number_clear.0)

  pub added-IsSound : IsSound added
  unfolding sb_sync take_block
  added-IsSound =
      inode_add-IsSound k (alloc_state k counted) new_inode new_slot laws
        (IsSound-transport s (alloc_state k counted) refl refl refl can.sound) number_is
        (omega (arith, number_clear.0)) (ap (λ n. bit n s.imap) (sym number_is) ∙ number_clear.1)

  pub parent_kept : slot_no recorded.cache.store can.parent_slot ≡ suc can.parent_slot
  unfolding inode_add write_record add_locked sb_sync
  parent_kept = rw at_new (
      slot_no-set s.cache.store new_slot can.parent_slot new_inode
        (omega (arith, number_is, number_clear.0, can.sound.full))
      ∙ ground (arith, apart, can.parent_stored))

  pub saved_at : inode_search k 0 dir.d_inode.inode_no recorded.cache.store ≡ some can.parent_slot
  unfolding write_record
  saved_at =
      rw can.parent_no (inode_search-placed k added can.parent_slot added-IsSound parent_kept)

  abbrev pub final_dir : Dentry
  final_dir = record { d_inode = add_child dir.d_inode; d_fsdata = some new_cache }

  abbrev pub final : State
  final =
      saved_state can.parent_slot (add_child dir.d_inode) (mutex_lock_mgmt recorded)
      ▷ mutex_unlock_mgmt
      ▷ mutex_unlock_children

  pub create_final :
      create_fs_object k granted dir name mode s ≡ (ok (vfs_inode new_inode), final_dir, final)
  create_final =
      to_create_inode
      ∙ create_inode-found k granted dir cache name mode counted _ _
          (sb_get_a_freeblock-found k counted block_small)
      ∙ create_entry-room k granted dir cache name new_inode added slot can.room can.short
      ∙ create_update-saved k _ new_inode recorded can.parent_slot saved_at
