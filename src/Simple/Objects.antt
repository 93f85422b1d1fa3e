-- ===== src/Simple/Objects.antt =====
-- The inode operations of simplefs/simple.c: create, mkdir, unlink and lookup.
-- A dentry is what the module reads of it: its inode's private copy of the inode, and the cache in
-- `d_fsdata` (`none` is NULL). The parent's dentry is that of the inode `dir`, as the VFS calls it.
pub mod Create
pub mod Created
pub mod Interrupted
pub mod Lookup
pub mod Made
pub mod Refused
pub mod Unlinked
pub mod Names
use simplefs.Base.{
  length, ℕ, List, ◌∷◌, Bool, Option, none, some, leb, ◌||◌, if◌then◌else◌, set, bit_or, ◌▷◌,
}
use simplefs.Simple.Types.{
  Inode, DirRecord, Block, records, as_records, zero_record, Outcome, ok, err, oops, eintr, enospc,
  einval, enomem, enoent, s_isdir, s_isreg, s_ifdir, u64_inc, u64_dec,
  max_filesystem_objects_supported,
}
use simplefs.Simple.State.{
  take_vfs_inode, take_sfs_inode, State, Kernel, mutex_lock_mgmt, mutex_unlock_mgmt,
  mutex_lock_children, mutex_unlock_children, sb_bread, brelse, write_block, sync_block,
}
use simplefs.Simple.Super.{sb_get_a_freeblock, sb_get_objects_count}
use simplefs.Simple.Store.{inode_add, inode_del, inode_save, get_inode}
use simplefs.Simple.Directory.{
  CacheEntry, DirCache, entry, used_cache_entry_get, free_cache_entry_get, list_del,
  cache_entry_insert,
}

-- Which table `i_fop` points to.
pub data FileOperations : Type 0 where
  dir_operations file_operations no_operations : FileOperations

pub record VfsInode : Type 0 where
  pub i_ino : ℕ
  pub i_mode : ℕ
  pub i_fop : FileOperations
  pub i_private : Inode

pub record Dentry : Type 0 where
  pub d_inode : Inode
  pub d_fsdata : Option DirCache

-- What the kernel answers during a create: each `mutex_lock_interruptible` in the order of the
-- code, `new_inode` and the allocation behind it. `true` is success.
pub record CreateEnv : Type 0 where
  pub children_lock : Bool
  pub count_lock : Bool
  pub new_inode : Bool
  pub inode_alloc : Bool
  pub block_lock : Bool
  pub add_mgmt_lock : Bool
  pub add_sb_lock : Bool
  pub update_lock : Bool
  pub save_lock : Bool

unfoldable pub fop_of_mode : ℕ → FileOperations
fop_of_mode mode =
    if s_isdir mode then dir_operations else if s_isreg mode then file_operations else no_operations

abbrev pub vfs_inode : Inode → VfsInode
vfs_inode i = record {
  i_ino = i.inode_no;
  i_mode = i.mode;
  i_fop = fop_of_mode i.mode;
  i_private = i;
}

abbrev pub CreateResult : Type 0
CreateResult = Outcome VfsInode × Dentry × State

abbrev pub add_child : Inode → Inode
add_child i = record i { file_size = u64_inc i.file_size }

abbrev pub drop_child : Inode → Inode
drop_child i = record i { file_size = u64_dec i.file_size }

-- The record that the code writes into a slot of the parent's block, where its name fits.
unfoldable pub write_record : ℕ → ℕ → DirRecord → State → State
write_record block slot r s =
    s
    ▷ sb_bread
    ▷ write_block block (records (set (as_records (s.cache.data_block block)) slot r))
    ▷ sync_block block
    ▷ brelse

-- Behind the save of the parent: both locks are released on both branches.
unfoldable pub create_saved : Dentry → Inode → Outcome (Unit {0}) × State → CreateResult
create_saved dir sfs_inode (ok _, s) =
    (ok (vfs_inode sfs_inode), dir, s ▷ mutex_unlock_mgmt ▷ mutex_unlock_children)
create_saved dir sfs_inode (err x, s) = (err x, dir, s ▷ mutex_unlock_mgmt ▷ mutex_unlock_children)
create_saved dir sfs_inode (oops, s) = (oops, dir, s)

module _ (k : Kernel) (e : CreateEnv) where
  -- The end of `simplefs_create_fs_object`: the parent's count of children.
  unfoldable pub create_update : Dentry → Inode → State → CreateResult
  create_update dir sfs_inode s =
      let parent = add_child dir.d_inode in
      if e.update_lock
      then create_saved (record { d_inode = parent; d_fsdata = dir.d_fsdata }) sfs_inode
          (inode_save k e.save_lock parent (mutex_lock_mgmt s))
      else (err eintr, dir, mutex_unlock_children s)

  -- The slot of the new child in the parent's block and in its cache. The code tests neither whether
  -- the free list is empty nor, before `strcpy`, whether the name fits: of 256 bytes or more, it and
  -- its NUL go past the 255 bytes of `filename` and the byte of padding, over the inode number, the
  -- records behind and the buffer's end.
  unfoldable pub create_entry : Dentry → DirCache → List ℕ → Inode → State → CreateResult
  create_entry dir cache name sfs_inode s = elim (free_cache_entry_get cache) [
    | none ↦ (oops, dir, s)
    | some slot ↦
        let r : DirRecord = record { filename = name; inode_no = sfs_inode.inode_no } in
        let cache' = record cache {
          used = cache_entry_insert (entry r slot.entry_no) cache.used;
          free = list_del slot.entry_no cache.free;
        } in
        let written =
          create_update (record { d_inode = dir.d_inode; d_fsdata = some cache' }) sfs_inode
            (write_record dir.d_inode.data_block_number slot.entry_no r s) in
        if leb 256 (length name) then (oops, dir, s) else written
  ]

  -- Behind the allocation of the data block: the inode goes to the inode store. Where there is no
  -- block, neither the inode nor its private copy is given back.
  unfoldable pub create_allocated :
      Dentry → DirCache → List ℕ → ℕ → ℕ → Outcome ℕ × State → CreateResult
  create_allocated dir cache name mode number (ok n, s) =
      let sfs_inode : Inode = record {
        mode = mode;
        inode_no = number;
        data_block_number = n;
        file_size = 0;
      } in
      create_entry dir cache name sfs_inode (inode_add k e.add_mgmt_lock e.add_sb_lock sfs_inode s)
  create_allocated dir cache name mode number (err x, s) = (err x, dir, mutex_unlock_children s)
  create_allocated dir cache name mode number (oops, s) = (oops, dir, s)

  -- The new inode and its data block.
  unfoldable pub create_inode : Dentry → DirCache → List ℕ → ℕ → State → CreateResult
  create_inode dir cache name mode s =
      create_allocated dir cache name mode (k.ffz s.imap) (sb_get_a_freeblock k e.block_lock s)

  -- The tests behind the count: the type of the object, and the allocations.
  unfoldable pub create_typed : Dentry → DirCache → List ℕ → ℕ → State → CreateResult
  create_typed dir cache name mode s =
      if s_isdir mode || s_isreg mode
      then (if e.new_inode
          then (if e.inode_alloc
              then create_inode dir cache name mode (s ▷ take_vfs_inode ▷ take_sfs_inode)
              else (oops, dir, take_vfs_inode s))
          else (err enomem, dir, mutex_unlock_children s))
      else (err einval, dir, mutex_unlock_children s)

  unfoldable pub create_counted : Dentry → DirCache → List ℕ → ℕ → Outcome ℕ × State → CreateResult
  create_counted dir cache name mode (ok n, s) =
      if leb max_filesystem_objects_supported n
      then (err enospc, dir, mutex_unlock_children s)
      else create_typed dir cache name mode s
  create_counted dir cache name mode (err x, s) = (err x, dir, mutex_unlock_children s)
  create_counted dir cache name mode (oops, s) = (oops, dir, s)

  -- `BUG_ON(!dir_cache)` comes first.
  unfoldable pub create_cached : Dentry → List ℕ → ℕ → State → Option DirCache → CreateResult
  create_cached dir name mode s none = (oops, dir, s)
  create_cached dir name mode s (some cache) =
      if e.children_lock
      then create_counted dir cache name mode
          (sb_get_objects_count e.count_lock (mutex_lock_children s))
      else (err eintr, dir, s)

  unfoldable pub create_fs_object : Dentry → List ℕ → ℕ → State → CreateResult
  create_fs_object dir name mode s = create_cached dir name mode s dir.d_fsdata

  unfoldable pub mkdir : Dentry → List ℕ → ℕ → State → CreateResult
  mkdir dir name mode s = create_fs_object dir name (bit_or s_ifdir mode) s

  unfoldable pub create : Dentry → List ℕ → ℕ → State → CreateResult
  create dir name mode s = create_fs_object dir name mode s

-- `simplefs_unlink`, whose result is always 0; what `inode_save` returns is not read. The three
-- locks are that of `inode_save` and the two of `inode_del`.
module _ (k : Kernel) (save_lock del_mgmt_lock del_sb_lock : Bool) where
  unfoldable pub unlink_entry :
      Dentry → DirCache → CacheEntry → Inode → State → Outcome (Unit {0}) × Dentry × State
  unlink_entry dir cache found child s =
      let parent = drop_child dir.d_inode in
      let cache' : DirCache = record {
        dir_children_count = u64_dec cache.dir_children_count;
        used = list_del found.entry_no cache.used;
        free = found ∷ cache.free;
      } in
      let s1 = write_record dir.d_inode.data_block_number found.entry_no zero_record s in
      (
        ok tt,
        record { d_inode = parent; d_fsdata = some cache' },
        inode_del k del_mgmt_lock del_sb_lock child (inode_save k save_lock parent s1).1,
      )

  -- The code does not test whether the search gave an entry, nor whether there is a cache.
  unfoldable pub unlink_found :
      Dentry → DirCache → Inode → State → Option CacheEntry → Outcome (Unit {0}) × Dentry × State
  unlink_found dir cache child s none = (oops, dir, s)
  unlink_found dir cache child s (some found) = unlink_entry dir cache found child s

  unfoldable pub unlink_cached :
      Dentry → List ℕ → Inode → State → Option DirCache → Outcome (Unit {0}) × Dentry × State
  unlink_cached dir name child s none = (oops, dir, s)
  unlink_cached dir name child s (some cache) =
      unlink_found dir cache child s (used_cache_entry_get cache.used name)

  unfoldable pub unlink : Dentry → List ℕ → Inode → State → Outcome (Unit {0}) × Dentry × State
  unlink dir name child s = unlink_cached dir name child s dir.d_fsdata

-- Behind `simplefs_get_inode`, whose NULL is `ok none`. Whether `new_inode` has memory, `made`, is not
-- tested: its NULL is written through.
unfoldable pub lookup_found :
    Bool → CacheEntry → Outcome (Option Inode) × State → Outcome (Option VfsInode) × State
lookup_found made found (ok none, s) = (err enoent, s)
lookup_found made found (ok (some i), s) =
    if made
    then (
      ok (
          some (record {
            i_ino = found.dir_record.inode_no;
            i_mode = i.mode;
            i_fop = fop_of_mode i.mode;
            i_private = i;
          })),
      take_vfs_inode s,
    )
    else (oops, s)
lookup_found made found (err x, s) = (err x, s)
lookup_found made found (oops, s) = (oops, s)

-- `simplefs_lookup`: `ok none` leaves the dentry without an inode. The test that the parent's dentry
-- has the parent's inode is `same_parent`; there is none that the parent has a cache.
module _ (locked allocated made : Bool) where
  unfoldable pub lookup_entry : State → Option CacheEntry → Outcome (Option VfsInode) × State
  lookup_entry s none = (ok none, s)
  lookup_entry s (some found) =
      lookup_found made found (get_inode locked allocated found.dir_record.inode_no s)

  unfoldable pub lookup_cached :
      List ℕ → State → Option DirCache → Outcome (Option VfsInode) × State
  lookup_cached name s none = (oops, s)
  lookup_cached name s (some cache) = lookup_entry s (used_cache_entry_get cache.used name)

  unfoldable pub lookup : Bool → Dentry → List ℕ → State → Outcome (Option VfsInode) × State
  lookup same_parent dir name s =
      if same_parent then lookup_cached name s dir.d_fsdata else (err enoent, s)
