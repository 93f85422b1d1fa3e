-- ===== src/Simple/State.antt =====
-- What the module changes: the buffered and the synced contents of the device, the in-memory inode
-- bitmap, the three mutexes, and the buffer references that are held.
-- A buffer (`sb_bread`) is shared by all its users, so a write through it shows in `cache` at once,
-- and reaches `disk` when it is synced.
use simplefs.Base.{ℕ, ◌+◌, ◌-◌, List, Bool, true, false, ◌||◌, not, ◌==◌, if◌then◌else◌}
use simplefs.Simple.Types.{SuperBlock, Inode, DirRecord, Block}

-- Block 0, block 1 as an array of inodes, and the data blocks.
pub record Volume : Type 0 where
  pub super : SuperBlock
  pub store : List Inode
  pub data_block : ℕ → Block

pub record Locks : Type 0 where
  pub sb_lock : Bool
  pub inodes_mgmt_lock : Bool
  pub directory_children_update_lock : Bool
  -- a mutex was taken by its owner, or released by a process that did not hold it
  pub misused : Bool

pub record State : Type 0 where
  pub cache : Volume
  pub disk : Volume
  pub imap : ℕ
  pub locks : Locks
  -- buffer references taken by `sb_bread` and not given back by `brelse`
  pub refs : ℕ
  -- inodes that `new_inode` has given, and objects of the module's cache of inodes; what the kernel
  -- takes back of them is not followed
  pub vfs_inodes : ℕ
  pub sfs_inodes : ℕ

-- What the module takes from the kernel and the machine.
pub record Kernel : Type 0 where
  -- bit operations on an `unsigned long`
  pub ffz : ℕ → ℕ
  pub set_bit : ℕ → ℕ → ℕ
  pub clear_bit : ℕ → ℕ → ℕ
  -- `1 << i` for i ≥ 32, as a 64-bit operand: C leaves it undefined
  pub wide_shift : ℕ → ℕ
  -- the inode number read just behind the inode store
  pub past_store : ℕ
  -- what `kmem_cache_alloc` leaves in the record of the i-th cache entry
  pub stale : ℕ → DirRecord

abbrev pub no_locks : Locks
no_locks = record {
  sb_lock = false;
  inodes_mgmt_lock = false;
  directory_children_update_lock = false;
  misused = false;
}

-- `mutex_lock`, where it is not interrupted, and `mutex_unlock`.
abbrev pub take_sb : Locks → Locks
take_sb l = record l { sb_lock = true; misused = l.misused || l.sb_lock }

abbrev pub drop_sb : Locks → Locks
drop_sb l = record l { sb_lock = false; misused = l.misused || not l.sb_lock }

abbrev pub take_mgmt : Locks → Locks
take_mgmt l = record l { inodes_mgmt_lock = true; misused = l.misused || l.inodes_mgmt_lock }

abbrev pub drop_mgmt : Locks → Locks
drop_mgmt l = record l { inodes_mgmt_lock = false; misused = l.misused || not l.inodes_mgmt_lock }

abbrev pub take_children : Locks → Locks
take_children l = record l {
  directory_children_update_lock = true;
  misused = l.misused || l.directory_children_update_lock;
}

abbrev pub drop_children : Locks → Locks
drop_children l = record l {
  directory_children_update_lock = false;
  misused = l.misused || not l.directory_children_update_lock;
}

abbrev pub with_locks : (Locks → Locks) → State → State
with_locks f s = record s { locks = f s.locks }

abbrev pub mutex_lock_sb : State → State
mutex_lock_sb = with_locks take_sb

abbrev pub mutex_unlock_sb : State → State
mutex_unlock_sb = with_locks drop_sb

abbrev pub mutex_lock_mgmt : State → State
mutex_lock_mgmt = with_locks take_mgmt

abbrev pub mutex_unlock_mgmt : State → State
mutex_unlock_mgmt = with_locks drop_mgmt

abbrev pub mutex_lock_children : State → State
mutex_lock_children = with_locks take_children

abbrev pub mutex_unlock_children : State → State
mutex_unlock_children = with_locks drop_children

abbrev pub sb_bread : State → State
sb_bread s = record s { refs = s.refs + 1 }

abbrev pub brelse : State → State
brelse s = record s { refs = s.refs - 1 }

-- `new_inode`, and `kmem_cache_alloc` from sfs_inode_cachep, where there is memory.
abbrev pub take_vfs_inode : State → State
take_vfs_inode s = record s { vfs_inodes = s.vfs_inodes + 1 }

abbrev pub take_sfs_inode : State → State
take_sfs_inode s = record s { sfs_inodes = s.sfs_inodes + 1 }

-- `sync_dirty_buffer` of the inode store's buffer, and of a data block's.
abbrev pub sync_store : State → State
sync_store s = let d = s.disk in record s { disk = record d { store = s.cache.store } }

abbrev pub update_block : (ℕ → Block) → ℕ → Block → ℕ → Block
update_block f n b m = if n == m then b else f m

abbrev pub sync_block : ℕ → State → State
sync_block n s =
    let d = s.disk in
    record s { disk = record d { data_block = update_block d.data_block n (s.cache.data_block n) } }

-- Writes through the buffers' pointers.
abbrev pub write_super : SuperBlock → State → State
write_super sb s = let v = s.cache in record s { cache = record v { super = sb } }

abbrev pub write_store : List Inode → State → State
write_store l s = let v = s.cache in record s { cache = record v { store = l } }

abbrev pub write_block : ℕ → Block → State → State
write_block n b s =
    let v = s.cache in record s { cache = record v { data_block = update_block v.data_block n b } }

abbrev pub write_imap : ℕ → State → State
write_imap m s = record s { imap = m }
