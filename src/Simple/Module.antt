-- ===== src/Simple/Module.antt =====
-- Loading and unloading the module of simplefs/simple.c, and the memory of a mount.
pub mod Lifetime
use simplefs.Base.{ℕ, ◌+◌, ◌-◌, Bool, true, false, Option, none, some, if◌then◌else◌, ◌==◌, not}
use simplefs.Simple.Types.{Inode, Outcome, ok, err, oops, simplefs_magic, default_block_size}
use simplefs.Simple.State.{State}

-- The two slab caches, each with whether the module's pointer to it is not NULL and whether it is
-- there, and whether the file system is registered.
pub record Loading : Type 0 where
  pub sfs_inode_cachep : Bool
  pub sfs_entry_cachep : Bool
  pub has_inode_cache : Bool
  pub has_entry_cache : Bool
  pub registered : Bool

-- What `simplefs_init` returns: 0, -ENOMEM, or the error of `register_filesystem`.
pub data Loaded : Type 0 where
  load_ok load_enomem : Loaded
  load_error : ℕ → Loaded

abbrev make_inode_cache : Bool → Loading → Loading
make_inode_cache made m = record m { sfs_inode_cachep = made; has_inode_cache = made }

abbrev make_entry_cache : Bool → Loading → Loading
make_entry_cache made m = record m { sfs_entry_cachep = made; has_entry_cache = made }

-- `made_inodes`, `made_entries`: whether `kmem_cache_create` had memory; `refused`: the error of
-- `register_filesystem`.
unfoldable pub simplefs_init : Bool → Bool → Option ℕ → Loading → Loading × Loaded
simplefs_init made_inodes made_entries refused m =
    let m = make_inode_cache made_inodes m in
    let m = make_entry_cache made_entries m in
    if not m.sfs_inode_cachep
    then (m, load_enomem)
    else if not m.sfs_entry_cachep
    then (m, load_enomem)
    else elim refused [
      | some e ↦ (m, load_error e)
      | none ↦ (record m { registered = true }, load_ok)
    ]

-- `kmem_cache_destroy` of the cache of inodes alone.
unfoldable pub simplefs_exit : Loading → Loading
simplefs_exit m =
    let m = record m { registered = false } in
    if m.sfs_inode_cachep then record m { has_inode_cache = false } else m

-- `infos`: the blocks of `struct simplefs_sb_info` that are allocated; `s_fs_info`: whether the
-- superblock in memory points to one.
pub record Mounting : Type 0 where
  pub infos : ℕ
  pub s_fs_info : Bool

-- The part of `simplefs_fill_super` that keeps this memory: `kzalloc`, which may fail and is not tested, comes before
-- the two tests of the superblock on the volume, the pointer to it behind them.
unfoldable pub fill_info : Bool → State → Mounting → Mounting
fill_info info_alloc s m =
    let kept = record m { infos = m.infos + 1 } in
    if not info_alloc
    then m
    else if not (s.cache.super.magic == simplefs_magic)
    then kept
    else if not (s.cache.super.block_size == default_block_size)
    then kept
    else record kept { s_fs_info = true }

-- `kfree(NULL)` does nothing.
unfoldable pub simplefs_kill_superblock : Mounting → Mounting
simplefs_kill_superblock m =
    if m.s_fs_info then record m { infos = m.infos - 1; s_fs_info = false } else m

-- `mount_bdev` fills the superblock and, where that fails, kills it.
unfoldable pub simplefs_mount : Bool → Outcome (Option Inode) → State → Mounting → Mounting
unfolding fill_info simplefs_kill_superblock
simplefs_mount info_alloc (ok root) s m = fill_info info_alloc s m
simplefs_mount info_alloc (err e) s m = simplefs_kill_superblock (fill_info info_alloc s m)
simplefs_mount info_alloc oops s m = fill_info info_alloc s m
