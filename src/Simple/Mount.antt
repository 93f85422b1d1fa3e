-- ===== src/Simple/Mount.antt =====
-- Mounting in simplefs/simple.c: the inode bitmap from the inode store, and `simplefs_fill_super`.
pub mod Mounted
use simplefs.Base.{
  not, ℕ, ◌-◌, List, [], ◌∷◌, Bool, Option, none, some, ◌==◌, if◌then◌else◌, take, ◌▷◌,
}
use simplefs.Simple.Types.{
  Inode, Outcome, ok, err, oops, eperm, enomem, simplefs_magic, default_block_size, start_ino,
  inodes_per_block, rootdir_inode_number,
}
use simplefs.Simple.State.{State, Kernel, take_vfs_inode, sb_bread, brelse, write_imap}
use simplefs.Simple.Store.{get_inode}

-- What the kernel answers during a mount: the memory for `struct simplefs_sb_info`, block 0,
-- `new_inode`, the lock and the memory of `simplefs_get_inode`, and whether `d_make_root` gives a
-- dentry. `true` is success.
pub record MountEnv : Type 0 where
  pub info_alloc : Bool
  pub super_read : Bool
  pub new_inode : Bool
  pub locked : Bool
  pub allocated : Bool
  pub root_made : Bool

module _ (k : Kernel) where
  -- The second loop of `fill_imap`, over the inodes that it looks at.
  unfoldable pub fill_imap_loop : List Inode → ℕ → ℕ
  fill_imap_loop [] imap = imap
  fill_imap_loop (x ∷ xs) imap =
      fill_imap_loop xs (if x.inode_no == 0 then imap else k.set_bit x.inode_no imap)

  -- `for (i = 0; i < SIMPLEFS_START_INO; i++)` is one round. The second loop runs from 1 to the number
  -- of inodes of a block: it looks at one inode less than the block holds.
  unfoldable pub fill_imap : State → State
  fill_imap s =
      s
      ▷ sb_bread
      ▷ write_imap
          (fill_imap_loop (take (inodes_per_block - start_ino) s.cache.store) (k.set_bit 0 s.imap))
      ▷ brelse

  -- The root inode's `i_private`, `none` for NULL, and whether `d_make_root` gives a dentry.
  unfoldable pub make_root : Bool → Outcome (Option Inode) × State → Outcome (Option Inode) × State
  make_root root_made (ok i, s) = if root_made then (ok i, brelse s) else (err enomem, brelse s)
  make_root root_made (err x, s) = (err x, s)
  make_root root_made (oops, s) = (oops, s)

  -- `simplefs_fill_super` on a superblock in memory whose bitmap is zero. The memory for
  -- `struct simplefs_sb_info` and the root's inode are not tested: a NULL is written through. What
  -- `simplefs_get_inode` gives for the root is not tested either.
  unfoldable pub fill_root : MountEnv → State → Outcome (Option Inode) × State
  fill_root e s =
      if e.new_inode
      then make_root e.root_made
          (get_inode e.locked e.allocated rootdir_inode_number (take_vfs_inode s))
      else (oops, s)

  unfoldable pub fill_super : MountEnv → State → Outcome (Option Inode) × State
  fill_super e s =
      if not e.super_read
      then (oops, s)
      else if not e.info_alloc
      then (oops, sb_bread s)
      else if not (s.cache.super.magic == simplefs_magic)
      then (err eperm, s ▷ sb_bread ▷ brelse)
      else if not (s.cache.super.block_size == default_block_size)
      then (err eperm, s ▷ sb_bread ▷ brelse)
      else fill_root e (fill_imap (sb_bread s))
