-- ===== src/Simple/Super.antt =====
-- The superblock's operations of simplefs/simple.c: the sync, the allocation of a data block and the
-- count of inodes.
pub mod Blocks
use simplefs.Base.{ℕ, zero, suc, ◌-◌, ◌^◌, Bool, ◌==◌, ltb, if◌then◌else◌, bit_and, ◌▷◌}
use simplefs.Simple.Types.{
  SuperBlock, Outcome, ok, err, eintr, enospc, max_filesystem_objects_supported,
}
use simplefs.Simple.State.{
  State, Kernel, mutex_lock_sb, mutex_unlock_sb, mutex_lock_mgmt, mutex_unlock_mgmt, sb_bread,
  brelse, write_super,
}

-- `simplefs_sb_sync`: the buffer of block 0 points to the superblock in memory and is written out.
abbrev pub sync_super : State → State
sync_super s = let d = s.disk in record s { disk = record d { super = s.cache.super } }

unfoldable pub sb_sync : State → State
sb_sync s = s ▷ sb_bread ▷ sync_super ▷ brelse

module _ (k : Kernel) where
  -- `1 << i` as the operand of a 64-bit `&`: an `int`, whose bit 31 is the sign.
  unfoldable pub shl_one : ℕ → ℕ
  shl_one i = if ltb i 31 then 2 ^ i else if i == 31 then 2 ^ 64 - 2 ^ 31 else k.wide_shift i

  -- The loop of `simplefs_sb_get_a_freeblock` from `i` on, `n` rounds before its end.
  unfoldable pub free_block_loop : ℕ → ℕ → ℕ → ℕ
  free_block_loop free_blocks zero i = i
  free_block_loop free_blocks (suc n) i =
      let rest = free_block_loop free_blocks n (suc i) in
      if bit_and free_blocks (shl_one i) == 0 then rest else i

  abbrev pub first_free : ℕ → ℕ
  first_free free_blocks = free_block_loop free_blocks (max_filesystem_objects_supported - 3) 3

  -- `free_blocks &= ~(1 << i)`
  unfoldable pub take_block : ℕ → SuperBlock → SuperBlock
  take_block i sb = record sb { free_blocks = bit_and sb.free_blocks (2 ^ 64 - 1 - shl_one i) }

  -- `locked` says whether `mutex_lock_interruptible` got the lock; on failure the code goes to the
  -- label that releases it.
  unfoldable pub sb_get_a_freeblock : Bool → State → Outcome ℕ × State
  sb_get_a_freeblock locked s =
      if locked
      then (let i = first_free s.cache.super.free_blocks in
          if i == max_filesystem_objects_supported
          then (err enospc, s ▷ mutex_lock_sb ▷ mutex_unlock_sb)
          else (
            ok i,
            s
                ▷ mutex_lock_sb
                ▷ write_super (take_block i s.cache.super)
                ▷ sb_sync
                ▷ mutex_unlock_sb,
          ))
      else (err eintr, mutex_unlock_sb s)

unfoldable pub sb_get_objects_count : Bool → State → Outcome ℕ × State
sb_get_objects_count locked s =
    if locked
    then (ok s.cache.super.inodes_count, s ▷ mutex_lock_mgmt ▷ mutex_unlock_mgmt)
    else (err eintr, s)
