-- ===== src/Simple/Files.antt =====
-- `simplefs_read` and `simplefs_write` of simplefs/simple.c: a file is one data block.
pub mod Contents
use simplefs.Base.{
  ℕ, ◌+◌, ◌-◌, List, [], ◌++◌, Bool, Option, none, some, ltb, leb, if◌then◌else◌, length, take,
  overlay, replicate, min, ◌▷◌,
}
use simplefs.Simple.Types.{
  Inode, Block, bytes, as_bytes, Outcome, ok, err, oops, efault, eintr, default_block_size,
}
use simplefs.Simple.State.{
  State, Kernel, mutex_lock_mgmt, mutex_unlock_mgmt, sb_bread, brelse, write_block, sync_block,
}
use simplefs.Simple.Store.{inode_save}

-- The bytes that the user gets, `*ppos`, and the state. `got_block` and `copied` say whether
-- `sb_bread` and `copy_to_user` succeed.
abbrev pub ReadResult : Type 0
ReadResult = Outcome (List ℕ) × ℕ × State

-- The copy starts at the head of the block, whatever `*ppos` is. A copy of more than a block would
-- read behind the buffer.
unfoldable pub read : Bool → Bool → Inode → ℕ → ℕ → State → ReadResult
read got_block copied inode len pos s =
    if leb inode.file_size pos
    then (ok [], pos, s)
    else if got_block
    then (let nbytes = min inode.file_size len in
        if ltb default_block_size nbytes
        then (oops, pos, sb_bread s)
        else if copied
        then (
          ok (take nbytes (as_bytes (s.cache.data_block inode.data_block_number))),
          pos + nbytes,
          s ▷ sb_bread ▷ brelse,
        )
        else (err efault, pos, s ▷ sb_bread ▷ brelse))
    else (ok [], pos, s)

-- What the kernel answers during a write: `sb_bread`, the bytes after which `copy_from_user` stops
-- and pads with zeros (`none` if it copies all), and the two `mutex_lock_interruptible`.
pub record WriteEnv : Type 0 where
  pub got_block : Bool
  pub stops_at : Option ℕ
  pub mgmt_lock : Bool
  pub save_lock : Bool

-- The number of bytes, the inode in memory, `*ppos`, and the state.
abbrev pub WriteResult : Type 0
WriteResult = Outcome ℕ × Inode × ℕ × State

-- The error of `simplefs_inode_save` takes the place of the count.
unfoldable pub write_saved : ℕ → Inode → ℕ → Outcome (Unit {0}) × State → WriteResult
write_saved len inode pos (ok _, s) = (ok len, inode, pos, mutex_unlock_mgmt s)
write_saved len inode pos (err x, s) = (err x, inode, pos, mutex_unlock_mgmt s)
write_saved len inode pos (oops, s) = (oops, inode, pos, s)

module _ (k : Kernel) (e : WriteEnv) where
  -- Behind the copy: the block is written out, then the size is set to the position.
  unfoldable pub write_size : Inode → ℕ → ℕ → State → WriteResult
  write_size inode len pos s =
      let sized : Inode = record inode { file_size = pos } in
      if e.mgmt_lock
      then write_saved len sized pos (inode_save k e.save_lock sized (mutex_lock_mgmt s))
      else (err eintr, inode, pos, s)

  unfoldable pub write_copied : Inode → List ℕ → ℕ → State → Option ℕ → WriteResult
  write_copied inode buf pos s none =
      let n = inode.data_block_number in
      write_size inode (length buf) (pos + length buf) (
        s
        ▷ sb_bread
        ▷ write_block n (bytes (overlay (as_bytes (s.cache.data_block n)) pos buf))
        ▷ sync_block n
        ▷ brelse)
  write_copied inode buf pos s (some done) =
      let n = inode.data_block_number in
      (
        err efault,
        inode,
        pos,
        s
            ▷ sb_bread
            ▷ write_block n (
                bytes (
                  overlay (as_bytes (s.cache.data_block n)) pos
                    (take done buf ++ replicate (length buf - done) 0)))
            ▷ brelse,
      )

  -- The code does not compare the end of the copy with the block's size.
  unfoldable pub write : Inode → List ℕ → ℕ → State → WriteResult
  write inode buf pos s =
      if e.got_block
      then (if ltb default_block_size (pos + length buf)
          then (oops, inode, pos, sb_bread s)
          else write_copied inode buf pos s e.stops_at)
      else (ok 0, inode, pos, s)
