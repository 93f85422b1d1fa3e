-- ===== src/Simple/Store.antt =====
-- The inode store of simplefs/simple.c, block 1 as an array of inodes: search, add, delete, save
-- and read one.
pub mod Counts
pub mod Soundness
use simplefs.Base.{
  ℕ, suc, ◌+◌, List, [], ◌∷◌, Bool, Option, none, some, ◌==◌, if◌then◌else◌, get_elem?, set, ◌▷◌,
}
use simplefs.Simple.Types.{
  Inode, SuperBlock, zero_inode, Outcome, ok, err, oops, eintr, eio, u64_inc, u64_dec,
}
use simplefs.Simple.State.{
  take_sfs_inode, State, Kernel, mutex_lock_sb, mutex_unlock_sb, mutex_lock_mgmt, mutex_unlock_mgmt,
  sb_bread, brelse, write_super, write_store, write_imap, sync_store,
}
use simplefs.Simple.Super.{sb_sync}

abbrev pub count_up : SuperBlock → SuperBlock
count_up sb = record sb { inodes_count = u64_inc sb.inodes_count }

abbrev pub count_down : SuperBlock → SuperBlock
count_down sb = record sb { inodes_count = u64_dec sb.inodes_count }

-- The state after the inode in slot `i` is saved.
abbrev pub saved_state : ℕ → Inode → State → State
saved_state i inode s =
    s
    ▷ sb_bread
    ▷ mutex_lock_sb
    ▷ write_store (set s.cache.store i inode)
    ▷ sync_store
    ▷ brelse
    ▷ mutex_unlock_sb

module _ (k : Kernel) where
  -- `simplefs_inode_search` from index `i` on. The loop runs one index past the store, and the
  -- test behind it reads there.
  unfoldable pub inode_search : ℕ → ℕ → List Inode → Option ℕ
  inode_search i search [] = if k.past_store == search then some i else none
  inode_search i search (x ∷ xs) =
      if x.inode_no == search then some i else inode_search (suc i) search xs

  -- The critical section of `simplefs_inode_add`.
  unfoldable pub add_locked : Inode → State → State
  add_locked inode s =
      s
      ▷ write_store (set s.cache.store (u64_dec inode.inode_no) inode)
      ▷ write_super (count_up s.cache.super)
      ▷ write_imap (k.set_bit inode.inode_no s.imap)
      ▷ sb_sync

  -- Each `mutex_lock_interruptible` may fail; behind the second the first lock and the buffer stay.
  unfoldable pub inode_add : Bool → Bool → Inode → State → State
  inode_add got_mgmt got_sb inode s =
      if got_mgmt
      then (if got_sb
          then s
            ▷ mutex_lock_mgmt
            ▷ sb_bread
            ▷ mutex_lock_sb
            ▷ add_locked inode
            ▷ brelse
            ▷ mutex_unlock_sb
            ▷ mutex_unlock_mgmt
          else s ▷ mutex_lock_mgmt ▷ sb_bread)
      else s

  -- The critical section of `simplefs_inode_del`.
  unfoldable pub del_locked : Inode → State → State
  del_locked inode s =
      s
      ▷ write_store (set s.cache.store (u64_dec inode.inode_no) zero_inode)
      ▷ write_super (count_down s.cache.super)
      ▷ write_imap (k.clear_bit inode.inode_no s.imap)
      ▷ sb_sync

  unfoldable pub inode_del : Bool → Bool → Inode → State → State
  inode_del got_mgmt got_sb inode s =
      if got_mgmt
      then (if got_sb
          then s
            ▷ mutex_lock_mgmt
            ▷ sb_bread
            ▷ mutex_lock_sb
            ▷ del_locked inode
            ▷ brelse
            ▷ mutex_unlock_sb
            ▷ mutex_unlock_mgmt
          else s ▷ mutex_lock_mgmt ▷ sb_bread)
      else s

  -- A failure keeps the buffer of `sb_bread`.
  unfoldable pub inode_save : Bool → Inode → State → Outcome (Unit {0}) × State
  inode_save locked inode s =
      if locked
      then elim (inode_search 0 inode.inode_no s.cache.store) [
        | none ↦ (err eio, s ▷ sb_bread ▷ mutex_lock_sb ▷ mutex_unlock_sb)
        | some i ↦ (ok tt, saved_state i inode s)
      ]
      else (err eintr, sb_bread s)

-- `ok none` is the NULL of an interrupted call; an allocation that fails or an index outside the
-- store makes `memcpy` read or write a wrong address.
unfoldable pub get_inode : Bool → Bool → ℕ → State → Outcome (Option Inode) × State
get_inode locked allocated inode_no s =
    if locked
    then (if allocated
        then elim (get_elem? s.cache.store (u64_dec inode_no)) [
          | none ↦ (oops, s ▷ sb_bread ▷ mutex_lock_mgmt ▷ take_sfs_inode)
          | some i ↦ (
            ok (some i),
            s ▷ sb_bread ▷ mutex_lock_mgmt ▷ take_sfs_inode ▷ mutex_unlock_mgmt ▷ brelse,
          )
        ]
        else (oops, s ▷ sb_bread ▷ mutex_lock_mgmt))
    else (ok none, sb_bread s)
