-- ===== src/Simple/Files/Contents.antt =====
-- What a write leaves in a file and what a read gives of it.
use simplefs.Base.{
  take-take, take-min, overlay, ℕ, suc, ◌+◌, ◌≤◌, ◌<◌, ◌≡◌, refl, ap, sym, ◌∙◌, List, true, false,
  none, ==_refl, ==_false, ◌≢◌, ltb, leb, length, take, drop, take-append, min, arith, ◌▷◌, set,
}
use mathlib.Core.Path.{subst}
use simplefs.Simple.Types.{Inode, bytes, as_bytes, ok, oops}
use simplefs.Simple.State.{
  State, Kernel, no_locks, mutex_lock_mgmt, mutex_unlock_mgmt, sb_bread, brelse, write_block,
  sync_block,
}
use simplefs.Simple.Store.{saved_state}
use simplefs.Simple.Store.Counts.{slot_no}
use simplefs.Simple.Store.Soundness.{
  IsSound, IsSound-transport, inode_save-found, inode_search-placed, saved_state-IsSound,
}
use simplefs.Simple.Files.{
  ReadResult, read, WriteEnv, WriteResult, write_saved, write_size, write_copied, write,
}

abbrev pub completed : WriteEnv
completed = record { got_block = true; stops_at = none; mgmt_lock = true; save_lock = true }

-- A file whose inode is in the store.
pub record IsStored (s : State) (inode : Inode) (slot : ℕ) : Type 0 where
  pub sound : IsSound s
  pub unlocked : s.locks ≡ no_locks
  pub number : inode.inode_no ≡ suc slot
  pub stored : slot_no s.cache.store slot ≡ suc slot

-- What a write has to leave: its count, the bytes in the block, the size, and all of it on disk.
pub record IsWrittenFile (s : State) (inode : Inode) (slot pos : ℕ) (buf : List ℕ) (r : WriteResult)
    : Type 0 where
  pub result : r.0 ≡ ok (length buf)
  pub size : r.1 ≡ record inode { file_size = pos + length buf }
  pub position : r.2 ≡ pos + length buf
  pub contents :
      as_bytes (r.3.cache.data_block inode.data_block_number)
      ≡ overlay (as_bytes (s.cache.data_block inode.data_block_number)) pos buf
  pub saved : r.3.cache.store ≡ set s.cache.store slot r.1
  pub sound : IsSound r.3
  pub unlocked : r.3.locks ≡ no_locks
  pub released : r.3.refs ≡ s.refs
  pub block_synced :
      r.3.disk.data_block inode.data_block_number ≡ r.3.cache.data_block inode.data_block_number
  pub store_synced : r.3.disk.store ≡ r.3.cache.store

module _ (k : Kernel) (inode : Inode) (slot : ℕ) (buf : List ℕ) (pos : ℕ) (s : State)
    (file : IsStored s inode slot) where
  abbrev sized : Inode
  sized = record inode { file_size = pos + length buf }

  abbrev copied : State
  copied =
      s
      ▷ sb_bread
      ▷ write_block inode.data_block_number
          (bytes (overlay (as_bytes (s.cache.data_block inode.data_block_number)) pos buf))
      ▷ sync_block inode.data_block_number
      ▷ brelse
      ▷ mutex_lock_mgmt

  abbrev after : State
  after = saved_state slot sized copied ▷ mutex_unlock_mgmt

  pub write_final :
      pos + length buf ≤ 4096
      → write k completed inode buf pos s ≡ (ok (length buf), sized, pos + length buf, after)
  unfolding write write_copied write_size write_saved
  write_final fits =
      let inside : ltb 4096 (pos + length buf) ≡ false = ground arith in
      rw inside (
        ap (write_saved (length buf) sized (pos + length buf)) (
          inode_save-found k sized copied slot
            (rw file.number (inode_search-placed k s slot file.sound file.stored))))

  -- In a sound state with no lock held, an uninterrupted write to a file of the inode store that ends
  -- within the block returns the number of its bytes, puts them at its offset, whatever that is, and
  -- leaves the other bytes of the block, sets the position and the file's size to its end, also where
  -- that is before the old end, saves the inode in its slot, keeps the inode store sound, has block and inode store on the
  -- disk, and holds no lock and no buffer.
  pub write-IsWrittenFile :
      pos + length buf ≤ 4096
      → IsWrittenFile s inode slot pos buf (write k completed inode buf pos s)
  unfolding as_bytes
  write-IsWrittenFile fits =
      subst (IsWrittenFile s inode slot pos buf) (sym (write_final fits)) (record {
        result = refl;
        size = refl;
        position = refl;
        contents = rw (==_refl inode.data_block_number);
        saved = refl;
        sound = IsSound-transport (saved_state slot sized copied) after refl refl refl (
            saved_state-IsSound copied slot sized file.number file.stored
              (IsSound-transport s copied refl refl refl file.sound));
        unlocked = rw file.unlocked;
        released = omega arith;
        block_synced = rw (==_refl inode.data_block_number);
        store_synced = refl;
      })

  -- The other blocks are as before.
  pub write-other_blocks :
      (b : ℕ)
      → pos + length buf ≤ 4096
      → inode.data_block_number ≢ b
      → (write k completed inode buf pos s).3.cache.data_block b ≡ s.cache.data_block b
  write-other_blocks b fits apart =
      subst (λ (r : WriteResult). r.3.cache.data_block b ≡ s.cache.data_block b)
        (sym (write_final fits)) (rw (==_false inode.data_block_number b apart) refl)

overlay_start : (b buf : List ℕ) (n : ℕ) → n ≡ length buf → take n (overlay b 0 buf) ≡ buf
overlay_start b buf n e =
    ap (λ m. take m (overlay b 0 buf)) e ∙ take-append buf (drop (0 + length buf) b)

read_inside :
    (inode : Inode) (len pos : ℕ) (s : State)
    → inode.file_size ≤ 4096
    → pos < inode.file_size
    → read true true inode len pos s ≡ (
      ok (take (min inode.file_size len) (as_bytes (s.cache.data_block inode.data_block_number))),
      pos + min inode.file_size len,
      s ▷ sb_bread ▷ brelse,
    )
unfolding read
read_inside inode len pos s small inside =
    let before_end : leb inode.file_size pos ≡ false = ground arith in
    let in_block : ltb 4096 (min inode.file_size len) ≡ false = ground arith in
    rw (before_end, in_block)

read_back :
    (k : Kernel) (inode : Inode) (slot : ℕ) (buf : List ℕ) (len : ℕ) (s : State)
    (file : IsStored s inode slot)
    → 0 < length buf
    → length buf ≤ 4096
    → length buf ≤ len
    → let r =
        read true true (sized k inode slot buf 0 s file) len 0 (after k inode slot buf 0 s file) in
      (r.0 ≡ ok buf) × (r.1 ≡ length buf)
unfolding as_bytes
read_back k inode slot buf len s file some_bytes fits long =
    let n = inode.data_block_number in
    let all : min (0 + length buf) len ≡ length buf = omega arith in
    let step =
      read_inside (sized k inode slot buf 0 s file) len 0 (after k inode slot buf 0 s file)
        (omega arith) (omega arith) in
    (
      ap (λ (r : ReadResult). r.0) step
          ∙ ap ok (
              rw (==_refl n) (
                overlay_start (as_bytes (s.cache.data_block n)) buf (min (0 + length buf) len)
                  all)),
      ap (λ (r : ReadResult). r.1) step ∙ omega arith,
    )

read_offset :
    (k : Kernel) (inode : Inode) (slot : ℕ) (buf : List ℕ) (len pos : ℕ) (s : State)
    (file : IsStored s inode slot)
    → length buf ≤ 4096
    → pos < length buf
    → let r =
        read true true
          (sized k inode slot buf 0 s file)
          len
          pos
          (after k inode slot buf 0 s file) in
      (r.0 ≡ ok (take len buf)) × (r.1 ≡ pos + min (length buf) len)
unfolding as_bytes
read_offset k inode slot buf len pos s file fits inside =
    let n = inode.data_block_number in
    let b = as_bytes (s.cache.data_block n) in
    let m = min (length buf) len in
    let all : min (0 + length buf) len ≡ m = omega arith in
    let step =
      read_inside (sized k inode slot buf 0 s file) len pos (after k inode slot buf 0 s file)
        (omega arith) (omega arith) in
    let start : take m (overlay b 0 buf) ≡ take len buf =
      sym (take-take m (length buf) (overlay b 0 buf) (omega arith))
      ∙ ap (take m) (overlay_start b buf (length buf) refl)
      ∙ take-min len buf in
    (
      ap (λ (r : ReadResult). r.0) step
          ∙ ap ok (rw (==_refl n) (ap (λ q. take q (overlay b 0 buf)) all ∙ start)),
      ap (λ (r : ReadResult). r.1) step ∙ ap (λ q. pos + q) all,
    )

-- In a sound state with no lock held, what an uninterrupted write of at least one byte and at most a
-- block puts at the start of a file is what a read from the start gives, of any length not shorter.
pub read-write :
    (k : Kernel) (inode : Inode) (slot : ℕ) (buf : List ℕ) (len : ℕ) (s : State)
    → IsStored s inode slot
    → 0 < length buf
    → length buf ≤ 4096
    → length buf ≤ len
    → let w = write k completed inode buf 0 s in
      let r = read true true w.1 len 0 w.3 in (r.0 ≡ ok buf) × (r.1 ≡ length buf)
read-write k inode slot buf len s file some_bytes fits long =
    subst
      (λ (w : WriteResult).
        let r = read true true w.1 len 0 w.3 in (r.0 ≡ ok buf) × (r.1 ≡ length buf))
      (sym (write_final k inode slot buf 0 s file (omega arith)))
      (read_back k inode slot buf len s file some_bytes fits long)

-- In a sound state with no lock held, after an uninterrupted write of at most a block at the start of
-- a file, a read from any offset below the end gives the bytes from the start of the file, as many as
-- the file has or the read asks for, and moves the position on by as many from that offset.
pub read_ignores_offset :
    (k : Kernel) (inode : Inode) (slot : ℕ) (buf : List ℕ) (len pos : ℕ) (s : State)
    → IsStored s inode slot
    → length buf ≤ 4096
    → pos < length buf
    → let w = write k completed inode buf 0 s in
      let r = read true true w.1 len pos w.3 in
      (r.0 ≡ ok (take len buf)) × (r.1 ≡ pos + min (length buf) len)
read_ignores_offset k inode slot buf len pos s file fits inside =
    subst
      (λ (w : WriteResult).
        let r = read true true w.1 len pos w.3 in
        (r.0 ≡ ok (take len buf)) × (r.1 ≡ pos + min (length buf) len))
      (sym (write_final k inode slot buf 0 s file (omega arith)))
      (read_offset k inode slot buf len pos s file fits inside)

-- A write that would end behind the block is not refused: it goes on past the buffer.
pub write-oops :
    (k : Kernel) (e : WriteEnv) (inode : Inode) (buf : List ℕ) (pos : ℕ) (s : State)
    → e.got_block ≡ true
    → 4096 < pos + length buf
    → (write k e inode buf pos s).0 ≡ oops
unfolding write
write-oops k e inode buf pos s got long =
    let outside : ltb 4096 (pos + length buf) ≡ true = ground arith in rw (got, outside)
