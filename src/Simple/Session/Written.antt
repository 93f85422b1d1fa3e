-- ===== src/Simple/Session/Written.antt =====
-- A write to a file leaves the directory open.
use simplefs.Base.{ℕ, suc, ◌≢◌, sym, ap, ◌∙◌, List, ==_false, length, ◌<◌, arith}
use simplefs.Simple.Types.{Inode}
use simplefs.Simple.State.{State, Kernel}
use simplefs.Simple.Store.Counts.{slot_no, slot_no-set}
use simplefs.Simple.Store.Soundness.{IsSound-below}
use simplefs.Simple.Directory.{DirCache}
use simplefs.Simple.Objects.{Dentry}
use simplefs.Simple.Files.Contents.{IsStored, write-IsWrittenFile, write-other_blocks}
use simplefs.Simple.Session.{IsOpen, IsFile, write_of}

pub written-IsOpen :
    (k : Kernel) (s : State) (dir : Dentry) (cache : DirCache) (file : Inode) (pos : ℕ)
    (buf : List ℕ)
    → IsOpen s dir cache
    → IsFile s dir file pos buf
    → IsOpen (write_of k file buf pos s).3 dir cache
written-IsOpen k s dir cache file pos buf o f =
    let stored : IsStored s file f.slot = record {
      sound = o.sound;
      unlocked = o.unlocked;
      number = f.file_no;
      stored = f.file_stored;
    } in
    let w = write-IsWrittenFile k file f.slot buf pos s stored f.fits in
    let apart : f.slot ≢ o.parent_slot =
      λ e. f.apart (o.parent_no ∙ ap suc (sym e) ∙ sym f.file_no) in
    let inside : f.slot < length s.cache.store =
      omega (arith, IsSound-below s f.slot o.sound (omega (arith, f.file_stored))) in
    record {
      sound = w.sound;
      unlocked = w.unlocked;
      parent_slot = o.parent_slot;
      parent_no = o.parent_no;
      parent_stored =
          ap (λ l. slot_no l o.parent_slot) w.saved
          ∙ slot_no-set s.cache.store f.slot o.parent_slot _ inside
          ∙ rw (==_false f.slot o.parent_slot apart) o.parent_stored;
      cached = o.cached;
      coherent =
          rw
            (write-other_blocks k file f.slot buf pos s stored dir.d_inode.data_block_number f.fits
              f.block_apart)
            o.coherent;
      unique = o.unique;
    }
