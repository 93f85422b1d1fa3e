-- ===== src/Simple/Session.antt =====
-- A directory of simplefs/simple.c through any sequence of creates, unlinks and writes of its files.
mod Unique
mod Mounted
mod Written
pub mod Refined
use simplefs.Base.{
  length, take, get_elem?, ◌+◌, ℕ, suc, ◌≤◌, ◌<◌, ◌≡◌, ◌≢◌, List, Bool, true, Option, none, some,
  ◌||◌, bit, str_eq, if◌then◌else◌,
}
use simplefs.Simple.Types.{
  simplefs_magic, records_per_block, s_isdir, s_isreg, Inode, Outcome, ok, err, oops, as_records,
}
use simplefs.Simple.State.{State, Volume, Kernel, no_locks}
use simplefs.Simple.Files.{write, WriteResult}
use simplefs.Simple.Files.Contents.{completed}
use simplefs.Simple.Mount.{fill_super}
use simplefs.Simple.Mount.Mounted.{completed_mount, unmounted, IsOrdered}
use simplefs.Simple.Readdir.{DirContext, iterate}
use simplefs.Simple.Readdir.Listing.{listing}
use simplefs.Simple.Store.Counts.{slot_no}
use simplefs.Simple.Store.Soundness.{IsSound}
use simplefs.Simple.Directory.{DirCache, CacheEntry, used_cache_entry_get, free_cache_entry_get}
use simplefs.Simple.Directory.Coherence.{IsCoherent, used_from}
use simplefs.Simple.Directory.Slots.{HasUniqueNames}
use simplefs.Simple.Objects.Unlinked.{UnlinkResult}
use simplefs.Simple.Objects.{CreateResult, Dentry, VfsInode, create_fs_object, unlink}
use simplefs.Simple.Objects.Names.{view}
use simplefs.Simple.Objects.Create.{granted}

-- Between two calls: inode store, bitmap and count agree, no lock is held, the directory is in the
-- store and has the cache of its block, where no two entries have one name.
pub record IsOpen (s : State) (dir : Dentry) (cache : DirCache) : Type 0 where
  pub sound : IsSound s
  pub unlocked : s.locks ≡ no_locks
  pub parent_slot : ℕ
  pub parent_no : dir.d_inode.inode_no ≡ suc parent_slot
  pub parent_stored : slot_no s.cache.store parent_slot ≡ suc parent_slot
  pub cached : dir.d_fsdata ≡ some cache
  pub coherent : IsCoherent cache (as_records (s.cache.data_block dir.d_inode.data_block_number))
  pub unique : HasUniqueNames cache.used

-- What the volume must have for a create: a free slot of the directory, a free block below 31, a free
-- inode number; and a name of at most 255 bytes.
pub record HasRoom (s : State) (cache : DirCache) (slot : CacheEntry) (name : List ℕ) (mode : ℕ)
    : Type 0 where
  pub room : free_cache_entry_get cache ≡ some slot
  pub target : ℕ
  pub target_low : 3 ≤ target
  pub target_high : target < 31
  pub target_free : bit target s.cache.super.free_blocks ≡ 1
  pub number : ℕ
  pub number_small : number < 64
  pub number_free : bit number s.imap ≡ 0
  pub typed : (s_isdir mode || s_isreg mode) ≡ true
  pub short : length name < 256

-- `child` is the inode of the name's entry, and not the directory itself.
pub record IsChild (s : State) (dir : Dentry) (cache : DirCache) (name : List ℕ)
    (found : CacheEntry) (child : Inode) : Type 0 where
  pub named : used_cache_entry_get cache.used name ≡ some found
  pub child_slot : ℕ
  pub child_no : child.inode_no ≡ suc child_slot
  pub child_stored : slot_no s.cache.store child_slot ≡ suc child_slot
  pub apart : dir.d_inode.inode_no ≢ child.inode_no

-- `file` is an inode of the store, not the directory itself, with a data block of its own, in which
-- the write ends.
pub record IsFile (s : State) (dir : Dentry) (file : Inode) (pos : ℕ) (buf : List ℕ) : Type 0 where
  pub slot : ℕ
  pub file_no : file.inode_no ≡ suc slot
  pub file_stored : slot_no s.cache.store slot ≡ suc slot
  pub apart : dir.d_inode.inode_no ≢ file.inode_no
  pub block_apart : file.data_block_number ≢ dir.d_inode.data_block_number
  pub fits : pos + length buf ≤ 4096

-- A volume that can be mounted, with its root directory in `root`; the position and the room of a
-- first listing of that directory.
pub record IsMountable (v : Volume) (root : Inode) (ctx : DirContext) : Type 0 where
  pub ordered : IsOrdered v
  pub magic : v.super.magic ≡ simplefs_magic
  pub block_size : v.super.block_size ≡ 4096
  pub root_stored : get_elem? v.store 0 ≡ some root
  pub root_no : root.inode_no ≡ 1
  pub whole :
      take records_per_block (as_records (v.data_block root.data_block_number))
      ≡ as_records (v.data_block root.data_block_number)
  pub unique : HasUniqueNames (used_from 0 (as_records (v.data_block root.data_block_number)))
  pub from_start : ctx.pos ≡ 0
  pub enough : length (listing (as_records (v.data_block root.data_block_number))) ≤ ctx.room

abbrev pub created_number : Outcome VfsInode → ℕ
created_number (ok i) = i.i_ino
created_number (err e) = 0
created_number oops = 0

abbrev pub NameMap : Type 0
NameMap = List ℕ → Option ℕ

abbrev pub insert : List ℕ → ℕ → NameMap → NameMap
insert name n m other = if str_eq name other then some n else m other

abbrev pub delete : List ℕ → NameMap → NameMap
delete name m other = if str_eq name other then none else m other

-- The two calls, uninterrupted and with memory.
abbrev pub create_of : Kernel → Dentry → List ℕ → ℕ → State → CreateResult
create_of k dir name mode s = create_fs_object k granted dir name mode s

abbrev pub unlink_of : Kernel → Dentry → List ℕ → Inode → State → UnlinkResult
unlink_of k dir name child s = unlink k true true true dir name child s

abbrev pub write_of : Kernel → Inode → List ℕ → ℕ → State → WriteResult
write_of k file buf pos s = write k completed file buf pos s

-- A mount, and the first listing of the root directory, with memory for the cache.
abbrev pub mount_of : Kernel → Volume → State
mount_of k v = (fill_super k completed_mount (unmounted v)).1

abbrev pub list_of :
    Kernel → Inode → DirContext → State → Outcome (Unit {0}) × Dentry × DirContext × State
list_of k root ctx s = iterate k (λ i. true) true (record { d_inode = root; d_fsdata = none }) ctx s

-- The names and inode numbers that the calls made so far should have left, the directory and the
-- state. It starts at a directory that is open, such as the root of a volume that was mounted and
-- listed, and goes on with creates of names that the directory does not have, where there is room,
-- unlinks, and writes.
pub data Session (k : Kernel) : NameMap → Dentry → State → Type 0 where
  opened :
      {dir : Dentry} {cache : DirCache} {s : State}
      → IsOpen s dir cache
      → Session k (view cache.used) dir s
  created :
      {m : NameMap} {dir : Dentry} {cache : DirCache} {s : State} (slot : CacheEntry)
      (name : List ℕ) (mode : ℕ)
      → Session k m dir s
      → dir.d_fsdata ≡ some cache
      → HasRoom s cache slot name mode
      → m name ≡ none
      → Session k
          (insert name (created_number (create_of k dir name mode s).0) m)
          (create_of k dir name mode s).1
          (create_of k dir name mode s).2
  unlinked :
      {m : NameMap} {dir : Dentry} {cache : DirCache} {s : State} (name : List ℕ)
      (found : CacheEntry) (child : Inode)
      → Session k m dir s
      → dir.d_fsdata ≡ some cache
      → IsChild s dir cache name found child
      → Session k (delete name m) (unlink_of k dir name child s).1 (unlink_of k dir name child s).2
  mounted :
      {v : Volume} {root : Inode} {ctx : DirContext}
      → IsMountable v root ctx
      → Session k
          (view (used_from 0 (as_records (v.data_block root.data_block_number))))
          (list_of k root ctx (mount_of k v)).1
          (list_of k root ctx (mount_of k v)).3
  wrote :
      {m : NameMap} {dir : Dentry} {s : State} (file : Inode) (pos : ℕ) (buf : List ℕ)
      → Session k m dir s
      → IsFile s dir file pos buf
      → Session k m dir (write_of k file buf pos s).3
