-- ===== src/Simple/Tests.antt =====
-- The theorems about simplefs/simple.c at concrete inputs: the volume that simplefs/mkfs-simplefs.c
-- writes, with a small welcome file.
mod Namespace
mod Contents
mod Signals
mod Sessions
mod Locks
use simplefs.Base.{
  ℕ, zero, suc, ◌+◌, ◌-◌, ◌^◌, ◌≤◌, ◌<◌, ◌≡◌, ◌≢◌, refl, List, [], ◌∷◌, ◌++◌, Bool, true, false,
  Option, none, some, arith, bit, bit-zero, length, length-replicate, replicate, get_elem?, str_eq,
  take,
}
use simplefs.Simple.Types.{
  SuperBlock, Inode, DirRecord, Block, records, bytes, as_records, zero_record, zero_inode, ok, err,
  einval, eperm, enospc, simplefs_magic, s_ifdir, s_ifreg, decode_records,
}
use simplefs.Simple.State.{Volume, State, no_locks}
use simplefs.Simple.Machine.{machine, machine-IsKernel}
use simplefs.Simple.Super.{shl_one, free_block_loop, sb_get_a_freeblock}
use simplefs.Simple.Super.Blocks.{
  IsAllocated, sb_get_a_freeblock-IsAllocated, sb_get_a_freeblock-sign,
}
use simplefs.Simple.Store.Counts.{slot_no, in_use}
use simplefs.Simple.Store.Soundness.{IsSound}
use simplefs.Simple.Directory.{
  DirCache, CacheEntry, entry, empty_cache, link_entry, build_loop, used_cache_entry_get,
  free_cache_entry_get,
}
use simplefs.Simple.Directory.Coherence.{IsCoherent, build_loop-IsCoherent}
use simplefs.Simple.Objects.{Dentry, VfsInode, create_fs_object, lookup, unlink}
use simplefs.Simple.Objects.Create.{granted, CanCreate}
use simplefs.Simple.Objects.Created.{
  IsCreated, IsSettled, create_fs_object-IsCreated, create_fs_object-IsSound,
  create_fs_object-IsSettled,
}

abbrev pub vanakkam : List ℕ
vanakkam = b'v' ∷ b'a' ∷ b'n' ∷ b'a' ∷ b'k' ∷ b'k' ∷ b'a' ∷ b'm' ∷ []

abbrev pub hello : List ℕ
hello = b'h' ∷ b'e' ∷ b'l' ∷ b'l' ∷ b'o' ∷ []

abbrev pub root : Inode
root = record { mode = s_ifdir; inode_no = 1; data_block_number = 2; file_size = 1 }

abbrev pub welcome : Inode
welcome = record { mode = s_ifreg; inode_no = 2; data_block_number = 3; file_size = 5 }

abbrev pub root_records : List DirRecord
root_records = record { filename = vanakkam; inode_no = 2 } ∷ replicate 14 zero_record

abbrev pub blocks : ℕ → Block
blocks zero = bytes []
blocks (suc zero) = bytes []
blocks (suc (suc zero)) = records root_records
blocks (suc (suc (suc n))) = bytes (hello ++ replicate 4091 0)

abbrev pub image : Volume
image = record {
  super = record {
    version = 1;
    magic = simplefs_magic;
    block_size = 4096;
    inodes_count = 2;
    free_blocks = 2 ^ 64 - 1 - 2 ^ 3;
  };
  store = root ∷ welcome ∷ replicate 126 zero_inode;
  data_block = blocks;
}

-- Bits 0 to 2 of the inode bitmap: the reserved number, the root and the welcome file.
abbrev pub state : State
state = record {
  cache = image;
  disk = image;
  imap = 7;
  locks = no_locks;
  refs = 0;
  vfs_inodes = 0;
  sfs_inodes = 0;
}

no_inode : (n i : ℕ) → slot_no (replicate n zero_inode) i ≡ 0
no_inode zero i = refl
no_inode (suc n) zero = refl
no_inode (suc n) (suc i) = no_inode n i

pub image-placed : (i : ℕ) → slot_no image.store i ≢ 0 → slot_no image.store i ≡ suc i
image-placed zero h = refl
image-placed (suc zero) h = refl
image-placed (suc (suc i)) h = absurd (h (no_inode 126 i))

pub image-small : (i : ℕ) → 63 ≤ i → slot_no image.store i ≡ 0
image-small zero h = absurd (omega arith)
image-small (suc zero) h = absurd (omega arith)
image-small (suc (suc i)) h = no_inode 126 i

state-mapped : (i : ℕ) → i < 63 → bit (suc i) state.imap ≡ in_use (slot_no state.cache.store i)
state-mapped zero h = refl
state-mapped (suc zero) h = refl
state-mapped (suc (suc i)) h = ground (arith, bit-zero i, no_inode 126 i)

pub state-IsSound : IsSound state
state-IsSound = record {
  full = refl;
  placed = image-placed;
  small = image-small;
  mapped = state-mapped;
  reserved = refl;
  counted = refl;
}

abbrev pub root_cache : DirCache
root_cache = (build_loop machine (λ i. true) 0 root_records empty_cache).1

abbrev pub root_dentry : Dentry
root_dentry = record { d_inode = root; d_fsdata = some root_cache }

pub root_cache-IsCoherent : IsCoherent root_cache root_records
root_cache-IsCoherent =
    build_loop-IsCoherent machine (λ i. true) (λ i. refl) root_records empty_cache refl refl

pub can_create : CanCreate state root_dentry root_cache (entry zero_record 1) hello s_ifreg
unfolding as_records free_cache_entry_get build_loop link_entry
can_create = record {
  sound = state-IsSound;
  unlocked = refl;
  parent_slot = 0;
  parent_no = refl;
  parent_stored = refl;
  cached = refl;
  coherent = root_cache-IsCoherent;
  room = refl;
  target = 4;
  target_low = omega arith;
  target_high = omega arith;
  target_free = refl;
  number = 3;
  number_small = omega arith;
  number_free = refl;
  typed = refl;
  short = omega arith;
}
