-- ===== src/Simple/Tests/Contents.antt =====
-- The theorems about blocks, files, listings and mounts of simplefs/simple.c on the sample volume.
use simplefs.Base.{
  take, false, zero, suc, replicate, ℕ, ◌^◌, ◌≤◌, ◌<◌, ◌≡◌, refl, ◌∙◌, [], ◌∷◌, true, none, some,
  arith, bit, bit-pow,
}
use simplefs.Simple.Types.{zero_record, records, bytes, as_bytes, as_records, ok, err, eperm}
use simplefs.Simple.State.{State, no_locks}
use simplefs.Simple.Machine.{machine, machine-IsKernel}
use simplefs.Simple.Bytes.{IsRecord, AreRecords, as_records-as_bytes}
use simplefs.Simple.Super.{sb_get_a_freeblock}
use simplefs.Simple.Super.Blocks.{
  IsAllocated, sb_get_a_freeblock-IsAllocated, sb_get_a_freeblock-sign,
}
use simplefs.Simple.Store.Soundness.{IsSound}
use simplefs.Simple.Objects.{Dentry}
use simplefs.Simple.Readdir.{DirContext, iterate, emitted_name}
use simplefs.Simple.Readdir.Listing.{IsListed, iterate-IsListed, iterate_again}
use simplefs.Simple.Files.{read, write}
use simplefs.Simple.Files.Contents.{
  completed, IsStored, IsWrittenFile, write-IsWrittenFile, read-write, read_ignores_offset,
}
use simplefs.Simple.Module.{simplefs_mount}
use simplefs.Simple.Module.Lifetime.{simplefs_mount_refused}
use simplefs.Simple.Mount.{fill_super}
use simplefs.Simple.Mount.Mounted.{completed_mount, unmounted, IsOrdered, fill_super-IsSound}
use simplefs.Simple.Tests.{
  vanakkam, root, welcome, root_records, image, state, root_cache, root_dentry, image-placed,
  image-small, state-IsSound, root_cache-IsCoherent,
}

sb_get_a_freeblock-IsAllocated_example :
    (i : ℕ) × ((sb_get_a_freeblock machine true state).0 ≡ ok i)
    × IsAllocated machine state i (sb_get_a_freeblock machine true state).1
sb_get_a_freeblock-IsAllocated_example =
    sb_get_a_freeblock-IsAllocated machine state 4 (omega arith) (omega arith) refl

-- A volume whose only free block is number 40.
abbrev nearly_full : State
nearly_full =
    let v = image in
    let sb = image.super in
    record state { cache = record v { super = record sb { free_blocks = 2 ^ 40 } } }

low_taken : (i : ℕ) → 3 ≤ i → i < 31 → bit i nearly_full.cache.super.free_blocks ≡ 0
low_taken i low high = bit-pow i 40 ∙ ground arith

sb_get_a_freeblock-sign_example :
    let r = sb_get_a_freeblock machine true nearly_full in
    (r.0 ≡ ok 31) × (bit 63 r.1.cache.super.free_blocks ≡ 0)
sb_get_a_freeblock-sign_example =
    sb_get_a_freeblock-sign machine nearly_full 40 63 low_taken (omega arith) (omega arith) refl
      (omega arith)

welcome-IsStored : IsStored state welcome 1
welcome-IsStored = record { sound = state-IsSound; unlocked = refl; number = refl; stored = refl }

write-IsWrittenFile_example :
    IsWrittenFile state welcome 1 5 vanakkam (write machine completed welcome vanakkam 5 state)
write-IsWrittenFile_example =
    write-IsWrittenFile machine welcome 1 vanakkam 5 state welcome-IsStored (omega arith)

read-write_example :
    let w = write machine completed welcome vanakkam 0 state in
    let r = read true true w.1 100 0 w.3 in (r.0 ≡ ok vanakkam) × (r.1 ≡ 8)
read-write_example =
    read-write machine welcome 1 vanakkam 100 state welcome-IsStored (omega arith) (omega arith)
      (omega arith)

read_ignores_offset_example :
    let w = write machine completed welcome vanakkam 0 state in
    let r = read true true w.1 3 2 w.3 in (r.0 ≡ ok (take 3 vanakkam)) × (r.1 ≡ 5)
read_ignores_offset_example =
    read_ignores_offset machine welcome 1 vanakkam 3 2 state welcome-IsStored (omega arith)
      (omega arith)

abbrev unread : Dentry
unread = record { d_inode = root; d_fsdata = none }

abbrev from_start : DirContext
from_start = record { pos = 0; emitted = []; room = 20 }

iterate-IsListed_example :
    let r = iterate machine (λ i. true) true unread from_start state in
    IsListed unread root_records from_start r × (r.3 ≡ state)
unfolding as_records
iterate-IsListed_example =
    iterate-IsListed machine (λ i. true) (λ i. refl) unread from_start state refl refl (omega arith)

second_listing :
    let r = iterate machine (λ i. true) true root_dentry from_start state in
    (r.0 ≡ ok tt)
    × (r.1 ≡ root_dentry)
    × (r.3 ≡ state)
    × (r.2.emitted ≡ (emitted_name vanakkam, 2) ∷ [])
    × (r.2.pos ≡ 264)
second_listing =
    iterate_again machine (λ i. true) (λ i. refl) root_dentry from_start state true root_cache
      root_records refl root_cache-IsCoherent (omega arith)

pub image-IsOrdered : IsOrdered image
image-IsOrdered = record { full = refl; placed = image-placed; small = image-small; counted = refl }

fill_super-IsSound_example :
    let r = fill_super machine completed_mount (unmounted image) in
    (r.0 ≡ ok (some root))
    × IsSound r.1
    × (r.1.cache ≡ image)
    × (r.1.disk ≡ image)
    × (r.1.locks ≡ no_locks)
    × (r.1.refs ≡ 0)
fill_super-IsSound_example =
    fill_super-IsSound machine machine-IsKernel image image-IsOrdered root refl refl refl

-- A volume of zeros.
abbrev blank : State
blank =
    let v = image in
    unmounted (record v {
      super = record { version = 0; magic = 0; block_size = 0; inodes_count = 0; free_blocks = 0 };
    })

simplefs_mount_refused_example :
    let r = fill_super machine completed_mount blank in
    (r ≡ (err eperm, blank))
    × (simplefs_mount true r.0 blank (record { infos = 0; s_fs_info = false })
        ≡ record { infos = 1; s_fs_info = false })
simplefs_mount_refused_example =
    simplefs_mount_refused machine completed_mount blank (record { infos = 0; s_fs_info = false })
      refl refl refl refl

zeros-AreRecords : (n : ℕ) → AreRecords (replicate n zero_record)
zeros-AreRecords zero = tt
zeros-AreRecords (suc n) =
    (record { short = omega arith; clean = tt; number = omega arith }, zeros-AreRecords n)

root-IsRecord : IsRecord (record { filename = vanakkam; inode_no = 2 })
root-IsRecord = record {
  short = omega arith;
  clean = (
    omega arith,
    (
      omega arith,
      (omega arith, (omega arith, (omega arith, (omega arith, (omega arith, (omega arith, tt)))))),
    ),
  );
  number = omega arith;
}

root_block_bytes : as_records (bytes (as_bytes (records root_records))) ≡ root_records
root_block_bytes = as_records-as_bytes root_records refl (root-IsRecord, zeros-AreRecords 14)
