-- ===== src/Simple/Tests/Signals.antt =====
-- The theorems about interrupted creates and about mkdir of simplefs/simple.c on the sample volume.
use simplefs.Base.{bit, arith, ◌≡◌, ◌+◌, refl, true, false, set}
use simplefs.Simple.Types.{as_records, ok, err, eintr, s_ifreg, s_ifdir, zero_record}
use simplefs.Simple.State.{no_locks}
use simplefs.Simple.Machine.{machine, machine-IsKernel}
use simplefs.Simple.Store.Counts.{slot_no}
use simplefs.Simple.Directory.{entry}
use simplefs.Simple.Objects.{VfsInode, dir_operations, create_fs_object, mkdir}
use simplefs.Simple.Objects.Create.{granted, CanCreate}
use simplefs.Simple.Objects.Made.{mkdir-IsDirectory}
use simplefs.Simple.Objects.Interrupted.{interrupted, create_without_lock, create_half_done}
use simplefs.Simple.Tests.{hello, root_records, state, root_cache, root_dentry, can_create}

hello_without_lock :
    let r =
      create_fs_object machine (interrupted false true true) root_dentry hello s_ifreg state in
    (r.0 ≡ err eintr)
    × (r.1 ≡ root_dentry)
    × (r.2.cache ≡ state.cache)
    × (r.2.disk ≡ state.disk)
    × (r.2.imap ≡ 7)
    × (r.2.locks ≡ record no_locks { misused = true })
hello_without_lock =
    create_without_lock machine machine-IsKernel root_dentry root_cache (entry zero_record 1) hello
      s_ifreg state can_create true true

create_half_done_example :
    let r =
      create_fs_object machine (interrupted true false false) root_dentry hello s_ifreg state in
    (r.0 ≡ err eintr)
    × (r.2.locks ≡ record no_locks { inodes_mgmt_lock = true })
    × (r.2.refs ≡ 1)
    × (r.2.cache.store ≡ state.cache.store)
    × (r.2.imap ≡ 7)
    × (slot_no r.2.cache.store 2 ≡ 0)
    × (bit 3 r.2.imap ≡ 0)
    × (as_records (r.2.disk.data_block 2)
        ≡ set root_records 1 (record { filename = hello; inode_no = 3 }))
unfolding as_records
create_half_done_example =
    create_half_done machine machine-IsKernel root_dentry root_cache (entry zero_record 1) hello
      s_ifreg state can_create

can_mkdir : CanCreate state root_dentry root_cache (entry zero_record 1) hello (s_ifdir + 0o755)
can_mkdir = record {
  sound = can_create.sound;
  unlocked = can_create.unlocked;
  parent_slot = can_create.parent_slot;
  parent_no = can_create.parent_no;
  parent_stored = can_create.parent_stored;
  cached = can_create.cached;
  coherent = can_create.coherent;
  room = can_create.room;
  target = can_create.target;
  target_low = can_create.target_low;
  target_high = can_create.target_high;
  target_free = can_create.target_free;
  number = can_create.number;
  number_small = can_create.number_small;
  number_free = can_create.number_free;
  typed = refl;
  short = omega arith;
}

mkdir_of_directory :
    let r = mkdir machine granted root_dentry hello 0o755 state in
    (i : VfsInode) × (r.0 ≡ ok i) × (i.i_mode ≡ s_ifdir + 0o755) × (i.i_fop ≡ dir_operations)
mkdir_of_directory =
    mkdir-IsDirectory machine root_dentry root_cache (entry zero_record 1) hello 0o755 state
      machine-IsKernel (omega arith) can_mkdir
