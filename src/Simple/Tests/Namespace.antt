-- ===== src/Simple/Tests/Namespace.antt =====
-- The theorems about create, lookup and unlink of simplefs/simple.c on the sample volume.
use simplefs.Base.{false, ◌≡◌, refl, true, none, some, arith}
use simplefs.Simple.Types.{as_records, ok, err, einval, s_ifreg, zero_record}
use simplefs.Simple.State.{no_locks}
use simplefs.Simple.Machine.{machine, machine-IsKernel}
use simplefs.Simple.Store.Counts.{slot_no}
use simplefs.Simple.Store.Soundness.{IsSound}
use simplefs.Simple.Directory.{
  DirCache, CacheEntry, entry, link_entry, build_loop, used_cache_entry_get,
}
use simplefs.Simple.Directory.Coherence.{IsCoherent}
use simplefs.Simple.Directory.Slots.{HasUniqueNames}
use simplefs.Simple.Objects.{VfsInode, create_fs_object, lookup, unlink}
use simplefs.Simple.Objects.Create.{granted}
use simplefs.Simple.Objects.Created.{
  IsCreated, IsSettled, create_fs_object-IsCreated, create_fs_object-IsSound,
  create_fs_object-IsSettled,
}
use simplefs.Simple.Objects.Lookup.{lookup-create}
use simplefs.Simple.Objects.Refused.{create_fs_object_refused}
use simplefs.Simple.Objects.Names.{view, create-inserts, unlink-deletes}
use simplefs.Simple.Objects.Unlinked.{
  CanUnlink, IsUnlinked, unlink-IsUnlinked, unlink-IsSound, unlink_disk,
}
use simplefs.Simple.Tests.{
  vanakkam, hello, welcome, state, root_cache, root_dentry, state-IsSound, root_cache-IsCoherent,
  can_create,
}

abbrev pub free_slot : CacheEntry
free_slot = entry zero_record 1

create_fs_object-IsCreated_example :
    IsCreated state root_dentry 0 s_ifreg
      (create_fs_object machine granted root_dentry hello s_ifreg state)
unfolding can_create
create_fs_object-IsCreated_example =
    create_fs_object-IsCreated machine machine-IsKernel root_dentry root_cache free_slot hello
      s_ifreg state can_create

create_fs_object-IsSound_example :
    let r = create_fs_object machine granted root_dentry hello s_ifreg state in
    IsSound r.2
    × ((c : DirCache) × (r.1.d_fsdata ≡ some c)
        × IsCoherent c (as_records (r.2.cache.data_block 2)))
create_fs_object-IsSound_example =
    create_fs_object-IsSound machine machine-IsKernel root_dentry root_cache free_slot hello s_ifreg
      state can_create

create_fs_object-IsSettled_example :
    IsSettled state 2 (create_fs_object machine granted root_dentry hello s_ifreg state).2
create_fs_object-IsSettled_example =
    create_fs_object-IsSettled machine machine-IsKernel root_dentry root_cache free_slot hello
      s_ifreg state can_create

pub no_hello : used_cache_entry_get root_cache.used hello ≡ none
unfolding used_cache_entry_get build_loop link_entry
no_hello = refl

lookup-create_example :
    let r = create_fs_object machine granted root_dentry hello s_ifreg state in
    (i : VfsInode) × (r.0 ≡ ok i) × ((lookup true true true true r.1 hello r.2).0 ≡ ok (some i))
lookup-create_example =
    lookup-create machine machine-IsKernel root_dentry root_cache free_slot hello s_ifreg state
      can_create no_hello

hello_inserted :
    let r = create_fs_object machine granted root_dentry hello s_ifreg state in
    (i : VfsInode) × (c : DirCache) × (r.0 ≡ ok i)
    × (r.1.d_fsdata ≡ some c)
    × (view c.used hello ≡ some i.i_ino)
hello_inserted =
    create-inserts machine machine-IsKernel root_dentry root_cache free_slot hello s_ifreg state
      can_create hello no_hello

abbrev pub welcome_entry : CacheEntry
welcome_entry = entry (record { filename = vanakkam; inode_no = 2 }) 0

can_unlink : CanUnlink state root_dentry root_cache vanakkam welcome_entry welcome
unfolding as_records used_cache_entry_get build_loop link_entry
can_unlink = record {
  sound = state-IsSound;
  unlocked = refl;
  parent_slot = 0;
  parent_no = refl;
  parent_stored = refl;
  child_slot = 1;
  child_no = refl;
  child_stored = refl;
  apart = omega arith;
  cached = refl;
  coherent = root_cache-IsCoherent;
  named = refl;
}

unlink-IsUnlinked_example :
    IsUnlinked state root_dentry 0 1
      (unlink machine true true true root_dentry vanakkam welcome state)
unfolding can_unlink
unlink-IsUnlinked_example =
    unlink-IsUnlinked machine machine-IsKernel root_dentry root_cache vanakkam welcome_entry welcome
      state can_unlink

unlink-IsSound_example :
    let r = unlink machine true true true root_dentry vanakkam welcome state in
    IsSound r.2
    × ((c : DirCache) × (r.1.d_fsdata ≡ some c)
        × IsCoherent c (as_records (r.2.cache.data_block 2)))
unlink-IsSound_example =
    unlink-IsSound machine machine-IsKernel root_dentry root_cache vanakkam welcome_entry welcome
      state can_unlink

one_name : HasUniqueNames root_cache.used
unfolding used_cache_entry_get build_loop link_entry
one_name = (refl, tt)

welcome_deleted :
    let r = unlink machine true true true root_dentry vanakkam welcome state in
    (c : DirCache) × (r.1.d_fsdata ≡ some c) × (view c.used vanakkam ≡ none)
welcome_deleted =
    unlink-deletes machine machine-IsKernel root_dentry root_cache vanakkam welcome_entry welcome
      state can_unlink vanakkam one_name

unlink_disk_example :
    let t = (unlink machine true true true root_dentry vanakkam welcome state).2 in
    (t.locks ≡ no_locks)
    × (t.refs ≡ 0)
    × (t.disk.super ≡ t.cache.super)
    × (t.disk.data_block 2 ≡ t.cache.data_block 2)
    × (slot_no t.disk.store 1 ≡ 2)
unfolding can_unlink
unlink_disk_example =
    unlink_disk machine machine-IsKernel root_dentry root_cache vanakkam welcome_entry welcome state
      can_unlink

-- A symbolic link is neither a directory nor a regular file.
create_fs_object_refused_example :
    create_fs_object machine granted root_dentry hello 0o120000 state
    ≡ (err einval, root_dentry, state)
create_fs_object_refused_example =
    create_fs_object_refused machine root_dentry root_cache hello 0o120000 true state
      (einval, false) refl refl refl
