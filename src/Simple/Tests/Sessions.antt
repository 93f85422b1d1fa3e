-- ===== src/Simple/Tests/Sessions.antt =====
-- A create and an unlink on the sample volume of simplefs/simple.c, in sequence.
use simplefs.Base.{[], ◌≡◌, refl, ap, arith}
use simplefs.Simple.Types.{as_records, s_ifreg}
use simplefs.Simple.State.{State}
use simplefs.Simple.Machine.{machine, machine-IsKernel}
use simplefs.Simple.Directory.{DirCache, link_entry, build_loop, used_cache_entry_get}
use simplefs.Simple.Objects.{Dentry}
use simplefs.Simple.Directory.{cache_alloc}
use simplefs.Simple.Directory.Coherence.{used_from}
use simplefs.Simple.Mount.{fill_root, fill_super, make_root, fill_imap}
use simplefs.Simple.Store.{get_inode}
use simplefs.Simple.Readdir.{DirContext, iterate, iterate_cached, iterate_build}
use simplefs.Simple.Objects.Names.{number_of, view}
use simplefs.Simple.Session.{
  IsOpen, HasRoom, IsChild, NameMap, insert, delete, create_of, unlink_of, created_number, Session,
  mounted, wrote, IsMountable, IsFile, mount_of, list_of, write_of, opened, created, unlinked,
}
use simplefs.Simple.Session.Refined.{Session-refines}
use simplefs.Simple.Tests.{
  image, root, vanakkam, hello, welcome, state, root_cache, root_dentry, state-IsSound,
  root_cache-IsCoherent, can_create,
}
use simplefs.Simple.Tests.Contents.{image-IsOrdered}
use simplefs.Simple.Tests.Namespace.{free_slot, no_hello, welcome_entry}

root-IsOpen : IsOpen state root_dentry root_cache
unfolding as_records used_cache_entry_get build_loop link_entry
root-IsOpen = record {
  sound = state-IsSound;
  unlocked = refl;
  parent_slot = 0;
  parent_no = refl;
  parent_stored = refl;
  cached = refl;
  coherent = root_cache-IsCoherent;
  unique = (refl, tt);
}

room_for_one : HasRoom state root_cache free_slot hello s_ifreg
room_for_one = record {
  room = can_create.room;
  target = can_create.target;
  target_low = can_create.target_low;
  target_high = can_create.target_high;
  target_free = can_create.target_free;
  number = can_create.number;
  number_small = can_create.number_small;
  number_free = can_create.number_free;
  typed = can_create.typed;
  short = omega arith;
}

welcome-IsChild : IsChild state root_dentry root_cache vanakkam welcome_entry welcome
unfolding used_cache_entry_get build_loop link_entry
welcome-IsChild = record {
  named = refl;
  child_slot = 1;
  child_no = refl;
  child_stored = refl;
  apart = λ e. omega arith;
}

-- The welcome file is unlinked, in the directory that then has no name.
emptied-Session :
    Session machine
      (delete vanakkam (view root_cache.used))
      (unlink_of machine root_dentry vanakkam welcome state).1
      (unlink_of machine root_dentry vanakkam welcome state).2
emptied-Session = unlinked vanakkam welcome_entry welcome (opened root-IsOpen) refl welcome-IsChild

-- The file is created, in the directory that then has two names.
abbrev made : Dentry × State
made = (
  (create_of machine root_dentry hello s_ifreg state).1,
  (create_of machine root_dentry hello s_ifreg state).2,
)

abbrev made_map : NameMap
made_map =
    insert hello (created_number (create_of machine root_dentry hello s_ifreg state).0)
      (view root_cache.used)

made-Session : Session machine made_map made.0 made.1
made-Session =
    created free_slot hello s_ifreg (opened root-IsOpen) refl room_for_one (ap number_of no_hello)

-- The sample volume, mounted and listed.
abbrev ctx : DirContext
ctx = record { pos = 0; emitted = []; room = 5 }

ready : IsMountable image root ctx
unfolding as_records used_cache_entry_get
ready = record {
  ordered = image-IsOrdered;
  magic = refl;
  block_size = refl;
  root_stored = refl;
  root_no = refl;
  whole = refl;
  unique = (refl, tt);
  from_start = refl;
  enough = omega arith;
}

abbrev listed : Dentry × State
listed = (
  (list_of machine root ctx (mount_of machine image)).1,
  (list_of machine root ctx (mount_of machine image)).3,
)

welcome-IsFile : IsFile listed.1 listed.0 welcome 2 hello
unfolding iterate iterate_cached iterate_build cache_alloc fill_super fill_root get_inode make_root
    fill_imap
welcome-IsFile = record {
  slot = 1;
  file_no = refl;
  file_stored = refl;
  apart = λ e. omega arith;
  block_apart = λ e. omega arith;
  fits = omega arith;
}

-- The first listing, and a write to the welcome file.
written : State
written = (write_of machine welcome hello 2 listed.1).3

abbrev root_names : NameMap
root_names = view (used_from 0 (as_records (image.data_block 2)))

written-Session : Session machine root_names listed.0 written
unfolding written
written-Session = wrote welcome 2 hello (mounted ready) welcome-IsFile

Session-refines_example :
    (cache : DirCache) × IsOpen written listed.0 cache
    × (view cache.used vanakkam ≡ root_names vanakkam)
Session-refines_example =
    Session-refines machine machine-IsKernel root_names listed.0 written vanakkam written-Session
