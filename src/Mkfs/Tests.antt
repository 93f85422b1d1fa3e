-- ===== src/Mkfs/Tests.antt =====
-- The theorems about simplefs/mkfs-simplefs.c at concrete inputs.
use simplefs.Base.{get_elem?, ◌≡◌, refl, true, none, some, [], ◌==◌, if◌then◌else◌, arith}
use simplefs.Simple.Types.{ok, as_records}
use simplefs.Simple.Machine.{machine, machine-IsKernel}
use simplefs.Simple.Store.Soundness.{IsSound}
use simplefs.Simple.Mount.{fill_super}
use simplefs.Simple.Mount.Mounted.{completed_mount, unmounted}
use simplefs.Mkfs.Layout.{Device, volume_of}
use simplefs.Mkfs.Format.{Calls, root_inode, welcome_record, main}
use simplefs.Mkfs.Formatted.{all_done, main-mounts, main_stale}
use simplefs.Mkfs.Listed.{root_listing, main-root_listing}
use simplefs.Mkfs.Outcome.{main-exit_code}
use simplefs.Mkfs.Opened.{welcomed, main-opens}
use simplefs.Simple.Directory.{DirCache}
use simplefs.Simple.Readdir.{DirContext}
use simplefs.Simple.Objects.Names.{view}
use simplefs.Simple.Session.{IsOpen, list_of, mount_of}

abbrev blank : Device
blank i = 0

main-mounts_example :
    let r = main 0 all_done true true blank in
    let v = volume_of r.1 in
    let m = fill_super machine completed_mount (unmounted v) in
    (r.0 ≡ some 0) × (m.0 ≡ ok (some root_inode)) × IsSound m.1 × (m.1.cache ≡ v)
main-mounts_example = main-mounts machine 0 blank machine-IsKernel (λ i a b. refl)

-- A device with inode number 9 in slot 2 of an older inode store.
abbrev used : Device
used i = if i == 4168 then 9 else 0

main_stale_example :
    get_elem? (volume_of (main 0 all_done true true used).1).store 2
    ≡ get_elem? (volume_of used).store 2
main_stale_example = main_stale 0 used 2 (omega arith)

-- A device that is full within the superblock.
abbrev cut_short : Calls
cut_short = record {
  super_stop = some 100;
  root_stop = none;
  inode_stop = none;
  inode_seek = true;
  dirent_stop = none;
  dirent_seek = true;
  block_stop = none;
}

main-exit_code_example : (main 0 cut_short true true blank).0 ≡ some 1
main-exit_code_example = main-exit_code 0 cut_short blank

blank_root_records :
    as_records ((volume_of (main 0 all_done true true blank).1).data_block 2) ≡ root_listing
blank_root_records = main-root_listing 0 blank (λ i a b. refl)

-- The position and the room of a listing.
abbrev first : DirContext
first = record { pos = 0; room = 1; emitted = [] }

main-opens_example :
    let v = volume_of (main 0 all_done true true blank).1 in
    let listed = list_of machine root_inode first (mount_of machine v) in
    (cache : DirCache) × IsOpen listed.3 listed.1 cache
    × (view cache.used welcome_record.filename ≡ welcomed welcome_record.filename)
main-opens_example =
    main-opens machine 0 blank first welcome_record.filename machine-IsKernel (λ i a b. refl)
      (λ i a b. refl) refl (omega arith)
