-- ===== src/Simple/Module/Lifetime.antt =====
-- What the module of simplefs/simple.c allocates and does not give back.
use simplefs.Base.{
  ℕ, ◌+◌, ◌≡◌, refl, Bool, true, false, ◌&&◌, Option, none, some, ◌==◌, Bool-cases, inl, inr, arith,
}
use simplefs.Simple.Types.{err, eperm, simplefs_magic, default_block_size}
use simplefs.Simple.State.{State, Kernel}
use simplefs.Simple.Mount.{MountEnv, fill_super}
use simplefs.Simple.Mount.Mounted.{fill_super_refused}
use simplefs.Simple.Module.{
  Loading, load_ok, simplefs_init, simplefs_exit, Mounting, fill_info, simplefs_mount,
  simplefs_kill_superblock,
}

-- A mount of a volume that is accepted, and its unmount, leave no memory.
kill-fill :
    (s : State) (m : Mounting)
    → (s.cache.super.magic == simplefs_magic) ≡ true
    → (s.cache.super.block_size == default_block_size) ≡ true
    → (simplefs_kill_superblock (fill_info true s m)).infos ≡ m.infos
unfolding simplefs_kill_superblock fill_info
kill-fill s m magic size = rw (magic, size) (omega arith)

fill_info-refused :
    (s : State) (m : Mounting)
    → m.s_fs_info ≡ false
    → ((s.cache.super.magic == simplefs_magic) && (s.cache.super.block_size == 4096)) ≡ false
    → simplefs_kill_superblock (fill_info true s m) ≡ record m { infos = m.infos + 1 }
unfolding simplefs_kill_superblock fill_info
fill_info-refused s m unset bad = elim (Bool-cases (s.cache.super.magic == simplefs_magic)) [
  | inr other ↦ rw (other, unset) refl
  | inl magic ↦
      let size : (s.cache.super.block_size == 4096) ≡ false = rw magic at bad in
      rw (magic, size, unset) refl
]

-- Where block 0 can be read and there is memory for `struct simplefs_sb_info`, a volume with another
-- magic number or another block size is refused with EPERM, and neither its blocks nor the module's
-- variables change; but the block of `struct simplefs_sb_info` that the mount allocated is never
-- freed.
pub simplefs_mount_refused :
    (k : Kernel) (e : MountEnv) (s : State) (m : Mounting)
    → e.super_read ≡ true
    → e.info_alloc ≡ true
    → m.s_fs_info ≡ false
    → ((s.cache.super.magic == simplefs_magic) && (s.cache.super.block_size == 4096)) ≡ false
    → let r = fill_super k e s in
      (r ≡ (err eperm, s))
      × (simplefs_mount e.info_alloc r.0 s m ≡ record m { infos = m.infos + 1 })
unfolding simplefs_mount
simplefs_mount_refused k e s m got memory unset bad =
    let refused = fill_super_refused k e s got memory bad in
    (refused, rw (refused, memory) (fill_info-refused s m unset bad))

-- A module that was loaded leaves the cache of directory entries behind when it is unloaded.
simplefs_exit-init :
    (made_inodes made_entries : Bool) (refused : Option ℕ) (m : Loading)
    → (simplefs_init made_inodes made_entries refused m).1 ≡ load_ok
    → let u = simplefs_exit (simplefs_init made_inodes made_entries refused m).0 in
      (u.has_inode_cache ≡ false) × (u.has_entry_cache ≡ true) × (u.registered ≡ false)
unfolding simplefs_init simplefs_exit
simplefs_exit-init true true none m ok_load = (refl, refl, refl)
simplefs_exit-init false _ _ m ok_load = absurd (cc)
simplefs_exit-init true false _ m ok_load = absurd (cc)
simplefs_exit-init true true (some e) m ok_load = absurd (cc)
