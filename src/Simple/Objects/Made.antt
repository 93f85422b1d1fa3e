-- ===== src/Simple/Objects/Made.antt =====
-- What `simplefs_mkdir` makes.
use simplefs.Base.{ℕ, ◌+◌, ◌^◌, ◌<◌, ◌≡◌, refl, ap, sym, ◌∙◌, List, true, or_below, arith}
use mathlib.Core.Path.{subst}
use simplefs.Simple.Types.{Inode, ok, s_ifdir, s_isdir}
use simplefs.Simple.State.{State, Kernel}
use simplefs.Simple.Store.Soundness.{IsKernel}
use simplefs.Simple.Directory.{DirCache, CacheEntry}
use simplefs.Simple.Objects.{
  CreateResult, Dentry, VfsInode, vfs_inode, dir_operations, fop_of_mode, create_fs_object, mkdir,
}
use simplefs.Simple.Objects.Create.{granted, CanCreate, new_inode, create_final}

-- An uninterrupted mkdir, with all that `CanCreate` asks for, makes a directory: the inode has the
-- permissions of the request and the type of a directory, and the operations of one.
pub mkdir-IsDirectory :
    (k : Kernel) (dir : Dentry) (cache : DirCache) (slot : CacheEntry) (name : List ℕ) (m : ℕ)
    (s : State)
    → IsKernel k
    → m < 2 ^ 12
    → CanCreate s dir cache slot name (s_ifdir + m)
    → let r = mkdir k granted dir name m s in
      (i : VfsInode) × (r.0 ≡ ok i) × (i.i_mode ≡ s_ifdir + m) × (i.i_fop ≡ dir_operations)
unfolding mkdir fop_of_mode
mkdir-IsDirectory k dir cache slot name m s laws small can =
    subst
      (λ (r : CreateResult).
        (i : VfsInode) × (r.0 ≡ ok i) × (i.i_mode ≡ s_ifdir + m) × (i.i_fop ≡ dir_operations))
      (sym (
        ap (λ mode. create_fs_object k granted dir name mode s) (or_below 14 m (omega arith))
        ∙ create_final k laws dir cache slot name (s_ifdir + m) s can))
      (vfs_inode fresh, refl, refl, is_directory)
  where
    fresh : Inode
    fresh = new_inode k laws dir cache slot name (s_ifdir + m) s can

    is_directory : fop_of_mode (s_ifdir + m) ≡ dir_operations
    is_directory = let directory : s_isdir (s_ifdir + m) ≡ true = ground arith in rw directory
