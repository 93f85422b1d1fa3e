-- ===== src/Simple/Objects/Refused.antt =====
-- The requests that `simplefs_create_fs_object` refuses, and what it leaves then.
use simplefs.Base.{
  true, false, ◌▷◌, ℕ, ◌≡◌, refl, ap, sym, ◌∙◌, List, Bool, not, ◌||◌, ◌==◌, leb, if◌then◌else◌,
  Option, none, some, Bool-cases, inl, inr,
}
use mathlib.Core.Option.{some-injective}
use simplefs.Simple.Types.{Errno, enospc, einval, enomem, err, s_isdir, s_isreg}
use simplefs.Simple.State.{
  take_vfs_inode, take_sfs_inode, State, Kernel, Locks, no_locks, with_locks, take_sb, drop_sb,
  take_mgmt, drop_mgmt, take_children, drop_children,
}
use simplefs.Simple.Super.{first_free, sb_get_a_freeblock, sb_get_objects_count}
use simplefs.Simple.Directory.{DirCache}
use simplefs.Simple.Objects.{
  CreateResult, Dentry, create_typed, create_cached, create_counted, create_inode, create_allocated,
  create_fs_object,
}
use simplefs.Simple.Objects.Create.{granted}

-- The error of a request, in the order of the code's tests: 64 inodes, a type that is neither
-- directory nor regular file, no memory for the inode, no free data block; and whether the inode that
-- was allocated before is lost.
abbrev pub refusal : Bool → Bool → Bool → Bool → Option (Errno × Bool)
refusal full typed memory block =
    if full
    then some (enospc, false)
    else if not typed
    then some (einval, false)
    else if not memory
    then some (enomem, false)
    else if not block
    then some (enospc, true)
    else none

-- The inode and its private copy, which nothing points to any more.
abbrev pub lose_inode : State → State
lose_inode s = s ▷ take_vfs_inode ▷ take_sfs_inode

-- Locks that are taken and released again.
restore :
    (s : State) (f : Locks → Locks)
    → s.locks ≡ no_locks
    → f no_locks ≡ no_locks
    → with_locks f s ≡ s
restore s f e h = ap (λ l. record s { locks = l }) (ap f e ∙ h ∙ sym e)

refuse :
    (dir : Dentry) (s t : State) (y x : Errno × Bool)
    → some y ≡ some x
    → t ≡ (if y.1 then lose_inode s else s)
    → ◌≡◌ {A = CreateResult} (err y.0, dir, t) (err x.0, dir, if x.1 then lose_inode s else s)
refuse dir s t y x h e =
    ap (λ u. (err y.0, dir, u)) e
    ∙ ap (λ (z : Errno × Bool). (err z.0, dir, if z.1 then lose_inode s else s))
        (some-injective y x h)

-- Behind the test of the cache, each test of the code that refuses.
refused_cached :
    (k : Kernel) (dir : Dentry) (cache : DirCache) (name : List ℕ) (mode : ℕ) (memory : Bool)
    (s : State) (x : Errno × Bool)
    → s.locks ≡ no_locks
    → refusal
        (leb 64 s.cache.super.inodes_count)
        (s_isdir mode || s_isreg mode)
        memory
        (not (first_free k s.cache.super.free_blocks == 64))
      ≡ some x
    → create_cached k (record granted { new_inode = memory }) dir name mode s (some cache)
      ≡ (err x.0, dir, if x.1 then lose_inode s else s)
unfolding create_cached create_counted create_typed create_inode create_allocated sb_get_a_freeblock
    sb_get_objects_count
refused_cached k dir cache name mode memory s x unlocked h =
    elim (Bool-cases (leb 64 s.cache.super.inodes_count)) [
      | inl full ↦ rw full (refuse dir s _ (enospc, false) x (rw full at h) back₁)
      | inr room ↦ elim (Bool-cases (s_isdir mode || s_isreg mode)) [
        | inr other ↦
            rw (room, other) (refuse dir s _ (einval, false) x (rw (room, other) at h) back₁)
        | inl typed ↦ elim (Bool-cases memory) [
          | inr out ↦
              rw (room, typed, out)
                (refuse dir s _ (enomem, false) x (rw (room, typed, out) at h) back₁)
          | inl in_memory ↦ elim (Bool-cases (first_free k s.cache.super.free_blocks == 64)) [
            | inl taken ↦
                rw (room, typed, in_memory, taken)
                  (refuse dir s _ (enospc, true) x (rw (room, typed, in_memory, taken) at h) back₂)
            | inr block ↦ cc (rw (room, typed, in_memory, block) at h)
          ]
        ]
      ]
    ]
  where
    back₁ : with_locks (λ l. drop_children (drop_mgmt (take_mgmt (take_children l)))) s ≡ s
    back₁ = restore s (λ l. drop_children (drop_mgmt (take_mgmt (take_children l)))) unlocked refl

    back₂ :
        with_locks
          (λ l. drop_children (drop_sb (take_sb (drop_mgmt (take_mgmt (take_children l))))))
          (lose_inode s)
        ≡ lose_inode s
    back₂ =
        restore (lose_inode s)
          (λ l. drop_children (drop_sb (take_sb (drop_mgmt (take_mgmt (take_children l))))))
          unlocked refl

-- Where no lock is held and none is interrupted, a request that one of the tests refuses, the count
-- of inodes, the type, the memory for the inode and the free blocks in this order, gives the error of
-- the first that does, and leaves the directory and the whole state as they were; but a request that
-- only the free blocks refuse has allocated an inode and its private copy, which stay allocated.
pub create_fs_object_refused :
    (k : Kernel) (dir : Dentry) (cache : DirCache) (name : List ℕ) (mode : ℕ) (memory : Bool)
    (s : State) (x : Errno × Bool)
    → dir.d_fsdata ≡ some cache
    → s.locks ≡ no_locks
    → refusal
        (leb 64 s.cache.super.inodes_count)
        (s_isdir mode || s_isreg mode)
        memory
        (not (first_free k s.cache.super.free_blocks == 64))
      ≡ some x
    → create_fs_object k (record granted { new_inode = memory }) dir name mode s
      ≡ (err x.0, dir, if x.1 then lose_inode s else s)
unfolding create_fs_object
create_fs_object_refused k dir cache name mode memory s x cached unlocked h =
    ap (create_cached k (record granted { new_inode = memory }) dir name mode s) cached
    ∙ refused_cached k dir cache name mode memory s x unlocked h
