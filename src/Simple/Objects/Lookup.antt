-- ===== src/Simple/Objects/Lookup.antt =====
-- `simplefs_lookup` after `simplefs_create_fs_object`.
use simplefs.Base.{ℕ, ◌≡◌, refl, ap, sym, ◌∙◌, List, true, false, none, some, get_elem?, str_eq}
use mathlib.Core.Path.{subst}
use simplefs.Simple.Types.{ok, u64_dec, Inode}
use simplefs.Simple.State.{State, Kernel}
use simplefs.Simple.Store.{get_inode}
use simplefs.Simple.Store.Soundness.{IsKernel}
use simplefs.Simple.Directory.{DirCache, CacheEntry, entry, used_cache_entry_get}
use simplefs.Simple.Directory.Slots.{get-insert_self, get-insert_other}
use simplefs.Simple.Objects.{
  CreateResult, Dentry, VfsInode, vfs_inode, create_fs_object, lookup, lookup_cached, lookup_entry,
  lookup_found,
}
use simplefs.Simple.Objects.Create.{
  granted, CanCreate, new_inode, new_record, new_cache, final_dir, final, create_final, at_new,
}
use simplefs.Simple.Objects.Created.{final-stored}

-- A lookup through the entry that the name finds and the inode of its slot.
pub lookup-some :
    (dir : Dentry) (cache : DirCache) (name : List ℕ) (s : State) (e : CacheEntry) (i : Inode)
    → dir.d_fsdata ≡ some cache
    → used_cache_entry_get cache.used name ≡ some e
    → get_elem? s.cache.store (u64_dec e.dir_record.inode_no) ≡ some i
    → i.inode_no ≡ e.dir_record.inode_no
    → (lookup true true true true dir name s).0 ≡ ok (some (vfs_inode i))
unfolding lookup lookup_cached lookup_entry get_inode lookup_found
lookup-some dir cache name s e i cached found stored number =
    ap (λ c. (lookup_cached true true true name s c).0) cached
    ∙ ap (λ f. (lookup_entry true true true s f).0) found
    ∙ rw (stored, ← number)

module _ (k : Kernel) (laws : IsKernel k) (dir : Dentry) (cache : DirCache) (slot : CacheEntry)
    (name : List ℕ) (mode : ℕ) (s : State) (can : CanCreate s dir cache slot name mode) where
  -- After an uninterrupted create, with all that `CanCreate` asks for, of a name that the directory did
  -- not have, an uninterrupted lookup of the name gives the inode that the create gave.
  pub lookup-create :
      used_cache_entry_get cache.used name ≡ none
      → let r = create_fs_object k granted dir name mode s in
        (i : VfsInode) × (r.0 ≡ ok i) × ((lookup true true true true r.1 name r.2).0 ≡ ok (some i))
  lookup-create absent =
      subst
        (λ (r : CreateResult).
          (i : VfsInode) × (r.0 ≡ ok i)
          × ((lookup true true true true r.1 name r.2).0 ≡ ok (some i)))
        (sym (create_final k laws dir cache slot name mode s can))
        (
          vfs_inode fresh,
          refl,
          lookup-some (final_dir k laws dir cache slot name mode s can)
              (new_cache k laws dir cache slot name mode s can) name
              (final k laws dir cache slot name mode s can)
              (entry (new_record k laws dir cache slot name mode s can) slot.entry_no) fresh refl
              (get-insert_self
                (entry (new_record k laws dir cache slot name mode s can) slot.entry_no) cache.used
                absent)
              (ap (get_elem? (final k laws dir cache slot name mode s can).cache.store)
                  (at_new k laws dir cache slot name mode s can)
                ∙ final-stored k laws dir cache slot name mode s can)
              refl,
        )
    where
      fresh : Inode
      fresh = new_inode k laws dir cache slot name mode s can

  -- An uninterrupted create with all that `CanCreate` asks for does not change what any other name
  -- finds in the directory's cache.
  pub create-other_names :
      (other : List ℕ)
      → str_eq name other ≡ false
      → let r = create_fs_object k granted dir name mode s in
        (c : DirCache) × (r.1.d_fsdata ≡ some c)
        × (used_cache_entry_get c.used other ≡ used_cache_entry_get cache.used other)
  create-other_names other apart =
      subst
        (λ (r : CreateResult).
          (c : DirCache) × (r.1.d_fsdata ≡ some c)
          × (used_cache_entry_get c.used other ≡ used_cache_entry_get cache.used other))
        (sym (create_final k laws dir cache slot name mode s can))
        (
          new_cache k laws dir cache slot name mode s can,
          refl,
          get-insert_other (entry (new_record k laws dir cache slot name mode s can) slot.entry_no)
              cache.used other apart,
        )
