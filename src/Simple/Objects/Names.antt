-- ===== src/Simple/Objects/Names.antt =====
-- A directory as a map from names to inode numbers, under `simplefs_create_fs_object` and
-- `simplefs_unlink`.
use simplefs.Base.{
  ℕ, ◌≡◌, refl, ap, sym, ◌∙◌, List, true, false, Option, none, some, str_eq, str_eq→eq,
  if◌then◌else◌, Bool-cases, inl, inr,
}
use mathlib.Core.Path.{subst}
use simplefs.Simple.Types.{DirRecord, Inode, as_records, ok}
use simplefs.Simple.State.{State, Kernel}
use simplefs.Simple.Store.Soundness.{IsKernel}
use simplefs.Simple.Directory.{
  DirCache, CacheEntry, entry, used_cache_entry_get, cache_entry_insert, list_del,
}
use simplefs.Simple.Directory.Slots.{
  get-insert_self, get-insert_other, HasUniqueNames, get-list_del_self, get-list_del_other,
  list_del-used_from, used_cache_entry_get-IsFound,
}
use simplefs.Simple.Directory.Coherence.{used_from}
use simplefs.Simple.Objects.{CreateResult, VfsInode, Dentry, create_fs_object, unlink}
use simplefs.Simple.Objects.Create.{granted, CanCreate, new_record, new_cache, create_final}
use simplefs.Simple.Objects.Unlinked.{CanUnlink, UnlinkResult, left_cache, unlink_final}

abbrev pub number_of : Option CacheEntry → Option ℕ
number_of none = none
number_of (some e) = some e.dir_record.inode_no

-- The inode number of a name.
abbrev pub view : List CacheEntry → List ℕ → Option ℕ
view es name = number_of (used_cache_entry_get es name)

pub view-insert :
    (e : CacheEntry) (l : List CacheEntry) (other : List ℕ)
    → used_cache_entry_get l e.dir_record.filename ≡ none
    → view (cache_entry_insert e l) other
      ≡ (if str_eq e.dir_record.filename other then some e.dir_record.inode_no else view l other)
view-insert e l other absent = elim (Bool-cases (str_eq e.dir_record.filename other)) [
  | inl same ↦
      let equal = str_eq→eq e.dir_record.filename other same in
      rw same (
        ap number_of (
          subst (λ n. used_cache_entry_get (cache_entry_insert e l) n ≡ some e) equal
            (get-insert_self e l absent)))
  | inr apart ↦ rw apart (ap number_of (get-insert_other e l other apart))
]

view-list_del :
    (rs : List DirRecord) (name other : List ℕ) (e : CacheEntry)
    → HasUniqueNames (used_from 0 rs)
    → used_cache_entry_get (used_from 0 rs) name ≡ some e
    → view (list_del e.entry_no (used_from 0 rs)) other
      ≡ (if str_eq name other then none else view (used_from 0 rs) other)
view-list_del rs name other e unique found = elim (Bool-cases (str_eq name other)) [
  | inl same ↦
      let equal = str_eq→eq name other same in
      rw same (
        ap number_of (
          subst (λ n. used_cache_entry_get (list_del e.entry_no (used_from 0 rs)) n ≡ none) equal
            (get-list_del_self 0 rs name e unique found)))
  | inr apart ↦
      let f = used_cache_entry_get-IsFound 0 rs name e found in
      let equal = str_eq→eq e.dir_record.filename name f.named in
      let differ : str_eq e.dir_record.filename other ≡ false = rw equal apart in
      rw apart (
        ap number_of (
          ap (λ l. used_cache_entry_get l other)
            (list_del-used_from 0 rs f.slot e.entry_no e.dir_record f.stored f.in_use f.number)
          ∙ get-list_del_other 0 rs f.slot e.dir_record other f.stored differ))
]

pub view-unlinked :
    (used : List CacheEntry) (rs : List DirRecord) (name other : List ℕ) (e : CacheEntry)
    → used ≡ used_from 0 rs
    → HasUniqueNames used
    → used_cache_entry_get used name ≡ some e
    → view (list_del e.entry_no used) other ≡ (if str_eq name other then none else view used other)
view-unlinked used rs name other e same unique found =
    subst
      (λ l. view (list_del e.entry_no l) other ≡ (if str_eq name other then none else view l other))
      (sym same)
      (view-list_del rs name other e (subst HasUniqueNames same unique)
        (ap (λ l. used_cache_entry_get l name) (sym same) ∙ found))

module _ (k : Kernel) (laws : IsKernel k) (dir : Dentry) (cache : DirCache) (slot : CacheEntry)
    (name : List ℕ) (mode : ℕ) (s : State) (can : CanCreate s dir cache slot name mode) where
  -- Seen as a map from names to inode numbers, the directory is after an uninterrupted create, with
  -- all that `CanCreate` asks for, of a name that it did not have, the same map with the name and the
  -- number of the inode that the create gave.
  pub create-inserts :
      (other : List ℕ)
      → used_cache_entry_get cache.used name ≡ none
      → let r = create_fs_object k granted dir name mode s in
        (i : VfsInode) × (c : DirCache) × (r.0 ≡ ok i)
        × (r.1.d_fsdata ≡ some c)
        × (view c.used other ≡ (if str_eq name other then some i.i_ino else view cache.used other))
  create-inserts other absent =
      subst
        (λ (r : CreateResult).
          (i : VfsInode) × (c : DirCache) × (r.0 ≡ ok i)
          × (r.1.d_fsdata ≡ some c)
          × (view c.used other
              ≡ (if str_eq name other then some i.i_ino else view cache.used other)))
        (sym (create_final k laws dir cache slot name mode s can))
        (
          _,
          new_cache k laws dir cache slot name mode s can,
          refl,
          refl,
          view-insert (entry (new_record k laws dir cache slot name mode s can) slot.entry_no)
              cache.used other absent,
        )

module _ (k : Kernel) (laws : IsKernel k) (dir : Dentry) (cache : DirCache) (name : List ℕ)
    (found : CacheEntry) (child : Inode) (s : State)
    (can : CanUnlink s dir cache name found child) where
  -- Where no two entries of the directory have one name, the directory is after an uninterrupted
  -- unlink, with all that `CanUnlink` asks for, the same map without the name.
  pub unlink-deletes :
      (other : List ℕ)
      → HasUniqueNames cache.used
      → let r = unlink k true true true dir name child s in
        (c : DirCache) × (r.1.d_fsdata ≡ some c)
        × (view c.used other ≡ (if str_eq name other then none else view cache.used other))
  unlink-deletes other unique =
      subst
        (λ (r : UnlinkResult).
          (c : DirCache) × (r.1.d_fsdata ≡ some c)
          × (view c.used other ≡ (if str_eq name other then none else view cache.used other)))
        (sym (unlink_final k laws dir cache name found child s can))
        (
          left_cache k laws dir cache name found child s can,
          refl,
          view-unlinked cache.used (as_records (s.cache.data_block dir.d_inode.data_block_number))
              name other found can.coherent.used_eq unique can.named,
        )
