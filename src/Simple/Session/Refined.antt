-- ===== src/Simple/Session/Refined.antt =====
-- A directory of simplefs/simple.c stays a finite map from names to inode numbers.
use simplefs.Base.{ℕ, suc, ◌≡◌, refl, ap, sym, ◌∙◌, List, Option, none, some, str_eq, if◌then◌else◌}
use simplefs.Simple.Types.{Inode, as_records}
use simplefs.Simple.State.{State, Kernel}
use simplefs.Simple.Store.Counts.{slot_no-get}
use simplefs.Simple.Store.Soundness.{IsKernel}
use simplefs.Simple.Directory.{DirCache, CacheEntry, entry, used_cache_entry_get}
use simplefs.Simple.Objects.{CreateResult, Dentry, create_fs_object}
use simplefs.Simple.Objects.Create.{granted, CanCreate, new_record, new_cache, create_final}
use simplefs.Simple.Objects.Created.{
  create_fs_object-IsCreated, create_fs_object-IsSound, create_fs_object-IsSettled,
}
use simplefs.Simple.Objects.Unlinked.{
  CanUnlink, UnlinkResult, left_cache, unlink_final, unlink-IsUnlinked, unlink-IsSound, unlink_disk,
}
use simplefs.Simple.Objects.Names.{number_of, view, view-insert, view-unlinked}
use simplefs.Simple.Session.{
  create_of, unlink_of, IsOpen, HasRoom, IsChild, created_number, NameMap, insert, delete, Session,
  opened, created, unlinked, mounted, wrote,
}
use simplefs.Simple.Session.Mounted.{mounted-IsOpen}
use simplefs.Simple.Session.Written.{written-IsOpen}
use simplefs.Simple.Session.Unique.{insert-HasUniqueNames, list_del-HasUniqueNames}

can_create :
    (s : State) (dir : Dentry) (cache : DirCache) (slot : CacheEntry) (name : List ℕ) (mode : ℕ)
    → IsOpen s dir cache
    → HasRoom s cache slot name mode
    → CanCreate s dir cache slot name mode
can_create s dir cache slot name mode open_dir has_room = record {
  sound = open_dir.sound;
  unlocked = open_dir.unlocked;
  parent_slot = open_dir.parent_slot;
  parent_no = open_dir.parent_no;
  parent_stored = open_dir.parent_stored;
  cached = open_dir.cached;
  coherent = open_dir.coherent;
  room = has_room.room;
  target = has_room.target;
  target_low = has_room.target_low;
  target_high = has_room.target_high;
  target_free = has_room.target_free;
  number = has_room.number;
  number_small = has_room.number_small;
  number_free = has_room.number_free;
  typed = has_room.typed;
  short = has_room.short;
}

can_unlink :
    (s : State) (dir : Dentry) (cache : DirCache) (name : List ℕ) (found : CacheEntry)
    (child : Inode)
    → IsOpen s dir cache
    → IsChild s dir cache name found child
    → CanUnlink s dir cache name found child
can_unlink s dir cache name found child open_dir is_child = record {
  sound = open_dir.sound;
  unlocked = open_dir.unlocked;
  parent_slot = open_dir.parent_slot;
  parent_no = open_dir.parent_no;
  parent_stored = open_dir.parent_stored;
  child_slot = is_child.child_slot;
  child_no = is_child.child_no;
  child_stored = is_child.child_stored;
  apart = λ same. is_child.apart (open_dir.parent_no ∙ ap suc (sym same) ∙ sym is_child.child_no);
  cached = open_dir.cached;
  coherent = open_dir.coherent;
  named = is_child.named;
}

module _ (k : Kernel) (laws : IsKernel k) (dir : Dentry) (cache : DirCache) (s : State)
    (open_dir : IsOpen s dir cache) where
  created-IsOpen :
      (slot : CacheEntry) (name : List ℕ) (mode : ℕ)
      → (has_room : HasRoom s cache slot name mode) → used_cache_entry_get cache.used name ≡ none
      → let r = create_fs_object k granted dir name mode s in
        IsOpen r.2 r.1 (
          new_cache k laws dir cache slot name mode s
            (can_create s dir cache slot name mode open_dir has_room))
  unfolding can_create
  created-IsOpen slot name mode has_room absent =
      let can = can_create s dir cache slot name mode open_dir has_room in
      let r : CreateResult = create_fs_object k granted dir name mode s in
      let made = create_fs_object-IsCreated k laws dir cache slot name mode s can in
      let (sound, (c, cached, coherent)) =
        create_fs_object-IsSound k laws dir cache slot name mode s can in
      let settled = create_fs_object-IsSettled k laws dir cache slot name mode s can in
      let final_cached : r.1.d_fsdata ≡ some (new_cache k laws dir cache slot name mode s can) =
        ap (λ (x : CreateResult). x.1.d_fsdata)
          (create_final k laws dir cache slot name mode s can) in
      let same : c ≡ new_cache k laws dir cache slot name mode s can = cc in
      record {
        sound = sound;
        unlocked = settled.unlocked;
        parent_slot = open_dir.parent_slot;
        parent_no = rw made.parent open_dir.parent_no;
        parent_stored =
            slot_no-get r.2.cache.store open_dir.parent_slot _ made.parent_stored
            ∙ open_dir.parent_no;
        cached = final_cached;
        coherent = rw (made.parent, sym same) coherent;
        unique = insert-HasUniqueNames _ cache.used absent open_dir.unique;
      }

  unlinked-IsOpen :
      (name : List ℕ) (found : CacheEntry) (child : Inode)
      → (is_child : IsChild s dir cache name found child)
      → IsOpen (unlink_of k dir name child s).2 (unlink_of k dir name child s).1 (
          left_cache k laws dir cache name found child s
            (can_unlink s dir cache name found child open_dir is_child))
  unfolding can_unlink
  unlinked-IsOpen name found child is_child =
      let can = can_unlink s dir cache name found child open_dir is_child in
      let r : UnlinkResult = unlink_of k dir name child s in
      let done = unlink-IsUnlinked k laws dir cache name found child s can in
      let (sound, (c, cached, coherent)) = unlink-IsSound k laws dir cache name found child s can in
      let (unlocked, _, _, _, _) = unlink_disk k laws dir cache name found child s can in
      let final_cached : r.1.d_fsdata ≡ some (left_cache k laws dir cache name found child s can) =
        ap (λ (x : UnlinkResult). x.1.d_fsdata)
          (unlink_final k laws dir cache name found child s can) in
      let same : c ≡ left_cache k laws dir cache name found child s can = cc in
      record {
        sound = sound;
        unlocked = unlocked;
        parent_slot = open_dir.parent_slot;
        parent_no = rw done.parent open_dir.parent_no;
        parent_stored =
            done.others open_dir.parent_slot (λ e. can.apart (sym e)) ∙ open_dir.parent_stored;
        cached = final_cached;
        coherent = rw (done.parent, sym same) coherent;
        unique = list_del-HasUniqueNames found.entry_no cache.used open_dir.unique;
      }

number_of-none : (o : Option CacheEntry) → number_of o ≡ none → o ≡ none
number_of-none none h = refl
number_of-none (some e) h = absurd (cc)

IsMap : NameMap → Dentry → State → Type 0
IsMap m dir s =
    (cache : DirCache) × IsOpen s dir cache × ((other : List ℕ) → view cache.used other ≡ m other)

module _ (k : Kernel) (laws : IsKernel k) (m : NameMap) (dir : Dentry) (cache : DirCache)
    (s : State) (open_dir : IsOpen s dir cache)
    (names : (other : List ℕ) → view cache.used other ≡ m other) where
  created-IsMap :
      (slot : CacheEntry) (name : List ℕ) (mode : ℕ)
      → HasRoom s cache slot name mode
      → m name ≡ none
      → IsMap
          (insert name (created_number (create_of k dir name mode s).0) m)
          (create_of k dir name mode s).1
          (create_of k dir name mode s).2
  unfolding IsMap
  created-IsMap slot name mode has_room absent =
      let can = can_create s dir cache slot name mode open_dir has_room in
      let made = new_record k laws dir cache slot name mode s can in
      let gone = number_of-none (used_cache_entry_get cache.used name) (names name ∙ absent) in
      let number : created_number (create_of k dir name mode s).0 ≡ made.inode_no =
        ap (λ (x : CreateResult). created_number x.0)
          (create_final k laws dir cache slot name mode s can) in
      (
        new_cache k laws dir cache slot name mode s can,
        created-IsOpen k laws dir cache s open_dir slot name mode has_room gone,
        λ other.
            view-insert (entry made slot.entry_no) cache.used other gone
            ∙ ap (λ v. if str_eq name other then some made.inode_no else v) (names other)
            ∙ ap (λ n. if str_eq name other then some n else m other) (sym number),
      )

  unlinked-IsMap :
      (name : List ℕ) (found : CacheEntry) (child : Inode)
      → IsChild s dir cache name found child
      → IsMap (delete name m) (unlink_of k dir name child s).1 (unlink_of k dir name child s).2
  unfolding IsMap
  unlinked-IsMap name found child is_child =
      let can = can_unlink s dir cache name found child open_dir is_child in
      let rs = as_records (s.cache.data_block dir.d_inode.data_block_number) in
      let used = open_dir.coherent.used_eq in
      (
        left_cache k laws dir cache name found child s can,
        unlinked-IsOpen k laws dir cache s open_dir name found child is_child,
        λ other.
            view-unlinked cache.used rs name other found used open_dir.unique is_child.named
            ∙ ap (λ v. if str_eq name other then none else v) (names other),
      )

module _ (k : Kernel) (laws : IsKernel k) where
  Session-IsMap : {m : NameMap} {dir : Dentry} {s : State} → Session k m dir s → IsMap m dir s
  unfolding IsMap
  Session-IsMap (opened {cache} open_dir) = (cache, open_dir, λ other. refl)
  Session-IsMap (created {m} {dir} {cache} {s} slot name mode before cached has_room absent) =
      let (c, open_dir, names) = Session-IsMap before in
      let same : c ≡ cache = cc open_dir.cached in
      created-IsMap k laws m dir cache s (rw same at open_dir) (rw same at names) slot name mode
        has_room absent
  Session-IsMap (unlinked {m} {dir} {cache} {s} name found child before cached is_child) =
      let (c, open_dir, names) = Session-IsMap before in
      let same : c ≡ cache = cc open_dir.cached in
      unlinked-IsMap k laws m dir cache s (rw same at open_dir) (rw same at names) name found child
        is_child
  Session-IsMap (mounted {v} {root} {ctx} ready) =
      let (cache, open_dir, used) = mounted-IsOpen k laws v root ctx ready in
      (cache, open_dir, λ other. ap (λ l. view l other) used)
  Session-IsMap (wrote {m} {dir} {s} file pos buf before is_file) =
      let (cache, open_dir, names) = Session-IsMap before in
      (cache, written-IsOpen k s dir cache file pos buf open_dir is_file, names)

  -- After any sequence of uninterrupted calls in a directory that starts with the mount of an ordered
  -- volume and the first listing of its root, or with any directory that is open: creates of a name
  -- of at most 255 bytes that it does not have, where there is room, unlinks of a name that it has and that is not its own
  -- inode's, and writes to a file with a block of its own. The directory's cache then gives for every
  -- name the inode number that a finite map gives, to which the creates add and from which the
  -- unlinks remove; and inode store, bitmap and count of inodes agree, no lock is held, and the cache
  -- is that of the directory's block, with no name twice.
  pub Session-refines :
      (m : NameMap) (dir : Dentry) (s : State) (name : List ℕ)
      → Session k m dir s
      → (cache : DirCache) × IsOpen s dir cache × (view cache.used name ≡ m name)
  unfolding IsMap
  Session-refines m dir s name session =
      let (cache, open_dir, names) = Session-IsMap session in (cache, open_dir, names name)
