-- ===== src/Simple/Directory.antt =====
-- The cache of a directory's entries in simplefs/simple.c: one list of the slots in use, in the
-- order of the slots, and one of the free slots. A `list_head` list is the list of its entries.
pub mod Coherence
pub mod Slots
pub mod Updates
use simplefs.Base.{
  ℕ, zero, suc, ◌+◌, List, [], ◌∷◌, ◌++◌, Bool, true, false, Option, none, some, ◌==◌, ltb, str_eq,
  if◌then◌else◌, take,
}
use simplefs.Simple.Types.{
  DirRecord, Block, Outcome, ok, err, enomem, as_records, records_per_block,
}
use simplefs.Simple.State.{Kernel}

pub record CacheEntry : Type 0 where
  pub dir_record : DirRecord
  pub entry_no : ℕ

abbrev pub entry : DirRecord → ℕ → CacheEntry
entry r n = record { dir_record = r; entry_no = n }

pub record DirCache : Type 0 where
  pub dir_children_count : ℕ
  pub used : List CacheEntry
  pub free : List CacheEntry

abbrev pub empty_cache : DirCache
empty_cache = record { dir_children_count = 0; used = []; free = [] }

-- `none` is ERR_PTR(-ENOMEM).
unfoldable pub cache_alloc : Bool → Option DirCache
cache_alloc allocated = if allocated then some empty_cache else none

abbrev pub add_used : CacheEntry → DirCache → DirCache
add_used e c = record c { used = c.used ++ (e ∷ []) }

abbrev pub add_free : CacheEntry → DirCache → DirCache
add_free e c = record c { free = c.free ++ (e ∷ []) }

module _ (k : Kernel) where
  -- The body of the loop of `dir_cache_build`; a free entry's record is not written.
  unfoldable pub link_entry : ℕ → DirRecord → DirCache → DirCache
  link_entry i r c =
      if r.inode_no == 0 then add_free (entry (k.stale i) i) c else add_used (entry r i) c

  -- `allocated i` says whether the i-th `kmem_cache_alloc` succeeds.
  unfoldable pub build_loop :
      (ℕ → Bool) → ℕ → List DirRecord → DirCache → Outcome (Unit {0}) × DirCache
  build_loop allocated i [] c = (ok tt, c)
  build_loop allocated i (r ∷ rs) c =
      if allocated i then build_loop allocated (suc i) rs (link_entry i r c) else (err enomem, c)

  unfoldable pub dir_cache_build : (ℕ → Bool) → DirCache → Block → Outcome (Unit {0}) × DirCache
  dir_cache_build allocated c b = build_loop allocated 0 (take records_per_block (as_records b)) c

unfoldable pub used_cache_entry_get : List CacheEntry → List ℕ → Option CacheEntry
used_cache_entry_get [] name = none
used_cache_entry_get (e ∷ es) name =
    if str_eq e.dir_record.filename name then some e else used_cache_entry_get es name

-- `list_first_entry`; on an empty list the kernel's macro gives a pointer that is no entry.
unfoldable pub free_cache_entry_get : DirCache → Option CacheEntry
free_cache_entry_get c = elim c.free [ [] ↦ none | e ∷ es ↦ some e ]

-- The `list_del` of `cache_entry_insert` and of `simplefs_unlink`: the entry of that slot leaves.
unfoldable pub list_del : ℕ → List CacheEntry → List CacheEntry
list_del n [] = []
list_del n (e ∷ es) = if e.entry_no == n then es else e ∷ list_del n es

-- The loop of `cache_entry_insert` and its `list_add_tail` before the entry where it breaks.
unfoldable pub cache_entry_insert : CacheEntry → List CacheEntry → List CacheEntry
cache_entry_insert e [] = e ∷ []
cache_entry_insert e (t ∷ ts) =
    if ltb e.entry_no t.entry_no then e ∷ t ∷ ts else t ∷ cache_entry_insert e ts
