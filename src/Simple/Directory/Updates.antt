-- ===== src/Simple/Directory/Updates.antt =====
-- A directory's cache stays that of its block when a slot is taken for a new child, and when a
-- child's slot is given back.
use simplefs.Base.{
  ℕ, zero, suc, ◌≤◌, ◌<◌, ◌≡◌, ◌≢◌, refl, ap, sym, ◌∙◌, List, [], ◌∷◌, some, ◌==◌, get_elem?, set,
  length, lt_of_get_elem?, arith, Bool-cases, inl, inr,
}
use simplefs.Simple.Types.{DirRecord, zero_record}
use simplefs.Simple.Directory.{
  CacheEntry, DirCache, entry, free_cache_entry_get, used_cache_entry_get, list_del,
  cache_entry_insert,
}
use simplefs.Simple.Directory.Coherence.{
  IsCoherent, free_at, count_slot, count_slot_first, count_slot-list_del, free_at-pos, free_at-set,
}
use simplefs.Simple.Directory.Slots.{
  IsFound, insert-used_from, list_del-used_from, used_cache_entry_get-IsFound,
}

free_at-le-one : (rs : List DirRecord) (n : ℕ) → free_at rs n ≤ 1
free_at-le-one [] n = omega arith
free_at-le-one (r ∷ rs) zero = ground arith
free_at-le-one (r ∷ rs) (suc n) = free_at-le-one rs n

free_at-used :
    (rs : List DirRecord) (n : ℕ) (r : DirRecord)
    → get_elem? rs n ≡ some r
    → r.inode_no ≢ 0
    → free_at rs n ≡ 0
free_at-used [] n r h u = refl
free_at-used (x ∷ rs) zero r h u = ground arith
free_at-used (x ∷ rs) (suc n) r h u = free_at-used rs n r h u

-- The first free entry is for a free slot of the block.
pub free_slot :
    (c : DirCache) (rs : List DirRecord) (slot : CacheEntry)
    → IsCoherent c rs
    → free_cache_entry_get c ≡ some slot
    → free_at rs slot.entry_no ≢ 0
free_slot c rs slot coherent first =
    omega (arith, coherent.free_eq slot.entry_no, count_slot_first c slot first)

-- The free list without a slot, against the block with that slot written.
taken_free :
    (c : DirCache) (rs : List DirRecord) (m n : ℕ) (r : DirRecord)
    → ((j : ℕ) → count_slot j c.free ≡ free_at rs j)
    → free_at rs m ≢ 0
    → m < length rs
    → r.inode_no ≢ 0
    → count_slot n (list_del m c.free) ≡ free_at (set rs m r) n
taken_free c rs m n r same unused inside used = elim (Bool-cases (m == n)) [
  | inl e ↦
      let here : m ≡ n = ground arith in
      ground (
        arith,
        count_slot-list_del n m c.free,
        same n,
        same m,
        free_at-set rs m n r,
        free_at-le-one rs n,
        ap (free_at rs) here,
      )
  | inr e ↦ ground (arith, count_slot-list_del n m c.free, same n, same m, free_at-set rs m n r)
]

-- Taking the first free slot for a new record.
pub take-IsCoherent :
    (c : DirCache) (rs : List DirRecord) (slot : CacheEntry) (r : DirRecord)
    → IsCoherent c rs
    → free_cache_entry_get c ≡ some slot
    → r.inode_no ≢ 0
    → IsCoherent
        (record c {
          used = cache_entry_insert (entry r slot.entry_no) c.used;
          free = list_del slot.entry_no c.free;
        })
        (set rs slot.entry_no r)
take-IsCoherent c rs slot r coherent first used =
    let (z, at_slot, unused) = free_at-pos rs slot.entry_no (free_slot c rs slot coherent first) in
    record {
      used_eq =
          ap (cache_entry_insert (entry r slot.entry_no)) coherent.used_eq
          ∙ insert-used_from 0 rs slot.entry_no slot.entry_no r z at_slot unused used (omega arith);
      free_eq = λ n.
          taken_free c rs slot.entry_no n r coherent.free_eq (free_slot c rs slot coherent first)
            (lt_of_get_elem? rs slot.entry_no z at_slot) used;
    }

given_free :
    (c : DirCache) (rs : List DirRecord) (e : CacheEntry) (m n : ℕ)
    → ((j : ℕ) → count_slot j c.free ≡ free_at rs j)
    → free_at rs m ≡ 0
    → m < length rs
    → e.entry_no ≡ m
    → count_slot n (e ∷ c.free) ≡ free_at (set rs m zero_record) n
given_free c rs e m n same was inside number = elim (Bool-cases (m == n)) [
  | inl q ↦
      let here : m ≡ n = ground arith in
      ground (arith, same n, free_at-set rs m n zero_record, ap (free_at rs) here)
  | inr q ↦ ground (arith, same n, free_at-set rs m n zero_record)
]

-- Giving back the slot of the entry that a name finds.
pub give-IsCoherent :
    (c : DirCache) (rs : List DirRecord) (name : List ℕ) (e : CacheEntry) (children : ℕ)
    → IsCoherent c rs
    → used_cache_entry_get c.used name ≡ some e
    → IsCoherent
        (record {
          dir_children_count = children;
          used = list_del e.entry_no c.used;
          free = e ∷ c.free;
        })
        (set rs e.entry_no zero_record)
give-IsCoherent c rs name e children coherent found = record {
  used_eq =
      ap (list_del e.entry_no) coherent.used_eq
      ∙ list_del-used_from 0 rs e.entry_no e.entry_no e.dir_record at_slot at.in_use (omega arith);
  free_eq = λ n.
      given_free c rs e e.entry_no n coherent.free_eq
        (free_at-used rs e.entry_no e.dir_record at_slot at.in_use)
        (lt_of_get_elem? rs e.entry_no e.dir_record at_slot) refl;
}
  where
    at : IsFound rs 0 name e
    at =
        used_cache_entry_get-IsFound 0 rs name e
          (ap (λ l. used_cache_entry_get l name) (sym coherent.used_eq) ∙ found)

    at_slot : get_elem? rs e.entry_no ≡ some e.dir_record
    at_slot = ap (get_elem? rs) (omega (arith, at.number)) ∙ at.stored
