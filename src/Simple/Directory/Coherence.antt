-- ===== src/Simple/Directory/Coherence.antt =====
-- A directory's cache says of each slot of the directory's block what the block says, and the
-- operations on the cache keep that when the slot is written.
use simplefs.Base.{
  ℕ, zero, suc, ◌+◌, ◌<◌, ◌≡◌, ◌≢◌, refl, ap, List, [], ◌∷◌, ◌++◌, Bool, true, none, some, ◌==◌,
  if◌then◌else◌, length, get_elem?, set, arith, append-nil, append_assoc, ◌∙◌, Bool-cases, inl, inr,
}
use native.Mathlib.Nat.{zero-add}
use simplefs.Simple.Types.{DirRecord, ok}
use simplefs.Simple.State.{Kernel}
use simplefs.Simple.Directory.{
  CacheEntry, DirCache, entry, link_entry, build_loop, free_cache_entry_get, list_del,
}

-- The entries of the records in use, from slot `i` on, in the order of the slots.
abbrev pub used_from : ℕ → List DirRecord → List CacheEntry
used_from i [] = []
used_from i (r ∷ rs) =
    if r.inode_no == 0 then used_from (suc i) rs else entry r i ∷ used_from (suc i) rs

-- 1 if the record is free.
abbrev pub is_free : DirRecord → ℕ
is_free r = if r.inode_no == 0 then 1 else 0

-- 1 if slot `n` holds a free record.
abbrev pub free_at : List DirRecord → ℕ → ℕ
free_at [] n = 0
free_at (r ∷ rs) zero = is_free r
free_at (r ∷ rs) (suc n) = free_at rs n

-- How many entries of the list are for slot `n`.
abbrev pub count_slot : ℕ → List CacheEntry → ℕ
count_slot n [] = 0
count_slot n (e ∷ es) = (if e.entry_no == n then 1 else 0) + count_slot n es

-- The used list is in the order of the slots, and each free slot is once in the free list.
pub record IsCoherent (c : DirCache) (rs : List DirRecord) : Type 0 where
  pub used_eq : c.used ≡ used_from 0 rs
  pub free_eq : (n : ℕ) → count_slot n c.free ≡ free_at rs n

count_slot-append :
    (n : ℕ) (xs ys : List CacheEntry) → count_slot n (xs ++ ys) ≡ count_slot n xs + count_slot n ys
count_slot-append n [] ys = omega arith
count_slot-append n (x ∷ xs) ys = omega (arith, count_slot-append n xs ys)

-- What the loop of `dir_cache_build` has made when it stops.
abbrev free_from_at : ℕ → List DirRecord → ℕ → ℕ
free_from_at i [] n = 0
free_from_at i (r ∷ rs) n = (if i == n then is_free r else 0) + free_from_at (suc i) rs n

free_from_at_below : (i : ℕ) (rs : List DirRecord) (n : ℕ) → n < i → free_from_at i rs n ≡ 0
free_from_at_below i [] n h = refl
free_from_at_below i (r ∷ rs) n h = ground (arith, free_from_at_below (suc i) rs n)

free_from_at-eq : (i : ℕ) (rs : List DirRecord) (n : ℕ) → free_from_at i rs (i + n) ≡ free_at rs n
free_from_at-eq i [] n = refl
free_from_at-eq i (r ∷ rs) zero = ground (arith, free_from_at_below (suc i) rs (i + 0))
free_from_at-eq i (r ∷ rs) (suc n) =
    let e : i + suc n ≡ suc i + n = omega arith in
    rw e (ground (arith, free_from_at-eq (suc i) rs n))

link_entry-used :
    (k : Kernel) (i : ℕ) (r : DirRecord) (rs : List DirRecord) (c : DirCache)
    → (link_entry k i r c).used ++ used_from (suc i) rs ≡ c.used ++ used_from i (r ∷ rs)
unfolding link_entry
link_entry-used k i r rs c = elim (Bool-cases (r.inode_no == 0)) [
  | inl e ↦ rw e
  | inr e ↦ rw e (append_assoc c.used (entry r i ∷ []) _)
]

link_entry-free :
    (k : Kernel) (i : ℕ) (r : DirRecord) (c : DirCache) (n : ℕ)
    → count_slot n (link_entry k i r c).free
      ≡ count_slot n c.free + (if i == n then is_free r else 0)
unfolding link_entry
link_entry-free k i r c n = ground (arith, count_slot-append n c.free (entry (k.stale i) i ∷ []))

module _ (k : Kernel) (allocated : ℕ → Bool) (all : (i : ℕ) → allocated i ≡ true) where
  pub build_loop-ok :
      (i : ℕ) (rs : List DirRecord) (c : DirCache) → (build_loop k allocated i rs c).0 ≡ ok tt
  unfolding build_loop
  build_loop-ok i [] c = refl
  build_loop-ok i (r ∷ rs) c = rw (all i) (build_loop-ok (suc i) rs (link_entry k i r c))

  build_loop-used :
      (i : ℕ) (rs : List DirRecord) (c : DirCache)
      → (build_loop k allocated i rs c).1.used ≡ c.used ++ used_from i rs
  unfolding build_loop
  build_loop-used i [] c = rw append-nil
  build_loop-used i (r ∷ rs) c =
      rw (all i) (build_loop-used (suc i) rs (link_entry k i r c) ∙ link_entry-used k i r rs c)

  build_loop-free :
      (i : ℕ) (rs : List DirRecord) (c : DirCache) (n : ℕ)
      → count_slot n (build_loop k allocated i rs c).1.free
        ≡ count_slot n c.free + free_from_at i rs n
  unfolding build_loop
  build_loop-free i [] c n = omega arith
  build_loop-free i (r ∷ rs) c n =
      rw (all i) (
        omega (arith, build_loop-free (suc i) rs (link_entry k i r c) n, link_entry-free k i r c n))

  pub build_loop-IsCoherent :
      (rs : List DirRecord) (c : DirCache)
      → c.used ≡ []
      → c.free ≡ []
      → IsCoherent (build_loop k allocated 0 rs c).1 rs
  build_loop-IsCoherent rs c no_used no_free = record {
    used_eq = build_loop-used 0 rs c ∙ ap (λ l. l ++ used_from 0 rs) no_used;
    free_eq = λ n. omega (
      arith,
      build_loop-free 0 rs c n,
      ap (count_slot n) no_free,
      ap (free_from_at 0 rs) (zero-add n),
      free_from_at-eq 0 rs n,
    );
  }

-- The first entry of the free list is counted.
pub count_slot_first :
    (c : DirCache) (slot : CacheEntry)
    → free_cache_entry_get c ≡ some slot
    → count_slot slot.entry_no c.free ≢ 0
unfolding free_cache_entry_get
count_slot_first c slot h = first c.free h
  where
    first :
        (l : List CacheEntry)
        → (elim l [ [] ↦ none | e ∷ es ↦ some e ]) ≡ some slot
        → count_slot slot.entry_no l ≢ 0
    first [] q = absurd (ground arith)
    first (e ∷ es) q = ground arith

-- Taking an entry off a list counts one less for its slot.
pub count_slot-list_del :
    (n m : ℕ) (l : List CacheEntry)
    → count_slot m l ≢ 0
    → count_slot n (list_del m l) + (if m == n then 1 else 0) ≡ count_slot n l
unfolding list_del
count_slot-list_del n m [] h = absurd (h refl)
count_slot-list_del n m (e ∷ es) h = elim (Bool-cases (e.entry_no == m)) [
  | inl here ↦ rw here (ground arith)
  | inr later ↦ rw later (ground (arith, count_slot-list_del n m es))
]

-- A counted slot holds a free record.
pub free_at-pos :
    (rs : List DirRecord) (n : ℕ)
    → free_at rs n ≢ 0
    → (z : DirRecord) × (get_elem? rs n ≡ some z) × (z.inode_no ≡ 0)
free_at-pos [] n h = absurd (h refl)
free_at-pos (r ∷ rs) zero h = (r, refl, ground arith)
free_at-pos (r ∷ rs) (suc n) h = free_at-pos rs n h

pub free_at-set :
    (rs : List DirRecord) (n m : ℕ) (r : DirRecord)
    → n < length rs
    → free_at (set rs n r) m ≡ (if n == m then is_free r else free_at rs m)
free_at-set [] n m r h = elim h [ ]
free_at-set (x ∷ rs) zero zero r h = refl
free_at-set (x ∷ rs) zero (suc m) r h = ground arith
free_at-set (x ∷ rs) (suc n) zero r h = ground arith
free_at-set (x ∷ rs) (suc n) (suc m) r h = ground (arith, free_at-set rs n m r)
