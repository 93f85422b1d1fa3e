-- ===== src/Simple/Directory/Slots.antt =====
-- The used list of a directory's cache, when a slot of the block is taken and when it is given back.
use simplefs.Base.{
  ℕ, zero, suc, ◌+◌, ◌<◌, ◌≡◌, ◌≢◌, refl, ap, List, [], ◌∷◌, true, false, none, some, ◌==◌, str_eq,
  get_elem?, set, arith, ◌∙◌, Bool-cases, inl, inr, str_eq_refl, str_eq→eq,
}
use simplefs.Simple.Types.{DirRecord, zero_record}
use simplefs.Simple.Directory.{
  CacheEntry, entry, used_cache_entry_get, list_del, cache_entry_insert,
}
use simplefs.Simple.Directory.Coherence.{used_from}

-- An entry below all the others goes first.
insert-used_from_below :
    (e : CacheEntry) (i : ℕ) (rs : List DirRecord)
    → e.entry_no < i
    → cache_entry_insert e (used_from i rs) ≡ e ∷ used_from i rs
unfolding cache_entry_insert
insert-used_from_below e i [] h = refl
insert-used_from_below e i (r ∷ rs) h = elim (Bool-cases (r.inode_no == 0)) [
  | inl q ↦ rw q (insert-used_from_below e (suc i) rs (omega arith))
  | inr q ↦ rw q (ground arith)
]

-- Inserting the entry of a free slot gives the used list of the block with the slot written.
pub insert-used_from :
    (i : ℕ) (rs : List DirRecord) (n m : ℕ) (r z : DirRecord)
    → get_elem? rs n ≡ some z
    → z.inode_no ≡ 0
    → r.inode_no ≢ 0
    → m ≡ i + n
    → cache_entry_insert (entry r m) (used_from i rs) ≡ used_from i (set rs n r)
unfolding cache_entry_insert
insert-used_from i [] n m r z get free used eq = cc
insert-used_from i (x ∷ rs) zero m r z get free used eq =
    let was_free : (x.inode_no == 0) ≡ true = ground arith in
    let now_used : (r.inode_no == 0) ≡ false = ground arith in
    let here : m ≡ i = omega arith in
    rw (was_free, now_used)
      (insert-used_from_below (entry r m) (suc i) rs (omega arith)
        ∙ ap (λ j. entry r j ∷ used_from (suc i) rs) here)
insert-used_from i (x ∷ rs) (suc n) m r z get free used eq = elim (Bool-cases (x.inode_no == 0)) [
  | inl q ↦ rw q (insert-used_from (suc i) rs n m r z get free used (omega arith))
  | inr q ↦ rw q (ground (arith, insert-used_from (suc i) rs n m r z get free used (omega arith)))
]

-- An entry that the search finds in a used list is the entry of a slot in use, with that name.
pub record IsFound (rs : List DirRecord) (i : ℕ) (name : List ℕ) (e : CacheEntry) : Type 0 where
  pub slot : ℕ
  pub number : e.entry_no ≡ i + slot
  pub stored : get_elem? rs slot ≡ some e.dir_record
  pub in_use : e.dir_record.inode_no ≢ 0
  pub named : str_eq e.dir_record.filename name ≡ true

shift :
    (r : DirRecord) (rs : List DirRecord) (i : ℕ) (name : List ℕ) (e : CacheEntry)
    → IsFound rs (suc i) name e
    → IsFound (r ∷ rs) i name e
shift r rs i name e f = record {
  slot = suc f.slot;
  number = omega (arith, f.number);
  stored = f.stored;
  in_use = f.in_use;
  named = f.named;
}

pub used_cache_entry_get-IsFound :
    (i : ℕ) (rs : List DirRecord) (name : List ℕ) (e : CacheEntry)
    → used_cache_entry_get (used_from i rs) name ≡ some e
    → IsFound rs i name e
unfolding used_cache_entry_get
used_cache_entry_get-IsFound i [] name e h = absurd (ground arith)
used_cache_entry_get-IsFound i (r ∷ rs) name e h = elim (Bool-cases (r.inode_no == 0)) [
  | inl q ↦ shift r rs i name e (used_cache_entry_get-IsFound (suc i) rs name e (rw q at h))
  | inr q ↦ elim (Bool-cases (str_eq r.filename name)) [
    | inl same ↦ record {
      slot = 0;
      number = ground arith;
      stored = ground arith;
      in_use = ground arith;
      named = ground arith;
    }
    | inr other ↦
        shift r rs i name e (used_cache_entry_get-IsFound (suc i) rs name e (rw (q, other) at h))
  ]
]

-- Taking the entry of a slot off the used list gives that of the block with the slot zeroed.
list_del-below :
    (m i : ℕ) (rs : List DirRecord) → m < i → list_del m (used_from i rs) ≡ used_from i rs
unfolding list_del
list_del-below m i [] h = refl
list_del-below m i (r ∷ rs) h = elim (Bool-cases (r.inode_no == 0)) [
  | inl q ↦ rw q (list_del-below m (suc i) rs (omega arith))
  | inr q ↦ rw q (ground (arith, list_del-below m (suc i) rs (omega arith)))
]

pub list_del-used_from :
    (i : ℕ) (rs : List DirRecord) (n m : ℕ) (r : DirRecord)
    → get_elem? rs n ≡ some r
    → r.inode_no ≢ 0
    → m ≡ i + n
    → list_del m (used_from i rs) ≡ used_from i (set rs n zero_record)
unfolding list_del
list_del-used_from i [] n m r get used eq = refl
list_del-used_from i (x ∷ rs) zero m r get used eq =
    let was_used : (x.inode_no == 0) ≡ false = ground arith in rw was_used (ground arith)
list_del-used_from i (x ∷ rs) (suc n) m r get used eq = elim (Bool-cases (x.inode_no == 0)) [
  | inl q ↦ rw q (list_del-used_from (suc i) rs n m r get used (omega arith))
  | inr q ↦ rw q (ground (arith, list_del-used_from (suc i) rs n m r get used (omega arith)))
]

-- The search by name after an insertion: the new entry for its name, if no other has it, and what
-- it was for every other name.
pub get-insert_self :
    (e : CacheEntry) (l : List CacheEntry)
    → used_cache_entry_get l e.dir_record.filename ≡ none
    → used_cache_entry_get (cache_entry_insert e l) e.dir_record.filename ≡ some e
unfolding used_cache_entry_get cache_entry_insert
get-insert_self e [] h = rw (str_eq_refl e.dir_record.filename)
get-insert_self e (t ∷ ts) h =
    ground (arith, str_eq_refl e.dir_record.filename, get-insert_self e ts)

pub get-insert_other :
    (e : CacheEntry) (l : List CacheEntry) (name : List ℕ)
    → str_eq e.dir_record.filename name ≡ false
    → used_cache_entry_get (cache_entry_insert e l) name ≡ used_cache_entry_get l name
unfolding used_cache_entry_get cache_entry_insert
get-insert_other e [] name h = rw h
get-insert_other e (t ∷ ts) name h = ground (arith, get-insert_other e ts name h)

-- No two entries have one name.
abbrev pub HasUniqueNames : List CacheEntry → Type 0
HasUniqueNames [] = Unit
HasUniqueNames (e ∷ es) = (used_cache_entry_get es e.dir_record.filename ≡ none) × HasUniqueNames es

list_del-head :
    (t e : CacheEntry) (ts : List CacheEntry) (name : List ℕ)
    → used_cache_entry_get ts t.dir_record.filename ≡ none
    → str_eq t.dir_record.filename name ≡ true
    → used_cache_entry_get (t ∷ ts) name ≡ some e
    → used_cache_entry_get (list_del e.entry_no (t ∷ ts)) name ≡ none
unfolding used_cache_entry_get list_del
list_del-head t e ts name alone same found = ground (arith, str_eq→eq t.dir_record.filename name)

list_del-tail :
    (t e : CacheEntry) (ts : List CacheEntry) (name : List ℕ)
    → t.entry_no < e.entry_no
    → str_eq t.dir_record.filename name ≡ false
    → used_cache_entry_get (list_del e.entry_no ts) name ≡ none
    → used_cache_entry_get (list_del e.entry_no (t ∷ ts)) name ≡ none
unfolding used_cache_entry_get list_del
list_del-tail t e ts name before other rest = ground arith

-- Where names are unique, a name is gone once its entry is taken off.
pub get-list_del_self :
    (i : ℕ) (rs : List DirRecord) (name : List ℕ) (e : CacheEntry)
    → HasUniqueNames (used_from i rs)
    → used_cache_entry_get (used_from i rs) name ≡ some e
    → used_cache_entry_get (list_del e.entry_no (used_from i rs)) name ≡ none
unfolding used_cache_entry_get
get-list_del_self i [] name e u h = cc
get-list_del_self i (r ∷ rs) name e u h = elim (Bool-cases (r.inode_no == 0)) [
  | inl q ↦ rw q (get-list_del_self (suc i) rs name e (rw q at u) (rw q at h))
  | inr q ↦ rw q (elim (Bool-cases (str_eq r.filename name)) [
    | inl same ↦
        list_del-head (entry r i) e (used_from (suc i) rs) name (rw q at u).0 same (rw q at h)
    | inr other ↦
        let found = rw (q, other) at h in
        list_del-tail (entry r i) e (used_from (suc i) rs) name
          (omega (arith, (used_cache_entry_get-IsFound (suc i) rs name e found).number)) other
          (get-list_del_self (suc i) rs name e (rw q at u).1 found)
  ])
]

-- Another name is found as before.
pub get-list_del_other :
    (i : ℕ) (rs : List DirRecord) (n : ℕ) (r : DirRecord) (name : List ℕ)
    → get_elem? rs n ≡ some r
    → str_eq r.filename name ≡ false
    → used_cache_entry_get (used_from i (set rs n zero_record)) name
      ≡ used_cache_entry_get (used_from i rs) name
unfolding used_cache_entry_get
get-list_del_other i [] n r name get other = refl
get-list_del_other i (x ∷ rs) zero r name get other = ground arith
get-list_del_other i (x ∷ rs) (suc n) r name get other =
    ground (arith, get-list_del_other (suc i) rs n r name get other)
