-- ===== src/Simple/Session/Unique.antt =====
-- Names stay unique in a directory's cache.
use simplefs.Base.{
  ℕ, ◌≡◌, refl, ◌∙◌, List, [], ◌∷◌, false, none, ◌==◌, ltb, str_eq, str_eq→eq, str_eq_refl,
  Bool-cases, inl, inr, arith,
}
use simplefs.Simple.Directory.{CacheEntry, used_cache_entry_get, cache_entry_insert, list_del}
use simplefs.Simple.Directory.Slots.{HasUniqueNames, get-insert_other}

str_eq_sym : (a b : List ℕ) → str_eq a b ≡ false → str_eq b a ≡ false
str_eq_sym a b h = elim (Bool-cases (str_eq b a)) [
  | inl same ↦
      let equal : b ≡ a = str_eq→eq b a same in
      let itself : str_eq a a ≡ false = rw equal at h in absurd (cc (str_eq_refl a))
  | inr other ↦ other
]

pub insert-HasUniqueNames :
    (e : CacheEntry) (l : List CacheEntry)
    → used_cache_entry_get l e.dir_record.filename ≡ none
    → HasUniqueNames l
    → HasUniqueNames (cache_entry_insert e l)
unfolding used_cache_entry_get cache_entry_insert
insert-HasUniqueNames e [] absent unique = (refl, tt)
insert-HasUniqueNames e (t ∷ ts) absent (alone, unique) =
    elim (Bool-cases (str_eq t.dir_record.filename e.dir_record.filename)) [
      | inl same ↦ absurd (ground arith)
      | inr apart ↦
          let absent_later : used_cache_entry_get ts e.dir_record.filename ≡ none =
            rw apart at absent in
          let other = str_eq_sym t.dir_record.filename e.dir_record.filename apart in
          elim (Bool-cases (ltb e.entry_no t.entry_no)) [
            | inl before ↦ rw before (absent, (alone, unique))
            | inr behind ↦ rw behind (
              get-insert_other e ts t.dir_record.filename other ∙ alone,
              insert-HasUniqueNames e ts absent_later unique,
            )
          ]
    ]

get-list_del-none :
    (n : ℕ) (l : List CacheEntry) (name : List ℕ)
    → used_cache_entry_get l name ≡ none
    → used_cache_entry_get (list_del n l) name ≡ none
unfolding used_cache_entry_get list_del
get-list_del-none n [] name h = h
get-list_del-none n (e ∷ es) name h = ground (arith, get-list_del-none n es name)

pub list_del-HasUniqueNames :
    (n : ℕ) (l : List CacheEntry) → HasUniqueNames l → HasUniqueNames (list_del n l)
unfolding list_del
list_del-HasUniqueNames n [] h = tt
list_del-HasUniqueNames n (e ∷ es) (alone, unique) = elim (Bool-cases (e.entry_no == n)) [
  | inl here ↦ rw here unique
  | inr later ↦
      rw later
        (get-list_del-none n es e.dir_record.filename alone, list_del-HasUniqueNames n es unique)
]
