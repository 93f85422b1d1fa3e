-- ===== src/Simple/Readdir/Listing.antt =====
-- What `simplefs_iterate` lists of a directory, against the records of the directory's block.
use simplefs.Base.{
  ℕ, suc, ◌+◌, ◌*◌, ◌≤◌, ◌<◌, ◌≡◌, ◌≢◌, refl, ap, sym, ◌∙◌, List, [], ◌∷◌, ◌++◌, map, Bool, true,
  false, none, some, ◌==◌, if◌then◌else◌, length, arith, take, append-nil, append_assoc, Bool-cases,
  inl, inr, ◌▷◌,
}
use mathlib.Core.Path.{subst}
use simplefs.Simple.Types.{DirRecord, as_records, records_per_block, Outcome, ok}
use simplefs.Simple.State.{State, Kernel, sb_bread, brelse}
use simplefs.Simple.Directory.{
  DirCache, CacheEntry, entry, empty_cache, cache_alloc, dir_cache_build,
}
use simplefs.Simple.Directory.Coherence.{used_from, IsCoherent, build_loop-IsCoherent}
use simplefs.Simple.Objects.{Dentry}
use simplefs.Simple.Readdir.{
  DirContext, emitted_name, emit_step, emit_loop, iterate, iterate_cached, iterate_build,
  iterate_entries,
}

-- The names and the inode numbers of the records in use, in the order of the slots.
abbrev pub listing : List DirRecord → List (List ℕ × ℕ)
listing [] = []
listing (r ∷ rs) =
    if r.inode_no == 0 then listing rs else (emitted_name r.filename, r.inode_no) ∷ listing rs

abbrev shown : CacheEntry → List ℕ × ℕ
shown e = (emitted_name e.dir_record.filename, e.dir_record.inode_no)

emit_step_room :
    (e : CacheEntry) (ctx : DirContext)
    → 0 < ctx.room
    → ((emit_step e ctx).emitted ≡ ctx.emitted ++ (shown e ∷ []))
      × (suc (emit_step e ctx).room ≡ ctx.room)
unfolding emit_step
emit_step_room e ctx h =
    let room_left : (ctx.room == 0) ≡ false = ground arith in rw room_left (refl, omega arith)

-- Each entry moves the position, whether it is given or dropped.
pos-emit_step : (e : CacheEntry) (ctx : DirContext) → (emit_step e ctx).pos ≡ ctx.pos + 264
unfolding emit_step
pos-emit_step e ctx = ground arith

-- With room for every entry the loop gives them all.
emitted-emit_loop :
    (es : List CacheEntry) (ctx : DirContext)
    → length es ≤ ctx.room
    → (emit_loop es ctx).emitted ≡ ctx.emitted ++ map shown es
unfolding emit_loop
emitted-emit_loop [] ctx h = sym (append-nil ctx.emitted)
emitted-emit_loop (e ∷ es) ctx h =
    let (given, left) = emit_step_room e ctx (omega arith) in
    emitted-emit_loop es (emit_step e ctx) (omega (arith, left))
    ∙ ap (λ l. l ++ map shown es) given
    ∙ append_assoc ctx.emitted (shown e ∷ []) (map shown es)

pos-emit_loop :
    (es : List CacheEntry) (ctx : DirContext) → (emit_loop es ctx).pos ≡ ctx.pos + 264 * length es
unfolding emit_loop
pos-emit_loop [] ctx = omega arith
pos-emit_loop (e ∷ es) ctx = omega (arith, pos-emit_loop es (emit_step e ctx), pos-emit_step e ctx)

shown-used_from : (i : ℕ) (rs : List DirRecord) → map shown (used_from i rs) ≡ listing rs
shown-used_from i [] = refl
shown-used_from i (r ∷ rs) = elim (Bool-cases (r.inode_no == 0)) [
  | inl q ↦ rw q (shown-used_from (suc i) rs)
  | inr q ↦ rw q (ap (λ l. shown (entry r i) ∷ l) (shown-used_from (suc i) rs))
]

length-used_from : (i : ℕ) (rs : List DirRecord) → length (used_from i rs) ≡ length (listing rs)
length-used_from i [] = refl
length-used_from i (r ∷ rs) = ground (arith, length-used_from (suc i) rs)

-- What a listing of a directory from the start has to give.
pub record IsListed (dir : Dentry) (rs : List DirRecord) (ctx : DirContext)
    (r : Outcome (Unit {0}) × Dentry × DirContext × State) : Type 0 where
  pub result : r.0 ≡ ok tt
  pub cache : DirCache
  pub cached : r.1.d_fsdata ≡ some cache
  pub coherent : IsCoherent cache rs
  pub inode_kept : r.1.d_inode ≡ dir.d_inode
  pub entries : r.2.emitted ≡ ctx.emitted ++ listing rs
  pub position : r.2.pos ≡ 264 * length (listing rs)

entries_listed :
    (c : DirCache) (rs : List DirRecord) (ctx : DirContext)
    → IsCoherent c rs
    → ctx.pos ≡ 0
    → length (listing rs) ≤ ctx.room
    → ((iterate_entries c ctx).emitted ≡ ctx.emitted ++ listing rs)
      × ((iterate_entries c ctx).pos ≡ 264 * length (listing rs))
unfolding iterate_entries
entries_listed c rs ctx coherent start room =
    let at_start : (ctx.pos == 0) ≡ true = ground arith in
    rw (at_start, coherent.used_eq)
      (
        emitted-emit_loop (used_from 0 rs) ctx (omega (arith, length-used_from 0 rs))
            ∙ ap (λ l. ctx.emitted ++ l) (shown-used_from 0 rs),
        pos-emit_loop (used_from 0 rs) ctx ∙ omega (arith, start, length-used_from 0 rs),
      )

-- At another position nothing is given.
entries_later : (c : DirCache) (ctx : DirContext) → ctx.pos ≢ 0 → iterate_entries c ctx ≡ ctx
unfolding iterate_entries
entries_later c ctx moved = let later : (ctx.pos == 0) ≡ false = ground arith in rw later

entries_from :
    (c : DirCache) (rs : List DirRecord) (ctx : DirContext)
    → IsCoherent c rs
    → length (listing rs) ≤ ctx.room
    → ((iterate_entries c ctx).emitted ≡ ctx.emitted ++ (if ctx.pos == 0 then listing rs else []))
      × ((iterate_entries c ctx).pos
          ≡ (if ctx.pos == 0 then 264 * length (listing rs) else ctx.pos))
entries_from c rs ctx coherent room = elim (Bool-cases (ctx.pos == 0)) [
  | inl start ↦ rw start (entries_listed c rs ctx coherent (ground arith) room)
  | inr later ↦
      let still = entries_later c ctx (ground arith) in
      rw later (
        ap (λ (x : DirContext). x.emitted) still ∙ sym (append-nil ctx.emitted),
        ap (λ (x : DirContext). x.pos) still,
      )
]

module _ (k : Kernel) (allocated : ℕ → Bool) (all : (i : ℕ) → allocated i ≡ true) (dir : Dentry)
    (ctx : DirContext) (s : State) where
  abbrev block_records : List DirRecord
  block_records =
      take records_per_block (as_records (s.cache.data_block dir.d_inode.data_block_number))

  -- A first listing of a directory from the start, with memory for the cache and room for all
  -- entries, gives the name and the inode number of each of the 15 records that is in use, in the
  -- order of the slots, moves the position by 264 for each, and leaves the directory with the cache of
  -- its block and the state as it was.
  pub iterate-IsListed :
      dir.d_fsdata ≡ none
      → ctx.pos ≡ 0
      → length (listing block_records) ≤ ctx.room
      → IsListed dir block_records ctx (iterate k allocated true dir ctx s)
        × ((iterate k allocated true dir ctx s).3 ≡ s)
  unfolding iterate iterate_cached iterate_build cache_alloc dir_cache_build
  iterate-IsListed uncached start room =
      subst
        (λ (r : Outcome (Unit {0}) × Dentry × DirContext × State).
          IsListed dir block_records ctx r × (r.3 ≡ s))
        (sym done)
        (
          record {
            result = refl;
            cache = built;
            cached = refl;
            coherent = built-IsCoherent;
            inode_kept = refl;
            entries = (entries_listed built block_records ctx built-IsCoherent start room).0;
            position = (entries_listed built block_records ctx built-IsCoherent start room).1;
          },
          ap (λ n. record s { refs = n }) (omega arith),
        )
    where
      built : DirCache
      built =
          (dir_cache_build k allocated empty_cache
            (s.cache.data_block dir.d_inode.data_block_number)).1

      built-IsCoherent : IsCoherent built block_records
      built-IsCoherent = build_loop-IsCoherent k allocated all block_records empty_cache refl refl

      done : iterate k allocated true dir ctx s ≡ (
        ok tt,
        record { d_inode = dir.d_inode; d_fsdata = some built },
        iterate_entries built ctx,
        s ▷ sb_bread ▷ brelse,
      )
      done = ap (iterate_cached k allocated true dir ctx s) uncached

  -- A listing of a directory that has the cache of its block, with room for all entries, gives the
  -- name and number of each record in use from position 0, and nothing from any other position; it
  -- leaves directory and state as they were.
  pub iterate_again :
      (cache_allocated : Bool) (cache : DirCache) (rs : List DirRecord)
      → dir.d_fsdata ≡ some cache
      → IsCoherent cache rs
      → length (listing rs) ≤ ctx.room
      → let r = iterate k allocated cache_allocated dir ctx s in
        (r.0 ≡ ok tt)
        × (r.1 ≡ dir)
        × (r.3 ≡ s)
        × (r.2.emitted ≡ ctx.emitted ++ (if ctx.pos == 0 then listing rs else []))
        × (r.2.pos ≡ (if ctx.pos == 0 then 264 * length (listing rs) else ctx.pos))
  unfolding iterate iterate_cached
  iterate_again cache_allocated cache rs cached coherent room =
      subst
        (λ (r : Outcome (Unit {0}) × Dentry × DirContext × State).
          (r.0 ≡ ok tt)
          × (r.1 ≡ dir)
          × (r.3 ≡ s)
          × (r.2.emitted ≡ ctx.emitted ++ (if ctx.pos == 0 then listing rs else []))
          × (r.2.pos ≡ (if ctx.pos == 0 then 264 * length (listing rs) else ctx.pos)))
        (sym done)
        (
          refl,
          refl,
          refl,
          (entries_from cache rs ctx coherent room).0,
          (entries_from cache rs ctx coherent room).1,
        )
    where
      done :
          iterate k allocated cache_allocated dir ctx s ≡ (ok tt, dir, iterate_entries cache ctx, s)
      done = ap (iterate_cached k allocated cache_allocated dir ctx s) cached
