-- ===== src/Simple/Readdir.antt =====
-- `simplefs_iterate` of simplefs/simple.c, which lists a directory and builds its cache.
pub mod Listing
use simplefs.Base.{
  ℕ, ◌+◌, ◌-◌, List, [], ◌∷◌, ◌++◌, Bool, Option, none, some, ◌==◌, if◌then◌else◌, take, replicate,
  ◌▷◌,
}
use simplefs.Simple.Types.{Outcome, ok, err, oops, filename_maxlen, sizeof_dir_record}
use simplefs.Simple.State.{State, Kernel, sb_bread, brelse}
use simplefs.Simple.Directory.{DirCache, CacheEntry, cache_alloc, dir_cache_build}
use simplefs.Simple.Objects.{Dentry}

-- The kernel's `dir_context`: the position, and what the caller has been given, with the number of
-- entries that its buffer still takes.
pub record DirContext : Type 0 where
  pub pos : ℕ
  pub emitted : List (List ℕ × ℕ)
  pub room : ℕ

-- The name that `dir_emit` is given: always 255 bytes of the record.
abbrev pub emitted_name : List ℕ → List ℕ
emitted_name name = take filename_maxlen (name ++ replicate filename_maxlen 0)

-- `dir_emit` drops an entry that the buffer does not take.
abbrev pub dir_emit : List ℕ → ℕ → DirContext → DirContext
dir_emit name ino ctx =
    if ctx.room == 0
    then ctx
    else record ctx { emitted = ctx.emitted ++ ((name, ino) ∷ []); room = ctx.room - 1 }

-- The body of the loop; the result of `dir_emit` is not read.
unfoldable pub emit_step : CacheEntry → DirContext → DirContext
emit_step e ctx =
    let ctx' = dir_emit (emitted_name e.dir_record.filename) e.dir_record.inode_no ctx in
    record ctx' { pos = ctx'.pos + sizeof_dir_record }

unfoldable pub emit_loop : List CacheEntry → DirContext → DirContext
emit_loop [] ctx = ctx
emit_loop (e ∷ es) ctx = emit_loop es (emit_step e ctx)

unfoldable pub iterate_entries : DirCache → DirContext → DirContext
iterate_entries cache ctx = if ctx.pos == 0 then emit_loop cache.used ctx else ctx

module _ (k : Kernel) (allocated : ℕ → Bool) where
  -- A new cache. The test behind the allocation reads `d_fsdata`, which is NULL there, so that an
  -- allocation that failed is used; what `dir_cache_build` returns is not read.
  unfoldable pub iterate_build :
      Dentry
      → DirContext
      → State
      → Option DirCache
      → Outcome (Unit {0}) × Dentry × DirContext × State
  iterate_build dir ctx s none = (oops, dir, ctx, s)
  iterate_build dir ctx s (some fresh) =
      let cache =
        (dir_cache_build k allocated fresh (s.cache.data_block dir.d_inode.data_block_number)).1 in
      (
        ok tt,
        record { d_inode = dir.d_inode; d_fsdata = some cache },
        iterate_entries cache ctx,
        s ▷ sb_bread ▷ brelse,
      )

  unfoldable pub iterate_cached :
      Bool
      → Dentry
      → DirContext
      → State
      → Option DirCache
      → Outcome (Unit {0}) × Dentry × DirContext × State
  iterate_cached cache_allocated dir ctx s none =
      iterate_build dir ctx s (cache_alloc cache_allocated)
  iterate_cached cache_allocated dir ctx s (some cache) = (ok tt, dir, iterate_entries cache ctx, s)

  unfoldable pub iterate :
      Bool → Dentry → DirContext → State → Outcome (Unit {0}) × Dentry × DirContext × State
  iterate cache_allocated dir ctx s = iterate_cached cache_allocated dir ctx s dir.d_fsdata

-- `simplefs_dentry_release` frees the entries and the cache.
unfoldable pub dentry_release : Dentry → Dentry
dentry_release dir = record { d_inode = dir.d_inode; d_fsdata = none }
