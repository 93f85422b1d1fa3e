-- ===== src/Mkfs/Opened.antt =====
-- The volume that simplefs/mkfs-simplefs.c writes, mounted and listed by simplefs/simple.c.
use simplefs.Base.{
  ℕ, ◌≤◌, ◌<◌, ◌≡◌, refl, ap, sym, ◌∙◌, List, Bool, true, Option, none, some, length, get_elem?,
  take, str_eq, if◌then◌else◌, Bool-cases, inl, inr,
}
use mathlib.Core.Path.{subst}
use simplefs.Simple.Types.{DirRecord, as_records, records_per_block}
use simplefs.Simple.State.{Kernel, Volume}
use simplefs.Simple.Store.Soundness.{IsKernel}
use simplefs.Simple.Mount.Mounted.{IsOrdered}
use simplefs.Simple.Directory.{DirCache, used_cache_entry_get}
use simplefs.Simple.Directory.Coherence.{used_from}
use simplefs.Simple.Directory.Slots.{HasUniqueNames}
use simplefs.Simple.Objects.Names.{view}
use simplefs.Simple.Readdir.{DirContext}
use simplefs.Simple.Readdir.Listing.{listing}
use simplefs.Simple.Session.{IsOpen, IsMountable, mounted, mount_of, list_of}
use simplefs.Simple.Session.Refined.{Session-refines}
use simplefs.Mkfs.Layout.{Device, volume_of}
use simplefs.Mkfs.Format.{Fd, root_inode, welcome_record, welcomefile_inode_number, main}
use simplefs.Mkfs.Formatted.{
  all_done, formatted, format-done, store_is, super_formatted, formatted-IsOrdered,
}
use simplefs.Mkfs.Listed.{root_listing, main-root_listing}

-- The directory in which the one name is the welcome file.
abbrev pub welcomed : List ℕ → Option ℕ
welcomed name = if str_eq welcome_record.filename name then some welcomefile_inode_number else none

view-root_listing : (name : List ℕ) → view (used_from 0 root_listing) name ≡ welcomed name
unfolding used_cache_entry_get
view-root_listing name = elim (Bool-cases (str_eq welcome_record.filename name)) [
  | inl same ↦ rw same refl
  | inr other ↦ rw other refl
]

module _ (pad : ℕ) (dev : Device) where
  abbrev made : Volume
  made = volume_of (main pad all_done true true dev).1

  made-formatted : made ≡ volume_of (formatted pad dev)
  unfolding main
  made-formatted = ap (λ (r : Bool × Fd). volume_of r.1.dev) (format-done pad dev)

module _ (pad : ℕ) (dev : Device) (ctx : DirContext)
    (zeros : (i : ℕ) → 4160 ≤ i → i < 8192 → dev i ≡ 0)
    (free : (i : ℕ) → 8456 ≤ i → i < 12288 → dev i ≡ 0) (from_start : ctx.pos ≡ 0)
    (room : 1 ≤ ctx.room) where
  root_block : as_records ((made pad dev).data_block root_inode.data_block_number) ≡ root_listing
  root_block = main-root_listing pad dev free

  made-IsMountable : IsMountable (made pad dev) root_inode ctx
  unfolding volume_of used_cache_entry_get
  made-IsMountable = record {
    ordered = subst IsOrdered (sym (made-formatted pad dev)) (formatted-IsOrdered pad dev zeros);
    magic =
        ap (λ (v : Volume). v.super.magic) (made-formatted pad dev)
        ∙ ap (λ sb. sb.magic) (super_formatted pad dev);
    block_size =
        ap (λ (v : Volume). v.super.block_size) (made-formatted pad dev)
        ∙ ap (λ sb. sb.block_size) (super_formatted pad dev);
    root_stored =
        ap (λ (v : Volume). get_elem? v.store 0) (made-formatted pad dev)
        ∙ ap (λ l. get_elem? l 0) (store_is pad dev);
    root_no = refl;
    whole = subst (λ (rs : List DirRecord). take records_per_block rs ≡ rs) (sym root_block) refl;
    unique =
        subst (λ (rs : List DirRecord). HasUniqueNames (used_from 0 rs)) (sym root_block)
          (refl, tt);
    from_start = from_start;
    enough = subst (λ (rs : List DirRecord). length (listing rs) ≤ ctx.room) (sym root_block) room;
  }

-- On a device that is zero behind the two inodes in block 1 and behind the first record in block 2, a
-- volume that mkfs has written with every write and every seek successful, mounted, and its root
-- listed from the start with room for one entry: the root directory is open with a cache in which a
-- name has the welcome file's inode number if it is the name of the welcome file, and none otherwise.
pub main-opens :
    (k : Kernel) (pad : ℕ) (dev : Device) (ctx : DirContext) (name : List ℕ)
    → IsKernel k
    → ((i : ℕ) → 4160 ≤ i → i < 8192 → dev i ≡ 0)
    → ((i : ℕ) → 8456 ≤ i → i < 12288 → dev i ≡ 0)
    → ctx.pos ≡ 0
    → 1 ≤ ctx.room
    → let v = volume_of (main pad all_done true true dev).1 in
      let listed = list_of k root_inode ctx (mount_of k v) in
      (cache : DirCache) × IsOpen listed.3 listed.1 cache × (view cache.used name ≡ welcomed name)
main-opens k pad dev ctx name laws zeros free from_start room =
    let ready = made-IsMountable pad dev ctx zeros free from_start room in
    let (cache, open_dir, names) = Session-refines k laws _ _ _ name (mounted ready) in
    (
      cache,
      open_dir,
      names
          ∙ ap (λ (rs : List DirRecord). view (used_from 0 rs) name)
              (main-root_listing pad dev free)
          ∙ view-root_listing name,
    )
