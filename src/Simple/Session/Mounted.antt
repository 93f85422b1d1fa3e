-- ===== src/Simple/Session/Mounted.antt =====
-- The root directory of a volume that was mounted is open once it was listed.
use simplefs.Base.{◌≡◌, refl, sym, ap, ◌∙◌, List, take, true, none}
use mathlib.Core.Path.{subst}
use simplefs.Simple.Types.{Inode, DirRecord, as_records, records_per_block}
use simplefs.Simple.State.{State, Volume, Kernel}
use simplefs.Simple.Store.Counts.{slot_no, slot_no-get}
use simplefs.Simple.Store.Soundness.{IsKernel}
use simplefs.Simple.Directory.{DirCache}
use simplefs.Simple.Directory.Coherence.{IsCoherent, used_from}
use simplefs.Simple.Directory.Slots.{HasUniqueNames}
use simplefs.Simple.Mount.Mounted.{fill_super-IsSound}
use simplefs.Simple.Readdir.{DirContext}
use simplefs.Simple.Readdir.Listing.{iterate-IsListed}
use simplefs.Simple.Session.{IsOpen, IsMountable, mount_of, list_of}

module _ (k : Kernel) (laws : IsKernel k) (v : Volume) (root : Inode) (ctx : DirContext)
    (ready : IsMountable v root ctx) where
  abbrev root_records : List DirRecord
  root_records = as_records (v.data_block root.data_block_number)

  pub mounted-IsOpen :
      (cache : DirCache) × IsOpen
        (list_of k root ctx (mount_of k v)).3
        (list_of k root ctx (mount_of k v)).1
        cache
      × (cache.used ≡ used_from 0 root_records)
  mounted-IsOpen =
      let (_, sound, same, _, unlocked, _) =
        fill_super-IsSound k laws v ready.ordered root ready.magic ready.block_size
          ready.root_stored in
      let t = mount_of k v in
      let block : take records_per_block (as_records (t.cache.data_block root.data_block_number))
          ≡ root_records =
        ap
          (λ (c : Volume).
            take records_per_block (as_records (c.data_block root.data_block_number)))
          same
        ∙ ready.whole in
      let (listed, kept) =
        iterate-IsListed k (λ i. true) (λ i. refl) (record { d_inode = root; d_fsdata = none }) ctx
          t refl ready.from_start (rw block ready.enough) in
      let on_disk : as_records (t.cache.data_block root.data_block_number) ≡ root_records =
        ap (λ (c : Volume). as_records (c.data_block root.data_block_number)) same in
      let coherent : IsCoherent listed.cache root_records =
        subst (IsCoherent listed.cache) block listed.coherent in
      (
        listed.cache,
        record {
          sound = rw kept sound;
          unlocked = rw kept unlocked;
          parent_slot = 0;
          parent_no = rw listed.inode_kept ready.root_no;
          parent_stored =
              ap (λ (s : State). slot_no s.cache.store 0) kept
              ∙ ap (λ (c : Volume). slot_no c.store 0) same
              ∙ slot_no-get v.store 0 root ready.root_stored
              ∙ ready.root_no;
          cached = listed.cached;
          coherent =
              rw (kept, listed.inode_kept) (subst (IsCoherent listed.cache) (sym on_disk) coherent);
          unique = subst HasUniqueNames (sym coherent.used_eq) ready.unique;
        },
        coherent.used_eq,
      )
