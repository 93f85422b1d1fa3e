-- ===== src/Mkfs/Formatted.antt =====
-- What simplefs/mkfs-simplefs.c leaves on a device, and that simplefs/simple.c mounts it.
use simplefs.Base.{
  ℕ, zero, suc, ◌≤◌, ◌<◌, ◌≡◌, refl, ap, sym, ◌∙◌, List, ◌∷◌, true, Bool, none, some, ◌==◌,
  get_elem?, arith, if◌then◌else◌,
}
use mathlib.Core.Path.{subst}
use simplefs.Simple.Types.{Inode, ok, encode_record}
use simplefs.Simple.State.{Kernel, no_locks}
use simplefs.Simple.Store.Counts.{slot_no, used_count}
use simplefs.Simple.Store.Soundness.{IsKernel, IsSound}
use simplefs.Simple.Mount.{fill_super}
use simplefs.Simple.Mount.Mounted.{completed_mount, unmounted, IsOrdered, fill_super-IsSound}
use simplefs.Mkfs.Layout.{
  Device, encode_inode, encode_super, decode_super, decode_inode, inodes_from, volume_of,
}
use simplefs.Mkfs.Format.{
  Calls, Fd, write_at, write_fd, new_super, root_inode, welcome_inode, welcome_record,
  welcomefile_body, write_superblock, write_inode_store, write_inode, write_dirent, write_block,
  exit_code, format, main,
}
use simplefs.Mkfs.Bytes.{
  write_at_below, write_at_above, slot_no_zeros, get-inodes_from, used_count_free,
  length-inodes_from,
}

-- Every write and every seek succeeds.
abbrev pub all_done : Calls
all_done = record {
  super_stop = none;
  root_stop = none;
  inode_stop = none;
  inode_seek = true;
  dirent_stop = none;
  dirent_seek = true;
  block_stop = none;
}

module _ (pad : ℕ) (dev : Device) where
  -- The five writes and their offsets.
  abbrev pub formatted : Device
  formatted =
      write_at
        (write_at
          (write_at
            (write_at (write_at dev 0 (encode_super new_super)) 4096 (encode_inode pad root_inode))
            4128 (encode_inode pad welcome_inode))
          8192 (encode_record welcome_record))
        12288 welcomefile_body

  pub format-done : format pad all_done dev ≡ (true, record { dev = formatted; offset = 12329 })
  unfolding format write_superblock write_inode_store write_inode write_dirent write_block write_fd
      encode_inode encode_super
  format-done = refl

  -- Between the inodes and the end of block 1 nothing is written.
  kept : (i : ℕ) → 4160 ≤ i → i < 8192 → formatted i ≡ dev i
  unfolding encode_super encode_inode
  kept i a b =
      write_at_below _ 12288 welcomefile_body i (omega arith)
      ∙ write_at_below _ 8192 (encode_record welcome_record) i (omega arith)
      ∙ write_at_above _ 4128 (encode_inode pad welcome_inode) i (omega arith)
      ∙ write_at_above _ 4096 (encode_inode pad root_inode) i (omega arith)
      ∙ write_at_above dev 0 (encode_super new_super) i (omega arith)

  pub super_formatted : decode_super formatted ≡ new_super
  unfolding decode_super write_at encode_super
  super_formatted = refl

  root_formatted : decode_inode formatted 4096 ≡ root_inode
  unfolding decode_inode write_at encode_inode
  root_formatted = refl

  welcome_formatted : decode_inode formatted 4128 ≡ welcome_inode
  unfolding decode_inode write_at encode_inode
  welcome_formatted = refl

  abbrev store : List Inode
  store = (volume_of formatted).store

  pub store_is :
      (volume_of formatted).store ≡ root_inode ∷ (welcome_inode ∷ inodes_from formatted 4160 126)
  unfolding volume_of inodes_from
  store_is =
      ap (λ i. i ∷ (decode_inode formatted 4128 ∷ inodes_from formatted 4160 126)) root_formatted
      ∙ ap (λ i. root_inode ∷ (i ∷ inodes_from formatted 4160 126)) welcome_formatted

  module _ (zeros : (i : ℕ) → 4160 ≤ i → i < 8192 → dev i ≡ 0) where
    rest_free : (i : ℕ) → slot_no (inodes_from formatted 4160 126) i ≡ 0
    rest_free i =
        slot_no_zeros formatted 4160 126 i
          (λ j a b. kept j a (omega arith) ∙ zeros j a (omega arith))

    slots : (i : ℕ) → slot_no store i ≡ (if i == 0 then 1 else if i == 1 then 2 else 0)
    slots i = ap (λ l. slot_no l i) store_is ∙ at i
      where
        at :
            (j : ℕ)
            → slot_no (root_inode ∷ (welcome_inode ∷ inodes_from formatted 4160 126)) j
              ≡ (if j == 0 then 1 else if j == 1 then 2 else 0)
        at zero = refl
        at (suc zero) = refl
        at (suc (suc j)) = ground (arith, rest_free j)

    pub formatted-IsOrdered : IsOrdered (volume_of formatted)
    unfolding volume_of
    formatted-IsOrdered = record {
      full = length-inodes_from formatted 4096 128;
      placed = λ i used. ground (arith, slots i);
      small = λ i past. ground (arith, slots i);
      counted =
          ap (λ sb. sb.inodes_count) super_formatted
          ∙ sym (
              ap used_count store_is
              ∙ omega (arith, used_count_free (inodes_from formatted 4160 126) rest_free));
    }

-- A device whose block 1 is zero behind the first two inodes is a volume that mounts once every write
-- and seek of mkfs has succeeded: `main` returns 0, an uninterrupted mount succeeds with the root inode
-- that was written, inode store, inode bitmap and count of inodes agree, and nothing is changed.
pub main-mounts :
    (k : Kernel) (pad : ℕ) (dev : Device)
    → IsKernel k
    → ((i : ℕ) → 4160 ≤ i → i < 8192 → dev i ≡ 0)
    → let r = main pad all_done true true dev in
      let v = volume_of r.1 in
      let m = fill_super k completed_mount (unmounted v) in
      (r.0 ≡ some 0) × (m.0 ≡ ok (some root_inode)) × IsSound m.1 × (m.1.cache ≡ v)
unfolding main volume_of
main-mounts k pad dev laws zeros =
    subst
      (λ (r : Bool × Fd).
        let v = volume_of r.1.dev in
        let m = fill_super k completed_mount (unmounted v) in
        (exit_code r.0 ≡ some 0) × (m.0 ≡ ok (some root_inode)) × IsSound m.1 × (m.1.cache ≡ v))
      (sym (format-done pad dev)) (refl, mounted.0, mounted.1, mounted.2)
  where
    mounted :
        let v = volume_of (formatted pad dev) in
        let m = fill_super k completed_mount (unmounted v) in
        (m.0 ≡ ok (some root_inode))
        × IsSound m.1
        × (m.1.cache ≡ v)
        × (m.1.disk ≡ v)
        × (m.1.locks ≡ no_locks)
        × (m.1.refs ≡ 0)
    mounted =
        fill_super-IsSound k laws (volume_of (formatted pad dev))
          (formatted-IsOrdered pad dev zeros) root_inode
          (ap (λ sb. sb.magic) (super_formatted pad dev))
          (ap (λ sb. sb.block_size) (super_formatted pad dev))
          (ap (λ l. get_elem? l 0) (store_is pad dev))

-- Whatever the device held, mkfs leaves each inode of the other slots of the inode store as it was,
-- once every write and seek has succeeded: one that was there before is there again.
pub main_stale :
    (pad : ℕ) (dev : Device) (i : ℕ)
    → 2 ≤ i
    → get_elem? (volume_of (main pad all_done true true dev).1).store i
      ≡ get_elem? (volume_of dev).store i
unfolding main volume_of inodes_from
main_stale pad dev (suc (suc i)) h =
    ap (λ (r : Bool × Fd). get_elem? (inodes_from r.1.dev 4096 128) (suc (suc i)))
      (format-done pad dev)
    ∙ get-inodes_from (formatted pad dev) dev 4160 126 i (λ j a b. kept pad dev j a (omega arith))
main_stale pad dev (suc zero) h = absurd (omega arith)
main_stale pad dev zero h = absurd (omega arith)
