-- ===== src/Mkfs/Listed.antt =====
-- The root directory that simplefs/mkfs-simplefs.c leaves on a device.
use simplefs.Base.{
  ℕ, zero, suc, ◌+◌, ◌≤◌, ◌<◌, ◌≡◌, refl, ap, ◌∙◌, List, ◌∷◌, ◌++◌, Bool, true, replicate, arith,
}
use simplefs.Simple.Types.{
  zero_record, bytes, records, as_records, as_bytes, encode_record, encode_records, DirRecord,
}
use simplefs.Simple.Bytes.{IsRecord, AreRecords, as_records-as_bytes}
use simplefs.Mkfs.Layout.{Device, read_at, volume_of, encode_inode, encode_super}
use simplefs.Mkfs.Format.{
  Fd, write_at, new_super, root_inode, welcome_inode, welcome_record, welcomefile_body, main,
}
use simplefs.Mkfs.Bytes.{write_at_below, write_at_above}
use simplefs.Mkfs.Formatted.{all_done, formatted, format-done}

read_at-append :
    (dev : Device) (off n m t next : ℕ)
    → t ≡ n + m
    → next ≡ off + n
    → read_at dev off t ≡ read_at dev off n ++ read_at dev next m
read_at-append dev off zero m t next e f =
    let all : t ≡ m = omega (arith, e) in
    let here : off ≡ next = omega (arith, f) in
    ap (read_at dev off) all ∙ ap (λ o. read_at dev o m) here
read_at-append dev off (suc n) m zero next e f = absurd (omega arith)
read_at-append dev off (suc n) m (suc t) next e f =
    ap (λ l. dev off ∷ l) (read_at-append dev (suc off) n m t next (omega arith) (omega arith))

read_at_zeros :
    (dev : Device) (off n : ℕ)
    → ((i : ℕ) → off ≤ i → i < off + n → dev i ≡ 0)
    → read_at dev off n ≡ replicate n 0
read_at_zeros dev off zero zeros = refl
read_at_zeros dev off (suc n) zeros =
    ap (λ b. b ∷ read_at dev (suc off) n) (zeros off (omega arith) (omega arith))
    ∙ ap (λ l. 0 ∷ l) (read_at_zeros dev (suc off) n (λ i a b. zeros i (omega arith) (omega arith)))

abbrev pub root_listing : List DirRecord
root_listing = welcome_record ∷ replicate 14 zero_record

module _ (pad : ℕ) (dev : Device) (zeros : (i : ℕ) → 8456 ≤ i → i < 12288 → dev i ≡ 0) where
  -- Between the record and the end of block 2 nothing is written.
  kept : (i : ℕ) → 8456 ≤ i → i < 12288 → formatted pad dev i ≡ dev i
  unfolding encode_super encode_inode
  kept i a b =
      write_at_below _ 12288 welcomefile_body i (omega arith)
      ∙ write_at_above _ 8192 (encode_record welcome_record) i (omega arith)
      ∙ write_at_above _ 4128 (encode_inode pad welcome_inode) i (omega arith)
      ∙ write_at_above _ 4096 (encode_inode pad root_inode) i (omega arith)
      ∙ write_at_above dev 0 (encode_super new_super) i (omega arith)

  record_bytes : read_at (formatted pad dev) 8192 264 ≡ encode_record welcome_record
  unfolding write_at
  record_bytes = refl

  block_bytes : read_at (formatted pad dev) 8192 4096 ≡ as_bytes (records root_listing)
  unfolding as_bytes encode_records
  block_bytes =
      read_at-append (formatted pad dev) 8192 264 3832 4096 8456 refl refl
      ∙ ap (λ l. l ++ read_at (formatted pad dev) 8456 3832) record_bytes
      ∙ ap (λ l. encode_record welcome_record ++ l)
          (read_at_zeros (formatted pad dev) 8456 3832 (λ i a b. kept i a b ∙ zeros i a b))

zeros-AreRecords : (n : ℕ) → AreRecords (replicate n zero_record)
zeros-AreRecords zero = tt
zeros-AreRecords (suc n) =
    (record { short = omega arith; clean = tt; number = omega arith }, zeros-AreRecords n)

welcome-IsRecord : IsRecord welcome_record
welcome-IsRecord = record {
  short = omega arith;
  clean = (
    omega arith,
    (
      omega arith,
      (omega arith, (omega arith, (omega arith, (omega arith, (omega arith, (omega arith, tt)))))),
    ),
  );
  number = omega arith;
}

-- On a device whose block 2 is zero behind its first record, the root directory's block has, once every
-- write and seek of mkfs has succeeded, the record of the welcome file and 14 free records.
pub main-root_listing :
    (pad : ℕ) (dev : Device)
    → ((i : ℕ) → 8456 ≤ i → i < 12288 → dev i ≡ 0)
    → as_records
        ((volume_of (main pad all_done true true dev).1).data_block root_inode.data_block_number)
      ≡ root_listing
unfolding main volume_of as_records
main-root_listing pad dev zeros =
    ap (λ (r : Bool × Fd). as_records (bytes (read_at r.1.dev 8192 4096))) (format-done pad dev)
    ∙ ap (λ l. as_records (bytes l)) (block_bytes pad dev zeros)
    ∙ as_records-as_bytes root_listing refl (welcome-IsRecord, zeros-AreRecords 14)
