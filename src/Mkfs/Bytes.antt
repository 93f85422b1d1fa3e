-- ===== src/Mkfs/Bytes.antt =====
-- What writes to a device leave outside the bytes written, and what zero bytes are as inodes.
use simplefs.Base.{
  get_elem?, some, le_value, ℕ, zero, suc, ◌+◌, ◌-◌, ◌*◌, ◌≤◌, ◌<◌, ◌≡◌, refl, ap, ◌∙◌, List, [],
  ◌∷◌, true, false, none, ltb, length, get_elem?, arith,
}
use simplefs.Simple.Types.{Inode}
use simplefs.Simple.Store.Counts.{slot_no, used_count}
use simplefs.Mkfs.Layout.{Device, read_at, decode_inode, inodes_from}
use simplefs.Mkfs.Format.{write_at}

get_elem?-past : (bs : List ℕ) (n : ℕ) → length bs ≤ n → get_elem? bs n ≡ none
get_elem?-past [] n h = refl
get_elem?-past (b ∷ bs) zero h = absurd (omega arith)
get_elem?-past (b ∷ bs) (suc n) h = get_elem?-past bs n (omega arith)

pub write_at_below :
    (dev : Device) (off : ℕ) (bs : List ℕ) (i : ℕ) → i < off → write_at dev off bs i ≡ dev i
unfolding write_at
write_at_below dev off bs i h = let below : ltb i off ≡ true = ground arith in rw below

pub write_at_above :
    (dev : Device) (off : ℕ) (bs : List ℕ) (i : ℕ)
    → off + length bs ≤ i
    → write_at dev off bs i ≡ dev i
unfolding write_at
write_at_above dev off bs i h =
    let above : ltb i off ≡ false = ground arith in
    rw (above, get_elem?-past bs (i - off) (omega arith))

-- Zero bytes are the integer 0.
pub le_value_zeros :
    (dev : Device) (off n : ℕ)
    → ((i : ℕ) → off ≤ i → i < off + n → dev i ≡ 0)
    → le_value n (read_at dev off n) ≡ 0
le_value_zeros dev off zero zeros = refl
le_value_zeros dev off (suc n) zeros = omega (
  arith,
  zeros off,
  le_value_zeros dev (suc off) n (λ i a b. zeros i (omega arith) (omega arith)),
)

-- Inodes of zero bytes are free slots.
pub slot_no_zeros :
    (dev : Device) (off n i : ℕ)
    → ((j : ℕ) → off ≤ j → j < off + 32 * n → dev j ≡ 0)
    → slot_no (inodes_from dev off n) i ≡ 0
unfolding inodes_from decode_inode
slot_no_zeros dev off zero i zeros = refl
slot_no_zeros dev off (suc n) zero zeros =
    le_value_zeros dev (off + 8) 8 (λ j a b. zeros j (omega arith) (omega arith))
slot_no_zeros dev off (suc n) (suc i) zeros =
    slot_no_zeros dev (off + 32) n i (λ j a b. zeros j (omega arith) (omega arith))

pub slot_no_past : (dev : Device) (off n i : ℕ) → n ≤ i → slot_no (inodes_from dev off n) i ≡ 0
unfolding inodes_from
slot_no_past dev off zero i h = refl
slot_no_past dev off (suc n) zero h = absurd (omega arith)
slot_no_past dev off (suc n) (suc i) h = slot_no_past dev (off + 32) n i (omega arith)

pub used_count_free : (l : List Inode) → ((i : ℕ) → slot_no l i ≡ 0) → used_count l ≡ 0
used_count_free [] unused = refl
used_count_free (x ∷ l) unused = ground (arith, unused 0, used_count_free l (λ i. unused (suc i)))

pub length-inodes_from : (dev : Device) (off n : ℕ) → length (inodes_from dev off n) ≡ n
unfolding inodes_from
length-inodes_from dev off zero = refl
length-inodes_from dev off (suc n) = ap suc (length-inodes_from dev (off + 32) n)

-- The bytes decide the slots.
read_at-same :
    (dev dev' : Device) (off n : ℕ)
    → ((j : ℕ) → off ≤ j → j < off + n → dev j ≡ dev' j)
    → read_at dev off n ≡ read_at dev' off n
read_at-same dev dev' off zero same = refl
read_at-same dev dev' off (suc n) same =
    let first : dev off ≡ dev' off = same off (omega arith) (omega arith) in
    let rest = read_at-same dev dev' (suc off) n (λ j a b. same j (omega arith) (omega arith)) in
    ap (λ b. b ∷ read_at dev (suc off) n) first ∙ ap (λ l. dev' off ∷ l) rest

decode_inode-same :
    (dev dev' : Device) (off : ℕ)
    → ((j : ℕ) → off ≤ j → j < off + 32 → dev j ≡ dev' j)
    → decode_inode dev off ≡ decode_inode dev' off
unfolding decode_inode
decode_inode-same dev dev' off same =
    let r = read_at dev' in
    ap (λ l. made l (read_at dev (off + 8) 8) (read_at dev (off + 16) 8) (read_at dev (off + 24) 8))
      (read_at-same dev dev' off 4 (λ j a b. same j (omega arith) (omega arith)))
    ∙ ap (λ l. made (r off 4) l (read_at dev (off + 16) 8) (read_at dev (off + 24) 8))
        (read_at-same dev dev' (off + 8) 8 (λ j a b. same j (omega arith) (omega arith)))
    ∙ ap (λ l. made (r off 4) (r (off + 8) 8) l (read_at dev (off + 24) 8))
        (read_at-same dev dev' (off + 16) 8 (λ j a b. same j (omega arith) (omega arith)))
    ∙ ap (λ l. made (r off 4) (r (off + 8) 8) (r (off + 16) 8) l)
        (read_at-same dev dev' (off + 24) 8 (λ j a b. same j (omega arith) (omega arith)))
  where
    made : List ℕ → List ℕ → List ℕ → List ℕ → Inode
    made a b c d = record {
      mode = le_value 4 a;
      inode_no = le_value 8 b;
      data_block_number = le_value 8 c;
      file_size = le_value 8 d;
    }

pub get-inodes_from :
    (dev dev' : Device) (off n i : ℕ)
    → ((j : ℕ) → off ≤ j → j < off + 32 * n → dev j ≡ dev' j)
    → get_elem? (inodes_from dev off n) i ≡ get_elem? (inodes_from dev' off n) i
unfolding inodes_from
get-inodes_from dev dev' off zero i same = refl
get-inodes_from dev dev' off (suc n) zero same =
    ap some (decode_inode-same dev dev' off (λ j a b. same j (omega arith) (omega arith)))
get-inodes_from dev dev' off (suc n) (suc i) same =
    get-inodes_from dev dev' (off + 32) n i (λ j a b. same j (omega arith) (omega arith))
