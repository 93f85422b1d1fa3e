-- ===== src/Simple/Bytes.antt =====
-- Directory records of simplefs/simple.h through the bytes of a block: what `struct
-- simplefs_dir_record` is in memory, and what a cast of the bytes reads back.
use Prim.Native.Nat.{ℕ}
use mathlib.Core.Path.{ap₂}
use simplefs.Base.{
  zero, suc, ◌+◌, ◌*◌, ◌^◌, ◌<◌, ◌≡◌, ◌≢◌, refl, ap, sym, ◌∙◌, List, [], ◌∷◌, ◌++◌, append_assoc,
  ==_false, length, length-append, length-take, length-replicate, take, drop, replicate, arith,
  le_bytes, le_value, le_value-le_bytes, length-le_bytes,
}
use simplefs.Simple.Types.{
  DirRecord, c_string, decode_record, decode_records, encode_record, encode_records, records, bytes,
  as_records, as_bytes,
}

-- A name of at most 255 bytes without a NUL, and a 64-bit number.
abbrev pub HasNoNul : List ℕ → Type 0
HasNoNul [] = Unit
HasNoNul (b ∷ bs) = (b ≢ 0) × HasNoNul bs

pub record IsRecord (r : DirRecord) : Type 0 where
  pub short : length r.filename < 256
  pub clean : HasNoNul r.filename
  pub number : r.inode_no < 2 ^ 64

abbrev pub AreRecords : List DirRecord → Type 0
AreRecords [] = Unit
AreRecords (r ∷ rs) = IsRecord r × AreRecords rs

c_string-padded :
    (name rest : List ℕ) (n pad : ℕ)
    → length name < n
    → 0 < pad
    → HasNoNul name
    → c_string n (take n (name ++ replicate pad 0) ++ rest) ≡ name
c_string-padded name rest zero pad short some_pad clean = absurd (omega arith)
c_string-padded name rest (suc n) zero short some_pad clean = absurd (omega arith)
c_string-padded [] rest (suc n) (suc pad) short some_pad clean = refl
c_string-padded (b ∷ bs) rest (suc n) (suc pad) short some_pad (nonzero, clean) =
    rw (==_false b 0 nonzero)
      (ap (λ l. b ∷ l) (c_string-padded bs rest n (suc pad) (omega arith) (omega arith) clean))

drop-append : (xs ys : List ℕ) (n : ℕ) → length xs ≡ n → drop n (xs ++ ys) ≡ ys
drop-append [] ys zero h = refl
drop-append [] ys (suc n) h = absurd (omega arith)
drop-append (x ∷ xs) ys zero h = absurd (omega arith)
drop-append (x ∷ xs) ys (suc n) h = drop-append xs ys n (omega arith)

abbrev name_field : DirRecord → List ℕ
name_field r = take 256 (r.filename ++ replicate 256 0)

length-name_field : (r : DirRecord) → length (name_field r) ≡ 256
length-name_field r = omega (
  arith,
  length-take 256 (r.filename ++ replicate 256 0),
  length-append r.filename (replicate 256 0),
  length-replicate {A = ℕ} 256 0,
)

length-encode_record : (r : DirRecord) → length (encode_record r) ≡ 264
length-encode_record r = omega (
  arith,
  length-append (name_field r) (le_bytes 8 r.inode_no),
  length-name_field r,
  length-le_bytes 8 r.inode_no,
)

decode_record-encode_record :
    (r : DirRecord) (rest : List ℕ) → IsRecord r → decode_record (encode_record r ++ rest) ≡ r
decode_record-encode_record r rest h =
    ap decode_record (append_assoc (name_field r) (le_bytes 8 r.inode_no) rest)
    ∙ ap₂ (λ f i. made f i)
        (c_string-padded r.filename (le_bytes 8 r.inode_no ++ rest) 256 256 h.short (omega arith)
          h.clean)
        (ap (le_value 8)
            (drop-append (name_field r) (le_bytes 8 r.inode_no ++ rest) 256 (length-name_field r))
          ∙ le_value-le_bytes 8 r.inode_no rest (omega (arith, h.number)))
  where
    made : List ℕ → ℕ → DirRecord
    made f i = record { filename = f; inode_no = i }

decode_records-encode_records :
    (rs : List DirRecord) (rest : List ℕ)
    → AreRecords rs
    → decode_records (length rs) (encode_records rs ++ rest) ≡ rs
unfolding decode_records encode_records
decode_records-encode_records [] rest h = refl
decode_records-encode_records (r ∷ rs) rest (first, others) =
    let tail = encode_records rs ++ rest in
    ap (λ l. decode_record l ∷ decode_records (length rs) (drop 264 l))
      (append_assoc (encode_record r) (encode_records rs) rest)
    ∙ ap (λ x. x ∷ decode_records (length rs) (drop 264 (encode_record r ++ tail)))
        (decode_record-encode_record r tail first)
    ∙ ap (λ l. r ∷ decode_records (length rs) l)
        (drop-append (encode_record r) tail 264 (length-encode_record r))
    ∙ ap (λ l. r ∷ l) (decode_records-encode_records rs rest others)

length-encode_records : (rs : List DirRecord) → length (encode_records rs) ≡ 264 * length rs
unfolding encode_records
length-encode_records [] = omega arith
length-encode_records (r ∷ rs) = omega (
  arith,
  length-append (encode_record r) (encode_records rs),
  length-encode_record r,
  length-encode_records rs,
)

-- The first part of a longer list, and all of it with some of what follows.
take-append_more :
    (xs ys : List ℕ) (n m : ℕ) → n ≡ length xs + m → take n (xs ++ ys) ≡ xs ++ take m ys
take-append_more [] ys n m h = ap (λ k. take k ys) (omega (arith, h))
take-append_more (x ∷ xs) ys zero m h = absurd (omega arith)
take-append_more (x ∷ xs) ys (suc n) m h =
    ap (λ l. x ∷ l) (take-append_more xs ys n m (omega arith))

-- The 15 records of a directory, each with a name of at most 255 bytes without a NUL and a 64-bit
-- inode number, are what a cast reads back from the bytes of their block.
pub as_records-as_bytes :
    (rs : List DirRecord)
    → length rs ≡ 15
    → AreRecords rs
    → as_records (bytes (as_bytes (records rs))) ≡ rs
unfolding as_records as_bytes
as_records-as_bytes rs full valid =
    let rest : List ℕ = take 136 (replicate 4096 0) in
    ap (decode_records 15) (
      take-append_more (encode_records rs) (replicate 4096 0) 4096 136
        (omega (arith, full, length-encode_records rs)))
    ∙ ap (λ n. decode_records n (encode_records rs ++ rest)) (sym full)
    ∙ decode_records-encode_records rs rest valid
