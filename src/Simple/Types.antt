-- ===== src/Simple/Types.antt =====
-- The structures of simplefs/simple.h, the constants, and the inode numbers of mode bits.
-- `uint64_t` fields are numbers below 2 ^ 64. A file name is the list of its bytes before the NUL.
use simplefs.Base.{
  le_bytes, le_value, ℕ, zero, suc, ◌+◌, ◌/◌, ◌%◌, List, [], ◌∷◌, ◌++◌, Bool, ◌==◌, if◌then◌else◌,
  take, drop, replicate, ◌-◌, ◌^◌,
}

-- The kernel's error numbers, as far as the module returns them.
pub data Errno : Type 0 where
  eintr enospc einval enomem eio eperm enoent efault : Errno

-- `oops` is a BUG_ON that fires, an access through a wrong pointer, or a write past the end of an
-- array: nothing is said of what follows.
pub data Outcome {ℓ} (A : Type ℓ) : Type ℓ where
  ok : A → Outcome A
  err : Errno → Outcome A
  oops : Outcome A

abbrev pub simplefs_magic : ℕ
simplefs_magic = 0x10032013

abbrev pub default_block_size : ℕ
default_block_size = 4096

abbrev pub filename_maxlen : ℕ
filename_maxlen = 255

abbrev pub start_ino : ℕ
start_ino = 1

abbrev pub rootdir_inode_number : ℕ
rootdir_inode_number = 1

abbrev pub rootdir_datablock_number : ℕ
rootdir_datablock_number = 2

abbrev pub max_filesystem_objects_supported : ℕ
max_filesystem_objects_supported = 64

-- `u64` addition and subtraction of one.
abbrev pub u64_inc : ℕ → ℕ
u64_inc n = (n + 1) % 2 ^ 64

abbrev pub u64_dec : ℕ → ℕ
u64_dec n = (n + 2 ^ 64 - 1) % 2 ^ 64

-- `struct simplefs_dir_record`; `sizeof` is 255 + 1 of padding + 8. The bytes behind a name's NUL are
-- taken as the zeros of a cleared record.
pub record DirRecord : Type 0 where
  pub filename : List ℕ
  pub inode_no : ℕ

abbrev pub sizeof_dir_record : ℕ
sizeof_dir_record = 264

-- The record that `memset(record, 0, sizeof(*record))` leaves.
abbrev pub zero_record : DirRecord
zero_record = record { filename = []; inode_no = 0 }

-- `struct simplefs_inode`; the union of `file_size` and `dir_children_count` is one field.
pub record Inode : Type 0 where
  pub mode : ℕ
  pub inode_no : ℕ
  pub data_block_number : ℕ
  pub file_size : ℕ

abbrev pub dir_children_count : Inode → ℕ
dir_children_count i = i.file_size

-- 4 + 4 of padding + 8 + 8 + 8
abbrev pub sizeof_inode : ℕ
sizeof_inode = 32

abbrev pub zero_inode : Inode
zero_inode = record { mode = 0; inode_no = 0; data_block_number = 0; file_size = 0 }

pub record SuperBlock : Type 0 where
  pub version : ℕ
  pub magic : ℕ
  pub block_size : ℕ
  pub inodes_count : ℕ
  pub free_blocks : ℕ

-- The C library's mode bits: S_IFMT selects the 4 bits from 2 ^ 12 on.
abbrev pub s_ifdir : ℕ
s_ifdir = 0o040000

abbrev pub s_ifreg : ℕ
s_ifreg = 0o100000

abbrev pub s_isdir : ℕ → Bool
s_isdir mode = mode / 2 ^ 12 % 16 == 4

abbrev pub s_isreg : ℕ → Bool
s_isreg mode = mode / 2 ^ 12 % 16 == 8

-- A data block as the module casts it: directory records, or the bytes of a file.
pub data Block : Type 0 where
  records : List DirRecord → Block
  bytes : List ℕ → Block

-- How many records fit a block, `SIMPLEFS_DEFAULT_BLOCK_SIZE / sizeof(struct simplefs_dir_record)`.
abbrev pub records_per_block : ℕ
records_per_block = default_block_size / sizeof_dir_record

abbrev pub inodes_per_block : ℕ
inodes_per_block = default_block_size / sizeof_inode

-- The C string at the head of an array of `n` bytes.
abbrev pub c_string : ℕ → List ℕ → List ℕ
c_string zero bs = []
c_string (suc n) [] = []
c_string (suc n) (b ∷ bs) = if b == 0 then [] else b ∷ c_string n bs

-- The record that starts at the head of `bs`.
abbrev pub decode_record : List ℕ → DirRecord
decode_record bs = record { filename = c_string 256 bs; inode_no = le_value 8 (drop 256 bs) }

unfoldable pub decode_records : ℕ → List ℕ → List DirRecord
decode_records zero bs = []
decode_records (suc n) bs = decode_record bs ∷ decode_records n (drop sizeof_dir_record bs)

abbrev pub encode_record : DirRecord → List ℕ
encode_record r = take 256 (r.filename ++ replicate 256 0) ++ le_bytes 8 r.inode_no

unfoldable pub encode_records : List DirRecord → List ℕ
encode_records [] = []
encode_records (r ∷ rs) = encode_record r ++ encode_records rs

-- The cast `(struct simplefs_dir_record *)bh->b_data`.
unfoldable pub as_records : Block → List DirRecord
as_records (records rs) = rs
as_records (bytes bs) = decode_records records_per_block bs

-- The cast `(char *)bh->b_data`; behind the last record a block has zeros.
unfoldable pub as_bytes : Block → List ℕ
as_bytes (records rs) =
    take default_block_size (encode_records rs ++ replicate default_block_size 0)
as_bytes (bytes bs) = bs
