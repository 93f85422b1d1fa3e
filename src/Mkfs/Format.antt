-- ===== src/Mkfs/Format.antt =====
-- The functions of simplefs/mkfs-simplefs.c. Each says whether it succeeds: the code's 0 is `true`.
use simplefs.Base.{
  ℕ, ◌+◌, ◌-◌, ◌^◌, List, [], ◌∷◌, Bool, true, false, Option, none, some, ◌==◌, ltb, if◌then◌else◌,
  length, get_elem?, take,
}
use simplefs.Simple.Types.{
  SuperBlock, Inode, DirRecord, encode_record, simplefs_magic, default_block_size, sizeof_inode,
  sizeof_dir_record, rootdir_inode_number, rootdir_datablock_number, s_ifdir, s_ifreg,
}
use simplefs.Mkfs.Layout.{Device, encode_inode, encode_super}

-- The open device and the position of its descriptor.
pub record Fd : Type 0 where
  pub dev : Device
  pub offset : ℕ

-- What the system answers: the bytes after which each `write` stops (`none` if it writes all), and
-- whether each `lseek` succeeds.
pub record Calls : Type 0 where
  pub super_stop : Option ℕ
  pub root_stop : Option ℕ
  pub inode_stop : Option ℕ
  pub inode_seek : Bool
  pub dirent_stop : Option ℕ
  pub dirent_seek : Bool
  pub block_stop : Option ℕ

abbrev pub welcomefile_datablock_number : ℕ
welcomefile_datablock_number = 3

abbrev pub welcomefile_inode_number : ℕ
welcomefile_inode_number = 2

unfoldable pub write_at : Device → ℕ → List ℕ → Device
write_at dev off bs i =
    if ltb i off then dev i else elim (get_elem? bs (i - off)) [ none ↦ dev i | some b ↦ b ]

-- `write`: the count, and the position behind it.
abbrev pub written : Option ℕ → List ℕ → List ℕ
written none bs = bs
written (some k) bs = take k bs

unfoldable pub write_fd : Option ℕ → List ℕ → Fd → ℕ × Fd
write_fd stop bs fd =
    let bs' = written stop bs in
    (length bs', record { dev = write_at fd.dev fd.offset bs'; offset = fd.offset + length bs' })

-- `lseek` from the current position.
abbrev pub lseek : ℕ → Fd → Fd
lseek n fd = record { dev = fd.dev; offset = fd.offset + n }

-- `~(1 << WELCOMEFILE_DATABLOCK_NUMBER)` is an `int`, and negative.
abbrev pub new_super : SuperBlock
new_super = record {
  version = 1;
  magic = simplefs_magic;
  block_size = default_block_size;
  inodes_count = 2;
  free_blocks = 2 ^ 64 - 1 - 2 ^ welcomefile_datablock_number;
}

abbrev pub root_inode : Inode
root_inode = record {
  mode = s_ifdir;
  inode_no = rootdir_inode_number;
  data_block_number = rootdir_datablock_number;
  file_size = 1;
}

-- "Love is God. God is Love. Anbe Murugan.\n" with its NUL.
abbrev pub welcomefile_body : List ℕ
welcomefile_body =
    b'L' ∷ b'o' ∷ b'v' ∷ b'e' ∷ b' ' ∷ b'i' ∷ b's' ∷ b' ' ∷ b'G' ∷ b'o' ∷ b'd' ∷ b'.' ∷ b' ' ∷ b'G'
    ∷ b'o' ∷ b'd' ∷ b' ' ∷ b'i' ∷ b's' ∷ b' ' ∷ b'L' ∷ b'o' ∷ b'v' ∷ b'e' ∷ b'.' ∷ b' ' ∷ b'A'
    ∷ b'n' ∷ b'b' ∷ b'e' ∷ b' ' ∷ b'M' ∷ b'u' ∷ b'r' ∷ b'u' ∷ b'g' ∷ b'a' ∷ b'n' ∷ b'.' ∷ 10 ∷ 0
    ∷ []

abbrev pub welcome_inode : Inode
welcome_inode = record {
  mode = s_ifreg;
  inode_no = welcomefile_inode_number;
  data_block_number = welcomefile_datablock_number;
  file_size = length welcomefile_body;
}

abbrev pub welcome_record : DirRecord
welcome_record = record {
  filename = b'v' ∷ b'a' ∷ b'n' ∷ b'a' ∷ b'k' ∷ b'k' ∷ b'a' ∷ b'm' ∷ [];
  inode_no = welcomefile_inode_number;
}

unfoldable pub write_superblock : Option ℕ → Fd → Bool × Fd
write_superblock stop fd =
    let (ret, fd') = write_fd stop (encode_super new_super) fd in (ret == default_block_size, fd')

module _ (pad : ℕ) where
  unfoldable pub write_inode_store : Option ℕ → Fd → Bool × Fd
  write_inode_store stop fd =
      let (ret, fd') = write_fd stop (encode_inode pad root_inode) fd in (ret == sizeof_inode, fd')

  unfoldable pub write_inode : Option ℕ → Bool → Inode → Fd → Bool × Fd
  write_inode stop seek i fd =
      let (ret, fd') = write_fd stop (encode_inode pad i) fd in
      if ret == sizeof_inode
      then (if seek
          then (true, lseek (default_block_size - sizeof_inode - sizeof_inode) fd')
          else (false, fd'))
      else (false, fd')

unfoldable pub write_dirent : Option ℕ → Bool → DirRecord → Fd → Bool × Fd
write_dirent stop seek r fd =
    let (ret, fd') = write_fd stop (encode_record r) fd in
    if ret == sizeof_dir_record
    then (if seek then (true, lseek (default_block_size - sizeof_dir_record) fd') else (false, fd'))
    else (false, fd')

unfoldable pub write_block : Option ℕ → List ℕ → Fd → Bool × Fd
write_block stop block fd = let (ret, fd') = write_fd stop block fd in (ret == length block, fd')

-- `if (f(fd)) break;`
abbrev pub then_do : Bool × Fd → (Fd → Bool × Fd) → Bool × Fd
then_do (true, fd) f = f fd
then_do (false, fd) f = (false, fd)

-- The loop body of `main`; `ret` is 0 where it comes to the end, and 1 where it breaks.
unfoldable pub format : ℕ → Calls → Device → Bool × Fd
format pad c dev = then_do (write_superblock c.super_stop (record { dev = dev; offset = 0 })) (λ fd.
    then_do (write_inode_store pad c.root_stop fd) (λ fd.
      then_do (write_inode pad c.inode_stop c.inode_seek welcome_inode fd) (λ fd.
        then_do (write_dirent c.dirent_stop c.dirent_seek welcome_record fd)
          (λ fd. write_block c.block_stop welcomefile_body fd))))

-- `ret` as it starts, and as the end of the loop sets it.
abbrev pub exit_code : Bool → Option ℕ
exit_code done = some (if done then 0 else 1)

-- `main`, with the value it returns, whose -1 is `none`.
unfoldable pub main : ℕ → Calls → Bool → Bool → Device → Option ℕ × Device
main pad c one_argument opened dev =
    if one_argument
    then (if opened then (let r = format pad c dev in (exit_code r.0, r.1.dev)) else (none, dev))
    else (none, dev)
