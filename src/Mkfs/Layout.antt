-- ===== src/Mkfs/Layout.antt =====
-- The structures of simplefs/simple.h as bytes, little-endian and with the compiler's padding, and
-- the volume that the bytes of a device are.
use simplefs.Base.{le_bytes, le_value, ℕ, suc, zero, ◌+◌, ◌-◌, ◌*◌, List, [], ◌∷◌, ◌++◌, replicate}
use simplefs.Simple.Types.{
  SuperBlock, Inode, bytes, default_block_size, sizeof_inode, inodes_per_block,
}
use simplefs.Simple.State.{Volume}

-- A device: its byte at each offset.
abbrev pub Device : Type 0
Device = ℕ → ℕ

abbrev pub read_at : Device → ℕ → ℕ → List ℕ
read_at dev off zero = []
read_at dev off (suc n) = dev off ∷ read_at dev (suc off) n

-- `pad` is what the padding behind `mode` happens to hold.
unfoldable pub encode_inode : ℕ → Inode → List ℕ
encode_inode pad i =
    le_bytes 4 i.mode
    ++ (le_bytes 4 pad
        ++ (le_bytes 8 i.inode_no ++ (le_bytes 8 i.data_block_number ++ le_bytes 8 i.file_size)))

unfoldable pub decode_inode : Device → ℕ → Inode
decode_inode dev off = record {
  mode = le_value 4 (read_at dev off 4);
  inode_no = le_value 8 (read_at dev (off + 8) 8);
  data_block_number = le_value 8 (read_at dev (off + 16) 8);
  file_size = le_value 8 (read_at dev (off + 24) 8);
}

unfoldable pub encode_super : SuperBlock → List ℕ
encode_super sb =
    le_bytes 8 sb.version
    ++ (le_bytes 8 sb.magic
        ++ (le_bytes 8 sb.block_size
            ++ (le_bytes 8 sb.inodes_count
                ++ (le_bytes 8 sb.free_blocks ++ replicate (default_block_size - 40) 0))))

unfoldable pub decode_super : Device → SuperBlock
decode_super dev = record {
  version = le_value 8 (read_at dev 0 8);
  magic = le_value 8 (read_at dev 8 8);
  block_size = le_value 8 (read_at dev 16 8);
  inodes_count = le_value 8 (read_at dev 24 8);
  free_blocks = le_value 8 (read_at dev 32 8);
}

-- The inodes from offset `off` on.
unfoldable pub inodes_from : Device → ℕ → ℕ → List Inode
inodes_from dev off zero = []
inodes_from dev off (suc n) = decode_inode dev off ∷ inodes_from dev (off + sizeof_inode) n

-- Block 0, block 1, and the data blocks.
unfoldable pub volume_of : Device → Volume
volume_of dev = record {
  super = decode_super dev;
  store = inodes_from dev default_block_size inodes_per_block;
  data_block = λ n. bytes (read_at dev (default_block_size * n) default_block_size);
}
