-- ===== src/Mkfs/Outcome.antt =====
-- What the `main` of simplefs/mkfs-simplefs.c returns, whatever the system answers to it.
use simplefs.Base.{
  ℕ, ◌≡◌, refl, ap, ◌∙◌, List, Bool, true, false, ◌&&◌, Option, none, some, ◌==◌, leb,
  if◌then◌else◌, length, length-take, arith,
}
use simplefs.Simple.Types.{encode_record}
use simplefs.Mkfs.Layout.{Device, encode_inode, encode_super}
use simplefs.Mkfs.Format.{
  Calls, Fd, write_fd, new_super, root_inode, welcome_inode, welcome_record, welcomefile_body,
  write_superblock, write_inode_store, write_inode, write_dirent, write_block, then_do, exit_code,
  format, main,
}

-- Whether a write of `n` bytes writes them all.
abbrev pub complete : Option ℕ → ℕ → Bool
complete none n = true
complete (some k) n = leb n k

write_fd-complete :
    (stop : Option ℕ) (bs : List ℕ) (fd : Fd) (n : ℕ)
    → length bs ≡ n
    → ((write_fd stop bs fd).0 == n) ≡ complete stop n
unfolding write_fd
write_fd-complete none bs fd n h = ground arith
write_fd-complete (some k) bs fd n h = ground (arith, length-take k bs)

then_do-first : (r : Bool × Fd) (f : Fd → Bool × Fd) → (then_do r f).0 ≡ (r.0 && (f r.1).0)
then_do-first (true, fd) f = refl
then_do-first (false, fd) f = refl

-- A write and then a seek.
seek_after :
    (written_all seek : Bool) (far near : Fd)
    → let r : Bool × Fd =
        if written_all then (if seek then (true, far) else (false, near)) else (false, near) in
      r.0 ≡ (written_all && seek)
seek_after true true far near = refl
seek_after true false far near = refl
seek_after false seek far near = refl

write_superblock-complete :
    (stop : Option ℕ) (fd : Fd) → (write_superblock stop fd).0 ≡ complete stop 4096
unfolding write_superblock encode_super
write_superblock-complete stop fd = write_fd-complete stop (encode_super new_super) fd 4096 refl

write_inode_store-complete :
    (pad : ℕ) (stop : Option ℕ) (fd : Fd) → (write_inode_store pad stop fd).0 ≡ complete stop 32
unfolding write_inode_store encode_inode
write_inode_store-complete pad stop fd =
    write_fd-complete stop (encode_inode pad root_inode) fd 32 refl

write_inode-complete :
    (pad : ℕ) (stop : Option ℕ) (seek : Bool) (fd : Fd)
    → (write_inode pad stop seek welcome_inode fd).0 ≡ (complete stop 32 && seek)
unfolding write_inode encode_inode
write_inode-complete pad stop seek fd =
    seek_after _ seek _ _
    ∙ ap (λ b. b && seek) (write_fd-complete stop (encode_inode pad welcome_inode) fd 32 refl)

write_dirent-complete :
    (stop : Option ℕ) (seek : Bool) (fd : Fd)
    → (write_dirent stop seek welcome_record fd).0 ≡ (complete stop 264 && seek)
unfolding write_dirent
write_dirent-complete stop seek fd =
    seek_after _ seek _ _
    ∙ ap (λ b. b && seek) (write_fd-complete stop (encode_record welcome_record) fd 264 refl)

write_block-complete :
    (stop : Option ℕ) (fd : Fd) → (write_block stop welcomefile_body fd).0 ≡ complete stop 41
unfolding write_block
write_block-complete stop fd = write_fd-complete stop welcomefile_body fd 41 refl

-- `main` on an open device returns 0 if all five writes write all of their bytes and both seeks
-- succeed, and 1 in every other case.
pub main-exit_code :
    (pad : ℕ) (c : Calls) (dev : Device)
    → (main pad c true true dev).0
      ≡ exit_code (
          complete c.super_stop 4096
          && (complete c.root_stop 32
              && ((complete c.inode_stop 32 && c.inode_seek)
                  && ((complete c.dirent_stop 264 && c.dirent_seek) && complete c.block_stop 41))))
unfolding main format
main-exit_code pad c dev = rw (
  then_do-first, write_superblock-complete, then_do-first, write_inode_store-complete,
  then_do-first, write_inode-complete, then_do-first, write_dirent-complete, write_block-complete,
)
