-- ===== src/Fifo/Device.antt =====
-- The file operations of globalfifo/globalfifo.c, each as the sections that hold its semaphore:
-- a read or a write is one section, or two with the sleep in `schedule` between them.
use simplefs.Base.{
  drop, ℕ, ◌+◌, ◌-◌, ◌%◌, ◌^◌, List, [], ◌++◌, Bool, Option, none, some, ◌==◌, not, if◌then◌else◌,
  length, take, overlay, replicate, min,
}

abbrev pub globalfifo_size : ℕ
globalfifo_size = 10

abbrev pub fifo_clear : ℕ
fifo_clear = 1

-- `struct globalfifo_dev` without the kernel's device number and the wait queues, which are the
-- processes that sleep. `sem` is the semaphore's count.
pub record Dev : Type 0 where
  pub current_len : ℕ
  pub mem : List ℕ
  pub sem : ℕ

-- What a call returns: a count, or the negative error number.
pub data Ret : Type 0 where
  count : ℕ → Ret
  eagain erestartsys efault einval : Ret

-- The device of `globalfifo_init`: zeros, and a semaphore of 1.
unfoldable pub globalfifo_init : Dev
globalfifo_init = record { current_len = 0; mem = replicate globalfifo_size 0; sem = 1 }

abbrev pub down : Dev → Dev
down d = record d { sem = d.sem - 1 }

abbrev pub up : Dev → Dev
up d = record d { sem = d.sem + 1 }

-- What a section does: the return value (`none` if the process goes to sleep), the bytes that the
-- user got or gave, the device, and whether the section wakes the other side's queue.
pub record Section : Type 0 where
  pub ret : Option Ret
  pub moved : List ℕ
  pub dev : Dev
  pub wakes : Bool

-- A section that moves nothing.
abbrev pub leave : Option Ret → Dev → Section
leave r d = record { ret = r; moved = []; dev = d; wakes = Bool.false }

-- `memcpy(mem, mem + src, n)`, where `memcpy src n mem` are the bytes that it puts at the start: C
-- leaves it open which where the two areas overlap.
abbrev pub copy_down : (ℕ → ℕ → List ℕ → List ℕ) → ℕ → ℕ → List ℕ → List ℕ
copy_down memcpy src n mem = take n (memcpy src n mem ++ replicate n 0) ++ drop n mem

module _ (memcpy : ℕ → ℕ → List ℕ → List ℕ) where
  -- From the test of `count` on; `copied` says whether `copy_to_user` succeeds.
  unfoldable pub read_copy : Bool → ℕ → Dev → Section
  read_copy copied n d =
      let n' = min n d.current_len in
      if copied
      then record {
        ret = some (count n');
        moved = take n' d.mem;
        dev = up (record d {
          mem = copy_down memcpy n' (d.current_len - n') d.mem;
          current_len = d.current_len - n';
        });
        wakes = Bool.true;
      }
      else leave (some efault) (up d)

  -- Up to the end, or to `schedule`.
  unfoldable pub globalfifo_read : Bool → Bool → ℕ → Dev → Section
  globalfifo_read nonblock copied n d =
      if d.current_len == 0
      then (if nonblock then leave (some eagain) (up (down d)) else leave none (up (down d)))
      else read_copy copied n (down d)

  -- Behind `schedule`: the length is not tested again.
  unfoldable pub read_woken : Bool → Bool → ℕ → Dev → Section
  read_woken signalled copied n d =
      if signalled then leave (some erestartsys) d else read_copy copied n (down d)

-- `GLOBALFIFO_SIZE - dev->current_len`, an `unsigned int`.
abbrev pub room : Dev → ℕ
room d = (globalfifo_size + 2 ^ 32 - d.current_len) % 2 ^ 32

-- `copy_from_user` stops after `stops` bytes and pads with zeros, or copies all.
abbrev pub user_bytes : Option ℕ → List ℕ → List ℕ
user_bytes none buf = buf
user_bytes (some k) buf = take k buf ++ replicate (length buf - k) 0

unfoldable pub write_copy : Option ℕ → List ℕ → Dev → Section
write_copy stops buf d =
    let buf' = take (min (length buf) (room d)) buf in
    let mem' = overlay d.mem d.current_len (user_bytes stops buf') in
    elim stops [
      | none ↦ record {
        ret = some (count (length buf'));
        moved = buf';
        dev = up (record d { mem = mem'; current_len = (d.current_len + length buf') % 2 ^ 32 });
        wakes = Bool.true;
      }
      | some _ ↦ leave (some efault) (up (record d { mem = mem' }))
    ]

unfoldable pub globalfifo_write : Bool → Option ℕ → List ℕ → Dev → Section
globalfifo_write nonblock stops buf d =
    if d.current_len == globalfifo_size
    then (if nonblock then leave (some eagain) (up (down d)) else leave none (up (down d)))
    else write_copy stops buf (down d)

unfoldable pub write_woken : Bool → Option ℕ → List ℕ → Dev → Section
write_woken signalled stops buf d =
    if signalled then leave (some erestartsys) d else write_copy stops buf (down d)

-- FIFO_CLEAR wakes nobody.
unfoldable pub globalfifo_ioctl : ℕ → Dev → Ret × Dev
globalfifo_ioctl cmd d =
    if cmd == fifo_clear
    then (count 0, up (record (down d) { current_len = 0; mem = replicate globalfifo_size 0 }))
    else (einval, d)

-- The two parts of the mask: POLLIN | POLLRDNORM, and POLLOUT | POLLWRNORM.
unfoldable pub globalfifo_poll : Dev → Bool × Bool × Dev
globalfifo_poll d = (not (d.current_len == 0), not (d.current_len == globalfifo_size), up (down d))
