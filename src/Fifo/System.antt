-- ===== src/Fifo/System.antt =====
-- Processes that call the device of globalfifo/globalfifo.c, interleaved in any order. The semaphore
-- makes each section one step; a process sleeps between the two sections of its call.
use simplefs.Base.{
  false, ◌||◌, ℕ, ◌≡◌, List, [], ◌++◌, Bool, Option, none, some, ◌==◌, if◌then◌else◌, update,
}
use simplefs.Fifo.Reads.{overlaps}
use simplefs.Fifo.Device.{
  Dev, Ret, Section, globalfifo_init, globalfifo_read, read_woken, globalfifo_write, write_woken,
  globalfifo_ioctl, fifo_clear,
}

pub data Call : Type 0 where
  read_call : ℕ → Call
  write_call : List ℕ → Call

-- A process outside the device, in `schedule` and on its wait queue, or woken there.
pub data Task : Type 0 where
  ready : Task
  asleep woken : Call → Task

-- `sent` and `received` are what the writes took and the reads gave since the last FIFO_CLEAR, and
-- `overlapped` says whether a read has since then moved bytes between areas that overlap.
pub record System : Type 0 where
  pub dev : Dev
  pub tasks : ℕ → Task
  pub sent : List ℕ
  pub received : List ℕ
  pub overlapped : Bool

-- `wake_up_interruptible` of `r_wait`, and of `w_wait`.
abbrev pub wake_reader : Task → Task
wake_reader ready = ready
wake_reader (asleep (read_call n)) = woken (read_call n)
wake_reader (asleep (write_call b)) = asleep (write_call b)
wake_reader (woken c) = woken c

abbrev pub wake_writer : Task → Task
wake_writer ready = ready
wake_writer (asleep (read_call n)) = asleep (read_call n)
wake_writer (asleep (write_call b)) = woken (write_call b)
wake_writer (woken c) = woken c

abbrev pub resting : Call → Option Ret → Task
resting c none = asleep c
resting c (some r) = ready

unfoldable pub after_read : ℕ → ℕ → Section → System → System
after_read p n r s = record {
  dev = r.dev;
  tasks =
      update (λ q. if r.wakes then wake_writer (s.tasks q) else s.tasks q) p
        (resting (read_call n) r.ret);
  sent = s.sent;
  received = s.received ++ r.moved;
  overlapped = s.overlapped || overlaps r;
}

unfoldable pub after_write : ℕ → List ℕ → Section → System → System
after_write p buf r s = record {
  dev = r.dev;
  tasks =
      update (λ q. if r.wakes then wake_reader (s.tasks q) else s.tasks q) p
        (resting (write_call buf) r.ret);
  sent = s.sent ++ r.moved;
  received = s.received;
  overlapped = s.overlapped;
}

unfoldable pub after_ioctl : ℕ → System → System
after_ioctl cmd s = record {
  dev = (globalfifo_ioctl cmd s.dev).1;
  tasks = s.tasks;
  sent = if cmd == fifo_clear then [] else s.sent;
  received = if cmd == fifo_clear then [] else s.received;
  overlapped = if cmd == fifo_clear then false else s.overlapped;
}

-- A process may also be woken by a signal.
pub data Step (memcpy : ℕ → ℕ → List ℕ → List ℕ) (s : System) : System → Type 0 where
  reads :
      (p n : ℕ) (nonblock copied : Bool)
      → s.tasks p ≡ ready
      → Step memcpy s (after_read p n (globalfifo_read memcpy nonblock copied n s.dev) s)
  read_goes_on :
      (p n : ℕ) (signalled copied : Bool)
      → s.tasks p ≡ woken (read_call n)
      → Step memcpy s (after_read p n (read_woken memcpy signalled copied n s.dev) s)
  writes :
      (p : ℕ) (buf : List ℕ) (nonblock : Bool) (stops : Option ℕ)
      → s.tasks p ≡ ready
      → Step memcpy s (after_write p buf (globalfifo_write nonblock stops buf s.dev) s)
  write_goes_on :
      (p : ℕ) (buf : List ℕ) (signalled : Bool) (stops : Option ℕ)
      → s.tasks p ≡ woken (write_call buf)
      → Step memcpy s (after_write p buf (write_woken signalled stops buf s.dev) s)
  controls : (p cmd : ℕ) → s.tasks p ≡ ready → Step memcpy s (after_ioctl cmd s)
  signals :
      (p : ℕ) (c : Call)
      → s.tasks p ≡ asleep c
      → Step memcpy s (record s { tasks = update s.tasks p (woken c) })

abbrev pub started : System
started = record {
  dev = globalfifo_init;
  tasks = λ p. ready;
  sent = [];
  received = [];
  overlapped = false;
}

pub data Reach (memcpy : ℕ → ℕ → List ℕ → List ℕ) : System → Type 0 where
  start : Reach memcpy started
  later : {s t : System} → Reach memcpy s → Step memcpy s t → Reach memcpy t
