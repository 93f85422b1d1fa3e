-- ===== src/Fifo/Sleepers.antt =====
-- Which processes are still asleep after a wake-up on the device of globalfifo/globalfifo.c.
use simplefs.Base.{ℕ, ◌≡◌, ◌≢◌, refl, List, Bool, true, false, Option, none, some, if◌then◌else◌}
use simplefs.Fifo.Device.{Ret}
use simplefs.Fifo.System.{
  Call, read_call, write_call, Task, ready, asleep, woken, wake_reader, wake_writer, resting,
}

-- A reader that sleeps after the writers were woken slept before; none sleeps after the readers were.
wake_writer_leaves :
    (t : Task) (n : ℕ) → wake_writer t ≡ asleep (read_call n) → t ≡ asleep (read_call n)
wake_writer_leaves ready n e = cc
wake_writer_leaves (asleep (read_call m)) n e = e
wake_writer_leaves (asleep (write_call b)) n e = cc
wake_writer_leaves (woken c) n e = cc

wake_reader_wakes : (t : Task) (n : ℕ) → wake_reader t ≢ asleep (read_call n)
wake_reader_wakes ready n e = cc
wake_reader_wakes (asleep (read_call m)) n e = cc
wake_reader_wakes (asleep (write_call b)) n e = cc
wake_reader_wakes (woken c) n e = cc

pub reader_before :
    (wakes : Bool) (t : Task) (n : ℕ)
    → (if wakes then wake_writer t else t) ≡ asleep (read_call n)
    → t ≡ asleep (read_call n)
reader_before true t n e = wake_writer_leaves t n e
reader_before false t n e = e

pub reader_unwoken :
    (wakes : Bool) (t : Task) (n : ℕ)
    → (if wakes then wake_reader t else t) ≡ asleep (read_call n)
    → (wakes ≡ false) × (t ≡ asleep (read_call n))
reader_unwoken true t n e = absurd (wake_reader_wakes t n e)
reader_unwoken false t n e = (refl, e)

-- Only a section without a result leaves its process asleep.
pub resting-none : (c d : Call) (r : Option Ret) → resting c r ≡ asleep d → (r ≡ none) × (c ≡ d)
resting-none c d none e = (refl, cc)
resting-none c d (some r) e = cc

-- A writer that sleeps after the readers were woken slept before; none sleeps after the writers were.
wake_reader_leaves :
    (t : Task) (b : List ℕ) → wake_reader t ≡ asleep (write_call b) → t ≡ asleep (write_call b)
wake_reader_leaves ready b e = cc
wake_reader_leaves (asleep (read_call m)) b e = cc
wake_reader_leaves (asleep (write_call c)) b e = e
wake_reader_leaves (woken c) b e = cc

wake_writer_wakes : (t : Task) (b : List ℕ) → wake_writer t ≢ asleep (write_call b)
wake_writer_wakes ready b e = cc
wake_writer_wakes (asleep (read_call m)) b e = cc
wake_writer_wakes (asleep (write_call c)) b e = cc
wake_writer_wakes (woken c) b e = cc

pub writer_before :
    (wakes : Bool) (t : Task) (b : List ℕ)
    → (if wakes then wake_reader t else t) ≡ asleep (write_call b)
    → t ≡ asleep (write_call b)
writer_before true t b e = wake_reader_leaves t b e
writer_before false t b e = e

pub writer_unwoken :
    (wakes : Bool) (t : Task) (b : List ℕ)
    → (if wakes then wake_writer t else t) ≡ asleep (write_call b)
    → (wakes ≡ false) × (t ≡ asleep (write_call b))
writer_unwoken true t b e = absurd (wake_writer_wakes t b e)
writer_unwoken false t b e = (refl, e)
