-- ===== src/Fifo/Waiting.antt =====
-- What holds between any two steps of the processes that share the device of globalfifo/globalfifo.c.
use simplefs.Base.{ℕ, ◌≡◌, ◌≢◌, refl, List, [], ◌++◌, Bool, false, ==_refl, ==_false}
use simplefs.Fifo.Device.{globalfifo_read, globalfifo_ioctl, fifo_clear}
use simplefs.Fifo.Queue.{contents, IsDev}
use simplefs.Fifo.System.{read_call, write_call, asleep, System, after_read, after_ioctl}

-- The device is well-formed, the bytes received and those in the FIFO are the bytes sent, in this
-- order, as long as no `memcpy` had areas that overlap, and a reader sleeps only while the FIFO is
-- empty.
pub record IsRunning (s : System) : Type 0 where
  pub device : IsDev s.dev
  pub order : s.overlapped ≡ false → s.received ++ contents s.dev ≡ s.sent
  pub readers : (p n : ℕ) → s.tasks p ≡ asleep (read_call n) → s.dev.current_len ≡ 0

-- FIFO_CLEAR does not wake the writers: one that sleeps stays asleep on the empty FIFO, and so does,
-- with it, a process that then reads and may wait.
pub clear_leaves_writer :
    (memcpy : ℕ → ℕ → List ℕ → List ℕ) (s : System) (p q n : ℕ) (buf : List ℕ) (copied : Bool)
    → s.tasks p ≡ asleep (write_call buf)
    → q ≢ p
    → let t = after_ioctl fifo_clear s in
      let u = after_read q n (globalfifo_read memcpy false copied n t.dev) t in
      (contents u.dev ≡ [])
      × (u.tasks p ≡ asleep (write_call buf))
      × (u.tasks q ≡ asleep (read_call n))
unfolding after_ioctl globalfifo_ioctl after_read globalfifo_read
clear_leaves_writer memcpy s p q n buf copied sleeps apart =
    (refl, rw (==_false q p apart) sleeps, rw (==_refl q))
