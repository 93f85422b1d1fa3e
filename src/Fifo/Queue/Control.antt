-- ===== src/Fifo/Queue/Control.antt =====
-- The ioctl and the poll of globalfifo/globalfifo.c against the bounded queue.
use simplefs.Base.{
  ℕ, ◌≡◌, ◌↔◌, ◌≢◌, refl, List, [], Bool, true, false, Option, none, some, ◌==◌, if◌then◌else◌,
  arith, Bool-cases, inl, inr,
}
use simplefs.Fifo.Device.{
  Dev, count, eagain, einval, read_copy, globalfifo_read, write_copy, globalfifo_write,
  globalfifo_ioctl, globalfifo_poll, fifo_clear, down,
}
use simplefs.Fifo.Queue.{contents, IsDev, IsDev-up}

module _ (d : Dev) (h : IsDev d) where
  -- FIFO_CLEAR empties the queue and returns 0, any other command is refused and changes nothing; the
  -- device stays well-formed.
  pub globalfifo_ioctl-refines :
      (cmd : ℕ)
      → let r = globalfifo_ioctl cmd d in
        (r.0 ≡ (if cmd == fifo_clear then count 0 else einval))
        × (contents r.1 ≡ (if cmd == fifo_clear then [] else contents d))
        × IsDev r.1
  unfolding globalfifo_ioctl
  globalfifo_ioctl-refines cmd = elim (Bool-cases (cmd == fifo_clear)) [
    | inl clear ↦
        rw clear
          (refl, refl, record { low = omega arith; full = refl; free = omega (arith, h.free) })
    | inr other ↦ rw other (refl, refl, h)
  ]

  read_copy_answers :
      (memcpy : ℕ → ℕ → List ℕ → List ℕ) (copied : Bool) (n : ℕ) (d' : Dev)
      → (read_copy memcpy copied n d').ret ≢ some eagain
  unfolding read_copy
  read_copy_answers memcpy true n d' e = cc
  read_copy_answers memcpy false n d' e = cc

  write_copy_answers :
      (stops : Option ℕ) (buf : List ℕ) (d' : Dev) → (write_copy stops buf d').ret ≢ some eagain
  unfolding write_copy
  write_copy_answers none buf d' e = cc
  write_copy_answers (some k) buf d' e = cc

  poll_reads :
      (memcpy : ℕ → ℕ → List ℕ → List ℕ) (copied : Bool) (n : ℕ)
      → ((globalfifo_poll d).0 ≡ false)
        ↔ ((globalfifo_read memcpy true copied n d).ret ≡ some eagain)
  unfolding globalfifo_poll globalfifo_read
  poll_reads memcpy copied n = elim (Bool-cases (d.current_len == 0)) [
    | inl empty ↦ rw empty (λ _. refl, λ _. refl)
    | inr some_bytes ↦
        rw some_bytes (λ e. cc, λ e. absurd (read_copy_answers memcpy copied n (down d) e))
  ]

  poll_writes :
      (stops : Option ℕ) (buf : List ℕ)
      → ((globalfifo_poll d).1 ≡ false) ↔ ((globalfifo_write true stops buf d).ret ≡ some eagain)
  unfolding globalfifo_poll globalfifo_write
  poll_writes stops buf = elim (Bool-cases (d.current_len == 10)) [
    | inl all ↦ rw all (λ _. refl, λ _. refl)
    | inr space ↦ rw space (λ e. cc, λ e. absurd (write_copy_answers stops buf (down d) e))
  ]

  -- The mask of `globalfifo_poll` says what a non-blocking call would do: the read bits are set where a
  -- read does not give EAGAIN, the write bits where a write does not, whatever the user's copy does.
  pub globalfifo_poll-agrees :
      (memcpy : ℕ → ℕ → List ℕ → List ℕ) (copied : Bool) (stops : Option ℕ) (n : ℕ) (buf : List ℕ)
      → let mask = globalfifo_poll d in
        ((mask.0 ≡ false) ↔ ((globalfifo_read memcpy true copied n d).ret ≡ some eagain))
        × ((mask.1 ≡ false) ↔ ((globalfifo_write true stops buf d).ret ≡ some eagain))
        × IsDev mask.2
  unfolding globalfifo_poll
  globalfifo_poll-agrees memcpy copied stops n buf =
      (poll_reads memcpy copied n, poll_writes stops buf, IsDev-up d h)
