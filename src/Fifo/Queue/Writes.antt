-- ===== src/Fifo/Queue/Writes.antt =====
-- The writes of globalfifo/globalfifo.c against the bounded queue.
use simplefs.Base.{
  ℕ, ◌+◌, ◌-◌, ◌%◌, ◌^◌, ◌≤◌, ◌≡◌, refl, ap, ◌∙◌, List, [], ◌++◌, Bool, true, false, Option, none,
  some, ◌==◌, if◌then◌else◌, length, length-take, length-append, length-replicate, length-overlay,
  take, take-min, take-overlay, take-overlay_start, overlay, replicate, min, arith, Bool-cases, inl,
  inr,
}
use simplefs.Fifo.Device.{
  Dev, count, erestartsys, efault, room, user_bytes, write_copy, globalfifo_write, write_woken,
  down,
}
use simplefs.Fifo.Queue.{contents, IsDev, answer, enqueue, write_answer, length-contents, waits}

module _ (d : Dev) (h : IsDev d) where
  room_left : room d ≡ 10 - d.current_len
  room_left = omega (arith, h.low)

  -- What fits of `buf`, as the code cuts it off.
  abbrev cut : List ℕ → List ℕ
  cut buf = take (min (length buf) (10 - d.current_len)) buf

  length-cut : (buf : List ℕ) → length (cut buf) + d.current_len ≤ 10
  length-cut buf = omega (arith, length-take (min (length buf) (10 - d.current_len)) buf, h.low)

  length-padded : (k : ℕ) (b : List ℕ) → length (user_bytes (some k) b) ≡ length b
  length-padded k b = omega (
    arith,
    length-append (take k b) (replicate (length b - k) 0),
    length-take k b,
    length-replicate {A = ℕ} (length b - k) 0,
  )

  overlaid_full :
      (b : List ℕ) → length b + d.current_len ≤ 10 → length (overlay d.mem d.current_len b) ≡ 10
  overlaid_full b le = length-overlay d.mem d.current_len b (omega (arith, le, h.full)) ∙ h.full

  write_copy-enqueue :
      (stops : Option ℕ) (buf : List ℕ)
      → (answer (write_copy stops buf (down d)) ≡ enqueue stops buf (contents d))
        × IsDev (write_copy stops buf (down d)).dev
  unfolding write_copy
  write_copy-enqueue none buf =
      let size = length-cut buf in
      let new_len : (d.current_len + length (cut buf)) % 2 ^ 32 ≡ d.current_len + length (cut buf) =
        omega (arith, size) in
      let appended =
        take-overlay d.mem d.current_len (d.current_len + length (cut buf)) (cut buf)
          (omega (arith, h.low, h.full)) refl in
      rw (room_left, new_len, length-contents d h)
        (
          ap (λ l. (some (count (length (cut buf))), cut buf, l, true)) appended
              ∙ ap (λ f. (some (count (length f)), f, contents d ++ f, true))
                  (take-min (10 - d.current_len) buf),
          record {
            low = omega (arith, size);
            full = overlaid_full (cut buf) size;
            free = omega (arith, h.free);
          },
        )
  write_copy-enqueue (some k) buf =
      let padded = user_bytes (some k) (cut buf) in
      let size : length padded + d.current_len ≤ 10 =
        omega (arith, length-padded k (cut buf), length-cut buf) in
      rw room_left (
        ap (λ q. (some efault, [], q, false))
            (take-overlay_start d.mem d.current_len padded (omega (arith, h.low, h.full))),
        record { low = h.low; full = overlaid_full padded size; free = omega (arith, h.free) },
      )

  -- What a write does up to its end or to its sleep, whatever its flags and wherever the copy from the
  -- user stops: it returns, moves and leaves what the bounded queue answers, and keeps the device
  -- well-formed. A copy that stops leaves the queue as it was.
  pub globalfifo_write-refines :
      (nonblock : Bool) (stops : Option ℕ) (buf : List ℕ)
      → let r = globalfifo_write nonblock stops buf d in
        (answer r ≡ write_answer nonblock stops buf (contents d)) × IsDev r.dev
  unfolding globalfifo_write
  globalfifo_write-refines nonblock stops buf = elim (Bool-cases (d.current_len == 10)) [
    | inl all ↦ rw (length-contents d h, all) (waits nonblock d h)
    | inr space ↦ rw (length-contents d h, space) (write_copy-enqueue stops buf)
  ]

  -- What a write does behind its sleep: an interrupted one returns ERESTARTSYS; any other puts in what
  -- fits, which is 0 bytes if the queue is full again.
  pub write_woken-refines :
      (signalled : Bool) (stops : Option ℕ) (buf : List ℕ)
      → let r = write_woken signalled stops buf d in
        (answer r ≡ (
          if signalled
          then (some erestartsys, [], contents d, false)
          else enqueue stops buf (contents d)))
        × IsDev r.dev
  unfolding write_woken
  write_woken-refines true stops buf = (refl, h)
  write_woken-refines false stops buf = write_copy-enqueue stops buf

  -- A write, up to its end or to its sleep and behind that, whatever its flags, whether a signal comes
  -- and wherever the copy from the user stops: each section returns, moves and leaves what the bounded
  -- queue answers, and keeps the device well-formed. A copy that stops leaves the queue as it was. A
  -- woken write puts in what fits, which is 0 bytes if the queue is full again, and an interrupted one
  -- returns ERESTARTSYS.
  pub write-refines :
      (nonblock signalled : Bool) (stops : Option ℕ) (buf : List ℕ)
      → let r = globalfifo_write nonblock stops buf d in
        let w = write_woken signalled stops buf d in
        ((answer r ≡ write_answer nonblock stops buf (contents d)) × IsDev r.dev)
        × ((answer w ≡ (
              if signalled
              then (some erestartsys, [], contents d, false)
              else enqueue stops buf (contents d)))
            × IsDev w.dev)
  write-refines nonblock signalled stops buf =
      (globalfifo_write-refines nonblock stops buf, write_woken-refines signalled stops buf)
