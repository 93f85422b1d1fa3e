-- ===== src/Fifo/Queue.antt =====
-- The device of globalfifo/globalfifo.c is a bounded queue of bytes: what each section returns, moves
-- and leaves is that of the queue.
pub mod Writes
pub mod Control
use simplefs.Base.{
  ltb, ◌*◌, take-append, length-drop, ℕ, ◌+◌, ◌-◌, ◌%◌, ◌^◌, ◌≤◌, ◌≡◌, ◌↔◌, ◌≢◌, refl, ap, sym, ◌∙◌,
  List, [], ◌++◌, Bool, true, false, Option, none, some, ◌==◌, if◌then◌else◌, length, length-take,
  length-append, length-replicate, length-overlay, take, take-take, take-min, take-overlay,
  take-overlay_start, drop, drop-take, overlay, replicate, min, arith, Bool-cases, inl, inr,
}
use simplefs.Fifo.Device.{
  copy_down, Dev, Ret, count, eagain, erestartsys, efault, einval, Section, globalfifo_init, room,
  user_bytes, read_copy, globalfifo_read, read_woken, leave, up, write_copy, globalfifo_write,
  write_woken, globalfifo_ioctl, globalfifo_poll, fifo_clear, down,
}

-- The bytes in the FIFO.
abbrev pub contents : Dev → List ℕ
contents d = take d.current_len d.mem

-- Between two sections.
pub record IsDev (d : Dev) : Type 0 where
  pub low : d.current_len ≤ 10
  pub full : length d.mem ≡ 10
  pub free : d.sem ≡ 1

-- What C says of `memcpy`: where the two areas do not overlap, the bytes are those of the source.
pub record IsMemcpy (memcpy : ℕ → ℕ → List ℕ → List ℕ) : Type 0 where
  pub copied :
      (src n : ℕ) (mem : List ℕ)
      → n ≤ src
      → src + n ≤ length mem
      → memcpy src n mem ≡ take n (drop src mem)

-- The queue's answer to a section: return value, bytes moved, the queue after it, and whether the
-- other side is woken.
abbrev pub Answer : Type 0
Answer = Option Ret × List ℕ × List ℕ × Bool

abbrev pub answer : Section → Answer
answer r = (r.ret, r.moved, contents r.dev, r.wakes)

-- Two answers are the same, or only leave the same number of bytes.
abbrev pub Agrees : Bool → Answer → Answer → Type 0
Agrees true x y = (x.0 ≡ y.0) × (x.1 ≡ y.1) × (length x.2 ≡ length y.2) × (x.3 ≡ y.3)
Agrees false x y = x ≡ y

same-Agrees : (b : Bool) (x y : Answer) → x ≡ y → Agrees b x y
same-Agrees true x y e = rw e (refl, refl, refl, refl)
same-Agrees false x y e = e

abbrev pub dequeue : Bool → ℕ → List ℕ → Answer
dequeue copied n q =
    let m = min n (length q) in
    if copied then (some (count m), take m q, drop m q, true) else (some efault, [], q, false)

abbrev pub enqueue : Option ℕ → List ℕ → List ℕ → Answer
enqueue none buf q =
    let fits = take (10 - length q) buf in (some (count (length fits)), fits, q ++ fits, true)
enqueue (some _) buf q = (some efault, [], q, false)

-- A section on an empty, or a full, queue waits or is refused.
abbrev pub wait : Bool → List ℕ → Answer
wait nonblock q = ((if nonblock then some eagain else none), [], q, false)

abbrev pub read_answer : Bool → Bool → ℕ → List ℕ → Answer
read_answer nonblock copied n q = if length q == 0 then wait nonblock q else dequeue copied n q

abbrev pub write_answer : Bool → Option ℕ → List ℕ → List ℕ → Answer
write_answer nonblock stops buf q = if length q == 10 then wait nonblock q else enqueue stops buf q

pub length-contents : (d : Dev) → IsDev d → length (contents d) ≡ d.current_len
length-contents d h = omega (arith, length-take d.current_len d.mem, h.low, h.full)

pub IsDev-up : (d : Dev) → IsDev d → IsDev (up (down d))
IsDev-up d h = record { low = h.low; full = h.full; free = omega (arith, h.free) }

pub waits :
    (nonblock : Bool) (d : Dev)
    → IsDev d
    → let r = if nonblock then leave (some eagain) (up (down d)) else leave none (up (down d)) in
      (answer r ≡ wait nonblock (contents d)) × IsDev r.dev
waits true d h = (refl, IsDev-up d h)
waits false d h = (refl, IsDev-up d h)

pub length-copy_down :
    (memcpy : ℕ → ℕ → List ℕ → List ℕ) (src n : ℕ) (mem : List ℕ)
    → n ≤ length mem
    → length (copy_down memcpy src n mem) ≡ length mem
length-copy_down memcpy src n mem fits =
    let bytes = memcpy src n mem ++ replicate n 0 in
    omega (
      arith,
      length-append (take n bytes) (drop n mem),
      length-take n bytes,
      length-append (memcpy src n mem) (replicate n 0),
      length-replicate {A = ℕ} n 0,
      length-drop n mem,
    )

take-own : (xs ys : List ℕ) (n : ℕ) → n ≡ length xs → take n (xs ++ ys) ≡ xs
take-own xs ys n e = ap (λ k. take k (xs ++ ys)) e ∙ take-append xs ys

module _ (memcpy : ℕ → ℕ → List ℕ → List ℕ) (law : IsMemcpy memcpy) (d : Dev) (h : IsDev d) where
  -- A read that takes at least half of the bytes moves the others down.
  pub moved_down :
      (m : ℕ)
      → m ≤ d.current_len
      → d.current_len ≤ 2 * m
      → take (d.current_len - m) (copy_down memcpy m (d.current_len - m) d.mem)
        ≡ drop m (contents d)
  moved_down m le half =
      let n = d.current_len - m in
      let given = law.copied m n d.mem (omega arith) (omega (arith, h.low, h.full)) in
      let size : n ≡ length (take n (drop m d.mem)) =
        omega (arith, length-take n (drop m d.mem), length-drop m d.mem, h.low, h.full) in
      ap (λ l. take n (take n (l ++ replicate n 0) ++ drop n d.mem)) given
      ∙ ap (λ l. take n (l ++ drop n d.mem))
          (take-own (take n (drop m d.mem)) (replicate n 0) n size)
      ∙ take-own (take n (drop m d.mem)) (drop n d.mem) n size
      ∙ sym (drop-take m d.current_len d.mem)

  read_copy-dequeue :
      (copied : Bool) (n : ℕ)
      → d.current_len ≤ 2 * n
      → answer (read_copy memcpy copied n (down d)) ≡ dequeue copied n (contents d)
  unfolding read_copy
  read_copy-dequeue false n half = refl
  read_copy-dequeue true n half =
      let m = min n d.current_len in
      let left = moved_down m (omega arith) (omega arith) in
      let given = take-take m d.current_len d.mem (omega arith) in
      rw (length-contents d h, left, given)

  -- Any read, whatever bytes `memcpy` leaves.
  read_copy-Agrees :
      (copied : Bool) (n : ℕ)
      → Agrees
          (ltb (2 * n) d.current_len)
          (answer (read_copy memcpy copied n (down d)))
          (dequeue copied n (contents d))
        × IsDev (read_copy memcpy copied n (down d)).dev
  unfolding read_copy
  read_copy-Agrees false n =
      (same-Agrees _ _ _ refl, record { low = h.low; full = h.full; free = omega (arith, h.free) })
  read_copy-Agrees true n =
      let m = min n d.current_len in
      let mem' = copy_down memcpy m (d.current_len - m) d.mem in
      let size : length mem' ≡ length d.mem =
        length-copy_down memcpy m (d.current_len - m) d.mem (omega (arith, h.low, h.full)) in
      let given = take-take m d.current_len d.mem (omega arith) in
      let left : length (take (d.current_len - m) mem') ≡ length (drop m (contents d)) = omega (
        arith,
        length-take (d.current_len - m) mem',
        length-drop m (contents d),
        length-contents d h,
        size,
        h.low,
        h.full,
      ) in
      (
        elim (Bool-cases (ltb (2 * n) d.current_len)) [
          | inr apart ↦ rw apart (read_copy-dequeue true n (ground arith))
          | inl over ↦ rw over (rw (length-contents d h) (refl, sym given, left, refl))
        ],
        record { low = omega (arith, h.low); full = size ∙ h.full; free = omega (arith, h.free) },
      )

  globalfifo_read-refines :
      (nonblock copied : Bool) (n : ℕ)
      → let r = globalfifo_read memcpy nonblock copied n d in
        Agrees (ltb (2 * n) d.current_len) (answer r) (read_answer nonblock copied n (contents d))
        × IsDev r.dev
  unfolding globalfifo_read
  globalfifo_read-refines nonblock copied n = elim (Bool-cases (d.current_len == 0)) [
    | inl empty ↦
        let (same, device) = waits nonblock d h in
        rw (length-contents d h, empty) (same-Agrees _ _ _ same, device)
    | inr some_bytes ↦
        let holds_some : (length (contents d) == 0) ≡ false =
          ap (λ m. m == 0) (length-contents d h) ∙ some_bytes in
        rw (some_bytes, holds_some) (read_copy-Agrees copied n)
  ]

  pub read_woken-refines :
      (signalled copied : Bool) (n : ℕ)
      → let r = read_woken memcpy signalled copied n d in
        Agrees (ltb (2 * n) d.current_len) (answer r) (
          if signalled
          then (some erestartsys, [], contents d, false)
          else dequeue copied n (contents d))
        × IsDev r.dev
  unfolding read_woken
  read_woken-refines true copied n = (same-Agrees _ _ _ refl, h)
  read_woken-refines false copied n = read_copy-Agrees copied n

  -- A read, up to its end or to its sleep and behind that, whatever its flags, whether a signal comes
  -- and whether the copy to the user succeeds: each section returns, moves and leaves what the bounded
  -- queue answers, and keeps the device well-formed; but where it asks for less than half of the
  -- bytes, so that the areas of `memcpy` overlap, it leaves as many bytes as the queue, and nothing is
  -- said of which. A woken read takes what the queue has, which is 0 bytes if it is empty again, and
  -- an interrupted one returns ERESTARTSYS.
  pub read-refines :
      (nonblock signalled copied : Bool) (n : ℕ)
      → let r = globalfifo_read memcpy nonblock copied n d in
        let w = read_woken memcpy signalled copied n d in
        let overlap = ltb (2 * n) d.current_len in
        (Agrees overlap (answer r) (read_answer nonblock copied n (contents d)) × IsDev r.dev)
        × (Agrees overlap (answer w) (
              if signalled
              then (some erestartsys, [], contents d, false)
              else dequeue copied n (contents d))
            × IsDev w.dev)
  read-refines nonblock signalled copied n =
      (globalfifo_read-refines nonblock copied n, read_woken-refines signalled copied n)

pub globalfifo_init-IsDev : IsDev globalfifo_init
unfolding globalfifo_init
globalfifo_init-IsDev = record { low = omega arith; full = refl; free = refl }
