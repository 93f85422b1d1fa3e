-- ===== src/Fifo/Reads.antt =====
-- What the reads of globalfifo/globalfifo.c have in common, whatever `memcpy` does with areas that
-- overlap, and what they leave where it has none.
use simplefs.Base.{
  ℕ, ◌-◌, ◌*◌, ◌≤◌, ◌≡◌, ◌⊎◌, refl, ap, sym, ◌∙◌, List, ◌++◌, Bool, true, false, none, some, ltb,
  ◌==◌, ◌&&◌, if◌then◌else◌, length, length-take, take, take-take, take-append-drop, drop, min,
  arith, Bool-cases, inl, inr,
}
use simplefs.Fifo.Device.{
  Dev, Section, read_copy, globalfifo_read, read_woken, down, up, leave, eagain,
}
use simplefs.Fifo.Queue.{contents, IsDev, IsDev-up, IsMemcpy, length-copy_down, moved_down}

-- The areas of the section's `memcpy` overlap: fewer bytes are taken than are left.
abbrev pub overlaps : Section → Bool
overlaps r = r.wakes && ltb (length r.moved) r.dev.current_len

pub record IsReadSection (d : Dev) (r : Section) : Type 0 where
  pub device : IsDev r.dev
  pub shrinks : r.dev.current_len ≤ d.current_len
  pub waits : r.ret ≡ none → d.current_len ≡ 0
  pub told : (r.wakes ≡ true) ⊎ (r.dev.current_len ≡ d.current_len)

module _ (memcpy : ℕ → ℕ → List ℕ → List ℕ) (d : Dev) (h : IsDev d) where
  read_copy-IsReadSection :
      (copied : Bool) (n : ℕ) → IsReadSection d (read_copy memcpy copied n (down d))
  unfolding read_copy
  read_copy-IsReadSection false n = record {
    device = IsDev-up d h;
    shrinks = omega arith;
    waits = λ e. cc;
    told = inr refl;
  }
  read_copy-IsReadSection true n =
      let m = min n d.current_len in
      record {
        device = record {
          low = omega (arith, h.low);
          full =
              length-copy_down memcpy m (d.current_len - m) d.mem (omega (arith, h.low, h.full))
              ∙ h.full;
          free = omega (arith, h.free);
        };
        shrinks = omega arith;
        waits = λ e. cc;
        told = inl refl;
      }

  pub read-IsReadSection :
      (nonblock copied : Bool) (n : ℕ)
      → IsReadSection d (globalfifo_read memcpy nonblock copied n d)
  unfolding globalfifo_read
  read-IsReadSection nonblock copied n = elim (Bool-cases (d.current_len == 0)) [
    | inl empty ↦ rw empty (still nonblock (ground arith))
    | inr some_bytes ↦ rw some_bytes (read_copy-IsReadSection copied n)
  ]
    where
      still :
          (b : Bool)
          → d.current_len ≡ 0
          → IsReadSection d
              (if b then leave (some eagain) (up (down d)) else leave none (up (down d)))
      still true empty = record {
        device = IsDev-up d h;
        shrinks = omega arith;
        waits = λ e. empty;
        told = inr refl;
      }
      still false empty = record {
        device = IsDev-up d h;
        shrinks = omega arith;
        waits = λ e. empty;
        told = inr refl;
      }

  pub woken-IsReadSection :
      (signalled copied : Bool) (n : ℕ) → IsReadSection d (read_woken memcpy signalled copied n d)
  unfolding read_woken
  woken-IsReadSection true copied n = record {
    device = h;
    shrinks = omega arith;
    waits = λ e. cc;
    told = inr refl;
  }
  woken-IsReadSection false copied n = read_copy-IsReadSection copied n

module _ (memcpy : ℕ → ℕ → List ℕ → List ℕ) (law : IsMemcpy memcpy) (d : Dev) (h : IsDev d) where
  -- What was there is what the section gave and what it left.
  read_copy-conserves :
      (copied : Bool) (n : ℕ)
      → let r = read_copy memcpy copied n (down d) in
        overlaps r ≡ false → r.moved ++ contents r.dev ≡ contents d
  unfolding read_copy
  read_copy-conserves false n apart = refl
  read_copy-conserves true n apart =
      let m = min n d.current_len in
      let taken : length (take m d.mem) ≡ m = omega (arith, length-take m d.mem, h.low, h.full) in
      let half : d.current_len ≤ 2 * m = ground (arith, apart, taken) in
      ap (λ l. take m d.mem ++ l) (moved_down memcpy law d h m (omega arith) half)
      ∙ ap (λ l. l ++ drop m (contents d)) (sym (take-take m d.current_len d.mem (omega arith)))
      ∙ take-append-drop m (contents d)

  pub read-conserves :
      (nonblock copied : Bool) (n : ℕ)
      → let r = globalfifo_read memcpy nonblock copied n d in
        overlaps r ≡ false → r.moved ++ contents r.dev ≡ contents d
  unfolding globalfifo_read
  read-conserves nonblock copied n = elim (Bool-cases (d.current_len == 0)) [
    | inl empty ↦ rw empty (still nonblock)
    | inr some_bytes ↦ rw some_bytes (read_copy-conserves copied n)
  ]
    where
      still :
          (b : Bool)
          → let r = if b then leave (some eagain) (up (down d)) else leave none (up (down d)) in
            overlaps r ≡ false → r.moved ++ contents r.dev ≡ contents d
      still true apart = refl
      still false apart = refl

  pub woken-conserves :
      (signalled copied : Bool) (n : ℕ)
      → let r = read_woken memcpy signalled copied n d in
        overlaps r ≡ false → r.moved ++ contents r.dev ≡ contents d
  unfolding read_woken
  woken-conserves true copied n apart = refl
  woken-conserves false copied n apart = read_copy-conserves copied n apart
