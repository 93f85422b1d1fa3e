-- ===== src/Fifo/Answers.antt =====
-- What the bounded queue's answers to the reads and writes of globalfifo/globalfifo.c have in common.
use simplefs.Base.{
  ℕ, ◌≡◌, ◌⊎◌, refl, sym, List, [], ◌++◌, append-nil, Bool, true, false, Option, none, some, ◌==◌,
  if◌then◌else◌, length, arith, Bool-cases, inl, inr,
}
use simplefs.Fifo.Device.{Ret, erestartsys}
use simplefs.Fifo.Queue.{Answer, enqueue, write_answer}

-- What the queue's answers have in common.
pub record IsWriteAnswer (q : List ℕ) (x : Answer) : Type 0 where
  pub appended : x.2 ≡ q ++ x.1
  pub told : (x.3 ≡ true) ⊎ (x.1 ≡ [])
  pub waits : x.0 ≡ none → length q ≡ 10

still-IsWriteAnswer :
    (q : List ℕ) (r : Option Ret) → (r ≡ none → length q ≡ 10) → IsWriteAnswer q (r, [], q, false)
still-IsWriteAnswer q r waits = record {
  appended = sym (append-nil q);
  told = inr refl;
  waits = waits;
}

enqueue-IsWriteAnswer : (stops : Option ℕ) (buf q : List ℕ) → IsWriteAnswer q (enqueue stops buf q)
enqueue-IsWriteAnswer none buf q = record { appended = refl; told = inl refl; waits = λ e. cc }
enqueue-IsWriteAnswer (some k) buf q = still-IsWriteAnswer q _ (λ e. cc)

pub write-IsWriteAnswer :
    (nonblock : Bool) (stops : Option ℕ) (buf q : List ℕ)
    → IsWriteAnswer q (write_answer nonblock stops buf q)
write-IsWriteAnswer nonblock stops buf q = elim (Bool-cases (length q == 10)) [
  | inl all ↦ rw all (still-IsWriteAnswer q _ (λ e. ground arith))
  | inr space ↦ rw space (enqueue-IsWriteAnswer stops buf q)
]

pub woken-IsWriteAnswer :
    (signalled : Bool) (stops : Option ℕ) (buf q : List ℕ)
    → IsWriteAnswer q (if signalled then (some erestartsys, [], q, false) else enqueue stops buf q)
woken-IsWriteAnswer true stops buf q = still-IsWriteAnswer q _ (λ e. cc)
woken-IsWriteAnswer false stops buf q = enqueue-IsWriteAnswer stops buf q
