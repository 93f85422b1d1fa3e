-- ===== src/Fifo/Writers.antt =====
-- The writers that sleep on the device of globalfifo/globalfifo.c, as long as nobody clears it.
use simplefs.Base.{
  ℕ, update, ◌≡◌, ◌≢◌, ap, sym, ◌∙◌, List, none, ◌==◌, ==_false, length, length-append, arith,
  Bool-cases, inl, inr,
}
use simplefs.Fifo.Device.{Section, globalfifo_ioctl, fifo_clear}
use simplefs.Fifo.Queue.{contents, IsDev, Answer, answer, length-contents, globalfifo_init-IsDev}
use simplefs.Fifo.Queue.Writes.{globalfifo_write-refines, write_woken-refines}
use simplefs.Fifo.Answers.{IsWriteAnswer, write-IsWriteAnswer, woken-IsWriteAnswer}
use simplefs.Fifo.Reads.{IsReadSection, read-IsReadSection, woken-IsReadSection}
use simplefs.Fifo.Queue.Control.{globalfifo_ioctl-refines}
use simplefs.Fifo.Sleepers.{writer_before, writer_unwoken, resting-none}
use simplefs.Fifo.System.{
  Call, read_call, write_call, asleep, woken, System, after_read, after_write, after_ioctl, Step,
  reads, read_goes_on, writes, write_goes_on, controls, signals, started,
}

-- A step that does not clear the device.
abbrev pub KeepsBytes : {memcpy : ℕ → ℕ → List ℕ → List ℕ} {s t : System} → Step memcpy s t → Type 0
KeepsBytes (reads p n nonblock copied own) = Unit
KeepsBytes (read_goes_on p n signalled copied own) = Unit
KeepsBytes (writes p buf nonblock stops own) = Unit
KeepsBytes (write_goes_on p buf signalled stops own) = Unit
KeepsBytes (controls p cmd own) = cmd ≢ fifo_clear
KeepsBytes (signals p c own) = Unit

pub data Uncleared (memcpy : ℕ → ℕ → List ℕ → List ℕ) : System → Type 0 where
  fresh : Uncleared memcpy started
  goes_on :
      {s t : System} (before : Uncleared memcpy s) (step : Step memcpy s t)
      → KeepsBytes step
      → Uncleared memcpy t

abbrev WritersWait : System → Type 0
WritersWait s =
    (p : ℕ) (buf : List ℕ) → s.tasks p ≡ asleep (write_call buf) → s.dev.current_len ≡ 10

module _ (s : System) (device : IsDev s.dev) (wait : WritersWait s) where
  after_read-WritersWait :
      (p n : ℕ) (r : Section) → IsReadSection s.dev r → WritersWait (after_read p n r s)
  unfolding after_read
  after_read-WritersWait p n r fine q b e = elim (Bool-cases (p == q)) [
    | inl own ↦
        let (_, differ) = resting-none (read_call n) (write_call b) r.ret (rw own at e) in cc
    | inr other ↦
        let (unwoken, slept) = writer_unwoken r.wakes (s.tasks q) b (rw other at e) in
        elim fine.told [ inl told ↦ cc | inr kept ↦ kept ∙ wait q b slept ]
  ]

  full_before :
      (p : ℕ) (buf : List ℕ) (r : Section) (x : Answer)
      → answer r ≡ x
      → IsWriteAnswer (contents s.dev) x
      → (q : ℕ) (b : List ℕ) → (after_write p buf r s).tasks q ≡ asleep (write_call b)
      → s.dev.current_len ≡ 10
  unfolding after_write
  full_before p buf r x same fine q b e = elim (Bool-cases (p == q)) [
    | inl own ↦
        let (no_result, _) = resting-none (write_call buf) (write_call b) r.ret (rw own at e) in
        let result : x.0 ≡ none = ap (λ (y : Answer). y.0) (sym same) ∙ no_result in
        omega (arith, fine.waits result, length-contents s.dev device)
    | inr other ↦ wait q b (writer_before r.wakes (s.tasks q) b (rw other at e))
  ]

  after_write-WritersWait :
      (p : ℕ) (buf : List ℕ) (r : Section) (x : Answer)
      → (answer r ≡ x) × IsDev r.dev
      → IsWriteAnswer (contents s.dev) x
      → WritersWait (after_write p buf r s)
  unfolding after_write
  after_write-WritersWait p buf r x (same, after) fine q b e = omega (
    arith,
    full_before p buf r x same fine q b e,
    ap length (ap (λ (y : Answer). y.2) same ∙ fine.appended),
    length-append (contents s.dev) x.1,
    length-contents r.dev after,
    length-contents s.dev device,
    after.low,
  )

  woken-WritersWait :
      (p : ℕ) (c : Call) → WritersWait (record s { tasks = update s.tasks p (woken c) })
  woken-WritersWait p c q b e = elim (Bool-cases (p == q)) [
    | inl own ↦ let differ : woken c ≡ asleep (write_call b) = rw own at e in cc
    | inr other ↦ wait q b (rw other at e)
  ]

  refused-WritersWait : (cmd : ℕ) → cmd ≢ fifo_clear → WritersWait (after_ioctl cmd s)
  unfolding after_ioctl globalfifo_ioctl
  refused-WritersWait cmd other q b e = rw (==_false cmd fifo_clear other) (wait q b e)

module _ (memcpy : ℕ → ℕ → List ℕ → List ℕ) where
  Step-IsDev : (s t : System) → IsDev s.dev → Step memcpy s t → IsDev t.dev
  unfolding after_read after_write after_ioctl
  Step-IsDev s t h (reads p n nonblock copied own) =
      (read-IsReadSection memcpy s.dev h nonblock copied n).device
  Step-IsDev s t h (read_goes_on p n signalled copied own) =
      (woken-IsReadSection memcpy s.dev h signalled copied n).device
  Step-IsDev s t h (writes p buf nonblock stops own) =
      (globalfifo_write-refines s.dev h nonblock stops buf).1
  Step-IsDev s t h (write_goes_on p buf signalled stops own) =
      (write_woken-refines s.dev h signalled stops buf).1
  Step-IsDev s t h (controls p cmd own) = (globalfifo_ioctl-refines s.dev h cmd).2
  Step-IsDev s t h (signals p c own) = h

  Uncleared-IsDev : (s : System) → Uncleared memcpy s → IsDev s.dev
  Uncleared-IsDev s fresh = globalfifo_init-IsDev
  Uncleared-IsDev s (goes_on {s = r} before step keeps) =
      Step-IsDev r s (Uncleared-IsDev r before) step

  Step-WritersWait :
      (s t : System)
      → IsDev s.dev
      → WritersWait s
      → (step : Step memcpy s t) → KeepsBytes step
      → WritersWait t
  Step-WritersWait s t h wait (reads p n nonblock copied own) keeps =
      after_read-WritersWait s h wait p n _ (read-IsReadSection memcpy s.dev h nonblock copied n)
  Step-WritersWait s t h wait (read_goes_on p n signalled copied own) keeps =
      after_read-WritersWait s h wait p n _ (woken-IsReadSection memcpy s.dev h signalled copied n)
  Step-WritersWait s t h wait (writes p buf nonblock stops own) keeps =
      after_write-WritersWait s h wait p buf _ _
        (globalfifo_write-refines s.dev h nonblock stops buf)
        (write-IsWriteAnswer nonblock stops buf (contents s.dev))
  Step-WritersWait s t h wait (write_goes_on p buf signalled stops own) keeps =
      after_write-WritersWait s h wait p buf _ _ (write_woken-refines s.dev h signalled stops buf)
        (woken-IsWriteAnswer signalled stops buf (contents s.dev))
  Step-WritersWait s t h wait (controls p cmd own) keeps = refused-WritersWait s h wait cmd keeps
  Step-WritersWait s t h wait (signals p c own) keeps = woken-WritersWait s h wait p c

  -- From a fresh device on and as long as nobody clears it, whatever the processes do in any order and
  -- with any interruptions, a writer is asleep only while the FIFO is full.
  pub Uncleared-full :
      (s : System) (p : ℕ) (buf : List ℕ)
      → Uncleared memcpy s
      → s.tasks p ≡ asleep (write_call buf)
      → length (contents s.dev) ≡ 10
  Uncleared-full s p buf fresh e = cc
  Uncleared-full s p buf (goes_on {s = r} before step keeps) e =
      let device = Uncleared-IsDev r before in
      let wait : WritersWait r =
        λ q b slept. sym (length-contents r.dev device) ∙ Uncleared-full r q b before slept in
      length-contents s.dev (Step-IsDev r s device step)
      ∙ Step-WritersWait r s device wait step keeps p buf e
