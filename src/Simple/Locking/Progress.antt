-- ===== src/Simple/Locking/Progress.antt =====
-- The operations of simplefs/simple.c that no signal interrupts do not wait for each other in a circle.
use simplefs.Base.{
  ℕ, suc, zero, ◌<◌, ◌≡◌, ◌≢◌, refl, sym, ◌∙◌, true, false, none, some, Option-cases, inl, inr,
  arith,
}
use simplefs.Simple.Locking.{
  LockTree, done, lock, unlock, choose, Processes, Runs, takes, releases, branches, Undisturbed,
  start, later,
}
use simplefs.Simple.Locking.Ordered.{owes, IsOrderly}
use simplefs.Simple.Locking.Held.{IsInOrder, Runs-keeps}

pub Undisturbed-IsInOrder : (s : Processes) → Undisturbed s → (p : ℕ) → IsInOrder s p
unfolding owes IsOrderly
Undisturbed-IsInOrder s start p = record {
  ordered = tt;
  quiet = refl;
  held = λ m o. let clash : false ≡ true = o in absurd (cc);
  holds = λ m h. let clash : none ≡ some p = h in absurd (cc);
}
Undisturbed-IsInOrder u (later {s} r before step) p =
    Runs-keeps s r step (Undisturbed-IsInOrder s before r) p (Undisturbed-IsInOrder s before p)

-- A process whose call is not over makes a step.
unfoldable pub Progresses : Processes → Type 0
Progresses s = (q : ℕ) × (s.rest q ≢ done) × (u : Processes) × Runs s q u

module _ (s : Processes) (all : (p : ℕ) → IsInOrder s p) where
  -- A holder that waits too waits for a mutex of a lower number.
  holder_waits : (m q k : ℕ) {x y : LockTree} → s.holders m ≡ some q → s.rest q ≡ lock k x y → k < m
  unfolding owes IsOrderly
  holder_waits m q k {x} {y} h e =
      let ordered : IsOrderly (lock k x y) = rw e at (all q).ordered in
      let owed : owes m (lock k x y) ≡ true = rw e at ((all q).holds m h) in
      let higher : m < k → owes m x ≡ false = ordered.1 m in ground arith

  -- The holder of a mutex goes on, or waits for a mutex of a lower number.
  holder-Progresses :
      (n k q : ℕ) (z : LockTree)
      → ((j : ℕ) (x y : LockTree) → j < n → s.rest q ≡ lock j x y → Progresses s)
      → k < suc n
      → s.holders k ≡ some q
      → s.rest q ≡ z
      → Progresses s
  unfolding owes Progresses
  holder-Progresses n k q done waits bound h e =
      let owed : false ≡ true = rw e at ((all q).holds k h) in absurd (cc)
  holder-Progresses n k q (lock j x y) waits bound h e =
      let lower = holder_waits k q j h e in waits j x y (omega arith) e
  holder-Progresses n k q (unlock j x) waits bound h e =
      (q, (λ d. let clash : unlock j x ≡ done = sym e ∙ d in absurd (cc)), _, releases j e)
  holder-Progresses n k q (choose x y) waits bound h e =
      (q, (λ d. let clash : choose x y ≡ done = sym e ∙ d in absurd (cc)), _, branches true e)

  waits-Progresses : (n k p : ℕ) (x y : LockTree) → k < n → s.rest p ≡ lock k x y → Progresses s
  unfolding Progresses
  waits-Progresses zero k p x y bound e = absurd (ground arith)
  waits-Progresses (suc n) k p x y bound e = elim (Option-cases (s.holders k)) [
    | inl free ↦
        (p, (λ d. let clash : lock k x y ≡ done = sym e ∙ d in absurd (cc)), _, takes k e free)
    | inr held ↦
        holder-Progresses n k held.0 (s.rest held.0) (λ j. waits-Progresses n j held.0) bound held.1
          refl
  ]

  call-Progresses : (p : ℕ) (z : LockTree) → s.rest p ≡ z → s.rest p ≢ done → Progresses s
  unfolding Progresses
  call-Progresses p done e busy = absurd (busy e)
  call-Progresses p (lock k x y) e busy = waits-Progresses (suc k) k p x y (omega arith) e
  call-Progresses p (unlock k x) e busy = (p, busy, _, releases k e)
  call-Progresses p (choose x y) e busy = (p, busy, _, branches true e)

-- Where no signal comes, the processes that create, unlink, write and look up, however their steps
-- interleave, never wait for each other in a circle: as long as some call is not over, a process
-- whose call is not over can make a step.
pub Undisturbed-Progresses :
    (s : Processes) → Undisturbed s → (p : ℕ) → s.rest p ≢ done → Progresses s
Undisturbed-Progresses s reached p busy =
    call-Progresses s (Undisturbed-IsInOrder s reached) p (s.rest p) refl busy
