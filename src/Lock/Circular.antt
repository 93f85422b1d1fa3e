-- ===== src/Lock/Circular.antt =====
-- Where the first two threads of app/lock.cpp can both hang.
use simplefs.Base.{
  ℕ, zero, suc, ◌≤◌, ◌≡◌, ◌≢◌, refl, List, [], ◌∷◌, true, false, none, some, ◌<◌, ==_refl, inl, inr,
  Option-cases, arith,
}
use simplefs.Lock.Program.{
  Statement, lock, unlock, increment, sleep, return_sequence, memset_buffer, strcpy_buffer, Thread,
  absent, ended, at, loaded, Process, pthread_mutex_lock, run_statement, run_thread, thread_step,
  Steps, process_started,
}
use simplefs.Lock.Discipline.{Runs, IsDisciplined}
use simplefs.Lock.Exclusion.{Steps-IsDisciplined}
use simplefs.Lock.Discipline.{owes, private-owes, statements}

pub data InLoop : Thread → Type 0 where
  is_at : {rest : List Statement} → InLoop (at rest)
  is_loaded : {q v : ℕ} {rest : List Statement} → InLoop (loaded q v rest)

lock_none :
    (m t : ℕ) (rest : List Statement) (s : Process)
    → pthread_mutex_lock m t rest s ≡ none
    → (o : ℕ) × (s.mutexes m ≡ some o)
unfolding pthread_mutex_lock
lock_none m t rest s e = elim (Option-cases (s.mutexes m)) [
  | inl free ↦ absurd (ground arith)
  | inr held ↦ held
]

-- A thread that cannot run is about to take a mutex that a thread holds.
stuck_waits :
    (t : ℕ) (s : Process) (x : Thread)
    → InLoop x
    → run_thread x t s ≡ none
    → (m : ℕ) × (o : ℕ) × (rest : List Statement) × (x ≡ at (lock m ∷ rest))
      × (s.mutexes m ≡ some o)
unfolding run_thread run_statement
stuck_waits t s _ (is_at {rest = lock m ∷ rest}) e =
    let (o, held) = lock_none m t rest s e in (m, o, rest, refl, held)
stuck_waits t s _ (is_at {rest = []}) e = absurd (cc)
stuck_waits t s _ (is_at {rest = unlock m ∷ rest}) e = absurd (cc)
stuck_waits t s _ (is_at {rest = increment q ∷ rest}) e = absurd (cc)
stuck_waits t s _ (is_at {rest = sleep n ∷ rest}) e = absurd (cc)
stuck_waits t s _ (is_at {rest = return_sequence q ∷ rest}) e = absurd (cc)
stuck_waits t s _ (is_at {rest = memset_buffer ∷ rest}) e = absurd (cc)
stuck_waits t s _ (is_at {rest = strcpy_buffer l ∷ rest}) e = absurd (cc)
stuck_waits t s _ is_loaded e = absurd (cc)

owes_nothing : (m : ℕ) (x : Thread) → Runs x → owes m (statements x) ≡ false
unfolding owes
owes_nothing m absent r = refl
owes_nothing m ended r = elim r [ ]
owes_nothing m (at rest) r = private-owes m rest r
owes_nothing m (loaded q v rest) r = absurd r

module _ (s : Process) (d : IsDisciplined s) where
  holder_small : (m o : ℕ) → s.mutexes m ≡ some o → o < 2
  holder_small m zero held = omega arith
  holder_small m (suc zero) held = omega arith
  holder_small m (suc (suc o)) held =
      let far : 2 ≤ suc (suc o) = omega arith in
      let owed = d.holds (suc (suc o)) m held in
      absurd (cc (owes_nothing m (s.threads (suc (suc o))) (d.loops (suc (suc o)) far)))

  -- A thread does not hold the mutex that it is about to take, and from the third on it holds none.
  waits_for :
      (t : ℕ) (m o : ℕ) (rest : List Statement)
      → s.threads t ≡ at (lock m ∷ rest)
      → s.mutexes m ≡ some o
      → (o ≢ t) × (o < 2)
  unfolding owes
  waits_for t m o rest e held = (
    λ same.
        let owed : owes m (lock m ∷ rest) ≡ true = rw (same, e) at (d.holds o m held) in
        let nothing : owes m (lock m ∷ rest) ≡ false = rw (==_refl m) in absurd (cc),
    holder_small m o held,
  )

-- Wherever the first two threads of app/lock.cpp are both in their loops and neither can run, in any
-- state that the program reaches: each is about to take a mutex that the other holds.
pub circular_wait :
    (s : Process)
    → Steps process_started s
    → InLoop (s.threads 0) × InLoop (s.threads 1)
    → (thread_step 0 s ≡ none) × (thread_step 1 s ≡ none)
    → (m : ℕ) × (k : ℕ) × (first : List Statement) × (second : List Statement) × (s.threads 0
        ≡ at (lock m ∷ first))
      × (s.threads 1 ≡ at (lock k ∷ second))
      × (s.mutexes m ≡ some 1)
      × (s.mutexes k ≡ some 0)
unfolding thread_step
circular_wait s steps (first_runs, second_runs) (first_stuck, second_stuck) =
    let d = Steps-IsDisciplined s steps in
    let (m, o, first, e, held) = stuck_waits 0 s (s.threads 0) first_runs first_stuck in
    let (k, p, second, f, kept) = stuck_waits 1 s (s.threads 1) second_runs second_stuck in
    let (o_other, o_small) = waits_for s d 0 m o first e held in
    let (p_other, p_small) = waits_for s d 1 k p second f kept in
    let other : o ≡ 1 = omega arith in
    let own : p ≡ 0 = omega arith in (m, k, first, second, e, f, rw other at held, rw own at kept)
