-- ===== src/Lock/Crossed.antt =====
-- What stays when each of the first two threads of app/lock.cpp holds the mutex that the other waits
-- for.
use simplefs.Base.{
  ℕ, zero, suc, ◌≤◌, ◌≡◌, refl, List, [], ◌∷◌, Bool, false, Option, none, some, ◌==◌, update, arith,
}
use simplefs.Lock.Program.{
  Statement, lock, unlock, increment, sleep, return_sequence, memset_buffer, strcpy_buffer, routine,
  Thread, absent, ended, at, loaded, Process, MainStatement, join, pthread_mutex_lock,
  run_statement, run_thread, thread_step, join_thread, run_main, main_step, ProcessStep,
  thread_runs, main_runs, Steps, here, later,
}
use simplefs.Lock.Discipline.{IsPrivate, Runs, IsDisciplined}
use simplefs.Lock.Exclusion.{ProcessStep-IsDisciplined}

-- Each of the first two threads holds one mutex and is about to take the other's, with the counters
-- at `sequences`, and the main function waits for the first to end.
pub record IsCrossed (first second : List Statement) (sequences : ℕ → ℕ) (s : Process)
    : Type 0 where
  pub first_waits : s.threads 0 ≡ at (lock 2 ∷ first)
  pub second_waits : s.threads 1 ≡ at (lock 1 ∷ second)
  pub first_holds : s.mutexes 1 ≡ some 0
  pub second_holds : s.mutexes 2 ≡ some 1
  pub joining : (rest : List MainStatement) × (s.main_rest ≡ join 0 ∷ rest)
  pub kept : (q : ℕ) → s.sequences q ≡ sequences q
  pub active : s.result ≡ none

blocked :
    (m t o : ℕ) (rest : List Statement) (s : Process)
    → s.mutexes m ≡ some o
    → pthread_mutex_lock m t rest s ≡ none
unfolding pthread_mutex_lock
blocked m t o rest s e = ground arith

module _ (first second : List Statement) (sequences : ℕ → ℕ) where
  abbrev Crossed : Option Process → Type 0
  Crossed none = Unit {0}
  Crossed (some u) = IsCrossed first second sequences u

  module _ (s : Process) (c : IsCrossed first second sequences s) where
    others_run :
        (t : ℕ) (x : Thread) (buffers : ℕ → List ℕ)
        → 2 ≤ t
        → IsCrossed first second sequences
            (record s { buffers = buffers; threads = update s.threads t x })
    others_run t x buffers far =
        let first_apart : (t == 0) ≡ false = ground arith in
        let second_apart : (t == 1) ≡ false = ground arith in
        record {
          first_waits = rw first_apart c.first_waits;
          second_waits = rw second_apart c.second_waits;
          first_holds = c.first_holds;
          second_holds = c.second_holds;
          joining = c.joining;
          kept = c.kept;
          active = c.active;
        }

    run_statement-Crossed :
        (t : ℕ) (x : Statement) (rest : List Statement)
        → 2 ≤ t
        → IsPrivate (x ∷ rest)
        → Crossed (run_statement x t rest s)
    unfolding run_statement IsPrivate
    run_statement-Crossed t (sleep n) rest far p = others_run t (at rest) s.buffers far
    run_statement-Crossed t memset_buffer rest far p = others_run t (at rest) _ far
    run_statement-Crossed t (strcpy_buffer text) rest far p = others_run t (at rest) _ far
    run_statement-Crossed t (lock m) rest far p = absurd p
    run_statement-Crossed t (unlock m) rest far p = absurd p
    run_statement-Crossed t (increment q) rest far p = absurd p
    run_statement-Crossed t (return_sequence q) rest far p = absurd p

    run_thread-Crossed : (t : ℕ) (x : Thread) → 2 ≤ t → Runs x → Crossed (run_thread x t s)
    unfolding run_thread
    run_thread-Crossed t absent far p = tt
    run_thread-Crossed t ended far p = tt
    run_thread-Crossed t (at []) far p = others_run t (at (routine t)) s.buffers far
    run_thread-Crossed t (at (x ∷ rest)) far p = run_statement-Crossed t x rest far p
    run_thread-Crossed t (loaded q v rest) far p = absurd p

    pub first_stuck : thread_step 0 s ≡ none
    unfolding thread_step run_thread run_statement
    first_stuck = rw (c.first_waits, blocked 2 0 1 first s c.second_holds) refl

    pub second_stuck : thread_step 1 s ≡ none
    unfolding thread_step run_thread run_statement
    second_stuck = rw (c.second_waits, blocked 1 1 0 second s c.first_holds) refl

    thread_step-Crossed : IsDisciplined s → (t : ℕ) → Crossed (thread_step t s)
    unfolding thread_step
    thread_step-Crossed d zero = rw first_stuck tt
    thread_step-Crossed d (suc zero) = rw second_stuck tt
    thread_step-Crossed d (suc (suc t)) =
        run_thread-Crossed (suc (suc t)) (s.threads (suc (suc t))) (omega arith)
          (d.loops (suc (suc t)) (omega arith))

    main_step-Crossed : (created : Bool) → Crossed (main_step created s)
    unfolding main_step run_main join_thread
    main_step-Crossed created = let (rest, e) = c.joining in rw (e, c.first_waits) tt

    ProcessStep-IsCrossed :
        IsDisciplined s → (u : Process) → ProcessStep s u → IsCrossed first second sequences u
    ProcessStep-IsCrossed d u (thread_runs t active e) = rw e at (thread_step-Crossed d t)
    ProcessStep-IsCrossed d u (main_runs created active e) = rw e at (main_step-Crossed created)

  pub Steps-IsCrossed :
      (s : Process)
      → IsDisciplined s
      → IsCrossed first second sequences s
      → (u : Process) → Steps s u
      → IsDisciplined u × IsCrossed first second sequences u
  Steps-IsCrossed s d c u here = (d, c)
  Steps-IsCrossed s d c u (later {u = r} before step) =
      let (disciplined, crossed) = Steps-IsCrossed s d c r before in
      (
        ProcessStep-IsDisciplined r disciplined u step,
        ProcessStep-IsCrossed r crossed disciplined u step,
      )
