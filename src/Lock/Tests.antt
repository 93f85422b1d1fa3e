-- ===== src/Lock/Tests.antt =====
-- The theorems about app/lock.cpp at concrete runs.
use simplefs.Base.{ℕ, ◌≡◌, refl, List, ◌∷◌, ◌++◌, Option, none, some, replicate}
use simplefs.Lock.Program.{
  lock, Statement, at, thread_step, run_thread, run_statement, pthread_mutex_lock, main_step,
  run_main, routine, func1, func2, main_function, process_started, Steps, here,
}
use simplefs.Lock.Discipline.{IsDisciplined}
use simplefs.Lock.Exclusion.{Steps-IsDisciplined}
use simplefs.Lock.Deadlock.{schedule, crossed, crossed-Steps, deadlock}
use simplefs.Lock.Circular.{InLoop, is_at, circular_wait}

Steps-IsDisciplined_example : IsDisciplined crossed
Steps-IsDisciplined_example = Steps-IsDisciplined crossed crossed-Steps

deadlock_example :
    Steps process_started crossed
    × ((crossed.mutexes 1 ≡ some 0) × (thread_step 0 crossed ≡ none))
    × ((crossed.mutexes 2 ≡ some 1) × (thread_step 1 crossed ≡ none))
    × (crossed.sequences 1 ≡ 1)
    × (crossed.sequences 2 ≡ 1)
    × (crossed.result ≡ none)
deadlock_example = deadlock crossed here

crossed_runs : InLoop (crossed.threads 0) × InLoop (crossed.threads 1)
unfolding crossed
crossed_runs = (is_at, is_at)

crossed_stuck : (thread_step 0 crossed ≡ none) × (thread_step 1 crossed ≡ none)
unfolding crossed
crossed_stuck = (refl, refl)

circular_wait_example :
    (m : ℕ) × (k : ℕ) × (first : List Statement) × (second : List Statement) × (crossed.threads 0
      ≡ at (lock m ∷ first))
    × (crossed.threads 1 ≡ at (lock k ∷ second))
    × (crossed.mutexes m ≡ some 1)
    × (crossed.mutexes k ≡ some 0)
circular_wait_example = circular_wait crossed crossed-Steps crossed_runs crossed_stuck

abbrev after : List (Option ℕ) → Option (ℕ × ℕ)
after l = elim (schedule l process_started) [
  | none ↦ none
  | some s ↦ some (s.sequences 1, s.sequences 2)
]

-- The first thread twice through its loop, then the second once.
three_rounds :
    after (replicate 5 none ++ replicate 22 (some 0) ++ replicate 11 (some 1)) ≡ some (3, 3)
unfolding schedule process_started main_function thread_step run_thread run_statement
    pthread_mutex_lock main_step run_main routine func1 func2
three_rounds = refl
