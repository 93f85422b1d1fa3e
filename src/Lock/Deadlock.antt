-- ===== src/Lock/Deadlock.antt =====
-- The deadlock of app/lock.cpp: `func1` and `func2` take the two mutexes in opposite orders.
use simplefs.Base.{ℕ, ◌≡◌, refl, List, [], ◌∷◌, true, Option, none, some, inl, inr, Option-cases}
use simplefs.Lock.Program.{
  Statement, unlock, increment, return_sequence, func1, func2, routine, Process, main_function,
  pthread_mutex_lock, run_statement, run_thread, thread_step, run_main, main_step, ProcessStep,
  thread_runs, main_runs, Steps, here, later, process_started,
}
use simplefs.Lock.Exclusion.{Steps-IsDisciplined}
use simplefs.Lock.Crossed.{IsCrossed, first_stuck, second_stuck, Steps-IsCrossed}

-- Which thread runs next, or the main function; `none` where it cannot.
unfoldable pub turn : Option ℕ → Process → Option Process
turn none s = main_step true s
turn (some t) s = thread_step t s

abbrev active_turn : Option ℕ → Option ℕ → Process → Option Process
active_turn (some status) who s = none
active_turn none who s = turn who s

unfoldable pub schedule : List (Option ℕ) → Process → Option Process
unfolding turn
schedule [] s = some s
schedule (who ∷ rest) s = elim (active_turn s.result who s) [
  | none ↦ none
  | some u ↦ schedule rest u
]

turn-ProcessStep :
    (who r : Option ℕ) (s u : Process)
    → s.result ≡ r
    → active_turn r who s ≡ some u
    → ProcessStep s u
unfolding turn
turn-ProcessStep who (some status) s u active e = let clash : none ≡ some u = e in absurd (cc)
turn-ProcessStep none none s u active e = main_runs true active e
turn-ProcessStep (some t) none s u active e = thread_runs t active e

schedule-Steps :
    (l : List (Option ℕ)) (s u v : Process) → Steps s u → schedule l u ≡ some v → Steps s v
unfolding schedule
schedule-Steps [] s u v before e = let same : u ≡ v = cc in rw same at before
schedule-Steps (who ∷ rest) s u v before e = elim (Option-cases (active_turn u.result who u)) [
  | inl stuck ↦ let clash : none ≡ some v = rw (stuck, schedule) at e in absurd (cc)
  | inr (w, next) ↦
      schedule-Steps rest s w v (later before (turn-ProcessStep who u.result u w refl next))
        (rw (next, schedule) at e)
]

-- The main function creates the threads and waits; the first two threads then go up to their
-- second lock, in turns.
abbrev pub turns : List (Option ℕ)
turns =
    none
    ∷ none
    ∷ none
    ∷ none
    ∷ none
    ∷ some 0
    ∷ some 1
    ∷ some 0
    ∷ some 1
    ∷ some 0
    ∷ some 1
    ∷ some 0
    ∷ some 1
    ∷ some 0
    ∷ some 1
    ∷ []

unfoldable pub crossed : Process
unfolding schedule turn thread_step run_thread run_statement pthread_mutex_lock main_step run_main
    routine func1 func2 process_started main_function
crossed = elim (schedule turns process_started) [ none ↦ process_started | some u ↦ u ]

pub crossed-Steps : Steps process_started crossed
unfolding crossed
crossed-Steps = schedule-Steps turns process_started process_started crossed here refl

abbrev first_rest : List Statement
first_rest = increment 2 ∷ unlock 2 ∷ unlock 1 ∷ return_sequence 1 ∷ []

abbrev second_rest : List Statement
second_rest = increment 1 ∷ unlock 1 ∷ unlock 2 ∷ return_sequence 2 ∷ []

crossed-IsCrossed : IsCrossed first_rest second_rest crossed.sequences crossed
unfolding crossed
crossed-IsCrossed = record {
  first_waits = refl;
  second_waits = refl;
  first_holds = refl;
  second_holds = refl;
  joining = (_, refl);
  kept = λ q. refl;
  active = refl;
}

-- The program of app/lock.cpp reaches, after one increment of each counter, a state from which the
-- first two threads never run again, the counters stay at 1 and the process never ends: the first
-- holds mutex1 and waits for mutex2, the second holds mutex2 and waits for mutex1. So it is in every
-- state that follows this one.
pub deadlock :
    (u : Process)
    → Steps crossed u
    → Steps process_started crossed
      × ((u.mutexes 1 ≡ some 0) × (thread_step 0 u ≡ none))
      × ((u.mutexes 2 ≡ some 1) × (thread_step 1 u ≡ none))
      × (u.sequences 1 ≡ 1)
      × (u.sequences 2 ≡ 1)
      × (u.result ≡ none)
unfolding crossed
deadlock u steps =
    let (_, c) =
      Steps-IsCrossed first_rest second_rest crossed.sequences crossed
        (Steps-IsDisciplined crossed crossed-Steps) crossed-IsCrossed u steps in
    (
      crossed-Steps,
      (c.first_holds, first_stuck _ _ _ u c),
      (c.second_holds, second_stuck _ _ _ u c),
      c.kept 1,
      c.kept 2,
      c.active,
    )
