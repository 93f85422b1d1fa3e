-- ===== src/Lock/Exclusion.antt =====
-- Every step of the threads and of the main function of app/lock.cpp keeps the lock discipline.
use simplefs.Base.{
  update_cases, ℕ, ◌≤◌, ◌≡◌, ◌≢◌, refl, sym, ◌∙◌, List, [], ◌∷◌, Bool, true, false, some, ◌==◌,
  ==_refl, ==_false, if◌then◌else◌, update, Bool-cases, inl, inr, arith,
}
use simplefs.Lock.Program.{
  Statement, lock, unlock, increment, sleep, return_sequence, memset_buffer, strcpy_buffer, routine,
  Thread, absent, ended, at, loaded, Process, MainStatement, create, join, destroy, wait,
  pthread_mutex_lock, run_statement, run_thread, thread_step, join_thread, run_main, main_step,
  ProcessStep, thread_runs, main_runs, Steps, here, later, process_started,
}
use simplefs.Lock.Discipline.{
  owes, IsGuarded, IsPrivate, statements, IsFresh, Runs, joins, creates, IsPlanned, IsDisciplined,
  routine-IsGuarded, routine-owes, routine-IsPrivate, process_started-IsDisciplined,
}
use simplefs.Lock.Moves.{Keeps, moves_on, takes, releases, stores}

module _ (s : Process) (d : IsDisciplined s) (t : ℕ) where
  steps_over :
      (x : Statement) (rest : List Statement) (buffers : ℕ → List ℕ)
      → s.threads t ≡ at (x ∷ rest)
      → ((m : ℕ) → owes m rest ≡ owes m (x ∷ rest))
      → (IsGuarded (x ∷ rest) → IsGuarded rest)
      → (IsPrivate (x ∷ rest) → IsPrivate rest)
      → IsDisciplined (record s { buffers = buffers; threads = update s.threads t (at rest) })
  steps_over x rest buffers e owed guarded loops =
      moves_on s d t (at rest) buffers (guarded (rw e at (d.guarded t))) (rw e owed) tt
        (λ far. loops (rw e at (d.loops t far))) (cc e)

  returns :
      (q : ℕ) (rest : List Statement)
      → s.threads t ≡ at (return_sequence q ∷ rest)
      → (b : Bool)
      → IsDisciplined (record s { threads = update s.threads t (if b then ended else at []) })
  unfolding IsGuarded IsPrivate owes
  returns q rest e true =
      let last : rest ≡ [] = rw e at (d.guarded t) in
      moves_on s d t ended s.buffers tt (rw (e, last) λ m. refl) tt
        (λ far. absurd (rw e at (d.loops t far))) (cc e)
  returns q rest e false =
      let last : rest ≡ [] = rw e at (d.guarded t) in
      moves_on s d t (at []) s.buffers tt (rw (e, last) λ m. refl) tt (λ far. tt) (cc e)

  run_statement-Keeps :
      (x : Statement) (rest : List Statement)
      → s.threads t ≡ at (x ∷ rest)
      → Keeps (run_statement x t rest s)
  unfolding run_statement pthread_mutex_lock owes IsGuarded IsPrivate
  run_statement-Keeps (lock m) rest e = takes s d t m rest e (s.mutexes m) refl
  run_statement-Keeps (unlock m) rest e = releases s d t m rest e
  run_statement-Keeps (increment q) rest e =
      let guarded : IsGuarded (increment q ∷ rest) = rw e at (d.guarded t) in
      moves_on s d t (loaded q (s.sequences q) rest) s.buffers guarded.1 (rw e λ m. refl)
        (refl, guarded.0) (λ far. absurd (rw e at (d.loops t far))) (cc e)
  run_statement-Keeps (sleep n) rest e =
      steps_over (sleep n) rest s.buffers e (λ m. refl) (λ g. g) (λ p. p)
  run_statement-Keeps (return_sequence q) rest e = returns q rest e (s.sequences q == 100000)
  run_statement-Keeps memset_buffer rest e =
      steps_over memset_buffer rest _ e (λ m. refl) (λ g. g) (λ p. p)
  run_statement-Keeps (strcpy_buffer text) rest e =
      steps_over (strcpy_buffer text) rest _ e (λ m. refl) (λ g. g) (λ p. p)

  run_thread-Keeps : (x : Thread) → s.threads t ≡ x → Keeps (run_thread x t s)
  unfolding run_thread owes
  run_thread-Keeps absent e = tt
  run_thread-Keeps ended e = tt
  run_thread-Keeps (at []) e =
      moves_on s d t (at (routine t)) s.buffers (routine-IsGuarded t) (rw e λ m. routine-owes t m)
        tt (routine-IsPrivate t) (cc e)
  run_thread-Keeps (at (x ∷ rest)) e = run_statement-Keeps x rest e
  run_thread-Keeps (loaded q v rest) e = stores s d t q v rest e

  creates_thread :
      (rest : List MainStatement)
      → s.main_rest ≡ create t ∷ rest
      → IsDisciplined (record s { threads = update s.threads t (at []); main_rest = rest })
  unfolding IsGuarded IsPrivate owes creates joins IsPlanned
  creates_thread rest e =
      let planned : IsPlanned (create t ∷ rest) = rw e at d.planned in
      let unborn : s.threads t ≡ absent = d.unborn t (rw (e, ==_refl t)) in
      record {
        guarded =
            update_cases (λ u y. IsGuarded (statements y)) s.threads t (at []) tt
              (λ u apart. d.guarded u);
        held =
            update_cases (λ u y. (m : ℕ) → owes m (statements y) ≡ true → s.mutexes m ≡ some u)
              s.threads t (at []) (λ m o. absurd (cc)) λ u apart. d.held u;
        holds =
            update_cases (λ u y. (m : ℕ) → s.mutexes m ≡ some u → owes m (statements y) ≡ true)
              s.threads t (at []) (λ m o. rw unborn at (d.holds t m o)) λ u apart. d.holds u;
        fresh =
            update_cases (λ u y. IsFresh s.sequences y) s.threads t (at []) tt λ u apart. d.fresh u;
        counted = d.counted;
        loops =
            update_cases (λ u y. 2 ≤ u → Runs y) s.threads t (at []) (λ far. tt)
              λ u apart. d.loops u;
        planned = planned.1;
        unborn =
            update_cases (λ u y. creates u rest ≡ true → y ≡ absent) s.threads t (at [])
              (λ c. absurd (cc planned.0)) λ u apart c. d.unborn u (rw (e, ==_false t u apart) c);
        waits = rw e at d.waits;
        unfinished = d.unfinished;
      }

exits_with_one : (s : Process) → (record s { result = some 1 }).result ≢ some 0
exits_with_one s e = ground arith

module _ (s : Process) (d : IsDisciplined s) where
  goes_past :
      (x : MainStatement) (rest : List MainStatement)
      → s.main_rest ≡ x ∷ rest
      → (IsPlanned (x ∷ rest) → IsPlanned rest)
      → ((t : ℕ) → creates t rest ≡ creates t (x ∷ rest))
      → joins 2 rest ≡ true
      → IsDisciplined (record s { main_rest = rest })
  goes_past x rest e planned created waits = record {
    guarded = d.guarded;
    held = d.held;
    holds = d.holds;
    fresh = d.fresh;
    counted = d.counted;
    loops = d.loops;
    planned = planned (rw e at d.planned);
    unborn = λ t c. d.unborn t (rw e (sym (created t) ∙ c));
    waits = waits;
    unfinished = d.unfinished;
  }

  -- The third thread has not ended, so a thread that can be joined is another.
  joins_thread :
      (t : ℕ) (rest : List MainStatement)
      → s.main_rest ≡ join t ∷ rest
      → (x : Thread) → s.threads t ≡ x
      → Keeps (join_thread x rest s)
  unfolding join_thread IsPlanned creates joins
  joins_thread t rest m absent e = tt
  joins_thread t rest m (at _) e = tt
  joins_thread t rest m (loaded _ _ _) e = tt
  joins_thread t rest m ended e = elim (Bool-cases (t == 2)) [
    | inl third ↦ absurd (rw e at (d.loops t (ground arith)))
    | inr other ↦
        let waits : joins 2 (join t ∷ rest) ≡ true = rw m at d.waits in
        goes_past (join t) rest m (λ p. p) (λ t. refl) (rw other at waits)
  ]

  run_main-Keeps :
      (created : Bool) (m : List MainStatement) → s.main_rest ≡ m → Keeps (run_main created m s)
  unfolding run_main IsPlanned creates joins
  run_main-Keeps created [] e = let waits : false ≡ true = rw e at d.waits in absurd (cc)
  run_main-Keeps true (create t ∷ rest) e = creates_thread s d t rest e
  run_main-Keeps false (create t ∷ rest) e = record {
    guarded = d.guarded;
    held = d.held;
    holds = d.holds;
    fresh = d.fresh;
    counted = d.counted;
    loops = d.loops;
    planned = d.planned;
    unborn = d.unborn;
    waits = d.waits;
    unfinished = λ same. exits_with_one s same;
  }
  run_main-Keeps created (join t ∷ rest) e = joins_thread t rest e (s.threads t) refl
  run_main-Keeps created (destroy k ∷ rest) e =
      let planned : IsPlanned (destroy k ∷ rest) = rw e at d.planned in
      let waits : joins 2 rest ≡ true = rw e at d.waits in absurd (cc planned.0)
  run_main-Keeps created (wait n ∷ rest) e =
      goes_past (wait n) rest e (λ p. p) (λ t. refl) (rw e at d.waits)

  pub ProcessStep-IsDisciplined : (u : Process) → ProcessStep s u → IsDisciplined u
  unfolding thread_step main_step
  ProcessStep-IsDisciplined u (thread_runs t active e) =
      rw e at (run_thread-Keeps s d t (s.threads t) refl)
  ProcessStep-IsDisciplined u (main_runs created active e) =
      rw e at (run_main-Keeps created s.main_rest refl)

-- In every state that the program of app/lock.cpp reaches, however its threads interleave and also
-- where a thread cannot be created: a mutex is held by the one thread that has locked and not
-- released it; a thread in an increment of a counter holds the mutex of its number and has read the
-- counter's present value, so each counter is the number of increments completed, modulo 2 ^ 32; the
-- threads of `tid[2]` on never leave their loops; and the main function never returns.
pub Steps-IsDisciplined : (s : Process) → Steps process_started s → IsDisciplined s
Steps-IsDisciplined s here = process_started-IsDisciplined
Steps-IsDisciplined s (later {u} before step) =
    ProcessStep-IsDisciplined u (Steps-IsDisciplined u before) s step
