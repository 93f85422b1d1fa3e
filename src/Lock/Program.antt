-- ===== src/Lock/Program.antt =====
-- app/lock.cpp: four threads and the main function that creates and joins them. Each function body
-- is the list of its statements; an increment of a counter is a load and, later, a store.
use simplefs.Base.{
  ℕ, ◌+◌, ◌%◌, ◌^◌, ◌≡◌, List, [], ◌∷◌, ◌++◌, replicate, drop, length, Bool, Option, none, some,
  ◌==◌, if◌then◌else◌, update,
}

-- Mutexes, counters and threads go by the source's numbers: `mutex1` is 1, `sequence1` is 1, the
-- thread of `tid[0]` is 0.
pub data Statement : Type 0 where
  lock unlock : ℕ → Statement
  increment : ℕ → Statement
  sleep : ℕ → Statement
  -- `return sequence1` and the test of the result in the loop that called the function.
  return_sequence : ℕ → Statement
  memset_buffer : Statement
  strcpy_buffer : List ℕ → Statement

unfoldable pub func1 : List Statement
func1 =
    lock 1
    ∷ increment 1
    ∷ sleep 1
    ∷ lock 2
    ∷ increment 2
    ∷ unlock 2
    ∷ unlock 1
    ∷ return_sequence 1
    ∷ []

unfoldable pub func2 : List Statement
func2 =
    lock 2
    ∷ increment 2
    ∷ sleep 1
    ∷ lock 1
    ∷ increment 1
    ∷ unlock 1
    ∷ unlock 2
    ∷ return_sequence 2
    ∷ []

-- "thread3", which thread4 copies too.
abbrev pub thread3_text : List ℕ
thread3_text = 116 ∷ 104 ∷ 114 ∷ 101 ∷ 97 ∷ 100 ∷ 51 ∷ []

unfoldable pub thread3 : List Statement
thread3 = sleep 1 ∷ memset_buffer ∷ strcpy_buffer thread3_text ∷ []

unfoldable pub thread4 : List Statement
thread4 = sleep 1 ∷ memset_buffer ∷ strcpy_buffer thread3_text ∷ []

-- The body of the endless loop of each thread.
unfoldable pub routine : ℕ → List Statement
routine t =
    if t == 0
    then func1
    else if t == 1
    then func2
    else if t == 2
    then thread3
    else if t == 3
    then thread4
    else []

-- `at rest`: the statements before the end of the loop's body. `loaded q v rest`: in an increment of
-- counter `q`, with `v` read and not written back.
pub data Thread : Type 0 where
  absent ended : Thread
  at : List Statement → Thread
  loaded : ℕ → ℕ → List Statement → Thread

pub data MainStatement : Type 0 where
  create join destroy wait : ℕ → MainStatement

unfoldable pub main_function : List MainStatement
main_function =
    create 0
    ∷ create 1
    ∷ create 2
    ∷ create 3
    ∷ wait 5
    ∷ join 0
    ∷ join 1
    ∷ join 2
    ∷ join 3
    ∷ destroy 1
    ∷ destroy 2
    ∷ destroy 3
    ∷ destroy 4
    ∷ []

-- `mutexes` gives the thread that holds each; `stores` counts the increments that were completed;
-- `result` is the process's exit status once it has one.
pub record Process : Type 0 where
  pub mutexes : ℕ → Option ℕ
  pub sequences : ℕ → ℕ
  pub stores : ℕ → ℕ
  pub buffers : ℕ → List ℕ
  pub threads : ℕ → Thread
  pub main_rest : List MainStatement
  pub result : Option ℕ

abbrev put_thread : ℕ → Thread → Process → Process
put_thread t x s = record s { threads = update s.threads t x }

-- An `int` that is incremented past its range, as the machine does it.
abbrev pub int_next : ℕ → ℕ
int_next v = (v + 1) % 2 ^ 32

-- `none` where the thread waits for the mutex.
unfoldable pub pthread_mutex_lock : ℕ → ℕ → List Statement → Process → Option Process
pthread_mutex_lock m t rest s = elim (s.mutexes m) [
  | none ↦ some (record (put_thread t (at rest) s) { mutexes = update s.mutexes m (some t) })
  | some _ ↦ none
]

unfoldable pub run_statement : Statement → ℕ → List Statement → Process → Option Process
run_statement (lock m) t rest s = pthread_mutex_lock m t rest s
run_statement (unlock m) t rest s =
    some (record (put_thread t (at rest) s) { mutexes = update s.mutexes m none })
run_statement (increment q) t rest s = some (put_thread t (loaded q (s.sequences q) rest) s)
run_statement (sleep _) t rest s = some (put_thread t (at rest) s)
run_statement (return_sequence q) t rest s =
    some (put_thread t (if s.sequences q == 100000 then ended else at []) s)
run_statement memset_buffer t rest s =
    some (record (put_thread t (at rest) s) { buffers = update s.buffers t (replicate 128 0) })
run_statement (strcpy_buffer text) t rest s =
    let copy = text ++ 0 ∷ [] in
    let buffer = copy ++ drop (length copy) (s.buffers t) in
    some (record (put_thread t (at rest) s) { buffers = update s.buffers t buffer })

unfoldable pub run_thread : Thread → ℕ → Process → Option Process
run_thread absent t s = none
run_thread ended t s = none
run_thread (at []) t s = some (put_thread t (at (routine t)) s)
run_thread (at (x ∷ rest)) t s = run_statement x t rest s
run_thread (loaded q v rest) t s = some (record (put_thread t (at rest) s) {
  sequences = update s.sequences q (int_next v);
  stores = update s.stores q (s.stores q + 1);
})

-- The next step of a thread, where it has one.
unfoldable pub thread_step : ℕ → Process → Option Process
thread_step t s = run_thread (s.threads t) t s

unfoldable pub join_thread : Thread → List MainStatement → Process → Option Process
join_thread ended rest s = some (record s { main_rest = rest })
join_thread absent rest s = none
join_thread (at _) rest s = none
join_thread (loaded _ _ _) rest s = none

-- `created`: the thread library could create the thread.
unfoldable pub run_main : Bool → List MainStatement → Process → Option Process
run_main created [] s = some (record s { result = some 0 })
run_main created (create t ∷ rest) s = some (
    if created
    then record (put_thread t (at []) s) { main_rest = rest }
    else record s { result = some 1 })
run_main created (join t ∷ rest) s = join_thread (s.threads t) rest s
run_main created (destroy m ∷ rest) s =
    some (record s { main_rest = rest; mutexes = update s.mutexes m none })
run_main created (wait _ ∷ rest) s = some (record s { main_rest = rest })

unfoldable pub main_step : Bool → Process → Option Process
main_step created s = run_main created s.main_rest s

-- Any thread runs next, or the main function, until the process has ended.
pub data ProcessStep (s : Process) : Process → Type 0 where
  thread_runs : (t : ℕ) {u : Process} → s.result ≡ none → thread_step t s ≡ some u → ProcessStep s u
  main_runs :
      (created : Bool) {u : Process}
      → s.result ≡ none
      → main_step created s ≡ some u
      → ProcessStep s u

pub data Steps (s : Process) : Process → Type 0 where
  here : Steps s s
  later : {u v : Process} → Steps s u → ProcessStep u v → Steps s v

unfoldable pub process_started : Process
process_started = record {
  mutexes = λ m. none;
  sequences = λ q. 0;
  stores = λ q. 0;
  buffers = λ t. [];
  threads = λ t. absent;
  main_rest = main_function;
  result = none;
}
