-- ===== src/Lock/Discipline.antt =====
-- The lock discipline of the threads of app/lock.cpp, on the statements that a thread has left.
use simplefs.Base.{
  ℕ, ◌%◌, ◌^◌, ◌≤◌, ◌≡◌, ◌≢◌, refl, List, [], ◌∷◌, Bool, true, false, some, ◌==◌, if◌then◌else◌,
  arith,
}
use simplefs.Lock.Program.{
  Statement, lock, unlock, increment, sleep, return_sequence, memset_buffer, strcpy_buffer, func1,
  func2, thread3, thread4, routine, Thread, absent, ended, at, loaded, Process, MainStatement,
  create, join, destroy, wait, main_function, process_started,
}

-- Whether the statements release the mutex before they take it.
unfoldable pub owes : ℕ → List Statement → Bool
owes m [] = false
owes m (lock k ∷ rest) = let later = owes m rest in if k == m then false else later
owes m (unlock k ∷ rest) = let later = owes m rest in if k == m then true else later
owes m (increment _ ∷ rest) = owes m rest
owes m (sleep _ ∷ rest) = owes m rest
owes m (return_sequence _ ∷ rest) = owes m rest
owes m (memset_buffer ∷ rest) = owes m rest
owes m (strcpy_buffer _ ∷ rest) = owes m rest

-- Every mutex that is taken is released, once, and each counter changes under the mutex of its number.
unfoldable pub IsGuarded : List Statement → Type 0
IsGuarded [] = Unit {0}
IsGuarded (lock m ∷ rest) = (owes m rest ≡ true) × IsGuarded rest
IsGuarded (unlock m ∷ rest) = (owes m rest ≡ false) × IsGuarded rest
IsGuarded (increment q ∷ rest) = (owes q rest ≡ true) × IsGuarded rest
IsGuarded (sleep _ ∷ rest) = IsGuarded rest
IsGuarded (return_sequence _ ∷ rest) = rest ≡ []
IsGuarded (memset_buffer ∷ rest) = IsGuarded rest
IsGuarded (strcpy_buffer _ ∷ rest) = IsGuarded rest

-- No mutex, no counter and no way out of the loop.
unfoldable pub IsPrivate : List Statement → Type 0
IsPrivate [] = Unit {0}
IsPrivate (lock _ ∷ rest) = ⊥
IsPrivate (unlock _ ∷ rest) = ⊥
IsPrivate (increment _ ∷ rest) = ⊥
IsPrivate (sleep _ ∷ rest) = IsPrivate rest
IsPrivate (return_sequence _ ∷ rest) = ⊥
IsPrivate (memset_buffer ∷ rest) = IsPrivate rest
IsPrivate (strcpy_buffer _ ∷ rest) = IsPrivate rest

pub private-owes : (m : ℕ) (rest : List Statement) → IsPrivate rest → owes m rest ≡ false
unfolding owes IsPrivate
private-owes m [] h = refl
private-owes m (lock _ ∷ rest) h = absurd h
private-owes m (unlock _ ∷ rest) h = absurd h
private-owes m (increment _ ∷ rest) h = absurd h
private-owes m (sleep _ ∷ rest) h = private-owes m rest h
private-owes m (return_sequence _ ∷ rest) h = absurd h
private-owes m (memset_buffer ∷ rest) h = private-owes m rest h
private-owes m (strcpy_buffer _ ∷ rest) h = private-owes m rest h

abbrev pub statements : Thread → List Statement
statements absent = []
statements ended = []
statements (at rest) = rest
statements (loaded _ _ rest) = rest

abbrev pub IsFresh : (ℕ → ℕ) → Thread → Type 0
IsFresh sequences absent = Unit {0}
IsFresh sequences ended = Unit {0}
IsFresh sequences (at _) = Unit {0}
IsFresh sequences (loaded q v rest) = (v ≡ sequences q) × (owes q rest ≡ true)

abbrev pub Runs : Thread → Type 0
Runs absent = Unit {0}
Runs ended = ⊥
Runs (at rest) = IsPrivate rest
Runs (loaded _ _ rest) = ⊥

-- Whether the main function is still to join thread `t`.
unfoldable pub joins : ℕ → List MainStatement → Bool
joins t [] = false
joins t (create _ ∷ rest) = joins t rest
joins t (join k ∷ rest) = let later = joins t rest in if k == t then true else later
joins t (destroy _ ∷ rest) = joins t rest
joins t (wait _ ∷ rest) = joins t rest

unfoldable pub creates : ℕ → List MainStatement → Bool
creates t [] = false
creates t (create k ∷ rest) = let later = creates t rest in if k == t then true else later
creates t (join _ ∷ rest) = creates t rest
creates t (destroy _ ∷ rest) = creates t rest
creates t (wait _ ∷ rest) = creates t rest

-- Each thread is created once, and the mutexes are destroyed after the join of the third thread.
unfoldable pub IsPlanned : List MainStatement → Type 0
IsPlanned [] = Unit {0}
IsPlanned (create t ∷ rest) = (creates t rest ≡ false) × IsPlanned rest
IsPlanned (join _ ∷ rest) = IsPlanned rest
IsPlanned (destroy _ ∷ rest) = (joins 2 rest ≡ false) × IsPlanned rest
IsPlanned (wait _ ∷ rest) = IsPlanned rest

-- A mutex is held by the thread that has yet to release it, and by no other; the value that a thread
-- has read for an increment is still the counter's; a thread from the third on stays in its loop;
-- the main function is before its third join.
pub record IsDisciplined (s : Process) : Type 0 where
  pub guarded : (t : ℕ) → IsGuarded (statements (s.threads t))
  pub held : (t m : ℕ) → owes m (statements (s.threads t)) ≡ true → s.mutexes m ≡ some t
  pub holds : (t m : ℕ) → s.mutexes m ≡ some t → owes m (statements (s.threads t)) ≡ true
  pub fresh : (t : ℕ) → IsFresh s.sequences (s.threads t)
  pub counted : (q : ℕ) → s.sequences q ≡ s.stores q % 2 ^ 32
  pub loops : (t : ℕ) → 2 ≤ t → Runs (s.threads t)
  pub planned : IsPlanned s.main_rest
  pub unborn : (t : ℕ) → creates t s.main_rest ≡ true → s.threads t ≡ absent
  pub waits : joins 2 s.main_rest ≡ true
  pub unfinished : s.result ≢ some 0

-- To prove a predicate of each branch.
if-cases {ℓ} :
    {A : Type ℓ} (P : A → Type 0) (b : Bool) (x y : A)
    → (b ≡ true → P x)
    → (b ≡ false → P y)
    → P (if b then x else y)
if-cases P true x y yes_case no_case = yes_case refl
if-cases P false x y yes_case no_case = no_case refl

pub routine-IsGuarded : (t : ℕ) → IsGuarded (routine t)
unfolding IsGuarded routine func1 func2 thread3 thread4 owes
routine-IsGuarded t =
    if-cases IsGuarded (t == 0) _ _ (λ e. (refl, (refl, (refl, (refl, (refl, (refl, refl)))))))
      λ e.
        if-cases IsGuarded (t == 1) _ _ (λ e. (refl, (refl, (refl, (refl, (refl, (refl, refl)))))))
          λ e.
            if-cases IsGuarded (t == 2) _ _ (λ e. tt)
              λ e. if-cases IsGuarded (t == 3) _ _ (λ e. tt) λ e. tt

pub routine-owes : (t m : ℕ) → owes m (routine t) ≡ false
unfolding routine func1 func2 thread3 thread4 owes
routine-owes t m = ground arith

pub routine-IsPrivate : (t : ℕ) → 2 ≤ t → IsPrivate (routine t)
unfolding IsPrivate routine func1 func2 thread3 thread4
routine-IsPrivate t h =
    if-cases IsPrivate (t == 0) _ _ (λ e. absurd (ground arith))
      λ e.
        if-cases IsPrivate (t == 1) _ _ (λ e. absurd (ground arith))
          λ e.
            if-cases IsPrivate (t == 2) _ _ (λ e. tt)
              λ e. if-cases IsPrivate (t == 3) _ _ (λ e. tt) λ e. tt

pub process_started-IsDisciplined : IsDisciplined process_started
unfolding IsGuarded IsPlanned owes creates joins process_started main_function
process_started-IsDisciplined = record {
  guarded = λ t. tt;
  held = λ t m e. absurd (cc);
  holds = λ t m e. absurd (cc);
  fresh = λ t. tt;
  counted = λ q. refl;
  loops = λ t h. tt;
  planned = (refl, (refl, (refl, (refl, (refl, (refl, (refl, (refl, tt))))))));
  unborn = λ t e. refl;
  waits = refl;
  unfinished = λ e. cc;
}
