-- ===== src/Lock/Moves.antt =====
-- How a thread of app/lock.cpp keeps the lock discipline when it takes or releases a mutex, when it
-- completes an increment, and when it does neither.
use simplefs.Base.{
  update_cases, ℕ, ◌+◌, ◌%◌, ◌^◌, ◌≤◌, ◌≡◌, ◌≢◌, ◌↔◌, refl, sym, ◌∙◌, List, ◌∷◌, true, false,
  Option, none, some, ◌==◌, ==_refl, ==_false, update, Bool-cases, inl, inr, arith,
}
use simplefs.Lock.Program.{
  Statement, lock, unlock, Thread, absent, ended, at, loaded, Process, int_next,
}
use simplefs.Lock.Discipline.{
  owes, IsGuarded, IsPrivate, statements, IsFresh, Runs, creates, IsDisciplined,
}

abbrev pub Keeps : Option Process → Type 0
Keeps none = Unit {0}
Keeps (some u) = IsDisciplined u

module _ (s : Process) (d : IsDisciplined s) (t : ℕ) where
  -- Thread `t` goes on to `x`, with the mutexes `mutexes` and the counters `sequences`.
  moves :
      (x : Thread) (mutexes : ℕ → Option ℕ) (sequences stores : ℕ → ℕ) (buffers : ℕ → List ℕ)
      → IsGuarded (statements x)
      → ((m : ℕ) → (owes m (statements x) ≡ true) ↔ (mutexes m ≡ some t))
      → ((u m : ℕ) → t ≢ u → (s.mutexes m ≡ some u) ↔ (mutexes m ≡ some u))
      → IsFresh sequences x
      → ((u : ℕ) → t ≢ u → IsFresh sequences (s.threads u))
      → ((q : ℕ) → sequences q ≡ stores q % 2 ^ 32)
      → (2 ≤ t → Runs x)
      → s.threads t ≢ absent
      → IsDisciplined (record s {
        mutexes = mutexes;
        sequences = sequences;
        stores = stores;
        buffers = buffers;
        threads = update s.threads t x;
      })
  moves x mutexes sequences stores buffers guarded own others fresh fresh_others counted loops
        born =
      record {
        guarded =
            update_cases (λ u y. IsGuarded (statements y)) s.threads t x guarded λ u e. d.guarded u;
        held =
            update_cases (λ u y. (m : ℕ) → owes m (statements y) ≡ true → mutexes m ≡ some u)
              s.threads t x (λ m. (own m).0) λ u e m h. (others u m e).0 (d.held u m h);
        holds =
            update_cases (λ u y. (m : ℕ) → mutexes m ≡ some u → owes m (statements y) ≡ true)
              s.threads t x (λ m. (own m).1) λ u e m h. d.holds u m ((others u m e).1 h);
        fresh = update_cases (λ u y. IsFresh sequences y) s.threads t x fresh fresh_others;
        counted = counted;
        loops = update_cases (λ u y. 2 ≤ u → Runs y) s.threads t x loops λ u e. d.loops u;
        planned = d.planned;
        unborn =
            update_cases (λ u y. creates u s.main_rest ≡ true → y ≡ absent) s.threads t x
              (λ c. absurd (born (d.unborn t c))) λ u e. d.unborn u;
        waits = d.waits;
        unfinished = d.unfinished;
      }

module _ (s : Process) (d : IsDisciplined s) (t : ℕ) where
  -- A step that takes and releases nothing.
  pub moves_on :
      (x : Thread) (buffers : ℕ → List ℕ)
      → IsGuarded (statements x)
      → ((m : ℕ) → owes m (statements x) ≡ owes m (statements (s.threads t)))
      → IsFresh s.sequences x
      → (2 ≤ t → Runs x)
      → s.threads t ≢ absent
      → IsDisciplined (record s { buffers = buffers; threads = update s.threads t x })
  moves_on x buffers guarded same fresh loops born =
      moves s d t x s.mutexes s.sequences s.stores buffers guarded
        (λ m. (λ e. d.held t m (sym (same m) ∙ e), λ e. same m ∙ d.holds t m e))
        (λ u m e. (λ h. h, λ h. h)) fresh (λ u e. d.fresh u) d.counted loops born

  taken :
      (m : ℕ) (rest : List Statement)
      → owes m rest ≡ true
      → s.mutexes m ≡ none
      → s.threads t ≡ at (lock m ∷ rest)
      → (k : ℕ) → (owes k rest ≡ true) ↔ (update s.mutexes m (some t) k ≡ some t)
  unfolding owes
  taken m rest owed free e k = elim (Bool-cases (m == k)) [
    | inl same ↦ let equal : m ≡ k = ground arith in rw same (λ o. refl, λ o. rw (sym equal) owed)
    | inr apart ↦
        let kept : owes k (lock m ∷ rest) ≡ owes k rest = rw apart in
        rw apart (λ o. d.held t k (rw e (kept ∙ o)), λ o. sym kept ∙ rw e at (d.holds t k o))
  ]

  pub takes :
      (m : ℕ) (rest : List Statement)
      → s.threads t ≡ at (lock m ∷ rest)
      → (h : Option ℕ) → s.mutexes m ≡ h
      → Keeps (elim h [
        | none ↦ some (record s {
          threads = update s.threads t (at rest);
          mutexes = update s.mutexes m (some t);
        })
        | some _ ↦ none
      ])
  unfolding IsGuarded IsPrivate
  takes m rest e (some o) h = tt
  takes m rest e none h =
      let guarded : IsGuarded (lock m ∷ rest) = rw e at (d.guarded t) in
      moves s d t (at rest) (update s.mutexes m (some t)) s.sequences s.stores s.buffers guarded.1
        (taken m rest guarded.0 h e)
        (λ u k apart. elim (Bool-cases (m == k)) [
          | inl same ↦
              let equal : m ≡ k = ground arith in
              rw same (
                λ o. let clash : none ≡ some u = sym h ∙ rw (sym equal) at o in cc,
                λ o. let clash : some t ≡ some u = o in absurd (apart (cc)),
              )
          | inr other ↦ rw other (λ o. o, λ o. o)
        ])
        tt (λ u e. d.fresh u) d.counted (λ far. absurd (rw e at (d.loops t far))) (cc e)

  released :
      (m : ℕ) (rest : List Statement)
      → owes m rest ≡ false
      → s.threads t ≡ at (unlock m ∷ rest)
      → (k : ℕ) → (owes k rest ≡ true) ↔ (update s.mutexes m none k ≡ some t)
  unfolding owes
  released m rest owed e k = elim (Bool-cases (m == k)) [
    | inl same ↦
        let equal : m ≡ k = ground arith in
        let nothing : owes k rest ≡ false = rw (sym equal) owed in
        rw same (λ o. absurd (cc), λ o. let clash : none ≡ some t = o in absurd (cc))
    | inr apart ↦
        let kept : owes k (unlock m ∷ rest) ≡ owes k rest = rw apart in
        rw apart (λ o. d.held t k (rw e (kept ∙ o)), λ o. sym kept ∙ rw e at (d.holds t k o))
  ]

  pub releases :
      (m : ℕ) (rest : List Statement)
      → s.threads t ≡ at (unlock m ∷ rest)
      → IsDisciplined
          (record s { threads = update s.threads t (at rest); mutexes = update s.mutexes m none })
  unfolding IsGuarded IsPrivate owes
  releases m rest e =
      let guarded : IsGuarded (unlock m ∷ rest) = rw e at (d.guarded t) in
      let owed : owes m (unlock m ∷ rest) ≡ true = rw (==_refl m) in
      let mine : s.mutexes m ≡ some t = d.held t m (rw e owed) in
      moves s d t (at rest) (update s.mutexes m none) s.sequences s.stores s.buffers guarded.1
        (released m rest guarded.0 e)
        (λ u k apart. elim (Bool-cases (m == k)) [
          | inl same ↦
              let equal : m ≡ k = ground arith in
              let held : s.mutexes k ≡ some t = rw (sym equal) mine in
              rw same (
                λ o. let clash : some t ≡ some u = sym held ∙ o in absurd (apart (cc)),
                λ o. let clash : none ≡ some u = o in absurd (cc),
              )
          | inr other ↦ rw other (λ o. o, λ o. o)
        ])
        tt (λ u e. d.fresh u) d.counted (λ far. absurd (rw e at (d.loops t far))) (cc e)

  -- Another thread's value stays fresh, since it holds the mutex of its counter.
  stays_fresh :
      (u q v : ℕ) (y : Thread)
      → t ≢ u
      → s.mutexes q ≡ some t
      → s.threads u ≡ y
      → IsFresh (update s.sequences q v) y
  stays_fresh u q v absent apart mine e = tt
  stays_fresh u q v ended apart mine e = tt
  stays_fresh u q v (at _) apart mine e = tt
  stays_fresh u q v (loaded k w rest) apart mine e =
      let fresh : IsFresh s.sequences (loaded k w rest) = rw e at (d.fresh u) in
      let theirs : s.mutexes k ≡ some u = d.held u k (rw e fresh.1) in
      let differ : q ≢ k = λ same. apart (cc) in (rw (==_false q k differ) fresh.0, fresh.1)

  pub stores :
      (q v : ℕ) (rest : List Statement)
      → s.threads t ≡ loaded q v rest
      → IsDisciplined (record s {
        threads = update s.threads t (at rest);
        sequences = update s.sequences q (int_next v);
        stores = update s.stores q (s.stores q + 1);
      })
  unfolding IsGuarded IsPrivate
  stores q v rest e =
      let fresh : IsFresh s.sequences (loaded q v rest) = rw e at (d.fresh t) in
      let mine : s.mutexes q ≡ some t = d.held t q (rw e fresh.1) in
      moves s d t (at rest) s.mutexes (update s.sequences q (int_next v))
        (update s.stores q (s.stores q + 1)) s.buffers (rw e at (d.guarded t))
        (λ m. (λ o. d.held t m (rw e o), λ o. rw e at (d.holds t m o)))
        (λ u m apart. (λ o. o, λ o. o)) tt
        (λ u apart. stays_fresh u q (int_next v) (s.threads u) apart mine refl)
        (λ k. elim (Bool-cases (q == k)) [
          | inl same ↦ rw same (omega (arith, fresh.0, d.counted q))
          | inr other ↦ rw other (d.counted k)
        ])
        (λ far. absurd (rw e at (d.loops t far))) (cc e)
