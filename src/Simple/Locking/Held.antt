-- ===== src/Simple/Locking/Held.antt =====
-- What a step of a process of simplefs/simple.c changes of the mutexes: it takes and releases its own.
use simplefs.Base.{
  Bool, update, ℕ, ◌≡◌, ◌≢◌, ◌↔◌, refl, sym, ◌∙◌, true, false, Option, none, some, ◌==◌, ==_refl,
  ==_false, Bool-cases, inl, inr, arith,
}
use simplefs.Simple.Locking.{
  interrupts, LockTree, lock, unlock, choose, locks_of, Processes, go, Runs, takes, releases,
  branches, calls,
}
use simplefs.Simple.Locking.Ordered.{owes, IsOrderly, locks_of-IsOrderly, locks_of-owes}

-- The process keeps the order in what it has still to do, holds the mutexes that it will release, and
-- has no signal.
pub record IsInOrder (s : Processes) (p : ℕ) : Type 0 where
  pub ordered : IsOrderly (s.rest p)
  pub held : (m : ℕ) → owes m (s.rest p) ≡ true → s.holders m ≡ some p
  pub holds : (m : ℕ) → s.holders m ≡ some p → owes m (s.rest p) ≡ true
  pub quiet : s.pending p ≡ false

module _ (s : Processes) (p : ℕ) where
  pub Runs-rest : {u : Processes} → Runs s p u → (q : ℕ) → p ≢ q → u.rest q ≡ s.rest q
  Runs-rest (takes m e free) q apart = simp (==_false _ q apart)
  Runs-rest (interrupts m r e h sig) q apart = simp (==_false _ q apart)
  Runs-rest (releases m e) q apart = simp (==_false _ q apart)
  Runs-rest (branches left e) q apart = simp (==_false _ q apart)
  Runs-rest (calls o e) q apart = simp (==_false _ q apart)

-- A step brings no signal.
Runs-quiet :
    (s : Processes) (p : ℕ) {u : Processes}
    → Runs s p u
    → (q : ℕ) → s.pending q ≡ false
    → u.pending q ≡ false
Runs-quiet s p (takes m e free) q h = h
Runs-quiet s p (interrupts m r e held sig) q h = h
Runs-quiet s p (releases m e) q h = h
Runs-quiet s p (branches left e) q h = h
Runs-quiet s p (calls o e) q h = elim (Bool-cases (p == q)) [
  | inl same ↦ rw same refl
  | inr other ↦ rw other h
]

-- A mutex that another process holds stays held, and none is given to another process.
module _ (s : Processes) (p : ℕ) (d : IsInOrder s p) (q : ℕ) (apart : p ≢ q) where
  -- The process releases a mutex that it holds.
  mine : (k : ℕ) (x : LockTree) → s.rest p ≡ unlock k x → s.holders k ≡ some p
  unfolding owes
  mine k x e = d.held k (rw (e, ==_refl k))

  pub Runs-held :
      {u : Processes} → Runs s p u → (m : ℕ) → s.holders m ≡ some q → u.holders m ≡ some q
  Runs-held (takes k e free) m h = elim (Bool-cases (k == m)) [
    | inl same ↦
        let equal : k ≡ m = ground arith in
        let clash : none ≡ some q = sym free ∙ rw equal h in absurd (cc)
    | inr other ↦ rw other h
  ]
  Runs-held (releases k {x} e) m h = elim (Bool-cases (k == m)) [
    | inl same ↦
        let equal : k ≡ m = ground arith in
        let clash : some p ≡ some q = sym (mine k x e) ∙ rw equal h in absurd (apart (cc))
    | inr other ↦ rw other h
  ]
  Runs-held (interrupts k r e held sig) m h = h
  Runs-held (branches left e) m h = h
  Runs-held (calls o e) m h = h

  pub Runs-holds :
      {u : Processes} → Runs s p u → (m : ℕ) → u.holders m ≡ some q → s.holders m ≡ some q
  Runs-holds (takes k e free) m h = elim (Bool-cases (k == m)) [
    | inl same ↦ let clash : some p ≡ some q = rw same at h in absurd (apart (cc))
    | inr other ↦ rw other at h
  ]
  Runs-holds (releases k e) m h = elim (Bool-cases (k == m)) [
    | inl same ↦ let clash : none ≡ some q = rw same at h in absurd (cc)
    | inr other ↦ rw other at h
  ]
  Runs-holds (interrupts k r e held sig) m h = h
  Runs-holds (branches left e) m h = h
  Runs-holds (calls o e) m h = h

module _ (s : Processes) (p : ℕ) (d : IsInOrder s p) where
  goes_on :
      (x : LockTree) (holders : ℕ → Option ℕ) (pending : ℕ → Bool)
      → pending p ≡ false
      → IsOrderly x
      → ((m : ℕ) → (owes m x ≡ true) ↔ (holders m ≡ some p))
      → IsInOrder (record (go p x s) { holders = holders; pending = pending }) p
  goes_on x holders pending quiet ordered own = record {
    quiet = quiet;
    ordered = rw (==_refl p) ordered;
    held = rw (==_refl p) λ m. (own m).0;
    holds = rw (==_refl p) λ m. (own m).1;
  }

  pub Runs-IsInOrder : {u : Processes} → Runs s p u → IsInOrder u p
  unfolding owes IsOrderly
  Runs-IsInOrder (takes k {x} {y} e free) =
      let ordered : IsOrderly (lock k x y) = rw e at d.ordered in
      goes_on x _ s.pending d.quiet ordered.2 λ m. elim (Bool-cases (k == m)) [
        | inl same ↦
            let equal : k ≡ m = ground arith in rw same (λ o. refl, λ o. rw (sym equal) ordered.0)
        | inr other ↦
            let kept : owes m (lock k x y) ≡ owes m x = rw other in
            rw other (λ o. d.held m (rw e (kept ∙ o)), λ h. sym kept ∙ rw e at (d.holds m h))
      ]
  Runs-IsInOrder (interrupts k r e held sig) =
      let clash : true ≡ false = sym sig ∙ d.quiet in absurd (cc)
  Runs-IsInOrder (releases k {x} e) =
      let ordered : IsOrderly (unlock k x) = rw e at d.ordered in
      goes_on x _ s.pending d.quiet ordered.1 λ m. elim (Bool-cases (k == m)) [
        | inl same ↦
            let equal : k ≡ m = ground arith in
            let nothing : owes m x ≡ false = rw (sym equal) ordered.0 in
            rw same (λ o. absurd (cc), λ h. let clash : none ≡ some p = h in absurd (cc))
        | inr other ↦
            let kept : owes m (unlock k x) ≡ owes m x = rw other in
            rw other (λ o. d.held m (rw e (kept ∙ o)), λ h. sym kept ∙ rw e at (d.holds m h))
      ]
  Runs-IsInOrder (branches true {x} {y} e) =
      let ordered : IsOrderly (choose x y) = rw e at d.ordered in
      goes_on x s.holders s.pending d.quiet ordered.1
        λ m. (λ o. d.held m (rw e o), λ h. rw e at (d.holds m h))
  Runs-IsInOrder (branches false {x} {y} e) =
      let ordered : IsOrderly (choose x y) = rw e at d.ordered in
      goes_on y s.holders s.pending d.quiet ordered.2 λ m.
        (λ o. d.held m (rw e (ordered.0 m ∙ o)), λ h. sym (ordered.0 m) ∙ rw e at (d.holds m h))
  Runs-IsInOrder (calls o e) =
      goes_on (locks_of o) s.holders (update s.pending p false) (rw (==_refl p) refl)
        (locks_of-IsOrderly o)
        λ m. (
          λ owed. let clash : true ≡ false = sym owed ∙ locks_of-owes o m in absurd (cc),
          λ h. let owed : false ≡ true = rw e at (d.holds m h) in absurd (cc),
        )

-- A step keeps every process in order.
pub Runs-keeps :
    (s : Processes) (p : ℕ) {u : Processes}
    → Runs s p u
    → IsInOrder s p
    → (q : ℕ) → IsInOrder s q
    → IsInOrder u q
Runs-keeps s p step d q others = elim (Bool-cases (p == q)) [
  | inl same ↦ let equal : p ≡ q = ground arith in rw equal at (Runs-IsInOrder s p d step)
  | inr other ↦
      let apart : p ≢ q = ground arith in
      let still = Runs-rest s p step q apart in
      record {
        ordered = rw still others.ordered;
        quiet = Runs-quiet s p step q others.quiet;
        held = λ m o. Runs-held s p d q apart step m (others.held m (rw still at o));
        holds = λ m h. rw still (others.holds m (Runs-holds s p d q apart step m h));
      }
]
