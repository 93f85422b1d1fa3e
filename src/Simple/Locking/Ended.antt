-- ===== src/Simple/Locking/Ended.antt =====
-- The calls of simplefs/simple.c that no signal interrupts can all be completed, from every state.
use simplefs.Base.{
  ℕ, zero, suc, ◌+◌, ◌≤◌, ◌<◌, ◌≡◌, ◌≢◌, ◌⊎◌, refl, ◌∙◌, ap, true, false, none, ◌==◌, ==_refl, ltb,
  Bool-cases, Option-cases, inl, inr, arith,
}
use simplefs.Simple.Locking.{
  LockTree, done, lock, unlock, choose, Processes, Runs, takes, interrupts, releases, branches,
  calls, Undisturbed, later, Follows, here, then_runs,
}
use simplefs.Simple.Locking.Ordered.{owes}
use simplefs.Simple.Locking.Held.{Runs-rest}
use simplefs.Simple.Locking.Progress.{Progresses, Undisturbed-IsInOrder, Undisturbed-Progresses}

-- How many steps are left at most.
depth : LockTree → ℕ
depth done = 0
depth (lock k x y) = suc (depth x + depth y)
depth (unlock k x) = suc (depth x)
depth (choose x y) = suc (depth x + depth y)

-- The steps that the processes below `n` have left.
total : ℕ → Processes → ℕ
total zero s = 0
total (suc n) s = depth (s.rest n) + total n s

Runs-depth :
    (s : Processes) (p : ℕ) {u : Processes}
    → Runs s p u
    → s.rest p ≢ done
    → depth (u.rest p) < depth (s.rest p)
unfolding depth
Runs-depth s p (takes k e free) busy = rw (==_refl p, e) (omega arith)
Runs-depth s p (interrupts k q e held sig) busy = rw (==_refl p, e) (omega arith)
Runs-depth s p (releases k e) busy = rw (==_refl p, e) (omega arith)
Runs-depth s p (branches true e) busy = rw (==_refl p, e) (omega arith)
Runs-depth s p (branches false e) busy = rw (==_refl p, e) (omega arith)
Runs-depth s p (calls o e) busy = absurd (busy e)

module _ (s u : Processes) (p : ℕ) (others : (q : ℕ) → p ≢ q → u.rest q ≡ s.rest q) where
  total_same : (n : ℕ) → n ≤ p → total n u ≡ total n s
  unfolding total
  total_same zero below = refl
  total_same (suc n) below =
      let same : depth (u.rest n) ≡ depth (s.rest n) = ap depth (others n (omega arith)) in
      omega (arith, same, total_same n (omega arith))

  total_less : (n : ℕ) → p < n → depth (u.rest p) < depth (s.rest p) → total n u < total n s
  unfolding total
  total_less zero below less = absurd (omega arith)
  total_less (suc n) below less = elim (Bool-cases (p == n)) [
    | inl same ↦
        let e : p ≡ n = ground arith in
        let less_n : depth (u.rest n) < depth (s.rest n) = rw e at less in
        omega (arith, less_n, total_same n (omega (arith, e)))
    | inr apart ↦
        let e : p ≢ n = ground arith in
        let same : depth (u.rest n) ≡ depth (s.rest n) = ap depth (others n e) in
        omega (arith, same, total_less n (omega (arith, e)) less)
  ]

is_done : (x : LockTree) → (x ≡ done) ⊎ (x ≢ done)
is_done done = inl refl
is_done (lock k x y) = inr λ e. cc e
is_done (unlock k x) = inr λ e. cc e
is_done (choose x y) = inr λ e. cc e

-- Either all processes below `n` are done, or one is busy.
find_busy :
    (s : Processes) (n : ℕ) → ((p : ℕ) → p < n → s.rest p ≡ done) ⊎ ((p : ℕ) × (s.rest p ≢ done))
find_busy s zero = inl λ p below. absurd (omega arith)
find_busy s (suc n) = elim (is_done (s.rest n)) [
  | inr busy ↦ inr (n, busy)
  | inl over ↦ elim (find_busy s n) [
    | inr busy ↦ inr busy
    | inl all ↦ inl λ p below. elim (Bool-cases (p == n)) [
      | inl same ↦ let e : p ≡ n = ground arith in rw e over
      | inr apart ↦ all p (ground arith)
    ]
  ]
]

Follows-after : (s : Processes) (p : ℕ) (u w : Processes) → Runs s p u → Follows u w → Follows s w
Follows-after s p u w step here = then_runs p here step
Follows-after s p u w step (then_runs {u = v} q before next) =
    then_runs q (Follows-after s p u v step before) next

-- No call is under way and no mutex is held.
pub record IsIdle (s : Processes) : Type 0 where
  pub over : (p : ℕ) → s.rest p ≡ done
  pub free : (m : ℕ) → s.holders m ≡ none

over-IsIdle : (s : Processes) → Undisturbed s → ((p : ℕ) → s.rest p ≡ done) → IsIdle s
unfolding owes
over-IsIdle s reached over = record {
  over = over;
  free = λ m. elim (Option-cases (s.holders m)) [
    | inl free ↦ free
    | inr held ↦
        let owed : false ≡ true =
          rw (over held.0) at ((Undisturbed-IsInOrder s reached held.0).holds m held.1) in
        absurd (cc)
  ];
}

Drains : Processes → Type 0
Drains s = (w : Processes) × Follows s w × IsIdle w

module _ (n : ℕ) where
  -- One step of a call that is under way, and then the steps that are left.
  busy-Drains :
      (fuel : ℕ) (s : Processes)
      → ((u : Processes)
          → Undisturbed u
          → ((p : ℕ) → n ≤ p → u.rest p ≡ done)
          → total n u < fuel
          → Drains u)
      → Undisturbed s
      → ((p : ℕ) → n ≤ p → s.rest p ≡ done)
      → total n s ≤ fuel
      → (p : ℕ) → s.rest p ≢ done
      → Drains s
  unfolding Drains Progresses
  busy-Drains fuel s recurse reached idle bound p busy =
      let (q, active, u, step) = Undisturbed-Progresses s reached p busy in
      let others = Runs-rest s q step in
      let below : q < n = elim (Bool-cases (ltb q n)) [
        | inl low ↦ ground arith
        | inr high ↦ absurd (active (idle q (ground arith)))
      ] in
      let less : total n u < total n s =
        total_less s u q others n below (Runs-depth s q step active) in
      let (w, after, ended) =
        recurse u (later q reached step) (λ j high. others j (λ e. ground (arith, e)) ∙ idle j high)
          (omega (arith, less)) in
      (w, Follows-after s q u w step after, ended)

  step-Drains :
      (fuel : ℕ) (s : Processes)
      → ((u : Processes)
          → Undisturbed u
          → ((p : ℕ) → n ≤ p → u.rest p ≡ done)
          → total n u < fuel
          → Drains u)
      → Undisturbed s
      → ((p : ℕ) → n ≤ p → s.rest p ≡ done)
      → total n s ≤ fuel
      → Drains s
  unfolding Drains
  step-Drains fuel s recurse reached idle bound = elim (find_busy s n) [
    | inl over ↦ (
      s,
      here,
      over-IsIdle s reached λ p. elim (Bool-cases (ltb p n)) [
        | inl low ↦ over p (ground arith)
        | inr high ↦ idle p (ground arith)
      ],
    )
    | inr busy ↦ busy-Drains fuel s recurse reached idle bound busy.0 busy.1
  ]

  fuel-Drains :
      (fuel : ℕ) (s : Processes)
      → Undisturbed s
      → ((p : ℕ) → n ≤ p → s.rest p ≡ done)
      → total n s ≤ fuel
      → Drains s
  fuel-Drains zero s reached idle bound =
      step-Drains zero s (λ u r i less. absurd (omega (arith, less))) reached idle bound
  fuel-Drains (suc f) s reached idle bound =
      step-Drains (suc f) s (λ u r i less. fuel-Drains f u r i (omega (arith, less))) reached idle
        bound

-- Where no signal comes, no set of calls waits for ever: from every state that finitely many
-- processes reach with creates, unlinks, writes and lookups, however their steps interleave, there
-- are further steps behind which every call is over and no mutex is held.
pub Undisturbed-IsIdle :
    (n : ℕ) (s : Processes)
    → Undisturbed s
    → ((p : ℕ) → n ≤ p → s.rest p ≡ done)
    → (w : Processes) × Follows s w × IsIdle w
unfolding Drains
Undisturbed-IsIdle n s reached idle = fuel-Drains n (total n s) s reached idle (omega arith)
