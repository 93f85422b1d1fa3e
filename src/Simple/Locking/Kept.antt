-- ===== src/Simple/Locking/Kept.antt =====
-- Who releases the inode store's mutex in simplefs/simple.c, with the branches that signals take.
use simplefs.Base.{
  ℕ, ◌≡◌, ◌≢◌, refl, sym, Bool, true, false, ◌&&◌, Option, none, some, ◌==◌, ==_refl, ==_false,
  if◌then◌else◌, update, update_cases, Bool-cases, inl, inr, arith,
}
use simplefs.Simple.Locking.{
  LockTree, done, lock, unlock, choose, mgmt_lock, locks_of, Operation, op_create, op_unlink,
  op_write, op_lookup, op_none, create_locks, unlink_locks, write_locks, lookup_locks,
  inode_add_locks, inode_del_locks, get_a_freeblock_locks, get_objects_count_locks, get_inode_locks,
  inode_save_locks, count_children_locks, Processes, Runs, takes, interrupts, releases, branches,
  calls, Signals, arrives, idle, Leads, at_once, leads_on, signalled,
}

-- What is left of a call releases the inode store's mutex only where it holds it: `held` says whether
-- it does now.
unfoldable pub keeps : Bool → LockTree → Bool
keeps held done = true
keeps held (lock k x y) =
    let took = keeps true x in
    let passed = keeps held x in
    let other = keeps held y in (if k == mgmt_lock then took else passed) && other
keeps held (unlock k x) =
    let dropped = keeps false x in
    let passed = keeps held x in if k == mgmt_lock then held && dropped else passed
keeps held (choose x y) = let left = keeps held x in let right = keeps held y in left && right

and_true : (a b : Bool) → (a && b) ≡ true → (a ≡ true) × (b ≡ true)
and_true true true e = (refl, refl)
and_true true false e = absurd (cc)
and_true false b e = absurd (cc)

pub keeps-locks_of : (held : Bool) (o : Operation) → keeps held (locks_of o) ≡ true
unfolding keeps locks_of create_locks unlink_locks write_locks lookup_locks inode_add_locks
    inode_del_locks get_a_freeblock_locks get_objects_count_locks get_inode_locks inode_save_locks
    count_children_locks
keeps-locks_of true op_create = refl
keeps-locks_of true op_unlink = refl
keeps-locks_of true op_write = refl
keeps-locks_of true op_lookup = refl
keeps-locks_of true op_none = refl
keeps-locks_of false op_create = refl
keeps-locks_of false op_unlink = refl
keeps-locks_of false op_write = refl
keeps-locks_of false op_lookup = refl
keeps-locks_of false op_none = refl

-- What is left behind a step of a call that does not hold the mutex.
module _ (held : Bool) (k : ℕ) (x y : LockTree) where
  pub keeps-mgmt : k ≡ mgmt_lock → keeps held (lock k x y) ≡ true → keeps true x ≡ true
  unfolding keeps
  keeps-mgmt same h =
      let is : (k == mgmt_lock) ≡ true = ground (arith, same) in (and_true _ _ (rw is at h)).0

  pub keeps-other : k ≢ mgmt_lock → keeps held (lock k x y) ≡ true → keeps held x ≡ true
  unfolding keeps
  keeps-other apart h = (and_true _ _ (rw (==_false k mgmt_lock apart) at h)).0

  pub keeps-interrupted : keeps held (lock k x y) ≡ true → keeps held y ≡ true
  unfolding keeps
  keeps-interrupted h = (and_true _ _ h).1

  pub keeps-left : keeps held (choose x y) ≡ true → (keeps held x ≡ true) × (keeps held y ≡ true)
  unfolding keeps
  keeps-left h = and_true _ _ h

module _ (held : Bool) (k : ℕ) (x : LockTree) where
  pub keeps-unlocked :
      k ≡ mgmt_lock → keeps held (unlock k x) ≡ true → (held ≡ true) × (keeps false x ≡ true)
  unfolding keeps
  keeps-unlocked same h =
      let is : (k == mgmt_lock) ≡ true = ground (arith, same) in and_true _ _ (rw is at h)

  pub keeps-released : k ≢ mgmt_lock → keeps held (unlock k x) ≡ true → keeps held x ≡ true
  unfolding keeps
  keeps-released apart h = rw (==_false k mgmt_lock apart) at h

-- Whether the process is the holder.
abbrev pub is_holder : Option ℕ → ℕ → Bool
is_holder none q = false
is_holder (some p) q = p == q

unfoldable pub IsKept : Processes → Type 0
IsKept s = (q : ℕ) → keeps (is_holder (s.holders mgmt_lock) q) (s.rest q) ≡ true

module _ (s : Processes) (p : ℕ) (kept : IsKept s) where
  -- The process goes on to `x`, and nothing changes for the others.
  goes_on :
      (x : LockTree) (o : Option ℕ)
      → keeps (is_holder o p) x ≡ true
      → ((q : ℕ) → p ≢ q → is_holder o q ≡ is_holder (s.holders mgmt_lock) q)
      → (q : ℕ) → keeps (is_holder o q) (update s.rest p x q) ≡ true
  unfolding IsKept
  goes_on x o own same =
      update_cases (λ q y. keeps (is_holder o q) y ≡ true) s.rest p x own
        (λ q apart. rw (same q apart) (kept q))

  Runs-IsKept : {u : Processes} → Runs s p u → IsKept u
  unfolding IsKept
  Runs-IsKept (takes k {x} {y} e free) =
      let before : keeps (is_holder (s.holders mgmt_lock) p) (lock k x y) ≡ true =
        rw e at (kept p) in
      elim (Bool-cases (k == mgmt_lock)) [
        | inl same ↦
            let is : k ≡ mgmt_lock = ground arith in
            let none_holds : s.holders mgmt_lock ≡ none = rw is at free in
            rw same (
              goes_on x (some p) (rw (==_refl p) (keeps-mgmt _ k x y is before))
                (λ q apart. rw (none_holds, ==_false p q apart) refl))
        | inr other ↦
            let apart : k ≢ mgmt_lock = ground arith in
            rw other
              (goes_on x (s.holders mgmt_lock) (keeps-other _ k x y apart before) (λ q far. refl))
      ]
  Runs-IsKept (interrupts k r {x} {y} e held sig) =
      let before : keeps (is_holder (s.holders mgmt_lock) p) (lock k x y) ≡ true =
        rw e at (kept p) in
      goes_on y (s.holders mgmt_lock) (keeps-interrupted _ k x y before) (λ q far. refl)
  Runs-IsKept (releases k {x} e) =
      let before : keeps (is_holder (s.holders mgmt_lock) p) (unlock k x) ≡ true =
        rw e at (kept p) in
      elim (Bool-cases (k == mgmt_lock)) [
        | inl same ↦
            let is : k ≡ mgmt_lock = ground arith in
            let (own, left) = keeps-unlocked _ k x is before in
            rw same
              (goes_on x none left (λ q apart. sym (not_holder (s.holders mgmt_lock) own q apart)))
        | inr other ↦
            let apart : k ≢ mgmt_lock = ground arith in
            rw other
              (goes_on x (s.holders mgmt_lock) (keeps-released _ k x apart before) (λ q far. refl))
      ]
    where
      not_holder : (o : Option ℕ) → is_holder o p ≡ true → (q : ℕ) → p ≢ q → is_holder o q ≡ false
      not_holder none own q apart = refl
      not_holder (some r) own q apart = ground arith
  Runs-IsKept (branches true {x} {y} e) =
      goes_on x (s.holders mgmt_lock) (keeps-left _ 0 x y (rw e at (kept p))).0 (λ q far. refl)
  Runs-IsKept (branches false {x} {y} e) =
      goes_on y (s.holders mgmt_lock) (keeps-left _ 0 x y (rw e at (kept p))).1 (λ q far. refl)
  Runs-IsKept (calls o e) =
      goes_on (locks_of o) (s.holders mgmt_lock) (keeps-locks_of _ o) (λ q far. refl)

  Signals-IsKept : {u : Processes} → Signals s p u → IsKept u
  unfolding IsKept
  Signals-IsKept arrives q = kept q

pub Leads-IsKept : (s : Processes) → Leads idle s → IsKept s
unfolding IsKept keeps
Leads-IsKept s at_once q = refl
Leads-IsKept u (leads_on {u = s} p before step) q = Runs-IsKept s p (Leads-IsKept s before) step q
Leads-IsKept u (signalled {u = s} p before signal) q =
    Signals-IsKept s p (Leads-IsKept s before) signal q

-- The process holds the inode store's mutex, and nobody releases it.
pub record IsLost (s : Processes) (p : ℕ) : Type 0 where
  pub mgmt : s.holders mgmt_lock ≡ some p
  pub spared : (q : ℕ) → keeps false (s.rest q) ≡ true

module _ (s : Processes) (r : ℕ) (lost : IsLost s r) (p : ℕ) where
  left_over :
      (x : LockTree) → keeps false x ≡ true → (q : ℕ) → keeps false (update s.rest p x q) ≡ true
  left_over x own =
      update_cases (λ q y. keeps false y ≡ true) s.rest p x own (λ q apart. lost.spared q)

  Runs-IsLost : {u : Processes} → Runs s p u → IsLost u r
  Runs-IsLost (takes k {x} {y} e free) =
      let apart : k ≢ mgmt_lock = λ same. cc (lost.mgmt, rw same at free) in
      record {
        mgmt = rw (==_false k mgmt_lock apart) lost.mgmt;
        spared = left_over x (keeps-other false k x y apart (rw e at (lost.spared p)));
      }
  Runs-IsLost (interrupts k o {x} {y} e held sig) = record {
    mgmt = lost.mgmt;
    spared = left_over y (keeps-interrupted false k x y (rw e at (lost.spared p)));
  }
  Runs-IsLost (releases k {x} e) =
      let before : keeps false (unlock k x) ≡ true = rw e at (lost.spared p) in
      let apart : k ≢ mgmt_lock = λ same. cc (keeps-unlocked false k x same before).0 in
      record {
        mgmt = rw (==_false k mgmt_lock apart) lost.mgmt;
        spared = left_over x (keeps-released false k x apart before);
      }
  Runs-IsLost (branches true {x} {y} e) = record {
    mgmt = lost.mgmt;
    spared = left_over x (keeps-left false 0 x y (rw e at (lost.spared p))).0;
  }
  Runs-IsLost (branches false {x} {y} e) = record {
    mgmt = lost.mgmt;
    spared = left_over y (keeps-left false 0 x y (rw e at (lost.spared p))).1;
  }
  Runs-IsLost (calls o e) = record {
    mgmt = lost.mgmt;
    spared = left_over (locks_of o) (keeps-locks_of false o);
  }

  stays-IsLost : {u : Processes} → Signals s p u → IsLost u r
  stays-IsLost arrives = record { mgmt = lost.mgmt; spared = lost.spared }

pub Leads-IsLost : (s w : Processes) (p : ℕ) → IsLost s p → Leads s w → IsLost w p
Leads-IsLost s w p lost at_once = lost
Leads-IsLost s w p lost (leads_on {u = v} q before step) =
    Runs-IsLost v p (Leads-IsLost s v p lost before) q step
Leads-IsLost s w p lost (signalled {u = v} q before signal) =
    stays-IsLost v p (Leads-IsLost s v p lost before) q signal
