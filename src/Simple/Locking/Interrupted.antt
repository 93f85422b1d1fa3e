-- ===== src/Simple/Locking/Interrupted.antt =====
-- What a signal does to a create of simplefs/simple.c that waits for the second lock of
-- `simplefs_inode_add` or for the lock of `simplefs_sb_get_a_freeblock`.
use simplefs.Base.{
  ℕ, ◌≡◌, ◌≢◌, refl, sym, ap, true, false, none, some, ◌==◌, ==_refl, ==_false, Bool-cases,
  Option-cases, inl, inr, arith,
}
use simplefs.Simple.Locking.{
  LockTree, get_a_freeblock_locks, inode_add_locks, inode_save_locks, done, choose, lock, unlock,
  sb_lock, mgmt_lock, children_lock, count_children_locks, Processes, go, Runs, takes, interrupts,
  releases, branches, calls, Signals, arrives, idle, Undisturbed, Follows, here, then_runs, Leads,
}
use simplefs.Simple.Locking.Ordered.{owes}
use simplefs.Simple.Locking.Progress.{Undisturbed-IsInOrder}
use simplefs.Simple.Locking.Kept.{keeps, IsKept, Leads-IsKept, IsLost, Leads-IsLost}

-- What is left behind the first lock, once it is held.
unfoldable pub behind_lock : LockTree → LockTree
behind_lock (lock m x y) = x
behind_lock (unlock m x) = x
behind_lock (choose x y) = x
behind_lock done = done

-- In `simplefs_inode_add`, called by a create, where the second mutex is asked for.
abbrev pub Adds : Processes → ℕ → Type 0
Adds s p = s.rest p ≡ behind_lock (inode_add_locks count_children_locks)

module _ (s : Processes) (p : ℕ) (kept : IsKept s) where
  -- The process holds the inode store's mutex there, and it alone.
  holds_mgmt : Adds s p → s.holders mgmt_lock ≡ some p
  unfolding IsKept keeps behind_lock inode_add_locks count_children_locks inode_save_locks
  holds_mgmt adds = elim (Option-cases (s.holders mgmt_lock)) [
    | inl free ↦ let clash : false ≡ true = rw (adds, free) at (kept p) in absurd (cc)
    | inr held ↦ elim (Bool-cases (held.0 == p)) [
      | inl same ↦ let e : held.0 ≡ p = ground arith in rw (sym e) held.1
      | inr other ↦ let clash : false ≡ true = rw (adds, held.1, other) at (kept p) in absurd (cc)
    ]
  ]

  -- The call goes on behind `simplefs_inode_add`, where nobody releases that mutex.
  after_add-IsLost : Adds s p → IsLost (go p count_children_locks s) p
  unfolding IsKept keeps count_children_locks inode_save_locks
  after_add-IsLost adds =
      let mine = holds_mgmt adds in
      record {
        mgmt = mine;
        spared = λ q. elim (Bool-cases (p == q)) [
          | inl same ↦ rw same refl
          | inr other ↦ rw other (rw (mine, other) at (kept q))
        ];
      }

module _ (s : Processes) (p q : ℕ) (adds : Adds s p) (held : s.holders sb_lock ≡ some q) where
  -- The only step of a wait for a mutex that is held.
  after_add :
      {u : Processes} → Runs s p u → (u ≡ go p count_children_locks s) × (u.pending p ≡ true)
  unfolding behind_lock inode_add_locks
  after_add (takes m e free) = absurd (cc (adds, e, free, held))
  after_add (interrupts m r {x} {y} e h sig) =
      let left : y ≡ count_children_locks = cc (adds, e) in (ap (λ z. go p z s) left, sig)
  after_add (releases m e) = absurd (cc (adds, e))
  after_add (branches left e) = absurd (cc (adds, e))
  after_add (calls o e) = absurd (cc (adds, e))

-- Where its signal still waits, the call cannot take the inode store's mutex, which it holds, gives
-- up, and is over.
gives_up :
    (u : Processes) (p : ℕ)
    → u.rest p ≡ count_children_locks
    → u.holders mgmt_lock ≡ some p
    → u.pending p ≡ true
    → (v : Processes) × Follows u v × (v.rest p ≡ done) × (v.holders children_lock ≡ none)
unfolding count_children_locks
gives_up u p waits mine sig =
    let next = unlock children_lock done in
    (
      _,
      then_runs p (then_runs p here (interrupts mgmt_lock p waits mine sig))
          (releases children_lock {x = done} (rw (==_refl p) refl)),
      rw (==_refl p) refl,
      refl,
    )

-- A create, in any state that the processes reach with any signals, that waits for the second lock of
-- `simplefs_inode_add`, which is held, and makes a step: then there are steps that end its call, with
-- the mutex of the directories' children released; but in every state that follows, whatever the
-- processes do and whatever signals come, the process holds the inode store's mutex.
pub interrupted_add :
    (s u w : Processes) (p q : ℕ)
    → Leads idle s
    → Adds s p
    → s.holders sb_lock ≡ some q
    → Runs s p u
    → Leads u w
    → (w.holders mgmt_lock ≡ some p)
      × ((v : Processes) × Follows u v × (v.rest p ≡ done) × (v.holders children_lock ≡ none))
interrupted_add s u w p q reached adds held step after =
    let (next, sig) = after_add s p q adds held step in
    let lost : IsLost u p = rw next (after_add-IsLost s p (Leads-IsKept s reached) adds) in
    let waits : u.rest p ≡ count_children_locks = rw (next, ==_refl p) refl in
    ((Leads-IsLost u w p lost after).mgmt, gives_up u p waits lost.mgmt sig)

-- A create that waits for the lock of `simplefs_sb_get_a_freeblock`, while another process holds the
-- superblock's mutex, and to which a signal comes, releases that mutex all the same: two steps behind
-- the signal the mutex is free, so that a further process can take it, while the other process has
-- still to release it.
pub Signals-releases :
    (s : Processes) (p q : ℕ) (u : Processes) (found refused : LockTree)
    → Undisturbed s
    → p ≢ q
    → s.rest p ≡ get_a_freeblock_locks found refused
    → s.holders sb_lock ≡ some q
    → Signals s p u
    → (v : Processes) × (w : Processes) × Runs u p v
      × Runs v p w
      × (w.holders sb_lock ≡ none)
      × (owes sb_lock (w.rest q) ≡ true)
unfolding get_a_freeblock_locks
Signals-releases s p q u found refused reached apart asks held arrives =
    let owed = (Undisturbed-IsInOrder s reached q).holds sb_lock held in
    (
      _,
      _,
      interrupts sb_lock q asks held (rw (==_refl p) refl),
      releases sb_lock {x = refused} (rw (==_refl p) refl),
      refl,
      rw (==_false p q apart) owed,
    )
