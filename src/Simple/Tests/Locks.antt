-- ===== src/Simple/Tests/Locks.antt =====
-- Two processes on the mutexes of simplefs/simple.c: one creates, the other unlinks.
use simplefs.Base.{some, ℕ, ◌≤◌, ==_false, ◌≡◌, refl, true, false, none, arith}
use simplefs.Simple.Locking.{
  arrives, Leads, at_once, leads_on, signalled, idle, start, mgmt_lock, interrupts, done, unlock,
  sb_lock, mgmt_lock, children_lock, count_children_locks, create_locks, unlink_locks,
  inode_add_locks, locks_of, op_create, op_unlink, Processes, Runs, takes, releases, branches,
  calls, Signals, interrupts, Undisturbed, start, later, Follows,
}
use simplefs.Simple.Locking.Ordered.{owes}
use simplefs.Simple.Locking.Progress.{Progresses, Undisturbed-Progresses}
use simplefs.Simple.Locking.Ended.{IsIdle, Undisturbed-IsIdle}
use simplefs.Simple.Locking.Interrupted.{behind_lock, interrupted_add, Signals-releases}

abbrev Reached : Type 0
Reached = (s : Processes) × Undisturbed s

-- The create asks for a free block.
asks : Reached
unfolding locks_of create_locks
asks = (
  _,
  later 0
      (later 0
        (later 0 (later 0 (later 0 start (calls op_create refl)) (takes children_lock refl refl))
          (takes mgmt_lock refl refl))
        (releases mgmt_lock refl))
      (branches false refl),
)

-- The unlink saves the directory, while the create asks for a free block.
asks_beside : Reached
unfolding asks locks_of unlink_locks
asks_beside = (_, later 1 (later 1 asks.1 (calls op_unlink refl)) (takes sb_lock refl refl))

-- The create adds its inode, and the unlink then saves the directory.
adds_beside : Reached
unfolding asks locks_of unlink_locks create_locks
adds_beside = (
  _,
  later 1
      (later 1
        (later 0
          (later 0 (later 0 (later 0 asks.1 (takes sb_lock refl refl)) (branches true refl))
            (releases sb_lock refl))
          (takes mgmt_lock refl refl))
        (calls op_unlink refl))
      (takes sb_lock refl refl),
)

unlink_beside : Progresses asks_beside.0
unfolding asks_beside asks locks_of unlink_locks create_locks
unlink_beside = Undisturbed-Progresses asks_beside.0 asks_beside.1 0 λ e. cc e

Undisturbed-Leads : (s : Processes) → Undisturbed s → Leads idle s
Undisturbed-Leads s start = at_once
Undisturbed-Leads u (later {s} p before step) = leads_on p (Undisturbed-Leads s before) step

-- A signal comes to the create, which goes on behind `simplefs_inode_add`.
signalled_create : (u : Processes) × Leads idle u
unfolding adds_beside asks locks_of create_locks unlink_locks
signalled_create = (_, signalled 0 (Undisturbed-Leads adds_beside.0 adds_beside.1) arrives)

gone_on : (u : Processes) × Runs signalled_create.0 0 u
unfolding signalled_create adds_beside asks locks_of create_locks unlink_locks
gone_on = (_, interrupts sb_lock 1 refl refl refl)

-- The unlink then releases the superblock's mutex.
after_signal : (w : Processes) × Leads gone_on.0 w
unfolding gone_on signalled_create adds_beside asks locks_of create_locks unlink_locks
after_signal = (_, leads_on 1 (leads_on 1 at_once (branches true refl)) (releases sb_lock refl))

interrupted_add_example :
    (after_signal.0.holders mgmt_lock ≡ some 0)
    × ((v : Processes) × Follows gone_on.0 v × (v.rest 0 ≡ done) × (v.holders children_lock ≡ none))
unfolding behind_lock inode_add_locks signalled_create adds_beside asks locks_of create_locks
    unlink_locks
interrupted_add_example =
    interrupted_add signalled_create.0 gone_on.0 after_signal.0 0 1 signalled_create.1 refl refl
      gone_on.1 after_signal.1

signalled_request : (u : Processes) × Signals asks_beside.0 0 u
unfolding asks_beside asks locks_of create_locks unlink_locks
signalled_request = (_, arrives)

Signals-releases_example :
    (v : Processes) × (w : Processes) × Runs signalled_request.0 0 v
    × Runs v 0 w
    × (w.holders sb_lock ≡ none)
    × (owes sb_lock (w.rest 1) ≡ true)
unfolding asks_beside asks locks_of create_locks unlink_locks
Signals-releases_example =
    Signals-releases asks_beside.0 0 1 signalled_request.0 (inode_add_locks count_children_locks)
      (unlock children_lock done) asks_beside.1 (ground arith) refl refl signalled_request.1

others_done : (p : ℕ) → 2 ≤ p → asks_beside.0.rest p ≡ done
unfolding asks_beside asks locks_of create_locks unlink_locks
others_done p high = simp (==_false 0 p (ground arith), ==_false 1 p (ground arith))

Undisturbed-IsIdle_example : (w : Processes) × Follows asks_beside.0 w × IsIdle w
Undisturbed-IsIdle_example = Undisturbed-IsIdle 2 asks_beside.0 asks_beside.1 others_done
