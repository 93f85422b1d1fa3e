-- ===== src/Simple/Locking.antt =====
-- The mutexes of simplefs/simple.c under several processes: each operation as the locks that it takes
-- and releases, with the branch of each `mutex_lock_interruptible` that a signal interrupts.
pub mod Ordered
pub mod Held
pub mod Progress
pub mod Ended
pub mod Kept
pub mod Interrupted
use simplefs.Base.{
  ℕ, zero, suc, ◌≡◌, Bool, true, false, Option, none, some, ◌==◌, if◌then◌else◌, update,
}

-- `lock m go interrupted`; `choose` where the code branches on its data.
pub data LockTree : Type 0 where
  done : LockTree
  lock : ℕ → LockTree → LockTree → LockTree
  unlock : ℕ → LockTree → LockTree
  choose : LockTree → LockTree → LockTree

-- simplefs_sb_lock, simplefs_inodes_mgmt_lock and simplefs_directory_children_update_lock.
abbrev pub sb_lock : ℕ
sb_lock = 0

abbrev pub mgmt_lock : ℕ
mgmt_lock = 1

abbrev pub children_lock : ℕ
children_lock = 2

-- Interrupted in the second lock, the function returns with the first held. `then_do` goes on behind
-- the call, which has no result.
unfoldable pub inode_add_locks : LockTree → LockTree
inode_add_locks then_do =
    lock mgmt_lock (lock sb_lock (unlock sb_lock (unlock mgmt_lock then_do)) then_do) then_do

unfoldable pub inode_del_locks : LockTree → LockTree
inode_del_locks then_do =
    lock mgmt_lock (lock sb_lock (unlock sb_lock (unlock mgmt_lock then_do)) then_do) then_do

-- Interrupted, the function releases the mutex all the same.
unfoldable pub get_a_freeblock_locks : LockTree → LockTree → LockTree
get_a_freeblock_locks found refused =
    lock sb_lock (choose (unlock sb_lock found) (unlock sb_lock refused)) (unlock sb_lock refused)

unfoldable pub get_objects_count_locks : LockTree → LockTree → LockTree
get_objects_count_locks counted refused = lock mgmt_lock (unlock mgmt_lock counted) refused

unfoldable pub get_inode_locks : LockTree → LockTree
get_inode_locks then_do = lock mgmt_lock (unlock mgmt_lock then_do) then_do

unfoldable pub inode_save_locks : LockTree → LockTree → LockTree
inode_save_locks saved failed =
    lock sb_lock (choose (unlock sb_lock saved) (unlock sb_lock failed)) failed

-- The end of a create, which releases both mutexes whether the inode was saved or not.
abbrev pub create_end : LockTree
create_end = unlock mgmt_lock (unlock children_lock done)

-- The parent's count and its saving, behind the directory's record.
unfoldable pub count_children_locks : LockTree
unfolding inode_save_locks
count_children_locks =
    lock mgmt_lock (inode_save_locks create_end create_end) (unlock children_lock done)

unfoldable pub create_locks : LockTree
unfolding inode_add_locks get_a_freeblock_locks get_objects_count_locks count_children_locks
create_locks =
    let refused = unlock children_lock done in
    let allocated = get_a_freeblock_locks (inode_add_locks count_children_locks) refused in
    lock children_lock (get_objects_count_locks (choose refused allocated) refused) done

unfoldable pub unlink_locks : LockTree
unfolding inode_save_locks inode_del_locks
unlink_locks = let deleted = inode_del_locks done in inode_save_locks deleted deleted

-- A write that ends before it sets the size takes no mutex.
unfoldable pub write_locks : LockTree
unfolding inode_save_locks
write_locks =
    let saved = unlock mgmt_lock done in
    choose done (lock mgmt_lock (inode_save_locks saved saved) done)

-- `simplefs_lookup`, where the name is found, and a mount.
unfoldable pub lookup_locks : LockTree
unfolding get_inode_locks
lookup_locks = choose done (get_inode_locks done)

-- The operations: create and mkdir, unlink, write, and lookup; reads and listings take no mutex.
pub data Operation : Type 0 where
  op_create op_unlink op_write op_lookup op_none : Operation

unfoldable pub locks_of : Operation → LockTree
unfolding create_locks unlink_locks write_locks lookup_locks
locks_of op_create = create_locks
locks_of op_unlink = unlink_locks
locks_of op_write = write_locks
locks_of op_lookup = lookup_locks
locks_of op_none = done

-- The process that holds each mutex, what each process has still to do of its call, and whether a
-- signal waits for it.
pub record Processes : Type 0 where
  pub holders : ℕ → Option ℕ
  pub rest : ℕ → LockTree
  pub pending : ℕ → Bool

abbrev pub go : ℕ → LockTree → Processes → Processes
go p x s = record s { rest = update s.rest p x }

-- A step of a process. A mutex that is free is taken, also by a process with a signal; a signal ends
-- the wait for one that is held, and stays until the call is over.
pub data Runs (s : Processes) (p : ℕ) : Processes → Type 0 where
  takes :
      (m : ℕ) {x y : LockTree}
      → s.rest p ≡ lock m x y
      → s.holders m ≡ none
      → Runs s p (record (go p x s) { holders = update s.holders m (some p) })
  interrupts :
      (m q : ℕ) {x y : LockTree}
      → s.rest p ≡ lock m x y
      → s.holders m ≡ some q
      → s.pending p ≡ true
      → Runs s p (go p y s)
  releases :
      (m : ℕ) {x : LockTree}
      → s.rest p ≡ unlock m x
      → Runs s p (record (go p x s) { holders = update s.holders m none })
  branches :
      (left : Bool) {x y : LockTree}
      → s.rest p ≡ choose x y
      → Runs s p (go p (if left then x else y) s)
  -- A process whose call is over has had its signal, and calls again.
  calls :
      (o : Operation)
      → s.rest p ≡ done
      → Runs s p (record (go p (locks_of o) s) { pending = update s.pending p false })

-- A signal comes to a process.
pub data Signals (s : Processes) (p : ℕ) : Processes → Type 0 where
  arrives : Signals s p (record s { pending = update s.pending p true })

abbrev pub idle : Processes
idle = record { holders = λ m. none; rest = λ p. done; pending = λ p. false }

-- The states that are reached without a signal.
pub data Undisturbed : Processes → Type 0 where
  start : Undisturbed idle
  later : {s u : Processes} (p : ℕ) → Undisturbed s → Runs s p u → Undisturbed u

-- The states that follow where no further signal comes.
pub data Follows (s : Processes) : Processes → Type 0 where
  here : Follows s s
  then_runs : {u w : Processes} (p : ℕ) → Follows s u → Runs u p w → Follows s w

-- The states that follow with any signals.
pub data Leads (s : Processes) : Processes → Type 0 where
  at_once : Leads s s
  leads_on : {u w : Processes} (p : ℕ) → Leads s u → Runs u p w → Leads s w
  signalled : {u w : Processes} (p : ℕ) → Leads s u → Signals u p w → Leads s w
