-- ===== src/Simple/Locking/Ordered.antt =====
-- The order in which the operations of simplefs/simple.c take the mutexes.
use simplefs.Base.{ℕ, ◌<◌, ◌≡◌, refl, sym, ap, ◌∙◌, Bool, true, false, ◌==◌, if◌then◌else◌, arith}
use simplefs.Simple.Locking.{
  LockTree, done, lock, unlock, choose, locks_of, Operation, op_create, op_unlink, op_write,
  op_lookup, op_none, create_locks, unlink_locks, write_locks, lookup_locks, inode_add_locks,
  inode_del_locks, get_a_freeblock_locks, inode_save_locks, sb_lock, mgmt_lock, children_lock,
  create_end, count_children_locks,
}

-- Whether the process releases the mutex before it takes it, where no signal comes.
unfoldable pub owes : ℕ → LockTree → Bool
owes m done = false
owes m (lock k x y) = let later = owes m x in if k == m then false else later
owes m (unlock k x) = let later = owes m x in if k == m then true else later
owes m (choose x y) = owes m x

-- Every mutex that is taken is released, and is taken only where none of its number or a lower one
-- is held; both sides of a branch hold the same.
unfoldable pub IsOrderly : LockTree → Type 0
IsOrderly done = Unit {0}
IsOrderly (lock k x y) = (owes k x ≡ true) × ((m : ℕ) → m < k → owes m x ≡ false) × IsOrderly x
IsOrderly (unlock k x) = (owes k x ≡ false) × IsOrderly x
IsOrderly (choose x y) = ((m : ℕ) → owes m x ≡ owes m y) × IsOrderly x × IsOrderly y

-- A function keeps the order where what follows it holds none of the mutexes that it takes.
module _ (x y : LockTree) (ordered : IsOrderly x) (otherwise : IsOrderly y)
    (same : (m : ℕ) → owes m x ≡ owes m y) (without_sb : owes sb_lock x ≡ false) where
  inode_save_locks-IsOrderly : IsOrderly (inode_save_locks x y)
  unfolding IsOrderly owes inode_save_locks
  inode_save_locks-IsOrderly = (
    refl,
    (λ m h. ground arith),
    (
      (λ m. ap (λ (b : Bool). if sb_lock == m then true else b) (same m)),
      (without_sb, ordered),
      (sym (same sb_lock) ∙ without_sb, otherwise),
    ),
  )

  get_a_freeblock_locks-IsOrderly : IsOrderly (get_a_freeblock_locks x y)
  unfolding IsOrderly owes get_a_freeblock_locks
  get_a_freeblock_locks-IsOrderly = (
    refl,
    (λ m h. ground arith),
    (
      (λ m. ap (λ (b : Bool). if sb_lock == m then true else b) (same m)),
      (without_sb, ordered),
      (sym (same sb_lock) ∙ without_sb, otherwise),
    ),
  )

module _ (x : LockTree) (ordered : IsOrderly x) (without_sb : owes sb_lock x ≡ false)
    (without_mgmt : owes mgmt_lock x ≡ false) where
  inode_add_locks-IsOrderly : IsOrderly (inode_add_locks x)
  unfolding IsOrderly owes inode_add_locks
  inode_add_locks-IsOrderly = (
    refl,
    (λ m h. ground arith),
    (refl, (λ m h. ground arith), (without_sb, (without_mgmt, ordered))),
  )

  inode_del_locks-IsOrderly : IsOrderly (inode_del_locks x)
  unfolding IsOrderly owes inode_del_locks
  inode_del_locks-IsOrderly = (
    refl,
    (λ m h. ground arith),
    (refl, (λ m h. ground arith), (without_sb, (without_mgmt, ordered))),
  )

done-IsOrderly : IsOrderly done
unfolding IsOrderly
done-IsOrderly = tt

unlink-IsOrderly : IsOrderly unlink_locks
unfolding unlink_locks owes inode_del_locks inode_save_locks
unlink-IsOrderly =
    let deleted = inode_del_locks-IsOrderly done done-IsOrderly refl refl in
    inode_save_locks-IsOrderly (inode_del_locks done) (inode_del_locks done) deleted deleted
      (λ m. refl) refl

write-IsOrderly : IsOrderly write_locks
unfolding IsOrderly owes write_locks inode_save_locks
write-IsOrderly =
    let saved : IsOrderly (unlock mgmt_lock done) = (refl, tt) in
    (
      (λ m. ground arith),
      tt,
      (
        refl,
        (λ m h. ground arith),
        inode_save_locks-IsOrderly (unlock mgmt_lock done) (unlock mgmt_lock done) saved saved
            (λ m. refl) refl,
      ),
    )

lookup-IsOrderly : IsOrderly lookup_locks
unfolding IsOrderly owes lookup_locks
lookup-IsOrderly = ((λ m. ground arith), tt, (refl, (λ m h. ground arith), (refl, tt)))

refused-IsOrderly : IsOrderly (unlock children_lock done)
unfolding IsOrderly owes
refused-IsOrderly = (refl, tt)

count_children_locks-IsOrderly : IsOrderly count_children_locks
unfolding IsOrderly owes inode_save_locks count_children_locks
count_children_locks-IsOrderly =
    let end : IsOrderly create_end = (refl, (refl, tt)) in
    (
      refl,
      (λ m h. ground arith),
      inode_save_locks-IsOrderly create_end create_end end end (λ m. refl) refl,
    )

allocated-IsOrderly :
    IsOrderly
      (get_a_freeblock_locks (inode_add_locks count_children_locks) (unlock children_lock done))
unfolding owes count_children_locks inode_add_locks
allocated-IsOrderly =
    get_a_freeblock_locks-IsOrderly (inode_add_locks count_children_locks)
      (unlock children_lock done)
      (inode_add_locks-IsOrderly count_children_locks count_children_locks-IsOrderly refl refl)
      refused-IsOrderly (λ m. ground arith) refl

create-IsOrderly : IsOrderly create_locks
unfolding IsOrderly owes create_locks get_a_freeblock_locks inode_add_locks count_children_locks
create-IsOrderly = (
  refl,
  (λ m h. ground arith),
  (
    refl,
    (λ m h. ground arith),
    (refl, ((λ m. ground arith), refused-IsOrderly, allocated-IsOrderly)),
  ),
)

pub locks_of-IsOrderly : (o : Operation) → IsOrderly (locks_of o)
unfolding locks_of IsOrderly
locks_of-IsOrderly op_create = create-IsOrderly
locks_of-IsOrderly op_unlink = unlink-IsOrderly
locks_of-IsOrderly op_write = write-IsOrderly
locks_of-IsOrderly op_lookup = lookup-IsOrderly
locks_of-IsOrderly op_none = tt

pub locks_of-owes : (o : Operation) (m : ℕ) → owes m (locks_of o) ≡ false
unfolding owes locks_of
locks_of-owes op_create m = ground arith
locks_of-owes op_unlink m = ground arith
locks_of-owes op_write m = ground arith
locks_of-owes op_lookup m = ground arith
locks_of-owes op_none m = refl
