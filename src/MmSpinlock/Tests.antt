-- ===== src/MmSpinlock/Tests.antt =====
-- The theorem about mm_spinlock/mm_spinlock.c at concrete heaps.
use simplefs.Base.{ℕ, ◌+◌, ◌≤◌, ◌≡◌, refl, List, [], ◌++◌, Option, none, some, length, arith}
use simplefs.MmSpinlock.Store.{
  Heap, rounds, remove, kfree, memset_zero, kmalloc, store_round, store_loop, workqueue_proc_store,
}
use simplefs.MmSpinlock.Leak.{workqueue_proc_store-ends}

abbrev empty_heap : Heap
empty_heap = record { calls = 0; live = []; contents = λ p. [] }

-- Every call gets a block at an address of its own.
abbrev plenty : ℕ → List ℕ → ℕ
plenty n live = n + 1

workqueue_proc_store-ends_example :
    (u : Heap) × (lost : List ℕ) × (workqueue_proc_store plenty 128 1 empty_heap ≡ some (u, 1))
    × (u.live ≡ lost ++ [])
    × (u.calls ≡ 0 + rounds + length lost)
    × (length lost ≤ rounds)
workqueue_proc_store-ends_example = workqueue_proc_store-ends plenty 128 1 empty_heap (omega arith)

abbrev lost_by : (ℕ → List ℕ → ℕ) → Option ℕ
lost_by answer = elim (workqueue_proc_store answer 128 1 empty_heap) [
  | none ↦ none
  | some (u, count) ↦ some (length u.live)
]

-- With memory for every call a write of the file loses 128 blocks, a mebibyte.
loses_all : lost_by plenty ≡ some 128
unfolding workqueue_proc_store store_loop store_round memset_zero kmalloc kfree remove
loses_all = refl

loses_none : lost_by (λ n live. 0) ≡ some 0
unfolding workqueue_proc_store store_loop store_round memset_zero kmalloc kfree remove
loses_none = refl
