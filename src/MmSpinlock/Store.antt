-- ===== src/MmSpinlock/Store.antt =====
-- mm_spinlock/mm_spinlock.c as it is built, with MM_LEAK_DEBUG alone defined: the loop of the file's
-- write, and what loading and unloading the module leaves behind.
use simplefs.Base.{
  ℕ, zero, suc, ◌+◌, ◌*◌, ◌/◌, List, [], ◌∷◌, replicate, Bool, true, Option, none, some, ◌==◌, ltb,
  if◌then◌else◌, update,
}

-- The allocator's side: how many calls it has answered, which blocks are not freed, and their bytes.
pub record Heap : Type 0 where
  pub calls : ℕ
  pub live : List ℕ
  pub contents : ℕ → List ℕ

abbrev pub size : ℕ
size = 8 * 1024

-- `i < 1024/8`
abbrev pub rounds : ℕ
rounds = 1024 / 8

unfoldable pub remove : ℕ → List ℕ → List ℕ
remove p [] = []
remove p (q ∷ qs) = let rest = remove p qs in if q == p then qs else q ∷ rest

-- NULL, which is 0, is not freed.
unfoldable pub kfree : ℕ → Heap → Heap
kfree p h = if p == 0 then h else record h { live = remove p h.live }

pub zero_block : List ℕ
zero_block = replicate size 0

unfoldable pub memset_zero : ℕ → Heap → Heap
memset_zero p h = record h { contents = update h.contents p zero_block }

-- `answer n live`: what the kernel gives for the `n`-th call, 0 where it has no memory.
module _ (answer : ℕ → List ℕ → ℕ) where
  unfoldable pub kmalloc : Heap → Heap × ℕ
  kmalloc h =
      let p = answer h.calls h.live in
      let live = if p == 0 then h.live else p ∷ h.live in
      (record h { calls = h.calls + 1; live = live }, p)

  unfoldable pub store_round : Heap → Heap
  store_round h =
      let (h', mm) = kmalloc h in
      if mm == 0 then h' else (let (h'', again) = kmalloc (memset_zero mm h') in kfree again h'')

  -- `do { ... } while (i < 1024/8)` with fuel; `none` means that the fuel ran out.
  unfoldable pub store_loop : ℕ → ℕ → Heap → Option Heap
  store_loop zero i h = none
  store_loop (suc f) i h =
      let next = store_round h in
      let rest = store_loop f (i + 1) next in if ltb (i + 1) rounds then rest else some next

  unfoldable pub workqueue_proc_store : ℕ → ℕ → Heap → Option (Heap × ℕ)
  workqueue_proc_store fuel count h = elim (store_loop fuel 0 h) [
    | none ↦ none
    | some u ↦ some (u, count)
  ]

-- The work items, the work queue and the /proc entry, NULL as 0.
pub record Workqueue : Type 0 where
  pub work_demo : Bool
  pub work_demo2 : Bool
  pub workqueue_demo : ℕ
  pub proc_entry : ℕ

-- `alloc_workqueue` and `proc_create` are what the kernel gives, and are not tested.
unfoldable pub workqueue_init : ℕ → ℕ → Workqueue → Workqueue × ℕ
workqueue_init alloc_workqueue proc_create w =
    let w = record w { work_demo = true; work_demo2 = true } in
    let w = record w { workqueue_demo = alloc_workqueue } in
    (record w { proc_entry = proc_create }, 0)

unfoldable pub workqueue_exit : Workqueue → Workqueue
workqueue_exit w = w
