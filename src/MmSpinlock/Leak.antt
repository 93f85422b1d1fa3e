-- ===== src/MmSpinlock/Leak.antt =====
-- The loop of mm_spinlock/mm_spinlock.c ends, and leaks one block in each round that gets one.
use simplefs.Base.{
  ℕ, zero, suc, ◌+◌, ◌≤◌, ◌<◌, ◌≡◌, refl, sym, ap, ◌∙◌, List, [], ◌∷◌, ◌++◌, append_assoc, length,
  length-append, some, ◌==◌, ==_refl, ltb, if◌then◌else◌, Bool-cases, inl, inr, arith,
}
use simplefs.MmSpinlock.Store.{
  Heap, rounds, remove, kfree, memset_zero, kmalloc, store_round, store_loop, workqueue_proc_store,
}

module _ (answer : ℕ → List ℕ → ℕ) where
  -- An allocation that is freed at once leaves the blocks as they were.
  kfree-kmalloc :
      (h : Heap)
      → let (u, p) = kmalloc answer h in
        ((kfree p u).live ≡ h.live) × ((kfree p u).calls ≡ h.calls + 1)
  unfolding kmalloc kfree remove
  kfree-kmalloc h = elim (Bool-cases (answer h.calls h.live == 0)) [
    | inl none_left ↦ rw none_left (refl, refl)
    | inr got ↦ rw (got, ==_refl (answer h.calls h.live)) (refl, refl)
  ]

  kmalloc_lem :
      (h : Heap)
      → let (u, p) = kmalloc answer h in
        (u.live ≡ (if p == 0 then h.live else p ∷ h.live)) × (u.calls ≡ h.calls + 1)
  unfolding kmalloc
  kmalloc_lem h = (refl, refl)

  -- A round that gets a block loses it, and frees the block that it gets next.
  store_round_lem :
      (h : Heap)
      → (lost : List ℕ) × ((store_round answer h).live ≡ lost ++ h.live)
        × ((store_round answer h).calls ≡ h.calls + 1 + length lost)
        × (length lost ≤ 1)
  unfolding store_round memset_zero
  store_round_lem h =
      let (u, p) = kmalloc answer h in
      let (live, calls) = kmalloc_lem h in
      elim (Bool-cases (p == 0)) [
        | inl none_left ↦
            let kept : u.live ≡ h.live = rw none_left at live in
            ([], rw none_left kept, rw none_left (omega (arith, calls)), omega arith)
        | inr got ↦
            let (live', calls') = kfree-kmalloc (memset_zero p u) in
            let more : u.live ≡ p ∷ h.live = rw got at live in
            (p ∷ [], rw got (live' ∙ more), rw got (omega (arith, calls, calls')), omega arith)
      ]

  store_loop_lem :
      (f i : ℕ) (h : Heap)
      → i < rounds
      → rounds ≤ i + f
      → (u : Heap) × (lost : List ℕ) × (store_loop answer f i h ≡ some u)
        × (u.live ≡ lost ++ h.live)
        × (u.calls + i ≡ h.calls + rounds + length lost)
        × (length lost + i ≤ rounds)
  unfolding store_loop
  store_loop_lem zero i h small enough = absurd (omega arith)
  store_loop_lem (suc f) i h small enough =
      let (lost, live, calls, one) = store_round_lem h in
      elim (Bool-cases (ltb (i + 1) rounds)) [
        | inr last ↦
            let end : i + 1 ≡ rounds = ground arith in
            (
              store_round answer h,
              lost,
              rw last refl,
              live,
              omega (arith, calls),
              omega (arith, one),
            )
        | inl more ↦
            let (u, later, result, live', calls', few) =
              store_loop_lem f (i + 1) (store_round answer h) (ground arith) (omega arith) in
            (
              u,
              later ++ lost,
              rw more result,
              live' ∙ ap (λ l. later ++ l) live ∙ sym (append_assoc later lost h.live),
              omega (arith, calls, calls', length-append later lost),
              omega (arith, few, one, length-append later lost),
            )
      ]

  -- The loop of `workqueue_proc_store` ends: any fuel from 128 rounds on gives a result, the count of
  -- the write. The blocks that were not freed before are still there, and before them the write has
  -- put those that it lost, 128 at most: one for each call of `kmalloc` beyond one in each round.
  pub workqueue_proc_store-ends :
      (fuel count : ℕ) (h : Heap)
      → rounds ≤ fuel
      → (u : Heap) × (lost : List ℕ) × (workqueue_proc_store answer fuel count h ≡ some (u, count))
        × (u.live ≡ lost ++ h.live)
        × (u.calls ≡ h.calls + rounds + length lost)
        × (length lost ≤ rounds)
  unfolding workqueue_proc_store
  workqueue_proc_store-ends fuel count h enough =
      let (u, lost, result, live, calls, few) =
        store_loop_lem fuel 0 h (omega arith) (omega arith) in
      (
        u,
        lost,
        rw (result, workqueue_proc_store) refl,
        live,
        omega (arith, calls),
        omega (arith, few),
      )
