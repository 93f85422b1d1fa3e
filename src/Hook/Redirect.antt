-- ===== src/Hook/Redirect.antt =====
-- What loading and unloading hook/hook.c does to the calls of the kernel's function.
use simplefs.Base.{
  ℕ, ◌+◌, ◌%◌, ◌^◌, ◌≤◌, ◌<◌, ◌≡◌, ◌≢◌, ◌↔◌, ◌⊎◌, refl, sym, ap, ◌∙◌, List, ◌∷◌, some, ==_false,
  le_bytes, sub64, to_s32, of_s32, FitsS32, of_s32-to_s32, arith,
}
use simplefs.Hook.Patch.{
  optsize, Symbol, text_poke_smp, ipv4_conntrack_in, hook_conntrack, success, Hook, module_loaded,
  jump, hook_offset, orig_offset, hook_patch, hook_conn_init, hook_conn_exit,
  hook_ipv4_conntrack_in, IsPoke,
}
use simplefs.Hook.Jumps.{
  hook_distance, orig_distance, distance_iff, distance_code, distance_jump, called_iff, poked_first,
  poked_second, poked_kept, jump-code, HasCode,
}

-- The distance that is meant for the stub, used at the kernel's function.
stale_jump :
    (m : ℕ → ℕ) (stub target : ℕ)
    → stub + optsize < 2 ^ 64
    → target + optsize < 2 ^ 64
    → FitsS32 (sub64 (target + optsize) (stub + optsize))
    → HasCode m target (233 ∷ le_bytes 4 (orig_offset stub target))
    → jump m target ≡ some ((target + optsize + sub64 target stub) % 2 ^ 64)
stale_jump m stub target hs ht fits code =
    let x : ℕ = sub64 (target + optsize) (stub + optsize) in
    let distance : orig_offset stub target ≡ to_s32 x = orig_distance stub target hs ht in
    let exact : of_s32 (to_s32 x) ≡ x = (of_s32-to_s32 x (omega arith)).1 fits in
    let same : x ≡ sub64 target stub = omega arith in
    jump-code m target (orig_offset stub target) (omega (arith, distance)) code
    ∙ ap (λ o. some ((target + optsize + of_s32 o) % 2 ^ 64)) distance
    ∙ ap (λ y. some ((target + optsize + y) % 2 ^ 64)) (exact ∙ same)

apart_swap :
    (a b : ℕ) → (a + optsize ≤ b) ⊎ (b + optsize ≤ a) → (b + optsize ≤ a) ⊎ (a + optsize ≤ b)
apart_swap a b h = ground arith

stale_elsewhere :
    (stub target : ℕ)
    → stub + optsize < 2 ^ 64
    → target + optsize < 2 ^ 64
    → (stub + optsize ≤ target) ⊎ (target + optsize ≤ stub)
    → (target + optsize + sub64 target stub) % 2 ^ 64 ≢ target + optsize
stale_elsewhere stub target hs ht apart e = ground arith

module _ (poke : ℕ → List ℕ → (ℕ → ℕ) → ℕ → ℕ) (kallsyms_lookup_name : Symbol → ℕ)
    (hook stub : ℕ) where
  -- The kernel has both symbols; the addresses are words, and the stub and the kernel's function,
  -- five bytes of each at least, do not overlap.
  pub record IsPlaced : Type 0 where
    pub poke_found : kallsyms_lookup_name text_poke_smp ≢ 0
    pub target_found : kallsyms_lookup_name ipv4_conntrack_in ≢ 0
    pub hook_bound : hook < 2 ^ 64
    pub stub_bound : stub + optsize < 2 ^ 64
    pub target_bound : kallsyms_lookup_name ipv4_conntrack_in + optsize < 2 ^ 64
    pub apart :
        let target = kallsyms_lookup_name ipv4_conntrack_in in
        (stub + optsize ≤ target) ⊎ (target + optsize ≤ stub)

  init_lem :
      IsPlaced
      → (h : Hook)
      → hook_conn_init poke kallsyms_lookup_name hook stub h ≡ (
        hook_patch poke kallsyms_lookup_name hook stub
            (kallsyms_lookup_name ipv4_conntrack_in)
            (record h {
              ptr_poke_smp = kallsyms_lookup_name text_poke_smp;
              ptr_ipv4_conntrack_in = kallsyms_lookup_name ipv4_conntrack_in;
            }),
        success,
      )
  unfolding hook_conn_init
  init_lem p h =
      rw
        (
          ==_false (kallsyms_lookup_name text_poke_smp) 0 p.poke_found,
          ==_false (kallsyms_lookup_name ipv4_conntrack_in) 0 p.target_found,
        )
        refl

  -- With both symbols found and the stub and the kernel's function apart, the module loads, and a call
  -- of the kernel's function goes to the hook just where the distance fits 32 bits; the hook's own
  -- call then goes on at the sixth byte of the kernel's function just where that distance does, and
  -- no byte but the five of each function changes.
  pub hook_conn_init-redirects :
      IsPoke poke
      → IsPlaced
      → (memory : ℕ → ℕ) (a : ℕ)
      → (a < kallsyms_lookup_name ipv4_conntrack_in)
        ⊎ (kallsyms_lookup_name ipv4_conntrack_in + optsize ≤ a)
      → (a < stub) ⊎ (stub + optsize ≤ a)
      → let target = kallsyms_lookup_name ipv4_conntrack_in in
        let (u, status) =
          hook_conn_init poke kallsyms_lookup_name hook stub (module_loaded memory) in
        (status ≡ success)
        × ((jump u.memory target ≡ some hook) ↔ FitsS32 (sub64 hook (target + optsize)))
        × ((hook_ipv4_conntrack_in u ≡ (hook_conntrack, target + optsize))
            ↔ FitsS32 (sub64 (target + optsize) (stub + optsize)))
        × (u.memory a ≡ memory a)
  unfolding hook_patch
  hook_conn_init-redirects is_poke p memory a far_target far_stub =
      let target = kallsyms_lookup_name ipv4_conntrack_in in
      let jump_op = 233 ∷ le_bytes 4 (hook_offset hook target) in
      let saved_op = 233 ∷ le_bytes 4 (orig_offset stub target) in
      let back = orig_distance stub target p.stub_bound p.target_bound in
      rw (init_lem p (module_loaded memory)) (
        refl,
        distance_jump target hook (hook_offset hook target) p.target_bound p.hook_bound
            (hook_distance hook target p.hook_bound p.target_bound) _
            (poked_second poke is_poke stub target p.apart saved_op jump_op refl refl memory),
        called_iff _ _ (target + optsize)
            (distance_code stub (target + optsize) (orig_offset stub target) p.stub_bound
              p.target_bound back _
              (poked_first poke is_poke stub target p.apart saved_op jump_op refl refl memory))
            (distance_iff stub (target + optsize) (orig_offset stub target) p.stub_bound
              p.target_bound back),
        poked_kept poke is_poke stub target p.apart saved_op jump_op refl refl memory a far_stub
            far_target,
      )

  -- Unloading the module does not give the kernel's function back: where the distance from the stub
  -- fits 32 bits, a call of the function then jumps as far behind its sixth byte as it lies behind the
  -- stub, which is never its own code's sixth byte.
  pub hook_conn_exit-stale :
      IsPoke poke
      → IsPlaced
      → (memory : ℕ → ℕ)
      → FitsS32 (sub64 (kallsyms_lookup_name ipv4_conntrack_in + optsize) (stub + optsize))
      → let target = kallsyms_lookup_name ipv4_conntrack_in in
        let u = (hook_conn_init poke kallsyms_lookup_name hook stub (module_loaded memory)).0 in
        let v = hook_conn_exit poke stub u in
        (jump v.memory target ≡ some ((target + optsize + sub64 target stub) % 2 ^ 64))
        × (jump v.memory target ≢ some (target + optsize))
  unfolding hook_patch hook_conn_exit
  hook_conn_exit-stale is_poke p memory fits =
      let target = kallsyms_lookup_name ipv4_conntrack_in in
      let jump_op = 233 ∷ le_bytes 4 (hook_offset hook target) in
      let saved_op = 233 ∷ le_bytes 4 (orig_offset stub target) in
      rw (init_lem p (module_loaded memory)) (
        let stale = stale_jump _ stub target p.stub_bound p.target_bound fits (
          poked_first poke is_poke target stub (apart_swap stub target p.apart) saved_op jump_op
            refl refl _) in
        (
          stale,
          λ e.
              let same : some ((target + optsize + sub64 target stub) % 2 ^ 64)
                  ≡ some (target + optsize) =
                sym stale ∙ e in
              stale_elsewhere stub target p.stub_bound p.target_bound p.apart (cc),
        ))
