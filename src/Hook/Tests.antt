-- ===== src/Hook/Tests.antt =====
-- The theorems about hook/hook.c at concrete addresses.
use simplefs.Base.{
  ℕ, ◌+◌, ◌-◌, ◌%◌, ◌^◌, ◌≤◌, ◌≡◌, ◌≢◌, ◌↔◌, inl, inr, refl, List, [], ◌∷◌, zero, suc, length,
  Bool-cases, false, Option, none, some, ltb, if◌then◌else◌, get_elem?, sub64, FitsS32, arith,
}
use simplefs.Hook.Patch.{
  Symbol, text_poke_smp, ipv4_conntrack_in, hook_conntrack, success, module_loaded, jump,
  hook_conn_init, hook_conn_exit, hook_ipv4_conntrack_in, IsPoke,
}
use simplefs.Hook.Redirect.{IsPlaced, hook_conn_init-redirects, hook_conn_exit-stale}

abbrev or_else : Option ℕ → ℕ → ℕ
or_else none b = b
or_else (some a) b = a

abbrev poke : ℕ → List ℕ → (ℕ → ℕ) → ℕ → ℕ
poke a op m i = if ltb i a then m i else or_else (get_elem? op (i - a)) (m i)

get_elem?_past : (op : List ℕ) (i : ℕ) → length op ≤ i → get_elem? op i ≡ none
get_elem?_past [] i h = refl
get_elem?_past (x ∷ xs) zero h = absurd (omega arith)
get_elem?_past (x ∷ xs) (suc i) h = get_elem?_past xs i (omega arith)

poke-IsPoke : IsPoke poke
poke-IsPoke = record {
  written = λ a op m i b e.
      let low : ltb (a + i) a ≡ false = ground arith in
      let back : a + i - a ≡ i = omega arith in rw (low, back, e) refl;
  kept = λ a op m i far. elim (Bool-cases (ltb i a)) [
    | inl below ↦ rw below refl
    | inr above ↦ rw (above, get_elem?_past op (i - a) (ground arith)) refl
  ];
}

-- The kernel's text below the module's.
abbrev symbols : Symbol → ℕ
symbols text_poke_smp = 4096
symbols ipv4_conntrack_in = 8192

placed : IsPlaced poke symbols 65536 131072
placed = record {
  poke_found = λ e. omega arith;
  target_found = λ e. omega arith;
  hook_bound = omega arith;
  stub_bound = omega arith;
  target_bound = omega arith;
  apart = inr (omega arith);
}

hook_conn_init-redirects_example :
    let (u, status) = hook_conn_init poke symbols 65536 131072 (module_loaded (λ a. 144)) in
    (status ≡ success)
    × ((jump u.memory 8192 ≡ some 65536) ↔ FitsS32 (sub64 65536 8197))
    × ((hook_ipv4_conntrack_in u ≡ (hook_conntrack, 8197)) ↔ FitsS32 (sub64 8197 131077))
    × (u.memory 8200 ≡ 144)
hook_conn_init-redirects_example =
    hook_conn_init-redirects poke symbols 65536 131072 poke-IsPoke placed (λ a. 144) 8200
      (inr (omega arith)) (inl (omega arith))

hook_conn_exit-stale_example :
    let u = (hook_conn_init poke symbols 65536 131072 (module_loaded (λ a. 144))).0 in
    let v = hook_conn_exit poke 131072 u in
    (jump v.memory 8192 ≡ some ((8197 + sub64 8192 131072) % 2 ^ 64))
    × (jump v.memory 8192 ≢ some 8197)
hook_conn_exit-stale_example =
    hook_conn_exit-stale poke symbols 65536 131072 poke-IsPoke placed (λ a. 144) (inr (omega arith))

-- The call goes through the hook to the function's sixth byte.
hooked_call :
    let (u, status) = hook_conn_init poke symbols 65536 131072 (module_loaded (λ a. 144)) in
    (jump u.memory 8192 ≡ some 65536) × (hook_ipv4_conntrack_in u ≡ (hook_conntrack, 8197))
unfolding hook_conn_init jump hook_ipv4_conntrack_in
hooked_call = (refl, refl)
