-- ===== src/Hook/Jumps.antt =====
-- Where the jumps that hook/hook.c writes lead.
use simplefs.Base.{
  ℕ, ◌+◌, ◌%◌, ◌^◌, ◌≤◌, ◌<◌, ◌≡◌, ◌↔◌, ◌⊎◌, refl, sym, ap, ◌∙◌, List, [], ◌∷◌, Option, some,
  length, get_elem?, le_bytes, le_value, le_value-le_bytes, sub64, to_s32, of_s32, FitsS32,
  of_s32-to_s32, of_s32_bound, sub64_reaches, arith, lt_of_get_elem?,
}
use simplefs.Hook.Patch.{
  optsize, Message, hook_conntrack, Hook, jump, hook_offset, orig_offset, hook_ipv4_conntrack_in,
  IsPoke,
}

-- Five bytes at an address are a jump.
abbrev pub HasCode : (ℕ → ℕ) → ℕ → List ℕ → Type 0
HasCode m a op = (i b : ℕ) → get_elem? op i ≡ some b → m (a + i) ≡ b

pub jump-code :
    (m : ℕ → ℕ) (a off : ℕ)
    → off < 2 ^ 32
    → HasCode m a (233 ∷ le_bytes 4 off)
    → jump m a ≡ some ((a + optsize + of_s32 off) % 2 ^ 64)
unfolding jump
jump-code m a off h code =
    let here : a ≡ a + 0 = omega arith in
    let first : m a ≡ 233 = ap m here ∙ code 0 233 refl in
    let value : le_value 4 (m (a + 1) ∷ m (a + 2) ∷ m (a + 3) ∷ m (a + 4) ∷ []) ≡ off =
      rw (code 1 _ refl, code 2 _ refl, code 3 _ refl, code 4 _ refl)
        (le_value-le_bytes 4 off [] h) in
    rw (first, value) refl

-- A jump leads where it is meant to just where the distance fits 32 bits.
reaches :
    (a b : ℕ)
    → a < 2 ^ 64
    → b < 2 ^ 64
    → ((a + of_s32 (to_s32 (sub64 b a))) % 2 ^ 64 ≡ b) ↔ FitsS32 (sub64 b a)
reaches a b ha hb =
    let x : ℕ = sub64 b a in
    let (only, back) = sub64_reaches a b (of_s32 (to_s32 x)) ha hb (of_s32_bound x) in
    let (fits, exact) = of_s32-to_s32 x (omega arith) in (λ e. fits (only e), λ f. back (exact f))

module _ (poke : ℕ → List ℕ → (ℕ → ℕ) → ℕ → ℕ) (is_poke : IsPoke poke) (first second : ℕ)
    (apart : (first + optsize ≤ second) ⊎ (second + optsize ≤ first)) (op op' : List ℕ)
    (size : length op ≡ optsize) (size' : length op' ≡ optsize) (m : ℕ → ℕ) where
  -- Of two writes of five bytes that do not overlap, both can be read.
  pub poked_second : HasCode (poke second op' (poke first op m)) second op'
  poked_second i b e = is_poke.written second op' (poke first op m) i b e

  pub poked_first : HasCode (poke second op' (poke first op m)) first op
  poked_first i b e =
      is_poke.kept second op' (poke first op m) (first + i)
        (ground (arith, size', size, lt_of_get_elem? op i b e))
      ∙ is_poke.written first op m i b e

  pub poked_kept :
      (i : ℕ)
      → (i < first) ⊎ (first + optsize ≤ i)
      → (i < second) ⊎ (second + optsize ≤ i)
      → poke second op' (poke first op m) i ≡ m i
  poked_kept i p q =
      is_poke.kept second op' (poke first op m) i (ground (arith, size'))
      ∙ is_poke.kept first op m i (ground (arith, size))

some_iff : {F : Type 0} (o : Option ℕ) (x b : ℕ) → o ≡ some x → (x ≡ b) ↔ F → (o ≡ some b) ↔ F
some_iff o x b e (there, back) =
    (λ h. let same : some x ≡ some b = sym e ∙ h in there (cc), λ f. e ∙ ap some (back f))

pub hook_distance :
    (hook target : ℕ)
    → hook < 2 ^ 64
    → target + optsize < 2 ^ 64
    → hook_offset hook target ≡ to_s32 (sub64 hook (target + optsize))
unfolding hook_offset
hook_distance hook target h t =
    ap to_s32
      (let e : sub64 (sub64 hook target) optsize ≡ sub64 hook (target + optsize) = omega arith in e)

pub orig_distance :
    (stub target : ℕ)
    → stub + optsize < 2 ^ 64
    → target + optsize < 2 ^ 64
    → orig_offset stub target ≡ to_s32 (sub64 (target + optsize) (stub + optsize))
unfolding orig_offset
orig_distance stub target s t = ap to_s32 (
    let e : sub64 ((target + optsize) % 2 ^ 64) ((stub + optsize) % 2 ^ 64)
        ≡ sub64 (target + optsize) (stub + optsize) =
      omega arith in
    e)

-- The jump at `a` over the distance from the next instruction to `b`.
module _ (a b off : ℕ) (ha : a + optsize < 2 ^ 64) (hb : b < 2 ^ 64)
    (distance : off ≡ to_s32 (sub64 b (a + optsize))) where
  pub distance_iff : ((a + optsize + of_s32 off) % 2 ^ 64 ≡ b) ↔ FitsS32 (sub64 b (a + optsize))
  distance_iff = rw distance (reaches (a + optsize) b ha hb)

  pub distance_code :
      (m : ℕ → ℕ)
      → HasCode m a (233 ∷ le_bytes 4 off)
      → jump m a ≡ some ((a + optsize + of_s32 off) % 2 ^ 64)
  distance_code m code = jump-code m a off (omega (arith, distance)) code

  pub distance_jump :
      (m : ℕ → ℕ)
      → HasCode m a (233 ∷ le_bytes 4 off)
      → (jump m a ≡ some b) ↔ FitsS32 (sub64 b (a + optsize))
  distance_jump m code = some_iff (jump m a) _ b (distance_code m code) distance_iff

pub called_iff :
    {F : Type 0} (h : Hook) (x b : ℕ)
    → jump h.memory h.ptr_orig_conntrack_in ≡ some x
    → (x ≡ b) ↔ F
    → (hook_ipv4_conntrack_in h ≡ (hook_conntrack, b)) ↔ F
unfolding hook_ipv4_conntrack_in
called_iff h x b e (there, back) = rw e (
  λ same. there (ap (λ (p : Message × ℕ). p.1) same),
  λ f. ap (λ n. (hook_conntrack, n)) (back f),
)
