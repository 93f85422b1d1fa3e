-- ===== src/Hook/Patch.antt =====
-- hook/hook.c: the two jump instructions that it writes, over the kernel's function and over its own
-- stub. An address is a 64-bit word, and memory gives the byte at each.
use simplefs.Base.{
  ℕ, ◌+◌, ◌%◌, ◌^◌, ◌≤◌, ◌<◌, ◌≡◌, ◌⊎◌, List, [], ◌∷◌, Option, none, some, ◌==◌, if◌then◌else◌,
  length, get_elem?, set, overlay, replicate, le_bytes, le_value, sub64, to_s32, of_s32, ◌▷◌,
}

abbrev pub optsize : ℕ
optsize = 5

-- The kernel's symbols that the module looks up, and what it prints.
pub data Symbol : Type 0 where
  text_poke_smp ipv4_conntrack_in : Symbol

pub data Message : Type 0 where
  hook_conntrack : Message

-- What `hook_conn_init` returns: 0, or -1.
pub data InitStatus : Type 0 where
  success failure : InitStatus

pub record Hook : Type 0 where
  pub memory : ℕ → ℕ
  pub saved_op : List ℕ
  pub jump_op : List ℕ
  pub ptr_orig_conntrack_in : ℕ
  pub ptr_ipv4_conntrack_in : ℕ
  pub ptr_poke_smp : ℕ

-- The module's variables as it is loaded.
abbrev pub module_loaded : (ℕ → ℕ) → Hook
module_loaded memory = record {
  memory = memory;
  saved_op = replicate optsize 0;
  jump_op = replicate optsize 0;
  ptr_orig_conntrack_in = 0;
  ptr_ipv4_conntrack_in = 0;
  ptr_poke_smp = 0;
}

-- The machine's jump: byte 0xe9 and the distance from the next instruction, in 4 bytes.
unfoldable pub jump : (ℕ → ℕ) → ℕ → Option ℕ
jump m a =
    if m a == 233
    then some (
        (a + optsize + of_s32 (le_value 4 (m (a + 1) ∷ m (a + 2) ∷ m (a + 3) ∷ m (a + 4) ∷ [])))
        % 2 ^ 64)
    else none

-- `op[0] = 0xe9; *(s32 *)(&op[1]) = offset;`
unfoldable pub set_jump : List ℕ → ℕ → List ℕ
set_jump op offset = overlay (set op 0 233) 1 (le_bytes 4 offset)

-- `hook` and `stub` are the addresses of the module's two functions, `target` that of the kernel's.
unfoldable pub hook_offset : ℕ → ℕ → ℕ
hook_offset hook target = to_s32 (sub64 (sub64 hook target) optsize)

unfoldable pub orig_offset : ℕ → ℕ → ℕ
orig_offset stub target = to_s32 (sub64 ((target + optsize) % 2 ^ 64) ((stub + optsize) % 2 ^ 64))

module _ (poke : ℕ → List ℕ → (ℕ → ℕ) → ℕ → ℕ) (kallsyms_lookup_name : Symbol → ℕ)
    (hook stub : ℕ) where
  unfoldable pub hook_patch : ℕ → Hook → Hook
  unfolding set_jump hook_offset orig_offset
  hook_patch target h =
      h
      ▷ (λ (h : Hook). record h { jump_op = set_jump h.jump_op (hook_offset hook target) })
      ▷ (λ (h : Hook). record h { saved_op = set_jump h.saved_op (orig_offset stub target) })
      ▷ (λ (h : Hook). record h { memory = poke stub h.saved_op h.memory })
      ▷ (λ (h : Hook). record h { ptr_orig_conntrack_in = stub })
      ▷ (λ (h : Hook). record h { memory = poke target h.jump_op h.memory })

  unfoldable pub hook_conn_init : Hook → Hook × InitStatus
  unfolding hook_patch
  hook_conn_init h =
      let poke_smp = kallsyms_lookup_name text_poke_smp in
      let h = record h { ptr_poke_smp = poke_smp } in
      if poke_smp == 0
      then (h, failure)
      else (let target = kallsyms_lookup_name ipv4_conntrack_in in
          let h = record h { ptr_ipv4_conntrack_in = target } in
          if target == 0 then (h, failure) else (hook_patch target h, success))

module _ (poke : ℕ → List ℕ → (ℕ → ℕ) → ℕ → ℕ) (stub : ℕ) where
  unfoldable pub hook_conn_exit : Hook → Hook
  hook_conn_exit h =
      h
      ▷ (λ (h : Hook). record h { memory = poke h.ptr_ipv4_conntrack_in h.saved_op h.memory })
      ▷ (λ (h : Hook). record h { memory = poke stub h.jump_op h.memory })

-- The message, and the address at which the call that follows goes on.
unfoldable pub hook_ipv4_conntrack_in : Hook → Message × ℕ
hook_ipv4_conntrack_in h = (
  hook_conntrack,
  elim (jump h.memory h.ptr_orig_conntrack_in) [ none ↦ h.ptr_orig_conntrack_in | some a ↦ a ],
)

-- What `text_poke_smp` does: it writes the bytes from the address on, and no other.
pub record IsPoke (poke : ℕ → List ℕ → (ℕ → ℕ) → ℕ → ℕ) : Type 0 where
  pub written :
      (a : ℕ) (op : List ℕ) (m : ℕ → ℕ) (i b : ℕ)
      → get_elem? op i ≡ some b
      → poke a op m (a + i) ≡ b
  pub kept :
      (a : ℕ) (op : List ℕ) (m : ℕ → ℕ) (i : ℕ)
      → (i < a) ⊎ (a + length op ≤ i)
      → poke a op m i ≡ m i
