-- ===== src/MmDebug/Entry.antt =====
-- mm/mm_debug.c: the write and the show of /proc/mm_root/mm_entry, and the making and the removal of
-- the two /proc entries. `P` is what an `int` that `kstrtoint` reads is.
use simplefs.Base.{
  ℕ, List, [], ◌∷◌, ◌++◌, length, overlay, replicate, Bool, true, false, Option, none, some, ◌==◌,
  ltb, if◌then◌else◌,
}

abbrev pub info_len : ℕ
info_len = 16

-- What a call returns: a number, or the negation of an error's.
pub data Returned : Type 0 where
  value error : ℕ → Returned

abbrev pub efault : ℕ
efault = 14

abbrev pub enomem : ℕ
enomem = 12

-- `info` is the buffer where it is allocated; a pointer is kept as whether it is not NULL.
-- `has_dir` and `has_entry`: what there is under /proc; `misused`: a directory that was removed has
-- been used.
pub record Module (P : Type 0) : Type 0 where
  pub info : Option (List ℕ)
  pub mm_pid : P
  pub proc_root : Bool
  pub proc_entry : Bool
  pub has_dir : Bool
  pub has_entry : Bool
  pub misused : Bool

-- The characters up to the first NUL.
abbrev pub text : List ℕ → List ℕ
text [] = []
text (b ∷ bs) = let rest = text bs in if b == 0 then [] else b ∷ rest

abbrev pub newline : ℕ
newline = 10

-- `beyond`: the bytes that follow the buffer in memory.
unfoldable pub proc_mm_show : List ℕ → List ℕ → List ℕ
proc_mm_show beyond info = text (info ++ beyond) ++ newline ∷ []

-- What `kstrtoint` writes to the number: nothing where it refuses the text.
abbrev pub parsed : {P : Type 0} → Option P → P → P
parsed none old = old
parsed (some pid) old = pid

module _ {P : Type 0} where
  -- `fault`: where the caller's memory cannot be read, what `copy_from_user` leaves in the buffer.
  -- `kstrtoint` gives the number that the characters spell, if they do.
  unfoldable pub proc_mm_write :
      (List ℕ → Option P) → Option (List ℕ) → List ℕ → List ℕ → List ℕ → P → (List ℕ × P) × Returned
  proc_mm_write kstrtoint fault beyond buffer info mm_pid =
      if ltb info_len (length buffer) then ((info, mm_pid), error efault) else elim fault [
        | some left ↦ ((overlay info 0 left, mm_pid), error efault)
        | none ↦
            let info = overlay info 0 buffer in
            let mm_pid = parsed (kstrtoint (text (info ++ beyond))) mm_pid in
            ((info, mm_pid), value (length buffer))
      ]

  -- `remove_proc_entry(USER_ENTRY, proc_root)`, and that of USER_ROOT_DIR.
  unfoldable pub remove_entry : Module P → Module P
  remove_entry s =
      if s.proc_root
      then if s.has_dir then record s { has_entry = false } else record s { misused = true }
      else s

  unfoldable pub remove_dir : Module P → Module P
  remove_dir s = record s { has_dir = false }

  -- `made_dir` and `made_entry`: whether the kernel could make them.
  unfoldable pub mm_create_proc_entry : Bool → Bool → Module P → Module P × Returned
  unfolding remove_entry remove_dir
  mm_create_proc_entry made_dir made_entry s =
      let s = record s { proc_root = made_dir; has_dir = made_dir } in
      if made_dir
      then (let s = record s { proc_entry = made_entry; has_entry = made_entry } in
          if made_entry then (s, value 0) else (remove_dir (remove_entry s), error enomem))
      else (s, error enomem)

  -- `allocated`: whether `kmalloc` had memory.
  unfoldable pub mmproc_init : Bool → Bool → Bool → Module P → Module P × Returned
  unfolding mm_create_proc_entry
  mmproc_init allocated made_dir made_entry s =
      if allocated
      then (let s = record s { info = some (replicate info_len 0) } in
          let (s, _) = mm_create_proc_entry made_dir made_entry s in (s, value 0))
      else (record s { info = none }, error enomem)

  unfoldable pub mmproc_exit : Module P → Module P
  unfolding remove_entry remove_dir
  mmproc_exit s = let s = record s { info = none } in remove_dir (remove_entry s)
