-- ===== src/MmDebug/Tests.antt =====
-- The theorems about mm/mm_debug.c at concrete inputs.
use simplefs.Base.{
  ℕ, ◌+◌, ◌*◌, ◌-◌, ◌≡◌, refl, List, [], ◌∷◌, ◌++◌, true, false, Option, none, some, length, drop,
  replicate, arith,
}
use simplefs.MmDebug.Entry.{
  info_len, value, error, efault, Module, text, parsed, proc_mm_show, proc_mm_write, mmproc_init,
  mmproc_exit,
}
use simplefs.MmDebug.Shown.{proc_mm_write-show, mmproc_exit-init}

-- "12345", as it stands in the buffer after a first write, and "67".
abbrev earlier : List ℕ
earlier = 49 ∷ 50 ∷ 51 ∷ 52 ∷ 53 ∷ replicate 11 0

abbrev sixty_seven : List ℕ
sixty_seven = 54 ∷ 55 ∷ []

-- The decimal number, of digits alone.
abbrev digits : ℕ → List ℕ → Option ℕ
digits acc [] = some acc
digits acc (b ∷ bs) = digits (acc * 10 + (b - 48)) bs

proc_mm_write-show_example :
    let ((info', pid), ret) = proc_mm_write (digits 0) none [] sixty_seven earlier 0 in
    let rest = drop 2 earlier in
    (ret ≡ value 2)
    × (length info' ≡ info_len)
    × (pid ≡ parsed (digits 0 (sixty_seven ++ text (rest ++ []))) 0)
    × (proc_mm_show [] info' ≡ sixty_seven ++ proc_mm_show [] rest)
proc_mm_write-show_example =
    proc_mm_write-show (digits 0) [] sixty_seven earlier 0 refl (omega arith)
      (λ e. omega arith, (λ e. omega arith, tt))

-- The number that "67" sets is 67345.
stale_number : (proc_mm_write (digits 0) none [] sixty_seven earlier 0).0.1 ≡ 67345
unfolding proc_mm_write
stale_number = refl

too_long : (proc_mm_write (digits 0) none [] (replicate 17 49) earlier 0).1 ≡ error efault
unfolding proc_mm_write
too_long = refl

abbrev fresh : Module ℕ
fresh = record {
  info = none;
  mm_pid = 0;
  proc_root = false;
  proc_entry = false;
  has_dir = false;
  has_entry = false;
  misused = false;
}

mmproc_exit-init_example :
    let (u, ret) = mmproc_init true true false fresh in
    let v = mmproc_exit u in
    (ret ≡ value 0)
    × (u.has_entry ≡ false)
    × ((v.has_dir ≡ false) × (v.has_entry ≡ false) × (v.info ≡ none))
    × (v.misused ≡ true)
mmproc_exit-init_example = mmproc_exit-init true true false fresh refl refl refl refl
