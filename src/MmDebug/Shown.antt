-- ===== src/MmDebug/Shown.antt =====
-- What mm/mm_debug.c shows after a write, and what loading and unloading it leaves.
use simplefs.Base.{
  ℕ, ◌+◌, ◌≤◌, ◌≡◌, refl, ap, ◌∙◌, List, [], ◌∷◌, ◌++◌, append_assoc, length, length-append,
  length-drop, drop, Bool, true, false, not, ◌&&◌, Option, none, ==_false, ltb, if◌then◌else◌,
  arith,
}
use simplefs.Simple.Bytes.{HasNoNul}
use simplefs.MmDebug.Entry.{
  info_len, value, error, enomem, Module, parsed, text, newline, proc_mm_show, proc_mm_write,
  mmproc_init, mmproc_exit,
}

text-append : (xs ys : List ℕ) → HasNoNul xs → text (xs ++ ys) ≡ xs ++ text ys
text-append [] ys h = refl
text-append (x ∷ xs) ys (nonzero, h) =
    rw (==_false x 0 nonzero) (ap (λ l. x ∷ l) (text-append xs ys h))

module _ {P : Type 0} (kstrtoint : List ℕ → Option P) where
  -- A write of at most 16 bytes without a NUL gives its count, keeps the buffer's size, and does not
  -- end the text: what is shown, and what is parsed for the number, goes on with the bytes of earlier
  -- writes and, where these have no NUL either, with what follows the buffer in memory.
  pub proc_mm_write-show :
      (beyond buffer info : List ℕ) (mm_pid : P)
      → length info ≡ info_len
      → length buffer ≤ info_len
      → HasNoNul buffer
      → let ((info', pid), ret) = proc_mm_write kstrtoint none beyond buffer info mm_pid in
        let rest = drop (length buffer) info in
        (ret ≡ value (length buffer))
        × (length info' ≡ info_len)
        × (pid ≡ parsed (kstrtoint (buffer ++ text (rest ++ beyond))) mm_pid)
        × (proc_mm_show beyond info' ≡ buffer ++ proc_mm_show beyond rest)
  unfolding proc_mm_write proc_mm_show
  proc_mm_write-show beyond buffer info mm_pid size short clean =
      let rest = drop (length buffer) info in
      let fits : ltb info_len (length buffer) ≡ false = ground arith in
      let start : 0 + length buffer ≡ length buffer = omega arith in
      let shown : text ((buffer ++ rest) ++ beyond) ≡ buffer ++ text (rest ++ beyond) =
        ap text (append_assoc buffer rest beyond) ∙ text-append buffer (rest ++ beyond) clean in
      rw (fits, start)
        (
          refl,
          omega (arith, length-append buffer rest, length-drop (length buffer) info),
          ap (λ l. parsed (kstrtoint l) mm_pid) shown,
          ap (λ l. l ++ newline ∷ []) shown
              ∙ append_assoc buffer (text (rest ++ beyond)) (newline ∷ []),
        )

module _ {P : Type 0} where
  -- However many of the kernel's three calls fail, `mmproc_init` reports a failure of `kmalloc` only;
  -- the file is there just where all three succeeded; and after `mmproc_exit` neither entry nor buffer
  -- is left. It uses a directory that is gone just where the directory was made and the file was not.
  pub mmproc_exit-init :
      (allocated made_dir made_entry : Bool) (s : Module P)
      → s.has_dir ≡ false
      → s.has_entry ≡ false
      → s.proc_root ≡ false
      → s.misused ≡ false
      → let (u, ret) = mmproc_init allocated made_dir made_entry s in
        let v = mmproc_exit u in
        (ret ≡ (if allocated then value 0 else error enomem))
        × (u.has_entry ≡ (allocated && (made_dir && made_entry)))
        × ((v.has_dir ≡ false) × (v.has_entry ≡ false) × (v.info ≡ none))
        × (v.misused ≡ (allocated && (made_dir && not made_entry)))
  unfolding mmproc_init mmproc_exit
  mmproc_exit-init false _ _ s no_dir no_entry no_root clean = ground arith
  mmproc_exit-init true false _ s no_dir no_entry no_root clean = ground arith
  mmproc_exit-init true true false s no_dir no_entry no_root clean = ground arith
  mmproc_exit-init true true true s no_dir no_entry no_root clean = ground arith
