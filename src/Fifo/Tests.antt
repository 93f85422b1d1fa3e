-- ===== src/Fifo/Tests.antt =====
-- The theorems about globalfifo/globalfifo.c at concrete inputs.
use simplefs.Base.{
  ℕ, ◌≡◌, ◌↔◌, refl, List, [], ◌∷◌, true, false, none, some, length, take, drop, replicate, arith,
}
use simplefs.Fifo.Device.{
  Dev, count, eagain, globalfifo_init, globalfifo_read, read_woken, globalfifo_write, write_copy,
  write_woken, globalfifo_ioctl, globalfifo_poll,
}
use simplefs.Fifo.Queue.{contents, IsDev, IsMemcpy, answer, read-refines, read_woken-refines}
use simplefs.Fifo.Queue.Writes.{write-refines, write_woken-refines}
use simplefs.Fifo.Queue.Control.{globalfifo_ioctl-refines, globalfifo_poll-agrees}
use simplefs.Fifo.System.{
  read_call, write_call, ready, asleep, System, after_read, after_write, after_ioctl, writes,
  started,
}
use simplefs.Fifo.Writers.{Uncleared, fresh, goes_on, Uncleared-full}
use simplefs.Fifo.Waiting.{clear_leaves_writer}

-- A copy byte by byte, from the first on.
abbrev upwards : ℕ → ℕ → List ℕ → List ℕ
upwards src n mem = take n (drop src mem)

upwards-IsMemcpy : IsMemcpy upwards
upwards-IsMemcpy = record { copied = λ src n mem apart fits. refl }

abbrev three : Dev
three = record { current_len = 3; mem = 5 ∷ 6 ∷ 7 ∷ replicate 7 0; sem = 1 }

three-IsDev : IsDev three
three-IsDev = record { low = omega arith; full = refl; free = refl }

read-refines_example :
    let r = globalfifo_read upwards false true 2 three in
    let w = read_woken upwards false true 2 three in
    ((answer r ≡ (some (count 2), 5 ∷ 6 ∷ [], 7 ∷ [], true)) × IsDev r.dev)
    × ((answer w ≡ (some (count 2), 5 ∷ 6 ∷ [], 7 ∷ [], true)) × IsDev w.dev)
read-refines_example = read-refines upwards upwards-IsMemcpy three three-IsDev false false true 2

-- A woken reader that finds nothing returns 0.
empty-IsDev : IsDev globalfifo_init
unfolding globalfifo_init
empty-IsDev = record { low = omega arith; full = refl; free = refl }

woken_read_of_nothing :
    let r = read_woken upwards false true 2 globalfifo_init in
    (answer r ≡ (some (count 0), [], [], true)) × IsDev r.dev
unfolding globalfifo_init
woken_read_of_nothing =
    read_woken-refines upwards upwards-IsMemcpy globalfifo_init empty-IsDev false true 2

write-refines_example :
    let r = globalfifo_write true none (1 ∷ 2 ∷ []) three in
    let w = write_woken false none (1 ∷ 2 ∷ []) three in
    ((answer r ≡ (some (count 2), 1 ∷ 2 ∷ [], 5 ∷ 6 ∷ 7 ∷ 1 ∷ 2 ∷ [], true)) × IsDev r.dev)
    × ((answer w ≡ (some (count 2), 1 ∷ 2 ∷ [], 5 ∷ 6 ∷ 7 ∷ 1 ∷ 2 ∷ [], true)) × IsDev w.dev)
write-refines_example = write-refines three three-IsDev true false none (1 ∷ 2 ∷ [])

-- A woken writer puts in what fits.
woken_write_of_nine :
    let r = write_woken false none (replicate 9 1) three in
    (answer r ≡ (some (count 7), replicate 7 1, 5 ∷ 6 ∷ 7 ∷ replicate 7 1, true)) × IsDev r.dev
woken_write_of_nine = write_woken-refines three three-IsDev false none (replicate 9 1)

clear_of_three :
    let r = globalfifo_ioctl 1 three in (r.0 ≡ count 0) × (contents r.1 ≡ []) × IsDev r.1
clear_of_three = globalfifo_ioctl-refines three three-IsDev 1

globalfifo_poll-agrees_example :
    let mask = globalfifo_poll three in
    ((mask.0 ≡ false) ↔ ((globalfifo_read upwards true true 2 three).ret ≡ some eagain))
    × ((mask.1 ≡ false) ↔ ((globalfifo_write true none (1 ∷ []) three).ret ≡ some eagain))
    × IsDev mask.2
globalfifo_poll-agrees_example =
    globalfifo_poll-agrees three three-IsDev upwards true none 2 (1 ∷ [])

-- Process 0 writes three bytes, process 1 reads two of them.
abbrev written : System
written =
    after_write 0 (5 ∷ 6 ∷ 7 ∷ []) (globalfifo_write false none (5 ∷ 6 ∷ 7 ∷ []) started.dev)
      started

abbrev taken : System
taken = after_read 1 2 (globalfifo_read upwards false true 2 written.dev) written

-- Process 0 fills the device and writes again, which puts it to sleep.
abbrev filled : System
filled =
    after_write 0 (replicate 10 1) (globalfifo_write false none (replicate 10 1) started.dev)
      started

abbrev waiting : System
waiting = after_write 0 (2 ∷ []) (globalfifo_write false none (2 ∷ []) filled.dev) filled

is_asleep : waiting.tasks 0 ≡ asleep (write_call (2 ∷ []))
unfolding after_write globalfifo_write globalfifo_init write_copy
is_asleep = refl

clear_leaves_writer_example :
    let t = after_ioctl 1 waiting in
    let u = after_read 1 4 (globalfifo_read upwards false true 4 t.dev) t in
    (contents u.dev ≡ [])
    × (u.tasks 0 ≡ asleep (write_call (2 ∷ [])))
    × (u.tasks 1 ≡ asleep (read_call 4))
clear_leaves_writer_example =
    clear_leaves_writer upwards waiting 0 1 4 (2 ∷ []) true is_asleep (omega arith)

is_free : filled.tasks 0 ≡ ready
unfolding after_write globalfifo_write globalfifo_init write_copy
is_free = refl

waiting-Uncleared : Uncleared upwards waiting
waiting-Uncleared =
    goes_on (goes_on fresh (writes 0 (replicate 10 1) false none refl) tt)
      (writes 0 (2 ∷ []) false none is_free) tt

Uncleared-full_example : length (contents waiting.dev) ≡ 10
Uncleared-full_example = Uncleared-full upwards waiting 0 (2 ∷ []) waiting-Uncleared is_asleep
