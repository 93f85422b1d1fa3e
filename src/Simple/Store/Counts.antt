-- ===== src/Simple/Store/Counts.antt =====
-- The inode numbers that the slots of the inode store hold, and how many slots are in use.
use simplefs.Base.{
  ℕ, zero, suc, ◌+◌, ◌≤◌, ◌<◌, ◌≡◌, ◌≢◌, refl, List, [], ◌∷◌, some, ◌==◌, if◌then◌else◌, arith,
  length, get_elem?, set,
}
use simplefs.Simple.Types.{Inode}

-- The inode number in slot `i`; 0 for a slot that is free or not there.
abbrev pub slot_no : List Inode → ℕ → ℕ
slot_no [] i = 0
slot_no (x ∷ xs) zero = x.inode_no
slot_no (x ∷ xs) (suc i) = slot_no xs i

-- 1 for an inode number, 0 for the 0 of a free slot.
abbrev pub in_use : ℕ → ℕ
in_use n = if n == 0 then 0 else 1

abbrev pub used_count : List Inode → ℕ
used_count [] = 0
used_count (x ∷ xs) = in_use x.inode_no + used_count xs

pub slot_no-get :
    (l : List Inode) (i : ℕ) (x : Inode) → get_elem? l i ≡ some x → slot_no l i ≡ x.inode_no
slot_no-get [] i x h = absurd (ground arith)
slot_no-get (y ∷ l) zero x h = ground arith
slot_no-get (y ∷ l) (suc i) x h = slot_no-get l i x h

pub slot_no-set :
    (l : List Inode) (i j : ℕ) (x : Inode)
    → i < length l
    → slot_no (set l i x) j ≡ (if i == j then x.inode_no else slot_no l j)
slot_no-set [] i j x h = elim h [ ]
slot_no-set (y ∷ l) zero zero x h = refl
slot_no-set (y ∷ l) zero (suc j) x h = ground arith
slot_no-set (y ∷ l) (suc i) zero x h = ground arith
slot_no-set (y ∷ l) (suc i) (suc j) x h = ground (arith, slot_no-set l i j x)

pub used_count-set :
    (l : List Inode) (i : ℕ) (x : Inode)
    → i < length l
    → used_count (set l i x) + in_use (slot_no l i) ≡ used_count l + in_use x.inode_no
used_count-set [] i x h = elim h [ ]
used_count-set (y ∷ l) zero x h = omega arith
used_count-set (y ∷ l) (suc i) x h = omega (arith, used_count-set l i x (omega arith))

pub used_count-le : (l : List Inode) → used_count l ≤ length l
used_count-le [] = omega arith
used_count-le (x ∷ l) = ground (arith, used_count-le l)

-- A slot in use is counted.
pub used_count-pos : (l : List Inode) (i : ℕ) → slot_no l i ≢ 0 → 0 < used_count l
used_count-pos [] i h = absurd (h refl)
used_count-pos (x ∷ l) zero h = ground arith
used_count-pos (x ∷ l) (suc i) h = omega (arith, used_count-pos l i h)

-- Where the slots from `n` on are free, at most `n` are in use.
pub used_count-bounded :
    (l : List Inode) (n : ℕ) → ((i : ℕ) → n ≤ i → slot_no l i ≡ 0) → used_count l ≤ n
used_count-bounded [] n unused = omega arith
used_count-bounded (x ∷ l) zero unused =
    let rest : used_count l ≤ 0 = used_count-bounded l 0 (λ i h. unused (suc i) (omega arith)) in
    ground (arith, unused 0, rest)
used_count-bounded (x ∷ l) (suc n) unused =
    let rest : used_count l ≤ n = used_count-bounded l n (λ i h. unused (suc i) (omega arith)) in
    ground (arith, rest)
