-- ===== src/Disk/Bits.antt =====
-- Counting and changing the bits of the bitmaps, and the slots on the stack.
use memory_manager.Base.{
  ℕ, zero, suc, ◌+◌, ◌-◌, ◌*◌, ◌≤◌, ◌<◌, ◌≡◌, refl, Bool, true, false, List, [], ◌∷◌, arith, ◌==◌,
  get_or, set, length, All, if◌then◌else◌, update,
}
use memory_manager.Disk.{Row, clear_bits, set_bits}

pub clear_bits-set :
    (row : Row) (i : ℕ) (b : Bool)
    → i < length row
    → clear_bits (set row i b) + (if get_or row i true then 0 else 1)
      ≡ clear_bits row + (if b then 0 else 1)
clear_bits-set [] i b h = elim h [ ]
clear_bits-set (x ∷ xs) zero b h = ground arith
clear_bits-set (x ∷ xs) (suc i) b h = ground (arith, clear_bits-set xs i b)

pub clear_bits-set_bits : (row : Row) → clear_bits row + set_bits row ≡ length row
clear_bits-set_bits [] = refl
clear_bits-set_bits (true ∷ xs) = omega (arith, clear_bits-set_bits xs)
clear_bits-set_bits (false ∷ xs) = omega (arith, clear_bits-set_bits xs)

-- The zero bits of all rows.
abbrev pub total_clear : List Row → ℕ
total_clear [] = 0
total_clear (r ∷ rs) = clear_bits r + total_clear rs

pub total_clear-set :
    (rows : List Row) (r : ℕ) (row : Row)
    → r < length rows
    → total_clear (set rows r row) + clear_bits (get_or rows r [])
      ≡ total_clear rows + clear_bits row
total_clear-set [] r row h = elim h [ ]
total_clear-set (x ∷ xs) zero row h = omega arith
total_clear-set (x ∷ xs) (suc r) row h = omega (arith, total_clear-set xs r row)

pub get_or-set {ℓ} :
    {A : Type ℓ} (xs : List A) (i j : ℕ) (v d : A)
    → i < length xs
    → get_or (set xs i v) j d ≡ (if i == j then v else get_or xs j d)
get_or-set [] i j v d h = elim h [ ]
get_or-set (x ∷ xs) zero zero v d h = refl
get_or-set (x ∷ xs) zero (suc j) v d h = ground arith
get_or-set (x ∷ xs) (suc i) zero v d h = ground arith
get_or-set (x ∷ xs) (suc i) (suc j) v d h = ground (arith, get_or-set xs i j v d)

-- All rows have 64 bits.
abbrev pub AreRows : List Row → Type 0
AreRows rows = All (λ r. length r ≡ 64) rows

pub AreRows-at :
    (rows : List Row) (r : ℕ) → AreRows rows → r < length rows → length (get_or rows r []) ≡ 64
AreRows-at [] r h lt = elim lt [ ]
AreRows-at (x ∷ xs) zero h lt = h.0
AreRows-at (x ∷ xs) (suc r) h lt = AreRows-at xs r h.1 (omega arith)

pub AreRows-set :
    (rows : List Row) (r : ℕ) (row : Row)
    → AreRows rows
    → length row ≡ 64
    → AreRows (set rows r row)
AreRows-set [] r row h e = tt
AreRows-set (x ∷ xs) zero row h e = (e, h.1)
AreRows-set (x ∷ xs) (suc r) row h e = (h.0, AreRows-set xs r row h.1 e)

-- The slots on the stack, top first.
abbrev pub stash : ℕ → (ℕ → ℕ) → List ℕ
stash zero f = []
stash (suc n) f = f n ∷ stash n f

pub stash-update : (n k : ℕ) (f : ℕ → ℕ) (v : ℕ) → n ≤ k → stash n (update f k v) ≡ stash n f
unfolding update
stash-update zero k f v h = refl
stash-update (suc n) k f v h = ground (arith, stash-update n k f v)

pub total_clear-le : (rows : List Row) → AreRows rows → total_clear rows ≤ length rows * 64
total_clear-le [] h = omega arith
total_clear-le (r ∷ rs) h = omega (arith, clear_bits-set_bits r, total_clear-le rs h.1)

pub stash-pos : (n : ℕ) (f : ℕ → ℕ) → 0 < n → stash n f ≡ f (n - 1) ∷ stash (n - 1) f
stash-pos zero f h = elim h [ ]
stash-pos (suc n) f h = let e : suc n - 1 ≡ n = omega arith in rw e

pub get_or-clear :
    (row : Row) (i : ℕ) → set_bits row ≡ 0 → i < length row → get_or row i true ≡ false
get_or-clear [] i e h = elim h [ ]
get_or-clear (true ∷ xs) i e h = absurd (omega arith)
get_or-clear (false ∷ xs) zero e h = refl
get_or-clear (false ∷ xs) (suc i) e h = get_or-clear xs i (omega arith) (omega arith)

pub get_or-full : (row : Row) (i : ℕ) → clear_bits row ≡ 0 → get_or row i true ≡ true
get_or-full [] i e = refl
get_or-full (false ∷ xs) i e = absurd (omega arith)
get_or-full (true ∷ xs) zero e = refl
get_or-full (true ∷ xs) (suc i) e = get_or-full xs i (omega arith)

pub clear_bits-of_set :
    (row : Row) → ((i : ℕ) → i < length row → get_or row i true ≡ true) → clear_bits row ≡ 0
clear_bits-of_set [] h = refl
clear_bits-of_set (x ∷ xs) h =
    ground (arith, h 0 (omega arith), clear_bits-of_set xs (λ i lt. h (suc i) (omega arith)))
