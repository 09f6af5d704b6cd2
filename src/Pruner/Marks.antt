-- ===== src/Pruner/Marks.antt =====
-- The bits of the free lists that are marked low.
use memory_manager.Base.{
  ℕ, zero, suc, ◌+◌, ◌≤◌, ◌≡◌, refl, ◌∙◌, Bool, true, false, ◌&&◌, ◌==◌, ltb, leb, arith, some,
  if◌then◌else◌, List, [], ◌∷◌, has, distinct, update, Bool-cases, inl, inr,
}
use memory_manager.Pruner.{lists_to_fill, clear_free_list_bit}

-- The indices of the set bits, `left` of them from `i` on.
abbrev pub marked : (left i : ℕ) → (ℕ → Bool) → List ℕ
marked zero i low = []
marked (suc left) i low = if low i then i ∷ marked left (i + 1) low else marked left (i + 1) low

lists_nil : (i : ℕ) (snapshot low : ℕ → Bool) → lists_to_fill zero i snapshot low ≡ some (low, [])
unfolding lists_to_fill
lists_nil i snapshot low = refl

lists-skip :
    (left i : ℕ) (snapshot low : ℕ → Bool) {low' : ℕ → Bool} {xs : List ℕ}
    → snapshot i ≡ false
    → lists_to_fill left (i + 1) snapshot low ≡ some (low', xs)
    → lists_to_fill (suc left) i snapshot low ≡ some (low', xs)
unfolding lists_to_fill
lists-skip left i snapshot low e run = ground (arith, e, run)

lists-take :
    (left i : ℕ) (snapshot low : ℕ → Bool) {low' : ℕ → Bool} {xs : List ℕ}
    → snapshot i ≡ true
    → low i ≡ true
    → lists_to_fill left (i + 1) snapshot (update low i false) ≡ some (low', xs)
    → lists_to_fill (suc left) i snapshot low ≡ some (low', i ∷ xs)
unfolding lists_to_fill clear_free_list_bit
lists-take left i snapshot low e f run = ground (arith, e, f, run)

update-later : (low : ℕ → Bool) (i j : ℕ) → update low i false j ≡ (if j == i then false else low j)
unfolding update
update-later low i j = refl

pub lists_to_fill_lem :
    (left i : ℕ) (snapshot low : ℕ → Bool)
    → ((j : ℕ) → i ≤ j → low j ≡ snapshot j)
    → (low' : ℕ → Bool) × (lists_to_fill left i snapshot low ≡ some (low', marked left i snapshot))
      × ((j : ℕ) → low' j ≡ (if leb i j && ltb j (i + left) then false else low j))
lists_to_fill_lem zero i snapshot low same = (low, lists_nil i snapshot low, λ j. ground arith)
lists_to_fill_lem (suc left) i snapshot low same = elim (Bool-cases (snapshot i)) [
  | inr clear ↦
      let (low', run, bits) =
        lists_to_fill_lem left (i + 1) snapshot low (λ j le. same j (omega (arith, le))) in
      (
        low',
        rw clear (lists-skip left i snapshot low clear run),
        λ j. ground (arith, bits j, same i, clear),
      )
  | inl set ↦
      let (low', run, bits) =
        lists_to_fill_lem left (i + 1) snapshot (update low i false)
          (λ j le. ground (arith, update-later low i j, same j, le)) in
      (
        low',
        rw set (lists-take left i snapshot low set (same i (omega arith) ∙ set) run),
        λ j. ground (arith, bits j, update-later low i j),
      )
]

marked-from : (left i : ℕ) (low : ℕ → Bool) (j : ℕ) → has j (marked left i low) ≡ true → i ≤ j
marked-from zero i low j m = absurd (ground (arith, m))
marked-from (suc left) i low j m = ground (arith, m, marked-from left (i + 1) low j)

pub marked-distinct : (left i : ℕ) (low : ℕ → Bool) → distinct (marked left i low) ≡ true
marked-distinct zero i low = refl
marked-distinct (suc left) i low =
    ground (arith, marked-distinct left (i + 1) low, marked-from left (i + 1) low i)
