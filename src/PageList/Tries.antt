-- ===== src/PageList/Tries.antt =====
-- The `while (TRUE)` loops that join a page or a list to the end of a list, under contention.
use memory_manager.Base.{
  ℕ, zero, suc, ◌+◌, ◌≤◌, ◌<◌, ◌≡◌, refl, ◌∙◌, Bool, true, false, arith, Option, some, inl, inr,
  Bool-cases,
}
use memory_manager.Pfn.{Heap}
use memory_manager.PageList.Attempts.{Outcome, retry, done, rounds}

-- Memory as the attempt `n + k` finds it, if attempt `n` finds `h` and the ones before it fail.
abbrev pub found : (others : ℕ → Heap → Heap) → (n k : ℕ) → Heap → Heap
found others n zero h = h
found others n (suc k) h = found others (n + 1) k (others n h)

-- A loop whose attempts leave memory as it is unless they find it open.
module _ {A : Type 0} (attempt : Heap → Option (Outcome A)) (is_open : Heap → Bool)
    (result : Heap → A) (works : (h : Heap) → is_open h ≡ true → attempt h ≡ some (done (result h)))
    (fails : (h : Heap) → is_open h ≡ false → attempt h ≡ some (retry h)) where
  now :
      (others : ℕ → Heap → Heap) (left n : ℕ) (h : Heap)
      → is_open h ≡ true
      → rounds (λ _. attempt) others (suc left) n h ≡ some (done (result h))
  unfolding rounds
  now others left n h e = rw (works h e) refl

  later :
      (others : ℕ → Heap → Heap) (left n : ℕ) (h : Heap)
      → is_open h ≡ false
      → rounds (λ _. attempt) others (suc left) n h
        ≡ rounds (λ _. attempt) others left (n + 1) (others n h)
  unfolding rounds
  later others left n h e = rw (fails h e) refl

  pub rounds_first :
      (others : ℕ → Heap → Heap) (k left n : ℕ) (h : Heap)
      → k < left
      → is_open (found others n k h) ≡ true
      → (j : ℕ) × (j ≤ k)
        × (is_open (found others n j h) ≡ true)
        × (rounds (λ _. attempt) others left n h ≡ some (done (result (found others n j h))))
  rounds_first others k zero n h lt e = absurd (omega (arith, lt))
  rounds_first others zero (suc left) n h lt e = (zero, omega arith, e, now others left n h e)
  rounds_first others (suc k) (suc left) n h lt e = elim (Bool-cases (is_open h)) [
    | inl open_now ↦ (zero, omega arith, open_now, now others left n h open_now)
    | inr closed ↦
        let (j, le, opened, run) =
          rounds_first others k left (n + 1) (others n h) (omega (arith, lt)) e in
        (suc j, omega (arith, le), opened, later others left n h closed ∙ run)
  ]

-- What others keep at the waits holds of memory at every attempt.
pub found-keeps :
    (P : Heap → Type 0) (others : ℕ → Heap → Heap)
    → ((n : ℕ) (g : Heap) → P g → P (others n g))
    → (n k : ℕ) (h : Heap) → P h
    → P (found others n k h)
found-keeps P others kept n zero h p = p
found-keeps P others kept n (suc k) h p =
    found-keeps P others kept (n + 1) k (others n h) (kept n h p)
