-- ===== src/PageList/Ends.antt =====
-- Where the batch of `remove_batch_from_list_head` ends, and the part behind its attempts.
use memory_manager.Base.{
  ℕ, zero, suc, ◌-◌, ◌≡◌, refl, ap, true, false, List, [], ◌∷◌, ◌++◌, some, arith, update, has,
  take, drop, ◌⊎◌, inl, inr,
}
use memory_manager.Pfn.{Heap, unlock_pfn}
use memory_manager.Pfn.Lock.{with_lock}
use memory_manager.PageList.{PageList, neg64, change_list_size}
use memory_manager.PageList.Walk.{AllFree, Keeps}
use memory_manager.PageList.Cut.{cut}
use memory_manager.PageList.Batch.{widen_batch, finish_batch}

drop-none : (m : ℕ) → ◌≡◌ {A = List ℕ} (drop m []) []
drop-none zero = refl
drop-none (suc m) = refl

take-none : (m : ℕ) → ◌≡◌ {A = List ℕ} (take m []) []
take-none zero = refl
take-none (suc m) = refl

-- The page in front of which the batch ends, and the pages that the loop has looked at.
pub take-next :
    (m y : ℕ) (ys : List ℕ) {z : ℕ} {zs : List ℕ}
    → drop m (y ∷ ys) ≡ z ∷ zs
    → y ∷ take m ys ≡ take m (y ∷ ys) ++ z ∷ []
take-next zero y ys e = ground (arith, e)
take-next (suc m) y [] e = let n = drop-none m in cc
take-next (suc m) y (v ∷ ys) e = ap (λ l. y ∷ l) (take-next m v ys e)

pub take-all :
    (m y : ℕ) (ys : List ℕ) → drop m (y ∷ ys) ≡ [] → (take m (y ∷ ys) ≡ y ∷ ys) × (take m ys ≡ ys)
take-all zero y ys e = cc
take-all (suc m) y [] e = (ap (λ l. y ∷ l) (take-none m), refl)
take-all (suc m) y (v ∷ ys) e =
    let r = take-all m v ys e in (ap (λ l. y ∷ l) r.0, ap (λ l. v ∷ l) r.1)

-- The part behind the attempts, from the outcome of the loop that widens the batch.
pub finish-end :
    (list : PageList) (capacity first next : ℕ) (h h₁ h₂ : Heap) (n : ℕ)
    → widen_batch (capacity - 1) list.head next (h next).flink 1 h ≡ (h₁, list.head, true, n)
    → unlock_pfn (cut h₁ list.head list.head) list.head ≡ some h₂
    → finish_batch list capacity h first next
      ≡ some (record {
        heap = h₂;
        list = change_list_size list (neg64 n);
        first = some first;
        count = n;
      })
unfolding finish_batch
finish-end list capacity first next h h₁ h₂ n e u = rw (e, u) refl

pub finish-page :
    (list : PageList) (capacity first next z : ℕ) (h h₁ h₂ h₃ : Heap) (n : ℕ)
    → widen_batch (capacity - 1) list.head next (h next).flink 1 h ≡ (h₁, z, false, n)
    → unlock_pfn (cut h₁ list.head z) list.head ≡ some h₂
    → unlock_pfn h₂ z ≡ some h₃
    → finish_batch list capacity h first next
      ≡ some (record {
        heap = h₃;
        list = change_list_size list (neg64 n);
        first = some first;
        count = n;
      })
unfolding finish_batch
finish-page list capacity first next z h h₁ h₂ h₃ n e u v = rw (e, u, v) refl

pub list_cases : (xs : List ℕ) → (xs ≡ []) ⊎ ((z : ℕ) × (zs : List ℕ) × (xs ≡ z ∷ zs))
list_cases [] = inl refl
list_cases (z ∷ zs) = inr (z, zs, refl)

pub twice-links :
    (h : Heap) (a b q : ℕ)
    → ((with_lock (with_lock h a 0) b 0 q).flink ≡ (h q).flink)
      × ((with_lock (with_lock h a 0) b 0 q).blink ≡ (h q).blink)
unfolding update
twice-links h a b q = ground arith

pub twice-Keeps : (h : Heap) (a b : ℕ) → Keeps h (with_lock (with_lock h a 0) b 0)
unfolding update
twice-Keeps h a b q = ground arith

pub AllFree-has : (h : Heap) (q : ℕ) (xs : List ℕ) → AllFree h xs → has q xs ≡ true → (h q).lock ≡ 0
AllFree-has h q [] a m = cc
AllFree-has h q (x ∷ xs) a m = ground (arith, a.0, AllFree-has h q xs a.1)
