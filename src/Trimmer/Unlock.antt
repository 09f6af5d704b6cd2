-- ===== src/Trimmer/Unlock.antt =====
-- The last loop of the trimmer and of the writer: unlocking a batch.
use memory_manager.Base.{
  ℕ, suc, ◌≡◌, refl, ◌∙◌, true, some, arith, if◌then◌else◌, List, [], ◌∷◌, has, distinct, length,
}
use memory_manager.Pfn.{Heap, unlock_pfn}
use memory_manager.Pfn.Lock.{with_lock, unlock_pfn-locked}
use memory_manager.PageList.Walk.{
  along, Keeps, along-links, with_lock-links, with_lock-Keeps, with_lock-lock,
}
use memory_manager.System.{System, unlock_page}
use memory_manager.Trimmer.{unlock_batch}

-- The batch is unlocked, and nothing else has changed.
pub record AreUnlocked (h : Heap) (xs : List ℕ) (h' : Heap) : Type 0 where
  pub links : (q : ℕ) → ((h' q).flink ≡ (h q).flink) × ((h' q).blink ≡ (h q).blink)
  pub keeps : Keeps h h'
  pub locks : (q : ℕ) → (h' q).lock ≡ (if has q xs then 0 else (h q).lock)

unlock-step :
    (n p : ℕ) (s : System) (h : Heap)
    → unlock_pfn s.heap p ≡ some h
    → unlock_batch (suc n) p s ≡ unlock_batch n (s.heap p).flink (record s { heap = h })
unfolding unlock_batch unlock_page
unlock-step n p s h e = rw e refl

unlock_nil : (p : ℕ) (s : System) → unlock_batch 0 p s ≡ some s
unfolding unlock_batch
unlock_nil p s = refl

pub unlock_batch_lem :
    (xs : List ℕ) (p : ℕ) (s : System)
    → along s.heap p (length xs) ≡ xs
    → distinct xs ≡ true
    → ((q : ℕ) → has q xs ≡ true → (s.heap q).lock ≡ 1)
    → (h : Heap) × (unlock_batch (length xs) p s ≡ some (record s { heap = h }))
      × AreUnlocked s.heap xs h
unlock_batch_lem [] p s e d held = (
  s.heap,
  unlock_nil p s,
  record { links = λ q. (refl, refl); keeps = λ q. (refl, refl, refl, refl); locks = λ q. refl },
)
unlock_batch_lem (x ∷ xs) p s e d held =
    let at : p ≡ x = ground (arith, e) in
    let h₁ : Heap = with_lock s.heap p 0 in
    let tail : along s.heap (s.heap p).flink (length xs) ≡ xs = ground (arith, e) in
    let (h, run, rest) =
      unlock_batch_lem xs (s.heap p).flink (record s { heap = h₁ })
        (along-links s.heap h₁ (s.heap p).flink (length xs) (λ q. (with_lock-links s.heap p 0 q).0)
          ∙ tail)
        (ground arith) (λ q m. ground (arith, with_lock-lock s.heap p 0 q, held q)) in
    (
      h,
      unlock-step (length xs) p s h₁ (unlock_pfn-locked s.heap p (ground (arith, held p))) ∙ run,
      record {
        links = λ q. ground (arith, rest.links q, with_lock-links s.heap p 0 q);
        keeps = λ q. ground (arith, rest.keeps q, with_lock-Keeps s.heap p 0 q);
        locks = λ q. ground (arith, rest.locks q, with_lock-lock s.heap p 0 q);
      },
    )
