-- ===== src/Pruner/Run.antt =====
-- A whole run of the pruner, undisturbed.
use mathlib.Core.Path.{subst}
use memory_manager.Base.{
  ℕ, ◌+◌, ◌*◌, ◌/◌, ◌%◌, ◌^◌, ◌<◌, ◌≤◌, ◌≡◌, refl, sym, ap, ◌∙◌, Bool, true, false, ltb, arith,
  some, if◌then◌else◌, List, [], ◌∷◌, length, take, drop, length-take,
}
use memory_manager.Pfn.{Heap}
use memory_manager.PageList.Ring.{IsList}
use memory_manager.PageList.Walk.{AllFree}
use memory_manager.PageList.Batch.{Batch, remove_batch_from_list_head}
use memory_manager.System.{System}
use memory_manager.FaultHandler.{Outside}
use memory_manager.FaultHandler.Standby.{AreOwned}
use memory_manager.FaultHandler.Refill.{batched}
use memory_manager.Pruner.{send_to_disk, lists_to_fill, fill_lists, prune_pages}
use memory_manager.Pruner.Lost.{prune-start}
use memory_manager.Pruner.Marks.{marked, lists_to_fill_lem}
use memory_manager.Pruner.Deal.{total, IsDealable}
use memory_manager.Pruner.Dealt.{fill_lists_lem}
use memory_manager.Pruner.Taken.{counted, IsPruneRun, sent-IsDealable, dealt-IsPruneRun}

prune-run :
    (o : Outside) (fuel : ℕ) (temps : ℕ → ℕ) (low low' : ℕ → Bool) (s s₁ s₂ : System) (b : Batch)
    (first index : ℕ) (rest : List ℕ)
    → remove_batch_from_list_head o.shared o.others s.standby_list 256 s.heap ≡ some b
    → b.first ≡ some first
    → send_to_disk (b.count % 2 ^ 16) first (batched o s b) ≡ some s₁
    → lists_to_fill 16 0 low low ≡ some (low', index ∷ rest)
    → fill_lists o.others fuel temps
        (b.count % 2 ^ 16 / length (index ∷ rest))
        (b.count % 2 ^ 16 % length (index ∷ rest))
        0
        first
        (index ∷ rest)
        s₁
      ≡ some s₂
    → prune_pages o fuel temps low s ≡ some (counted s₂ (b.count % 2 ^ 16), low', b.count % 2 ^ 16)
unfolding prune_pages
prune-run o fuel temps low low' s s₁ s₂ b first index rest run at sends marks fills =
    rw (run, at, sends, marks, fills) refl

total-sum :
    (small extra j : ℕ) (rest : List ℕ)
    → total small extra (j ∷ rest) ≡ small * length (j ∷ rest) + extra
total-sum small extra j [] = grind arith
total-sum small extra j (i ∷ rest) = let tail = total-sum small extra i rest in grind (arith, tail)

shares-sum : (n m : ℕ) → 0 < m → n / m * m + n % m ≡ n
shares-sum n m pos = grind arith

-- Where no other thread acts, some free list is marked low, the standby list has pages, each owned by
-- an entry of its own, and can be locked shared, its head and first two pages are unlocked, and the
-- standby list, the free lists marked low and the temporary lists' heads share no record: a run of
-- the pruner returns. It has taken the first n pages of the standby list, for some n of 1 to 256; their
-- entries name the slots that hold their contents, and no other entry has changed. Every marked list
-- has its share of these pages at its end, in order: as many pages for each list, and for the last
-- one what is left over as well. The standby list has its other pages, in order, and the marks are
-- cleared.
pub prune_pages_lem :
    (o : Outside) (fuel : ℕ) (temps : ℕ → ℕ) (low : ℕ → Bool) (s : System) (owner : ℕ → ℕ) (x : ℕ)
    (xs : List ℕ) (pages : ℕ → List ℕ) (index : ℕ) (rest : List ℕ)
    → marked 16 0 low ≡ index ∷ rest
    → o.shared 0 ≡ true
    → ((n : ℕ) (g : Heap) → o.others n g ≡ g)
    → 0 < fuel
    → IsList s.heap s.standby_list.head (x ∷ xs)
    → (s.heap s.standby_list.head).lock ≡ 0
    → AllFree s.heap (take 2 (x ∷ xs))
    → s.pf.max_disk_index < 2 ^ 40
    → AreOwned s owner (x ∷ xs)
    → IsDealable s temps pages (index ∷ rest) (s.standby_list.head ∷ x ∷ xs) s.standby_list.head
    → (n : ℕ) × (s' : System) × (low' : ℕ → Bool) × (prune_pages o fuel temps low s
        ≡ some (s', low', length (take n (x ∷ xs))))
      × (1 ≤ n)
      × (n ≤ 256)
      × ((j : ℕ) → low' j ≡ (if ltb j 16 then false else low j))
      × IsPruneRun s s' owner pages (index ∷ rest) (take n (x ∷ xs)) (drop n (x ∷ xs))
prune_pages_lem o fuel temps low s owner x xs pages index rest marks shared idle pos is free_head
      free small own able =
    let (n, b, s₁, some_pages, few, run, at, count, batch, sends, r) =
      prune-start o s owner x xs shared is free_head free small own in
    let taken : List ℕ = take n (x ∷ xs) in
    let todo : List ℕ = index ∷ rest in
    let fits : b.count % 2 ^ 16 ≡ length taken =
      omega (arith, count, few, length-take n (x ∷ xs)) in
    let (low', fill, bits) = lists_to_fill_lem 16 0 low low (λ j le. refl) in
    let sum : total (length taken / length todo) (length taken % length todo) todo ≤ length taken =
      omega (
        arith,
        total-sum (length taken / length todo) (length taken % length todo) index rest,
        shares-sum (length taken) (length todo) (omega arith),
      ) in
    let (s₂, deals, dealt) =
      fill_lists_lem o.others fuel temps (length taken / length todo) (length taken % length todo) 0
        x todo taken pages s₁ idle pos sum
        (sent-IsDealable o s s₁ temps pages todo owner n x xs b able batch at r) in
    (
      n,
      counted s₂ (b.count % 2 ^ 16),
      low',
      prune-run o fuel temps low low' s s₁ s₂ b x index rest run at
            (subst (λ v. send_to_disk v x (batched o s b) ≡ some s₁) (sym fits) sends)
            (fill ∙ ap (λ l. some (low', l)) marks)
            (subst
              (λ v.
                fill_lists o.others fuel temps (v / length todo) (v % length todo) 0 x todo s₁
                ≡ some s₂)
              (sym fits) deals)
          ∙ ap (λ v. some (counted s₂ (b.count % 2 ^ 16), low', v)) fits,
      some_pages,
      few,
      (λ j. ground (arith, bits j)),
      dealt-IsPruneRun o s s₁ temps pages todo owner n x xs b able batch at r index s₂ is
          (ground arith) dealt (b.count % 2 ^ 16),
    )
