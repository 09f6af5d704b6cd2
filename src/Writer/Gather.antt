-- ===== src/Writer/Gather.antt =====
-- The pages of a write batch: taken off the modified list, marked and unlocked.
use mathlib.Core.Path.{fun_ext}
use memory_manager.Base.{
  ℕ, zero, suc, ◌+◌, ◌-◌, ◌≡◌, ◌≢◌, ◌≤◌, ◌<◌, refl, sym, ap, ◌∙◌, true, false, none, some, arith,
  update, List, if◌then◌else◌, distinct, take, drop, [], ◌∷◌, ◌++◌, length, has, has-ne,
}
use memory_manager.Pfn.{Heap, set_pfn_mid_write}
use memory_manager.Pfn.Lock.{with_lock, unlock_pfn-locked}
use memory_manager.PageList.Ring.{IsList}
use memory_manager.PageList.Walk.{along, along-links}
use memory_manager.PageList.Batch.{Batch, remove_batch_from_list_head}
use memory_manager.System.{System, write_pfn, unlock_page}
use memory_manager.Writer.{Outside, start_writing, gather_pages}

-- The pages are mid-write and unlocked, the other records as they were.
abbrev pub started : List ℕ → Heap → Heap
started xs h q = if has q xs then record (h q) { lock = 0; status = 4; reserved = 0 } else h q

abbrev started_one : Heap → (p : ℕ) → Heap
started_one h p = update h p (record (h p) { lock = 0; status = 4; reserved = 0 })

abbrev mid_written : Heap → (p : ℕ) → Heap
mid_written h p = update h p (set_pfn_mid_write (h p))

mid_written-lock : (h : Heap) (p : ℕ) → (mid_written h p p).lock ≡ (h p).lock
unfolding set_pfn_mid_write update
mid_written-lock h p = ground arith

mid_written-flink : (h : Heap) (p : ℕ) → (mid_written h p p).flink ≡ (h p).flink
unfolding set_pfn_mid_write update
mid_written-flink h p = ground arith

mid_written-unlock : (h : Heap) (p : ℕ) → with_lock (mid_written h p) p 0 ≡ started_one h p
unfolding set_pfn_mid_write update
mid_written-unlock h p = fun_ext (λ q. ground arith)

one_started-unlock :
    (s : System) (p : ℕ)
    → (s.heap p).lock ≡ 1
    → unlock_page (write_pfn s p (set_pfn_mid_write (s.heap p))) p
      ≡ some (record s { heap = started_one s.heap p })
unfolding unlock_page
one_started-unlock s p held =
    rw (unlock_pfn-locked (mid_written s.heap p) p (mid_written-lock s.heap p ∙ held))
      (ap (λ (h : Heap). some (record s { heap = h })) (mid_written-unlock s.heap p))

start-step :
    (n p : ℕ) (s : System) {s' : System} {xs : List ℕ}
    → (s.heap p).lock ≡ 1
    → start_writing n (s.heap p).flink (record s { heap = started_one s.heap p }) ≡ some (s', xs)
    → start_writing (suc n) p s ≡ some (s', p ∷ xs)
unfolding start_writing
start-step n p s held e = rw (one_started-unlock s p held, mid_written-flink s.heap p, e) refl

start_nil : (p : ℕ) (s : System) → start_writing 0 p s ≡ some (s, [])
unfolding start_writing
start_nil p s = refl

started-cons :
    (p : ℕ) (xs : List ℕ) (h : Heap)
    → has p xs ≡ false
    → started xs (started_one h p) ≡ started (p ∷ xs) h
unfolding update
started-cons p xs h out = fun_ext (λ q. ground (arith, out))

started_one-flink : (h : Heap) (p q : ℕ) → (started_one h p q).flink ≡ (h q).flink
unfolding update
started_one-flink h p q = ground arith

started_one-lock : (h : Heap) (p q : ℕ) → q ≢ p → (started_one h p q).lock ≡ (h q).lock
unfolding update
started_one-lock h p q ne = ground arith

pub start_writing_lem :
    (xs : List ℕ) (p : ℕ) (s : System)
    → along s.heap p (length xs) ≡ xs
    → distinct xs ≡ true
    → ((q : ℕ) → has q xs ≡ true → (s.heap q).lock ≡ 1)
    → start_writing (length xs) p s ≡ some (record s { heap = started xs s.heap }, xs)
start_writing_lem [] p s e d held = start_nil p s
start_writing_lem (x ∷ xs) p s e d held =
    let at : p ≡ x = ground (arith, e) in
    let tail : along s.heap (s.heap p).flink (length xs) ≡ xs = ground (arith, e) in
    let out : has p xs ≡ false = ground (arith, d) in
    let s₁ : System = record s { heap = started_one s.heap p } in
    let rest =
      start_writing_lem xs (s.heap p).flink s₁
        (along-links s.heap s₁.heap (s.heap p).flink (length xs) (started_one-flink s.heap p)
          ∙ tail)
        (ground (arith, d))
        (λ q m. ground (arith, started_one-lock s.heap p q, held q, m, has-ne q p xs)) in
    start-step (length xs) p s (ground (arith, held p)) rest
    ∙ ap (λ (h : Heap). some (record s { heap = h }, p ∷ xs)) (started-cons p xs s.heap out)
    ∙ ap (λ v. some (record s { heap = started (v ∷ xs) s.heap }, v ∷ xs)) at

take_nil : (n : ℕ) → take {A = ℕ} n [] ≡ []
take_nil zero = refl
take_nil (suc n) = refl

drop_nil : (n : ℕ) → drop {A = ℕ} n [] ≡ []
drop_nil zero = refl
drop_nil (suc n) = refl

pub take-split :
    (n k : ℕ) (xs : List ℕ)
    → n ≤ k
    → take k xs ≡ take n xs ++ take (k - length (take n xs)) (drop n xs)
take-split zero k xs le = ap (λ v. take v xs) (omega arith)
take-split (suc n) zero xs le = absurd (omega arith)
take-split (suc n) (suc k) [] le = sym (take_nil (suc k - 0))
take-split (suc n) (suc k) (x ∷ xs) le =
    ap (λ l. x ∷ l) (take-split n k xs (omega arith))
    ∙ ap (λ v. x ∷ take n xs ++ take v (drop n xs)) (omega arith)

pub drop-split :
    (n k : ℕ) (xs : List ℕ) → n ≤ k → drop k xs ≡ drop (k - length (take n xs)) (drop n xs)
drop-split zero k xs le = ap (λ v. drop v xs) (omega arith)
drop-split (suc n) zero xs le = absurd (omega arith)
drop-split (suc n) (suc k) [] le = sym (drop_nil (suc k - 0))
drop-split (suc n) (suc k) (x ∷ xs) le =
    drop-split n k xs (omega arith) ∙ ap (λ v. drop v (drop n xs)) (omega arith)

-- What gathering has done: the pages are mid-write and unlocked, the rest of the list is in order, no
-- lock and no owner has changed, and no record off the list.
pub record IsTakenOff (s s' : System) (xs taken rest : List ℕ) : Type 0 where
  pub left : IsList s'.heap s.modified_list.head rest
  pub locks : (q : ℕ) → (s'.heap q).lock ≡ (s.heap q).lock
  pub states : (q : ℕ) → (s'.heap q).status ≡ (if has q taken then 4 else (s.heap q).status)
  pub owners : (q : ℕ) → (s'.heap q).pte ≡ (s.heap q).pte
  pub links :
      (q : ℕ)
      → has q (s.modified_list.head ∷ xs) ≡ false
      → ((s'.heap q).flink ≡ (s.heap q).flink) × ((s'.heap q).blink ≡ (s.heap q).blink)
  pub same : s' ≡ record s {
    heap = s'.heap;
    modified_list = record (s.modified_list) { list_size = s'.modified_list.list_size };
  }

pub gather-full :
    (fuel : ℕ) (o : Outside) (target misses : ℕ) (pages : List ℕ) (s : System)
    → target ≤ length pages
    → gather_pages fuel o target misses pages s ≡ some (s, pages)
unfolding gather_pages
gather-full zero o target misses pages s full = refl
gather-full (suc fuel) o target misses pages s full = ground arith

pub gather-miss :
    (fuel : ℕ) (o : Outside) (target misses : ℕ) (pages : List ℕ) (s : System) (b : Batch)
    → length pages < target
    → misses + 1 < 5
    → remove_batch_from_list_head o.shared o.others s.modified_list (target - length pages) s.heap
      ≡ some b
    → b.first ≡ none
    → gather_pages (suc fuel) o target misses pages s
      ≡ gather_pages fuel o target
          (misses + 1)
          pages
          (record s { heap = b.heap; modified_list = b.list })
unfolding gather_pages
gather-miss fuel o target misses pages s b room few e f = ground (arith, room, few, e, f)

pub gather-last_miss :
    (fuel : ℕ) (o : Outside) (target misses : ℕ) (pages : List ℕ) (s : System) (b : Batch)
    → length pages < target
    → misses + 1 ≡ 5
    → remove_batch_from_list_head o.shared o.others s.modified_list (target - length pages) s.heap
      ≡ some b
    → b.first ≡ none
    → gather_pages (suc fuel) o target misses pages s
      ≡ some (record s { heap = b.heap; modified_list = b.list }, pages)
unfolding gather_pages
gather-last_miss fuel o target misses pages s b room few e f = ground (arith, room, few, e, f)

pub gather-step :
    (fuel : ℕ) (o : Outside) (target misses : ℕ) (pages : List ℕ) (s s₁ : System) (b : Batch)
    (p : ℕ) (xs : List ℕ)
    → length pages < target
    → remove_batch_from_list_head o.shared o.others s.modified_list (target - length pages) s.heap
      ≡ some b
    → b.first ≡ some p
    → start_writing b.count p (record s { heap = b.heap; modified_list = b.list }) ≡ some (s₁, xs)
    → gather_pages (suc fuel) o target misses pages s
      ≡ gather_pages fuel o target misses (pages ++ xs) s₁
unfolding gather_pages
gather-step fuel o target misses pages s s₁ b p xs room e f g = ground (arith, room, e, f, g)
