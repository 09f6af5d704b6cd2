-- ===== src/Trimmer/Walk.antt =====
-- The trimmer's walk over the page table.
use memory_manager.Base.{
  ℕ, zero, suc, ◌+◌, ◌≡◌, ◌≤◌, ◌<◌, inl, inr, refl, true, false, none, some, arith, update, List,
  [], ◌∷◌, ◌++◌, length, Option-cases, All, has, distinct, distinct-snoc, length-append, ◌∙◌, sym,
  dec_lt,
}
use memory_manager.Config.{max_trim_batch_size}
use memory_manager.Pfn.{Heap, lock_pfn}
use memory_manager.Pfn.Lock.{with_lock}
use memory_manager.Locks.{try_lock}
use memory_manager.System.{System, lock_page, try_lock_pte, unlock_pte}
use memory_manager.Trimmer.{next_pte, visit_entry, trim_entry, trim_scan}

visit_entry-none :
    (pte : ℕ) (s : System) {s' : System}
    → visit_entry pte s ≡ some (s', none)
    → (s'.heap ≡ s.heap) × (s'.vm ≡ s.vm)
unfolding visit_entry try_lock_pte
visit_entry-none pte s e = ground arith

lock_page-heap :
    (s : System) (p : ℕ) {s' : System}
    → lock_page s p ≡ some s'
    → ((s.heap p).lock ≡ 0) × (s'.heap ≡ with_lock s.heap p 1) × (s'.vm ≡ s.vm)
unfolding lock_page lock_pfn try_lock
lock_page-heap s p e = ground arith

trim_entry-page :
    (pte : ℕ) (s : System) {s' : System} {page : ℕ}
    → trim_entry pte s ≡ some (s', page)
    → ((s.heap page).lock ≡ 0) × (s'.heap ≡ with_lock s.heap page 1) × (s'.vm ≡ s.vm)
unfolding trim_entry unlock_pte
trim_entry-page pte s e = grind (arith, lock_page-heap)

visit_entry-some :
    (pte : ℕ) (s : System) {s' : System} {page : ℕ}
    → visit_entry pte s ≡ some (s', some page)
    → ((s.heap page).lock ≡ 0) × (s'.heap ≡ with_lock s.heap page 1) × (s'.vm ≡ s.vm)
unfolding visit_entry try_lock_pte
visit_entry-some pte s {s'} {page} e =
    let same : (try_lock_pte s pte).0.heap ≡ s.heap = refl in
    let vm : (try_lock_pte s pte).0.vm ≡ s.vm = refl in
    let trimmed = trim_entry-page pte (try_lock_pte s pte).0 {s' = s'} {page = page} in
    ground (arith, trimmed, same, vm)

-- Every page of the batch is locked, and no page is in it twice.
abbrev pub IsHeld : System → List ℕ → Type 0
IsHeld s batch = All (λ q. (s.heap q).lock ≡ 1) batch × (distinct batch ≡ true)

All-held-out :
    (s : System) (page : ℕ) (batch : List ℕ)
    → (s.heap page).lock ≡ 0
    → All (λ q. (s.heap q).lock ≡ 1) batch
    → has page batch ≡ false
All-held-out s page [] free h = refl
All-held-out s page (x ∷ batch) free h = ground (arith, All-held-out s page batch free h.1)

All-snoc-held :
    (h : Heap) (page : ℕ) (batch : List ℕ)
    → All (λ q. (h q).lock ≡ 1) batch
    → All (λ q. (with_lock h page 1 q).lock ≡ 1) (batch ++ page ∷ [])
unfolding update
All-snoc-held h page [] a = (ground arith, tt)
All-snoc-held h page (x ∷ batch) a = (ground (arith, a.0), All-snoc-held h page batch a.1)

IsHeld-snoc :
    (s s' : System) (page : ℕ) (batch : List ℕ)
    → IsHeld s batch
    → (s.heap page).lock ≡ 0
    → s'.heap ≡ with_lock s.heap page 1
    → IsHeld s' (batch ++ page ∷ [])
IsHeld-snoc s s' page batch held free e = (
  rw e (All-snoc-held s.heap page batch held.0),
  distinct-snoc batch page held.1 (All-held-out s page batch free held.0),
)

IsHeld-same : (s s' : System) (batch : List ℕ) → s'.heap ≡ s.heap → IsHeld s batch → IsHeld s' batch
IsHeld-same s s' batch e held = rw e held

pub next_pte-lt : (s : System) (pte : ℕ) → pte < s.vm.num_ptes → next_pte s pte < s.vm.num_ptes
unfolding next_pte
next_pte-lt s pte lt = ground arith

pub trim_scan-stop :
    (left pte : ℕ) (batch : List ℕ) (s : System)
    → max_trim_batch_size ≤ length batch
    → trim_scan (suc left) pte batch s ≡ some (s, pte, batch)
unfolding trim_scan
trim_scan-stop left pte batch s full = ground arith

pub trim_scan-none :
    (left pte : ℕ) (batch : List ℕ) (s : System) {s' : System}
    → length batch < max_trim_batch_size
    → visit_entry (next_pte s pte) s ≡ some (s', none)
    → trim_scan (suc left) pte batch s ≡ trim_scan left (next_pte s pte) batch s'
unfolding trim_scan
trim_scan-none left pte batch s room e = ground arith

pub trim_scan-some :
    (left pte : ℕ) (batch : List ℕ) (s : System) {s' : System} {page : ℕ}
    → length batch < max_trim_batch_size
    → visit_entry (next_pte s pte) s ≡ some (s', some page)
    → trim_scan (suc left) pte batch s ≡ trim_scan left (next_pte s pte) (batch ++ page ∷ []) s'
unfolding trim_scan
trim_scan-some left pte batch s room e = ground arith

trim_scan-fails :
    (left pte : ℕ) (batch : List ℕ) (s : System)
    → length batch < max_trim_batch_size
    → visit_entry (next_pte s pte) s ≡ none
    → trim_scan (suc left) pte batch s ≡ none
unfolding trim_scan
trim_scan-fails left pte batch s room e = ground arith

pub trim_scan-zero :
    (pte : ℕ) (batch : List ℕ) (s : System) → trim_scan zero pte batch s ≡ some (s, pte, batch)
unfolding trim_scan
trim_scan-zero pte batch s = refl

-- What the walk ends with.
abbrev pub IsTrimmed : (left : ℕ) → (before batch : List ℕ) → (pte : ℕ) → System → Type 0
IsTrimmed left before batch pte s =
    IsHeld s batch
    × (length batch ≤ max_trim_batch_size)
    × (length batch ≤ length before + left)
    × (pte < s.vm.num_ptes)

stop-IsTrimmed :
    (left pte : ℕ) (batch : List ℕ) (s : System) {s' : System} {pte' : ℕ} {batch' : List ℕ}
    → pte < s.vm.num_ptes
    → length batch ≤ max_trim_batch_size
    → IsHeld s batch
    → trim_scan zero pte batch s ≡ some (s', pte', batch')
    → IsTrimmed left batch batch' pte' s'
stop-IsTrimmed left pte batch s {s'} {pte'} {batch'} lt few held e =
    let z = trim_scan-zero pte batch s in
    let es : s' ≡ s = cc in
    let ep : pte' ≡ pte = cc in
    let eb : batch' ≡ batch = cc in rw (es, ep, eb) (held, few, omega arith, lt)

-- If the walk over the page table returns, having started on a batch of at most 2048 locked pages
-- that are all different, the batch that it returns is one of at most 2048 locked pages that are
-- all different, it has grown by at most the number of attempts, and the entry that it stopped at
-- is in the page table.
pub trim_scan-IsHeld :
    (left pte : ℕ) (batch : List ℕ) (s : System) {s' : System} {pte' : ℕ} {batch' : List ℕ}
    → pte < s.vm.num_ptes
    → length batch ≤ max_trim_batch_size
    → IsHeld s batch
    → trim_scan left pte batch s ≡ some (s', pte', batch')
    → IsTrimmed left batch batch' pte' s'
trim_scan-IsHeld zero pte batch s lt few held e = stop-IsTrimmed zero pte batch s lt few held e
trim_scan-IsHeld (suc left) pte batch s {s'} {pte'} {batch'} lt few held e =
    elim (dec_lt (length batch) max_trim_batch_size) [
      | no full ↦
          stop-IsTrimmed (suc left) pte batch s lt few held
            (trim_scan-zero pte batch s ∙ sym (trim_scan-stop left pte batch s (omega arith)) ∙ e)
      | yes room ↦ elim (Option-cases (visit_entry (next_pte s pte) s)) [
        | inl fails ↦ absurd (let f = trim_scan-fails left pte batch s room fails in cc)
        | inr ((s₁, none), visited) ↦
            let (heap, vm) = visit_entry-none (next_pte s pte) s visited in
            let (h, a, b, c) =
              trim_scan-IsHeld left (next_pte s pte) batch s₁ (rw vm (next_pte-lt s pte lt)) few
                (IsHeld-same s s₁ batch heap held)
                (sym (trim_scan-none left pte batch s room visited) ∙ e) in
            (h, a, omega arith, c)
        | inr ((s₁, some page), visited) ↦
            let (free, heap, vm) = visit_entry-some (next_pte s pte) s visited in
            let grown : length (batch ++ page ∷ []) ≡ length batch + 1 =
              length-append batch (page ∷ []) in
            let (h, a, b, c) =
              trim_scan-IsHeld left (next_pte s pte) (batch ++ page ∷ []) s₁
                (rw vm (next_pte-lt s pte lt)) (omega arith)
                (IsHeld-snoc s s₁ page batch held free heap)
                (sym (trim_scan-some left pte batch s room visited) ∙ e) in
            (h, a, omega arith, c)
      ]
    ]
