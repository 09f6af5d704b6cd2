-- ===== src/Trimmer.antt =====
-- threads/trimmer.c: one run of the trimmer, in the build with AGING on and DEBUG off. Unmapping the
-- batch is Windows', and is taken to succeed.
pub mod Walk
pub mod Unlock
pub mod Join
pub mod Run
pub mod Scan
pub mod Visit
pub mod Publish
pub mod Gather
pub mod Taken
use memory_manager.Base.{
  ℕ, zero, suc, ◌+◌, ◌%◌, ◌^◌, true, false, not, ◌||◌, List, [], ◌∷◌, ◌++◌, length, Option, some,
  none, ◌==◌, ltb, leb, if◌then◌else◌, ◌>>=◌,
}
use memory_manager.Config.{max_trim_batch_size, max_trim_attempts}
use memory_manager.Pte.{
  is_pte_valid, is_pte_accessed, clear_accessed_bit, set_pte_to_transition, get_va_from_pte,
}
use memory_manager.Pfn.{Heap, modified, set_pfn_status, get_pfn_from_pte}
use memory_manager.PageList.{initialize_list_head, insert_to_list_tail, change_list_size}
use memory_manager.PageList.Attempts.{retry, done}
use memory_manager.PageList.Locked.{insert_list_to_tail_list}
use memory_manager.System.{
  System, write_pfn, write_pte, lock_page, unlock_page, try_lock_pte, unlock_pte,
}

-- `*stats.n_standby < LOW_PAGE_THRESHOLD / 8`, a comparison of signed numbers.
unfoldable pub check_to_start_writer : System → System
check_to_start_writer s =
    if ltb s.standby_list.list_size 64 || leb (2 ^ 63) s.standby_list.list_size
    then record s { events = record (s.events) { initiate_writing = true } }
    else s

-- The entry behind this one, the first one behind the last.
unfoldable pub next_pte : System → ℕ → ℕ
next_pte s pte = if pte + 1 == s.vm.num_ptes then 0 else pte + 1

-- A valid entry that was not accessed, with its lock held: the entry goes to the transition format
-- and its page, which stays locked, is the result.
unfoldable pub trim_entry : ℕ → System → Option (System × ℕ)
trim_entry pte s = get_pfn_from_pte s.vm (s.ptes pte) >>= λ pfn. elim pfn [
  | none ↦ none
  | some page ↦ lock_page s page >>= λ s₁.
      unlock_pte (write_pte s₁ pte (set_pte_to_transition (s₁.ptes pte))) pte >>= λ s₂.
      get_va_from_pte s₂.vm pte >>= λ va. some (s₂, page)
]

-- One step of the walk at an entry: the state, and the page that was trimmed, if one was.
unfoldable pub visit_entry : ℕ → System → Option (System × Option ℕ)
visit_entry pte s =
    if not (is_pte_valid (s.ptes pte))
    then some (s, none)
    else if is_pte_accessed (s.ptes pte)
    then (clear_accessed_bit (s.ptes pte) >>= λ p. some (write_pte s pte p, none))
    else let (s₁, got) = try_lock_pte s pte in
      if not got then some (s₁, none) else (trim_entry pte s₁ >>= λ r. some (r.0, some r.1))

-- The walk, with the attempts left, from the entry looked at last, with the batch so far.
unfoldable pub trim_scan : (left pte : ℕ) → (batch : List ℕ) → System → Option (System × ℕ × List ℕ)
trim_scan zero pte batch s = some (s, pte, batch)
trim_scan (suc left) pte batch s = elim (ltb (length batch) max_trim_batch_size) [
  | false ↦ some (s, pte, batch)
  | true ↦ visit_entry (next_pte s pte) s >>= λ r. elim r.1 [
    | none ↦ trim_scan left (next_pte s pte) batch r.0
    | some page ↦ trim_scan left (next_pte s pte) (batch ++ page ∷ []) r.0
  ]
]

-- Every page of the batch becomes modified and goes to the temporary list.
unfoldable pub collect_modified : (temp : ℕ) → List ℕ → System → System
collect_modified temp [] s = s
collect_modified temp (pfn ∷ batch) s =
    let s₁ = write_pfn s pfn (set_pfn_status (s.heap pfn) modified) in
    collect_modified temp batch (record s₁ { heap = insert_to_list_tail s₁.heap temp pfn })

-- `count` pages from `pfn` on along the forward links.
unfoldable pub unlock_batch : (count pfn : ℕ) → System → Option System
unlock_batch zero pfn s = some s
unlock_batch (suc count) pfn s =
    let next = (s.heap pfn).flink in unlock_page s pfn >>= λ s'. unlock_batch count next s'

-- The part of `trim_pages` behind the walk, on a batch that is not empty. The head of the temporary
-- list is memory that `zero_malloc` returns.
unfoldable pub publish_modified :
    (others : ℕ → Heap → Heap) → (fuel temp : ℕ) → List ℕ → System → Option System
publish_modified others fuel temp batch s =
    let s₁ = collect_modified temp batch (record s { heap = initialize_list_head s.heap temp }) in
    insert_list_to_tail_list others fuel s₁.modified_list temp s₁.heap >>= λ o. elim o [
      | retry h ↦ none
      | done h ↦ unlock_batch (length batch) (h temp).flink (record s₁ {
        heap = h;
        modified_list = change_list_size s₁.modified_list (length batch % 2 ^ 64);
      })
    ]

-- `trim_pages`: the state, `pte_to_trim` and the size of the batch.
unfoldable pub trim_pages :
    (others : ℕ → Heap → Heap) → (fuel temp pte_to_trim : ℕ) → System → Option (System × ℕ × ℕ)
trim_pages others fuel temp pte_to_trim s = trim_scan max_trim_attempts pte_to_trim [] s >>= λ r.
    elim r.2 [
      | [] ↦ some (check_to_start_writer r.0, pte_to_trim, 0)
      | page ∷ pages ↦ publish_modified others fuel temp (page ∷ pages) r.0 >>= λ s'.
          some (check_to_start_writer s', r.1, length (page ∷ pages))
    ]
