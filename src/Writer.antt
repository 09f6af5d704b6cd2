-- ===== src/Writer.antt =====
-- threads/writer.c: one run of the writer, in the build with DEBUG off. The pages of a batch are
-- mapped to the kernel's addresses by Windows; a copy from such an address is a copy of the frame.
pub mod OnePage
pub mod Pages
pub mod Slots
pub mod Staged
pub mod Run
pub mod Stage
pub mod Publish
pub mod OneRound
pub mod Rounds
pub mod Gather
pub mod Race
use memory_manager.Base.{
  ℕ, zero, suc, ◌+◌, ◌-◌, ◌*◌, ◌/◌, ◌%◌, ◌^◌, min, Bool, true, false, not, ◌&&◌, ◌||◌, List, [],
  ◌∷◌, ◌++◌, length, Option, some, none, ◌==◌, ltb, leb, if◌then◌else◌, ◌>>=◌, ◌>>◌, assert, update,
}
use memory_manager.Config.{max_write_batch_size}
use memory_manager.Pte.{validate_disk_slot}
use memory_manager.Pfn.{
  Pfn, Heap, mid_write, set_pfn_mid_write, set_pfn_standby, has_status, get_frame_from_pfn,
}
use memory_manager.PageList.{PageList, initialize_list_head, insert_to_list_tail, change_list_size}
use memory_manager.PageList.Attempts.{retry, done}
use memory_manager.PageList.Locked.{insert_list_to_tail_list}
use memory_manager.PageList.Batch.{Batch, remove_batch_from_list_head}
use memory_manager.Disk.{PageFile, set_and_add_slots_to_stack, pop_slot, clear_disk_slot}
use memory_manager.System.{
  System, Events, write_pfn, change_available_count, lock_page, unlock_page,
}
use memory_manager.Trimmer.{unlock_batch}

-- Other threads, as in FaultHandler.antt: `meanwhile i` is what they do to the state before the
-- writer takes the lock of the page at index `i` of its batch.
pub record Outside : Type 0 where
  pub shared : ℕ → Bool
  pub others : ℕ → Heap → Heap
  pub meanwhile : ℕ → System → System

abbrev pub batch_attempts : ℕ
batch_attempts = 5

-- The slots for a batch of at most `MAX_WRITE_BATCH_SIZE` pages, and the number of pages to write:
-- 0 where the source returns before the batch.
unfoldable pub reserve_slots : PageFile → (approx_num_mod_pages : ℕ) → Option (PageFile × ℕ)
reserve_slots pf approx =
    if ltb pf.empty_disk_slots 1 || leb (2 ^ 63) pf.empty_disk_slots
    then some (pf, 0)
    else (let target = min max_write_batch_size approx in
        (if ltb pf.num_stashed_slots target then set_and_add_slots_to_stack pf target else some pf)
        >>= λ pf'.
            if ltb pf'.num_stashed_slots 1 || leb (2 ^ 63) pf'.num_stashed_slots
            then some (pf', 0)
            else some (pf', min pf'.num_stashed_slots target))

-- The pages of one batch become mid-write and are unlocked; the result has them in order.
unfoldable pub start_writing : (left pfn : ℕ) → System → Option (System × List ℕ)
start_writing zero pfn s = some (s, [])
start_writing (suc left) pfn s =
    let s₁ = write_pfn s pfn (set_pfn_mid_write (s.heap pfn)) in
    let next = (s₁.heap pfn).flink in
    unlock_page s₁ pfn >>= λ s₂. start_writing left next s₂ >>= λ r. some (r.0, pfn ∷ r.1)

-- The loop that gathers batches. Each round adds pages or is one of at most five misses, so the
-- target and five are fuel enough.
unfoldable pub gather_pages :
    (fuel : ℕ) → Outside → (target misses : ℕ) → List ℕ → System → Option (System × List ℕ)
gather_pages zero o target misses pages s = some (s, pages)
gather_pages (suc fuel) o target misses pages s = elim (ltb (length pages) target) [
  | false ↦ some (s, pages)
  | true ↦
      remove_batch_from_list_head o.shared o.others s.modified_list (target - length pages) s.heap
      >>= λ b.
          let s₁ = record s { heap = b.heap; modified_list = b.list } in
          elim b.first [
            | none ↦ elim (misses + 1 == batch_attempts) [
              | true ↦ some (s₁, pages)
              | false ↦ gather_pages fuel o target (misses + 1) pages s₁
            ]
            | some first ↦ start_writing b.count first s₁ >>= λ r.
                gather_pages fuel o target misses (pages ++ r.1) r.0
          ]
]

-- One page to its slot. TRUE if the page was still mid-write once its lock was held: it is then
-- standby, on the temporary list and still locked. Otherwise its slot is free again.
unfoldable pub write_page : Outside → (temp i pfn : ℕ) → System → Option (System × Bool)
write_page o temp i pfn s = get_frame_from_pfn s.vm pfn >>= λ frame. pop_slot s.pf >>= λ popped.
    let slot = popped.0 in
    validate_disk_slot popped.1.max_disk_index slot
    >> (let s₁ = record s { pf = popped.1; page_file = update s.page_file slot (s.frames frame) } in
        lock_page (o.meanwhile i s₁) pfn >>= λ s₂.
        if not (has_status (s₂.heap pfn) mid_write)
        then (unlock_page s₂ pfn >>= λ s₃.
            clear_disk_slot s₃.pf slot >>= λ pf'. some (record s₃ { pf = pf' }, false))
        else (let s₃ = write_pfn s₂ pfn (set_pfn_standby (s₂.heap pfn) slot) in
            some (record s₃ { heap = insert_to_list_tail s₃.heap temp pfn }, true)))

-- The loop over the batch, from index `i` on: the state and the number of pages written.
unfoldable pub write_batch : Outside → (temp i : ℕ) → List ℕ → System → Option (System × ℕ)
write_batch o temp i [] s = some (s, 0)
write_batch o temp i (pfn ∷ pages) s = write_page o temp i pfn s >>= λ r.
    write_batch o temp (i + 1) pages r.0 >>= λ q. some (q.0, (if r.1 then 1 else 0) + q.1)

-- The written pages join the standby list and are unlocked.
unfoldable pub publish_standby : Outside → (fuel temp written : ℕ) → System → Option System
publish_standby o fuel temp written s =
    insert_list_to_tail_list o.others fuel s.standby_list temp s.heap >>= λ r. elim r [
      | retry h ↦ none
      | done h ↦
          unlock_batch written (h temp).flink (record s {
            heap = h;
            standby_list = change_list_size s.standby_list (written % 2 ^ 64);
          })
          >>= λ s₁.
              let s₂ = change_available_count s₁ (written % 2 ^ 64) in
              some (record s₂ { events = record (s₂.events) { standby_pages_ready = true } })
    ]

-- `write_pages`: the state and the number of pages written. The head of the temporary list is
-- memory that `zero_malloc` returns.
unfoldable pub write_pages : Outside → (fuel temp : ℕ) → System → Option (System × ℕ)
write_pages o fuel temp s = reserve_slots s.pf s.modified_list.list_size >>= λ r.
    let s₁ = record s { pf = r.0 } in
    gather_pages (r.1 + batch_attempts) o r.1 0 [] s₁ >>= λ g. elim g.1 [
      | [] ↦ some (g.0, 0)
      | page ∷ pages ↦
          write_batch o temp 0 (page ∷ pages)
            (record (g.0) { heap = initialize_list_head (g.0).heap temp })
          >>= λ w.
              if w.1 == 0
              then some w
              else (publish_standby o fuel temp w.1 w.0 >>= λ s'. some (s', w.1))
    ]
