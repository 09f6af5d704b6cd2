-- ===== src/FaultHandler.antt =====
-- threads/page_fault_handler.c: soft faults, hard faults and the handler's loop, in the build with
-- DEBUG off. Signals of events are writes of flags; waiting for an event is left out.
pub mod Soft
pub mod Listed
pub mod Standby
pub mod Refill
pub mod Hard
pub mod Access
pub mod Returns
pub mod RoundTrip
pub mod Fixed
use memory_manager.Base.{
  ℕ, zero, suc, ◌+◌, ◌-◌, ◌*◌, ◌/◌, ◌%◌, ◌^◌, Bool, true, false, not, ◌&&◌, ◌||◌, Option, some,
  none, ◌==◌, ltb, leb, if◌then◌else◌, ◌>>=◌, ◌>>◌, assert, update,
}
use memory_manager.Config.{Vm, page_size}
use memory_manager.Pte.{
  Pte, is_pte_valid, is_pte_transition, is_pte_on_disk, is_pte_zeroed, set_pte_to_valid,
  map_pte_to_disk, get_pte_from_va, get_va_from_pte, validate_disk_slot,
}
use memory_manager.Pfn.{
  Pfn, Heap, Status, status_code, has_status, active, free, modified, standby, mid_write, mid_trim,
  set_pfn_active, set_pfn_free, get_pfn_from_pte, get_frame_from_pfn, unlock_pfn,
}
use memory_manager.PageList.{PageList, is_page_list_empty, neg64}
use memory_manager.PageList.Locked.{remove_page_on_soft_fault}
use memory_manager.PageList.Batch.{Batch, remove_batch_from_list_head}
use memory_manager.Disk.{clear_disk_slot}
use memory_manager.System.{
  System, Events, Stats, ThreadInfo, write_pfn, write_pte, change_available_count, lock_page,
  unlock_page, lock_pte, try_lock_pte, unlock_pte,
}
use memory_manager.FreeLists.{acquire_free_page, add_page_to_cache_or_free_list}

-- What the handler meets outside itself: the floating point estimate that a list runs low, the
-- outcomes of attempts at a list's SRW lock, what other threads do to memory while it waits to try
-- again, and what they do to the whole state while it waits for a page lock.
pub record Outside : Type 0 where
  pub about_to_run_low : PageList → Bool
  pub shared : ℕ → Bool
  pub others : ℕ → Heap → Heap
  pub meanwhile : System → System

abbrev pub num_kernel_read_addresses : ℕ
num_kernel_read_addresses = 16

-- `signal_event_if_list_is_about_to_run_low`, with the two events that it is called with.
unfoldable pub signal_trimming_if_low : Outside → PageList → System → System
signal_trimming_if_low o list s =
    if o.about_to_run_low list
    then record s { events = record (s.events) { initiate_trimming = true } }
    else s

unfoldable pub signal_writing_if_low : Outside → PageList → System → System
signal_writing_if_low o list s =
    if o.about_to_run_low list
    then record s { events = record (s.events) { initiate_writing = true } }
    else s

unfoldable pub clear_slot : System → ℕ → Option System
clear_slot s slot = clear_disk_slot s.pf slot >>= λ pf'. some (record s { pf = pf' })

-- `remove_page_on_soft_fault` on the modified list, and on the standby list, whose last page takes
-- the event with it.
unfoldable pub remove_modified : Outside → System → ℕ → Option System
remove_modified o s pfn =
    remove_page_on_soft_fault o.shared o.others s.modified_list pfn s.heap >>= λ r.
    some (record s { heap = r.0; modified_list = r.1 })

unfoldable pub remove_standby : Outside → System → ℕ → Option System
remove_standby o s pfn =
    remove_page_on_soft_fault o.shared o.others s.standby_list pfn s.heap >>= λ r.
    let s' = change_available_count (record s { heap = r.0; standby_list = r.1 }) (neg64 1) in
    some (record s' {
      events = record (s'.events) {
        standby_pages_ready =
            if is_page_list_empty s'.heap s'.standby_list
            then false
            else s'.events.standby_pages_ready;
      };
    })

-- Off the list that the page is on, if it is on one.
unfoldable pub unlist_page : Outside → System → ℕ → Option System
unlist_page o s pfn =
    if has_status (s.heap pfn) mid_write || has_status (s.heap pfn) mid_trim
    then some s
    else if has_status (s.heap pfn) modified
    then remove_modified o (signal_trimming_if_low o s.modified_list s) pfn
    else (assert (has_status (s.heap pfn) standby)
        >> (clear_slot s (s.heap pfn).disk_index >>= λ s'.
            remove_standby o (signal_writing_if_low o s'.standby_list s') pfn))

-- Both records become active, and both locks are given back. The mapping is a call of Windows; the
-- assertion on the way to it, that the entry is one of the table, is left out with it.
unfoldable pub finish_soft_fault : System → (pte pfn : ℕ) → Option System
finish_soft_fault s pte pfn =
    let s₁ = write_pfn s pfn (set_pfn_active (s.heap pfn) pte) in
    let s₂ = write_pte s₁ pte (set_pte_to_valid (s₁.ptes pte) (s₁.ptes pte).index) in
    unlock_page s₂ pfn >>= λ s₃. unlock_pte s₃ pte >>= λ s₄.
    some (record s₄ { stats = record (s₄.stats) { n_soft = (s₄.stats.n_soft + 1) % 2 ^ 64 } })

-- `resolve_soft_fault`: TRUE or FALSE with the state. Other threads may act between the lock on the
-- entry and the lock on the page.
unfoldable pub resolve_soft_fault : Outside → (pte : ℕ) → System → Option (System × Bool)
resolve_soft_fault o pte s = lock_pte s pte >>= λ s₁.
    if not (is_pte_transition (s₁.ptes pte))
    then (unlock_pte s₁ pte >>= λ s₂. some (s₂, false))
    else (get_pfn_from_pte s₁.vm (s₁.ptes pte) >>= λ available. elim available [
      | none ↦
          assert (is_pte_on_disk (s₁.ptes pte)) >> (unlock_pte s₁ pte >>= λ s₂. some (s₂, false))
      | some pfn ↦ lock_page (o.meanwhile s₁) pfn >>= λ s₂.
          if is_pte_on_disk (s₂.ptes pte)
          then (unlock_page s₂ pfn >>= λ s₃. unlock_pte s₃ pte >>= λ s₄. some (s₄, false))
          else (assert (is_pte_transition (s₂.ptes pte))
              >> (assert
                    (not (has_status (s₂.heap pfn) active) && not (has_status (s₂.heap pfn) free))
                  >> (unlist_page o s₂ pfn >>= λ s₃.
                      finish_soft_fault s₃ pte pfn >>= λ s₄. some (s₄, true))))
    ])

-- The loop of `move_batch_from_standby_to_cache`, from cache entry `i` on.
unfoldable pub repurpose_pages : (left i pfn : ℕ) → System → (ℕ → ℕ) → Option (System × (ℕ → ℕ))
repurpose_pages zero i pfn s cache = some (s, cache)
repurpose_pages (suc left) i pfn s cache = elim (s.heap pfn).pte [
  | none ↦ none
  | some old_pte ↦
      map_pte_to_disk s.pf.max_disk_index (s.ptes old_pte) (s.heap pfn).disk_index >>= λ pte.
      let s₁ = write_pte s old_pte pte in
      let next = (s₁.heap pfn).flink in
      unlock_page (write_pfn s₁ pfn (set_pfn_free (s₁.heap pfn))) pfn >>= λ s₂.
      repurpose_pages left (i + 1) next s₂ (update cache i pfn)
]

unfoldable pub move_batch_from_standby_to_cache :
    Outside → System → ThreadInfo → Option (System × ThreadInfo × Bool)
move_batch_from_standby_to_cache o s t =
    remove_batch_from_list_head o.shared o.others s.standby_list 16 s.heap >>= λ b.
    let s₁ = signal_writing_if_low o b.list (record s { heap = b.heap; standby_list = b.list }) in
    elim b.first [
      | none ↦ some (s₁, t, false)
      | some first ↦ repurpose_pages b.count 0 first s₁ t.free_page_cache >>= λ r.
          assert (t.free_page_count == 0)
          >> some (r.0, record t { free_page_cache = r.1; free_page_count = b.count }, true)
    ]

-- The loop that looks for a page, with fuel for its rounds. It ends with a locked page, or with
-- none when neither the free lists nor the standby list had one.
unfoldable pub find_page :
    (fuel : ℕ) → Outside → System → ThreadInfo → Option (System × ThreadInfo × Option ℕ)
find_page zero o s t = none
find_page (suc fuel) o s t = acquire_free_page s t >>= λ r. elim r.2 [
  | some page ↦ some (r.0, r.1, some page)
  | none ↦ move_batch_from_standby_to_cache o r.0 r.1 >>= λ q. elim q.2 [
    | true ↦ find_page fuel o q.0 q.1
    | false ↦
        some
          (record (q.0) { events = record (q.0.events) { standby_pages_ready = false } }, q.1, none)
  ]
]

-- No page is to be had: ask for trimming, and (after a wait) report failure.
unfoldable pub give_up : System → System
give_up s = record s {
  events = record (s.events) { initiate_trimming = true };
  stats = record (s.stats) { hard_faults_missed = (s.stats.hard_faults_missed + 1) % 2 ^ 64 };
}

-- The page goes back to the cache or a free list, for the fault is no longer a hard one.
unfoldable pub return_page : (fuel page : ℕ) → System → ThreadInfo → Option (System × ThreadInfo)
return_page fuel page s t = add_page_to_cache_or_free_list fuel page t.thread_id s t >>= λ r.
    let s₁ = change_available_count r.0 1 in
    unlock_page (write_pfn s₁ page (set_pfn_free (s₁.heap page))) page >>= λ s₂. some (s₂, r.1)

-- The frame's contents: read from the page file, whose slot is then free, or zeroed.
unfoldable pub fill_frame : (pte frame : ℕ) → System → Option System
fill_frame pte frame s =
    if is_pte_on_disk (s.ptes pte)
    then (let slot = (s.ptes pte).index in
        validate_disk_slot s.pf.max_disk_index slot
        >> clear_slot (record s { frames = update s.frames frame (s.page_file slot) }) slot)
    else (assert (is_pte_zeroed (s.ptes pte))
        >> some (record s { frames = update s.frames frame 0 }))

-- `unmap_and_reset_all_kernal_va_for_this_thread`
unfoldable pub reset_kernel_va : ThreadInfo → ThreadInfo
reset_kernel_va t =
    if t.kernel_va_index == num_kernel_read_addresses then record t { kernel_va_index = 0 } else t

-- The part of `resolve_hard_fault` behind the check of the entry, with both locks held.
unfoldable pub finish_hard_fault :
    (pte page frame : ℕ) → System → ThreadInfo → Option (System × ThreadInfo × Bool)
finish_hard_fault pte page frame s t = get_va_from_pte s.vm pte >>= λ va.
    fill_frame pte frame s >>= λ s₁.
    let s₂ = write_pte s₁ pte (set_pte_to_valid (s₁.ptes pte) frame) in
    let s₃ = write_pfn s₂ page (set_pfn_active (s₂.heap page) pte) in
    unlock_page s₃ page >>= λ s₄. unlock_pte s₄ pte >>= λ s₅. some (
      record s₅ { stats = record (s₅.stats) { n_hard = (s₅.stats.n_hard + 1) % 2 ^ 64 } },
      reset_kernel_va (record t { kernel_va_index = t.kernel_va_index + 1 }),
      true,
    )

-- `resolve_hard_fault` from the locked page on. `none` for the lock is a failed attempt at it.
unfoldable pub use_page :
    (fuel pte page : ℕ) → System → ThreadInfo → Option (System × ThreadInfo × Bool)
use_page fuel pte page s t =
    assert (ltb t.kernel_va_index num_kernel_read_addresses)
    >> (get_frame_from_pfn s.vm page >>= λ frame.
        let (s₁, got) = try_lock_pte s pte in
        if not got || is_pte_valid (s₁.ptes pte) || is_pte_transition (s₁.ptes pte)
        then ((if got then unlock_pte s₁ pte else some s₁) >>= λ s₂.
            return_page fuel page s₂ t >>= λ r. some (r.0, r.1, false))
        else finish_hard_fault pte page frame s₁ t)

unfoldable pub resolve_hard_fault :
    (fuel : ℕ) → Outside → (pte : ℕ) → System → ThreadInfo → Option (System × ThreadInfo × Bool)
resolve_hard_fault fuel o pte s t = find_page fuel o s t >>= λ r. elim r.2 [
  | none ↦ some (give_up r.0, r.1, false)
  | some page ↦ use_page fuel pte page (o.meanwhile r.0) r.1
]

-- The loop of `page_fault_handler`; others may act between two rounds.
unfoldable pub handle :
    (fuel : ℕ) → Outside → (pte : ℕ) → System → ThreadInfo → Option (System × ThreadInfo × Bool)
handle zero o pte s t = none
handle (suc fuel) o pte s t =
    let again = handle fuel o pte (o.meanwhile s) t in
    if is_pte_valid (s.ptes pte)
    then some (s, t, true)
    else if is_pte_transition (s.ptes pte)
    then (resolve_soft_fault o pte s >>= λ r. elim r.1 [
      | true ↦ some (r.0, t, true)
      | false ↦ handle fuel o pte (o.meanwhile r.0) t
    ])
    else if not (is_pte_on_disk (s.ptes pte)) && not (is_pte_zeroed (s.ptes pte))
    then again
    else (resolve_hard_fault fuel o pte s t >>= λ r. elim r.2 [
      | true ↦ some r
      | false ↦ handle fuel o pte (o.meanwhile r.0) r.1
    ])

-- FALSE is for an address outside the region.
unfoldable pub page_fault_handler :
    (fuel : ℕ) → Outside → (va : ℕ) → System → ThreadInfo → Option (System × ThreadInfo × Bool)
page_fault_handler fuel o va s t =
    if ltb va s.vm.application_va_base
      || leb (s.vm.application_va_base + 8 * s.vm.va_size_in_pointers) va
    then some (s, t, false)
    else get_pte_from_va s.vm va >>= λ pte. handle fuel o pte s t
