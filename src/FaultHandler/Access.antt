-- ===== src/FaultHandler/Access.antt =====
-- The whole handler on a fault that finds a free page in its thread's cache.
use memory_manager.Base.{
  ℕ, suc, ◌+◌, ◌-◌, ◌/◌, ◌^◌, ◌≤◌, ◌<◌, ◌≡◌, ◌∙◌, true, false, some, arith, update, ◌||◌,
}
use memory_manager.Config.{page_size}
use memory_manager.Pte.{
  is_pte_on_disk, is_pte_zeroed, is_pte_valid, is_pte_transition, get_pte_from_va,
}
use memory_manager.Pte.Address.{IsSized}
use memory_manager.Pfn.{lock_pfn, get_frame_from_pfn}
use memory_manager.Disk.{bit_at}
use memory_manager.Disk.Slots.{IsValid}
use memory_manager.System.{System, ThreadInfo, write_pte, write_pfn, lock_page, try_lock_pte}
use memory_manager.FreeLists.{acquire_free_page}
use memory_manager.FaultHandler.{
  Outside, find_page, use_page, resolve_hard_fault, finish_hard_fault, handle, page_fault_handler,
  num_kernel_read_addresses,
}
use memory_manager.FaultHandler.Hard.{
  IsStored, IsResolved, finish_hard_fault-stored, finish_hard_fault-zeroed,
}

abbrev pub cached_page : ThreadInfo → ℕ
cached_page t = t.free_page_cache (t.free_page_count - 1)

abbrev pub page_locked : System → (page : ℕ) → System
page_locked s page = write_pfn s page (record (s.heap page) { lock = 1 })

abbrev entry_locked : System → ℕ → System
entry_locked s pte = write_pte s pte (record (s.ptes pte) { lock = 1 })

abbrev pub popped_thread : ThreadInfo → ThreadInfo
popped_thread t = record t { free_page_count = t.free_page_count - 1 }

find_page-cached :
    (fuel : ℕ) (o : Outside) (s : System) (t : ThreadInfo)
    → 0 < t.free_page_count
    → (s.heap (cached_page t)).lock ≡ 0
    → find_page (suc fuel) o s t
      ≡ some (page_locked s (cached_page t), popped_thread t, some (cached_page t))
unfolding find_page acquire_free_page lock_page lock_pfn
find_page-cached fuel o s t pos free = ground arith

-- What the handler needs to find for a fault on an entry to be resolved at once: a page in the
-- cache, its lock and the entry's free, kernel address space to fill it through, and no change by
-- others while the page's lock is taken.
pub record IsReady (o : Outside) (s : System) (t : ThreadInfo) (pte : ℕ) : Type 0 where
  pub some_cached : 0 < t.free_page_count
  pub free_page : (s.heap (cached_page t)).lock ≡ 0
  pub free_entry : (s.ptes pte).lock ≡ 0
  pub frame : cached_page t ≤ s.vm.max_frame_number
  pub frame_bits : s.vm.max_frame_number < 2 ^ 40
  pub kernel_space : t.kernel_va_index < num_kernel_read_addresses
  pub table : pte < s.vm.num_ptes
  pub alone : o.meanwhile (page_locked s (cached_page t)) ≡ page_locked s (cached_page t)

module _ (fuel : ℕ) (o : Outside) (s : System) (t : ThreadInfo) (pte : ℕ)
    (r : IsReady o s t pte) where
  abbrev locked_state : System
  locked_state = entry_locked (page_locked s (cached_page t)) pte

  hard_run :
      is_pte_valid (s.ptes pte) ≡ false
      → is_pte_transition (s.ptes pte) ≡ false
      → resolve_hard_fault (suc fuel) o pte s t
        ≡ finish_hard_fault pte (cached_page t) (cached_page t) locked_state (popped_thread t)
  unfolding resolve_hard_fault use_page get_frame_from_pfn try_lock_pte is_pte_valid
      is_pte_transition update
  hard_run nv nt = ground (
    arith,
    find_page-cached fuel o s t r.some_cached r.free_page,
    r.frame,
    r.alone,
    r.kernel_space,
    r.free_entry,
  )

  before-IsResolved :
      (s' : System) (contents : ℕ)
      → IsResolved locked_state s' pte (cached_page t) contents
      → IsResolved s s' pte (cached_page t) contents
  unfolding update
  before-IsResolved s' contents i = record {
    entry = i.entry;
    frame_number = i.frame_number;
    owner = i.owner;
    state = i.state;
    unlocked_entry = i.unlocked_entry;
    unlocked_page = i.unlocked_page;
    filled = i.filled;
    other_entries = λ j ne. ground (arith, i.other_entries j);
    other_pages = λ q ne. ground (arith, i.other_pages q);
    other_frames = i.other_frames;
  }

  handle-hard :
      {s' : System} {t' : ThreadInfo}
      → is_pte_valid (s.ptes pte) ≡ false
      → is_pte_transition (s.ptes pte) ≡ false
      → (is_pte_on_disk (s.ptes pte) || is_pte_zeroed (s.ptes pte)) ≡ true
      → finish_hard_fault pte (cached_page t) (cached_page t) locked_state (popped_thread t)
        ≡ some (s', t', true)
      → handle (suc (suc fuel)) o pte s t ≡ some (s', t', true)
  unfolding handle
  handle-hard nv nt hard e = ground (arith, hard_run nv nt ∙ e)

  same_index : (locked_state.ptes pte).index ≡ (s.ptes pte).index
  unfolding update
  same_index = ground arith

  locked-IsStored : IsStored s pte → IsStored locked_state pte
  unfolding is_pte_on_disk update
  locked-IsStored st = record {
    on_disk = ground (arith, st.on_disk);
    slot = rw same_index st.slot;
    in_range = rw same_index st.in_range;
    in_use = rw same_index st.in_use;
    not_stashed = rw same_index st.not_stashed;
  }

  handle-stored :
      IsValid s.pf
      → IsStored s pte
      → (s' : System) × (t' : ThreadInfo) × (handle (suc (suc fuel)) o pte s t
          ≡ some (s', t', true))
        × IsResolved s s' pte (cached_page t) (s.page_file (s.ptes pte).index)
        × IsValid s'.pf
        × (bit_at s'.pf (s.ptes pte).index ≡ false)
  unfolding is_pte_valid is_pte_transition is_pte_on_disk update
  handle-stored v st =
      let (s', t', run, i, valid, bits) =
        finish_hard_fault-stored {s = locked_state} (popped_thread t) pte (cached_page t)
          (omega (arith, r.table)) (omega (arith, r.frame, r.frame_bits)) (ground arith)
          (ground arith) v (locked-IsStored st) in
      (
        s',
        t',
        handle-hard (ground (arith, st.on_disk)) (ground (arith, st.on_disk))
            (ground (arith, st.on_disk)) run,
        before-IsResolved s' (s.page_file (s.ptes pte).index) (rw same_index at i),
        valid,
        ground (arith, bits (s.ptes pte).index, same_index),
      )

  handle-zeroed :
      is_pte_zeroed (s.ptes pte) ≡ true
      → (s' : System) × (t' : ThreadInfo) × (handle (suc (suc fuel)) o pte s t
          ≡ some (s', t', true))
        × IsResolved s s' pte (cached_page t) 0
        × (s'.pf ≡ s.pf)
  unfolding is_pte_valid is_pte_transition is_pte_on_disk is_pte_zeroed update
  handle-zeroed z =
      let (s', t', run, i, same) =
        finish_hard_fault-zeroed {s = locked_state} (popped_thread t) pte (cached_page t)
          (omega (arith, r.table)) (omega (arith, r.frame, r.frame_bits)) (ground arith)
          (ground arith) (ground (arith, z)) in
      (
        s',
        t',
        handle-hard (ground (arith, z)) (ground (arith, z)) (ground (arith, z)) run,
        before-IsResolved s' 0 i,
        same,
      )

page_fault_handler-handle :
    (fuel : ℕ) (o : Outside) (va : ℕ) (s : System) (t : ThreadInfo)
    → IsSized s.vm
    → s.vm.application_va_base ≤ va
    → va < s.vm.application_va_base + s.vm.va_size_in_bytes
    → page_fault_handler fuel o va s t
      ≡ handle fuel o ((va - s.vm.application_va_base) / page_size) s t
unfolding page_fault_handler get_pte_from_va
page_fault_handler-handle fuel o va s t sized above below = ground (arith, sized.pointers)

abbrev pub entry_of : System → (va : ℕ) → ℕ
entry_of s va = (va - s.vm.application_va_base) / page_size

module _ (fuel : ℕ) (o : Outside) (va : ℕ) (s : System) (t : ThreadInfo) (sized : IsSized s.vm)
    (above : s.vm.application_va_base ≤ va)
    (below : va < s.vm.application_va_base + s.vm.va_size_in_bytes)
    (r : IsReady o s t (entry_of s va)) where
  -- A fault on an address of the region whose page is in the page file, by a thread that is ready
  -- as `IsReady` says, is resolved in the first round: the handler returns TRUE with the
  -- contents of the slot in the frame from the cache, that frame mapped by the entry and by no
  -- other change of the page table, and the slot free again in a valid page file.
  pub page_fault_handler-stored :
      IsValid s.pf
      → IsStored s (entry_of s va)
      → (s' : System) × (t' : ThreadInfo) × (page_fault_handler (suc (suc fuel)) o va s t
          ≡ some (s', t', true))
        × IsResolved s s'
            (entry_of s va)
            (cached_page t)
            (s.page_file (s.ptes (entry_of s va)).index)
        × IsValid s'.pf
        × (bit_at s'.pf (s.ptes (entry_of s va)).index ≡ false)
  page_fault_handler-stored v st =
      rw (page_fault_handler-handle (suc (suc fuel)) o va s t sized above below)
        (handle-stored fuel o s t (entry_of s va) r v st)

  -- A fault on an address of the region that was never accessed, by a thread that is ready as
  -- `IsReady` says, is resolved in the first round: the handler returns TRUE with the frame from
  -- the cache zeroed and mapped by the entry, and the page file as it was.
  pub page_fault_handler-zeroed :
      is_pte_zeroed (s.ptes (entry_of s va)) ≡ true
      → (s' : System) × (t' : ThreadInfo) × (page_fault_handler (suc (suc fuel)) o va s t
          ≡ some (s', t', true))
        × IsResolved s s' (entry_of s va) (cached_page t) 0
        × (s'.pf ≡ s.pf)
  page_fault_handler-zeroed z =
      rw (page_fault_handler-handle (suc (suc fuel)) o va s t sized above below)
        (handle-zeroed fuel o s t (entry_of s va) r z)
