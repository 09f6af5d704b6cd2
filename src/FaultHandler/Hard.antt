-- ===== src/FaultHandler/Hard.antt =====
-- The end of a hard fault: the frame is filled and the entry and the page are joined.
use memory_manager.Base.{
  ℕ, ◌+◌, ◌%◌, ◌^◌, ◌≤◌, ◌<◌, ◌≡◌, ◌≢◌, refl, true, false, some, arith, has, update, ◌==◌,
  if◌then◌else◌,
}
use memory_manager.Pte.{
  is_pte_on_disk, is_pte_zeroed, is_pte_valid, set_pte_to_valid, get_va_from_pte,
  validate_disk_slot,
}
use memory_manager.Pfn.{has_status, active, set_pfn_active, unlock_pfn}
use memory_manager.Disk.{bit_at}
use memory_manager.Disk.Slots.{IsValid, stashed, clear_disk_slot_lem, clear_result}
use memory_manager.System.{System, ThreadInfo, write_pte, unlock_page, unlock_pte}
use memory_manager.FaultHandler.{fill_frame, clear_slot, finish_hard_fault, reset_kernel_va}

-- The entry names a slot of the page file that is in use and that the writer does not hold.
pub record IsStored (s : System) (pte : ℕ) : Type 0 where
  pub on_disk : is_pte_on_disk (s.ptes pte) ≡ true
  pub slot : (s.ptes pte).index ≢ 0
  pub in_range : (s.ptes pte).index ≤ s.pf.max_disk_index
  pub in_use : bit_at s.pf (s.ptes pte).index ≡ true
  pub not_stashed : has (s.ptes pte).index (stashed s.pf) ≡ false

-- The slot is free again, its contents are in the frame, and nothing else has changed.
abbrev pub read_in : System → (pte frame : ℕ) → System
read_in s pte frame = record s {
  frames = update s.frames frame (s.page_file (s.ptes pte).index);
  pf = clear_result s.pf (s.ptes pte).index;
}

abbrev pub zeroed_in : System → (frame : ℕ) → System
zeroed_in s frame = record s { frames = update s.frames frame 0 }

fill_frame-stored :
    (pte frame : ℕ) {s : System}
    → IsValid s.pf
    → IsStored s pte
    → fill_frame pte frame s ≡ some (read_in s pte frame)
unfolding fill_frame clear_slot validate_disk_slot
fill_frame-stored pte frame {s} v st =
    let c =
      clear_disk_slot_lem v (s.ptes pte).index st.in_range st.in_use
        (ground (arith, st.slot, st.not_stashed)) in
    ground (arith, c.0, st.on_disk, st.in_range)

fill_frame-zeroed :
    (pte frame : ℕ) (s : System)
    → is_pte_zeroed (s.ptes pte) ≡ true
    → fill_frame pte frame s ≡ some (zeroed_in s frame)
unfolding fill_frame is_pte_zeroed is_pte_on_disk
fill_frame-zeroed pte frame s z = ground arith

-- The entry and the page name one another, both are unlocked, and the frame has the contents; no
-- other entry, record or frame has changed.
pub record IsResolved (s s' : System) (pte page contents : ℕ) : Type 0 where
  pub entry : is_pte_valid (s'.ptes pte) ≡ true
  pub frame_number : (s'.ptes pte).index ≡ page
  pub owner : (s'.heap page).pte ≡ some pte
  pub state : has_status (s'.heap page) active ≡ true
  pub unlocked_entry : (s'.ptes pte).lock ≡ 0
  pub unlocked_page : (s'.heap page).lock ≡ 0
  pub filled : s'.frames page ≡ contents
  pub other_entries : (i : ℕ) → i ≢ pte → s'.ptes i ≡ s.ptes i
  pub other_pages : (q : ℕ) → q ≢ page → s'.heap q ≡ s.heap q
  pub other_frames : (f : ℕ) → f ≢ page → s'.frames f ≡ s.frames f

-- The state behind the two updates and the two unlocks.
abbrev joined : System → (pte page : ℕ) → System
joined s pte page = record s {
  ptes = update s.ptes pte (record (s.ptes pte) { valid = 1; status = 0; index = page; lock = 0 });
  heap =
      update s.heap page (record (s.heap page) {
        status = 1;
        disk_index = 0;
        reserved = 0;
        pte = some pte;
        lock = 0;
      });
  stats = record (s.stats) { n_hard = (s.stats.n_hard + 1) % 2 ^ 64 };
}

abbrev next_thread : ThreadInfo → ThreadInfo
next_thread t = reset_kernel_va (record t { kernel_va_index = t.kernel_va_index + 1 })

unlock_page-locked :
    (s : System) (p : ℕ)
    → (s.heap p).lock ≡ 1
    → unlock_page s p ≡ some (record s { heap = update s.heap p (record (s.heap p) { lock = 0 }) })
unfolding unlock_page unlock_pfn
unlock_page-locked s p e = rw e

unlock_pte-locked :
    (s : System) (i : ℕ)
    → (s.ptes i).lock ≡ 1
    → unlock_pte s i ≡ some (write_pte s i (record (s.ptes i) { lock = 0 }))
unfolding unlock_pte
unlock_pte-locked s i e = rw e

module _ (s s₁ : System) (t : ThreadInfo) (pte page : ℕ) where
  finish_run :
      fill_frame pte page s ≡ some s₁
      → pte ≤ s.vm.num_ptes
      → page < 2 ^ 40
      → (s₁.ptes pte).lock ≡ 1
      → (s₁.heap page).lock ≡ 1
      → finish_hard_fault pte page page s t ≡ some (joined s₁ pte page, next_thread t, true)
  unfolding finish_hard_fault get_va_from_pte set_pte_to_valid set_pfn_active unlock_page unlock_pfn
      unlock_pte update
  finish_run fill le lt held_entry held_page = ground (arith, fill)

joined-IsResolved :
    (s s₁ : System) (pte page contents : ℕ)
    → s₁.ptes ≡ s.ptes
    → s₁.heap ≡ s.heap
    → s₁.frames ≡ update s.frames page contents
    → IsResolved s (joined s₁ pte page) pte page contents
unfolding is_pte_valid has_status update
joined-IsResolved s s₁ pte page contents e f g = record {
  entry = ground arith;
  frame_number = ground arith;
  owner = ground arith;
  state = ground arith;
  unlocked_entry = ground arith;
  unlocked_page = ground arith;
  filled = ground (arith, g);
  other_entries = λ i ne. ground (arith, e);
  other_pages = λ q ne. ground (arith, f);
  other_frames = λ i ne. ground (arith, g);
}

module _ {s : System} (t : ThreadInfo) (pte page : ℕ) (le : pte ≤ s.vm.num_ptes)
    (lt : page < 2 ^ 40) (held_entry : (s.ptes pte).lock ≡ 1)
    (held_page : (s.heap page).lock ≡ 1) where
  -- With the entry and the page locked and the entry's page in the page file, the end of a hard
  -- fault returns TRUE: the frame has the contents of the slot, the entry and the page name one
  -- another and are unlocked, nothing else of the page table, the page records and the frames has
  -- changed, and the page file is valid with that slot free and every other slot as it was.
  pub finish_hard_fault-stored :
      IsValid s.pf
      → IsStored s pte
      → (s' : System) × (t' : ThreadInfo) × (finish_hard_fault pte page page s t
          ≡ some (s', t', true))
        × IsResolved s s' pte page (s.page_file (s.ptes pte).index)
        × IsValid s'.pf
        × ((slot : ℕ)
            → bit_at s'.pf slot ≡ (if slot == (s.ptes pte).index then false else bit_at s.pf slot))
  finish_hard_fault-stored v st =
      let c =
        clear_disk_slot_lem v (s.ptes pte).index st.in_range st.in_use
          (ground (arith, st.slot, st.not_stashed)) in
      (
        joined (read_in s pte page) pte page,
        next_thread t,
        finish_run s (read_in s pte page) t pte page (fill_frame-stored pte page v st) le lt
            held_entry held_page,
        joined-IsResolved s (read_in s pte page) pte page (s.page_file (s.ptes pte).index) refl refl
            refl,
        c.1,
        c.2,
      )

  -- With the entry and the page locked and the entry zeroed, the end of a hard fault returns TRUE:
  -- the frame is zeroed, the entry and the page name one another and are unlocked, nothing else of
  -- the page table, the page records and the frames has changed, and the page file is the same.
  pub finish_hard_fault-zeroed :
      is_pte_zeroed (s.ptes pte) ≡ true
      → (s' : System) × (t' : ThreadInfo) × (finish_hard_fault pte page page s t
          ≡ some (s', t', true))
        × IsResolved s s' pte page 0
        × (s'.pf ≡ s.pf)
  finish_hard_fault-zeroed z = (
    joined (zeroed_in s page) pte page,
    next_thread t,
    finish_run s (zeroed_in s page) t pte page (fill_frame-zeroed pte page s z) le lt held_entry
        held_page,
    joined-IsResolved s (zeroed_in s page) pte page 0 refl refl refl,
    refl,
  )
