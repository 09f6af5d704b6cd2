-- ===== src/Writer/OnePage.antt =====
-- One page of a write batch: what `write_pages` does to it between its two locks.
use mathlib.Core.Path.{subst}
use memory_manager.Base.{
  ℕ, ◌≤◌, ◌<◌, ◌≡◌, ◌∙◌, ap, sym, true, false, some, arith, has, update, ◌==◌, if◌then◌else◌, List,
  [], ◌∷◌, ◌++◌,
}
use memory_manager.Pte.{validate_disk_slot}
use memory_manager.Pfn.{
  Heap, has_status, standby, mid_write, set_pfn_standby, get_frame_from_pfn, lock_pfn, unlock_pfn,
}
use memory_manager.Pfn.Lock.{with_lock, relock}
use memory_manager.PageList.{insert_to_list_tail}
use memory_manager.PageList.Ring.{IsList}
use memory_manager.PageList.Walk.{IsList-links}
use memory_manager.PageList.Edit.{insert_to_list_tail_lem}
use memory_manager.Disk.{bit_at}
use memory_manager.Disk.Slots.{
  IsValid, IsTaken, stashed, clear_disk_slot_lem, clear_result, pop_slot_lem, pop_result, top_slot,
}
use memory_manager.System.{System, lock_page, unlock_page}
use memory_manager.Writer.{Outside, write_page}

-- The page is copied to the slot on top of the stack.
abbrev pub copied : System → (pfn : ℕ) → System
copied s pfn = record s {
  pf = pop_result s.pf;
  page_file = update s.page_file (top_slot s.pf) (s.frames pfn);
}

-- The page is standby and locked, on the temporary list, and its slot holds what its frame holds.
abbrev pub became_standby : System → (temp pfn slot : ℕ) → System
became_standby s temp pfn slot = record s {
  heap =
      insert_to_list_tail
        (update s.heap pfn
          (record (s.heap pfn) { lock = 1; status = 5; disk_index = slot; reserved = 0 }))
        temp pfn;
}

pub write_page-standby :
    (o : Outside) (temp i pfn : ℕ) (s : System)
    → IsValid s.pf
    → 0 < s.pf.num_stashed_slots
    → pfn ≤ s.vm.max_frame_number
    → o.meanwhile i (copied s pfn) ≡ copied s pfn
    → (s.heap pfn).lock ≡ 0
    → has_status (s.heap pfn) mid_write ≡ true
    → write_page o temp i pfn s
      ≡ some (became_standby (copied s pfn) temp pfn (top_slot s.pf), true)
unfolding write_page get_frame_from_pfn validate_disk_slot lock_page lock_pfn set_pfn_standby
    has_status update
write_page-standby o temp i pfn s v pos le alone free mid =
    let p = pop_slot_lem v pos in ground (arith, p.0, p.3, alone, v.small)

-- Another thread took the page while it was written: the slot is free again.
abbrev pub gave_up : System → (pfn : ℕ) → (slot : ℕ) → System
gave_up s pfn slot = record s {
  heap = with_lock (with_lock s.heap pfn 1) pfn 0;
  pf = clear_result s.pf slot;
}

pub write_page-gave_up :
    (o : Outside) (temp i pfn : ℕ) (s s' : System)
    → IsValid s.pf
    → 0 < s.pf.num_stashed_slots
    → pfn ≤ s.vm.max_frame_number
    → o.meanwhile i (copied s pfn) ≡ s'
    → s'.pf ≡ pop_result s.pf
    → (s'.heap pfn).lock ≡ 0
    → has_status (s'.heap pfn) mid_write ≡ false
    → write_page o temp i pfn s ≡ some (gave_up s' pfn (top_slot s.pf), false)
unfolding write_page get_frame_from_pfn validate_disk_slot lock_page unlock_page lock_pfn unlock_pfn
    has_status update
write_page-gave_up o temp i pfn s s' v pos le others same free mid =
    let p = pop_slot_lem v pos in
    let c = clear_disk_slot_lem p.1 (top_slot s.pf) p.3.1 p.3.0 p.4 in
    ground (arith, p.0, p.3, others, same, c.0)

-- What one page's write leaves: the page is standby, still locked and at the end of the temporary
-- list, its slot is one that was on the stack and is now in use by it alone, and holds what the
-- frame holds.
pub record IsStored (s s' : System) (temp pfn : ℕ) (pages : List ℕ) : Type 0 where
  pub collected : IsList s'.heap temp (pages ++ pfn ∷ [])
  pub state : has_status (s'.heap pfn) standby ≡ true
  pub held : (s'.heap pfn).lock ≡ 1
  pub saved : s'.page_file (s'.heap pfn).disk_index ≡ s.frames pfn
  pub from_stack : stashed s.pf ≡ (s'.heap pfn).disk_index ∷ stashed s'.pf
  pub in_use : IsTaken s'.pf (s'.heap pfn).disk_index
  pub valid : IsValid s'.pf
  pub own : has (s'.heap pfn).disk_index (0 ∷ stashed s'.pf) ≡ false

module _ (o : Outside) (temp i pfn : ℕ) (s : System) (v : IsValid s.pf)
    (pos : 0 < s.pf.num_stashed_slots) (le : pfn ≤ s.vm.max_frame_number) where
  pub became_standby-IsStored :
      (pages : List ℕ)
      → IsList s.heap temp pages
      → has pfn (temp ∷ pages) ≡ false
      → IsStored s (became_standby (copied s pfn) temp pfn (top_slot s.pf)) temp pfn pages
  unfolding has_status update
  became_standby-IsStored pages is out =
      let p = pop_slot_lem v pos in
      let slot : ℕ = top_slot s.pf in
      let h : Heap =
        update s.heap pfn
          (record (s.heap pfn) { lock = 1; status = 5; disk_index = slot; reserved = 0 }) in
      let joined =
        insert_to_list_tail_lem h temp pfn pages
          (IsList-links s.heap h temp pages (λ q. ground arith) is) out in
      let payload = joined.1.payload pfn in
      let s' : System = became_standby (copied s pfn) temp pfn slot in
      let st : (s'.heap pfn).status ≡ 5 = ap (λ r. r.status) payload ∙ ground arith in
      let di : (s'.heap pfn).disk_index ≡ slot = ap (λ r. r.disk_index) payload ∙ ground arith in
      record {
        collected = joined.0;
        state = ground (arith, st);
        held = ap (λ r. r.lock) payload ∙ ground arith;
        saved = rw di (ground arith);
        from_stack = rw di p.2;
        in_use = rw di p.3;
        valid = p.1;
        own = subst (λ d. has d (0 ∷ stashed (pop_result s.pf)) ≡ false) (sym di) p.4;
      }

  -- Where no other thread acts on the state between the copy and the lock and the page is mid-write
  -- and unlocked, one page's write succeeds: the frame's contents are in a slot of the stack that
  -- the page's record names, and the page is standby at the end of the temporary list.
  pub write_page-IsStored :
      (pages : List ℕ)
      → IsList s.heap temp pages
      → has pfn (temp ∷ pages) ≡ false
      → o.meanwhile i (copied s pfn) ≡ copied s pfn
      → (s.heap pfn).lock ≡ 0
      → has_status (s.heap pfn) mid_write ≡ true
      → (s' : System) × (write_page o temp i pfn s ≡ some (s', true)) × IsStored s s' temp pfn pages
  write_page-IsStored pages is out alone free mid = (
    became_standby (copied s pfn) temp pfn (top_slot s.pf),
    write_page-standby o temp i pfn s v pos le alone free mid,
    became_standby-IsStored pages is out,
  )

  -- Where other threads have given the page another state than mid-write by the time that the
  -- writer locks it, and have left the page file's bitmaps and stack alone, one page's write
  -- leaves the page's record and all others as those threads left them: the slot that the page was copied to leaves the stack
  -- and is free again, every other slot is as it was, and the page file is valid.
  pub write_page-rescued :
      {s' : System}
      → o.meanwhile i (copied s pfn) ≡ s'
      → s'.pf ≡ (copied s pfn).pf
      → (s'.heap pfn).lock ≡ 0
      → has_status (s'.heap pfn) mid_write ≡ false
      → (s'' : System) × (write_page o temp i pfn s ≡ some (s'', false))
        × (s''.heap ≡ s'.heap)
        × IsValid s''.pf
        × (stashed s.pf ≡ top_slot s.pf ∷ stashed s''.pf)
        × ((slot : ℕ)
            → bit_at s''.pf slot ≡ (if slot == top_slot s.pf then false else bit_at s.pf slot))
  write_page-rescued {s'} others same free mid =
      let p = pop_slot_lem v pos in
      let c = clear_disk_slot_lem p.1 (top_slot s.pf) p.3.1 p.3.0 p.4 in
      (
        gave_up s' pfn (top_slot s.pf),
        write_page-gave_up o temp i pfn s s' v pos le others same free mid,
        relock s'.heap pfn free,
        rw same c.1,
        rw same p.2,
        λ q. rw same (c.2 q),
      )
