-- ===== src/FaultHandler/Listed.antt =====
-- Soft faults on pages of the modified and of the standby list.
use memory_manager.Base.{
  is_nil, ℕ, ◌+◌, ◌%◌, ◌^◌, ◌≤◌, ◌<◌, ◌≡◌, ◌≢◌, ◌∙◌, refl, true, false, some, arith, has, update,
  ◌==◌, if◌then◌else◌, List, ◌∷◌, ◌++◌,
}
use memory_manager.Pte.{is_pte_on_disk, is_pte_valid, is_pte_transition, set_pte_to_valid}
use memory_manager.Pfn.{
  Heap, has_status, active, free, modified, standby, set_pfn_active, unlock_pfn, lock_pfn,
  get_pfn_from_pte,
}
use memory_manager.PageList.{
  remove_page_from_list, set_flink, set_blink, is_page_list_empty, neg64, decrement_list_size,
  change_list_size,
}
use memory_manager.PageList.Ring.{IsList}
use memory_manager.PageList.Walk.{IsList-links, is_page_list_empty-IsList}
use memory_manager.PageList.Edit.{remove_page_from_list_lem}
use memory_manager.PageList.OnFault.{remove_page_on_soft_fault-quiet}
use memory_manager.Disk.{bit_at, clear_disk_slot}
use memory_manager.Disk.Slots.{IsValid, stashed, clear_disk_slot_lem, clear_result}
use memory_manager.System.{
  System, lock_page, lock_pte, unlock_page, unlock_pte, change_available_count,
}
use memory_manager.FaultHandler.{
  Outside, resolve_soft_fault, unlist_page, finish_soft_fault, remove_modified, remove_standby,
  clear_slot, signal_trimming_if_low, signal_writing_if_low,
}
use memory_manager.FaultHandler.Soft.{entry_locked, both_locked}

-- What a soft fault on a page does to its entry and its record, from a state in which both are
-- locked; the rest is as it was.
abbrev joined : System → (pte page : ℕ) → System
joined s pte page = record s {
  ptes = update s.ptes pte (record (s.ptes pte) { valid = 1; status = 0; lock = 0 });
  heap =
      update s.heap page (record (s.heap page) {
        status = 1;
        disk_index = 0;
        reserved = 0;
        pte = some pte;
        lock = 0;
      });
  stats = record (s.stats) { n_soft = (s.stats.n_soft + 1) % 2 ^ 64 };
}

joined_run :
    (s : System) (pte page : ℕ)
    → (s.ptes pte).index ≡ page
    → page < 2 ^ 40
    → (s.ptes pte).lock ≡ 1
    → (s.heap page).lock ≡ 1
    → finish_soft_fault s pte page ≡ some (joined s pte page)
unfolding finish_soft_fault set_pte_to_valid set_pfn_active unlock_page unlock_pfn unlock_pte update
joined_run s pte page e lt held_entry held_page = ground arith

-- The state in which the fault can be resolved without a wait: a transition entry of a page, both
-- unlocked, and no other thread that acts on the state before the page is locked or on the memory
-- while the page is taken off its list.
pub record IsSoft (o : Outside) (s : System) (pte page : ℕ) : Type 0 where
  pub transition : is_pte_transition (s.ptes pte) ≡ true
  pub frame_number : (s.ptes pte).index ≡ page
  pub frame_bits : page < 2 ^ 40
  pub above : s.vm.min_frame_number ≤ page
  pub below : page ≤ s.vm.max_frame_number
  pub free_entry : (s.ptes pte).lock ≡ 0
  pub free_page : (s.heap page).lock ≡ 0
  pub alone : o.meanwhile (entry_locked s pte) ≡ entry_locked s pte
  pub quiet : (n : ℕ) (g : Heap) → o.others n g ≡ g

-- The entry and the page name one another and are unlocked; the page is off its list, and the list
-- has its other pages in order; other entries are as they were.
pub record IsRescued (s s' : System) (pte page head : ℕ) (rest : List ℕ) : Type 0 where
  pub entry : is_pte_valid (s'.ptes pte) ≡ true
  pub frame_number : (s'.ptes pte).index ≡ page
  pub owner : (s'.heap page).pte ≡ some pte
  pub state : has_status (s'.heap page) active ≡ true
  pub unlocked_entry : (s'.ptes pte).lock ≡ 0
  pub unlocked_page : (s'.heap page).lock ≡ 0
  pub others_on_list : IsList s'.heap head rest
  pub frames : s'.frames ≡ s.frames
  pub other_entries : (i : ℕ) → i ≢ pte → s'.ptes i ≡ s.ptes i

soft_run :
    (o : Outside) (s s₃ : System) (pte page : ℕ)
    → IsSoft o s pte page
    → has_status (s.heap page) active ≡ false
    → has_status (s.heap page) free ≡ false
    → unlist_page o (both_locked s pte page) page ≡ some s₃
    → finish_soft_fault s₃ pte page ≡ some (joined s₃ pte page)
    → resolve_soft_fault o pte s ≡ some (joined s₃ pte page, true)
unfolding resolve_soft_fault lock_pte get_pfn_from_pte lock_page lock_pfn is_pte_transition
    is_pte_on_disk has_status update
soft_run o s s₃ pte page r not_active not_free u f = ground (
  arith, u, f, r.transition, r.frame_number, r.free_entry, r.free_page, r.alone, r.above, r.below,
)

abbrev without : Heap → ℕ → Heap
without h page = (remove_page_from_list h page).0

without-lock : (h : Heap) (p q : ℕ) → (without h p q).lock ≡ (h q).lock
unfolding remove_page_from_list set_flink set_blink update
without-lock h p q = ground arith

abbrev locked_page_heap : System → ℕ → Heap
locked_page_heap s page = update s.heap page (record (s.heap page) { lock = 1 })

locked-IsList :
    (s : System) (page head : ℕ) (xs : List ℕ)
    → IsList s.heap head xs
    → IsList (locked_page_heap s page) head xs
unfolding update
locked-IsList s page head xs is =
    IsList-links s.heap (locked_page_heap s page) head xs (λ q. ground arith) is

-- From a state that the removal gives.
rescued :
    (s s₃ : System) (pte page head : ℕ) (xs ys : List ℕ)
    → (s.ptes pte).index ≡ page
    → s₃.ptes ≡ (entry_locked s pte).ptes
    → s₃.frames ≡ s.frames
    → s₃.heap ≡ without (locked_page_heap s page) page
    → IsList s.heap head (xs ++ page ∷ ys)
    → IsRescued s (joined s₃ pte page) pte page head (xs ++ ys)
unfolding is_pte_valid has_status update
rescued s s₃ pte page head xs ys index e f g is =
    let gone =
      remove_page_from_list_lem (locked_page_heap s page) head page xs ys
        (locked-IsList s page head (xs ++ page ∷ ys) is) in
    record {
      entry = ground arith;
      frame_number = ground (arith, e, index);
      owner = ground arith;
      state = ground arith;
      unlocked_entry = ground arith;
      unlocked_page = ground arith;
      others_on_list =
          IsList-links (without (locked_page_heap s page) page) (joined s₃ pte page).heap head
            (xs ++ ys) (λ q. ground (arith, g)) gone.0;
      frames = f;
      other_entries = λ i ne. ground (arith, e);
    }

joined_ready :
    (s s₃ : System) (pte page : ℕ)
    → (s.ptes pte).index ≡ page
    → page < 2 ^ 40
    → s₃.ptes ≡ (entry_locked s pte).ptes
    → s₃.heap ≡ without (locked_page_heap s page) page
    → finish_soft_fault s₃ pte page ≡ some (joined s₃ pte page)
unfolding update
joined_ready s s₃ pte page index lt e g =
    joined_run s₃ pte page (ground (arith, e, index)) lt (ground (arith, e))
      (rw g (without-lock (locked_page_heap s page) page page ∙ ground arith))

module _ (o : Outside) (s : System) (pte page : ℕ) (xs ys : List ℕ) (r : IsSoft o s pte page) where
  abbrev off_modified : System
  off_modified = record (signal_trimming_if_low o s.modified_list (both_locked s pte page)) {
    heap = without (locked_page_heap s page) page;
    modified_list = decrement_list_size s.modified_list;
  }

  unlist-modified :
      IsList s.heap s.modified_list.head (xs ++ page ∷ ys)
      → has_status (s.heap page) modified ≡ true
      → unlist_page o (both_locked s pte page) page ≡ some off_modified
  unfolding unlist_page remove_modified has_status signal_trimming_if_low update
  unlist-modified is m =
      let run =
        remove_page_on_soft_fault-quiet o.shared o.others s.modified_list page
          (locked_page_heap s page) xs ys
          (locked-IsList s page s.modified_list.head (xs ++ page ∷ ys) is) r.quiet in
      ground (arith, run, m)

  -- A soft fault on a page of the modified list, whose entry and record are unlocked, by a thread
  -- that nobody disturbs returns TRUE: the entry is valid with its frame, the page is active, owned
  -- by the entry and off the list, which keeps its other pages in order and has a size lower by one,
  -- and the page file is as it was.
  pub resolve_soft_fault-modified :
      IsList s.heap s.modified_list.head (xs ++ page ∷ ys)
      → has_status (s.heap page) modified ≡ true
      → (s' : System) × (resolve_soft_fault o pte s ≡ some (s', true))
        × IsRescued s s' pte page s.modified_list.head (xs ++ ys)
        × (s'.modified_list ≡ decrement_list_size s.modified_list)
        × (s'.pf ≡ s.pf)
  unfolding has_status signal_trimming_if_low
  resolve_soft_fault-modified is m =
      let same_ptes : off_modified.ptes ≡ (entry_locked s pte).ptes = ground arith in
      let same_frames : off_modified.frames ≡ s.frames = ground arith in
      (
        joined off_modified pte page,
        soft_run o s off_modified pte page r (ground (arith, m)) (ground (arith, m))
            (unlist-modified is m)
            (joined_ready s off_modified pte page r.frame_number r.frame_bits same_ptes refl),
        rescued s off_modified pte page s.modified_list.head xs ys r.frame_number same_ptes
            same_frames refl is,
        refl,
        ground arith,
      )

  abbrev cleared : System
  cleared = record (both_locked s pte page) { pf = clear_result s.pf (s.heap page).disk_index }

  abbrev signalled : System
  signalled = signal_writing_if_low o s.standby_list cleared

  abbrev off_standby : System
  off_standby = record signalled {
    heap = without (locked_page_heap s page) page;
    standby_list = decrement_list_size s.standby_list;
    stats = record (s.stats) { n_available = (s.stats.n_available + neg64 1) % 2 ^ 64 };
    events = record (signalled.events) {
      standby_pages_ready =
          if is_page_list_empty (without (locked_page_heap s page) page)
            (decrement_list_size s.standby_list)
          then false
          else signalled.events.standby_pages_ready;
    };
  }

  unlist-standby :
      IsList s.heap s.standby_list.head (xs ++ page ∷ ys)
      → has_status (s.heap page) standby ≡ true
      → clear_disk_slot s.pf (s.heap page).disk_index
        ≡ some (clear_result s.pf (s.heap page).disk_index)
      → unlist_page o (both_locked s pte page) page ≡ some off_standby
  unfolding unlist_page remove_standby has_status signal_writing_if_low update clear_slot
      change_available_count
  unlist-standby is m c =
      let run =
        remove_page_on_soft_fault-quiet o.shared o.others s.standby_list page
          (locked_page_heap s page) xs ys
          (locked-IsList s page s.standby_list.head (xs ++ page ∷ ys) is) r.quiet in
      ground (arith, run, m, c)

  -- A soft fault on a page of the standby list, whose entry and record are unlocked and whose slot
  -- is in use and not on the writer's stack, by a thread that nobody disturbs returns TRUE: the
  -- entry is valid with its frame, the page is active, owned by the entry and off the list, which
  -- keeps its other pages in order and has a size lower by one; the page's slot is free, every other
  -- slot as it was, and the page file valid; and the event for standby pages is reset if the list
  -- is empty now.
  pub resolve_soft_fault-standby :
      IsList s.heap s.standby_list.head (xs ++ page ∷ ys)
      → has_status (s.heap page) standby ≡ true
      → IsValid s.pf
      → (s.heap page).disk_index ≤ s.pf.max_disk_index
      → bit_at s.pf (s.heap page).disk_index ≡ true
      → has (s.heap page).disk_index (0 ∷ stashed s.pf) ≡ false
      → (s' : System) × (resolve_soft_fault o pte s ≡ some (s', true))
        × IsRescued s s' pte page s.standby_list.head (xs ++ ys)
        × (s'.standby_list ≡ decrement_list_size s.standby_list)
        × IsValid s'.pf
        × ((slot : ℕ)
            → bit_at s'.pf slot
              ≡ (if slot == (s.heap page).disk_index then false else bit_at s.pf slot))
        × (s'.events.standby_pages_ready
            ≡ (if is_nil (xs ++ ys) then false else s.events.standby_pages_ready))
  unfolding has_status signal_writing_if_low decrement_list_size change_list_size
  resolve_soft_fault-standby is m v in_range in_use out =
      let gone =
        remove_page_from_list_lem (locked_page_heap s page) s.standby_list.head page xs ys
          (locked-IsList s page s.standby_list.head (xs ++ page ∷ ys) is) in
      let c = clear_disk_slot_lem v (s.heap page).disk_index in_range in_use out in
      let same_ptes : off_standby.ptes ≡ (entry_locked s pte).ptes = ground arith in
      let same_frames : off_standby.frames ≡ s.frames = ground arith in
      let same_pf : signalled.pf ≡ clear_result s.pf (s.heap page).disk_index = ground arith in
      (
        joined off_standby pte page,
        soft_run o s off_standby pte page r (ground (arith, m)) (ground (arith, m))
            (unlist-standby is m c.0)
            (joined_ready s off_standby pte page r.frame_number r.frame_bits same_ptes refl),
        rescued s off_standby pte page s.standby_list.head xs ys r.frame_number same_ptes
            same_frames refl is,
        refl,
        rw same_pf c.1,
        λ slot. rw same_pf (c.2 slot),
        rw (is_page_list_empty-IsList off_standby.heap off_standby.standby_list (xs ++ ys) gone.0)
            (ground arith),
      )
