-- ===== src/FaultHandler/Soft.antt =====
-- Soft faults on pages that are mid-trim or mid-write, and on no list.
use memory_manager.Base.{ℕ, ◌+◌, ◌%◌, ◌^◌, ◌<◌, ◌≡◌, true, some, arith, update, ◌||◌, ◌&&◌, leb}
use memory_manager.Pte.{is_pte_on_disk, is_pte_transition, set_pte_to_valid}
use memory_manager.Pfn.{
  has_status, mid_write, mid_trim, set_pfn_active, unlock_pfn, lock_pfn, get_pfn_from_pte,
}
use memory_manager.System.{
  System, write_pte, write_pfn, lock_page, lock_pte, unlock_page, unlock_pte,
}
use memory_manager.FaultHandler.{Outside, resolve_soft_fault, unlist_page, finish_soft_fault}

-- The entry and the page name one another and are unlocked; links, lists, frames and the page file
-- are as they were, and so is every other entry and page.
abbrev pub rescued : System → (pte page : ℕ) → System
rescued s pte page = record s {
  ptes = update s.ptes pte (record (s.ptes pte) { valid = 1; status = 0; lock = 0 });
  heap =
      update s.heap page (record (s.heap page) {
        status = 1;
        disk_index = 0;
        reserved = 0;
        pte = some pte;
        lock = 0;
      });
  stats = record (s.stats) { n_soft = (s.stats.n_soft + 1) % 2 ^ 64 };
}

abbrev pub entry_locked : System → ℕ → System
entry_locked s pte = write_pte s pte (record (s.ptes pte) { lock = 1 })

abbrev pub both_locked : System → (pte page : ℕ) → System
both_locked s pte page = write_pfn (entry_locked s pte) page (record (s.heap page) { lock = 1 })

finish_soft_fault-run :
    (s : System) (pte page : ℕ)
    → (s.ptes pte).index ≡ page
    → page < 2 ^ 40
    → finish_soft_fault (both_locked s pte page) pte page ≡ some (rescued s pte page)
unfolding finish_soft_fault set_pte_to_valid set_pfn_active unlock_page unlock_pfn unlock_pte update
finish_soft_fault-run s pte page e lt = ground arith

unlist_page-held :
    (o : Outside) (s : System) (page : ℕ)
    → (has_status (s.heap page) mid_trim || has_status (s.heap page) mid_write) ≡ true
    → unlist_page o s page ≡ some s
unfolding unlist_page
unlist_page-held o s page h = ground arith

module _ (o : Outside) (s : System) (pte page : ℕ) where
  -- A soft fault on a transition entry whose page is mid-trim or mid-write
  -- returns TRUE, if the locks are free and no other thread acts between them: the entry is valid
  -- with the same frame, the page is active and owned by the entry, and nothing but these two
  -- records and the count of soft faults has changed, neither a list nor the page file.
  pub resolve_soft_fault-held :
      is_pte_transition (s.ptes pte) ≡ true
      → (s.ptes pte).index ≡ page
      → page < 2 ^ 40
      → (leb s.vm.min_frame_number page && leb page s.vm.max_frame_number) ≡ true
      → (s.ptes pte).lock ≡ 0
      → (s.heap page).lock ≡ 0
      → (has_status (s.heap page) mid_trim || has_status (s.heap page) mid_write) ≡ true
      → o.meanwhile (entry_locked s pte) ≡ entry_locked s pte
      → resolve_soft_fault o pte s ≡ some (rescued s pte page, true)
  unfolding resolve_soft_fault lock_pte get_pfn_from_pte lock_page lock_pfn is_pte_transition
      is_pte_on_disk has_status update
  resolve_soft_fault-held tr e lt range free_entry free_page held alone =
      let u = unlist_page-held o (both_locked s pte page) page (ground (arith, held)) in
      let f = finish_soft_fault-run s pte page e lt in ground (arith, u, f, tr, e, range, alone)
