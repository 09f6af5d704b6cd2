-- ===== src/FaultHandler/RoundTrip.antt =====
-- What the writer saved is what a later fault reads.
use mathlib.Core.Path.{subst}
use memory_manager.Base.{
  ℕ, suc, ◌+◌, ◌^◌, ◌≡◌, ◌≤◌, ◌<◌, ◌∙◌, ap, true, false, Bool, Option, some, arith, List, sym, has,
  ◌∷◌,
}
use memory_manager.Pte.{Pte, map_pte_to_disk, is_pte_on_disk}
use memory_manager.Pte.Address.{IsSized}
use memory_manager.System.{System, ThreadInfo}
use memory_manager.Pfn.{has_status, mid_write}
use memory_manager.PageList.Ring.{IsList}
use memory_manager.Disk.Slots.{IsValid}
use memory_manager.Writer as Writer
use memory_manager.Writer.{write_page}
use memory_manager.Writer.OnePage as OnePage
use memory_manager.FaultHandler.{Outside, page_fault_handler}
use memory_manager.FaultHandler.Hard.{IsStored, IsResolved}
use memory_manager.FaultHandler.Access.{IsReady, entry_of, cached_page, page_fault_handler-stored}

mapped_index :
    (max slot : ℕ) (p q : Pte)
    → slot ≤ max
    → max < 2 ^ 40
    → map_pte_to_disk max p slot ≡ some q
    → (q.index ≡ slot) × (is_pte_on_disk q ≡ true)
unfolding map_pte_to_disk is_pte_on_disk
mapped_index max slot p q le lt e = ground arith

module _ (s s' : System) (temp pfn : ℕ) (pages : List ℕ)
    (saved : OnePage.IsStored s s' temp pfn pages) (g : System) (same_pf : g.pf ≡ s'.pf) where
  evicted-IsStored :
      (pte : ℕ) (p : Pte)
      → map_pte_to_disk g.pf.max_disk_index p (s'.heap pfn).disk_index ≡ some (g.ptes pte)
      → IsStored g pte × ((g.ptes pte).index ≡ (s'.heap pfn).disk_index)
  evicted-IsStored pte p e =
      let in_range : (s'.heap pfn).disk_index ≤ g.pf.max_disk_index = rw same_pf saved.in_use.1 in
      let small : g.pf.max_disk_index < 2 ^ 40 = rw same_pf saved.valid.small in
      let m =
        mapped_index g.pf.max_disk_index (s'.heap pfn).disk_index p (g.ptes pte) in_range small e in
      (
        record {
          on_disk = m.1;
          slot = rw m.0 (ground (arith, saved.own));
          in_range = rw m.0 in_range;
          in_use = rw (m.0, same_pf) saved.in_use.0;
          not_stashed = rw (m.0, same_pf) (ground (arith, saved.own));
        },
        m.0,
      )

some-same :
    (a b : System) → ◌≡◌ {A = Option (System × Bool)} (some (a, true)) (some (b, true)) → a ≡ b
some-same a b e = cc

-- The writer copies an unlocked mid-write page, undisturbed, to a slot of its stack and returns with
-- success. Later, in any state with the page file and its bookkeeping as the writer left them and
-- with an entry that was sent to disk with the slot in the page's record, a fault on an address of
-- that entry by a thread that is ready as `IsReady` says returns TRUE with what the page's frame
-- held when the writer began, in a frame that the entry maps, whatever that frame and the page's
-- former frame held in between.
pub fault-write_page :
    (w : Writer.Outside) (temp i pfn : ℕ) (pages : List ℕ) (s s' : System)
    → IsValid s.pf
    → 0 < s.pf.num_stashed_slots
    → pfn ≤ s.vm.max_frame_number
    → IsList s.heap temp pages
    → has pfn (temp ∷ pages) ≡ false
    → w.meanwhile i (OnePage.copied s pfn) ≡ OnePage.copied s pfn
    → (s.heap pfn).lock ≡ 0
    → has_status (s.heap pfn) mid_write ≡ true
    → write_page w temp i pfn s ≡ some (s', true)
    → (g : System) (fuel : ℕ) (o : Outside) (va : ℕ) (t : ThreadInfo) (p : Pte) → g.pf ≡ s'.pf
    → g.page_file ≡ s'.page_file
    → IsSized g.vm
    → g.vm.application_va_base ≤ va
    → va < g.vm.application_va_base + g.vm.va_size_in_bytes
    → IsReady o g t (entry_of g va)
    → map_pte_to_disk g.pf.max_disk_index p (s'.heap pfn).disk_index ≡ some (g.ptes (entry_of g va))
    → (g' : System) × (t' : ThreadInfo) × (page_fault_handler (suc (suc fuel)) o va g t
        ≡ some (g', t', true))
      × IsResolved g g' (entry_of g va) (cached_page t) (s.frames pfn)
fault-write_page w temp i pfn pages s s' v pos le is out alone free mid wrote g fuel o va t p
      same_pf same_file sized above below ready e =
    let (s₁, run, stored) =
      OnePage.write_page-IsStored w temp i pfn s v pos le pages is out alone free mid in
    let saved : OnePage.IsStored s s' temp pfn pages =
      subst (λ r. OnePage.IsStored s r temp pfn pages) (some-same s₁ s' (sym run ∙ wrote)) stored in
    let (st, index) = evicted-IsStored s s' temp pfn pages saved g same_pf (entry_of g va) p e in
    let (g', t', run', resolved, valid, cleared) =
      page_fault_handler-stored fuel o va g t sized above below ready (rw same_pf saved.valid) st in
    let contents : g.page_file (g.ptes (entry_of g va)).index ≡ s.frames pfn =
      ap g.page_file index ∙ ap (λ f. f (s'.heap pfn).disk_index) same_file ∙ saved.saved in
    (g', t', run', rw contents at resolved)
