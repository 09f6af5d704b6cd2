-- ===== src/Writer/Race.antt =====
-- A page that is faulted back while the writer copies it: the writer's step and the fault handler's
-- together.
use memory_manager.Base.{ℕ, ◌≡◌, true, false, some, ◌==◌, if◌then◌else◌, ◌∷◌}
use memory_manager.Pte.{is_pte_valid}
use memory_manager.Pfn.{has_status, active}
use memory_manager.Disk.{bit_at}
use memory_manager.Disk.Slots.{IsValid, stashed, top_slot}
use memory_manager.System.{System}
use memory_manager.FaultHandler as FaultHandler

-- What the fault and the writer leave: the entry maps the page, which is active and owned by it, both are
-- unlocked, and the slot that the page was copied to leaves the stack and is free again.
pub record IsTakenBack (s s' : System) (pte pfn : ℕ) : Type 0 where
  pub entry : is_pte_valid (s'.ptes pte) ≡ true
  pub frame_number : (s'.ptes pte).index ≡ pfn
  pub free_entry : (s'.ptes pte).lock ≡ 0
  pub state : has_status (s'.heap pfn) active ≡ true
  pub owner : (s'.heap pfn).pte ≡ some pte
  pub free_page : (s'.heap pfn).lock ≡ 0
  pub frames : s'.frames ≡ s.frames
  pub valid : IsValid s'.pf
  pub stack : stashed s.pf ≡ top_slot s.pf ∷ stashed s'.pf
  pub slots :
      (slot : ℕ) → bit_at s'.pf slot ≡ (if slot == top_slot s.pf then false else bit_at s.pf slot)
