-- ===== src/FaultHandler/Returns.antt =====
-- What the handler's return value says of the entry, whatever other threads do.
use memory_manager.Base.{
  ℕ, zero, suc, ◌+◌, ◌≡◌, ◌≢◌, true, false, Bool, some, none, Option, arith, update, ◌≤◌, ◌<◌, ◌⊎◌,
  inl, inr, refl, dec_lt,
}
use memory_manager.Pte.{is_pte_valid, set_pte_to_valid, get_pte_from_va}
use memory_manager.Pte.Address.{IsSized}
use memory_manager.FaultHandler.Access.{entry_of}
use memory_manager.System.{System, ThreadInfo, unlock_page, unlock_pte}
use memory_manager.FaultHandler.{
  Outside, resolve_soft_fault, resolve_hard_fault, finish_soft_fault, finish_hard_fault, handle,
  use_page, page_fault_handler,
}

unlock_page-ptes : (s : System) (p : ℕ) {s' : System} → unlock_page s p ≡ some s' → s'.ptes ≡ s.ptes
unfolding unlock_page
unlock_page-ptes s p e = ground arith

unlock_pte-valid :
    (s : System) (i : ℕ) {s' : System}
    → unlock_pte s i ≡ some s'
    → (s'.ptes i).valid ≡ (s.ptes i).valid
unfolding unlock_pte update
unlock_pte-valid s i e = ground arith

finish_soft_fault-valid :
    (s : System) (pte pfn : ℕ) {s' : System}
    → finish_soft_fault s pte pfn ≡ some s'
    → is_pte_valid (s'.ptes pte) ≡ true
unfolding finish_soft_fault is_pte_valid set_pte_to_valid unlock_page unlock_pte update
finish_soft_fault-valid s pte pfn e = ground arith

finish_hard_fault-valid :
    (pte page frame : ℕ) (s : System) (t : ThreadInfo) {s' : System} {t' : ThreadInfo}
    → finish_hard_fault pte page frame s t ≡ some (s', t', true)
    → is_pte_valid (s'.ptes pte) ≡ true
unfolding finish_hard_fault is_pte_valid set_pte_to_valid unlock_page unlock_pte update
finish_hard_fault-valid pte page frame s t e = ground arith

use_page-valid :
    (fuel pte page : ℕ) (s : System) (t : ThreadInfo) {s' : System} {t' : ThreadInfo}
    → use_page fuel pte page s t ≡ some (s', t', true)
    → is_pte_valid (s'.ptes pte) ≡ true
unfolding use_page
use_page-valid fuel pte page s t e = grind (arith, finish_hard_fault-valid)

resolve_hard_fault-valid :
    (fuel : ℕ) (o : Outside) (pte : ℕ) (s : System) (t : ThreadInfo) {s' : System} {t' : ThreadInfo}
    → resolve_hard_fault fuel o pte s t ≡ some (s', t', true)
    → is_pte_valid (s'.ptes pte) ≡ true
unfolding resolve_hard_fault
resolve_hard_fault-valid fuel o pte s t e = grind (arith, use_page-valid)

resolve_soft_fault-valid :
    (o : Outside) (pte : ℕ) (s : System) {s' : System}
    → resolve_soft_fault o pte s ≡ some (s', true)
    → is_pte_valid (s'.ptes pte) ≡ true
unfolding resolve_soft_fault
resolve_soft_fault-valid o pte s e = grind (arith, finish_soft_fault-valid)

handle-valid :
    (fuel : ℕ) (o : Outside) (pte : ℕ) (s : System) (t : ThreadInfo) {s' : System} {t' : ThreadInfo}
    → handle fuel o pte s t ≡ some (s', t', true)
    → is_pte_valid (s'.ptes pte) ≡ true
unfolding handle
handle-valid zero o pte s t e = cc
handle-valid (suc fuel) o pte s t e =
    grind (arith, resolve_hard_fault-valid, resolve_soft_fault-valid, handle-valid fuel)

handle-never_false :
    (fuel : ℕ) (o : Outside) (pte : ℕ) (s : System) (t : ThreadInfo) {s' : System} {t' : ThreadInfo}
    → handle fuel o pte s t ≢ some (s', t', false)
unfolding handle
handle-never_false zero o pte s t e = cc
handle-never_false (suc fuel) o pte s t e = grind (arith, handle-never_false fuel)

module _ (fuel : ℕ) (o : Outside) (va : ℕ) (s : System) (t : ThreadInfo)
    (sized : IsSized s.vm) where
  inside-handle :
      s.vm.application_va_base ≤ va
      → va < s.vm.application_va_base + s.vm.va_size_in_bytes
      → page_fault_handler fuel o va s t ≡ handle fuel o (entry_of s va) s t
  unfolding page_fault_handler get_pte_from_va
  inside-handle above below = ground (arith, above, below, sized.pointers)

  outside-refused :
      (va < s.vm.application_va_base) ⊎ (s.vm.application_va_base + s.vm.va_size_in_bytes ≤ va)
      → page_fault_handler fuel o va s t ≡ some (s, t, false)
  unfolding page_fault_handler
  outside-refused out = ground (arith, out, sized.pointers)

  inside-handled :
      (r : Option (System × ThreadInfo × Bool))
      → handle fuel o (entry_of s va) s t ≡ r
      → (handle fuel o (entry_of s va) s t ≡ none)
        ⊎ ((s' : System) × (t' : ThreadInfo) × (handle fuel o (entry_of s va) s t
              ≡ some (s', t', true))
            × (is_pte_valid (s'.ptes (entry_of s va)) ≡ true))
  inside-handled none e = inl e
  inside-handled (some (s', t', true)) e =
      inr (s', t', e, handle-valid fuel o (entry_of s va) s t e)
  inside-handled (some (s', t', false)) e = absurd (handle-never_false fuel o (entry_of s va) s t e)

  -- Whatever other threads do at the handler's waits, and in any state of the lists, the locks and
  -- the page file: for an address outside the region the handler returns FALSE and has changed
  -- nothing; for an address of the region it returns TRUE, with the address's entry valid at that
  -- moment, or does not return (it is out of fuel, or an assertion fails), and never returns FALSE.
  pub page_fault_handler-returns :
      (((va < s.vm.application_va_base) ⊎ (s.vm.application_va_base + s.vm.va_size_in_bytes ≤ va))
        × (page_fault_handler fuel o va s t ≡ some (s, t, false)))
      ⊎ ((s.vm.application_va_base ≤ va)
          × (va < s.vm.application_va_base + s.vm.va_size_in_bytes)
          × ((page_fault_handler fuel o va s t ≡ none)
              ⊎ ((s' : System) × (t' : ThreadInfo) × (page_fault_handler fuel o va s t
                    ≡ some (s', t', true))
                  × (is_pte_valid (s'.ptes (entry_of s va)) ≡ true))))
  page_fault_handler-returns = elim (dec_lt va s.vm.application_va_base) [
    | yes low ↦ inl (inl low, outside-refused (inl low))
    | no above ↦ elim (dec_lt va (s.vm.application_va_base + s.vm.va_size_in_bytes)) [
      | no high ↦ inl (inr (omega (arith, high)), outside-refused (inr (omega (arith, high))))
      | yes below ↦
          let le : s.vm.application_va_base ≤ va = omega (arith, above) in
          inr (
            le,
            below,
            rw (inside-handle le below) (inside-handled (handle fuel o (entry_of s va) s t) refl),
          )
    ]
  ]
