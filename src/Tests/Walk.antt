-- ===== src/Tests/Walk.antt =====
-- Runs of the trimmer's walk and of the handler's return.
use memory_manager.Base.{
  ◌+◌, ◌≤◌, ◌<◌, ◌≡◌, ◌⊎◌, refl, true, false, none, some, arith, update, [], ◌∷◌, ◌==◌,
  if◌then◌else◌,
}
use memory_manager.Pte.{
  is_pte_valid, is_pte_accessed, zero_pte, set_pte_to_transition, get_va_from_pte,
}
use memory_manager.Pfn.{get_pfn_from_pte, lock_pfn}
use memory_manager.Pte.Address.{IsSized}
use memory_manager.System.{System, ThreadInfo, try_lock_pte, lock_page, unlock_pte}
use memory_manager.Trimmer.{visit_entry, trim_scan, trim_entry, next_pte}
use memory_manager.Trimmer.Walk.{IsTrimmed, trim_scan-IsHeld}
use memory_manager.FaultHandler.{Outside, page_fault_handler}
use memory_manager.FaultHandler.Returns.{page_fault_handler-returns}
use memory_manager.Tests.{example_system, example_thread}

-- Entry 1 is valid, accessed and mapped to frame 30, entry 3 valid and mapped to frame 31.
abbrev busy_system : System
busy_system = record example_system {
  ptes = λ i.
      if i == 1
      then record zero_pte { valid = 1; accessed = 1; index = 30 }
      else if i == 3
      then record zero_pte { valid = 1; index = 31 }
      else zero_pte;
}

-- The state behind the visit of entry 3.
abbrev trimmed_system : System
trimmed_system = record busy_system {
  ptes =
      update busy_system.ptes 3 (record (busy_system.ptes 3) { valid = 0; status = 0; lock = 0 });
  heap = update busy_system.heap 31 (record (busy_system.heap 31) { lock = 1 });
}

trimmed_run : trim_scan 1 2 [] busy_system ≡ some (trimmed_system, 3, 31 ∷ [])
unfolding trim_scan visit_entry trim_entry next_pte is_pte_valid is_pte_accessed try_lock_pte
    get_pfn_from_pte lock_page lock_pfn unlock_pte set_pte_to_transition get_va_from_pte update
trimmed_run = ground arith

trim_scan-IsHeld_example : IsTrimmed 1 [] (31 ∷ []) 3 trimmed_system
trim_scan-IsHeld_example =
    trim_scan-IsHeld 1 2 [] busy_system (omega arith) (omega arith) (tt, refl) trimmed_run

abbrev quiet : Outside
quiet = record {
  about_to_run_low = λ list. false;
  shared = λ n. true;
  others = λ n h. h;
  meanwhile = λ s. s;
}

busy-IsSized : IsSized busy_system.vm
busy-IsSized = record { whole = refl; pointers = refl }

-- The address is in page 2, whose entry is zeroed.
page_fault_handler-returns_example :
    (((73728 < 65536) ⊎ (65536 + 32768 ≤ 73728))
      × (page_fault_handler 3 quiet 73728 busy_system example_thread
          ≡ some (busy_system, example_thread, false)))
    ⊎ ((65536 ≤ 73728)
        × (73728 < 65536 + 32768)
        × ((page_fault_handler 3 quiet 73728 busy_system example_thread ≡ none)
            ⊎ ((s' : System) × (t' : ThreadInfo) × (page_fault_handler 3 quiet 73728 busy_system
                    example_thread
                  ≡ some (s', t', true))
                × (is_pte_valid (s'.ptes 2) ≡ true))))
page_fault_handler-returns_example =
    page_fault_handler-returns 3 quiet 73728 busy_system example_thread busy-IsSized
