-- ===== src/Tests/Faults.antt =====
-- Runs of the fault handler and of the writer on one page.
use memory_manager.Base.{
  ℕ, ◌<◌, ◌≡◌, refl, true, false, some, arith, update, if◌then◌else◌, ◌==◌, [], ◌∷◌,
}
use memory_manager.Pte.{is_pte_zeroed, is_pte_on_disk}
use memory_manager.Pte.Address.{IsSized}
use memory_manager.Pfn.{has_status, mid_write}
use memory_manager.PageList.Ring.{IsList}
use memory_manager.Disk.{bit_at}
use memory_manager.Disk.Slots.{IsValid, stashed}
use memory_manager.System.{System, ThreadInfo}
use memory_manager.FaultHandler as FaultHandler
use memory_manager.FaultHandler.{finish_hard_fault, page_fault_handler}
use memory_manager.FaultHandler.Hard.{IsResolved, finish_hard_fault-stored}
use memory_manager.FaultHandler.Hard as Hard
use memory_manager.FaultHandler.Soft.{rescued}
use memory_manager.FaultHandler.Access.{
  IsReady, page_fault_handler-stored, page_fault_handler-zeroed,
}
use memory_manager.Writer as Writer
use memory_manager.Writer.{write_page}
use memory_manager.Writer.OnePage.{copied, write_page-rescued}
use memory_manager.Tests.{example_system, example_thread}
use memory_manager.Tests.Slots.{example_pf-IsValid}

abbrev quiet : FaultHandler.Outside
quiet = record {
  about_to_run_low = λ list. false;
  shared = λ n. true;
  others = λ n h. h;
  meanwhile = λ s. s;
}

slot_five-IsStored : Hard.IsStored example_system 2
unfolding is_pte_on_disk
slot_five-IsStored = ground arith

IsReady-for :
    (pte : ℕ)
    → pte < 8
    → (example_system.ptes pte).lock ≡ 0
    → IsReady quiet example_system example_thread pte
IsReady-for pte lt free = record {
  some_cached = omega arith;
  free_page = refl;
  free_entry = free;
  frame = omega arith;
  frame_bits = omega arith;
  kernel_space = omega arith;
  table = lt;
  alone = refl;
}

region-IsSized : IsSized example_system.vm
region-IsSized = record { whole = refl; pointers = refl }

page_fault_handler-stored_example :
    (s' : System) × (t' : ThreadInfo) × (page_fault_handler 2 quiet 74000 example_system
        example_thread
      ≡ some (s', t', true))
    × IsResolved example_system s' 2 21 500
    × IsValid s'.pf
    × (bit_at s'.pf 5 ≡ false)
page_fault_handler-stored_example =
    page_fault_handler-stored 0 quiet 74000 example_system example_thread region-IsSized
      (omega arith) (omega arith) (IsReady-for 2 (omega arith) refl) example_pf-IsValid
      slot_five-IsStored

untouched_entry : is_pte_zeroed (example_system.ptes 1) ≡ true
unfolding is_pte_zeroed
untouched_entry = refl

page_fault_handler-zeroed_example :
    (s' : System) × (t' : ThreadInfo) × (page_fault_handler 2 quiet 70000 example_system
        example_thread
      ≡ some (s', t', true))
    × IsResolved example_system s' 1 21 0
    × (s'.pf ≡ example_system.pf)
page_fault_handler-zeroed_example =
    page_fault_handler-zeroed 0 quiet 70000 example_system example_thread region-IsSized
      (omega arith) (omega arith) (IsReady-for 1 (omega arith) refl) untouched_entry

abbrev alone : Writer.Outside
alone = record { shared = λ n. true; others = λ n h. h; meanwhile = λ i s. s }

empty_temp-IsList : IsList example_system.heap 1002 []
empty_temp-IsList = record { ring = (refl, refl); apart = refl }

-- A soft fault takes page 11 while the writer copies it.
abbrev rescuing : Writer.Outside
rescuing = record { shared = λ n. true; others = λ n h. h; meanwhile = λ i s. rescued s 4 11 }

abbrev after_rescue : System
after_rescue =
    rescued
      (record example_system {
        pf = record (example_system.pf) { num_stashed_slots = 1 };
        page_file = update example_system.page_file 2 11;
      })
      4 11

active_page : has_status (after_rescue.heap 11) mid_write ≡ false
unfolding has_status update
active_page = refl

active_page_lock : (after_rescue.heap 11).lock ≡ 0
unfolding update
active_page_lock = refl

write_page-rescued_example :
    (s'' : System) × (write_page rescuing 1002 0 11 example_system ≡ some (s'', false))
    × (s''.heap ≡ after_rescue.heap)
    × IsValid s''.pf
    × (stashed example_system.pf ≡ 2 ∷ stashed s''.pf)
    × ((slot : ℕ)
        → bit_at s''.pf slot ≡ (if slot == 2 then false else bit_at example_system.pf slot))
write_page-rescued_example =
    write_page-rescued rescuing 1002 0 11 example_system example_pf-IsValid (omega arith)
      (omega arith) {s' = after_rescue} refl refl active_page_lock active_page

abbrev copied_eleven : System
copied_eleven = copied example_system 11
