-- ===== src/Tests/Batches.antt =====
-- Runs of a whole write batch, and of a fault on a page that the writer saved.
use memory_manager.Base.{◌≡◌, refl, true, false, some, arith, update, [], ◌∷◌, ◌==◌, if◌then◌else◌}
use memory_manager.Pte.{zero_pte, map_pte_to_disk, validate_disk_slot}
use memory_manager.Pte.Address.{IsSized}
use memory_manager.Pfn.{has_status}
use memory_manager.PageList.Ring.{IsList}
use memory_manager.PageList.{insert_to_list_tail}
use memory_manager.System.{System, ThreadInfo}
use memory_manager.Writer.{write_batch, write_page, Outside}
use memory_manager.Writer.Pages.{IsWaiting, IsWritten, write_batch_lem}
use memory_manager.Writer.OnePage as OnePage
use memory_manager.FaultHandler as FaultHandler
use memory_manager.FaultHandler.{page_fault_handler}
use memory_manager.FaultHandler.Hard.{IsResolved}
use memory_manager.FaultHandler.Access.{IsReady}
use memory_manager.FaultHandler.RoundTrip.{fault-write_page}
use memory_manager.Tests.{example_system, example_thread, linked}
use memory_manager.Tests.Slots.{example_pf-IsValid}

abbrev alone : Outside
alone = record { shared = λ n. true; others = λ n h. h; meanwhile = λ i s. s }

-- Pages 11 and 12 are mid-write.
abbrev batch_system : System
batch_system = record example_system {
  heap = λ q. if q == 12 then record (linked 0 0) { status = 4 } else example_system.heap q;
}

empty_temp-IsList : IsList batch_system.heap 1002 []
empty_temp-IsList = record { ring = (refl, refl); apart = refl }

IsWaiting-eleven : IsWaiting batch_system 11
unfolding has_status
IsWaiting-eleven = (refl, refl, omega arith)

IsWaiting-twelve : IsWaiting batch_system 12
unfolding has_status
IsWaiting-twelve = (refl, refl, omega arith)

write_batch_example :
    (s' : System) × (write_batch alone 1002 0 (11 ∷ 12 ∷ []) batch_system ≡ some (s', 2))
    × IsWritten batch_system s' 1002 [] (11 ∷ 12 ∷ [])
write_batch_example =
    write_batch_lem alone 1002 0 [] (11 ∷ 12 ∷ []) batch_system (λ j g. refl) example_pf-IsValid
      (omega arith) empty_temp-IsList refl (IsWaiting-eleven, (IsWaiting-twelve, tt))

-- Page 11 was written to slot 2, and entry 1 sent to disk with that slot.
abbrev saved_system : System
saved_system = OnePage.became_standby (OnePage.copied example_system 11) 1002 11 2

eleven_valid : IsWaiting example_system 11
unfolding has_status
eleven_valid = (refl, refl, omega arith)

saved_run : write_page alone 1002 0 11 example_system ≡ some (saved_system, true)
saved_run =
    OnePage.write_page-standby alone 1002 0 11 example_system example_pf-IsValid (omega arith)
      (omega arith) refl refl eleven_valid.1

abbrev later_system : System
later_system = record saved_system {
  ptes = update saved_system.ptes 1 (record zero_pte { status = 1; index = 2 });
  heap = example_system.heap;
}

abbrev quiet : FaultHandler.Outside
quiet = record {
  about_to_run_low = λ list. false;
  shared = λ n. true;
  others = λ n h. h;
  meanwhile = λ s. s;
}

later-IsReady : IsReady quiet later_system example_thread 1
unfolding update
later-IsReady = record {
  some_cached = omega arith;
  free_page = refl;
  free_entry = refl;
  frame = omega arith;
  frame_bits = omega arith;
  kernel_space = omega arith;
  table = omega arith;
  alone = refl;
}

later-IsSized : IsSized later_system.vm
later-IsSized = record { whole = refl; pointers = refl }

mapped_run :
    map_pte_to_disk 127 zero_pte (saved_system.heap 11).disk_index ≡ some (later_system.ptes 1)
unfolding map_pte_to_disk validate_disk_slot insert_to_list_tail update
mapped_run = refl

fault-write_page_example :
    (g' : System) × (t' : ThreadInfo) × (page_fault_handler 2 quiet 70000 later_system
        example_thread
      ≡ some (g', t', true))
    × IsResolved later_system g' 1 21 11
fault-write_page_example =
    fault-write_page alone 1002 0 11 [] example_system saved_system example_pf-IsValid (omega arith)
      (omega arith) (record { ring = (refl, refl); apart = refl }) refl refl refl eleven_valid.1
      saved_run later_system 0 quiet 70000 example_thread zero_pte refl refl later-IsSized
      (omega arith) (omega arith) later-IsReady mapped_run
