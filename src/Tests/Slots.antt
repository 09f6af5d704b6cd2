-- ===== src/Tests/Slots.antt =====
-- Runs on the page file and the writer.
use memory_manager.Base.{ℕ, ◌+◌, ◌<◌, ◌≡◌, refl, some, arith}
use memory_manager.Disk.{
  initialize_page_file, PageFile, pop_and_clear_all_slots, set_and_add_slots_to_stack,
}
use memory_manager.Disk.Start.{initialize_page_file-IsValid}
use memory_manager.Disk.Slots.{IsValid}
use memory_manager.Disk.Search.{Found, set_and_add_slots_to_stack_lem}
use memory_manager.Disk.Release.{Released, pop_and_clear_all_slots_lem}
use memory_manager.Writer.{reserve_slots}
use memory_manager.Writer.Slots.{IsReserved, reserve_slots_lem}
use memory_manager.Tests.{example_pf}

pub example_pf-IsValid : IsValid example_pf
example_pf-IsValid = record {
  rows = refl;
  width = ground arith;
  top = refl;
  small = omega arith;
  count = refl;
  zero_taken = refl;
  taken = ground arith;
  apart = refl;
  fits = omega arith;
}

pop_and_clear_all_slots_example :
    (pf' : PageFile) × (pop_and_clear_all_slots example_pf ≡ some pf') × Released example_pf pf'
pop_and_clear_all_slots_example = pop_and_clear_all_slots_lem example_pf-IsValid

set_and_add_slots_to_stack_example :
    (pf' : PageFile) × (set_and_add_slots_to_stack example_pf 70 ≡ some pf')
    × Found example_pf pf' 70
set_and_add_slots_to_stack_example =
    set_and_add_slots_to_stack_lem 70 example_pf-IsValid (omega arith) (omega arith) (omega arith)

reserve_slots_example :
    (pf' : PageFile) × (n : ℕ) × (reserve_slots example_pf 30 ≡ some (pf', n)) × IsReserved pf' 30 n
reserve_slots_example = reserve_slots_lem 30 example_pf-IsValid (omega arith)

initialize_page_file_example :
    IsValid (initialize_page_file 128)
    × ((initialize_page_file 128).empty_disk_slots + 1 ≡ 128)
    × ((initialize_page_file 128).num_stashed_slots ≡ 0)
    × ((initialize_page_file 128).last_checked_bitmap_row
        < (initialize_page_file 128).page_file_bitmap_rows)
initialize_page_file_example = initialize_page_file-IsValid 2 (omega arith) (omega arith)
