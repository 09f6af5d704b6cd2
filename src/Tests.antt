-- ===== src/Tests.antt =====
-- Runs of the theorems at concrete inputs, and the inputs: two rings of two pages, a page file of
-- 128 slots and a region of eight pages.
mod Words
mod Lists
mod Slots
mod Faults
mod Walk
mod Batches
mod Threads
mod Rescues
mod Accesses
mod Boot
mod Runs
mod Prunes
use memory_manager.Base.{
  ℕ, ◌+◌, ◌*◌, ◌==◌, if◌then◌else◌, true, false, Bool, none, some, set, replicate, List, [], ◌∷◌,
}
use memory_manager.Config.{Vm}
use memory_manager.Pte.{Pte, zero_pte}
use memory_manager.Pfn.{Pfn, Heap}
use memory_manager.PageList.{PageList}
use memory_manager.Disk.{PageFile, Row}
use memory_manager.System.{System, ThreadInfo, FreeLists, Stats, Events}

abbrev pub example_vm : Vm
example_vm = record {
  va_size_in_bytes = 32768;
  va_size_in_pointers = 4096;
  application_va_base = 65536;
  num_ptes = 8;
  max_frame_number = 999;
  min_frame_number = 1;
}

abbrev pub linked : (flink blink : ℕ) → Pfn
linked flink blink = record {
  flink = flink;
  blink = blink;
  pte = none;
  lock = 0;
  disk_index = 0;
  status = 0;
  reserved = 0;
}

-- 1000 is the head of a ring of 3 and 5, 1001 that of a ring of 7 and 9, 1002 that of an empty one.
abbrev pub example_heap : Heap
example_heap q =
    if q == 1000
    then linked 3 5
    else if q == 3
    then linked 5 1000
    else if q == 5
    then linked 1000 3
    else if q == 1001
    then linked 7 9
    else if q == 7
    then linked 9 1001
    else if q == 9
    then linked 1001 7
    else if q == 1002
    then linked 1002 1002
    else if q == 11
    then record (linked 0 0) { status = 4 }
    else linked 0 0

abbrev pub example_list : PageList
example_list = record { head = 1000; list_size = 2 }

abbrev pub example_row : Row
example_row = set (set (set (set (replicate 64 false) 0 true) 1 true) 2 true) 5 true

-- Slots 1 and 2 are on the stack, 5 is in use, 0 is never used.
abbrev pub example_pf : PageFile
example_pf = record {
  page_file_bitmaps = example_row ∷ replicate 64 false ∷ [];
  page_file_bitmap_rows = 2;
  max_disk_index = 127;
  empty_disk_slots = 124;
  slot_stack = λ i. i + 1;
  last_checked_bitmap_row = 0;
  num_stashed_slots = 2;
}

-- Entry 2 is on disk in slot 5, entry 4 is in transition with frame 11.
abbrev pub example_system : System
example_system = record {
  vm = example_vm;
  heap = example_heap;
  ptes = λ i.
      if i == 2
      then record zero_pte { status = 1; index = 5 }
      else if i == 4
      then record zero_pte { index = 11 }
      else zero_pte;
  modified_list = example_list;
  standby_list = record { head = 1001; list_size = 2 };
  free_lists = record {
    number_of_lists = 16;
    page_count = 0;
    list_array = λ i. record { head = 1003 + i; list_size = 0 };
    free_list_locks = λ i. false;
  };
  pf = example_pf;
  page_file = λ slot. slot * 100;
  frames = λ frame. frame;
  stats = record { n_available = 10; n_hard = 0; n_soft = 0; hard_faults_missed = 0 };
  events = record {
    initiate_trimming = false;
    initiate_writing = false;
    standby_pages_ready = true;
  };
}

abbrev pub example_thread : ThreadInfo
example_thread = record {
  thread_id = 3;
  kernel_va_index = 15;
  free_page_cache = λ i. 20 + i;
  free_page_count = 2;
}
