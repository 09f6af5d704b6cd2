-- ===== src/Tests/Boot.antt =====
-- The start of the program with 18 frames and two user threads.
use memory_manager.Base.{
  false, ℕ, ◌+◌, ◌<◌, ◌≤◌, ◌≡◌, refl, true, some, arith, List, [], ◌∷◌, has, length, ◌%◌, ◌^◌,
}
use memory_manager.Pte.{is_pte_zeroed, initialize_page_table}
use memory_manager.Pte.Address.{IsSized}
use memory_manager.PageList.Ring.{IsList}
use memory_manager.Disk.Slots.{IsValid}
use memory_manager.System.{System, ThreadInfo}
use memory_manager.Initializer.{
  Boot, initialize_shared, initialize_system, set_max_frame_number, frame_bounds,
  initialize_user_va_space,
}
use memory_manager.Initializer.First.{first_fault}
use memory_manager.FaultHandler.{Outside, page_fault_handler}
use memory_manager.FaultHandler.Access.{entry_of, cached_page}
use memory_manager.FaultHandler.Hard.{IsResolved}
use memory_manager.Initializer.Deal.{share, IsFresh}
use memory_manager.Initializer.Start.{
  head_of, IsSound, initialize_shared-lists, initialize_shared-sizes,
}
use memory_manager.Initializer.Counts.{listed_pages}
use memory_manager.Initializer.Threads.{AreServed, initialize_system_lem}
use memory_manager.Tests.{linked, example_thread}

abbrev frame_numbers : List ℕ
frame_numbers =
    31 ∷ 7 ∷ 8 ∷ 9 ∷ 10 ∷ 11 ∷ 12 ∷ 13 ∷ 14 ∷ 15 ∷ 16 ∷ 17 ∷ 18 ∷ 19 ∷ 20 ∷ 21 ∷ 22 ∷ 23 ∷ []

abbrev example_boot : Boot
example_boot = record {
  allocated_frame_numbers = frame_numbers;
  va_span = 100;
  application_va_base = 65536;
  pages_in_page_file = 128;
  zero_head = 500;
  modified_head = 501;
  standby_head = 502;
  free_heads = λ i. 600 + i;
  memory = λ q. linked q 1;
  frames = λ f. f;
  page_file = λ slot. 0;
}

boot-IsSound : IsSound example_boot
boot-IsSound = record {
  heads_apart = λ i j li lj ne. ground arith;
  frames_apart = refl;
  frames_off = λ j p lt m. ground arith;
  rows = 2;
  some_rows = omega arith;
  few_rows = omega arith;
  whole_rows = refl;
}

initialize_shared-lists_example :
    ((j : ℕ)
      → j < 16
      → IsList (initialize_shared example_boot).heap (600 + j) (share j 0 frame_numbers)
        × (((initialize_shared example_boot).free_lists.list_array j).head ≡ 600 + j)
        × (((initialize_shared example_boot).free_lists.list_array j).list_size
            ≡ length (share j 0 frame_numbers) % 2 ^ 64)
        × ((q : ℕ)
            → has q (share j 0 frame_numbers) ≡ true
            → IsFresh ((initialize_shared example_boot).heap q)))
    × ((q : ℕ)
        → has q frame_numbers ≡ true
        → (j : ℕ) × (j < 16) × (has q (share j 0 frame_numbers) ≡ true))
    × ((initialize_shared example_boot).free_lists.page_count ≡ 18)
    × IsList
        (initialize_shared example_boot).heap
        (initialize_shared example_boot).modified_list.head
        []
    × IsList
        (initialize_shared example_boot).heap
        (initialize_shared example_boot).standby_list.head
        []
initialize_shared-lists_example = initialize_shared-lists example_boot boot-IsSound (omega arith)

initialize_shared-sizes_example :
    IsSized (initialize_shared example_boot).vm
    × ((initialize_shared example_boot).vm.num_ptes ≡ 100)
    × ((pte : ℕ)
        → (is_pte_zeroed ((initialize_shared example_boot).ptes pte) ≡ true)
          × (((initialize_shared example_boot).ptes pte).lock ≡ 0))
    × ((frame : ℕ)
        → has frame frame_numbers ≡ true
        → ((initialize_shared example_boot).vm.min_frame_number ≤ frame)
          × (frame ≤ (initialize_shared example_boot).vm.max_frame_number))
    × IsValid (initialize_shared example_boot).pf
initialize_shared-sizes_example = initialize_shared-sizes example_boot boot-IsSound

abbrev no_threads : ℕ → ThreadInfo
no_threads t = example_thread

initialize_system_example :
    (s : System) × (ts : ℕ → ThreadInfo) × (ls : ℕ → List ℕ) × (cs : ℕ → List ℕ)
    × (initialize_system example_boot 2 no_threads ≡ some (s, ts))
    × AreServed 19 (head_of example_boot) frame_numbers 2 s ts ls cs
    × (s.stats.n_available ≡ listed_pages ls 16 % 2 ^ 64)
initialize_system_example = initialize_system_lem example_boot boot-IsSound 2 no_threads

abbrev quiet : Outside
quiet = record {
  about_to_run_low = λ list. false;
  shared = λ n. true;
  others = λ n h. h;
  meanwhile = λ s. s;
}

small_frames : (initialize_shared example_boot).vm.max_frame_number < 2 ^ 40
unfolding initialize_shared set_max_frame_number frame_bounds initialize_user_va_space
    initialize_page_table
small_frames = omega arith

first_fault_example :
    (s : System) × (ts : ℕ → ThreadInfo) × (s' : System) × (t' : ThreadInfo) × (initialize_system
        example_boot 2 no_threads
      ≡ some (s, ts))
    × (page_fault_handler 2 quiet 70000 s (ts 1) ≡ some (s', t', true))
    × IsResolved s s' (entry_of s 70000) (cached_page (ts 1)) 0
    × (has (cached_page (ts 1)) frame_numbers ≡ true)
first_fault_example =
    first_fault example_boot boot-IsSound 2 1 no_threads quiet 70000 0 (omega arith) (omega arith)
      (omega arith) (omega arith) (omega arith) small_frames (λ g. refl)
