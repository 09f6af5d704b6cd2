-- ===== src/Tests/Accesses.antt =====
-- Runs of a simulated thread: one access to a mapped page, and the first access to a page.
use memory_manager.Base.{ℕ, ◌+◌, ◌*◌, ◌<◌, ◌≡◌, ◌⊎◌, none, refl, true, false, some, arith}
use memory_manager.Pte.{is_pte_valid, is_pte_zeroed, get_pte_from_va}
use memory_manager.Pte.Address.{IsSized}
use memory_manager.System.{System, ThreadInfo}
use memory_manager.FaultHandler.{Outside}
use memory_manager.FaultHandler.Access.{IsReady}
use memory_manager.Random.{get_next_va}
use memory_manager.Random.Region.{IsCell, get_next_va-IsCell}
use memory_manager.Simulator.{Machine, access, run_user_app_simulation}
use memory_manager.Simulator.Accesses.{run_user_app_simulation-true}
use memory_manager.Simulator.First.{access-first}
use memory_manager.Tests.{example_vm, example_system, example_thread}

abbrev quiet : Outside
quiet = record {
  about_to_run_low = λ list. false;
  shared = λ n. true;
  others = λ n h. h;
  meanwhile = λ s. s;
}

-- A page is the last value that was written to it and where.
abbrev example_machine : Machine
example_machine = record {
  store = λ page offset value. value * 4096 + offset;
  accessed_address = 128;
  snapshot_address = 136;
  outside = quiet;
}

region-IsSized : IsSized example_vm
region-IsSized = record { whole = refl; pointers = refl }

get_next_va-IsCell_example :
    IsCell example_vm (get_next_va example_vm 98296 7).1
    × (pte : ℕ) × (get_pte_from_va example_vm (get_next_va example_vm 98296 7).1 ≡ some pte)
    × (pte < 8)
get_next_va-IsCell_example =
    get_next_va-IsCell region-IsSized (omega arith) refl 98296 7
      (omega arith, omega arith, refl, omega arith)

-- The thread starts with no entry valid, so that its access faults.
run_user_app_simulation-true_example :
    (run_user_app_simulation 1 4 example_machine 7 example_system example_thread ≡ none)
    ⊎ ((s' : System) × (t' : ThreadInfo) × (run_user_app_simulation 1 4 example_machine 7
            example_system example_thread
          ≡ some (s', t', true)))
run_user_app_simulation-true_example =
    run_user_app_simulation-true example_machine (λ s. refl) 1 4 7 example_system example_thread
      region-IsSized (omega arith) refl

first-IsReady : IsReady quiet example_system example_thread 1
first-IsReady = record {
  some_cached = omega arith;
  free_page = refl;
  free_entry = refl;
  frame = omega arith;
  frame_bits = omega arith;
  kernel_space = omega arith;
  table = omega arith;
  alone = refl;
}

untouched_entry : is_pte_zeroed (example_system.ptes 1) ≡ true
unfolding is_pte_zeroed
untouched_entry = refl

access-first_example :
    (s' : System) × (t' : ThreadInfo) × (access 3 example_machine 70000 example_system
        example_thread
      ≡ some (s', t', true))
    × (s'.frames 21 ≡ 70000 * 4096 + 368)
    × (is_pte_valid (s'.ptes 1) ≡ true)
    × ((s'.ptes 1).index ≡ 21)
access-first_example =
    access-first 0 70000 example_machine example_system example_thread region-IsSized (omega arith)
      (omega arith) first-IsReady untouched_entry refl (λ g. refl)
