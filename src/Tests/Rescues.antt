-- ===== src/Tests/Rescues.antt =====
-- Runs of soft faults on listed pages, and of the routines on one list with shared locks.
use memory_manager.Base.{
  List, ℕ, ◌≤◌, ◌≡◌, refl, true, false, Bool, some, arith, if◌then◌else◌, ◌==◌, [], ◌∷◌, ◌++◌,
}
use memory_manager.Pte.{zero_pte, is_pte_transition}
use memory_manager.Pfn.{Heap, has_status, modified, standby}
use memory_manager.PageList.{decrement_list_size}
use memory_manager.PageList.Ring.{IsList, SameBut}
use memory_manager.PageList.Locked.{remove_page_on_soft_fault}
use memory_manager.PageList.Tries.{found}
use memory_manager.PageList.OnFault.{IsOn, remove_page_on_soft_fault_lem}
use memory_manager.PageList.Batch.{Batch, remove_batch_from_list_head}
use memory_manager.PageList.Exclusive.{IsBatch}
use memory_manager.PageList.FirstTry.{remove_batch_from_list_head_lem}
use memory_manager.Disk.{bit_at}
use memory_manager.Disk.Slots.{IsValid}
use memory_manager.System.{System, ThreadInfo}
use memory_manager.FaultHandler.{Outside, resolve_soft_fault, move_batch_from_standby_to_cache}
use memory_manager.FaultHandler.Standby.{AreOwned}
use memory_manager.FaultHandler.Refill.{IsRefilled, move_batch_from_standby_to_cache_lem}
use memory_manager.FaultHandler.Listed.{
  IsSoft, IsRescued, resolve_soft_fault-modified, resolve_soft_fault-standby,
}
use memory_manager.Tests.{example_system, example_thread, example_heap, example_list, linked}
use memory_manager.Tests.Slots.{example_pf-IsValid}

abbrev pub quiet : Outside
quiet = record {
  about_to_run_low = λ list. false;
  shared = λ n. true;
  others = λ n h. h;
  meanwhile = λ s. s;
}

-- Entry 6 is that of page 3, which is modified, and entry 7 that of page 7, on standby in slot 5.
abbrev listed_system : System
listed_system = record example_system {
  heap = λ q.
      if q == 3
      then record (linked 5 1000) { status = 3 }
      else if q == 7
      then record (linked 9 1001) { status = 5; disk_index = 5 }
      else example_heap q;
  ptes = λ i. if i == 6 then record zero_pte { index = 3 } else record zero_pte { index = 7 };
}

modified-IsList : IsList listed_system.heap 1000 (3 ∷ 5 ∷ [])
modified-IsList = record { ring = (refl, refl, (refl, refl, (refl, refl))); apart = refl }

standby-IsList : IsList listed_system.heap 1001 (7 ∷ 9 ∷ [])
standby-IsList = record { ring = (refl, refl, (refl, refl, (refl, refl))); apart = refl }

six-IsSoft : IsSoft quiet listed_system 6 3
unfolding is_pte_transition
six-IsSoft = record {
  transition = refl;
  frame_number = refl;
  frame_bits = omega arith;
  above = omega arith;
  below = omega arith;
  free_entry = refl;
  free_page = refl;
  alone = refl;
  quiet = λ n g. refl;
}

seven-IsSoft : IsSoft quiet listed_system 7 7
unfolding is_pte_transition
seven-IsSoft = record {
  transition = refl;
  frame_number = refl;
  frame_bits = omega arith;
  above = omega arith;
  below = omega arith;
  free_entry = refl;
  free_page = refl;
  alone = refl;
  quiet = λ n g. refl;
}

modified_page : has_status (listed_system.heap 3) modified ≡ true
unfolding has_status
modified_page = refl

standby_page : has_status (listed_system.heap 7) standby ≡ true
unfolding has_status
standby_page = refl

resolve_soft_fault-modified_example :
    (s' : System) × (resolve_soft_fault quiet 6 listed_system ≡ some (s', true))
    × IsRescued listed_system s' 6 3 1000 (5 ∷ [])
    × (s'.modified_list ≡ decrement_list_size listed_system.modified_list)
    × (s'.pf ≡ listed_system.pf)
resolve_soft_fault-modified_example =
    resolve_soft_fault-modified quiet listed_system 6 3 [] (5 ∷ []) six-IsSoft modified-IsList
      modified_page

resolve_soft_fault-standby_example :
    (s' : System) × (resolve_soft_fault quiet 7 listed_system ≡ some (s', true))
    × IsRescued listed_system s' 7 7 1001 (9 ∷ [])
    × (s'.standby_list ≡ decrement_list_size listed_system.standby_list)
    × IsValid s'.pf
    × ((slot : ℕ) → bit_at s'.pf slot ≡ (if slot == 5 then false else bit_at listed_system.pf slot))
    × (s'.events.standby_pages_ready ≡ true)
resolve_soft_fault-standby_example =
    resolve_soft_fault-standby quiet listed_system 7 7 [] (9 ∷ []) seven-IsSoft standby-IsList
      standby_page example_pf-IsValid (omega arith) refl refl

-- No attempt gets the list's lock.
abbrev never : ℕ → Bool
never n = false

abbrev waits : ℕ → Heap → Heap
waits n h = h

three-IsOn : IsOn 1000 3 5 1000 listed_system.heap
three-IsOn = record {
  front = [];
  back = 5 ∷ [];
  is = modified-IsList;
  next = refl;
  previous = refl;
}

remove_page_on_soft_fault_example :
    (k : ℕ) × (g : Heap) × (front back : List ℕ) × (k ≤ 30)
    × IsList (found waits 0 k listed_system.heap) 1000 (front ++ 3 ∷ back)
    × (remove_page_on_soft_fault never waits example_list 3 listed_system.heap
        ≡ some (g, decrement_list_size example_list))
    × IsList g 1000 (front ++ back)
    × SameBut (1000 ∷ 5 ∷ []) (found waits 0 k listed_system.heap) g
    × ((q : ℕ) → (g q).lock ≡ (found waits 0 k listed_system.heap q).lock)
remove_page_on_soft_fault_example =
    remove_page_on_soft_fault_lem never waits example_list 3 listed_system.heap three-IsOn
      (λ n g on. on)

abbrev always : ℕ → Bool
always n = true

remove_batch_from_list_head_example :
    (n : ℕ) × (b : Batch) × (remove_batch_from_list_head always waits example_list 4
        listed_system.heap
      ≡ some b)
    × (1 ≤ n)
    × (n ≤ 4)
    × IsBatch listed_system.heap example_list (3 ∷ 5 ∷ []) n b
remove_batch_from_list_head_example =
    remove_batch_from_list_head_lem always waits example_list 4 listed_system.heap (3 ∷ 5 ∷ []) refl
      (omega arith) modified-IsList refl (refl, (refl, tt))

-- Page 7 is owned by entry 7 and page 9 by entry 8.
abbrev pub standby_system : System
standby_system = record listed_system {
  heap = λ q.
      if q == 7
      then record (linked 9 1001) { status = 5; disk_index = 5; pte = some 7 }
      else if q == 9
      then record (linked 1001 7) { status = 5; disk_index = 6; pte = some 8 }
      else example_heap q;
}

abbrev pub example_owner : ℕ → ℕ
example_owner q = if q == 7 then 7 else 8

pub pages-AreOwned : AreOwned standby_system example_owner (7 ∷ 9 ∷ [])
pages-AreOwned = record {
  owned = λ q m. ground arith;
  in_range = λ q m. ground arith;
  apart = λ q r mq mr e. ground arith;
}

pub both-IsList : IsList standby_system.heap 1001 (7 ∷ 9 ∷ [])
both-IsList = record { ring = (refl, refl, (refl, refl, (refl, refl))); apart = refl }

abbrev empty_thread : ThreadInfo
empty_thread = record example_thread { free_page_count = 0 }

move_batch_from_standby_to_cache_example :
    (n : ℕ) × (s' : System) × (t' : ThreadInfo) × (move_batch_from_standby_to_cache quiet
        standby_system empty_thread
      ≡ some (s', t', true))
    × (1 ≤ n)
    × (n ≤ 16)
    × IsRefilled standby_system s' t' example_owner n (7 ∷ 9 ∷ [])
move_batch_from_standby_to_cache_example =
    move_batch_from_standby_to_cache_lem quiet standby_system empty_thread example_owner 7 (9 ∷ [])
      refl both-IsList refl (refl, (refl, tt)) refl (omega arith) pages-AreOwned
