-- ===== src/Tests/Lists.antt =====
-- Runs on the page lists.
use memory_manager.Base.{ℕ, List, ◌≡◌, refl, false, some, arith, [], ◌∷◌}
use memory_manager.PageList.Ring.{IsList}
use memory_manager.PageList.Batch.{Batch, remove_batch_from_list_head_exclusive}
use memory_manager.PageList.Exclusive.{IsBatch, remove_batch_from_list_head_exclusive_lem}
use memory_manager.PageList.{is_page_list_empty}
use memory_manager.PageList.Queue.{
  Call, insert, pop, unlink, popped, done, unlinked, all_on_heap, queue_refinement,
}
use memory_manager.Tests.{example_heap, example_list}

modified-IsList : IsList example_heap 1000 (3 ∷ 5 ∷ [])
modified-IsList = record { ring = (refl, refl, (refl, refl, (refl, refl))); apart = refl }

standby-IsList : IsList example_heap 1001 (7 ∷ 9 ∷ [])
standby-IsList = record { ring = (refl, refl, (refl, refl, (refl, refl))); apart = refl }

remove_batch_from_list_head_exclusive_example :
    (b : Batch) × (remove_batch_from_list_head_exclusive example_list 1 example_heap ≡ some b)
    × IsBatch example_heap example_list (3 ∷ 5 ∷ []) 1 b
remove_batch_from_list_head_exclusive_example =
    remove_batch_from_list_head_exclusive_lem example_heap example_list (3 ∷ 5 ∷ []) 1 (omega arith)
      modified-IsList (ground arith)

abbrev after_removal : List ℕ
after_removal = 5 ∷ []

abbrev some_calls : List Call
some_calls = pop ∷ insert 11 ∷ unlink 5 ∷ []

queue_refinement_example :
    IsList (all_on_heap 1000 some_calls example_heap).0 1000 (11 ∷ [])
    × ((all_on_heap 1000 some_calls example_heap).1 ≡ popped 3 ∷ done ∷ unlinked false ∷ [])
    × (is_page_list_empty (all_on_heap 1000 some_calls example_heap).0 example_list ≡ false)
queue_refinement_example =
    queue_refinement example_list some_calls example_heap (3 ∷ 5 ∷ []) modified-IsList refl
