-- ===== src/Pruner.antt =====
-- threads/pruner.c: one run of the pruner, which takes a batch off the standby list and deals it to
-- the free lists that are marked low. `free_lists.low_list_bitmap`, which only the pruner and the
-- routines of the build with PRUNING on use, is a function of the index.
pub mod Sent
pub mod Marks
pub mod Fill
pub mod Share
pub mod Deal
pub mod Step
pub mod Dealt
pub mod Taken
pub mod Run
pub mod Lost
use memory_manager.Base.{
  ℕ, zero, suc, ◌+◌, ◌/◌, ◌%◌, ◌^◌, Bool, true, false, List, [], ◌∷◌, length, is_nil, Option, some,
  none, ◌==◌, if◌then◌else◌, ◌>>=◌, ◌>>◌, assert, update,
}
use memory_manager.Pte.{map_pte_to_disk}
use memory_manager.Pfn.{Heap}
use memory_manager.PageList.{initialize_list_head, insert_to_list_tail, change_list_size}
use memory_manager.PageList.Attempts.{retry, done}
use memory_manager.PageList.Locked.{insert_list_to_tail_list}
use memory_manager.PageList.Batch.{remove_batch_from_list_head}
use memory_manager.System.{System, FreeLists, write_pte, unlock_page}
use memory_manager.FreeLists.{change_free_lists_total_count}
use memory_manager.FaultHandler.{Outside, signal_writing_if_low}
use memory_manager.Initializer.{free_list_count}

abbrev pub max_prune_batch_size : ℕ
max_prune_batch_size = 256

-- `InterlockedBitTestAndReset64`, and the assertion that the bit was set.
unfoldable pub clear_free_list_bit : (ℕ → Bool) → (index : ℕ) → Option (ℕ → Bool)
clear_free_list_bit low index = assert (low index) >> some (update low index false)

-- The loop over the batch: the entry of each page goes to disk, and the page is unlocked.
unfoldable pub send_to_disk : (left pfn : ℕ) → System → Option System
send_to_disk zero pfn s = some s
send_to_disk (suc left) pfn s = elim (s.heap pfn).pte [
  | none ↦ none
  | some old_pte ↦
      map_pte_to_disk s.pf.max_disk_index (s.ptes old_pte) (s.heap pfn).disk_index >>= λ pte.
      let s₁ = write_pte s old_pte pte in
      let next = (s₁.heap pfn).flink in unlock_page s₁ pfn >>= λ s₂. send_to_disk left next s₂
]

-- The indices from `i` on that the snapshot marks, with their bits cleared.
unfoldable pub lists_to_fill :
    (left i : ℕ) → (snapshot low : ℕ → Bool) → Option ((ℕ → Bool) × List ℕ)
lists_to_fill zero i snapshot low = some (low, [])
lists_to_fill (suc left) i snapshot low = elim (snapshot i) [
  | false ↦ lists_to_fill left (i + 1) snapshot low
  | true ↦ clear_free_list_bit low i >>= λ low'.
      lists_to_fill left (i + 1) snapshot low' >>= λ r. some (r.0, i ∷ r.1)
]

-- `count` pages from `current` on go to the temporary list; the page behind them is the result.
unfoldable pub fill_temp : (count current temp : ℕ) → Heap → Heap × ℕ
fill_temp zero current temp h = (h, current)
fill_temp (suc count) current temp h =
    let next = (h current).flink in fill_temp count next temp (insert_to_list_tail h temp current)

-- The loop over the lists to fill, from the list numbered `i` of them on; the last one takes what
-- is left over. The head of each temporary list is memory that `zero_malloc` returns.
unfoldable pub fill_lists :
    (others : ℕ → Heap → Heap)
    → (fuel : ℕ) → (temps : ℕ → ℕ) → (small extra i first : ℕ) → List ℕ
    → System
    → Option System
fill_lists others fuel temps small extra i first [] s = some s
fill_lists others fuel temps small extra i first (index ∷ rest) s =
    let s₀ = record s { heap = initialize_list_head s.heap (temps i) } in
    let n = if is_nil rest then small + extra else small in
    let target = s.free_lists.list_array index in
    elim (n == 0) [
      | true ↦ fill_lists others fuel temps small extra (i + 1) first rest s₀
      | false ↦
          let (h, next) = fill_temp n first (temps i) s₀.heap in
          insert_list_to_tail_list others fuel target (temps i) h >>= λ o. elim o [
            | retry h' ↦ none
            | done h' ↦ fill_lists others fuel temps small extra (i + 1) next rest (record s₀ {
              heap = h';
              free_lists = record (s.free_lists) {
                list_array = update s.free_lists.list_array index (change_list_size target n);
              };
            })
          ]
    ]

-- `prune_pages`: the state, the bits and the size of the batch.
unfoldable pub prune_pages :
    Outside
    → (fuel : ℕ) → (temps : ℕ → ℕ) → (low : ℕ → Bool) → System
    → Option (System × (ℕ → Bool) × ℕ)
prune_pages o fuel temps low s =
    remove_batch_from_list_head o.shared o.others s.standby_list max_prune_batch_size s.heap
    >>= λ b.
        let batch_size = b.count % 2 ^ 16 in
        let s₁ =
          signal_writing_if_low o b.list (record s { heap = b.heap; standby_list = b.list }) in
        elim b.first [
          | none ↦ some (s₁, low, 0)
          | some first ↦ send_to_disk batch_size first s₁ >>= λ s₂.
              lists_to_fill free_list_count 0 low low >>= λ r. elim r.1 [
                | [] ↦ some (s₂, r.0, 0)
                | index ∷ rest ↦
                    let num_lists = length (index ∷ rest) in
                    fill_lists o.others fuel temps (batch_size / num_lists) (batch_size % num_lists)
                      0 first (index ∷ rest) s₂
                    >>= λ s₃. some (
                      record s₃ {
                        free_lists = change_free_lists_total_count s₃.free_lists batch_size;
                      },
                      r.0,
                      batch_size,
                    )
              ]
        ]
