-- ===== src/FreeLists.antt =====
-- The free page cache of a user thread and the sixteen free lists: the routines of
-- data_structures/page_list.c and threads/page_fault_handler.c that move free pages between them,
-- in the build with PRUNING and DEBUG off.
use memory_manager.Base.{
  ℕ, zero, suc, ◌+◌, ◌-◌, ◌%◌, ◌^◌, Bool, true, false, not, Option, some, none, ◌==◌, ltb,
  if◌then◌else◌, ◌>>=◌, ◌>>◌, assert, update,
}
use memory_manager.Config.{free_page_cache_size}
use memory_manager.Pfn.{Heap, unlock_pfn}
use memory_manager.PageList.{insert_to_list_tail, is_page_list_empty, neg64}
use memory_manager.PageList.Batch.{remove_batch_from_list_head_exclusive}
use memory_manager.System.{System, FreeLists, ThreadInfo, change_available_count, lock_page}

-- `InterlockedBitTestAndSet64` and `…Reset64` on the locks' word.
unfoldable pub try_lock_free_list : FreeLists → ℕ → FreeLists × Bool
try_lock_free_list f index =
    if f.free_list_locks index
    then (f, false)
    else (record f { free_list_locks = update f.free_list_locks index true }, true)

unfoldable pub unlock_free_list : FreeLists → ℕ → Option FreeLists
unlock_free_list f index = do
  assert (f.free_list_locks index)
  some (record f { free_list_locks = update f.free_list_locks index false })

unfoldable pub change_free_lists_total_count : FreeLists → ℕ → FreeLists
change_free_lists_total_count f amt = record f { page_count = (f.page_count + amt) % 2 ^ 64 }

-- The page is put on the first free list, from `index` on, whose lock can be taken; the fuel bounds
-- the rounds of the `while (TRUE)`.
unfoldable pub add_page_to_free_list : (fuel index page : ℕ) → System → Option System
add_page_to_free_list zero index page s = none
add_page_to_free_list (suc fuel) index page s =
    let (f, got) = try_lock_free_list s.free_lists index in
    let next = add_page_to_free_list fuel ((index + 1) % s.free_lists.number_of_lists) page s in
    if not got then next else (do
      f' ← unlock_free_list f index
      some (record s {
        heap = insert_to_list_tail s.heap (s.free_lists.list_array index).head page;
        free_lists = change_free_lists_total_count f' 1;
      }))

unfoldable pub add_page_to_cache_or_free_list :
    (fuel page first_index : ℕ) → System → ThreadInfo → Option (System × ThreadInfo)
add_page_to_cache_or_free_list fuel page first_index s t =
    if ltb t.free_page_count free_page_cache_size
    then some (
      s,
      record t {
        free_page_cache = update t.free_page_cache t.free_page_count page;
        free_page_count = t.free_page_count + 1;
      },
    )
    else (add_page_to_free_list fuel (first_index % s.free_lists.number_of_lists) page s >>= λ s'.
        some (s', t))

-- The loop that unlocks the batch and puts it in the cache, from entry `i` on.
unfoldable pub fill_cache : (left i pfn : ℕ) → Heap → (ℕ → ℕ) → Option (Heap × (ℕ → ℕ))
fill_cache zero i pfn h cache = some (h, cache)
fill_cache (suc left) i pfn h cache =
    unlock_pfn h pfn >>= λ h'. fill_cache left (i + 1) (h' pfn).flink h' (update cache i pfn)

-- TRUE with the cache filled, or FALSE.
unfoldable pub try_refill_cache_from_free_list :
    ℕ → System → ThreadInfo → Option (System × ThreadInfo × Bool)
try_refill_cache_from_free_list index s t =
    assert (ltb index s.free_lists.number_of_lists)
    >> (let list = s.free_lists.list_array index in
        if is_page_list_empty s.heap list
        then some (s, t, false)
        else let (f, got) = try_lock_free_list s.free_lists index in
          if not got
          then some (s, t, false)
          else if is_page_list_empty s.heap list
          then (unlock_free_list f index >>= λ f'. some (record s { free_lists = f' }, t, false))
          else (do
            b ← remove_batch_from_list_head_exclusive list free_page_cache_size s.heap
            f' ← unlock_free_list (record f { list_array = update f.list_array index b.list }) index
            elim b.first [
              | none ↦ some (record s { heap = b.heap; free_lists = f' }, t, false)
              | some first ↦ fill_cache b.count 0 first b.heap t.free_page_cache >>= λ r. some (
                change_available_count
                    (record s {
                      heap = r.0;
                      free_lists = change_free_lists_total_count f' (neg64 b.count);
                    })
                    (neg64 b.count),
                record t { free_page_cache = r.1; free_page_count = b.count },
                true,
              )
            ]))

unfoldable pub get_free_pages_loop :
    (left index : ℕ) → System → ThreadInfo → Option (System × ThreadInfo × Bool)
get_free_pages_loop zero index s t = some (s, t, false)
get_free_pages_loop (suc left) index s t = try_refill_cache_from_free_list index s t >>= λ r.
    elim r.2 [
      | true ↦ some r
      | false ↦ get_free_pages_loop left ((index + 1) % s.free_lists.number_of_lists) r.0 r.1
    ]

unfoldable pub try_get_free_pages : System → ThreadInfo → Option (System × ThreadInfo × Bool)
try_get_free_pages s t =
    if s.free_lists.page_count == 0
    then some (s, t, false)
    else get_free_pages_loop s.free_lists.number_of_lists
        (t.thread_id % s.free_lists.number_of_lists) s t

-- A locked page out of the cache, which is filled first if it is empty; or none for FALSE.
unfoldable pub acquire_free_page : System → ThreadInfo → Option (System × ThreadInfo × Option ℕ)
acquire_free_page s t =
    (if t.free_page_count == 0 then try_get_free_pages s t else some (s, t, true)) >>= λ r.
    if not r.2
    then some (r.0, r.1, none)
    else let count = r.1.free_page_count - 1 in
      let page = r.1.free_page_cache count in
      lock_page r.0 page >>= λ s'. some (s', record (r.1) { free_page_count = count }, some page)
