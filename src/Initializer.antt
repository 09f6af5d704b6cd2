-- ===== src/Initializer.antt =====
-- threads/initializer.c: the state that every run starts with. What Windows and the allocator give
-- (the frame numbers, the address of the region, the addresses of the list heads, the memory and
-- the frames as they were) is in `Boot`, and so is VA_SPAN, which is computed in floating point.
-- Failed allocations end the program and are left out.
pub mod Counts
pub mod Bounds
pub mod Deal
pub mod Dealt
pub mod Fill
pub mod Caches
pub mod Threads
pub mod First
pub mod Start
use memory_manager.Base.{
  ℕ, zero, suc, ◌+◌, ◌-◌, ◌*◌, ◌/◌, ◌%◌, ◌^◌, min, max, List, [], ◌∷◌, Option, some, none, ◌>>=◌,
  update, length, false,
}
use memory_manager.Config.{Vm, page_size, bytes_per_va, free_page_cache_size}
use memory_manager.Pte.{initialize_page_table}
use memory_manager.Pfn.{Pfn, Heap, create_zeroed_pfn, unlock_pfn}
use memory_manager.PageList.{
  PageList, initialize_list_head, insert_to_list_tail, increment_list_size, neg64,
}
use memory_manager.PageList.Batch.{remove_batch_from_list_head_exclusive}
use memory_manager.Disk.{initialize_page_file}
use memory_manager.System.{System, FreeLists, ThreadInfo, Page}
use memory_manager.FreeLists.{change_free_lists_total_count}

abbrev pub free_list_count : ℕ
free_list_count = 16

pub record Boot : Type 0 where
  pub allocated_frame_numbers : List ℕ
  pub va_span : ℕ
  pub application_va_base : ℕ
  pub pages_in_page_file : ℕ
  pub zero_head : ℕ
  pub modified_head : ℕ
  pub standby_head : ℕ
  pub free_heads : ℕ → ℕ
  pub memory : Heap
  pub frames : ℕ → Page
  pub page_file : ℕ → Page

-- The loop of `set_max_frame_number`: the largest and the smallest number.
unfoldable pub frame_bounds : List ℕ → (max_frame_number min_frame_number : ℕ) → ℕ × ℕ
frame_bounds [] hi lo = (hi, lo)
frame_bounds (frame ∷ frames) hi lo = frame_bounds frames (max hi frame) (min lo frame)

unfoldable pub set_max_frame_number : List ℕ → Vm → Vm
set_max_frame_number frames vm =
    let (hi, lo) = frame_bounds frames 0 (2 ^ 64 - 1) in
    record vm { max_frame_number = hi; min_frame_number = lo }

unfoldable pub initialize_user_va_space : (va_span base : ℕ) → Vm → Vm
initialize_user_va_space va_span base vm = record vm {
  va_size_in_bytes = va_span * page_size;
  va_size_in_pointers = va_span * page_size / bytes_per_va;
  application_va_base = base;
}

abbrev pub zero_pfn : Pfn
zero_pfn = record {
  flink = 0;
  blink = 0;
  pte = none;
  lock = 0;
  disk_index = 0;
  status = 0;
  reserved = 0;
}

-- `initialize_page_list`, with the head at a fresh address: memory behind it. The size is 0.
unfoldable pub initialize_page_list : (head : ℕ) → Heap → Heap
initialize_page_list head h = initialize_list_head (update h head zero_pfn) head

-- The loop of `initialize_page_lists`, with the free lists that are left.
unfoldable pub initialize_free_lists : (left i : ℕ) → (heads : ℕ → ℕ) → Heap → Heap
initialize_free_lists zero i heads h = h
initialize_free_lists (suc left) i heads h =
    initialize_free_lists left (i + 1) heads (initialize_page_list (heads i) h)

unfoldable pub initialize_page_lists : Boot → Heap → Heap × FreeLists
initialize_page_lists b h =
    let h₁ = initialize_page_list b.zero_head h in
    let h₂ = initialize_page_list b.modified_head h₁ in
    let h₃ = initialize_page_list b.standby_head h₂ in
    (
      initialize_free_lists free_list_count 0 b.free_heads h₃,
      record {
        number_of_lists = free_list_count;
        page_count = 0;
        list_array = λ i. record { head = b.free_heads i; list_size = 0 };
        free_list_locks = λ i. false;
      },
    )

-- The loop of `initialize_PFN_data`.
unfoldable pub initialize_pfn_data : List ℕ → (list_index : ℕ) → Heap → FreeLists → Heap × FreeLists
initialize_pfn_data [] list_index h f = (h, f)
initialize_pfn_data (frame ∷ frames) list_index h f =
    let list = f.list_array list_index in
    let h₁ = update h frame (create_zeroed_pfn (h frame)) in
    let h₂ = insert_to_list_tail h₁ list.head frame in
    let f₁ = record f { list_array = update f.list_array list_index (increment_list_size list) } in
    let f₂ = change_free_lists_total_count f₁ 1 in
    initialize_pfn_data frames ((list_index + 1) % f.number_of_lists) h₂ f₂

-- The loop that fills a thread's first cache, from entry `j` on.
unfoldable pub fill_first_cache : (left j pfn : ℕ) → Heap → (ℕ → ℕ) → Option (Heap × (ℕ → ℕ))
fill_first_cache zero j pfn h cache = some (h, cache)
fill_first_cache (suc left) j pfn h cache =
    let next = (h pfn).flink in
    unlock_pfn h pfn >>= λ h'. fill_first_cache left (j + 1) next h' (update cache j pfn)

-- One round of the loop of `initialize_threads`: the record of thread `i`, whose other fields start
-- zeroed. Without a page in the batch `first_page` stays unset, and is not read.
unfoldable pub initialize_thread : (i : ℕ) → System → Option (System × ThreadInfo)
initialize_thread i s =
    let index = i % s.free_lists.number_of_lists in
    remove_batch_from_list_head_exclusive (s.free_lists.list_array index) free_page_cache_size
      s.heap
    >>= λ b.
        fill_first_cache b.count 0 (elim b.first [ none ↦ 0 | some first ↦ first ]) b.heap (λ _. 0)
        >>= λ r. some (
          record s {
            heap = r.0;
            free_lists =
                change_free_lists_total_count
                  (record (s.free_lists) {
                    list_array = update s.free_lists.list_array index b.list;
                  })
                  (neg64 b.count);
          },
          record {
            thread_id = i;
            kernel_va_index = 0;
            free_page_cache = r.1;
            free_page_count = b.count;
          },
        )

-- The caches of the threads that are left, from thread `i` on.
unfoldable pub initialize_threads :
    (left i : ℕ) → System → (ℕ → ThreadInfo) → Option (System × (ℕ → ThreadInfo))
initialize_threads zero i s threads = some (s, threads)
initialize_threads (suc left) i s threads =
    initialize_thread i s >>= λ r. initialize_threads left (i + 1) r.0 (update threads i r.1)

unfoldable pub initialize_statistics : System → System
initialize_statistics s = record s {
  stats = record (s.stats) { n_hard = 0; n_soft = 0; n_available = s.free_lists.page_count };
}

abbrev pub blank_vm : Vm
blank_vm = record {
  va_size_in_bytes = 0;
  va_size_in_pointers = 0;
  application_va_base = 0;
  num_ptes = 0;
  max_frame_number = 0;
  min_frame_number = 0;
}

-- `initialize_system` up to the threads.
unfoldable pub initialize_shared : Boot → System
initialize_shared b =
    let vm₁ = set_max_frame_number b.allocated_frame_numbers blank_vm in
    let vm₂ = initialize_user_va_space b.va_span b.application_va_base vm₁ in
    let (vm, ptes) = initialize_page_table vm₂ in
    let (h₁, f₁) = initialize_page_lists b b.memory in
    let (h, f) = initialize_pfn_data b.allocated_frame_numbers 0 h₁ f₁ in
    record {
      vm = vm;
      heap = h;
      ptes = ptes;
      modified_list = record { head = b.modified_head; list_size = 0 };
      standby_list = record { head = b.standby_head; list_size = 0 };
      free_lists = f;
      pf = initialize_page_file b.pages_in_page_file;
      page_file = b.page_file;
      frames = b.frames;
      stats = record { n_available = 0; n_hard = 0; n_soft = 0; hard_faults_missed = 0 };
      events = record {
        initiate_trimming = false;
        initiate_writing = false;
        standby_pages_ready = false;
      };
    }

unfoldable pub initialize_system :
    Boot → (num_user_threads : ℕ) → (ℕ → ThreadInfo) → Option (System × (ℕ → ThreadInfo))
initialize_system b n threads = initialize_threads n 0 (initialize_shared b) threads >>= λ r.
    some (initialize_statistics r.0, r.1)
