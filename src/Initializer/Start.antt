-- ===== src/Initializer/Start.antt =====
-- The state that the program starts with.
use memory_manager.Base.{
  ℕ, zero, suc, ◌+◌, ◌-◌, ◌*◌, ◌%◌, ◌^◌, ◌<◌, ◌≤◌, ◌≡◌, ◌≢◌, refl, ap, ◌∙◌, true, arith, update,
  ◌==◌, if◌then◌else◌, ltb, List, [], ◌∷◌, has, distinct, length, ℕ_discrete, ◌⊎◌, inl, inr,
}
use memory_manager.Pte.{initialize_page_table, is_pte_zeroed}
use memory_manager.Pte.Address.{IsSized}
use memory_manager.Pfn.{Heap}
use memory_manager.PageList.{initialize_list_head}
use memory_manager.PageList.Ring.{IsList}
use memory_manager.Disk.Slots.{IsValid}
use memory_manager.Disk.Start.{initialize_page_file-IsValid}
use memory_manager.System.{System, FreeLists}
use memory_manager.Initializer.{
  Boot, set_max_frame_number, initialize_user_va_space, initialize_page_list, initialize_free_lists,
  initialize_page_lists, initialize_pfn_data, initialize_shared,
}
use memory_manager.Initializer.Bounds.{frame_bounds_lem}
use memory_manager.Initializer.Deal.{share, AreApart, IsFresh}
use memory_manager.Initializer.Caches.{AreListed}
use memory_manager.Initializer.Dealt.{
  initialize_pfn_data-AreApart, initialize_pfn_data-counts, initialize_pfn_data-sizes,
}

-- The heads of all lists: the sixteen free lists, then modified, standby and zero.
abbrev pub head_of : Boot → ℕ → ℕ
head_of b i =
    if ltb i 16
    then b.free_heads i
    else if i == 16
    then b.modified_head
    else if i == 17
    then b.standby_head
    else b.zero_head

-- What Windows and the allocator promise: no two allocations share an address, no frame is given
-- twice; and the page file has a whole number of bitmap rows.
pub record IsSound (b : Boot) : Type 0 where
  pub heads_apart : (i j : ℕ) → i < 19 → j < 19 → i ≢ j → head_of b i ≢ head_of b j
  pub frames_apart : distinct b.allocated_frame_numbers ≡ true
  pub frames_off : (j p : ℕ) → j < 19 → has p b.allocated_frame_numbers ≡ true → p ≢ head_of b j
  pub rows : ℕ
  pub some_rows : 0 < rows
  pub few_rows : rows ≤ 2 ^ 34
  pub whole_rows : b.pages_in_page_file ≡ rows * 64

abbrev IsEmpty : Heap → ℕ → Type 0
IsEmpty h q = ((h q).flink ≡ q) × ((h q).blink ≡ q)

-- Once a list is empty it stays so while others are initialised.
initialize_page_list-IsEmpty :
    (head : ℕ) (h : Heap) (q : ℕ)
    → (q ≡ head) ⊎ IsEmpty h q
    → IsEmpty (initialize_page_list head h) q
unfolding initialize_page_list initialize_list_head update
initialize_page_list-IsEmpty head h q (inl e) = ground arith
initialize_page_list-IsEmpty head h q (inr e) = ground (arith, e)

initialize_free_lists-IsEmpty :
    (left i : ℕ) (heads : ℕ → ℕ) (h : Heap) (q : ℕ)
    → ((j : ℕ) × (i ≤ j) × (j < i + left) × (q ≡ heads j)) ⊎ IsEmpty h q
    → IsEmpty (initialize_free_lists left i heads h) q
unfolding initialize_free_lists
initialize_free_lists-IsEmpty zero i heads h q (inl (j, le, lt, e)) = absurd (omega (arith, le, lt))
initialize_free_lists-IsEmpty zero i heads h q (inr e) = e
initialize_free_lists-IsEmpty (suc left) i heads h q (inl (j, le, lt, e)) = elim (ℕ_discrete j i) [
  | yes now ↦
      initialize_free_lists-IsEmpty left (i + 1) heads (initialize_page_list (heads i) h) q
        (inr (initialize_page_list-IsEmpty (heads i) h q (inl (e ∙ ap heads now))))
  | no ne ↦
      initialize_free_lists-IsEmpty left (i + 1) heads (initialize_page_list (heads i) h) q
        (inl (j, omega (arith, le, ne), omega (arith, lt), e))
]
initialize_free_lists-IsEmpty (suc left) i heads h q (inr e) =
    initialize_free_lists-IsEmpty left (i + 1) heads (initialize_page_list (heads i) h) q
      (inr (initialize_page_list-IsEmpty (heads i) h q (inr e)))

abbrev before_free : Boot → Heap
before_free b =
    initialize_page_list b.standby_head
      (initialize_page_list b.modified_head (initialize_page_list b.zero_head b.memory))

before_free-IsEmpty :
    (b : Boot) (q : ℕ)
    → (q ≡ b.zero_head) ⊎ ((q ≡ b.modified_head) ⊎ (q ≡ b.standby_head))
    → IsEmpty (before_free b) q
before_free-IsEmpty b q at = grind (arith, initialize_page_list-IsEmpty, at)

head-cases :
    (b : Boot) (j : ℕ)
    → ((j < 16) × (head_of b j ≡ b.free_heads j))
      ⊎ ((head_of b j ≡ b.zero_head)
          ⊎ ((head_of b j ≡ b.modified_head) ⊎ (head_of b j ≡ b.standby_head)))
head-cases b j = ground arith

initialize_page_lists-IsEmpty :
    (b : Boot) (j : ℕ) → IsEmpty (initialize_page_lists b b.memory).0 (head_of b j)
unfolding initialize_page_lists
initialize_page_lists-IsEmpty b j = elim (head-cases b j) [
  | inl free_one ↦
      initialize_free_lists-IsEmpty 16 0 b.free_heads (before_free b) (head_of b j)
        (inl (j, omega arith, omega (arith, free_one.0), free_one.1))
  | inr other ↦
      initialize_free_lists-IsEmpty 16 0 b.free_heads (before_free b) (head_of b j)
        (inr (before_free-IsEmpty b (head_of b j) other))
]

share_beyond : (j k : ℕ) (ps : List ℕ) → k < 16 → 16 ≤ j → share j k ps ≡ []
share_beyond j k [] lt ge = refl
share_beyond j k (p ∷ ps) lt ge = ground (arith, share_beyond j ((k + 1) % 16) ps (omega arith) ge)

share_some :
    (ps : List ℕ) (k q : ℕ)
    → k < 16
    → has q ps ≡ true
    → (j : ℕ) × (j < 16) × (has q (share j k ps) ≡ true)
share_some [] k q lt m = cc
share_some (p ∷ ps) k q lt m = elim (ℕ_discrete q p) [
  | yes e ↦ (k, lt, ground arith)
  | no ne ↦
      let (j, jl, on) = share_some ps ((k + 1) % 16) q (omega arith) (ground arith) in
      (j, jl, ground (arith, on))
]

module _ (b : Boot) (sound : IsSound b) where
  abbrev emptied : Heap
  emptied = (initialize_page_lists b b.memory).0

  abbrev first_lists : FreeLists
  first_lists = (initialize_page_lists b b.memory).1

  emptied-AreApart : AreApart 19 (head_of b) emptied (λ _. [])
  emptied-AreApart = record {
    lists = λ j lt. record { ring = initialize_page_lists-IsEmpty b j; apart = refl };
    fresh = λ j q lt m. absurd (ground arith);
    apart = λ i j q li lj ne m. ground (arith, sound.heads_apart i j li lj ne);
  }

  abbrev started : System
  started = initialize_shared b

  started_heap :
      started.heap ≡ (initialize_pfn_data b.allocated_frame_numbers 0 emptied first_lists).0
  unfolding initialize_shared
  started_heap = refl

  started-AreApart : AreApart 19 (head_of b) started.heap (λ j. share j 0 b.allocated_frame_numbers)
  unfolding initialize_page_lists
  started-AreApart = rw started_heap (
      initialize_pfn_data-AreApart b.allocated_frame_numbers 0 19 (head_of b) emptied (λ _. [])
        first_lists (omega arith) (omega arith) refl (λ j lt. ground (arith, lt)) emptied-AreApart
        sound.frames_apart (λ j p lt m. ground (arith, sound.frames_off j p lt m)))

  pub started-AreListed :
      AreListed 19 (head_of b) started (λ j. share j 0 b.allocated_frame_numbers)
  unfolding initialize_shared initialize_page_lists
  started-AreListed = record {
    lists = started-AreApart;
    at = λ j lt.
        let size =
          initialize_pfn_data-sizes b.allocated_frame_numbers j 0 emptied first_lists refl
            (omega arith) in
        size.1 ∙ ground (arith, lt);
    number =
        (initialize_pfn_data-counts b.allocated_frame_numbers 0 emptied first_lists refl
          (omega arith)).1;
  }

  pub started-count : started.free_lists.page_count ≡ length b.allocated_frame_numbers % 2 ^ 64
  unfolding initialize_shared initialize_page_lists
  started-count =
      let counts =
        initialize_pfn_data-counts b.allocated_frame_numbers 0 emptied first_lists refl
          (omega arith) in
      counts.0 ∙ omega arith

  -- The state behind `initialize_system`, up to its threads: every free list has its share of the
  -- frames, dealt in turn, in order, unlocked, free and owned by no entry; its size and the count
  -- of free pages tell their numbers; the modified and the standby list are empty.
  -- It takes what Windows and the allocator promise, and fewer than 2 ^ 64 frames.
  pub initialize_shared-lists :
      length b.allocated_frame_numbers < 2 ^ 64
      → ((j : ℕ)
          → j < 16
          → IsList started.heap (b.free_heads j) (share j 0 b.allocated_frame_numbers)
            × ((started.free_lists.list_array j).head ≡ b.free_heads j)
            × ((started.free_lists.list_array j).list_size
                ≡ length (share j 0 b.allocated_frame_numbers) % 2 ^ 64)
            × ((q : ℕ)
                → has q (share j 0 b.allocated_frame_numbers) ≡ true
                → IsFresh (started.heap q)))
        × ((q : ℕ)
            → has q b.allocated_frame_numbers ≡ true
            → (j : ℕ) × (j < 16) × (has q (share j 0 b.allocated_frame_numbers) ≡ true))
        × (started.free_lists.page_count ≡ length b.allocated_frame_numbers)
        × IsList started.heap started.modified_list.head []
        × IsList started.heap started.standby_list.head []
  unfolding initialize_shared initialize_page_lists
  initialize_shared-lists few =
      let frames : List ℕ = b.allocated_frame_numbers in
      let at_start : (j : ℕ) → (first_lists.list_array j).list_size ≡ 0 = λ j. refl in
      let sizes : (j : ℕ)
          → ((started.free_lists.list_array j).list_size
              ≡ ((first_lists.list_array j).list_size + length (share j 0 frames)) % 2 ^ 64)
            × ((started.free_lists.list_array j).head ≡ (first_lists.list_array j).head) =
        λ j. initialize_pfn_data-sizes frames j 0 emptied first_lists refl (omega arith) in
      let counts = initialize_pfn_data-counts frames 0 emptied first_lists refl (omega arith) in
      let rest : (j : ℕ) → 16 ≤ j → share j 0 frames ≡ [] =
        λ j ge. share_beyond j 0 frames (omega arith) ge in
      (
        λ j lt. (
          (let head : head_of b j ≡ b.free_heads j = ground (arith, lt) in
              rw head at (started-AreApart.lists j (omega (arith, lt)))),
          (sizes j).1,
          (sizes j).0 ∙ omega arith,
          λ q m. started-AreApart.fresh j q (omega (arith, lt)) m,
        ),
        λ q m. share_some frames 0 q (omega arith) m,
        counts.0 ∙ omega (arith, few),
        rw (rest 16 (omega arith)) at (started-AreApart.lists 16 (omega arith)),
        rw (rest 17 (omega arith)) at (started-AreApart.lists 17 (omega arith)),
      )

  -- The numbers of the state behind `initialize_system`, up to its threads: an entry for each page of the region, all of them
  -- zeroed and unlocked; every frame number within the bounds; and a valid page file.
  pub initialize_shared-sizes :
      IsSized started.vm
      × (started.vm.num_ptes ≡ b.va_span)
      × ((pte : ℕ) → (is_pte_zeroed (started.ptes pte) ≡ true) × ((started.ptes pte).lock ≡ 0))
      × ((frame : ℕ)
          → has frame b.allocated_frame_numbers ≡ true
          → (started.vm.min_frame_number ≤ frame) × (frame ≤ started.vm.max_frame_number))
      × IsValid started.pf
  unfolding initialize_shared set_max_frame_number initialize_user_va_space initialize_page_table
      is_pte_zeroed
  initialize_shared-sizes = (
    record { whole = omega arith; pointers = omega arith },
    omega arith,
    λ pte. ground arith,
    λ frame m. ground (arith, frame_bounds_lem b.allocated_frame_numbers 0 (2 ^ 64 - 1) frame m),
    rw sound.whole_rows (initialize_page_file-IsValid sound.rows sound.some_rows sound.few_rows).0,
  )
