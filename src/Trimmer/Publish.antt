-- ===== src/Trimmer/Publish.antt =====
-- The trimmer's batch joins the modified list.
use memory_manager.Base.{
  ℕ, ◌%◌, ◌^◌, ◌≡◌, ◌≤◌, ◌<◌, ◌≢◌, ap, ◌∙◌, true, false, Option, none, some, arith, if◌then◌else◌,
  ◌>>=◌, List, [], ◌∷◌, ◌++◌, has, distinct, length, has-append, has-append_apart, has-ne,
  distinct-append,
}
use memory_manager.Pfn.{Pfn, Heap}
use memory_manager.PageList.{PageList, initialize_list_head, change_list_size}
use memory_manager.PageList.Ring.{IsList}
use memory_manager.PageList.Attempts.{retry, done}
use memory_manager.PageList.Locked.{insert_list_to_tail_list}
use memory_manager.PageList.Tries.{found}
use memory_manager.PageList.Publish.{IsCollected}
use memory_manager.System.{System}
use memory_manager.Trimmer.{collect_modified, publish_modified, unlock_batch}
use memory_manager.Trimmer.Gather.{marked, IsGathered, collect_modified_lem}
use memory_manager.Trimmer.Join.{IsServed, IsPublished, empty_head, IsList-off, join-IsPublished}

known_payload :
    (batch : List ℕ) (h₀ h₁ h : Heap) (q : ℕ)
    → h₁ q ≡ h₀ q
    → h q ≡ record (marked batch h₁ q) { flink = (h q).flink; blink = (h q).blink }
    → h q ≡ record (marked batch h₀ q) { flink = (h q).flink; blink = (h q).blink }
known_payload batch h₀ h₁ h q same e =
    e
    ∙ ap
        (λ (r : Pfn). record (if has q batch then record r { status = 3 } else r) {
          flink = (h q).flink;
          blink = (h q).blink;
        })
        same

IsGathered-IsCollected :
    (list : PageList) (temp : ℕ) (pages batch : List ℕ) (h₀ h : Heap)
    → IsList h₀ list.head pages
    → distinct (temp ∷ list.head ∷ pages ++ batch) ≡ true
    → IsGathered (initialize_list_head h₀ temp) temp [] batch h
    → IsCollected list temp batch (marked batch h₀) h
IsGathered-IsCollected list temp pages batch h₀ h is d g =
    let same = (empty_head h₀ temp).1 in
    let apart = has-append temp pages batch in
    let both : distinct (list.head ∷ pages ++ batch) ≡ true = ground (arith, d) in
    let out : has temp (list.head ∷ pages) ≡ false = ground (arith, d, apart) in
    let off : has temp batch ≡ false = ground (arith, d, apart) in
    record {
      pages = pages;
      is =
          IsList-off h₀ h list.head pages
            (λ q m.
              let ne : q ≢ temp = λ e. has-ne q temp (list.head ∷ pages) m out e in
              let off = has-append_apart (list.head ∷ pages) batch q both m in
              g.others q (ground (arith, ne, off)) ∙ same q ne)
            is;
      from = g.collected;
      apart = d;
      held = λ q m.
          let ne : q ≢ temp = has-ne q temp batch m off in
          known_payload batch h₀ (initialize_list_head h₀ temp) h q (same q ne) (g.payload q);
    }

abbrev pub grown : System → (n : ℕ) → System
grown s n = record s { modified_list = change_list_size s.modified_list (n % 2 ^ 64) }

abbrev join_and_unlock : (others : ℕ → Heap → Heap) → (fuel temp n : ℕ) → System → Option System
join_and_unlock others fuel temp n s₁ =
    insert_list_to_tail_list others fuel s₁.modified_list temp s₁.heap >>= λ o. elim o [
      | retry h ↦ none
      | done h ↦ unlock_batch n (h temp).flink (record (grown s₁ n) { heap = h })
    ]

publish-step :
    (others : ℕ → Heap → Heap) (fuel temp : ℕ) (batch : List ℕ) (s : System) (h₀ g : Heap)
    (r : Option System)
    → collect_modified temp batch (record s { heap = initialize_list_head s.heap temp })
      ≡ record s { heap = h₀ }
    → insert_list_to_tail_list others fuel s.modified_list temp h₀ ≡ some (done g)
    → unlock_batch (length batch) (g temp).flink (record (grown s (length batch)) { heap = g }) ≡ r
    → publish_modified others fuel temp batch s ≡ r
unfolding publish_modified
publish-step others fuel temp batch s h₀ g r e f u =
    ap (λ (s₁ : System). join_and_unlock others fuel temp (length batch) s₁) e ∙ rw f u

-- A batch of locked pages that share no record with the modified list or the temporary one: while
-- others at the waits spare these lists and the batch, and leave the modified list's head and the
-- page before it unlocked by attempt `k`, the rest of the trimmer's run returns. The batch is then
-- at the end of the modified list, in order, behind the pages that the attempt found there; its
-- pages are modified and unlocked with their owners kept, the size has grown by the batch's, and
-- no record off that list has
-- changed since that attempt, and no part of the state but memory and the list's size.
pub publish_modified_lem :
    (others : ℕ → Heap → Heap) (k fuel temp page : ℕ) (pages before : List ℕ) (s : System)
    → IsList s.heap s.modified_list.head before
    → distinct (temp ∷ s.modified_list.head ∷ before ++ page ∷ pages) ≡ true
    → ((q : ℕ) → has q (page ∷ pages) ≡ true → (s.heap q).lock ≡ 1)
    → IsServed others k s.modified_list temp (page ∷ pages) (marked (page ∷ pages) s.heap)
    → k < fuel
    → (h₀ h : Heap) × (j : ℕ) × (found_before : List ℕ) × (j ≤ k)
      × IsGathered (initialize_list_head s.heap temp) temp [] (page ∷ pages) h₀
      × IsList (found others 0 j h₀) s.modified_list.head found_before
      × (publish_modified others fuel temp (page ∷ pages) s
          ≡ some (record (grown s (length (page ∷ pages))) { heap = h }))
      × ((q : ℕ)
          → has q (s.modified_list.head ∷ found_before ++ page ∷ pages) ≡ false
          → h q ≡ found others 0 j h₀ q)
      × IsPublished s.modified_list found_before (page ∷ pages) (marked (page ∷ pages) s.heap) h
publish_modified_lem others k fuel temp page pages before s is d held served lt =
    let batch : List ℕ = page ∷ pages in
    let head = empty_head s.heap temp in
    let (h₀, run, g) =
      collect_modified_lem temp [] batch (record s { heap = initialize_list_head s.heap temp })
        head.0 (ground (arith, d, has-append temp before batch, distinct-append before batch)) in
    let c = IsGathered-IsCollected s.modified_list temp before batch s.heap h₀ is d g in
    let (g₁, h, found_before, j, le, at, join, freed, far, done_now) =
      join-IsPublished others k fuel s.modified_list temp page pages (marked batch s.heap)
        served.spares lt (λ q m. ground (arith, held q m)) h₀ (grown s (length batch)) c
        (served.opens h₀ c) in
    (
      h₀,
      h,
      j,
      found_before,
      le,
      g,
      at,
      publish-step others fuel temp batch s h₀ g₁
          (some (record (grown s (length batch)) { heap = h })) run join freed,
      far,
      done_now,
    )
