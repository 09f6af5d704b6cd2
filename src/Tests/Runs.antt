-- ===== src/Tests/Runs.antt =====
-- Whole runs of the trimmer and of the writer, and joins to a list under contention.
use memory_manager.Base.{
  ℕ, List, ◌≤◌, ◌<◌, ◌≡◌, ◌≢◌, refl, true, false, some, arith, [], ◌∷◌, ◌++◌, ◌==◌, ◌||◌,
  if◌then◌else◌, length, has, take, drop, apart_front, has-ne, distinct, sym,
}
use memory_manager.Config.{max_write_batch_size}
use memory_manager.Pte.{is_pte_valid, zero_pte}
use memory_manager.Pfn.{Heap}
use memory_manager.PageList.{PageList, increment_list_size}
use memory_manager.PageList.Ring.{IsList, Seg-last}
use memory_manager.PageList.Walk.{IsList-links, Keeps}
use memory_manager.PageList.Attempts.{done}
use memory_manager.PageList.Tries.{found}
use memory_manager.PageList.Joins.{IsApart, insert_page_to_tail_lem}
use memory_manager.PageList.Locked.{insert_page_to_tail, insert_list_to_tail_list}
use memory_manager.PageList.Publish.{IsCollected, IsJoined, insert_list_to_tail_list-IsJoined}
use memory_manager.System.{System}
use memory_manager.Trimmer.{trim_pages}
use memory_manager.Trimmer.Visit.{IsRegion}
use memory_manager.Trimmer.Join.{IsServed}
use memory_manager.Trimmer.Run.{IsRun, trim_pages_lem}
use memory_manager.Writer.{Outside, write_pages}
use memory_manager.Writer.Publish.{IsQuiet}
use memory_manager.Writer.Staged.{IsWritable}
use memory_manager.Writer.Run.{IsWriteRun, write_pages_lem}
use memory_manager.Tests.{example_heap, example_list, example_system, linked}
use memory_manager.Tests.Slots.{example_pf-IsValid}

-- Other threads that give back the locks of the list's head and of its last page.
abbrev releasing : PageList → (n : ℕ) → Heap → Heap
releasing list n g q =
    if (q == list.head) || (q == (g list.head).blink) then record (g q) { lock = 0 } else g q

releasing-links :
    (list : PageList) (n : ℕ) (g : Heap) (q : ℕ)
    → ((releasing list n g q).flink ≡ (g q).flink) × ((releasing list n g q).blink ≡ (g q).blink)
releasing-links list n g q = ground arith

releasing-off :
    (list : PageList) (n : ℕ) (g : Heap) (q : ℕ)
    → q ≢ list.head
    → q ≢ (g list.head).blink
    → releasing list n g q ≡ g q
releasing-off list n g q ne ne' = ground (arith, ne, ne')

releasing-IsServed :
    (list : PageList) (temp : ℕ) (batch : List ℕ) (known : Heap)
    → IsServed (releasing list) 1 list temp batch known
releasing-IsServed list temp batch known = record {
  spares = λ n g c.
      let tail = Seg-last g list.head c.pages list.head c.is.ring in
      record {
        pages = c.pages;
        is = IsList-links g (releasing list n g) list.head c.pages (releasing-links list n g) c.is;
        from = IsList-links g (releasing list n g) temp batch (releasing-links list n g) c.from;
        apart = c.apart;
        held = λ q m.
            let all : distinct (list.head ∷ c.pages ++ batch) ≡ true = ground (arith, c.apart) in
            let off = apart_front (list.head ∷ c.pages) batch q all m in
            let ne : (g list.head).blink ≢ q =
              has-ne (g list.head).blink q (list.head ∷ c.pages) tail off in
            rw (releasing-off list n g q (ground (arith, off)) (λ e. ne (sym e))) (c.held q m);
      };
  opens = λ g c. ground arith;
}

-- Entry 1 is valid, accessed and mapped to frame 30, entry 3 valid and mapped to frame 31.
abbrev mapped_system : System
mapped_system = record example_system {
  ptes = λ i.
      if i == 1
      then record zero_pte { valid = 1; accessed = 1; index = 30 }
      else if i == 3
      then record zero_pte { valid = 1; index = 31 }
      else zero_pte;
  heap = λ q.
      if q == 30
      then record (linked 0 0) { pte = some 1; status = 1 }
      else if q == 31
      then record (linked 0 0) { pte = some 3; status = 1 }
      else example_heap q;
}

mapped-IsRegion : IsRegion (1002 ∷ 1000 ∷ 3 ∷ 5 ∷ []) mapped_system
unfolding is_pte_valid
mapped-IsRegion i small valid = record {
  state = ground (arith, valid);
  low = ground (arith, valid);
  high = ground (arith, valid);
  owner = ground (arith, valid);
  unlocked = ground (arith, valid);
  apart = ground (arith, valid);
}

trim_pages_example :
    (s' : System) × (pte' : ℕ) × (before batch : List ℕ) × (trim_pages
        (releasing example_list)
        2
        1002
        7
        mapped_system
      ≡ some (s', pte', length batch))
    × (pte' < 8)
    × IsRun (releasing example_list) 1002 7 (3 ∷ 5 ∷ []) mapped_system s' before batch
trim_pages_example =
    trim_pages_lem (releasing example_list) 1 2 1002 7 mapped_system (3 ∷ 5 ∷ [])
      (record { ring = (refl, refl, (refl, refl, (refl, refl))); apart = refl }) (omega arith)
      mapped-IsRegion (omega arith) refl
      (λ batch known. releasing-IsServed example_list 1002 batch known) (omega arith)

abbrev alone : Outside
alone = record { shared = λ n. true; others = λ n h. h; meanwhile = λ i s. s }

alone-IsQuiet : IsQuiet alone
alone-IsQuiet = record { shared = refl; idle = λ n g. refl; undisturbed = λ i g. refl }

example-IsWritable : IsWritable example_system 1002 (7 ∷ 9 ∷ []) (3 ∷ 5 ∷ [])
example-IsWritable = record {
  modified = record { ring = (refl, refl, (refl, refl, (refl, refl))); apart = refl };
  standby = record { ring = (refl, refl, (refl, refl, (refl, refl))); apart = refl };
  apart = refl;
  free = (refl, (refl, tt));
  free_head = refl;
  opened = refl;
  frames = (omega arith, (omega arith, tt));
  valid = example_pf-IsValid;
  resumes = omega arith;
  small = omega arith;
  small_count = omega arith;
}

abbrev modified_pages : List ℕ
modified_pages = 3 ∷ 5 ∷ []

write_pages_example :
    (n : ℕ) × (s' : System) × (write_pages alone 1 1002 example_system
      ≡ some (s', length (take n modified_pages)))
    × (n ≤ max_write_batch_size)
    × (n ≡ 2)
    × IsWriteRun example_system s' (7 ∷ 9 ∷ []) (take n modified_pages) (drop n modified_pages)
write_pages_example =
    write_pages_lem alone 1 1002 example_system (7 ∷ 9 ∷ []) (3 ∷ 5 ∷ []) alone-IsQuiet
      (omega arith) example-IsWritable

eleven-IsApart : IsApart example_list 11 example_heap
eleven-IsApart = record {
  pages = 3 ∷ 5 ∷ [];
  is = record { ring = (refl, refl, (refl, refl, (refl, refl))); apart = refl };
  off = refl;
}

insert_page_to_tail_example :
    (j : ℕ) × (g : Heap) × (pages : List ℕ) × (j ≤ 0)
    × (insert_page_to_tail (λ n h. h) 1 example_list 11 example_heap
        ≡ some (done (g, increment_list_size example_list)))
    × IsList (found (λ n h. h) 0 j example_heap) 1000 pages
    × IsList g 1000 (pages ++ 11 ∷ [])
    × ((q : ℕ) → (g q).lock ≡ (found (λ n h. h) 0 j example_heap q).lock)
insert_page_to_tail_example =
    insert_page_to_tail_lem (λ n h. h) 0 1 example_list 11 example_heap eleven-IsApart (λ n g a. a)
      (omega arith) refl

-- The ring of 7 and 9 as a temporary list.
seven-IsCollected : IsCollected example_list 1001 (7 ∷ 9 ∷ []) example_heap example_heap
seven-IsCollected = record {
  pages = 3 ∷ 5 ∷ [];
  is = record { ring = (refl, refl, (refl, refl, (refl, refl))); apart = refl };
  from = record { ring = (refl, refl, (refl, refl, (refl, refl))); apart = refl };
  apart = refl;
  held = λ q m. refl;
}

insert_list_to_tail_list-IsJoined_example :
    (j : ℕ) × (g : Heap) × (pages : List ℕ) × (j ≤ 0)
    × (insert_list_to_tail_list (λ n h. h) 1 example_list 1001 example_heap ≡ some (done g))
    × IsList (found (λ n h. h) 0 j example_heap) 1000 pages
    × Keeps (found (λ n h. h) 0 j example_heap) g
    × ((q : ℕ)
        → has q (1000 ∷ pages ++ 7 ∷ 9 ∷ []) ≡ false
        → g q ≡ found (λ n h. h) 0 j example_heap q)
    × IsJoined example_list 1001 pages (7 ∷ 9 ∷ []) example_heap g
insert_list_to_tail_list-IsJoined_example =
    insert_list_to_tail_list-IsJoined (λ n h. h) 0 1 example_list 1001 7 (9 ∷ []) example_heap
      example_heap seven-IsCollected (λ n g c. c) (omega arith) refl
