-- ===== src/Trimmer/Run.antt =====
-- A whole run of the trimmer.
use mathlib.Core.Path.{subst}
use mathlib.Core.List.{append-nil}
use memory_manager.Base.{
  ℕ, ◌+◌, ◌%◌, ◌≡◌, ◌≤◌, ◌<◌, ◌^◌, refl, sym, ap, ◌∙◌, true, some, arith, List, All, All-with,
  All-has, distinct, [], ◌∷◌, ◌++◌, length, has, false, has-append, has-append_apart, has-ne,
}
use memory_manager.Config.{max_trim_batch_size, max_trim_attempts}
use memory_manager.Pte.{Pte}
use memory_manager.Pfn.{Pfn, Heap}
use memory_manager.PageList.{PageList, change_list_size, initialize_list_head}
use memory_manager.PageList.Ring.{IsList}
use memory_manager.PageList.Walk.{IsList-links}
use memory_manager.PageList.Tries.{found}
use memory_manager.System.{System, Events}
use memory_manager.Trimmer.{trim_scan, trim_pages, publish_modified, check_to_start_writer}
use memory_manager.Trimmer.Taken.{IsTaken}
use memory_manager.Trimmer.Visit.{IsRegion, IsTrimmedPage}
use memory_manager.Trimmer.Scan.{IsBatch, HasOnlyLocked, trim_scan_lem}
use memory_manager.Trimmer.Gather.{marked, IsGathered}
use memory_manager.Trimmer.Join.{IsServed, IsPublished, empty_head, IsList-off}
use memory_manager.Trimmer.Publish.{grown, publish_modified_lem}

-- The page is modified and unlocked, and its owner's entry is in transition, with its frame.
pub record IsModified (s : System) (q : ℕ) : Type 0 where
  pub state : (s.heap q).status ≡ 3
  pub unlocked : (s.heap q).lock ≡ 0
  pub owner : ℕ
  pub owned : (s.heap q).pte ≡ some owner
  pub invalid : (s.ptes owner).valid ≡ 0
  pub transition : (s.ptes owner).status ≡ 0
  pub frame : (s.ptes owner).index ≡ q

-- What a run leaves, where `others` act at the waits, `temp` is the temporary list's head, the walk
-- starts behind entry `pte` and the modified list had the pages `mods`: the batch is what the walk
-- over the next entries takes, and is modified behind the pages `before`, which the attempt that
-- published it found on the list; what is on neither list nor batch is as that attempt found it.
pub record IsRun (others : ℕ → Heap → Heap) (temp pte : ℕ) (mods : List ℕ) (s s' : System)
    (before batch : List ℕ) : Type 0 where
  pub walked : Heap
  pub taken :
      IsTaken s.vm.num_ptes max_trim_attempts pte s
        (record s { heap = walked; ptes = s'.ptes })
        []
        batch
  pub gathered : Heap
  pub gathers : (q : ℕ) → has q (temp ∷ batch) ≡ false → gathered q ≡ walked q
  pub start : IsList gathered s.modified_list.head mods
  pub attempt : ℕ
  pub finds : IsList (found others 0 attempt gathered) s.modified_list.head before
  pub elsewhere :
      (q : ℕ)
      → has q (s.modified_list.head ∷ before ++ batch) ≡ false
      → s'.heap q ≡ found others 0 attempt gathered q
  pub list : IsList s'.heap s.modified_list.head (before ++ batch)
  pub pages : All (IsModified s') batch
  pub few : length batch ≤ max_trim_batch_size
  pub size : s'.modified_list.list_size ≡ (s.modified_list.list_size + length batch) % 2 ^ 64
  pub rest : s' ≡ record s {
    heap = s'.heap;
    ptes = s'.ptes;
    modified_list = record (s.modified_list) { list_size = s'.modified_list.list_size };
    events = s'.events;
  }

check-events :
    (s : System) → check_to_start_writer s ≡ record s { events = (check_to_start_writer s).events }
unfolding check_to_start_writer
check-events s = ground arith

trim-nothing :
    (others : ℕ → Heap → Heap) (fuel temp pte : ℕ) (s s₁ : System) (pte' : ℕ)
    → trim_scan max_trim_attempts pte [] s ≡ some (s₁, pte', [])
    → trim_pages others fuel temp pte s ≡ some (check_to_start_writer s₁, pte, 0)
unfolding trim_pages
trim-nothing others fuel temp pte s s₁ pte' e = rw e refl

trim-batch :
    (others : ℕ → Heap → Heap) (fuel temp pte : ℕ) (s s₁ s₂ : System) (pte' page : ℕ)
    (pages : List ℕ)
    → trim_scan max_trim_attempts pte [] s ≡ some (s₁, pte', page ∷ pages)
    → publish_modified others fuel temp (page ∷ pages) s₁ ≡ some s₂
    → trim_pages others fuel temp pte s
      ≡ some (check_to_start_writer s₂, pte', length (page ∷ pages))
unfolding trim_pages
trim-batch others fuel temp pte s s₁ s₂ pte' page pages e f = rw (e, f) refl

published-IsModified :
    (s s' : System) (list : PageList) (before batch : List ℕ) (q : ℕ)
    → s'.ptes ≡ s.ptes
    → has q batch ≡ true
    → IsPublished list before batch (marked batch s.heap) s'.heap
    → IsTrimmedPage s q
    → IsModified s' q
published-IsModified s s' list before batch q same m p t =
    let (free, owner, slot, state) = p.pages q m in
    record {
      state = state ∙ ground (arith, m);
      unlocked = free;
      owner = t.owner;
      owned = owner ∙ ground (arith, t.owned);
      invalid = rw same t.invalid;
      transition = rw same t.transition;
      frame = rw same t.frame;
    }

module _ (others : ℕ → Heap → Heap) (k fuel temp pte : ℕ) (s : System) (mods : List ℕ)
    (is : IsList s.heap s.modified_list.head mods)
    (small : s.modified_list.list_size < 2 ^ 64) where
  abbrev scanned : Heap → (ℕ → Pte) → System
  scanned h t = record s { heap = h; ptes = t }

  by_events :
      (u : System) (before batch : List ℕ)
      → ((ev : Events) → IsRun others temp pte mods s (record u { events = ev }) before batch)
      → IsRun others temp pte mods s (check_to_start_writer u) before batch
  by_events u before batch f =
      subst (λ v. IsRun others temp pte mods s v before batch) (sym (check-events u))
        (f (check_to_start_writer u).events)

  same_links :
      (h : Heap) (t : ℕ → Pte) → HasOnlyLocked s (scanned h t) → IsList h s.modified_list.head mods
  same_links h t only =
      IsList-links s.heap h s.modified_list.head mods
        (λ q. (ap (λ (r : Pfn). r.flink) (only.heap q), ap (λ (r : Pfn). r.blink) (only.heap q))) is

  abbrev IsWalked : Heap → (ℕ → Pte) → List ℕ → Type 0
  IsWalked h t batch = IsTaken s.vm.num_ptes max_trim_attempts pte s (scanned h t) [] batch

  empty-IsRun :
      (h : Heap) (t : ℕ → Pte)
      → HasOnlyLocked s (scanned h t)
      → IsWalked h t []
      → IsRun others temp pte mods s (check_to_start_writer (scanned h t)) mods []
  empty-IsRun h t only taken = by_events (scanned h t) mods [] (λ ev. record {
    walked = h;
    taken = taken;
    gathered = h;
    gathers = λ q out. refl;
    start = same_links h t only;
    attempt = 0;
    finds = same_links h t only;
    elsewhere = λ q out. refl;
    list = rw (append-nil mods) (same_links h t only);
    pages = tt;
    few = omega arith;
    size = omega (arith, small);
    rest = refl;
  })

  off_gathered :
      (batch : List ℕ) (h h₀ : Heap)
      → IsGathered (initialize_list_head h temp) temp [] batch h₀
      → (q : ℕ) → has q (temp ∷ batch) ≡ false
      → h₀ q ≡ h q
  off_gathered batch h h₀ g q out =
      g.others q (ground (arith, out)) ∙ (empty_head h temp).1 q (λ e. ground (arith, e, out))

  batch-IsRun :
      (h h₀ h' : Heap) (t : ℕ → Pte) (j : ℕ) (before : List ℕ) (page : ℕ) (pages : List ℕ)
      → HasOnlyLocked s (scanned h t)
      → IsWalked h t (page ∷ pages)
      → IsBatch (temp ∷ s.modified_list.head ∷ mods) (scanned h t) (page ∷ pages)
      → IsGathered (initialize_list_head h temp) temp [] (page ∷ pages) h₀
      → IsList (found others 0 j h₀) s.modified_list.head before
      → ((q : ℕ)
          → has q (s.modified_list.head ∷ before ++ page ∷ pages) ≡ false
          → h' q ≡ found others 0 j h₀ q)
      → IsPublished s.modified_list before (page ∷ pages) (marked (page ∷ pages) h) h'
      → IsRun others temp pte mods s
          (check_to_start_writer
            (record (grown (scanned h t) (length (page ∷ pages))) { heap = h' }))
          before
          (page ∷ pages)
  unfolding change_list_size
  batch-IsRun h h₀ h' t j before page pages only taken b g at far p =
      let batch : List ℕ = page ∷ pages in
      let u : System = record (grown (scanned h t) (length batch)) { heap = h' } in
      let d : distinct ((s.modified_list.head ∷ mods) ++ batch) ≡ true = ground (arith, b.apart) in
      let out : (q : ℕ)
          → has q (s.modified_list.head ∷ mods) ≡ true
          → has q (temp ∷ batch) ≡ false =
        λ q m.
          let off = has-append_apart (s.modified_list.head ∷ mods) batch q d m in
          let ne =
            has-ne q temp (s.modified_list.head ∷ mods) m
              (ground (arith, b.apart, has-append temp mods batch)) in
          ground (arith, off, ne) in
      by_events u before batch (λ ev. record {
        walked = h;
        taken = taken;
        gathered = h₀;
        gathers = off_gathered batch h h₀ g;
        start =
            IsList-off h h₀ s.modified_list.head mods (λ q m. off_gathered batch h h₀ g q (out q m))
              (same_links h t only);
        attempt = j;
        finds = at;
        elsewhere = far;
        list = p.is;
        pages =
            All-with batch
              (λ q m w.
                published-IsModified (scanned h t) (record u { events = ev }) s.modified_list before
                  batch q refl m p w)
              b.pages;
        few = b.few;
        size = omega (arith, b.few, small);
        rest = refl;
      })

  -- In a region whose valid entries own their pages, with these pages unlocked and off the modified
  -- list: while others at the waits spare the modified list, the temporary one and the batch, and
  -- leave the modified list's head and the page before it unlocked by attempt `k`, a run of the
  -- trimmer returns, with the index of an entry and the size of the batch that it took, at most
  -- 2048. Unless the batch got full, it has the page of each of the next 8192 entries in cyclic order
  -- that was valid, unlocked and not accessed. Every entry is as it was but for its accessed bit,
  -- or was valid and is in transition, unlocked, with its page in the batch; each page of the batch
  -- is that of an entry that was valid. The batch is at the end of the modified list in order,
  -- behind the pages that the attempt which published it found there; each of its pages is modified
  -- and unlocked, and its owner's entry is in transition with the page's frame; no record off that
  -- list has changed since that attempt; the list's size has grown by the batch's, and only memory, the
  -- page table, that size and the events have changed.
  pub trim_pages_lem :
      IsRegion (temp ∷ s.modified_list.head ∷ mods) s
      → pte < s.vm.num_ptes
      → distinct (temp ∷ s.modified_list.head ∷ mods) ≡ true
      → ((batch : List ℕ) (known : Heap) → IsServed others k s.modified_list temp batch known)
      → k < fuel
      → (s' : System) × (pte' : ℕ) × (before batch : List ℕ) × (trim_pages others fuel temp pte s
          ≡ some (s', pte', length batch))
        × (pte' < s.vm.num_ptes)
        × IsRun others temp pte mods s s' before batch
  trim_pages_lem region lt d served enough =
      let (s₁, pte', batch, run, only, region', b, few, lt', taken) =
        trim_scan_lem (temp ∷ s.modified_list.head ∷ mods) max_trim_attempts pte [] s region lt
          (record { pages = tt; apart = rw (append-nil mods) d; few = omega arith }) in
      by_batch s₁.heap s₁.ptes pte' batch
        (run ∙ ap (λ (u : System). some (u, pte', batch)) only.rest)
        (subst (λ (u : System). HasOnlyLocked s u) only.rest only)
        (subst (λ (u : System). IsBatch (temp ∷ s.modified_list.head ∷ mods) u batch) only.rest b)
        (subst (λ (u : System). pte' < u.vm.num_ptes) only.rest lt')
        (subst (λ (u : System). IsTaken s.vm.num_ptes max_trim_attempts pte s u [] batch) only.rest
          taken)
    where
      by_batch :
          (h : Heap) (t : ℕ → Pte) (pte' : ℕ) (batch : List ℕ)
          → trim_scan max_trim_attempts pte [] s ≡ some (scanned h t, pte', batch)
          → HasOnlyLocked s (scanned h t)
          → IsBatch (temp ∷ s.modified_list.head ∷ mods) (scanned h t) batch
          → pte' < s.vm.num_ptes
          → IsWalked h t batch
          → (s' : System) × (pte' : ℕ) × (before batch : List ℕ) × (trim_pages others fuel temp pte
                s
              ≡ some (s', pte', length batch))
            × (pte' < s.vm.num_ptes)
            × IsRun others temp pte mods s s' before batch
      by_batch h t pte' [] run only b lt' taken = (
        check_to_start_writer (scanned h t),
        pte,
        mods,
        [],
        trim-nothing others fuel temp pte s (scanned h t) pte' run,
        lt,
        empty-IsRun h t only taken,
      )
      by_batch h t pte' (page ∷ pages) run only b lt' taken =
          let batch : List ℕ = page ∷ pages in
          let (h₀, h', j, before, le, g, at, publish, far, p) =
            publish_modified_lem others k fuel temp page pages mods (scanned h t)
              (same_links h t only) b.apart
              (λ q m. (All-has (IsTrimmedPage (scanned h t)) batch q b.pages m).locked)
              (served batch (marked batch h)) enough in
          let u : System = record (grown (scanned h t) (length batch)) { heap = h' } in
          (
            check_to_start_writer u,
            pte',
            before,
            batch,
            trim-batch others fuel temp pte s (scanned h t) u pte' page pages run publish,
            lt',
            batch-IsRun h h₀ h' t j before page pages only taken b g at far p,
          )
