-- ===== src/FaultHandler/Refill.antt =====
-- `move_batch_from_standby_to_cache` on a standby list that is not empty.
use memory_manager.Base.{
  ℕ, zero, suc, ◌^◌, ◌<◌, ◌≤◌, ◌≡◌, ◌≢◌, refl, ap, ◌∙◌, true, arith, Option, some, List, ◌∷◌, has,
  distinct, length, take, drop,
}
use memory_manager.PageList.Ring.{IsList}
use memory_manager.PageList.Walk.{AllFree, IsList-links}
use memory_manager.PageList.Batch.{Batch, remove_batch_from_list_head}
use memory_manager.PageList.Exclusive.{IsBatch}
use memory_manager.PageList.FirstTry.{remove_batch_from_list_head_lem}
use memory_manager.System.{System, ThreadInfo}
use memory_manager.FaultHandler.{
  Outside, repurpose_pages, move_batch_from_standby_to_cache, signal_writing_if_low,
}
use memory_manager.FaultHandler.Standby.{AreOwned, AreRepurposed, evicted, repurpose_pages_lem}
use memory_manager.Initializer.Deal.{IsFresh}
use memory_manager.Initializer.Fill.{Holds}
use memory_manager.Initializer.Caches.{take-has, take-distinct, batch-head}

abbrev pub batched : Outside → System → Batch → System
batched o s b = signal_writing_if_low o b.list (record s { heap = b.heap; standby_list = b.list })

pub batched-same :
    (o : Outside) (s : System) (b : Batch)
    → ((batched o s b).heap ≡ b.heap)
      × ((batched o s b).ptes ≡ s.ptes)
      × ((batched o s b).pf ≡ s.pf)
      × ((batched o s b).page_file ≡ s.page_file)
      × ((batched o s b).frames ≡ s.frames)
      × ((batched o s b).standby_list ≡ b.list)
unfolding signal_writing_if_low
batched-same o s b = ground arith

move-run :
    (o : Outside) (s s' : System) (t : ThreadInfo) (b : Batch) (first : ℕ) (cache : ℕ → ℕ)
    → remove_batch_from_list_head o.shared o.others s.standby_list 16 s.heap ≡ some b
    → b.first ≡ some first
    → repurpose_pages b.count 0 first (batched o s b) t.free_page_cache ≡ some (s', cache)
    → t.free_page_count ≡ 0
    → move_batch_from_standby_to_cache o s t
      ≡ some (s', record t { free_page_cache = cache; free_page_count = b.count }, true)
unfolding move_batch_from_standby_to_cache
move-run o s s' t b first cache run at loop empty = rw (run, at, loop, empty) refl

-- The batch is in the cache, each of its pages free and unlocked; the entries that had them name
-- the slots that hold their contents, which are as they were; the standby list keeps its other
-- pages, in order.
pub record IsRefilled (s s' : System) (t' : ThreadInfo) (owner : ℕ → ℕ) (n : ℕ) (xs : List ℕ)
    : Type 0 where
  pub count : t'.free_page_count ≡ length (take n xs)
  pub holds : Holds t'.free_page_cache 0 (take n xs)
  pub emptied : (q : ℕ) → has q (take n xs) ≡ true → IsFresh (s'.heap q)
  pub entries :
      (q : ℕ)
      → has q (take n xs) ≡ true
      → s'.ptes (owner q) ≡ evicted (s.ptes (owner q)) (s.heap q).disk_index
  pub other_entries :
      (e : ℕ) → ((q : ℕ) → has q (take n xs) ≡ true → owner q ≢ e) → s'.ptes e ≡ s.ptes e
  pub standby : IsList s'.heap s'.standby_list.head (drop n xs)
  pub pf : s'.pf ≡ s.pf
  pub page_file : s'.page_file ≡ s.page_file
  pub frames : s'.frames ≡ s.frames

pub batched-AreOwned :
    (o : Outside) (s : System) (owner : ℕ → ℕ) (n : ℕ) (xs : List ℕ) (b : Batch)
    → IsBatch s.heap s.standby_list xs n b
    → AreOwned s owner xs
    → AreOwned (batched o s b) owner (take n xs)
batched-AreOwned o s owner n xs b batch own =
    let same = batched-same o s b in
    record {
      owned = λ q m. rw same.0 ((batch.keeps q).0 ∙ own.owned q (take-has n q xs m));
      in_range = λ q m.
          let i : (b.heap q).disk_index ≡ (s.heap q).disk_index = (batch.keeps q).1 in
          rw (same.0, same.2, i) (own.in_range q (take-has n q xs m));
      apart = λ q r mq mr e. own.apart q r (take-has n q xs mq) (take-has n r xs mr) e;
    }

module _ (o : Outside) (s : System) (t : ThreadInfo) (owner : ℕ → ℕ) (n : ℕ) (xs : List ℕ)
    (b : Batch) (batch : IsBatch s.heap s.standby_list xs n b) (own : AreOwned s owner xs) where
  refilled :
      (s' : System) (cache : ℕ → ℕ)
      → AreRepurposed (batched o s b) owner t.free_page_cache 0 (take n xs) s' cache
      → IsRefilled s s' (record t { free_page_cache = cache; free_page_count = b.count }) owner n xs
  refilled s' cache r =
      let same = batched-same o s b in
      let list : s'.standby_list ≡ b.list = ap (λ g. g.standby_list) r.rest ∙ same.5 in
      let head : b.list.head ≡ s.standby_list.head =
        batch-head s.heap s.standby_list xs n b batch in
      let links : (q : ℕ)
          → ((s'.heap q).flink ≡ (b.heap q).flink) × ((s'.heap q).blink ≡ (b.heap q).blink) =
        λ q. rw same.0 at (r.links q) in
      record {
        count = batch.counted;
        holds = r.holds;
        emptied = r.emptied;
        entries = λ q m.
            r.entries q m
            ∙ ap (λ f. evicted (f (owner q)) ((batched o s b).heap q).disk_index) same.1
            ∙ ap (λ h. evicted (s.ptes (owner q)) (h q).disk_index) same.0
            ∙ ap (λ d. evicted (s.ptes (owner q)) d) (batch.keeps q).1;
        other_entries = λ e f. r.other_entries e f ∙ ap (λ g. g e) same.1;
        standby =
            rw (list, head)
              (IsList-links b.heap s'.heap s.standby_list.head (drop n xs) links batch.rest);
        pf = ap (λ g. g.pf) r.rest ∙ same.2;
        page_file = ap (λ g. g.page_file) r.rest ∙ same.3;
        frames = ap (λ g. g.frames) r.rest ∙ same.4;
      }

  -- The loop over the batch, from its first page.
  repurposed :
      (first : ℕ)
      → b.first ≡ some first
      → distinct xs ≡ true
      → s.pf.max_disk_index < 2 ^ 40
      → (s' : System) × (cache : ℕ → ℕ) × (repurpose_pages b.count 0 first
            (batched o s b)
            t.free_page_cache
          ≡ some (s', cache))
        × AreRepurposed (batched o s b) owner t.free_page_cache 0 (take n xs) s' cache
  repurposed first at apart small =
      let same = batched-same o s b in
      let counted : b.count ≡ length (take n xs) = batch.counted in
      let run =
        repurpose_pages_lem owner (take n xs) 0 first (batched o s b) t.free_page_cache
          (rw (same.0, ← counted) (batch.batch first at)) (take-distinct n xs apart)
          (rw same.2 small) (batched-AreOwned o s owner n xs b batch own)
          (λ q m. rw same.0 (batch.locks q ∙ ground (arith, m))) in
      rw counted run

pub first_of :
    (n x : ℕ) (xs : List ℕ)
    → 1 ≤ n
    → (first : Option ℕ) → ((y : ℕ) (ys : List ℕ) → take n (x ∷ xs) ≡ y ∷ ys → first ≡ some y)
    → first ≡ some x
first_of zero x xs le first starts = absurd (omega (arith, le))
first_of (suc n) x xs le first starts = starts x (take n xs) refl

-- A thread with an empty cache finds the standby list open: it can be locked shared, and its head
-- and first two pages are unlocked; each page of the list is owned by an entry of its own. Then
-- the routine returns TRUE: for some n of 1 to 16, the first n pages of the list (all if there are
-- fewer) are in the cache, free and unlocked, and their entries name the slots that hold their contents.
pub move_batch_from_standby_to_cache_lem :
    (o : Outside) (s : System) (t : ThreadInfo) (owner : ℕ → ℕ) (x : ℕ) (xs : List ℕ)
    → o.shared 0 ≡ true
    → IsList s.heap s.standby_list.head (x ∷ xs)
    → (s.heap s.standby_list.head).lock ≡ 0
    → AllFree s.heap (take 2 (x ∷ xs))
    → t.free_page_count ≡ 0
    → s.pf.max_disk_index < 2 ^ 40
    → AreOwned s owner (x ∷ xs)
    → (n : ℕ) × (s' : System) × (t' : ThreadInfo) × (move_batch_from_standby_to_cache o s t
        ≡ some (s', t', true))
      × (1 ≤ n)
      × (n ≤ 16)
      × IsRefilled s s' t' owner n (x ∷ xs)
move_batch_from_standby_to_cache_lem o s t owner x xs open_now is free_head free empty small own =
    let (n, b, run, some_pages, few, batch) =
      remove_batch_from_list_head_lem o.shared o.others s.standby_list 16 s.heap (x ∷ xs) open_now
        (omega arith) is free_head free in
    let apart : distinct (x ∷ xs) ≡ true = ground (arith, is.apart) in
    let at : b.first ≡ some x = first_of n x xs some_pages b.first batch.starts in
    let (s', cache, loop, r) = repurposed o s t owner n (x ∷ xs) b batch own x at apart small in
    (
      n,
      s',
      record t { free_page_cache = cache; free_page_count = b.count },
      move-run o s s' t b x cache run at loop empty,
      some_pages,
      few,
      refilled o s t owner n (x ∷ xs) b batch own s' cache r,
    )
