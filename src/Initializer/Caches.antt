-- ===== src/Initializer/Caches.antt =====
-- One round of the loop over the threads.
use memory_manager.Base.{
  ◌+◌, ◌^◌, ℕ, zero, suc, ◌%◌, ◌<◌, ◌≤◌, ◌≡◌, refl, sym, ap, ◌∙◌, true, false, Bool, arith, update,
  ◌==◌, if◌then◌else◌, ◌||◌, some, none, List, [], ◌∷◌, has, distinct, length, take, drop,
  ℕ_discrete, update_self, update-ne,
}
use memory_manager.Pfn.{Pfn, Heap}
use memory_manager.PageList.Walk.{along, Keeps}
use memory_manager.PageList.{PageList, neg64, change_list_size}
use memory_manager.PageList.Ring.{IsList, Seg-frame}
use memory_manager.PageList.Walk.{AllFree, IsList-links}
use memory_manager.PageList.Batch.{Batch, remove_batch_from_list_head_exclusive}
use memory_manager.PageList.Exclusive.{IsBatch, remove_batch_from_list_head_exclusive_lem}
use memory_manager.FreeLists.{change_free_lists_total_count}
use memory_manager.Initializer.Deal.{AreApart, IsFresh}
use memory_manager.System.{System, ThreadInfo}
use memory_manager.Initializer.{fill_first_cache, initialize_thread}
use memory_manager.Initializer.Fill.{Holds, IsFilled, fill_first_cache_lem}

-- The free lists, with the pages on each, and all the other lists of `n`.
pub record AreListed (n : ℕ) (heads : ℕ → ℕ) (s : System) (ls : ℕ → List ℕ) : Type 0 where
  pub lists : AreApart n heads s.heap ls
  pub at : (j : ℕ) → j < 16 → (s.free_lists.list_array j).head ≡ heads j
  pub number : s.free_lists.number_of_lists ≡ 16

-- What the round of a thread does: its cache has the first pages of one list, at most 64 and all
-- if there are fewer, and the list loses them. They are fresh, as they were on the list, and the
-- records of other pages keep their owner, state, slot and lock.
pub record IsServed (n : ℕ) (heads : ℕ → ℕ) (s s' : System) (ls : ℕ → List ℕ) (k i : ℕ)
    (t : ThreadInfo) : Type 0 where
  pub listed : AreListed n heads s' (update ls k (drop 64 (ls k)))
  pub holds : Holds t.free_page_cache 0 (take 64 (ls k))
  pub count : t.free_page_count ≡ length (take 64 (ls k))
  pub identity : t.thread_id ≡ i
  pub kernel : t.kernel_va_index ≡ 0
  pub free_count :
      s'.free_lists.page_count
      ≡ (s.free_lists.page_count + neg64 (length (take 64 (ls k)))) % 2 ^ 64
  pub keeps : Keeps s.heap s'.heap
  pub locks : (q : ℕ) → (s'.heap q).lock ≡ (if has q (take 64 (ls k)) then 0 else (s.heap q).lock)

pub take-has : (n q : ℕ) (xs : List ℕ) → has q (take n xs) ≡ true → has q xs ≡ true
take-has zero q xs m = cc
take-has (suc n) q [] m = cc
take-has (suc n) q (x ∷ xs) m = ground (arith, take-has n q xs)

pub drop-has : (n q : ℕ) (xs : List ℕ) → has q (drop n xs) ≡ true → has q xs ≡ true
drop-has zero q xs m = m
drop-has (suc n) q [] m = cc
drop-has (suc n) q (x ∷ xs) m = ground (arith, drop-has n q xs)

-- A list that has lost its first pages has none that it did not have.
pub dropped-has :
    (ls : ℕ → List ℕ) (k j q : ℕ)
    → has q (update ls k (drop 64 (ls k)) j) ≡ true
    → has q (ls j) ≡ true
dropped-has ls k j q m = elim (ℕ_discrete j k) [
  | yes e ↦
      let m' : has q (drop 64 (ls k)) ≡ true = rw (e, update_self ls k (drop 64 (ls k))) at m in
      rw e (drop-has 64 q (ls k) m')
  | no ne ↦ rw (update-ne ls k j (drop 64 (ls k)) ne) at m
]

pub take-distinct : (n : ℕ) (xs : List ℕ) → distinct xs ≡ true → distinct (take n xs) ≡ true
take-distinct zero xs d = refl
take-distinct (suc n) [] d = refl
take-distinct (suc n) (x ∷ xs) d = ground (arith, take-distinct n xs, take-has n x xs)

AllFree-of : (h : Heap) (xs : List ℕ) → ((q : ℕ) → has q xs ≡ true → (h q).lock ≡ 0) → AllFree h xs
AllFree-of h [] f = tt
AllFree-of h (x ∷ xs) f = (f x (ground arith), AllFree-of h xs (λ q m. f q (ground arith)))

first_along :
    (h : Heap) (count p : ℕ) (xs : List ℕ)
    → count ≡ length xs
    → ((x : ℕ) (ys : List ℕ) → xs ≡ x ∷ ys → (p ≡ x) × (along h x count ≡ xs))
    → along h p (length xs) ≡ xs
first_along h count p [] e start = refl
first_along h count p (x ∷ xs) e start =
    let (at, run) = start x xs refl in rw at (ap (λ m. along h x m) (sym e) ∙ run)

abbrev served : (i : ℕ) → System → (k : ℕ) → Batch → Heap → System
served i s k b h = record s {
  heap = h;
  free_lists =
      change_free_lists_total_count
        (record (s.free_lists) { list_array = update s.free_lists.list_array k b.list })
        (neg64 b.count);
}

abbrev thread_record : ℕ → Batch → (ℕ → ℕ) → ThreadInfo
thread_record i b cache = record {
  thread_id = i;
  kernel_va_index = 0;
  free_page_cache = cache;
  free_page_count = b.count;
}

thread-run :
    (i k : ℕ) (s : System) (b : Batch) (h : Heap) (cache : ℕ → ℕ)
    → i % s.free_lists.number_of_lists ≡ k
    → remove_batch_from_list_head_exclusive (s.free_lists.list_array k) 64 s.heap ≡ some b
    → fill_first_cache b.count 0 (elim b.first [ none ↦ 0 | some first ↦ first ]) b.heap (λ _. 0)
      ≡ some (h, cache)
    → initialize_thread i s ≡ some (served i s k b h, thread_record i b cache)
unfolding initialize_thread
thread-run i k s b h cache at e f = rw (at, e, f) refl

served-heads :
    (i k j : ℕ) (s : System) (b : Batch) (h : Heap)
    → b.list.head ≡ (s.free_lists.list_array k).head
    → ((served i s k b h).free_lists.list_array j).head ≡ (s.free_lists.list_array j).head
unfolding change_free_lists_total_count update
served-heads i k j s b h e = ground (arith, e)

served-number :
    (i k : ℕ) (s : System) (b : Batch) (h : Heap)
    → (served i s k b h).free_lists.number_of_lists ≡ s.free_lists.number_of_lists
unfolding change_free_lists_total_count
served-number i k s b h = refl

served-count :
    (i k : ℕ) (s : System) (b : Batch) (h : Heap)
    → (served i s k b h).free_lists.page_count ≡ (s.free_lists.page_count + neg64 b.count) % 2 ^ 64
unfolding change_free_lists_total_count
served-count i k s b h = refl

pub batch-head :
    (h : Heap) (list : PageList) (xs : List ℕ) (n : ℕ) (b : Batch)
    → IsBatch h list xs n b
    → b.list.head ≡ list.head
unfolding change_list_size
batch-head h list xs n b batch = ground (arith, batch.size)

unlocked_again :
    (a b c : ℕ) (t : Bool)
    → b ≡ (if t then 1 else c)
    → a ≡ (if t then 0 else b)
    → a ≡ (if t then 0 else c)
unlocked_again a b c t e f = ground (arith, e, f)

pub still-IsFresh :
    (p p' : Pfn) (t : Bool)
    → IsFresh p
    → (p'.pte ≡ p.pte)
      × (p'.disk_index ≡ p.disk_index)
      × (p'.status ≡ p.status)
      × (p'.reserved ≡ p.reserved)
    → p'.lock ≡ (if t then 0 else p.lock)
    → IsFresh p'
still-IsFresh p p' t f same e = ground (arith, f, same, e)

pub not_now : {a b : Bool} → (b ≡ true → a ≡ true) → a ≡ false → b ≡ false
not_now {a} {b} f e = ground (arith, f, e)

pub or_mono : {a b : Bool} (c : Bool) → (a ≡ true → b ≡ true) → (c || a) ≡ true → (c || b) ≡ true
or_mono {a} {b} c f e = ground (arith, f, e)

module _ (n : ℕ) (heads : ℕ → ℕ) (s : System) (ls : ℕ → List ℕ) (i : ℕ) (k : ℕ) (le : 16 ≤ n)
    (before : AreListed n heads s ls) (chosen : k ≡ i % 16) where
  abbrev list : PageList
  list = s.free_lists.list_array k

  lt : k < n
  lt = omega (arith, le, chosen)

  taken :
      (b : Batch) × (remove_batch_from_list_head_exclusive list 64 s.heap ≡ some b)
      × IsBatch s.heap list (ls k) 64 b
  taken =
      let head : list.head ≡ heads k = before.at k (omega (arith, chosen)) in
      remove_batch_from_list_head_exclusive_lem s.heap list (ls k) 64 (omega arith)
        (rw head (before.lists.lists k lt))
        (AllFree-of s.heap (ls k) (λ q m. (before.lists.fresh k q lt m).0))

  abbrev pages : List ℕ
  pages = take 64 (ls k)

  abbrev first_page : Batch → ℕ
  first_page b = elim b.first [ none ↦ 0 | some first ↦ first ]

  filled :
      (b : Batch)
      → IsBatch s.heap list (ls k) 64 b
      → (h' : Heap) × (cache : ℕ → ℕ) × (fill_first_cache b.count 0 (first_page b) b.heap (λ _. 0)
          ≡ some (h', cache))
        × IsFilled b.heap (λ _. 0) 0 pages h' cache
  filled b batch =
      let r =
        fill_first_cache_lem pages 0 (first_page b) b.heap (λ _. 0)
          (first_along b.heap b.count (first_page b) pages batch.counted
            (λ x ys e. let f = batch.starts x ys e in (ground (arith, f), batch.batch x f)))
          (take-distinct 64 (ls k) (ground (arith, (before.lists.lists k lt).apart)))
          (λ q m. ground (arith, batch.locks q)) in
      rw batch.counted r

  abbrev shrunk : ℕ → List ℕ
  shrunk = update ls k (drop 64 (ls k))

  shrunk-member : (j q : ℕ) → has q (heads j ∷ shrunk j) ≡ true → has q (heads j ∷ ls j) ≡ true
  shrunk-member j q m = or_mono (q == heads j) (dropped-has ls k j q) m

  module _ (b : Batch) (batch : IsBatch s.heap list (ls k) 64 b) (h' : Heap) (cache : ℕ → ℕ)
      (fill : IsFilled b.heap (λ _. 0) 0 pages h' cache) where
    kept : Keeps s.heap h'
    kept q = ground (arith, batch.keeps q, fill.keeps q)

    unlocked_all : (q : ℕ) → (h' q).lock ≡ (if has q pages then 0 else (s.heap q).lock)
    unlocked_all q =
        unlocked_again (h' q).lock (b.heap q).lock (s.heap q).lock (has q pages) (batch.locks q)
          (fill.locks q)

    shrunk-IsList : (j : ℕ) → j < n → IsList h' (heads j) (shrunk j)
    shrunk-IsList j jn = elim (ℕ_discrete j k) [
      | yes e ↦
          let head : list.head ≡ heads k = before.at k (omega (arith, chosen)) in
          rw (e, update_self ls k (drop 64 (ls k)))
            (rw head at (IsList-links b.heap h' list.head (drop 64 (ls k)) fill.links batch.rest))
      | no ne ↦
          let head : list.head ≡ heads k = before.at k (omega (arith, chosen)) in
          let off : (q : ℕ) → has q (heads j ∷ ls j) ≡ true → has q (list.head ∷ ls k) ≡ false =
            λ q m. rw head (before.lists.apart j k q jn lt ne m) in
          let old = before.lists.lists j jn in
          let middle : IsList b.heap (heads j) (ls j) = record {
            ring =
                Seg-frame s.heap b.heap (heads j) (ls j) (heads j)
                  (λ q m. (batch.elsewhere q (off q m)).0) (λ q m. (batch.elsewhere q (off q m)).1)
                  old.ring;
            apart = old.apart;
          } in
          rw (update-ne ls k j (drop 64 (ls k)) ne)
            (IsList-links b.heap h' (heads j) (ls j) fill.links middle)
    ]

    shrunk-AreApart : AreApart n heads h' shrunk
    shrunk-AreApart = record {
      lists = shrunk-IsList;
      fresh = λ j q jn m.
          still-IsFresh (s.heap q) (h' q) (has q pages)
            (before.lists.fresh j q jn (dropped-has ls k j q m)) (kept q) (unlocked_all q);
      apart = λ i j q li lj ne m.
          not_now (shrunk-member j q) (before.lists.apart i j q li lj ne (shrunk-member i q m));
    }

  pub initialize_thread_lem :
      (s' : System) × (t : ThreadInfo) × (initialize_thread i s ≡ some (s', t))
      × IsServed n heads s s' ls k i t
  initialize_thread_lem =
      let (b, ended, batch) = taken in
      let (h', cache, run, fill) = filled b batch in
      (
        served i s k b h',
        thread_record i b cache,
        thread-run i k s b h' cache (ap (λ m. i % m) before.number ∙ sym chosen) ended run,
        record {
          listed = record {
            lists = shrunk-AreApart b batch h' cache fill;
            at = λ j jl.
                served-heads i k j s b h' (batch-head s.heap list (ls k) 64 b batch)
                ∙ before.at j jl;
            number = served-number i k s b h' ∙ before.number;
          };
          holds = fill.holds;
          count = batch.counted;
          identity = refl;
          kernel = refl;
          free_count =
              served-count i k s b h'
              ∙ ap (λ c. (s.free_lists.page_count + neg64 c) % 2 ^ 64) batch.counted;
          keeps = kept b batch h' cache fill;
          locks = unlocked_all b batch h' cache fill;
        },
      )
