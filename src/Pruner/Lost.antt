-- ===== src/Pruner/Lost.antt =====
-- The batch that the pruner takes off the standby list, and what becomes of it when no free list is
-- marked low.
use memory_manager.Base.{
  ℕ, zero, suc, ◌+◌, ◌%◌, ◌^◌, ◌<◌, ◌≤◌, ◌≡◌, ◌≢◌, refl, ap, ◌∙◌, true, false, arith, some, List,
  [], ◌∷◌, has, distinct, length, take, drop, Bool, length-take, ◌++◌, has-append_apart,
  apart_front, take-append-drop,
}
use memory_manager.PageList.Ring.{IsList}
use memory_manager.PageList.Walk.{AllFree, IsList-links}
use memory_manager.PageList.Batch.{Batch, remove_batch_from_list_head}
use memory_manager.PageList.Exclusive.{IsBatch}
use memory_manager.PageList.FirstTry.{remove_batch_from_list_head_lem}
use memory_manager.System.{System}
use memory_manager.FaultHandler.{Outside, signal_writing_if_low}
use memory_manager.FaultHandler.Standby.{AreOwned, evicted}
use memory_manager.FaultHandler.Refill.{batched, batched-same, batched-AreOwned, first_of}
use memory_manager.Writer.Staged.{IsList-spared}
use memory_manager.Initializer.Caches.{take-distinct, take-has}
use memory_manager.Pruner.{send_to_disk, lists_to_fill, prune_pages}
use memory_manager.Pruner.Sent.{AreSent, released, send_to_disk_lem}

-- What taking the batch leaves: the entries of its pages name the slots that hold their contents,
-- the pages are unlocked and keep their state, and the standby list has its other pages, in order.
pub record IsPruned (s s' : System) (owner : ℕ → ℕ) (n : ℕ) (xs : List ℕ) : Type 0 where
  pub entries :
      (q : ℕ)
      → has q (take n xs) ≡ true
      → s'.ptes (owner q) ≡ evicted (s.ptes (owner q)) (s.heap q).disk_index
  pub other_entries :
      (e : ℕ) → ((q : ℕ) → has q (take n xs) ≡ true → owner q ≢ e) → s'.ptes e ≡ s.ptes e
  pub pages :
      (q : ℕ)
      → has q (take n xs) ≡ true
      → ((s'.heap q).lock ≡ 0) × ((s'.heap q).status ≡ (s.heap q).status)
  pub standby : IsList s'.heap s.standby_list.head (drop n xs)
  pub left_out :
      (q : ℕ) → has q (take n xs) ≡ true → has q (s.standby_list.head ∷ drop n xs) ≡ false
  pub other_lists :
      (head : ℕ) (ys : List ℕ)
      → IsList s.heap head ys
      → distinct ((head ∷ ys) ++ s.standby_list.head ∷ xs) ≡ true
      → IsList s'.heap head ys × ((q : ℕ) → has q (take n xs) ≡ true → has q (head ∷ ys) ≡ false)
  pub free_lists : s'.free_lists ≡ s.free_lists
  pub page_file : s'.page_file ≡ s.page_file

pub batched-free_lists :
    (o : Outside) (s : System) (b : Batch) → (batched o s b).free_lists ≡ s.free_lists
unfolding signal_writing_if_low
batched-free_lists o s b = ground arith

module _ (o : Outside) (s : System) (owner : ℕ → ℕ) (n : ℕ) (xs : List ℕ) (b : Batch)
    (batch : IsBatch s.heap s.standby_list xs n b)
    (apart : distinct (s.standby_list.head ∷ xs) ≡ true) where
  pub sent-IsPruned :
      (s' : System) → AreSent (batched o s b) owner (take n xs) s' → IsPruned s s' owner n xs
  sent-IsPruned s' r =
      let same = batched-same o s b in
      let heap : s'.heap ≡ released (take n xs) b.heap =
        ap (λ (g : System). g.heap) r.rest ∙ ap (released (take n xs)) same.0 in
      record {
        entries = λ q m.
            r.entries q m
            ∙ ap (λ f. evicted (f (owner q)) ((batched o s b).heap q).disk_index) same.1
            ∙ ap (λ h. evicted (s.ptes (owner q)) (h q).disk_index) same.0
            ∙ ap (λ d. evicted (s.ptes (owner q)) d) (batch.keeps q).1;
        other_entries = λ e f. r.other_entries e f ∙ ap (λ g. g e) same.1;
        pages = λ q m. rw heap (ground (arith, m, batch.keeps q));
        standby = rw heap (
            IsList-links b.heap (released (take n xs) b.heap) s.standby_list.head (drop n xs)
              (λ q. ground arith) batch.rest);
        left_out = λ q m.
            let whole = take-append-drop n xs in
            let d : distinct (take n xs ++ drop n xs) ≡ true = rw whole (ground (arith, apart)) in
            let on = take-has n q xs m in
            ground (arith, has-append_apart (take n xs) (drop n xs) q d m, apart, on);
        other_lists = λ head ys is d. (
          rw heap (
              IsList-links b.heap (released (take n xs) b.heap) head ys (λ q. ground arith)
                (IsList-spared s.heap b.heap head ys
                  (λ q on.
                    batch.elsewhere q
                      (has-append_apart (head ∷ ys) (s.standby_list.head ∷ xs) q d on))
                  is)),
          λ q m.
              apart_front (head ∷ ys) (s.standby_list.head ∷ xs) q d
                (ground (arith, take-has n q xs m)),
        );
        free_lists = ap (λ (g : System). g.free_lists) r.rest ∙ batched-free_lists o s b;
        page_file = ap (λ (g : System). g.page_file) r.rest ∙ same.3;
      }

-- The batch is taken and sent to disk.
pub prune-start :
    (o : Outside) (s : System) (owner : ℕ → ℕ) (x : ℕ) (xs : List ℕ)
    → o.shared 0 ≡ true
    → IsList s.heap s.standby_list.head (x ∷ xs)
    → (s.heap s.standby_list.head).lock ≡ 0
    → AllFree s.heap (take 2 (x ∷ xs))
    → s.pf.max_disk_index < 2 ^ 40
    → AreOwned s owner (x ∷ xs)
    → (n : ℕ) × (b : Batch) × (s' : System) × (1 ≤ n)
      × (n ≤ 256)
      × (remove_batch_from_list_head o.shared o.others s.standby_list 256 s.heap ≡ some b)
      × (b.first ≡ some x)
      × (b.count ≡ length (take n (x ∷ xs)))
      × IsBatch s.heap s.standby_list (x ∷ xs) n b
      × (send_to_disk (length (take n (x ∷ xs))) x (batched o s b) ≡ some s')
      × AreSent (batched o s b) owner (take n (x ∷ xs)) s'
prune-start o s owner x xs shared is free_head free small own =
    let (n, b, run, some_pages, few, batch) =
      remove_batch_from_list_head_lem o.shared o.others s.standby_list 256 s.heap (x ∷ xs) shared
        (omega arith) is free_head free in
    let apart : distinct (x ∷ xs) ≡ true = ground (arith, is.apart) in
    let at : b.first ≡ some x = first_of n x xs some_pages b.first batch.starts in
    let same = batched-same o s b in
    let (s', sends, r) =
      send_to_disk_lem owner (take n (x ∷ xs)) x (batched o s b)
        (rw (same.0, ← batch.counted) (batch.batch x at)) (take-distinct n (x ∷ xs) apart)
        (rw same.2 small) (batched-AreOwned o s owner n (x ∷ xs) b batch own)
        (λ q m. rw same.0 (batch.locks q ∙ ground (arith, m))) in
    (n, b, s', some_pages, few, run, at, batch.counted, batch, sends, r)

lists_to_fill_nil :
    (i : ℕ) (snapshot low : ℕ → Bool) → lists_to_fill zero i snapshot low ≡ some (low, [])
unfolding lists_to_fill
lists_to_fill_nil i snapshot low = refl

lists_to_fill-skip :
    (left i : ℕ) (snapshot low : ℕ → Bool)
    → snapshot i ≡ false
    → lists_to_fill (suc left) i snapshot low ≡ lists_to_fill left (i + 1) snapshot low
unfolding lists_to_fill
lists_to_fill-skip left i snapshot low e = ground (arith, e)

lists_to_fill-none :
    (left i : ℕ) (snapshot low : ℕ → Bool)
    → ((j : ℕ) → snapshot j ≡ false)
    → lists_to_fill left i snapshot low ≡ some (low, [])
lists_to_fill-none zero i snapshot low none_low = lists_to_fill_nil i snapshot low
lists_to_fill-none (suc left) i snapshot low none_low =
    lists_to_fill-skip left i snapshot low (none_low i)
    ∙ lists_to_fill-none left (i + 1) snapshot low none_low

lost-run :
    (o : Outside) (fuel : ℕ) (temps : ℕ → ℕ) (low : ℕ → Bool) (s s' : System) (b : Batch)
    (first n : ℕ)
    → remove_batch_from_list_head o.shared o.others s.standby_list 256 s.heap ≡ some b
    → b.first ≡ some first
    → b.count % 2 ^ 16 ≡ n
    → send_to_disk n first (batched o s b) ≡ some s'
    → lists_to_fill 16 0 low low ≡ some (low, [])
    → prune_pages o fuel temps low s ≡ some (s', low, 0)
unfolding prune_pages
lost-run o fuel temps low s s' b first n run at count sends none_low =
    rw (run, at, count, sends, none_low) refl

-- Where the standby list has pages, each owned by an entry of its own, can be locked shared, and
-- its head and first two pages are unlocked, but no free list is marked low: a run of the pruner
-- returns 0. All the same it has taken the first n pages off the list, for some n of 1 to 256; their
-- entries name the slots that hold their contents, the pages are unlocked and keep their state, and
-- they are on no list: the standby list has its other pages, and every list that was apart from it,
-- such as the free lists, is as it was, without any of them.
pub prune_pages-lost :
    (o : Outside) (fuel : ℕ) (temps : ℕ → ℕ) (low : ℕ → Bool) (s : System) (owner : ℕ → ℕ) (x : ℕ)
    (xs : List ℕ)
    → ((i : ℕ) → low i ≡ false)
    → o.shared 0 ≡ true
    → IsList s.heap s.standby_list.head (x ∷ xs)
    → (s.heap s.standby_list.head).lock ≡ 0
    → AllFree s.heap (take 2 (x ∷ xs))
    → s.pf.max_disk_index < 2 ^ 40
    → AreOwned s owner (x ∷ xs)
    → (n : ℕ) × (s' : System) × (prune_pages o fuel temps low s ≡ some (s', low, 0))
      × (1 ≤ n)
      × (n ≤ 256)
      × IsPruned s s' owner n (x ∷ xs)
prune_pages-lost o fuel temps low s owner x xs none_low shared is free_head free small own =
    let (n, b, s', some_pages, few, run, at, count, batch, sends, r) =
      prune-start o s owner x xs shared is free_head free small own in
    let fits : b.count % 2 ^ 16 ≡ length (take n (x ∷ xs)) =
      omega (arith, count, few, length-take n (x ∷ xs)) in
    (
      n,
      s',
      lost-run o fuel temps low s s' b x (length (take n (x ∷ xs))) run at fits sends
          (lists_to_fill-none 16 0 low low none_low),
      some_pages,
      few,
      sent-IsPruned o s owner n (x ∷ xs) b batch is.apart s' r,
    )
