-- ===== src/PageList/Exclusive.antt =====
-- `remove_batch_from_list_head_exclusive` on a list whose pages are unlocked.
use mathlib.Core.Path.{subst}
use memory_manager.Base.{
  ℕ, zero, suc, ◌+◌, ◌<◌, ◌≡◌, ◌≢◌, refl, ◌∙◌, ap, true, false, List, [], ◌∷◌, some, none, arith,
  ◌==◌, if◌then◌else◌, has, distinct, take, drop, length, ◌>>=◌,
}
use memory_manager.Pfn.{Heap}
use memory_manager.Pfn.Lock.{with_lock, lock_pfn-free}
use memory_manager.Pfn.{lock_pfn}
use memory_manager.PageList.{PageList, set_flink, set_blink, neg64, change_list_size}
use memory_manager.PageList.Ring.{Seg, IsList}
use memory_manager.PageList.Walk.{
  along, first_or, lock_all, AllFree, Keeps, Seg-links, with_lock-links, lock_all-links,
  AllFree-with_lock, lock_all-cons,
}
use memory_manager.PageList.Cut.{cut-drop, cut-along, cut-elsewhere, lock-cut, cut-Keeps}
use memory_manager.PageList.Batch.{Batch, lock_batch, remove_batch_from_list_head_exclusive}

-- What taking the first `n` pages of `xs` off a list leaves: the rest, in order, on the list; the
-- batch, reachable from its first page along the links, locked; every other lock as it was; no
-- page's owner, state or slot changed; no link of a record off the list changed; and the list's
-- size lowered by the number of pages.
pub record IsBatch (h : Heap) (list : PageList) (xs : List ℕ) (n : ℕ) (b : Batch) : Type 0 where
  pub rest : IsList b.heap list.head (drop n xs)
  pub counted : b.count ≡ length (take n xs)
  pub starts : (x : ℕ) (ys : List ℕ) → take n xs ≡ x ∷ ys → b.first ≡ some x
  pub batch : (p : ℕ) → b.first ≡ some p → along b.heap p b.count ≡ take n xs
  pub locks : (q : ℕ) → (b.heap q).lock ≡ (if has q (take n xs) then 1 else (h q).lock)
  pub keeps : Keeps h b.heap
  pub elsewhere :
      (q : ℕ)
      → has q (list.head ∷ xs) ≡ false
      → ((b.heap q).flink ≡ (h q).flink) × ((b.heap q).blink ≡ (h q).blink)
  pub size : b.list ≡ (if b.count == 0 then list else change_list_size list (neg64 b.count))

lock_batch-stop : (n head : ℕ) (h : Heap) → lock_batch (suc n) head head h ≡ some (h, head, 0)
unfolding lock_batch
lock_batch-stop n head h = ground arith

lock_batch-step :
    (n head x : ℕ) (h h' : Heap)
    → x ≢ head
    → lock_pfn h x ≡ some h'
    → lock_batch (suc n) head x h
      ≡ (lock_batch n head (h' x).flink h' >>= λ r. some (r.0, r.1, r.2 + 1))
unfolding lock_batch
lock_batch-step n head x h h' ne e = ground arith

-- The loop locks the pages one after the other.
lock_batch_lem :
    (n head : ℕ) (h : Heap) (a : ℕ) (xs : List ℕ)
    → Seg h a xs head
    → distinct xs ≡ true
    → has head xs ≡ false
    → AllFree h xs
    → lock_batch n head (h a).flink h
      ≡ some (lock_all (take n xs) h, first_or (drop n xs) head, length (take n xs))
unfolding lock_batch
lock_batch_lem zero head h a [] s d o f = rw s.0
lock_batch_lem zero head h a (x ∷ xs) s d o f = rw s.0
lock_batch_lem (suc n) head h a [] s d o f = rw s.0 (lock_batch-stop n head h)
lock_batch_lem (suc n) head h a (x ∷ xs) s d o f =
    let links = with_lock-links h x 1 in
    let ih =
      lock_batch_lem n head (with_lock h x 1) x xs
        (Seg-links h (with_lock h x 1) x xs head links s.2) (ground arith) (ground arith)
        (AllFree-with_lock h x 1 xs (ground arith) f.1) in
    rw
      (
        s.0,
        lock_batch-step n head x h (with_lock h x 1) (ground arith) (lock_pfn-free h x f.0),
        ih,
        lock_all-cons x (take n xs) h,
      )
      (ap (λ k. some (lock_all (x ∷ take n xs) h, first_or (drop n xs) head, k)) (omega arith))

module _ (h : Heap) (list : PageList) (x : ℕ) (xs : List ℕ) (is : IsList h list.head (x ∷ xs))
    (n : ℕ) where
  abbrev taken : List ℕ
  taken = take (suc n) (x ∷ xs)

  abbrev locked_heap : Heap
  locked_heap = lock_all taken h

  locked-IsList : IsList locked_heap list.head (x ∷ xs)
  locked-IsList = record {
    ring = Seg-links h locked_heap list.head (x ∷ xs) list.head (lock_all-links taken h) is.ring;
    apart = is.apart;
  }

  abbrev batch_result : Batch
  batch_result = record {
    heap =
        set_blink (set_flink locked_heap list.head (first_or (drop n xs) list.head))
          (first_or (drop n xs) list.head) list.head;
    list = change_list_size list (neg64 (length taken));
    first = some x;
    count = length taken;
  }

  first_locked : (locked_heap list.head).flink ≡ x
  first_locked = (lock_all-links taken h list.head).0 ∙ is.ring.0

  batch_result-IsBatch : IsBatch h list (x ∷ xs) (suc n) batch_result
  batch_result-IsBatch =
      let next : ℕ = first_or (drop n xs) list.head in
      record {
        rest = cut-drop locked_heap list.head (suc n) (x ∷ xs) locked-IsList;
        counted = refl;
        starts = λ y ys e. ground arith;
        batch = λ p e.
            let q : x ≡ p = ground arith in
            subst (λ y. along batch_result.heap y (length taken) ≡ taken) (first_locked ∙ q)
              (cut-along locked_heap list.head (suc n) (x ∷ xs) locked-IsList);
        locks = λ q. ground (arith, lock-cut locked_heap list.head next q);
        keeps = λ q. ground (arith, cut-Keeps locked_heap list.head next q);
        elsewhere = λ q m.
            ground
              (arith, cut-elsewhere locked_heap list.head n (x ∷ xs) q, lock_all-links taken h q);
        size = ground arith;
      }

  exclusive_run :
      AllFree h (x ∷ xs) → remove_batch_from_list_head_exclusive list (suc n) h ≡ some batch_result
  unfolding remove_batch_from_list_head_exclusive
  exclusive_run free =
      let ne : ((h list.head).flink == list.head) ≡ false = ground (arith, is.apart, is.ring.0) in
      let nonzero : (length taken == 0) ≡ false = ground arith in
      let run =
        lock_batch_lem (suc n) list.head h list.head (x ∷ xs) is.ring (ground (arith, is.apart))
          (ground (arith, is.apart)) free in
      rw (ne, run, nonzero) (ap (λ y. some (record batch_result { first = some y })) is.ring.0)

empty_run :
    (h : Heap) (list : PageList) (capacity : ℕ)
    → IsList h list.head []
    → remove_batch_from_list_head_exclusive list capacity h
      ≡ some (record { heap = h; list = list; first = none; count = 0 })
unfolding remove_batch_from_list_head_exclusive
empty_run h list capacity is = ground (arith, is.ring)

-- On a list whose pages are all unlocked, with a capacity other than 0, the exclusive batch routine
-- returns: it takes the first `capacity` pages, or all if there are fewer, off the list, and leaves
-- them locked, linked in order from the first page that it reports, with the others still on the
-- list, its size lowered by the number taken, and no other lock, owner or state changed.
pub remove_batch_from_list_head_exclusive_lem :
    (h : Heap) (list : PageList) (xs : List ℕ) (capacity : ℕ)
    → 0 < capacity
    → IsList h list.head xs
    → AllFree h xs
    → (b : Batch) × (remove_batch_from_list_head_exclusive list capacity h ≡ some b)
      × IsBatch h list xs capacity b
remove_batch_from_list_head_exclusive_lem h list xs zero pos is free = absurd (omega arith)
remove_batch_from_list_head_exclusive_lem h list [] (suc n) pos is free = (
  record { heap = h; list = list; first = none; count = 0 },
  empty_run h list (suc n) is,
  record {
    rest = is;
    counted = refl;
    starts = λ x ys e. cc;
    batch = λ p e. cc;
    locks = λ q. refl;
    keeps = λ q. (refl, refl, refl, refl);
    elsewhere = λ q m. (refl, refl);
    size = refl;
  },
)
remove_batch_from_list_head_exclusive_lem h list (x ∷ xs) (suc n) pos is free = (
  batch_result h list x xs is n,
  exclusive_run h list x xs is n free,
  batch_result-IsBatch h list x xs is n,
)
