-- ===== src/PageList/FirstTry.antt =====
-- `remove_batch_from_list_head` when its first attempt finds the head and the first pages unlocked.
use memory_manager.Base.{
  ℕ, suc, ◌+◌, ◌-◌, ◌≤◌, ◌<◌, ◌≡◌, refl, ◌∙◌, ap, true, false, Bool, List, [], ◌∷◌, some, none,
  arith, update, ◌==◌, take,
}
use memory_manager.Pfn.{Heap}
use memory_manager.Pfn.Lock.{with_lock, try_lock_pfn-free, unlock_pfn-locked, relock}
use memory_manager.PageList.{PageList, set_flink, set_blink, neg64, change_list_size}
use memory_manager.PageList.Ring.{IsList}
use memory_manager.PageList.Walk.{with_lock-links, with_lock-lock, AllFree}
use memory_manager.PageList.Attempts.{done, rounds}
use memory_manager.PageList.Batch.{
  Batch, two, result, batch_attempt, finish_batch, remove_batch_from_list_head,
}
use memory_manager.PageList.Exclusive.{IsBatch}
use memory_manager.PageList.Widen.{Widened, widen_batch_lem}
use memory_manager.PageList.Cut.{cut, lock-cut}
use memory_manager.PageList.Shared.{three_locked, three-IsList, two-IsBatch, attempt-two}

module _ (shared : ℕ → Bool) (others : ℕ → Heap → Heap) (list : PageList) (capacity : ℕ)
    (h : Heap) where
  -- An attempt that ends with a result ends the routine with it.
  first_result :
      (b : Batch)
      → batch_attempt shared list 0 h ≡ some (done (result b))
      → remove_batch_from_list_head shared others list capacity h ≡ some b
  unfolding remove_batch_from_list_head rounds
  first_result b e = rw e refl

  first_two :
      (h' : Heap) (first next : ℕ)
      → batch_attempt shared list 0 h ≡ some (done (two h' first next))
      → remove_batch_from_list_head shared others list capacity h
        ≡ finish_batch list capacity h' first next
  unfolding remove_batch_from_list_head rounds
  first_two h' first next e = rw e refl

module _ (shared : ℕ → Bool) (list : PageList) (h : Heap) (open_now : shared 0 ≡ true)
    (free_head : (h list.head).lock ≡ 0) where
  attempt_empty :
      IsList h list.head []
      → batch_attempt shared list 0 h
        ≡ some (done (result (record { heap = h; list = list; first = none; count = 0 })))
  unfolding batch_attempt
  attempt_empty is =
      let at : (with_lock h list.head 1 list.head).flink ≡ list.head =
        (with_lock-links h list.head 1 list.head).0 ∙ is.ring.0 in
      let held : (with_lock h list.head 1 list.head).lock ≡ 1 =
        ground (arith, with_lock-lock h list.head 1 list.head) in
      let same : (list.head == list.head) ≡ true = ground arith in
      rw
        (
          open_now,
          try_lock_pfn-free h list.head free_head,
          at,
          same,
          unlock_pfn-locked (with_lock h list.head 1) list.head held,
          relock h list.head free_head,
        )
        refl

  module _ (x : ℕ) (is : IsList h list.head (x ∷ [])) (free_x : (h x).lock ≡ 0) where
    abbrev one_locked : Heap
    one_locked = with_lock (with_lock h list.head 1) x 1

    abbrev one_left : Heap
    one_left = with_lock (cut one_locked list.head list.head) list.head 0

    attempt_one :
        batch_attempt shared list 0 h
        ≡ some (
            done (
              result (record {
                heap = one_left;
                list = change_list_size list (neg64 1);
                first = some x;
                count = 1;
              })))
    unfolding batch_attempt
    attempt_one =
        let l₁ : Heap = with_lock h list.head 1 in
        let at_x : (l₁ list.head).flink ≡ x =
          (with_lock-links h list.head 1 list.head).0 ∙ is.ring.0 in
        let at_y : (one_locked x).flink ≡ list.head =
          (with_lock-links l₁ x 1 x).0 ∙ (with_lock-links h list.head 1 x).0 ∙ is.ring.2.0 in
        let f₂ : (l₁ x).lock ≡ 0 =
          ground (arith, is.apart, with_lock-lock h list.head 1 x, free_x) in
        let nx : (x == list.head) ≡ false = ground (arith, is.apart) in
        let same : (list.head == list.head) ≡ true = ground arith in
        let held : (cut one_locked list.head list.head list.head).lock ≡ 1 = ground (
          arith,
          lock-cut one_locked list.head list.head list.head,
          with_lock-lock l₁ x 1 list.head,
          with_lock-lock h list.head 1 list.head,
        ) in
        rw
          (
            open_now,
            try_lock_pfn-free h list.head free_head,
            at_x,
            nx,
            try_lock_pfn-free l₁ x f₂,
            at_y,
            same,
            unlock_pfn-locked (cut one_locked list.head list.head) list.head held,
          )
          refl

    one_left-IsBatch : IsBatch h list (x ∷ []) 1 (record {
      heap = one_left;
      list = change_list_size list (neg64 1);
      first = some x;
      count = 1;
    })
    unfolding set_flink set_blink update
    one_left-IsBatch = record {
      rest = record { ring = (ground arith, ground arith); apart = refl };
      counted = refl;
      starts = λ z zs e. ground arith;
      batch = λ p e. ground arith;
      locks = λ q. ground (arith, is.apart, free_head, free_x);
      keeps = λ q. ground arith;
      elsewhere = λ q m. ground arith;
      size = refl;
    }

one_more :
    (g : Heap) (next k : ℕ) (wrapped : Bool)
    → ◌≡◌ {A = Heap × ℕ × Bool × ℕ} (g, next, wrapped, 1 + k) (g, next, wrapped, suc k)
one_more g next k wrapped = ap (λ n. (g, next, wrapped, n)) (omega arith)

module _ (shared : ℕ → Bool) (others : ℕ → Heap → Heap) (list : PageList) (capacity : ℕ) (h : Heap)
    (x y : ℕ) (ys : List ℕ) (open_now : shared 0 ≡ true) (pos : 0 < capacity)
    (is : IsList h list.head (x ∷ y ∷ ys)) (free_head : (h list.head).lock ≡ 0)
    (free_x : (h x).lock ≡ 0) (free_y : (h y).lock ≡ 0) where
  abbrev locked : Heap
  locked = three_locked h list x y ys is free_head free_x free_y

  from_two :
      Widened (capacity - 1) list.head y 1 ys locked
      → (n : ℕ) × (b : Batch) × (remove_batch_from_list_head shared others list capacity h ≡ some b)
        × (1 ≤ n)
        × (n ≤ capacity)
        × IsBatch h list (x ∷ y ∷ ys) n b
  from_two w =
      let (b, ended, batch) =
        two-IsBatch h list x y ys is free_head free_x free_y w.m capacity (w.run ∙ one_more _ _ _ _)
          w.free in
      (
        suc w.m,
        b,
        first_two shared others list capacity h locked x y
              (attempt-two h list x y ys is free_head free_x free_y shared open_now)
            ∙ ended,
        omega arith,
        omega (arith, w.few, pos),
        batch,
      )

pub remove_batch_from_list_head-nil :
    (shared : ℕ → Bool) (others : ℕ → Heap → Heap) (list : PageList) (capacity : ℕ) (h : Heap)
    → shared 0 ≡ true
    → IsList h list.head []
    → (h list.head).lock ≡ 0
    → remove_batch_from_list_head shared others list capacity h
      ≡ some (record { heap = h; list = list; first = none; count = 0 })
remove_batch_from_list_head-nil shared others list capacity h e is free =
    first_result shared others list capacity h _ (attempt_empty shared list h e free is)

-- The list is unlocked exclusively, and its head, its first and its second page are unlocked, when
-- the batch routine tries for the first time; pages further on may be locked by others. Then the
-- routine returns: for some number n, at least one and at most the capacity wanted, what it leaves is a
-- batch of the first n pages of the list, all locked and in order, with the rest of the list
-- intact and no lock of another page changed.
pub remove_batch_from_list_head_lem :
    (shared : ℕ → Bool) (others : ℕ → Heap → Heap) (list : PageList) (capacity : ℕ) (h : Heap)
    (xs : List ℕ)
    → shared 0 ≡ true
    → 0 < capacity
    → IsList h list.head xs
    → (h list.head).lock ≡ 0
    → AllFree h (take 2 xs)
    → (n : ℕ) × (b : Batch) × (remove_batch_from_list_head shared others list capacity h ≡ some b)
      × (1 ≤ n)
      × (n ≤ capacity)
      × IsBatch h list xs n b
remove_batch_from_list_head_lem shared others list capacity h [] e pos is free_head free = (
  1,
  record { heap = h; list = list; first = none; count = 0 },
  first_result shared others list capacity h _ (attempt_empty shared list h e free_head is),
  omega arith,
  omega (arith, pos),
  record {
    rest = is;
    counted = refl;
    starts = λ z zs e. ground arith;
    batch = λ p e. ground arith;
    locks = λ q. refl;
    keeps = λ q. ground arith;
    elsewhere = λ q m. (refl, refl);
    size = refl;
  },
)
remove_batch_from_list_head_lem shared others list capacity h (x ∷ []) e pos is free_head free = (
  1,
  record {
    heap = one_left shared list h e free_head x is free.0;
    list = change_list_size list (neg64 1);
    first = some x;
    count = 1;
  },
  first_result shared others list capacity h _ (attempt_one shared list h e free_head x is free.0),
  omega arith,
  omega (arith, pos),
  one_left-IsBatch shared list h e free_head x is free.0,
)
remove_batch_from_list_head_lem shared others list capacity h (x ∷ y ∷ ys) e pos is free_head free =
    let three = three-IsList h list x y ys is free_head free.0 free.1.0 in
    from_two shared others list capacity h x y ys e pos is free_head free.0 free.1.0 (
      widen_batch_lem (capacity - 1) list.head y 1 ys _ three.ring.2.2 (ground (arith, three.apart))
        (ground (arith, three.apart)))
