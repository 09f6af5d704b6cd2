-- ===== src/PageList/Joins.antt =====
-- Joining a page or a list to the end of a list, under contention.
use memory_manager.Base.{
  ℕ, ◌≤◌, ◌<◌, ◌≡◌, ◌≢◌, refl, sym, Bool, true, false, ◌&&◌, arith, ◌==◌, some, ℕ_discrete, List,
  [], ◌∷◌, ◌++◌, has,
}
use memory_manager.Pfn.{Heap}
use memory_manager.Pfn.Lock.{
  with_lock, try_lock_pfn-free, try_lock_pfn-held, unlock_pfn-locked, relock,
}
use memory_manager.PageList.Walk.{with_lock-links}
use memory_manager.PageList.{PageList, insert_to_list_tail, splice_to_tail, increment_list_size}
use memory_manager.PageList.Attempts.{retry, done}
use memory_manager.PageList.Locked.{
  insert_page_attempt, insert_page_to_tail, insert_list_attempt, insert_list_to_tail_list,
}
use memory_manager.PageList.Ring.{IsList}
use memory_manager.PageList.Edit.{insert_to_list_tail_lem}
use memory_manager.PageList.Tries.{found, found-keeps, rounds_first}
use memory_manager.PageList.Commute.{
  splice-with_lock, insert-with_lock, splice-lock, insert-lock, two_locks, two_locks_back,
  locked_now, locked_still,
}

-- The head and the page before it are unlocked.
abbrev pub is_open : PageList → Heap → Bool
is_open list h = (h list.head).lock == 0 && (h (h list.head).blink).lock == 0

module _ (list : PageList) (h : Heap) where
  abbrev head : ℕ
  head = list.head

  abbrev tail : ℕ
  tail = (h list.head).blink

  blink_locked : (with_lock h head 1 head).blink ≡ tail
  blink_locked = (with_lock-links h head 1 head).1

  module _ (origin : ℕ) where
    abbrev spliced : Heap
    spliced = splice_to_tail h head origin

    list-works : is_open list h ≡ true → insert_list_attempt list origin h ≡ some (done spliced)
    unfolding insert_list_attempt
    list-works e = elim (ℕ_discrete tail head) [
      | yes alone ↦
          let same : (tail == head) ≡ true = ground (arith, alone) in
          let free : (spliced head).lock ≡ 0 = ground (arith, e, splice-lock h head origin head) in
          rw
            (
              try_lock_pfn-free h head (ground (arith, e)),
              blink_locked,
              same,
              splice-with_lock h head origin head 1,
              unlock_pfn-locked (with_lock spliced head 1) head (locked_now spliced head),
              relock spliced head free,
            )
            refl
      | no ne ↦
          let differ : (tail == head) ≡ false = ground (arith, ne) in
          let free : (with_lock h head 1 tail).lock ≡ 0 =
            ground (arith, e, locked_still h head tail 1) in
          let free_head : (spliced head).lock ≡ 0 =
            ground (arith, e, splice-lock h head origin head) in
          let free_tail : (spliced tail).lock ≡ 0 =
            ground (arith, e, splice-lock h head origin tail) in
          let l₁ : Heap = with_lock spliced head 1 in
          let l₂ : Heap = with_lock l₁ tail 1 in
          let held_head : (l₂ head).lock ≡ 1 =
            ground (arith, ne, locked_still l₁ tail head 1, locked_now spliced head) in
          let held_tail : (with_lock l₂ head 0 tail).lock ≡ 1 =
            ground (arith, ne, locked_still l₂ head tail 0, locked_now l₁ tail) in
          rw
            (
              try_lock_pfn-free h head (ground (arith, e)),
              blink_locked,
              differ,
              try_lock_pfn-free (with_lock h head 1) tail free,
              splice-with_lock (with_lock h head 1) head origin tail 1,
              splice-with_lock h head origin head 1,
              unlock_pfn-locked l₂ head held_head,
              unlock_pfn-locked (with_lock l₂ head 0) tail held_tail,
              two_locks spliced head tail (λ q. ne (sym q)) free_head free_tail,
            )
            refl
    ]

    list-fails : is_open list h ≡ false → insert_list_attempt list origin h ≡ some (retry h)
    unfolding insert_list_attempt
    list-fails e = elim (ℕ_discrete (h head).lock 0) [
      | no held ↦ rw (try_lock_pfn-held h head held) refl
      | yes free ↦
          let ne : tail ≢ head = ground (arith, e, free) in
          let differ : (tail == head) ≡ false = ground (arith, ne) in
          let held : (with_lock h head 1 tail).lock ≢ 0 =
            ground (arith, e, free, locked_still h head tail 1) in
          rw
            (
              try_lock_pfn-free h head free,
              blink_locked,
              differ,
              try_lock_pfn-held (with_lock h head 1) tail held,
              unlock_pfn-locked (with_lock h head 1) head (locked_now h head),
              relock h head free,
            )
            refl
    ]

  module _ (page : ℕ) where
    abbrev inserted : Heap
    inserted = insert_to_list_tail h head page

    page-works :
        is_open list h ≡ true
        → insert_page_attempt list page h ≡ some (done (inserted, increment_list_size list))
    unfolding insert_page_attempt
    page-works e = elim (ℕ_discrete tail head) [
      | yes alone ↦
          let same : (tail == head) ≡ true = ground (arith, alone) in
          let free : (inserted head).lock ≡ 0 = ground (arith, e, insert-lock h head page head) in
          rw
            (
              try_lock_pfn-free h head (ground (arith, e)),
              blink_locked,
              same,
              insert-with_lock h head page head 1,
              unlock_pfn-locked (with_lock inserted head 1) head (locked_now inserted head),
              relock inserted head free,
            )
            refl
      | no ne ↦
          let differ : (tail == head) ≡ false = ground (arith, ne) in
          let free : (with_lock h head 1 tail).lock ≡ 0 =
            ground (arith, e, locked_still h head tail 1) in
          let free_head : (inserted head).lock ≡ 0 =
            ground (arith, e, insert-lock h head page head) in
          let free_tail : (inserted tail).lock ≡ 0 =
            ground (arith, e, insert-lock h head page tail) in
          let l₁ : Heap = with_lock inserted head 1 in
          let l₂ : Heap = with_lock l₁ tail 1 in
          let held_tail : (l₂ tail).lock ≡ 1 = locked_now l₁ tail in
          let held_head : (with_lock l₂ tail 0 head).lock ≡ 1 = ground (
            arith,
            ne,
            locked_still l₂ tail head 0,
            locked_still l₁ tail head 1,
            locked_now inserted head,
          ) in
          rw
            (
              try_lock_pfn-free h head (ground (arith, e)),
              blink_locked,
              differ,
              try_lock_pfn-free (with_lock h head 1) tail free,
              insert-with_lock (with_lock h head 1) head page tail 1,
              insert-with_lock h head page head 1,
              unlock_pfn-locked l₂ tail held_tail,
              unlock_pfn-locked (with_lock l₂ tail 0) head held_head,
              two_locks_back inserted head tail (λ q. ne (sym q)) free_head free_tail,
            )
            refl
    ]

    page-fails : is_open list h ≡ false → insert_page_attempt list page h ≡ some (retry h)
    unfolding insert_page_attempt
    page-fails e = elim (ℕ_discrete (h head).lock 0) [
      | no held ↦ rw (try_lock_pfn-held h head held) refl
      | yes free ↦
          let ne : tail ≢ head = ground (arith, e, free) in
          let differ : (tail == head) ≡ false = ground (arith, ne) in
          let held : (with_lock h head 1 tail).lock ≢ 0 =
            ground (arith, e, free, locked_still h head tail 1) in
          rw
            (
              try_lock_pfn-free h head free,
              blink_locked,
              differ,
              try_lock_pfn-held (with_lock h head 1) tail held,
              unlock_pfn-locked (with_lock h head 1) head (locked_now h head),
              relock h head free,
            )
            refl
    ]

-- Joining a list to the end of another returns once both the head and the page before it are
-- unlocked at one of its attempts, whatever others do at the waits: from memory as the first such
-- attempt found it, it makes the writes of links alone, and gives its locks back.
pub insert_list_to_tail_list_lem :
    (others : ℕ → Heap → Heap) (k fuel : ℕ) (list : PageList) (origin : ℕ) (h : Heap)
    → k < fuel
    → is_open list (found others 0 k h) ≡ true
    → (j : ℕ) × (j ≤ k)
      × (is_open list (found others 0 j h) ≡ true)
      × (insert_list_to_tail_list others fuel list origin h
          ≡ some (done (splice_to_tail (found others 0 j h) list.head origin)))
unfolding insert_list_to_tail_list
insert_list_to_tail_list_lem others k fuel list origin h lt e =
    rounds_first (insert_list_attempt list origin) (is_open list)
      (λ g. splice_to_tail g list.head origin) (λ g. list-works list g origin)
      (λ g. list-fails list g origin) others k fuel 0 h lt e

insert_page_first :
    (others : ℕ → Heap → Heap) (k fuel : ℕ) (list : PageList) (page : ℕ) (h : Heap)
    → k < fuel
    → is_open list (found others 0 k h) ≡ true
    → (j : ℕ) × (j ≤ k)
      × (is_open list (found others 0 j h) ≡ true)
      × (insert_page_to_tail others fuel list page h
          ≡ some (
              done (
                insert_to_list_tail (found others 0 j h) list.head page,
                increment_list_size list,
              )))
unfolding insert_page_to_tail
insert_page_first others k fuel list page h lt e =
    rounds_first (insert_page_attempt list page) (is_open list)
      (λ g. (insert_to_list_tail g list.head page, increment_list_size list))
      (λ g. page-works list g page) (λ g. page-fails list g page) others k fuel 0 h lt e

-- The page is on no list that it could meet on this one.
pub record IsApart (list : PageList) (page : ℕ) (h : Heap) : Type 0 where
  pub pages : List ℕ
  pub is : IsList h list.head pages
  pub off : has page (list.head ∷ pages) ≡ false

-- While others act at the waits, short of breaking the list or putting the page on it: inserting a
-- page at the tail returns once the head and the page before it are unlocked at one of its
-- attempts. The page is then at the end of the list as that attempt found it, behind the other
-- pages in order, no lock has changed, and the size is raised by one.
pub insert_page_to_tail_lem :
    (others : ℕ → Heap → Heap) (k fuel : ℕ) (list : PageList) (page : ℕ) (h : Heap)
    → IsApart list page h
    → ((n : ℕ) (g : Heap) → IsApart list page g → IsApart list page (others n g))
    → k < fuel
    → is_open list (found others 0 k h) ≡ true
    → (j : ℕ) × (g : Heap) × (pages : List ℕ) × (j ≤ k)
      × (insert_page_to_tail others fuel list page h ≡ some (done (g, increment_list_size list)))
      × IsList (found others 0 j h) list.head pages
      × IsList g list.head (pages ++ page ∷ [])
      × ((q : ℕ) → (g q).lock ≡ (found others 0 j h q).lock)
insert_page_to_tail_lem others k fuel list page h apart kept lt e =
    let (j, le, opened, run) = insert_page_first others k fuel list page h lt e in
    let at = found-keeps (IsApart list page) others kept 0 j h apart in
    let found_heap : Heap = found others 0 j h in
    (
      j,
      insert_to_list_tail found_heap list.head page,
      at.pages,
      le,
      run,
      at.is,
      (insert_to_list_tail_lem found_heap list.head page at.pages at.is at.off).0,
      insert-lock found_heap list.head page,
    )
