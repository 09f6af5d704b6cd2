-- ===== src/PageList/Locked.antt =====
-- The routines of page_list.c that take page locks, in the build with DEBUG off. A list's SRW lock
-- is Windows': each attempt to take it is given its outcome, and a wait for it just ends. `none`
-- is a failed ASSERT, or a wait for a page lock that is held and that no other thread gives back.
use memory_manager.Base.{ℕ, Bool, not, Option, some, none, ◌==◌, if◌then◌else◌, ◌>>=◌, ◌>>◌, assert}
use memory_manager.Pfn.{Heap, try_lock_pfn, unlock_pfn}
use memory_manager.PageList.{
  PageList, insert_to_list_tail, remove_page_from_list, splice_to_tail, increment_list_size,
  decrement_list_size,
}
use memory_manager.PageList.Attempts.{Outcome, retry, done, rounds}

-- `insert_page_to_tail`: one round of its `while (TRUE)`.
unfoldable pub insert_page_attempt : PageList → ℕ → Heap → Option (Outcome (Heap × PageList))
insert_page_attempt list pfn h =
    let (h₁, got_head) = try_lock_pfn h list.head in
    if not got_head
    then some (retry h₁)
    else if (h₁ list.head).blink == list.head
    then (do
      h₂ ← unlock_pfn (insert_to_list_tail h₁ list.head pfn) list.head
      some (done (h₂, increment_list_size list)))
    else let blink = (h₁ list.head).blink in
      let (h₂, got_blink) = try_lock_pfn h₁ blink in
      if not got_blink then (do h₃ ← unlock_pfn h₂ list.head; some (retry h₃)) else (do
        h₃ ← unlock_pfn (insert_to_list_tail h₂ list.head pfn) blink
        h₄ ← unlock_pfn h₃ list.head
        some (done (h₄, increment_list_size list)))

unfoldable pub insert_page_to_tail :
    (others : ℕ → Heap → Heap)
    → (fuel : ℕ) → PageList
    → ℕ
    → Heap
    → Option (Outcome (Heap × PageList))
insert_page_to_tail others fuel list pfn h =
    rounds (λ _. insert_page_attempt list pfn) others fuel 0 h

-- `try_pop_from_list`: memory, the list and the page, or NULL.
unfoldable pub try_pop_from_list :
    (shared : Bool) → PageList → Heap → Option (Heap × PageList × Option ℕ)
try_pop_from_list shared list h =
    if not shared
    then some (h, list, none)
    else let (h₁, got_head) = try_lock_pfn h list.head in
      if not got_head
      then some (h₁, list, none)
      else let page = (h₁ list.head).flink in
        if list.head == page
        then (do h₂ ← unlock_pfn h₁ list.head; some (h₂, list, none))
        else let (h₂, got_page) = try_lock_pfn h₁ page in
          if not got_page
          then (do h₃ ← unlock_pfn h₂ list.head; some (h₃, list, none))
          else let flink = (h₂ page).flink in
            if flink == list.head
            then (do
              h₃ ← unlock_pfn (remove_page_from_list h₂ page).0 list.head
              some (h₃, decrement_list_size list, some page))
            else let (h₃, got_flink) = try_lock_pfn h₂ flink in
              if not got_flink
              then (do h₄ ← unlock_pfn h₃ list.head; h₅ ← unlock_pfn h₄ page; some (h₅, list, none))
              else (do
                h₄ ← unlock_pfn (remove_page_from_list h₃ page).0 flink
                h₅ ← unlock_pfn h₄ list.head
                some (h₅, decrement_list_size list, some page))

-- `remove_page_on_soft_fault`: one attempt, with the links that were read before the first one.
unfoldable pub remove_page_attempt :
    (shared : ℕ → Bool) → PageList → (pfn flink blink : ℕ) → ℕ → Heap → Option (Outcome Heap)
remove_page_attempt shared list pfn flink blink n h =
    if not (shared n)
    then some (retry h)
    else let (h₁, got_flink) = try_lock_pfn h flink in
      if not got_flink
      then some (retry h₁)
      else if flink == blink
      then (do
        assert (flink == list.head)
        h₂ ← unlock_pfn (remove_page_from_list h₁ pfn).0 blink
        some (done h₂))
      else let (h₂, got_blink) = try_lock_pfn h₁ blink in
        if not got_blink then (do h₃ ← unlock_pfn h₂ flink; some (retry h₃)) else (do
          h₃ ← unlock_pfn (remove_page_from_list h₂ pfn).0 blink
          h₄ ← unlock_pfn h₃ flink
          some (done h₄))

-- The whole routine, but for what it does to the available count and to an event where the list
-- is the standby list. Where the attempts fail the list's lock is taken exclusively.
unfoldable pub remove_page_on_soft_fault :
    (shared : ℕ → Bool)
    → (others : ℕ → Heap → Heap) → PageList
    → ℕ
    → Heap
    → Option (Heap × PageList)
remove_page_on_soft_fault shared others list pfn h =
    rounds (remove_page_attempt shared list pfn (h pfn).flink (h pfn).blink) others 30 0 h >>= λ o.
    elim o [
      | done h' ↦ some (h', decrement_list_size list)
      | retry h' ↦ some ((remove_page_from_list h' pfn).0, decrement_list_size list)
    ]

-- `insert_list_to_tail_list`: one round of its loop, and the writes behind it.
unfoldable pub insert_list_attempt : PageList → (origin : ℕ) → Heap → Option (Outcome Heap)
insert_list_attempt list origin h =
    let (h₁, got_head) = try_lock_pfn h list.head in
    if not got_head
    then some (retry h₁)
    else let tail = (h₁ list.head).blink in
      if tail == list.head
      then (do h₂ ← unlock_pfn (splice_to_tail h₁ list.head origin) list.head; some (done h₂))
      else let (h₂, got_tail) = try_lock_pfn h₁ tail in
        if not got_tail then (do h₃ ← unlock_pfn h₂ list.head; some (retry h₃)) else (do
          h₃ ← unlock_pfn (splice_to_tail h₂ list.head origin) list.head
          h₄ ← unlock_pfn h₃ tail
          some (done h₄))

unfoldable pub insert_list_to_tail_list :
    (others : ℕ → Heap → Heap) → (fuel : ℕ) → PageList → (origin : ℕ) → Heap → Option (Outcome Heap)
insert_list_to_tail_list others fuel list origin h =
    rounds (λ _. insert_list_attempt list origin) others fuel 0 h
