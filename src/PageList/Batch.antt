-- ===== src/PageList/Batch.antt =====
-- The two routines that take a batch of pages from the head of a list and leave them locked.
use memory_manager.Base.{
  ℕ, zero, suc, ◌+◌, ◌-◌, Bool, true, false, not, Option, some, none, ◌==◌, if◌then◌else◌, ◌>>=◌,
}
use memory_manager.Pfn.{Heap, try_lock_pfn, lock_pfn, unlock_pfn}
use memory_manager.PageList.{PageList, set_flink, set_blink, change_list_size, neg64}
use memory_manager.PageList.Attempts.{Outcome, retry, done, rounds}

-- Memory, the list, `*address_of_first_page` where it was written, and the number of pages.
pub record Batch : Type 0 where
  pub heap : Heap
  pub list : PageList
  pub first : Option ℕ
  pub count : ℕ

-- The loop of the exclusive routine, with the pages still wanted: memory, the page it stops at,
-- and the number of pages it has locked.
unfoldable pub lock_batch : (wanted : ℕ) → (list_head pfn : ℕ) → Heap → Option (Heap × ℕ × ℕ)
lock_batch zero list_head pfn h = some (h, pfn, 0)
lock_batch (suc wanted) list_head pfn h = elim (pfn == list_head) [
  | true ↦ some (h, pfn, 0)
  | false ↦ lock_pfn h pfn >>= λ h'.
      lock_batch wanted list_head (h' pfn).flink h' >>= λ r. some (r.0, r.1, r.2 + 1)
]

unfoldable pub remove_batch_from_list_head_exclusive :
    PageList → (capacity : ℕ) → Heap → Option Batch
remove_batch_from_list_head_exclusive list capacity h =
    let batch_first = (h list.head).flink in
    if batch_first == list.head
    then some (record { heap = h; list = list; first = none; count = 0 })
    else lock_batch capacity list.head batch_first h >>= λ r.
        if r.2 == 0
        then some (record { heap = r.0; list = list; first = none; count = 0 })
        else some (record {
          heap = set_blink (set_flink r.0 list.head r.1) r.1 list.head;
          list = change_list_size list (neg64 r.2);
          first = some batch_first;
          count = r.2;
        })

-- What an attempt of the shared routine ends with: a result, or the first two pages locked.
pub data Start : Type 0 where
  result : Batch → Start
  two : Heap → (first next : ℕ) → Start

unfoldable pub batch_attempt : (shared : ℕ → Bool) → PageList → ℕ → Heap → Option (Outcome Start)
batch_attempt shared list n h =
    if not (shared n)
    then some (retry h)
    else let (h₁, got_head) = try_lock_pfn h list.head in
      if not got_head
      then some (retry h₁)
      else let first_page = (h₁ list.head).flink in
        if first_page == list.head
        then (do
          h₂ ← unlock_pfn h₁ list.head
          some (done (result (record { heap = h₂; list = list; first = none; count = 0 }))))
        else let (h₂, got_first) = try_lock_pfn h₁ first_page in
          if not got_first
          then (do h₃ ← unlock_pfn h₂ list.head; some (retry h₃))
          else let next_page = (h₂ first_page).flink in
            if next_page == list.head
            then (do
              h₃ ←
                  unlock_pfn (set_blink (set_flink h₂ list.head list.head) list.head list.head)
                    list.head
              some (
                  done (
                    result (record {
                      heap = h₃;
                      list = change_list_size list (neg64 1);
                      first = some first_page;
                      count = 1;
                    }))))
            else let (h₃, got_next) = try_lock_pfn h₂ next_page in
              if not got_next
              then (do h₄ ← unlock_pfn h₃ list.head; h₅ ← unlock_pfn h₄ first_page; some (retry h₅))
              else some (done (two h₃ first_page next_page))

-- The loop that widens the batch, with the pages still wanted: memory, the page that stays in
-- front of the list, whether that is the head, and the number of pages.
unfoldable pub widen_batch :
    (wanted : ℕ) → (list_head next_page look_ahead batched : ℕ) → Heap → Heap × ℕ × Bool × ℕ
widen_batch zero list_head next_page look_ahead batched h = (h, next_page, false, batched)
widen_batch (suc wanted) list_head next_page look_ahead batched h = elim (look_ahead == list_head) [
  | true ↦ (h, list_head, true, batched + 1)
  | false ↦
      let (h', got) = try_lock_pfn h look_ahead in
      let more = widen_batch wanted list_head look_ahead (h' look_ahead).flink (batched + 1) h' in
      if got then more else (h', next_page, false, batched)
]

-- The part behind the attempts.
unfoldable pub finish_batch : PageList → (capacity : ℕ) → Heap → (first next : ℕ) → Option Batch
finish_batch list capacity h first next =
    let (h₁, next_page, wrapped_around, n) =
      widen_batch (capacity - 1) list.head next (h next).flink 1 h in
    do
      h₂ ← unlock_pfn (set_blink (set_flink h₁ list.head next_page) next_page list.head) list.head
      h₃ ← (if wrapped_around then some h₂ else unlock_pfn h₂ next_page)
      some (record {
        heap = h₃;
        list = change_list_size list (neg64 n);
        first = some first;
        count = n;
      })

-- After 30 failed attempts the source calls the exclusive routine, without taking the list's lock.
unfoldable pub remove_batch_from_list_head :
    (shared : ℕ → Bool)
    → (others : ℕ → Heap → Heap) → PageList
    → (capacity : ℕ) → Heap
    → Option Batch
remove_batch_from_list_head shared others list capacity h =
    rounds (batch_attempt shared list) others 30 0 h >>= λ o. elim o [
      | retry h' ↦ remove_batch_from_list_head_exclusive list capacity h'
      | done (result b) ↦ some b
      | done (two h' first next) ↦ finish_batch list capacity h' first next
    ]
