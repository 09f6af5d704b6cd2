-- ===== src/PageList.antt =====
-- data_structures/page_list.h and page_list.c: doubly linked rings of page frame records through a
-- list head, in the memory of Pfn.antt. This file has the routines that move pointers; the caller
-- holds the locks that they need.
pub mod Ring
pub mod Edit
pub mod Splice
pub mod Walk
pub mod Cut
pub mod Attempts
pub mod Locked
pub mod Tries
pub mod Commute
pub mod Joins
pub mod Publish
pub mod Batch
pub mod Exclusive
pub mod Widen
pub mod Ends
pub mod Shared
pub mod FirstTry
pub mod Queue
pub mod OnFault
use memory_manager.Base.{ℕ, ◌+◌, ◌-◌, ◌%◌, ◌^◌, Bool, ◌==◌, update}
use memory_manager.Pfn.{Pfn, Heap}

-- The list head's address and `list_size`, a LONG64 kept as its 64 bits. (The SRW lock is
-- Windows'; the routines that take it are given the outcome of their attempts.)
pub record PageList : Type 0 where
  pub head : ℕ
  pub list_size : ℕ

unfoldable pub set_flink : Heap → ℕ → ℕ → Heap
unfolding update
set_flink h p to = update h p (record (h p) { flink = to })

unfoldable pub set_blink : Heap → ℕ → ℕ → Heap
unfolding update
set_blink h p to = update h p (record (h p) { blink = to })

unfoldable pub initialize_list_head : Heap → ℕ → Heap
unfolding set_flink set_blink
initialize_list_head h head = set_flink (set_blink h head head) head head

unfoldable pub is_page_list_empty : Heap → PageList → Bool
is_page_list_empty h list = (h list.head).flink == list.head

-- `InterlockedAdd64` on the size; a negative amount is given as its 64 bits.
unfoldable pub change_list_size : PageList → ℕ → PageList
change_list_size list amt = record list { list_size = (list.list_size + amt) % 2 ^ 64 }

abbrev pub neg64 : ℕ → ℕ
neg64 n = (2 ^ 64 - n) % 2 ^ 64

unfoldable pub increment_list_size : PageList → PageList
unfolding change_list_size
increment_list_size list = change_list_size list 1

unfoldable pub decrement_list_size : PageList → PageList
unfolding change_list_size
decrement_list_size list = change_list_size list (neg64 1)

unfoldable pub insert_to_list_tail : Heap → (head page : ℕ) → Heap
unfolding set_flink set_blink
insert_to_list_tail h head page =
    let blink = (h head).blink in
    let h₁ = set_flink h page head in
    let h₂ = set_blink h₁ page blink in let h₃ = set_flink h₂ blink page in set_blink h₃ head page

unfoldable pub remove_page_from_list : Heap → ℕ → Heap × Bool
unfolding set_flink set_blink
remove_page_from_list h page =
    let flink = (h page).flink in
    let blink = (h page).blink in
    let h₁ = set_flink h blink flink in (set_blink h₁ flink blink, flink == blink)

unfoldable pub remove_from_head_of_list : Heap → ℕ → Heap × ℕ
unfolding set_flink set_blink
remove_from_head_of_list h head =
    let page = (h head).flink in
    let flink = (h page).flink in let h₁ = set_flink h head flink in (set_blink h₁ flink head, page)

-- The pointer writes of `insert_list_to_tail_list`, on the two heads.
unfoldable pub splice_to_tail : Heap → (destination origin : ℕ) → Heap
unfolding set_flink set_blink
splice_to_tail h head origin =
    let first = (h origin).flink in
    let last = (h origin).blink in
    let tail = (h head).blink in
    let h₁ = set_flink h tail first in
    let h₂ = set_blink h₁ first tail in let h₃ = set_flink h₂ last head in set_blink h₃ head last
