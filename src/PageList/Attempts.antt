-- ===== src/PageList/Attempts.antt =====
-- The loops of page_list.c that try for locks, give up what they hold and try again. An attempt is
-- run with no other thread in between; what others do while the thread waits between two attempts
-- is a parameter, a change of memory for each wait.
use memory_manager.Base.{ℕ, zero, suc, ◌+◌, Option, some, ◌>>=◌}
use memory_manager.Pfn.{Heap}

pub data Outcome (A : Type 0) : Type 0 where
  retry : Heap → Outcome A
  done : A → Outcome A

-- At most `left` attempts, numbered from `n` on. It ends with `retry` if every attempt failed.
unfoldable pub rounds :
    {A : Type 0}
    → (ℕ → Heap → Option (Outcome A))
    → (others : ℕ → Heap → Heap) → (left n : ℕ) → Heap
    → Option (Outcome A)
rounds attempt others zero n h = some (retry h)
rounds attempt others (suc left) n h = attempt n h >>= λ o. elim o [
  | done a ↦ some (done a)
  | retry h' ↦ rounds attempt others left (n + 1) (others n h')
]
