-- ===== src/Locks.antt =====
-- data_structures/locks.h and locks.c: the byte lock, a 16-bit semaphore that one interlocked
-- instruction takes and another releases. `none` is a failed ASSERT.
pub mod Backoff
pub mod Mutex
pub mod Progress
use memory_manager.Base.{
  ℕ, suc, zero, ◌+◌, ◌-◌, ◌*◌, ◌%◌, ◌^◌, min, Bool, true, false, Option, some, ◌==◌, if◌then◌else◌,
  ◌>>=◌, ◌>>◌, assert,
}
use memory_manager.Config.{max_wait_time_before_retry}

abbrev pub unlocked : ℕ
unlocked = 0

abbrev pub locked : ℕ
locked = 1

-- `InterlockedCompareExchange16`: the new value and the one that it returns.
abbrev pub compare_exchange : (value exchange comparand : ℕ) → ℕ × ℕ
compare_exchange value exchange comparand = (if value == comparand then exchange else value, value)

-- `try_lock`, with no other thread between its read and its exchange.
unfoldable pub try_lock : ℕ → ℕ × Bool
try_lock semaphore =
    if semaphore == locked
    then (semaphore, false)
    else let (s, original) = compare_exchange semaphore locked unlocked in (s, original == unlocked)

-- `InterlockedDecrement16` behind an assertion.
unfoldable pub unlock : ℕ → Option ℕ
unlock semaphore = do assert (semaphore == locked); some ((semaphore + 2 ^ 16 - 1) % 2 ^ 16)

-- The delay of `lock` after one more round in which the lock was seen taken.
unfoldable pub next_backoff : ℕ → ℕ
next_backoff backoff = min (backoff * 2) max_wait_time_before_retry

-- `wait`: how many times it yields the processor.
unfoldable pub wait_rounds : ℕ → ℕ
wait_rounds time = min time max_wait_time_before_retry
