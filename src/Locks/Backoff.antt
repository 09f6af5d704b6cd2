-- ===== src/Locks/Backoff.antt =====
-- The delays of the spin loops.
use native.Mathlib.Nat.{pow-suc}
use memory_manager.Base.{ℕ, zero, suc, ◌≡◌, ◌^◌, min, arith}
use memory_manager.Locks.{next_backoff}

-- The delay of `lock` after `n` rounds in which the lock was seen taken.
unfoldable pub backoff_after : ℕ → ℕ
unfolding next_backoff
backoff_after zero = 1
backoff_after (suc n) = next_backoff (backoff_after n)

-- The delay of `lock` after `n` rounds in which the lock was seen taken is 2 ^ n, and 64 where that
-- is larger.
pub backoff_after-eq : (n : ℕ) → backoff_after n ≡ min (2 ^ n) 64
unfolding backoff_after next_backoff
backoff_after-eq zero = omega arith
backoff_after-eq (suc n) = rw (pow-suc 2 n) (omega (arith, backoff_after-eq n))
