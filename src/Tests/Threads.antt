-- ===== src/Tests/Threads.antt =====
-- Two threads at one lock.
use memory_manager.Base.{ℕ, ◌≡◌, refl, true, arith, update}
use memory_manager.Locks.{locked}
use memory_manager.Locks.Mutex.{
  spin, exchange, inside, call_lock, see_free, lock_exchange, Threads, pick, Reach, start, later,
  idle_threads, holds, mutual_exclusion,
}
use memory_manager.Locks.Progress.{CanEnter, no_deadlock}

abbrev calling : Threads
calling = record { semaphore = 0; pc = update idle_threads.pc 0 (spin 1) }

abbrev seen : Threads
seen = record { semaphore = 0; pc = update calling.pc 0 (exchange 1) }

abbrev entered : Threads
entered = record { semaphore = 1; pc = update seen.pc 0 inside }

entered-Reach : Reach 2 entered
unfolding update
entered-Reach =
    later {t = seen}
      (later {t = calling} (later start (pick 0 (omega arith) call_lock))
        (pick 0 (omega arith) (see_free (omega arith))))
      (pick 0 (omega arith) lock_exchange)

first_holds : holds (entered.pc 0) ≡ true
unfolding update
first_holds = refl

abbrev first_thread : ℕ
first_thread = 0

mutual_exclusion_example : (first_thread ≡ first_thread) × (entered.semaphore ≡ locked)
mutual_exclusion_example = mutual_exclusion entered-Reach 0 0 first_holds first_holds

no_deadlock_example : CanEnter 2 entered 1
no_deadlock_example = no_deadlock 1 (omega arith) entered-Reach
