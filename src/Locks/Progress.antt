-- ===== src/Locks/Progress.antt =====
-- A thread that wants the byte lock can always still get it.
use memory_manager.Base.{
  ℕ, ◌+◌, ◌-◌, ◌%◌, ◌^◌, ◌<◌, ◌≡◌, refl, inl, inr, true, false, arith, update,
}
use memory_manager.Locks.Mutex.{
  Pc, outside, spin, exchange, tried, inside, leaving, Move, call_lock, see_free, lock_exchange,
  try_exchange, check, release, Threads, Step, pick, Reach, start, later, holds, IsFree,
  IsConsistent, Reach-IsConsistent, keep-IsConsistent, give-IsFree, holder,
}

-- Any number of steps.
pub data Run (n : ℕ) : Threads → Threads → Type 0 where
  stay : {t : Threads} → Run n t t
  go : {t u v : Threads} → Step n t u → Run n u v → Run n t v

-- A run to a state in which thread `i` has the lock.
abbrev pub CanEnter : ℕ → Threads → ℕ → Type 0
CanEnter n t i = (u : Threads) × Run n t u × (u.pc i ≡ inside)

abbrev moved : Threads → ℕ → Pc → Threads
moved t i p = record { semaphore = t.semaphore; pc = update t.pc i p }

moved-IsFree : (t : Threads) (i : ℕ) (p : Pc) → holds p ≡ false → IsFree t → IsFree (moved t i p)
unfolding update
moved-IsFree t i p e free = (free.0, λ j. ground (arith, e, free.1 j))

moved-pc : (t : Threads) (i : ℕ) (p : Pc) → (moved t i p).pc i ≡ p
unfolding update
moved-pc t i p = ground arith

pick_from :
    {n : ℕ} (t : Threads) (i : ℕ) (p : Pc) {s : ℕ} {q : Pc}
    → i < n
    → t.pc i ≡ p
    → Move t.semaphore p s q
    → Step n t (record { semaphore = s; pc = update t.pc i q })
pick_from t i p lt e m = pick i lt (rw e m)

module _ {n : ℕ} (i : ℕ) (lt : i < n) where
  enter_by : (t : Threads) (p : Pc) → IsFree t → t.pc i ≡ p → Move 0 p 1 inside → CanEnter n t i
  enter_by t p free e m = (
    record { semaphore = 1; pc = update t.pc i inside },
    go (pick_from t i p lt e (let z : t.semaphore ≡ 0 = free.0 in rw z m)) stay,
    moved-pc t i inside,
  )

  go_on :
      (t : Threads) (p q : Pc)
      → t.pc i ≡ p
      → Move t.semaphore p t.semaphore q
      → CanEnter n (moved t i q) i
      → CanEnter n t i
  go_on t p q e m (u, run, there) = (u, go (pick_from t i p lt e m) run, there)

  from_spin : (t : Threads) (b : ℕ) → IsFree t → t.pc i ≡ spin b → CanEnter n t i
  from_spin t b free e = go_on t (spin b) (exchange b) e (see_free (ground (arith, free.0))) (
      enter_by (moved t i (exchange b)) (exchange b) (moved-IsFree t i (exchange b) refl free)
        (moved-pc t i (exchange b)) lock_exchange)

  from_free : (t : Threads) (p : Pc) → IsFree t → t.pc i ≡ p → CanEnter n t i
  from_free t (exchange b) free e = enter_by t (exchange b) free e lock_exchange
  from_free t tried free e = enter_by t tried free e try_exchange
  from_free t (spin b) free e = from_spin t b free e
  from_free t outside free e = go_on t outside (spin 1) e call_lock (
      from_spin (moved t i (spin 1)) 1 (moved-IsFree t i (spin 1) refl free)
        (moved-pc t i (spin 1)))
  from_free t inside free e = (t, stay, e)
  from_free t leaving free e = absurd (ground (arith, free.1 i, e))

  -- The thread that has the lock gives it back.
  from_leaving : (t : Threads) (h : ℕ) → h < n → t.pc h ≡ leaving → IsConsistent t → CanEnter n t i
  from_leaving t h lh e c =
      let freed : Threads = record {
        semaphore = (t.semaphore + 2 ^ 16 - 1) % 2 ^ 16;
        pc = update t.pc h outside;
      } in
      let (u, run, there) =
        from_free freed (freed.pc i) (give-IsFree t h outside (ground (arith, e)) refl c) refl in
      (u, go (pick_from t h leaving lh e release) run, there)

  from_inside : (t : Threads) (h : ℕ) → h < n → t.pc h ≡ inside → IsConsistent t → CanEnter n t i
  from_inside t h lh e c =
      let by = holder t h (ground (arith, e)) c in
      let (u, run, there) =
        from_leaving (moved t h leaving) h lh (moved-pc t h leaving)
          (keep-IsConsistent t h leaving (ground (arith, e)) c) in
      (u, go (pick_from t h inside lh e (check by.0)) run, there)

  from_held :
      (t : Threads) (h : ℕ) (p : Pc)
      → h < n
      → t.pc h ≡ p
      → holds p ≡ true
      → IsConsistent t
      → CanEnter n t i
  from_held t h inside lh e _ c = from_inside t h lh e c
  from_held t h leaving lh e _ c = from_leaving t h lh e c
  from_held t h outside lh e b c = cc
  from_held t h (spin _) lh e b c = cc
  from_held t h (exchange _) lh e b c = cc
  from_held t h tried lh e b c = cc

  from_consistent :
      (t : Threads) → ((h : ℕ) → holds (t.pc h) ≡ true → h < n) → IsConsistent t → CanEnter n t i
  from_consistent t named (inl free) = from_free t (t.pc i) free refl
  from_consistent t named (inr (h, by)) =
      from_held t h (t.pc h) (named h by.1) refl by.1 (inr (h, by))

-- A thread that has the lock is one of the threads.
holds-lt : {n : ℕ} {t : Threads} → Reach n t → (h : ℕ) → holds (t.pc h) ≡ true → h < n
unfolding update
holds-lt start h e = cc
holds-lt (later r (pick i lt move)) h e = ground (arith, holds-lt r h)

-- No state that the threads can reach is a deadlock for any of them: from each state that some
-- interleaving of their calls reaches, and for each thread, the threads' steps can go on so that
-- this thread has the lock.
pub no_deadlock : {n : ℕ} {t : Threads} (i : ℕ) → i < n → Reach n t → CanEnter n t i
no_deadlock {t} i lt r = from_consistent i lt t (holds-lt r) (Reach-IsConsistent r)
