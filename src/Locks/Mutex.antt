-- ===== src/Locks/Mutex.antt =====
-- Many threads at one semaphore, a shared access at a time: `lock`, `try_lock` and `unlock` of
-- data_structures/locks.c, interleaved in any order.
use memory_manager.Base.{
  ℕ, ◌+◌, ◌-◌, ◌%◌, ◌^◌, ◌<◌, ◌≡◌, ◌≢◌, refl, ◌∙◌, sym, ◌⊎◌, inl, inr, Bool, true, false, arith,
  ◌==◌, if◌then◌else◌, update,
}
use memory_manager.Locks.{compare_exchange, locked, unlocked, next_backoff}

-- Where a thread stands, with the local variables that are live there.
pub data Pc : Type 0 where
  outside : Pc
  spin : (backoff : ℕ) → Pc  -- head of the loop of `lock`
  exchange : (backoff : ℕ) → Pc  -- before the exchange of `lock`
  tried : Pc  -- before the exchange of `try_lock`
  inside : Pc  -- the caller has the lock
  leaving : Pc  -- in `unlock`, behind its assertion

pub data Move (s : ℕ) : Pc → ℕ → Pc → Type 0 where
  call_lock : Move s outside s (spin 1)
  see_locked : {b : ℕ} → s ≡ locked → Move s (spin b) s (exchange (next_backoff b))
  see_free : {b : ℕ} → s ≢ locked → Move s (spin b) s (exchange b)
  lock_exchange :
      {b : ℕ}
      → Move s
          (exchange b)
          (compare_exchange s locked unlocked).0
          (if (compare_exchange s locked unlocked).1 == unlocked then inside else spin b)
  try_locked : s ≡ locked → Move s outside s outside
  try_free : s ≢ locked → Move s outside s tried
  try_exchange :
      Move s tried
        (compare_exchange s locked unlocked).0
        (if (compare_exchange s locked unlocked).1 == unlocked then inside else outside)
  check : s ≡ locked → Move s inside s leaving
  release : Move s leaving ((s + 2 ^ 16 - 1) % 2 ^ 16) outside

-- An index from `n` on names no thread and stays outside.
pub record Threads : Type 0 where
  pub semaphore : ℕ
  pub pc : ℕ → Pc

pub data Step (n : ℕ) (t : Threads) : Threads → Type 0 where
  pick :
      (i : ℕ) {s : ℕ} {p : Pc}
      → i < n
      → Move t.semaphore (t.pc i) s p
      → Step n t (record { semaphore = s; pc = update t.pc i p })

abbrev pub idle_threads : Threads
idle_threads = record { semaphore = unlocked; pc = λ _. outside }

pub data Reach (n : ℕ) : Threads → Type 0 where
  start : Reach n idle_threads
  later : {t u : Threads} → Reach n t → Step n t u → Reach n u

abbrev pub holds : Pc → Bool
holds inside = true
holds leaving = true
holds _ = false

-- The semaphore is 0 and no thread has the lock, or it is 1 and just one thread has it.
abbrev pub IsHeldBy : Threads → ℕ → Type 0
IsHeldBy t h =
    (t.semaphore ≡ locked) × (holds (t.pc h) ≡ true) × ((i : ℕ) → holds (t.pc i) ≡ true → i ≡ h)

abbrev pub IsFree : Threads → Type 0
IsFree t = (t.semaphore ≡ unlocked) × ((i : ℕ) → holds (t.pc i) ≡ false)

abbrev pub IsConsistent : Threads → Type 0
IsConsistent t = IsFree t ⊎ ((h : ℕ) × IsHeldBy t h)

-- A move that neither takes nor gives back the lock.
pub keep-IsConsistent :
    (t : Threads) (i : ℕ) (p : Pc)
    → holds p ≡ holds (t.pc i)
    → IsConsistent t
    → IsConsistent (record { semaphore = t.semaphore; pc = update t.pc i p })
unfolding update
keep-IsConsistent t i p e (inl (s, none_holds)) =
    inl (s, λ j. ground (arith, e, none_holds j, none_holds i))
keep-IsConsistent t i p e (inr (h, held)) =
    inr (h, (held.0, ground (arith, e, held.1), λ j q. ground (arith, e, held.2 j, held.2 i, q)))

take-IsHeldBy :
    (t : Threads) (i : ℕ) (p : Pc)
    → holds p ≡ true
    → IsFree t
    → IsHeldBy (record { semaphore = locked; pc = update t.pc i p }) i
unfolding update
take-IsHeldBy t i p e free = (refl, ground (arith, e), λ j q. ground (arith, free.1 j, q))

pub give-IsFree :
    (t : Threads) (i : ℕ) (p : Pc)
    → holds (t.pc i) ≡ true
    → holds p ≡ false
    → IsConsistent t
    → IsFree (record { semaphore = (t.semaphore + 2 ^ 16 - 1) % 2 ^ 16; pc = update t.pc i p })
unfolding update
give-IsFree t i p held out (inl (s, none_holds)) = absurd (ground (arith, none_holds i, held))
give-IsFree t i p held out (inr (h, by)) =
    (omega (arith, by.0), λ j. ground (arith, out, by.2 j, by.2 i held))

pub holder : (t : Threads) (i : ℕ) → holds (t.pc i) ≡ true → IsConsistent t → IsHeldBy t i
holder t i held (inl free) = absurd (ground (arith, free.1 i, held))
holder t i held (inr (h, by)) = let e : i ≡ h = by.2 i held in (by.0, held, λ j q. by.2 j q ∙ sym e)

-- The exchange, from a place without the lock.
exchange-IsConsistent :
    (t : Threads) (i : ℕ) (p : Pc)
    → holds (t.pc i) ≡ false
    → holds p ≡ false
    → IsConsistent t
    → IsConsistent (record {
      semaphore = (compare_exchange t.semaphore locked unlocked).0;
      pc =
          update t.pc i
            (if (compare_exchange t.semaphore locked unlocked).1 == unlocked then inside else p);
    })
exchange-IsConsistent t i p out out' (inl free) =
    let e : t.semaphore ≡ 0 = free.0 in rw e (inr (i, take-IsHeldBy t i inside refl free))
exchange-IsConsistent t i p out out' (inr (h, by)) =
    let e : t.semaphore ≡ 1 = by.0 in
    let kept = keep-IsConsistent t i p (out' ∙ sym out) (inr (h, by)) in rw e (rw e at kept)

Move-IsConsistent :
    (t : Threads) (i : ℕ) {s s' : ℕ} {p p' : Pc}
    → Move s p s' p'
    → t.semaphore ≡ s
    → t.pc i ≡ p
    → IsConsistent t
    → IsConsistent (record { semaphore = s'; pc = update t.pc i p' })
Move-IsConsistent t i call_lock e f c =
    rw (← e) (keep-IsConsistent t i (spin 1) (ground (arith, f)) c)
Move-IsConsistent t i (see_locked {b} _) e f c =
    rw (← e) (keep-IsConsistent t i (exchange (next_backoff b)) (ground (arith, f)) c)
Move-IsConsistent t i (see_free {b} _) e f c =
    rw (← e) (keep-IsConsistent t i (exchange b) (ground (arith, f)) c)
Move-IsConsistent t i (lock_exchange {b}) e f c =
    rw (← e) (exchange-IsConsistent t i (spin b) (ground (arith, f)) refl c)
Move-IsConsistent t i (try_locked _) e f c =
    rw (← e) (keep-IsConsistent t i outside (ground (arith, f)) c)
Move-IsConsistent t i (try_free _) e f c =
    rw (← e) (keep-IsConsistent t i tried (ground (arith, f)) c)
Move-IsConsistent t i try_exchange e f c =
    rw (← e) (exchange-IsConsistent t i outside (ground (arith, f)) refl c)
Move-IsConsistent t i (check _) e f c =
    rw (← e) (keep-IsConsistent t i leaving (ground (arith, f)) c)
Move-IsConsistent t i release e f c =
    rw (← e) (inl (give-IsFree t i outside (ground (arith, f)) refl c))

pub Reach-IsConsistent : {n : ℕ} {t : Threads} → Reach n t → IsConsistent t
Reach-IsConsistent start = inl (refl, λ i. refl)
Reach-IsConsistent (later {t} r (pick i lt move)) =
    Move-IsConsistent t i move refl refl (Reach-IsConsistent r)

module _ {n : ℕ} {t : Threads} (r : Reach n t) where
  -- However the threads' calls of `lock`, `try_lock` and `unlock` are interleaved, at most one of
  -- them has the lock, and while one has it the semaphore is 1, so that the assertion of `unlock`
  -- holds and its decrement gives 0.
  pub mutual_exclusion :
      (i j : ℕ) → holds (t.pc i) ≡ true → holds (t.pc j) ≡ true → (i ≡ j) × (t.semaphore ≡ locked)
  mutual_exclusion i j hi hj = let h = holder t i hi (Reach-IsConsistent r) in (sym (h.2 j hj), h.0)
