-- ===== src/PageList/Widen.antt =====
-- The loop of `remove_batch_from_list_head` that widens its batch, in any state of the pages' locks.
use memory_manager.Base.{
  is_nil, ℕ, zero, suc, ◌+◌, ◌≤◌, ◌≡◌, ◌≢◌, ap, true, false, List, [], ◌∷◌, arith, has, distinct,
  take, drop, length, ℕ_discrete,
}
use memory_manager.Pfn.{Heap, try_lock_pfn}
use memory_manager.Pfn.Lock.{with_lock, try_lock_pfn-free, try_lock_pfn-held}
use memory_manager.PageList.Ring.{Seg}
use memory_manager.PageList.Walk.{
  AllFree, lock_all, with_lock-lock, first_or, lock_all, Seg-links, with_lock-links, lock_all-cons,
}
use memory_manager.PageList.Batch.{widen_batch}

widen-last :
    (w head y k : ℕ) (h : Heap) → widen_batch (suc w) head y head k h ≡ (h, head, true, k + 1)
unfolding widen_batch
widen-last w head y k h = ground arith

widen-stop :
    (w head y z k : ℕ) (h : Heap)
    → z ≢ head
    → try_lock_pfn h z ≡ (h, false)
    → widen_batch (suc w) head y z k h ≡ (h, y, false, k)
unfolding widen_batch
widen-stop w head y z k h ne e = ground arith

widen-step :
    (w head y z k : ℕ) (h h' : Heap)
    → z ≢ head
    → try_lock_pfn h z ≡ (h', true)
    → widen_batch (suc w) head y z k h ≡ widen_batch w head z (h' z).flink (k + 1) h'
unfolding widen_batch
widen-step w head y z k h h' ne e = ground arith

-- How far the batch grows: some `m` more pages, whoever holds the locks of the others.
pub record Widened (w head y k : ℕ) (ys : List ℕ) (h : Heap) : Type 0 where
  pub m : ℕ
  pub few : m ≤ w
  pub free : AllFree h (take m ys)
  pub run : widen_batch w head y (h y).flink k h ≡ (
    lock_all (take m ys) h,
    first_or (drop m (y ∷ ys)) head,
    is_nil (drop m (y ∷ ys)),
    k + length (take m (y ∷ ys)),
  )

free-unlocked : (h : Heap) (z : ℕ) (xs : List ℕ) → AllFree (with_lock h z 1) xs → AllFree h xs
free-unlocked h z [] a = tt
free-unlocked h z (x ∷ xs) a =
    (ground (arith, a.0, with_lock-lock h z 1 x), free-unlocked h z xs a.1)

pub widen_batch_lem :
    (w head y k : ℕ) (ys : List ℕ) (h : Heap)
    → Seg h y ys head
    → distinct (y ∷ ys) ≡ true
    → has head (y ∷ ys) ≡ false
    → Widened w head y k ys h
unfolding widen_batch
widen_batch_lem zero head y k ys h s d o = record {
  m = 0;
  few = omega arith;
  free = tt;
  run = ap (λ n. (h, y, false, n)) (omega arith);
}
widen_batch_lem (suc w) head y k [] h s d o = record {
  m = 1;
  few = omega arith;
  free = tt;
  run = rw s.0 (widen-last w head y k h);
}
widen_batch_lem (suc w) head y k (z ∷ zs) h s d o = elim (ℕ_discrete (h z).lock 0) [
  | no held ↦ record {
    m = 0;
    few = omega arith;
    free = tt;
    run =
        rw (s.0, widen-stop w head y z k h (ground arith) (try_lock_pfn-held h z held))
          (ap (λ n. (h, y, false, n)) (omega arith));
  }
  | yes open_now ↦
      let h' : Heap = with_lock h z 1 in
      let r =
        widen_batch_lem w head z (k + 1) zs h'
          (Seg-links h h' z zs head (with_lock-links h z 1) s.2) (ground arith) (ground arith) in
      record {
        m = suc r.m;
        few = omega (arith, r.few);
        free = (open_now, free-unlocked h z (take r.m zs) r.free);
        run =
            rw
              (
                s.0,
                widen-step w head y z k h h' (ground arith) (try_lock_pfn-free h z open_now),
                r.run,
                lock_all-cons z (take r.m zs) h,
              )
              (ap
                (λ n. (
                  lock_all (z ∷ take r.m zs) h,
                  first_or (drop r.m (z ∷ zs)) head,
                  is_nil (drop r.m (z ∷ zs)),
                  n,
                ))
                (omega arith));
      }
]
