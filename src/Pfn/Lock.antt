-- ===== src/Pfn/Lock.antt =====
-- Taking and giving back the lock of a page frame record.
use mathlib.Core.Path.{fun_ext}
use memory_manager.Base.{ℕ, ◌≡◌, ◌≢◌, ap, true, false, some, arith, update}
use memory_manager.Locks.{try_lock}
use memory_manager.Pfn.{Heap, try_lock_pfn, lock_pfn, unlock_pfn}

abbrev pub with_lock : Heap → ℕ → ℕ → Heap
with_lock h p l = update h p (record (h p) { lock = l })

pub try_lock_pfn-free :
    (h : Heap) (p : ℕ) → (h p).lock ≡ 0 → try_lock_pfn h p ≡ (with_lock h p 1, true)
unfolding try_lock_pfn
try_lock_pfn-free h p e = rw e

try_lock-held : (s : ℕ) → s ≢ 0 → try_lock s ≡ (s, false)
unfolding try_lock
try_lock-held s e = ground arith

update-eta : (h : Heap) (p : ℕ) → update h p (h p) ≡ h
unfolding update
update-eta h p = fun_ext (λ q. ground arith)

-- A failed attempt leaves memory as it is.
pub try_lock_pfn-held : (h : Heap) (p : ℕ) → (h p).lock ≢ 0 → try_lock_pfn h p ≡ (h, false)
unfolding try_lock_pfn
try_lock_pfn-held h p e = rw (try_lock-held (h p).lock e) (ap (λ g. (g, false)) (update-eta h p))

pub lock_pfn-free : (h : Heap) (p : ℕ) → (h p).lock ≡ 0 → lock_pfn h p ≡ some (with_lock h p 1)
unfolding lock_pfn try_lock_pfn
lock_pfn-free h p e = rw e

pub unlock_pfn-locked :
    (h : Heap) (p : ℕ) → (h p).lock ≡ 1 → unlock_pfn h p ≡ some (with_lock h p 0)
unfolding unlock_pfn
unlock_pfn-locked h p e = rw e

-- Locking and unlocking gives memory back as it was.
pub relock : (h : Heap) (p : ℕ) → (h p).lock ≡ 0 → with_lock (with_lock h p 1) p 0 ≡ h
unfolding update
relock h p e = fun_ext (λ q. ground arith)
