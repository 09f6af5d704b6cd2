-- ===== src/PageList/Walk.antt =====
-- Pages along the forward links, and the lemmas on locking several of them.
use mathlib.Core.Path.{fun_ext}
use memory_manager.PageList.{PageList, is_page_list_empty}
use memory_manager.Base.{
  is_nil, ℕ, zero, suc, ◌≡◌, refl, ap, true, false, List, [], ◌∷◌, arith, update, ◌==◌,
  if◌then◌else◌, has, All, take, length,
}
use memory_manager.Pfn.{Heap}
use memory_manager.Pfn.Lock.{with_lock}
use memory_manager.PageList.Ring.{Seg, Seg-frame, IsList}

-- `count` pages from `p` on, each behind the `flink` of the one before: what the callers of the
-- batch routines walk through.
abbrev pub along : Heap → (p count : ℕ) → List ℕ
along h p zero = []
along h p (suc n) = p ∷ along h (h p).flink n

abbrev pub first_or : List ℕ → ℕ → ℕ
first_or [] d = d
first_or (x ∷ xs) d = x

abbrev pub lock_all : List ℕ → Heap → Heap
lock_all xs h q = if has q xs then record (h q) { lock = 1 } else h q

-- Every record keeps its owner, its state and its slot.
abbrev pub Keeps : Heap → Heap → Type 0
Keeps h g =
    (q : ℕ)
    → ((g q).pte ≡ (h q).pte)
      × ((g q).disk_index ≡ (h q).disk_index)
      × ((g q).status ≡ (h q).status)
      × ((g q).reserved ≡ (h q).reserved)

abbrev pub AllFree : Heap → List ℕ → Type 0
AllFree h = All (λ q. (h q).lock ≡ 0)

pub Seg-links :
    (h g : Heap) (a : ℕ) (xs : List ℕ) (z : ℕ)
    → ((q : ℕ) → ((g q).flink ≡ (h q).flink) × ((g q).blink ≡ (h q).blink))
    → Seg h a xs z
    → Seg g a xs z
Seg-links h g a xs z same = Seg-frame h g a xs z (λ q m. (same q).0) (λ q m. (same q).1)

pub with_lock-links :
    (h : Heap) (p l q : ℕ)
    → ((with_lock h p l q).flink ≡ (h q).flink) × ((with_lock h p l q).blink ≡ (h q).blink)
unfolding update
with_lock-links h p l q = ground arith

pub lock_all-links :
    (xs : List ℕ) (h : Heap) (q : ℕ)
    → ((lock_all xs h q).flink ≡ (h q).flink) × ((lock_all xs h q).blink ≡ (h q).blink)
lock_all-links xs h q = ground arith

pub AllFree-with_lock :
    (h : Heap) (p l : ℕ) (xs : List ℕ)
    → has p xs ≡ false
    → AllFree h xs
    → AllFree (with_lock h p l) xs
unfolding update
AllFree-with_lock h p l [] n f = tt
AllFree-with_lock h p l (x ∷ xs) n f = (ground arith, AllFree-with_lock h p l xs (ground arith) f.1)

pub lock_all-cons :
    (x : ℕ) (xs : List ℕ) (h : Heap) → lock_all xs (with_lock h x 1) ≡ lock_all (x ∷ xs) h
unfolding update
lock_all-cons x xs h = fun_ext (λ q. ground arith)

-- The links lead along the pages of a segment.
pub along-Seg :
    (h : Heap) (a : ℕ) (xs : List ℕ) (z n : ℕ)
    → Seg h a xs z
    → along h (h a).flink (length (take n xs)) ≡ take n xs
along-Seg h a [] z zero s = refl
along-Seg h a [] z (suc n) s = refl
along-Seg h a (x ∷ xs) z zero s = refl
along-Seg h a (x ∷ xs) z (suc n) s = rw s.0 (ap (λ l. x ∷ l) (along-Seg h x xs z n s.2))

pub along-same :
    (h g : Heap) (p n : ℕ)
    → ((q : ℕ) → has q (along h p n) ≡ true → (g q).flink ≡ (h q).flink)
    → along g p n ≡ along h p n
along-same h g p zero same = refl
along-same h g p (suc n) same =
    rw (same p (ground arith))
      (ap (λ l. p ∷ l) (along-same h g (h p).flink n (λ q m. same q (ground arith))))

pub along-links :
    (h g : Heap) (p n : ℕ) → ((q : ℕ) → (g q).flink ≡ (h q).flink) → along g p n ≡ along h p n
along-links h g p n same = along-same h g p n (λ q m. same q)

pub IsList-links :
    (h g : Heap) (head : ℕ) (xs : List ℕ)
    → ((q : ℕ) → ((g q).flink ≡ (h q).flink) × ((g q).blink ≡ (h q).blink))
    → IsList h head xs
    → IsList g head xs
IsList-links h g head xs same is = record {
  ring = Seg-links h g head xs head same is.ring;
  apart = is.apart;
}

pub with_lock-Keeps : (h : Heap) (p l : ℕ) → Keeps h (with_lock h p l)
unfolding update
with_lock-Keeps h p l q = ground arith

pub with_lock-lock :
    (h : Heap) (p l q : ℕ) → (with_lock h p l q).lock ≡ (if q == p then l else (h q).lock)
unfolding update
with_lock-lock h p l q = ground arith

-- The test for an empty list, on a ring of known pages.
pub is_page_list_empty-IsList :
    (h : Heap) (list : PageList) (xs : List ℕ)
    → IsList h list.head xs
    → is_page_list_empty h list ≡ is_nil xs
unfolding is_page_list_empty
is_page_list_empty-IsList h list [] is = ground (arith, is.ring)
is_page_list_empty-IsList h list (x ∷ xs) is = ground (arith, is.ring.0, is.apart)
