-- ===== src/PageList/Commute.antt =====
-- The writes of links that join pages to a list, past the locks that their caller holds.
use mathlib.Core.Path.{fun_ext}
use memory_manager.Base.{ℕ, ◌≡◌, ◌≢◌, refl, arith, update}
use memory_manager.Pfn.{Heap}
use memory_manager.Pfn.Lock.{with_lock}
use memory_manager.PageList.Walk.{with_lock-links}
use memory_manager.PageList.{insert_to_list_tail, splice_to_tail, set_flink, set_blink}

pub set_flink-with_lock :
    (h : Heap) (a b p l : ℕ) → set_flink (with_lock h p l) a b ≡ with_lock (set_flink h a b) p l
unfolding set_flink update
set_flink-with_lock h a b p l = fun_ext (λ q. ground arith)

pub set_blink-with_lock :
    (h : Heap) (a b p l : ℕ) → set_blink (with_lock h p l) a b ≡ with_lock (set_blink h a b) p l
unfolding set_blink update
set_blink-with_lock h a b p l = fun_ext (λ q. ground arith)

-- The writes of `splice_to_tail`, from the links that it reads first.
abbrev written : Heap → (head tail first last : ℕ) → Heap
written h head tail first last =
    set_blink (set_flink (set_blink (set_flink h tail first) first tail) last head) head last

pub written-with_lock :
    (h : Heap) (head tail first last p l : ℕ)
    → written (with_lock h p l) head tail first last
      ≡ with_lock (written h head tail first last) p l
written-with_lock h head tail first last p l =
    let h₁ : Heap = set_flink h tail first in
    let h₂ : Heap = set_blink h₁ first tail in
    let h₃ : Heap = set_flink h₂ last head in
    rw
      (
        set_flink-with_lock h tail first p l,
        set_blink-with_lock h₁ first tail p l,
        set_flink-with_lock h₂ last head p l,
        set_blink-with_lock h₃ head last p l,
      )
      refl

pub splice-with_lock :
    (h : Heap) (head origin p l : ℕ)
    → splice_to_tail (with_lock h p l) head origin ≡ with_lock (splice_to_tail h head origin) p l
unfolding splice_to_tail
splice-with_lock h head origin p l =
    rw
      (
        (with_lock-links h p l origin).0,
        (with_lock-links h p l origin).1,
        (with_lock-links h p l head).1,
      )
      (written-with_lock h head (h head).blink (h origin).flink (h origin).blink p l)

pub insert-with_lock :
    (h : Heap) (head page p l : ℕ)
    → insert_to_list_tail (with_lock h p l) head page
      ≡ with_lock (insert_to_list_tail h head page) p l
unfolding insert_to_list_tail set_flink set_blink update
insert-with_lock h head page p l = fun_ext (λ q. ground arith)

pub splice-lock :
    (h : Heap) (head origin q : ℕ) → (splice_to_tail h head origin q).lock ≡ (h q).lock
unfolding splice_to_tail set_flink set_blink update
splice-lock h head origin q = ground arith

pub insert-lock :
    (h : Heap) (head page q : ℕ) → (insert_to_list_tail h head page q).lock ≡ (h q).lock
unfolding insert_to_list_tail set_flink set_blink update
insert-lock h head page q = ground arith

pub two_locks :
    (g : Heap) (a b : ℕ)
    → a ≢ b
    → (g a).lock ≡ 0
    → (g b).lock ≡ 0
    → with_lock (with_lock (with_lock (with_lock g a 1) b 1) a 0) b 0 ≡ g
unfolding update
two_locks g a b ne ea eb = fun_ext (λ q. ground arith)

pub two_locks_back :
    (g : Heap) (a b : ℕ)
    → a ≢ b
    → (g a).lock ≡ 0
    → (g b).lock ≡ 0
    → with_lock (with_lock (with_lock (with_lock g a 1) b 1) b 0) a 0 ≡ g
unfolding update
two_locks_back g a b ne ea eb = fun_ext (λ q. ground arith)

pub locked_now : (g : Heap) (p : ℕ) → (with_lock g p 1 p).lock ≡ 1
unfolding update
locked_now g p = ground arith

pub locked_still : (g : Heap) (p q l : ℕ) → q ≢ p → (with_lock g p l q).lock ≡ (g q).lock
unfolding update
locked_still g p q l ne = ground arith
