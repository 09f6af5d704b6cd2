-- ===== src/Writer/OneRound.antt =====
-- One round of the gathering of a write batch, on a list that has pages.
use memory_manager.Base.{
  ℕ, suc, ◌-◌, ◌≡◌, ◌≤◌, sym, ap, ◌∙◌, true, some, arith, List, ◌==◌, if◌then◌else◌, distinct, take,
  drop, All-has, ◌∷◌, ◌++◌, has, has-append, distinct-append, take-append-drop,
}
use memory_manager.PageList.{PageList, change_list_size}
use memory_manager.PageList.Ring.{IsList}
use memory_manager.PageList.Walk.{along, AllFree, IsList-links}
use memory_manager.PageList.Batch.{Batch}
use memory_manager.PageList.Exclusive.{IsBatch}
use memory_manager.System.{System}
use memory_manager.Writer.{start_writing}
use memory_manager.Writer.Gather.{started, start_writing_lem, IsTakenOff}

batch_list :
    (list list' : PageList) (n m : ℕ)
    → list' ≡ (if n == 0 then list else change_list_size list m)
    → list' ≡ record list { list_size = list'.list_size }
unfolding change_list_size
batch_list list list' n m e = ground (arith, e)

-- One round on a list that has pages.
module _ (s : System) (x : ℕ) (ys : List ℕ) (is : IsList s.heap s.modified_list.head (x ∷ ys))
    (free : AllFree s.heap (x ∷ ys)) (n : ℕ) (pos : 1 ≤ n) (b : Batch)
    (ib : IsBatch s.heap s.modified_list (x ∷ ys) n b) where
  abbrev taken : List ℕ
  taken = take n (x ∷ ys)

  abbrev pub behind : System
  behind = record s { heap = started taken b.heap; modified_list = b.list }

  pub starts : b.first ≡ some x
  starts =
      let e : n ≡ suc (n - 1) = omega arith in
      ib.starts x (take (n - 1) ys) (ap (λ v. take v (x ∷ ys)) e)

  taken-distinct : distinct taken ≡ true
  taken-distinct =
      let both : distinct (taken ++ drop n (x ∷ ys)) ≡ true =
        ap distinct (take-append-drop n (x ∷ ys)) ∙ ground (arith, is.apart) in
      (distinct-append taken (drop n (x ∷ ys)) both).0

  taken-free : (q : ℕ) → has q taken ≡ true → (s.heap q).lock ≡ 0
  taken-free q m =
      let on : has q (x ∷ ys) ≡ true =
        sym (ap (has q) (take-append-drop n (x ∷ ys)))
        ∙ ground (arith, m, has-append q taken (drop n (x ∷ ys))) in
      All-has (λ v. (s.heap v).lock ≡ 0) (x ∷ ys) q free on

  pub starts_writing :
      start_writing b.count x (record s { heap = b.heap; modified_list = b.list })
      ≡ some (behind, taken)
  starts_writing = rw ib.counted (
      start_writing_lem taken x (record s { heap = b.heap; modified_list = b.list })
        (ap (λ v. along b.heap x v) (sym ib.counted) ∙ ib.batch x starts) taken-distinct
        (λ q m. ground (arith, ib.locks q, m)))

  pub behind-IsTakenOff : IsTakenOff s behind (x ∷ ys) taken (drop n (x ∷ ys))
  behind-IsTakenOff = record {
    left =
        IsList-links b.heap (started taken b.heap) s.modified_list.head (drop n (x ∷ ys))
          (λ q. ground arith) ib.rest;
    locks = λ q. ground (arith, ib.locks q, taken-free q);
    states = λ q. ground (arith, ib.keeps q);
    owners = λ q. ground (arith, ib.keeps q);
    links = λ q off. ground (arith, ib.elsewhere q off);
    same =
        ap (λ (l : PageList). record behind { modified_list = l })
          (batch_list s.modified_list b.list b.count _ ib.size);
  }
