-- ===== src/Pruner/Taken.antt =====
-- The batch that the pruner has taken, and the free lists that are apart from it.
use mathlib.Core.Path.{subst}
use mathlib.Core.List.{append_assoc}
use memory_manager.Base.{
  ℕ, ◌/◌, ◌%◌, ◌≡◌, ◌≢◌, sym, ap, ◌∙◌, true, false, arith, some, List, [], ◌∷◌, ◌++◌, has, distinct,
  length, take, drop, has-append, has-append_apart, has-ne, has-take_off, apart_front,
  distinct-append, take-append-drop, ℕ_discrete,
}
use memory_manager.PageList.{PageList}
use memory_manager.PageList.Ring.{IsList, Seg-last}
use memory_manager.PageList.Walk.{along, along-links}
use memory_manager.PageList.Batch.{Batch}
use memory_manager.PageList.Exclusive.{IsBatch}
use memory_manager.System.{System, FreeLists}
use memory_manager.FreeLists.{change_free_lists_total_count}
use memory_manager.Trimmer.Join.{IsList-off}
use memory_manager.Writer.Staged.{IsList-spared}
use memory_manager.FaultHandler.{Outside}
use memory_manager.FaultHandler.Standby.{evicted}
use memory_manager.FaultHandler.Refill.{batched, batched-same}
use memory_manager.Pruner.Sent.{AreSent, released}
use memory_manager.Pruner.Lost.{sent-IsPruned, batched-free_lists}
use memory_manager.Pruner.Deal.{share_of, IsDealable, AreDealt}
use memory_manager.Pruner.Step.{distinct-later}

abbrev pub counted : System → (n : ℕ) → System
counted s n = record s { free_lists = change_free_lists_total_count s.free_lists n }

-- What a run leaves: the entries of the batch's pages name the slots that hold their contents, each
-- list to fill has its share at its end, and the standby list has its other pages, in order.
pub record IsPruneRun (s s' : System) (owner : ℕ → ℕ) (pages : ℕ → List ℕ)
    (todo taken rest : List ℕ) : Type 0 where
  pub entries :
      (q : ℕ)
      → has q taken ≡ true
      → s'.ptes (owner q) ≡ evicted (s.ptes (owner q)) (s.heap q).disk_index
  pub other_entries : (e : ℕ) → ((q : ℕ) → has q taken ≡ true → owner q ≢ e) → s'.ptes e ≡ s.ptes e
  pub standby : IsList s'.heap s.standby_list.head rest
  pub lists :
      (i : ℕ)
      → has i todo ≡ true
      → IsList s'.heap (s.free_lists.list_array i).head (
          pages i
          ++ share_of (length taken / length todo) (length taken % length todo) todo taken i)

-- The lists to fill are apart from the standby list, behind its head as behind the batch's.
module _ (o : Outside) (s s₁ : System) (temps : ℕ → ℕ) (pages : ℕ → List ℕ) (todo : List ℕ)
    (owner : ℕ → ℕ) (n x : ℕ) (xs : List ℕ) (b : Batch)
    (able : IsDealable s temps pages todo (s.standby_list.head ∷ x ∷ xs) s.standby_list.head)
    (batch : IsBatch s.heap s.standby_list (x ∷ xs) n b) (at : b.first ≡ some x)
    (r : AreSent (batched o s b) owner (take n (x ∷ xs)) s₁) where
  abbrev taken : List ℕ
  taken = take n (x ∷ xs)

  sent_heap : s₁.heap ≡ released taken b.heap
  sent_heap = ap (λ (g : System). g.heap) r.rest ∙ ap (released taken) (batched-same o s b).0

  sent_lists : s₁.free_lists ≡ s.free_lists
  sent_lists = ap (λ (g : System). g.free_lists) r.rest ∙ batched-free_lists o s b

  off_standby :
      (i q : ℕ)
      → has i todo ≡ true
      → has q ((s.free_lists.list_array i).head ∷ pages i) ≡ true
      → has q (s.standby_list.head ∷ x ∷ xs) ≡ false
  off_standby i q m on =
      has-append_apart ((s.free_lists.list_array i).head ∷ pages i) (s.standby_list.head ∷ x ∷ xs) q
        (ground (arith, able.apart i 0 m)) on

  sent_links :
      (q : ℕ)
      → has q (s.standby_list.head ∷ x ∷ xs) ≡ false
      → ((s₁.heap q).flink ≡ (s.heap q).flink)
        × ((s₁.heap q).blink ≡ (s.heap q).blink)
        × ((s₁.heap q).lock ≡ (s.heap q).lock)
  sent_links q off =
      let out : has q taken ≡ false = has-take_off q n (x ∷ xs) (ground (arith, off)) in
      rw sent_heap (ground (arith, batch.elsewhere q off, batch.locks q, out))

  pub sent-IsDealable : IsDealable s₁ temps pages todo taken x
  sent-IsDealable = record {
    lists = λ i m. rw sent_lists (
        IsList-spared s.heap s₁.heap (s.free_lists.list_array i).head (pages i)
          (λ q on. let e = sent_links q (off_standby i q m on) in (e.0, e.1)) (able.lists i m));
    opened = λ i m.
        let list : PageList = s.free_lists.list_array i in
        let tail = Seg-last s.heap list.head (pages i) list.head (able.lists i m).ring in
        let e = sent_links list.head (off_standby i list.head m (ground arith)) in
        let e' =
          sent_links (s.heap list.head).blink (off_standby i (s.heap list.head).blink m tail) in
        rw sent_lists (ground (arith, e, e', able.opened i m));
    apart = λ i k m.
        let front : List ℕ = temps k ∷ (s.free_lists.list_array i).head ∷ pages i in
        let d : distinct (front ++ (x ∷ xs)) ≡ true =
          distinct-later front (s.standby_list.head ∷ []) (x ∷ xs) (able.apart i k m) in
        let all : distinct ((front ++ taken) ++ drop n (x ∷ xs)) ≡ true =
          ap distinct (append_assoc front taken (drop n (x ∷ xs)))
          ∙ ap (λ l. distinct (front ++ l)) (take-append-drop n (x ∷ xs))
          ∙ d in
        rw sent_lists (distinct-append (front ++ taken) (drop n (x ∷ xs)) all).0;
    separate = λ i j q mi mj ne on.
        let on' =
          subst (λ (f : FreeLists). has q ((f.list_array i).head ∷ pages i) ≡ true) sent_lists on in
        rw sent_lists (able.separate i j q mi mj ne on');
    different = able.different;
    walk =
        along-links b.heap s₁.heap x (length taken) (λ q. rw sent_heap (ground arith))
        ∙ ap (λ v. along b.heap x v) (sym batch.counted)
        ∙ batch.batch x at;
  }

  module _ (index : ℕ) (s₂ : System) (is : IsList s.heap s.standby_list.head (x ∷ xs))
      (first : has index todo ≡ true)
      (dealt : AreDealt s₁ s₂ temps pages
        (length taken / length todo)
        (length taken % length todo)
        todo
        taken) where
    -- The standby list and its other pages are none of the records that the lists get.
    standby_spared :
        (q : ℕ) → has q (s.standby_list.head ∷ drop n (x ∷ xs)) ≡ true → s₂.heap q ≡ s₁.heap q
    standby_spared q on =
        let whole : has q (taken ++ drop n (x ∷ xs)) ≡ has q (x ∷ xs) =
          ap (has q) (take-append-drop n (x ∷ xs)) in
        let parts = has-append q taken (drop n (x ∷ xs)) in
        let all : has q (s.standby_list.head ∷ x ∷ xs) ≡ true = ground (arith, on, whole, parts) in
        let apart : distinct (taken ++ drop n (x ∷ xs)) ≡ true =
          ap distinct (take-append-drop n (x ∷ xs)) ∙ ground (arith, is.apart) in
        let out : has q (x ∷ xs) ≡ false → has q taken ≡ false = has-take_off q n (x ∷ xs) in
        let off : has q taken ≡ false = elim (ℕ_discrete q s.standby_list.head) [
          | yes e ↦ out (ground (arith, is.apart, e))
          | no ne ↦ apart_front taken (drop n (x ∷ xs)) q apart (ground (arith, on, ne))
        ] in
        dealt.elsewhere q off
          (λ k. has-ne q (temps k) (s.standby_list.head ∷ x ∷ xs) all (
            ground (
              arith,
              able.apart index k first,
              has-append (temps k) (pages index) (s.standby_list.head ∷ x ∷ xs),
            )))
          (λ i m. rw sent_lists (
            apart_front ((s.free_lists.list_array i).head ∷ pages i) (s.standby_list.head ∷ x ∷ xs)
              q (ground (arith, able.apart i 0 m)) all))

    pub dealt-IsPruneRun :
        (m : ℕ) → IsPruneRun s (counted s₂ m) owner pages todo taken (drop n (x ∷ xs))
    dealt-IsPruneRun m =
        let p = sent-IsPruned o s owner n (x ∷ xs) b batch (ground (arith, is.apart)) s₁ r in
        let ptes : s₂.ptes ≡ s₁.ptes = ap (λ (g : System). g.ptes) dealt.rest in
        record {
          entries = λ q on. ap (λ f. f (owner q)) ptes ∙ p.entries q on;
          other_entries = λ e f. ap (λ g. g e) ptes ∙ p.other_entries e f;
          standby =
              IsList-off s₁.heap s₂.heap s.standby_list.head (drop n (x ∷ xs)) standby_spared
                p.standby;
          lists = λ i on.
              subst
                (λ (f : FreeLists). IsList s₂.heap (f.list_array i).head (
                  pages i
                  ++ share_of (length taken / length todo) (length taken % length todo) todo taken
                      i))
                sent_lists (dealt.lists i on);
        }
