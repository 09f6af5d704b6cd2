-- ===== src/PageList/OnFault.antt =====
-- `remove_page_on_soft_fault`, in any state of the locks of the page's neighbours.
use mathlib.Core.Path.{fun_ext}
use memory_manager.Base.{
  ℕ, zero, suc, ◌+◌, ◌≡◌, ◌≢◌, refl, ◌∙◌, sym, ap, true, false, Bool, List, [], ◌∷◌, ◌++◌, some,
  arith, update, ◌==◌, if◌then◌else◌, ◌⊎◌, inl, inr, Bool-cases, ◌≤◌, ℕ_discrete, has-append,
  has-ne, distinct-mid,
}
use memory_manager.Pfn.{Pfn, Heap}
use memory_manager.Pfn.Lock.{
  with_lock, try_lock_pfn-free, try_lock_pfn-held, unlock_pfn-locked, relock,
}
use memory_manager.PageList.{
  PageList, remove_page_from_list, set_flink, set_blink, decrement_list_size,
}
use memory_manager.PageList.Ring.{Seg, IsList, SameBut, Seg-split, Seg-first, Seg-last}
use memory_manager.PageList.Edit.{remove_page_from_list_lem, alone_of_same_links}
use memory_manager.PageList.Attempts.{retry, done, rounds}
use memory_manager.PageList.Tries.{found}
use memory_manager.PageList.Locked.{remove_page_attempt, remove_page_on_soft_fault}

abbrev removed : Heap → ℕ → Heap
removed h p = (remove_page_from_list h p).0

-- Removing a page and giving back the locks of its neighbours is removing it.
one_neighbour :
    (h : Heap) (p f : ℕ)
    → f ≢ p
    → (h p).flink ≡ f
    → (h p).blink ≡ f
    → (h f).lock ≡ 0
    → with_lock (removed (with_lock h f 1) p) f 0 ≡ removed h p
unfolding remove_page_from_list set_flink set_blink update
one_neighbour h p f ne ef eb free = fun_ext (λ q. ground arith)

two_neighbours :
    (h : Heap) (p f b : ℕ)
    → f ≢ p
    → b ≢ p
    → f ≢ b
    → (h p).flink ≡ f
    → (h p).blink ≡ b
    → (h f).lock ≡ 0
    → (h b).lock ≡ 0
    → with_lock (with_lock (removed (with_lock (with_lock h f 1) b 1) p) b 0) f 0 ≡ removed h p
unfolding remove_page_from_list set_flink set_blink update
two_neighbours h p f b nf nb ne ef eb free_f free_b = fun_ext (λ q. ground arith)

lock_of : (h : Heap) (p l q : ℕ) → (with_lock h p l q).lock ≡ (if q == p then l else (h q).lock)
unfolding update
lock_of h p l q = ground arith

removed-lock : (h : Heap) (p q : ℕ) → (removed h p q).lock ≡ (h q).lock
unfolding remove_page_from_list set_flink set_blink update
removed-lock h p q = ground arith

module _ (shared : ℕ → Bool) (list : PageList) (p f b n : ℕ) (h : Heap) where
  attempt-unshared : shared n ≡ false → remove_page_attempt shared list p f b n h ≡ some (retry h)
  unfolding remove_page_attempt
  attempt-unshared e = ground (arith, e)

  attempt-flink_held :
      shared n ≡ true → (h f).lock ≢ 0 → remove_page_attempt shared list p f b n h ≡ some (retry h)
  unfolding remove_page_attempt
  attempt-flink_held e held = ground (arith, e, try_lock_pfn-held h f held)

  attempt-alone :
      shared n ≡ true
      → (h f).lock ≡ 0
      → f ≡ b
      → f ≡ list.head
      → f ≢ p
      → (h p).flink ≡ f
      → (h p).blink ≡ f
      → remove_page_attempt shared list p f b n h ≡ some (done (removed h p))
  unfolding remove_page_attempt
  attempt-alone e free fb head nf ef eb =
      let u =
        unlock_pfn-locked (removed (with_lock h f 1) p) f
          (removed-lock (with_lock h f 1) p f ∙ lock_of h f 1 f ∙ ground arith) in
      ground (arith, e, try_lock_pfn-free h f free, u, one_neighbour h p f nf ef eb free, fb)

  attempt-blink_held :
      shared n ≡ true
      → (h f).lock ≡ 0
      → f ≢ b
      → (h b).lock ≢ 0
      → remove_page_attempt shared list p f b n h ≡ some (retry h)
  unfolding remove_page_attempt
  attempt-blink_held e free fb held =
      let hb : (with_lock h f 1 b).lock ≢ 0 = λ z. held (ground (arith, lock_of h f 1 b)) in
      let u = unlock_pfn-locked (with_lock h f 1) f (lock_of h f 1 f ∙ ground arith) in
      ground (
        arith,
        e,
        try_lock_pfn-free h f free,
        try_lock_pfn-held (with_lock h f 1) b hb,
        u,
        relock h f free,
      )

  attempt-both :
      shared n ≡ true
      → (h f).lock ≡ 0
      → f ≢ b
      → (h b).lock ≡ 0
      → f ≢ p
      → b ≢ p
      → (h p).flink ≡ f
      → (h p).blink ≡ b
      → remove_page_attempt shared list p f b n h ≡ some (done (removed h p))
  unfolding remove_page_attempt
  attempt-both e free_f fb free_b nf nb ef eb =
      let h₂ : Heap = with_lock (with_lock h f 1) b 1 in
      let fb2 : (with_lock h f 1 b).lock ≡ 0 = ground (arith, lock_of h f 1 b) in
      let u =
        unlock_pfn-locked (removed h₂ p) b
          (removed-lock h₂ p b ∙ lock_of (with_lock h f 1) b 1 b ∙ ground arith) in
      let u2 = unlock_pfn-locked (with_lock (removed h₂ p) b 0) f (
        ground (
          arith,
          lock_of (removed h₂ p) b 0 f,
          removed-lock h₂ p f,
          lock_of (with_lock h f 1) b 1 f,
          lock_of h f 1 f,
        )) in
      ground (
        arith,
        e,
        try_lock_pfn-free h f free_f,
        try_lock_pfn-free (with_lock h f 1) b fb2,
        u,
        u2,
        two_neighbours h p f b nf nb fb ef eb free_f free_b,
      )

-- The page is on the list, between some pages, and its links are `f` and `b`.
pub record IsOn (head p f b : ℕ) (h : Heap) : Type 0 where
  pub front : List ℕ
  pub back : List ℕ
  pub is : IsList h head (front ++ p ∷ back)
  pub next : (h p).flink ≡ f
  pub previous : (h p).blink ≡ b

no_append : (xs ys : List ℕ) → xs ++ ys ≡ [] → ys ≡ []
no_append [] ys e = e
no_append (x ∷ xs) ys e = cc

alone_next :
    (h : Heap) (p : ℕ) (ys : List ℕ) (head : ℕ) → Seg h p ys head → ys ≡ [] → (h p).flink ≡ head
alone_next h p [] head s e = s.0
alone_next h p (y ∷ ys) head s e = cc

module _ (head p f b : ℕ) (h : Heap) (on : IsOn head p f b h) where
  neighbours : (f ≢ p) × (b ≢ p) × (f ≡ b → f ≡ head)
  neighbours =
      let (s, t) = Seg-split h head on.front p on.back head on.is.ring in
      let apart = on.is.apart in
      let e₁ = has-append head on.front (p ∷ on.back) in
      let m = distinct-mid on.front p on.back in
      let e₂ = has-append p on.front on.back in
      (
        ground (
          arith,
          apart,
          e₁,
          m,
          e₂,
          on.next,
          Seg-first h p on.back head t,
          has-ne f p (head ∷ on.back),
        ),
        ground (
          arith,
          apart,
          e₁,
          m,
          e₂,
          on.previous,
          Seg-last h head on.front p s,
          has-ne b p (head ∷ on.front),
        ),
        λ e.
            sym on.next
            ∙ alone_next h p on.back head t (
                no_append on.front on.back (
                  alone_of_same_links h head p on.front on.back s t apart
                    (on.next ∙ e ∙ sym on.previous))),
      )

  removed-IsList : IsList (removed h p) head (on.front ++ on.back)
  removed-IsList = (remove_page_from_list_lem h head p on.front on.back on.is).0

module _ (shared : ℕ → Bool) (list : PageList) (p f b : ℕ) where
  -- An attempt takes the page off the list, or gives memory back as it was.
  attempt-cases :
      (n : ℕ) (h : Heap)
      → IsOn list.head p f b h
      → (remove_page_attempt shared list p f b n h ≡ some (done (removed h p)))
        ⊎ (remove_page_attempt shared list p f b n h ≡ some (retry h))
  attempt-cases n h on =
      let (nf, nb, alone) = neighbours list.head p f b h on in
      elim (Bool-cases (shared n)) [
        | inr unshared ↦ inr (attempt-unshared shared list p f b n h unshared)
        | inl e ↦ elim (ℕ_discrete (h f).lock 0) [
          | no held ↦ inr (attempt-flink_held shared list p f b n h e held)
          | yes free_f ↦ elim (ℕ_discrete f b) [
            | yes same ↦ inl (
                attempt-alone shared list p f b n h e free_f same (alone same) nf on.next
                  (on.previous ∙ sym same))
            | no fb ↦ elim (ℕ_discrete (h b).lock 0) [
              | no held ↦ inr (attempt-blink_held shared list p f b n h e free_f fb held)
              | yes free_b ↦
                  inl (
                    attempt-both shared list p f b n h e free_f fb free_b nf nb on.next on.previous)
            ]
          ]
        ]
      ]

module _ (shared : ℕ → Bool) (others : ℕ → Heap → Heap) (list : PageList) (p f b : ℕ)
    (P : Heap → Type 0) (on : (g : Heap) → P g → IsOn list.head p f b g)
    (kept : (n : ℕ) (g : Heap) → P g → P (others n g)) where
  rounds-cases :
      (left n : ℕ) (h : Heap)
      → P h
      → (k : ℕ) × (k ≤ left)
        × P (found others n k h)
        × ((rounds (remove_page_attempt shared list p f b) others left n h
              ≡ some (done (removed (found others n k h) p)))
            ⊎ (rounds (remove_page_attempt shared list p f b) others left n h
                ≡ some (retry (found others n k h))))
  unfolding rounds
  rounds-cases zero n h now = (zero, omega arith, now, inr refl)
  rounds-cases (suc left) n h now = elim (attempt-cases shared list p f b n h (on h now)) [
    | inl ended ↦ (zero, omega arith, now, inl (rw ended refl))
    | inr again ↦
        let (k, le, later, r) = rounds-cases left (n + 1) (others n h) (kept n h now) in
        (suc k, omega (arith, le), later, rw again r)
  ]

  -- The routine in terms of its 30 attempts.
  fault_run :
      (h : Heap)
      → (h p).flink ≡ f
      → (h p).blink ≡ b
      → P h
      → (k : ℕ) × (k ≤ 30)
        × P (found others 0 k h)
        × (remove_page_on_soft_fault shared others list p h
            ≡ some (removed (found others 0 k h) p, decrement_list_size list))
  unfolding remove_page_on_soft_fault
  fault_run h ef eb now =
      let (k, le, later, r) = rounds-cases 30 0 h now in
      (
        k,
        le,
        later,
        elim r [ inl ended ↦ rw (ef, eb, ended) refl | inr gave_up ↦ rw (ef, eb, gave_up) refl ],
      )

-- Whatever the outcomes of the attempts at the list's lock and the state of the locks of the page's
-- neighbours, and whatever others do at the waits short of unlinking the page or changing its
-- links: the removal on a soft fault returns, after k waits, at most 30. Memory is then as the
-- others have left it after these waits, with the links of the page's two neighbours
-- written: the list has the other pages that it had then, in order, every other record and all
-- locks are as they were then, and the list's size has gone down by one.
pub remove_page_on_soft_fault_lem :
    (shared : ℕ → Bool) (others : ℕ → Heap → Heap) (list : PageList) (p : ℕ) (h : Heap)
    → IsOn list.head p (h p).flink (h p).blink h
    → ((n : ℕ) (g : Heap)
        → IsOn list.head p (h p).flink (h p).blink g
        → IsOn list.head p (h p).flink (h p).blink (others n g))
    → (k : ℕ) × (g : Heap) × (front back : List ℕ) × (k ≤ 30)
      × IsList (found others 0 k h) list.head (front ++ p ∷ back)
      × (remove_page_on_soft_fault shared others list p h ≡ some (g, decrement_list_size list))
      × IsList g list.head (front ++ back)
      × SameBut ((h p).blink ∷ (h p).flink ∷ []) (found others 0 k h) g
      × ((q : ℕ) → (g q).lock ≡ (found others 0 k h q).lock)
remove_page_on_soft_fault_lem shared others list p h on kept =
    let (k, le, later, run) =
      fault_run shared others list p (h p).flink (h p).blink
        (IsOn list.head p (h p).flink (h p).blink) (λ g o. o) kept h refl refl on in
    let all =
      remove_page_from_list_lem (found others 0 k h) list.head p later.front later.back later.is in
    (
      k,
      removed (found others 0 k h) p,
      later.front,
      later.back,
      le,
      later.is,
      run,
      all.0,
      rw (later.next, later.previous) at all.1,
      λ q. ap (λ (r : Pfn). r.lock) (all.1.payload q),
    )

-- Where no other thread acts at the waits, the memory is that of the call.
pub remove_page_on_soft_fault-quiet :
    (shared : ℕ → Bool) (others : ℕ → Heap → Heap) (list : PageList) (p : ℕ) (h : Heap)
    (xs ys : List ℕ)
    → IsList h list.head (xs ++ p ∷ ys)
    → ((n : ℕ) (g : Heap) → others n g ≡ g)
    → remove_page_on_soft_fault shared others list p h
      ≡ some ((remove_page_from_list h p).0, decrement_list_size list)
remove_page_on_soft_fault-quiet shared others list p h xs ys is quiet =
    let on : IsOn list.head p (h p).flink (h p).blink h = record {
      front = xs;
      back = ys;
      is = is;
      next = refl;
      previous = refl;
    } in
    let (k, le, same, run) =
      fault_run shared others list p (h p).flink (h p).blink (λ g. g ≡ h) (λ g e. rw e on)
        (λ n g e. quiet n g ∙ e) h refl refl refl in
    run ∙ rw same refl
