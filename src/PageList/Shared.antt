-- ===== src/PageList/Shared.antt =====
-- `remove_batch_from_list_head` where its first attempt is not disturbed at the first two pages.
use mathlib.Core.Path.{subst}
use memory_manager.Base.{
  ℕ, suc, ◌-◌, ◌≡◌, ◌≢◌, refl, ◌∙◌, ap, sym, true, false, Bool, ◌||◌, List, [], ◌∷◌, ◌++◌, some,
  arith, update, ◌==◌, if◌then◌else◌, has, distinct, take, drop, length, is_nil, has-ne, has-append,
  distinct-mid, take-append-drop, inl, inr,
}
use memory_manager.Pfn.{Heap, unlock_pfn}
use memory_manager.Pfn.Lock.{with_lock, try_lock_pfn-free, unlock_pfn-locked}
use memory_manager.PageList.{PageList, neg64, change_list_size}
use memory_manager.PageList.Ring.{IsList}
use memory_manager.PageList.Walk.{
  along, first_or, lock_all, AllFree, Keeps, lock_all-links, along-links, IsList-links,
  with_lock-links, with_lock-Keeps, with_lock-lock,
}
use memory_manager.PageList.Cut.{cut, cut-drop, cut-along, cut-elsewhere, lock-cut, cut-Keeps}
use memory_manager.PageList.Attempts.{done}
use memory_manager.PageList.Batch.{Batch, two, batch_attempt, widen_batch, finish_batch}
use memory_manager.PageList.Exclusive.{IsBatch}
use memory_manager.PageList.Ends.{
  take-next, take-all, finish-end, finish-page, list_cases, twice-links, twice-Keeps, AllFree-has,
}

module _ (h : Heap) (list : PageList) (x y : ℕ) (ys : List ℕ) (is : IsList h list.head (x ∷ y ∷ ys))
    (free_head : (h list.head).lock ≡ 0) (free_x : (h x).lock ≡ 0) (free_y : (h y).lock ≡ 0) where
  abbrev pub three_locked : Heap
  three_locked = with_lock (with_lock (with_lock h list.head 1) x 1) y 1

  three-links :
      (q : ℕ) → ((three_locked q).flink ≡ (h q).flink) × ((three_locked q).blink ≡ (h q).blink)
  unfolding update
  three-links q = ground arith

  three-lock :
      (q : ℕ)
      → (three_locked q).lock
        ≡ (if (q == list.head) || ((q == x) || (q == y)) then 1 else (h q).lock)
  unfolding update
  three-lock q = ground arith

  three-Keeps : Keeps h three_locked
  unfolding update
  three-Keeps q = ground arith

  pub three-IsList : IsList three_locked list.head (x ∷ y ∷ ys)
  three-IsList = IsList-links h three_locked list.head (x ∷ y ∷ ys) three-links is

  module _ (m : ℕ) where
    abbrev pub taken : List ℕ
    taken = take m (y ∷ ys)

    abbrev pub next : ℕ
    next = first_or (drop m (y ∷ ys)) list.head

    abbrev pub widened : Heap
    widened = lock_all (take m ys) three_locked

    abbrev cut_off : Heap
    cut_off = cut widened list.head next

    widened-IsList : IsList widened list.head (x ∷ y ∷ ys)
    widened-IsList =
        IsList-links three_locked widened list.head (x ∷ y ∷ ys)
          (lock_all-links (take m ys) three_locked) three-IsList

    cut_off-lock :
        (q : ℕ)
        → (cut_off q).lock ≡ (
            if has q (take m ys) || ((q == list.head) || ((q == x) || (q == y)))
            then 1
            else (h q).lock)
    cut_off-lock q = ground (arith, lock-cut widened list.head next q, three-lock q)

    abbrev batch_of : Heap → Batch
    batch_of g = record {
      heap = g;
      list = change_list_size list (neg64 (suc (length taken)));
      first = some x;
      count = suc (length taken);
    }

    -- From the memory behind the last unlock.
    batch_of-IsBatch :
        (g : Heap)
        → ((q : ℕ) → ((g q).flink ≡ (cut_off q).flink) × ((g q).blink ≡ (cut_off q).blink))
        → Keeps cut_off g
        → ((q : ℕ) → (g q).lock ≡ (if has q (x ∷ taken) then 1 else (h q).lock))
        → IsBatch h list (x ∷ y ∷ ys) (suc m) (batch_of g)
    batch_of-IsBatch g links keeps locks =
        let first : (widened list.head).flink ≡ x =
          (lock_all-links (take m ys) three_locked list.head).0
          ∙ (three-links list.head).0
          ∙ is.ring.0 in
        record {
          rest =
              IsList-links cut_off g list.head (drop m (y ∷ ys)) links
                (cut-drop widened list.head (suc m) (x ∷ y ∷ ys) widened-IsList);
          counted = refl;
          starts = λ z zs e. ground arith;
          batch = λ p e.
              let q : x ≡ p = ground arith in
              subst (λ v. along g v (suc (length taken)) ≡ x ∷ taken) (first ∙ q)
                (along-links cut_off g (widened list.head).flink (suc (length taken))
                    (λ v. (links v).0)
                  ∙ cut-along widened list.head (suc m) (x ∷ y ∷ ys) widened-IsList);
          locks = locks;
          elsewhere = λ q off. ground (
            arith,
            links q,
            cut-elsewhere widened list.head m (x ∷ y ∷ ys) q,
            lock_all-links (take m ys) three_locked q,
            three-links q,
          );
          keeps = λ q. ground (arith, keeps q, cut-Keeps widened list.head next q, three-Keeps q);
          size = ground arith;
        }

    -- Behind the unlock of the head, and of the page that stays in front where there is one.
    wrapped-lock :
        drop m (y ∷ ys) ≡ []
        → (q : ℕ)
        → (with_lock cut_off list.head 0 q).lock ≡ (if has q (x ∷ taken) then 1 else (h q).lock)
    wrapped-lock e q =
        let (all, rest) = take-all m y ys e in
        rw all (
          ground (
            arith,
            with_lock-lock cut_off list.head 0 q,
            cut_off-lock q,
            ap (has q) rest,
            free_head,
            is.apart,
            has-ne q list.head (x ∷ y ∷ ys),
          ))

    -- The page that stays in front is one that was locked, and is neither the head nor taken.
    front-apart :
        {z : ℕ} {zs : List ℕ}
        → drop m (y ∷ ys) ≡ z ∷ zs
        → (z ≢ list.head)
          × (z ≢ x)
          × (has z taken ≡ false)
          × (((z == y) || has z (take m ys)) ≡ true)
          × (has list.head (x ∷ taken) ≡ false)
    front-apart {z} {zs} e =
        let seen_z = ap (has z) (take-next m y ys e) in
        let split : taken ++ z ∷ zs ≡ y ∷ ys =
          ap (λ l. taken ++ l) (sym e) ∙ take-append-drop m (y ∷ ys) in
        let apart : distinct (taken ++ z ∷ zs) ≡ true = rw split (ground (arith, is.apart)) in
        let outside : (has list.head (taken ++ z ∷ zs) ≡ false)
            × (has x (taken ++ z ∷ zs) ≡ false) =
          rw split (ground (arith, is.apart)) in
        ground (
          arith,
          is.apart,
          outside,
          distinct-mid taken z zs apart,
          seen_z,
          has-append list.head taken (z ∷ zs),
          has-append x taken (z ∷ zs),
          has-append z taken zs,
          has-append z taken (z ∷ []),
        )

    front-lock :
        {z : ℕ} {zs : List ℕ}
        → drop m (y ∷ ys) ≡ z ∷ zs
        → AllFree three_locked (take m ys)
        → (q : ℕ)
        → (with_lock (with_lock cut_off list.head 0) z 0 q).lock
          ≡ (if has q (x ∷ taken) then 1 else (h q).lock)
    front-lock {z} e free q =
        let a = front-apart e in
        let free_z : (h z).lock ≡ 0 =
          ground (arith, a, free_y, AllFree-has three_locked z (take m ys) free, three-lock z) in
        ground (
          arith,
          with_lock-lock (with_lock cut_off list.head 0) z 0 q,
          with_lock-lock cut_off list.head 0 q,
          cut_off-lock q,
          ap (has q) (take-next m y ys e),
          has-append q taken (z ∷ []),
          a,
          free_z,
          free_head,
        )

    cut_off-head : (cut_off list.head).lock ≡ 1
    cut_off-head = ground (arith, cut_off-lock list.head)

    abbrev pub WidenResult : ℕ → Type 0
    WidenResult w =
        widen_batch (w - 1) list.head y (three_locked y).flink 1 three_locked
        ≡ (widened, next, is_nil (drop m (y ∷ ys)), suc (length taken))

    finish-wrapped :
        (w : ℕ)
        → WidenResult w
        → drop m (y ∷ ys) ≡ []
        → finish_batch list w three_locked x y ≡ some (batch_of (with_lock cut_off list.head 0))
    finish-wrapped w run e =
        let at : next ≡ list.head = ap (λ l. first_or l list.head) e in
        let run' : widen_batch (w - 1) list.head y (three_locked y).flink 1 three_locked
            ≡ (widened, list.head, true, suc (length taken)) =
          run ∙ ap (λ l. (widened, first_or l list.head, is_nil l, suc (length taken))) e in
        finish-end list w x y three_locked widened (with_lock cut_off list.head 0)
          (suc (length taken)) run'
          (ap (λ v. unlock_pfn (cut widened list.head v) list.head) (sym at)
            ∙ unlock_pfn-locked cut_off list.head cut_off-head)

    finish-front :
        (w : ℕ) {z : ℕ} {zs : List ℕ}
        → WidenResult w
        → drop m (y ∷ ys) ≡ z ∷ zs
        → finish_batch list w three_locked x y
          ≡ some (batch_of (with_lock (with_lock cut_off list.head 0) z 0))
    finish-front w {z} {zs} run e =
        let at : next ≡ z = ap (λ l. first_or l list.head) e in
        let run' : widen_batch (w - 1) list.head y (three_locked y).flink 1 three_locked
            ≡ (widened, z, false, suc (length taken)) =
          run ∙ ap (λ l. (widened, first_or l list.head, is_nil l, suc (length taken))) e in
        let held : (with_lock cut_off list.head 0 z).lock ≡ 1 =
          ground (arith, with_lock-lock cut_off list.head 0 z, cut_off-lock z, front-apart e) in
        finish-page list w x y z three_locked widened (with_lock cut_off list.head 0)
          (with_lock (with_lock cut_off list.head 0) z 0) (suc (length taken)) run'
          (ap (λ v. unlock_pfn (cut widened list.head v) list.head) (sym at)
            ∙ unlock_pfn-locked cut_off list.head cut_off-head)
          (unlock_pfn-locked (with_lock cut_off list.head 0) z held)

    pub two-IsBatch :
        (w : ℕ)
        → WidenResult w
        → AllFree three_locked (take m ys)
        → (b : Batch) × (finish_batch list w three_locked x y ≡ some b)
          × IsBatch h list (x ∷ y ∷ ys) (suc m) b
    two-IsBatch w run free = elim (list_cases (drop m (y ∷ ys))) [
      | inl e ↦ (
        batch_of (with_lock cut_off list.head 0),
        finish-wrapped w run e,
        batch_of-IsBatch (with_lock cut_off list.head 0) (with_lock-links cut_off list.head 0)
            (with_lock-Keeps cut_off list.head 0) (wrapped-lock e),
      )
      | inr (z, zs, e) ↦ (
        batch_of (with_lock (with_lock cut_off list.head 0) z 0),
        finish-front w run e,
        batch_of-IsBatch (with_lock (with_lock cut_off list.head 0) z 0)
            (twice-links cut_off list.head z) (twice-Keeps cut_off list.head z) (front-lock e free),
      )
    ]

  pub attempt-two :
      (shared : ℕ → Bool)
      → shared 0 ≡ true
      → batch_attempt shared list 0 h ≡ some (done (two three_locked x y))
  unfolding batch_attempt
  attempt-two shared e =
      let l₁ : Heap = with_lock h list.head 1 in
      let l₂ : Heap = with_lock l₁ x 1 in
      let at_x : (l₁ list.head).flink ≡ x =
        (with_lock-links h list.head 1 list.head).0 ∙ is.ring.0 in
      let at_y : (l₂ x).flink ≡ y =
        (with_lock-links l₁ x 1 x).0 ∙ (with_lock-links h list.head 1 x).0 ∙ is.ring.2.0 in
      let f₂ : (l₁ x).lock ≡ 0 = ground (arith, is.apart, with_lock-lock h list.head 1 x, free_x) in
      let f₃ : (l₂ y).lock ≡ 0 =
        ground (arith, is.apart, with_lock-lock l₁ x 1 y, with_lock-lock h list.head 1 y, free_y) in
      let nx : (x == list.head) ≡ false = ground (arith, is.apart) in
      let ny : (y == list.head) ≡ false = ground (arith, is.apart) in
      rw
        (
          e,
          try_lock_pfn-free h list.head free_head,
          at_x,
          nx,
          try_lock_pfn-free l₁ x f₂,
          at_y,
          ny,
          try_lock_pfn-free l₂ y f₃,
        )
        refl
