-- ===== src/Pruner/Step.antt =====
-- One round of the pruner's loop over the lists, and the lists that are still to fill.
use mathlib.Core.Path.{subst}
use mathlib.Core.List.{append_assoc}
use memory_manager.Base.{
  ℕ, ◌≡◌, ◌≢◌, sym, ap, ◌∙◌, true, false, arith, List, [], ◌∷◌, ◌++◌, has, distinct, length, take,
  drop, has-ne, has-append, has-append_apart, distinct-append, take-append-drop, apart_front,
  has-take, ℕ_discrete, Bool-cases, inl, inr,
}
use memory_manager.PageList.{PageList}
use memory_manager.PageList.Ring.{IsList, Seg-last}
use memory_manager.PageList.Joins.{is_open}
use memory_manager.PageList.Walk.{along}
use memory_manager.System.{System}
use memory_manager.Trimmer.Join.{IsList-off}
use memory_manager.Pruner.Deal.{share_size, share_of, IsDealable, AreDealt}

-- One list has got `n` pages from the front of the batch; no record has changed but its own, those
-- of these pages and the head of the temporary list.
pub record IsStep (s s₁ : System) (temp : ℕ) (pages : ℕ → List ℕ) (index n : ℕ) (batch : List ℕ)
    (next : ℕ) : Type 0 where
  pub list : IsList s₁.heap (s.free_lists.list_array index).head (pages index ++ take n batch)
  pub elsewhere :
      (q : ℕ)
      → has q (temp ∷ (s.free_lists.list_array index).head ∷ pages index ++ take n batch) ≡ false
      → s₁.heap q ≡ s.heap q
  pub others : (j : ℕ) → j ≢ index → s₁.free_lists.list_array j ≡ s.free_lists.list_array j
  pub walk : along s₁.heap next (length (drop n batch)) ≡ drop n batch
  pub rest : s₁ ≡ record s { heap = s₁.heap; free_lists = s₁.free_lists }

pub distinct-later :
    (xs ys zs : List ℕ) → distinct (xs ++ (ys ++ zs)) ≡ true → distinct (xs ++ zs) ≡ true
distinct-later [] ys zs d = (distinct-append ys zs d).1
distinct-later (x ∷ xs) ys zs d = ground (
  arith,
  d,
  distinct-later xs ys zs,
  has-append x xs (ys ++ zs),
  has-append x ys zs,
  has-append x xs zs,
)

module _ (s s₁ : System) (temps : ℕ → ℕ) (k : ℕ) (pages : ℕ → List ℕ) (index n : ℕ)
    (rest batch : List ℕ) (first next : ℕ)
    (able : IsDealable s temps pages (index ∷ rest) batch first)
    (st : IsStep s s₁ (temps k) pages index n batch next) where
  abbrev head : ℕ → ℕ
  head i = (s.free_lists.list_array i).head

  later : (i : ℕ) → has i rest ≡ true → (i ≢ index) × (has i (index ∷ rest) ≡ true)
  later i m = (has-ne i index rest m (ground (arith, able.different)), ground (arith, m))

  whole : take n batch ++ drop n batch ≡ batch
  whole = take-append-drop n batch

  -- A record of another list is none of those that the round writes.
  spared : (i q : ℕ) → has i rest ≡ true → has q (head i ∷ pages i) ≡ true → s₁.heap q ≡ s.heap q
  spared i q m on =
      let (ne, mi) = later i m in
      let apart = able.apart i k mi in
      let off = able.separate i index q mi (ground arith) ne on in
      let out = has-append_apart (head i ∷ pages i) batch q (ground (arith, apart)) on in
      let temp_off : has (temps k) (head i ∷ pages i) ≡ false =
        ground (arith, apart, has-append (temps k) (pages i) batch) in
      let ne' : q ≢ temps k = has-ne q (temps k) (head i ∷ pages i) on temp_off in
      st.elsewhere q (
        ground
          (arith, off, out, ne', has-append q (pages index) (take n batch), has-take q n batch))

  kept_list : (i : ℕ) → has i rest ≡ true → s₁.free_lists.list_array i ≡ s.free_lists.list_array i
  kept_list i m = st.others i (later i m).0

  kept_open : (i : ℕ) → has i rest ≡ true → is_open (s.free_lists.list_array i) s₁.heap ≡ true
  kept_open i m =
      let mi = (later i m).1 in
      let tail = Seg-last s.heap (head i) (pages i) (head i) (able.lists i mi).ring in
      let e = spared i (head i) m (ground arith) in
      let e' = spared i (s.heap (head i)).blink m tail in rw (e, e') (able.opened i mi)

  pub step-IsDealable : IsDealable s₁ temps pages rest (drop n batch) next
  step-IsDealable = record {
    lists = λ i m. rw (kept_list i m) (
        IsList-off s.heap s₁.heap (head i) (pages i) (λ q on. spared i q m on)
          (able.lists i (later i m).1));
    opened = λ i m. rw (kept_list i m) (kept_open i m);
    apart = λ i j m. rw (kept_list i m) (
        distinct-later (temps j ∷ head i ∷ pages i) (take n batch) (drop n batch)
          (rw whole (able.apart i j (later i m).1)));
    separate = λ i j q mi mj ne on.
        let on' : has q (head i ∷ pages i) ≡ true =
          subst (λ (l : PageList). has q (l.head ∷ pages i) ≡ true) (kept_list i mi) on in
        rw (kept_list j mj) (able.separate i j q (later i mi).1 (later j mj).1 ne on');
    different = ground (arith, able.different);
    walk = st.walk;
  }

  -- A record of the list that the round fills is none of those that the later rounds write.
  first_spared :
      (q : ℕ)
      → has q (head index ∷ pages index ++ take n batch) ≡ true
      → (has q (drop n batch) ≡ false)
        × ((j : ℕ) → q ≢ temps j)
        × ((i : ℕ) → has i rest ≡ true → has q (head i ∷ pages i) ≡ false)
  first_spared q on =
      let mine : has index (index ∷ rest) ≡ true = ground arith in
      let on_batch : has q (head index ∷ pages index ++ batch) ≡ true = ground (
        arith,
        on,
        has-append q (pages index) (take n batch),
        has-append q (pages index) batch,
        has-take q n batch,
      ) in
      let split : (pages index ++ take n batch) ++ drop n batch ≡ pages index ++ batch =
        append_assoc (pages index) (take n batch) (drop n batch)
        ∙ ap (λ l. pages index ++ l) whole in
      let all : distinct ((head index ∷ pages index ++ take n batch) ++ drop n batch) ≡ true =
        ap (λ l. distinct (head index ∷ l)) split ∙ ground (arith, able.apart index k mine) in
      (
        has-append_apart (head index ∷ pages index ++ take n batch) (drop n batch) q all on,
        (λ j.
            has-ne q (temps j) (head index ∷ pages index ++ batch) on_batch
              (ground (arith, able.apart index j mine))),
        λ i m. elim (Bool-cases (has q (head index ∷ pages index))) [
          | inl own ↦ able.separate index i q mine (later i m).1 (λ e. (later i m).0 (sym e)) own
          | inr other ↦
              let taken : has q batch ≡ true =
                ground (
                  arith,
                  on,
                  other,
                  has-append q (pages index) (take n batch),
                  has-take q n batch,
                ) in
              apart_front (head i ∷ pages i) batch q (ground (arith, able.apart i k (later i m).1))
                taken
        ],
      )

  first_list :
      (s' : System) (small extra : ℕ)
      → AreDealt s₁ s' temps pages small extra rest (drop n batch)
      → IsList s'.heap (head index) (pages index ++ take n batch)
  first_list s' small extra r =
      IsList-off s₁.heap s'.heap (head index) (pages index ++ take n batch)
        (λ q on.
          let (off, temp_off, lists_off) = first_spared q on in
          r.elsewhere q off temp_off (λ i m. rw (kept_list i m) (lists_off i m)))
        st.list

  pub step-AreDealt :
      (s' : System) (small extra : ℕ)
      → share_size small extra rest ≡ n
      → AreDealt s₁ s' temps pages small extra rest (drop n batch)
      → AreDealt s s' temps pages small extra (index ∷ rest) batch
  step-AreDealt s' small extra e r = record {
    lists = λ i m. elim (ℕ_discrete i index) [
      | yes same ↦
          let share : share_of small extra (index ∷ rest) batch index ≡ take n batch =
            ground (arith, e) in
          subst
            (λ v. IsList s'.heap (head v) (pages v ++ share_of small extra (index ∷ rest) batch v))
            (sym same) (rw share (first_list s' small extra r))
      | no ne ↦
          let on : has i rest ≡ true = ground (arith, m, ne) in
          let share : share_of small extra (index ∷ rest) batch i
              ≡ share_of small extra rest (drop n batch) i =
            ground (arith, ne, e) in
          rw share (
            subst
              (λ (l : PageList).
                IsList s'.heap l.head (pages i ++ share_of small extra rest (drop n batch) i))
              (kept_list i on) (r.lists i on))
    ];
    elsewhere = λ q off temp_off lists_off.
        let parts = has-append q (take n batch) (drop n batch) in
        let both : has q (take n batch ++ drop n batch) ≡ false = ap (has q) whole ∙ off in
        let mine = lists_off index (ground arith) in
        r.elsewhere q (ground (arith, both, parts)) temp_off
          (λ i m. rw (kept_list i m) (lists_off i (later i m).1))
        ∙ st.elsewhere q (
            ground
              (arith, both, parts, mine, temp_off k, has-append q (pages index) (take n batch)));
    rest =
        r.rest
        ∙ ap (λ (u : System). record u { heap = s'.heap; free_lists = s'.free_lists }) st.rest;
  }
