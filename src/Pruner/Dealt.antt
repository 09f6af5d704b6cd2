-- ===== src/Pruner/Dealt.antt =====
-- The pruner's loop over the lists to fill, undisturbed.
use mathlib.Core.Path.{subst}
use mathlib.Core.List.{append-nil}
use memory_manager.Base.{
  ℕ, zero, suc, ◌+◌, ◌-◌, ◌<◌, ◌≤◌, ◌≡◌, ◌≢◌, refl, sym, ap, ◌∙◌, true, false, arith, some, List,
  [], ◌∷◌, ◌++◌, has, distinct, length, take, drop, has-ne, has-append, take-append-drop,
  length-take, update-ne, ℕ_discrete, inl, inr,
}
use memory_manager.Pfn.{Pfn, Heap}
use memory_manager.PageList.{PageList, initialize_list_head}
use memory_manager.PageList.Walk.{along, along-same}
use memory_manager.PageList.Ends.{list_cases}
use memory_manager.System.{System}
use memory_manager.Trimmer.Join.{empty_head, IsList-off}
use memory_manager.Pruner.{fill_temp, fill_lists}
use memory_manager.Pruner.Share.{IsShared, share_lem}
use memory_manager.Pruner.Deal.{
  share_size, total, IsDealable, AreDealt, skipped, filled, fill_nil, fill-skip, fill-one,
}
use memory_manager.Pruner.Step.{IsStep, step-IsDealable, step-AreDealt}

length-drop : (n : ℕ) (xs : List ℕ) → length (drop n xs) ≡ length xs - n
length-drop zero xs = omega arith
length-drop (suc n) [] = omega arith
length-drop (suc n) (x ∷ xs) = omega (arith, length-drop n xs)

module _ (s : System) (temps : ℕ → ℕ) (k : ℕ) (pages : ℕ → List ℕ) (index : ℕ) (rest batch : List ℕ)
    (first : ℕ) (able : IsDealable s temps pages (index ∷ rest) batch first) where
  abbrev list : PageList
  list = s.free_lists.list_array index

  mine : distinct (temps k ∷ list.head ∷ pages index ++ batch) ≡ true
  mine = able.apart index k (ground arith)

  skipped-IsStep : IsStep s (skipped s (temps k)) (temps k) pages index 0 batch first
  skipped-IsStep =
      let same = (empty_head s.heap (temps k)).1 in
      let both = has-append (temps k) (pages index) batch in
      let off : has (temps k) (list.head ∷ pages index) ≡ false = ground (arith, mine, both) in
      let off' : has (temps k) batch ≡ false = ground (arith, mine, both) in
      record {
        list = rw (append-nil (pages index)) (
            IsList-off s.heap (skipped s (temps k)).heap list.head (pages index)
              (λ q m. same q (has-ne q (temps k) (list.head ∷ pages index) m off))
              (able.lists index (ground arith)));
        elsewhere = λ q out. same q (ground (arith, out));
        others = λ j ne. refl;
        walk =
            along-same s.heap (skipped s (temps k)).heap first (length batch) (λ q m.
              let on : has q batch ≡ true = sym (ap (has q) able.walk) ∙ m in
              ap (λ (r : Pfn). r.flink) (same q (has-ne q (temps k) batch on off')))
            ∙ able.walk;
        rest = refl;
      }

  filled-IsStep :
      (n : ℕ) (g : Heap) (next : ℕ)
      → IsShared s.heap list (temps k) (pages index) (take n batch) (drop n batch) g next
      → IsStep s (filled s index n g) (temps k) pages index n batch next
  filled-IsStep n g next sh = record {
    list = sh.joined;
    elsewhere = sh.elsewhere;
    others = λ j ne. update-ne s.free_lists.list_array index j _ ne;
    walk = sh.behind;
    rest = refl;
  }

  -- A share that is not empty is dealt.
  one_round :
      (others : ℕ → Heap → Heap) (fuel small extra n : ℕ)
      → ((n : ℕ) (g : Heap) → others n g ≡ g)
      → 0 < fuel
      → share_size small extra rest ≡ n
      → n ≢ 0
      → n ≤ length batch
      → (g : Heap) × (next : ℕ) × (fill_lists others fuel temps small extra k first (index ∷ rest) s
          ≡ fill_lists others fuel temps small extra (k + 1) next rest (filled s index n g))
        × IsStep s (filled s index n g) (temps k) pages index n batch next
  one_round others fuel small extra n idle pos e some_pages few = elim (list_cases (take n batch)) [
    | inl none_taken ↦ absurd (
        let l : length (take n batch) ≡ 0 = ap length none_taken in
        omega (arith, l, length-take n batch, some_pages, few))
    | inr (x, xs, taken) ↦
        let ys : List ℕ = drop n batch in
        let whole : (x ∷ xs) ++ ys ≡ batch =
          ap (λ l. l ++ ys) (sym taken) ∙ take-append-drop n batch in
        let size : length (x ∷ xs) ≡ n =
          sym (ap length taken) ∙ omega (arith, length-take n batch, few) in
        let (h₁, g, next, run, join, shared) =
          share_lem list (temps k) x xs ys (pages index) s.heap (able.lists index (ground arith))
            (ap (λ l. distinct (temps k ∷ list.head ∷ pages index ++ l)) whole ∙ mine)
            (able.opened index (ground arith)) others fuel first idle pos
            (ap (λ l. along s.heap first (length l)) whole ∙ able.walk ∙ sym whole) in
        (
          g,
          next,
          fill-one others fuel temps small extra k first index n rest s h₁ g next e some_pages
              (subst
                (λ v.
                  fill_temp v first (temps k) (initialize_list_head s.heap (temps k)) ≡ (h₁, next))
                size run)
              join,
          filled-IsStep n g next (
              subst (λ l. IsShared s.heap list (temps k) (pages index) l ys g next) (sym taken)
                shared),
        )
  ]

-- Dealing
pub fill_lists_lem :
    (others : ℕ → Heap → Heap) (fuel : ℕ) (temps : ℕ → ℕ) (small extra k first : ℕ)
    (todo batch : List ℕ) (pages : ℕ → List ℕ) (s : System)
    → ((n : ℕ) (g : Heap) → others n g ≡ g)
    → 0 < fuel
    → total small extra todo ≤ length batch
    → IsDealable s temps pages todo batch first
    → (s' : System) × (fill_lists others fuel temps small extra k first todo s ≡ some s')
      × AreDealt s s' temps pages small extra todo batch
fill_lists_lem others fuel temps small extra k first [] batch pages s idle pos few able = (
  s,
  fill_nil others fuel temps small extra k first s,
  record { lists = λ i m. absurd (ground (arith, m)); elsewhere = λ q a b c. refl; rest = refl },
)
fill_lists_lem others fuel temps small extra k first (index ∷ rest) batch pages s idle pos few
      able =
    let n : ℕ = share_size small extra rest in
    elim (ℕ_discrete n 0) [
      | yes none_wanted ↦
          let st = skipped-IsStep s temps k pages index rest batch first able in
          let s₁ : System = skipped s (temps k) in
          let (s', run, r) =
            fill_lists_lem others fuel temps small extra (k + 1) first rest batch pages s₁ idle pos
              (omega arith)
              (step-IsDealable s s₁ temps k pages index 0 rest batch first first able st) in
          (
            s',
            fill-skip others fuel temps small extra k first index rest s none_wanted ∙ run,
            step-AreDealt s s₁ temps k pages index 0 rest batch first first able st s' small extra
                none_wanted r,
          )
      | no wanted ↦
          let (g, next, step, st) =
            one_round s temps k pages index rest batch first able others fuel small extra n idle pos
              refl wanted (omega arith) in
          let s₁ : System = filled s index n g in
          let left = length-drop n batch in
          let (s', run, r) =
            fill_lists_lem others fuel temps small extra (k + 1) next rest (drop n batch) pages s₁
              idle pos (omega arith)
              (step-IsDealable s s₁ temps k pages index n rest batch first next able st) in
          (
            s',
            step ∙ run,
            step-AreDealt s s₁ temps k pages index n rest batch first next able st s' small extra
                refl r,
          )
    ]
