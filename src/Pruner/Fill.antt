-- ===== src/Pruner/Fill.antt =====
-- The temporary list that the pruner fills from its batch.
use memory_manager.Base.{
  ℕ, zero, suc, ◌≡◌, ◌≢◌, refl, sym, ap, ◌∙◌, true, false, arith, List, [], ◌∷◌, ◌++◌, has,
  distinct, length, has-ne, has-append, distinct-mid, apart_front,
}
use mathlib.Core.List.{append_assoc, append-nil}
use memory_manager.Pfn.{Pfn, Heap}
use memory_manager.PageList.{insert_to_list_tail}
use memory_manager.PageList.Ring.{IsList, Seg-last}
use memory_manager.PageList.Edit.{insert_to_list_tail_lem}
use memory_manager.PageList.Walk.{along, along-same}
use memory_manager.Pruner.{fill_temp}

-- What filling the temporary list leaves.
pub record IsFilled (h : Heap) (temp : ℕ) (before xs ys : List ℕ) (h' : Heap) (next : ℕ)
    : Type 0 where
  pub filled : IsList h' temp (before ++ xs)
  pub behind : along h' next (length ys) ≡ ys
  pub elsewhere : (q : ℕ) → has q (temp ∷ before ++ xs) ≡ false → h' q ≡ h q

fill-step :
    (n current temp : ℕ) (h : Heap)
    → fill_temp (suc n) current temp h
      ≡ fill_temp n (h current).flink temp (insert_to_list_tail h temp current)
unfolding fill_temp
fill-step n current temp h = refl

fill_nil : (current temp : ℕ) (h : Heap) → fill_temp zero current temp h ≡ (h, current)
unfolding fill_temp
fill_nil current temp h = refl

-- Insertion spares the records off the list.
inserted_elsewhere :
    (h : Heap) (temp p : ℕ) (before : List ℕ)
    → IsList h temp before
    → has p (temp ∷ before) ≡ false
    → (q : ℕ) → has q (temp ∷ before ++ p ∷ []) ≡ false
    → insert_to_list_tail h temp p q ≡ h q
inserted_elsewhere h temp p before is out q off =
    let tail = Seg-last h temp before temp is.ring in
    let both = has-append q before (p ∷ []) in
    let ne : (h temp).blink ≢ q =
      has-ne (h temp).blink q (temp ∷ before) tail (ground (arith, off, both)) in
    (insert_to_list_tail_lem h temp p before is out).1.same q (ground (arith, off, both, ne))

pub fill_temp_lem :
    (xs ys : List ℕ) (current temp : ℕ) (before : List ℕ) (h : Heap)
    → IsList h temp before
    → distinct (temp ∷ before ++ (xs ++ ys)) ≡ true
    → along h current (length (xs ++ ys)) ≡ xs ++ ys
    → (h' : Heap) × (next : ℕ) × (fill_temp (length xs) current temp h ≡ (h', next))
      × IsFilled h temp before xs ys h' next
fill_temp_lem [] ys current temp before h is d walk = (
  h,
  current,
  fill_nil current temp h,
  record { filled = rw (append-nil before) is; behind = walk; elsewhere = λ q off. refl },
)
fill_temp_lem (x ∷ xs) ys current temp before h is d walk =
    let at : current ≡ x = ground (arith, walk) in
    let tail : along h (h x).flink (length (xs ++ ys)) ≡ xs ++ ys =
      (let e = sym at in ground (arith, walk)) in
    let mid = has-append temp before (x ∷ (xs ++ ys)) in
    let mid' = has-append x before (xs ++ ys) in
    let rest = distinct-mid before x (xs ++ ys) in
    let out : has x (temp ∷ before) ≡ false = ground (arith, d, mid, mid', rest) in
    let h₁ : Heap = insert_to_list_tail h temp x in
    let is₁ = (insert_to_list_tail_lem h temp x before is out).0 in
    let joined : (before ++ x ∷ []) ++ (xs ++ ys) ≡ before ++ x ∷ (xs ++ ys) =
      append_assoc before (x ∷ []) (xs ++ ys) in
    let d₁ : distinct (temp ∷ (before ++ x ∷ []) ++ (xs ++ ys)) ≡ true = rw joined d in
    let spared = λ (q : ℕ) (m : has q (xs ++ ys) ≡ true).
      inserted_elsewhere h temp x before is out q
        (apart_front (temp ∷ before ++ x ∷ []) (xs ++ ys) q d₁ m) in
    let walk₁ : along h₁ (h x).flink (length (xs ++ ys)) ≡ xs ++ ys =
      along-same h h₁ (h x).flink (length (xs ++ ys))
        (λ q m. ap (λ (r : Pfn). r.flink) (spared q (sym (ap (has q) tail) ∙ m)))
      ∙ tail in
    let (h', next, run, f) =
      fill_temp_lem xs ys (h x).flink temp (before ++ x ∷ []) h₁ is₁ d₁ walk₁ in
    let joined' : (before ++ x ∷ []) ++ xs ≡ before ++ x ∷ xs = append_assoc before (x ∷ []) xs in
    (
      h',
      next,
      ap (λ v. fill_temp (suc (length xs)) v temp h) at ∙ fill-step (length xs) x temp h ∙ run,
      record {
        filled = rw joined' at f.filled;
        behind = f.behind;
        elsewhere = λ q off.
            let off' : has q (temp ∷ (before ++ x ∷ []) ++ xs) ≡ false = rw joined' off in
            let both = has-append q (before ++ x ∷ []) xs in
            f.elsewhere q off'
            ∙ inserted_elsewhere h temp x before is out q (ground (arith, off', both));
      },
    )
