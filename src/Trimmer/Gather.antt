-- ===== src/Trimmer/Gather.antt =====
-- The trimmer's batch on its temporary list.
use mathlib.Core.List.{append_assoc, append-nil}
use memory_manager.Base.{
  ℕ, ◌≡◌, refl, ◌∙◌, true, false, arith, update, if◌then◌else◌, List, [], ◌∷◌, ◌++◌, has, distinct,
  has-append, distinct-mid, has-ne,
}
use memory_manager.Pfn.{Heap, set_pfn_status}
use memory_manager.PageList.{insert_to_list_tail}
use memory_manager.PageList.Ring.{IsList, Seg-last}
use memory_manager.PageList.Walk.{IsList-links}
use memory_manager.PageList.Edit.{insert_to_list_tail_lem}
use memory_manager.System.{System}
use memory_manager.Trimmer.{collect_modified}

-- The records of the batch are modified, the others as they were.
abbrev pub marked : List ℕ → Heap → Heap
marked xs h q = if has q xs then record (h q) { status = 3 } else h q

-- The batch is on the temporary list, behind the pages that were there, and no record off that list
-- has changed.
pub record IsGathered (h : Heap) (temp : ℕ) (before xs : List ℕ) (h' : Heap) : Type 0 where
  pub collected : IsList h' temp (before ++ xs)
  pub payload :
      (q : ℕ) → h' q ≡ record (marked xs h q) { flink = (h' q).flink; blink = (h' q).blink }
  pub others : (q : ℕ) → has q (temp ∷ before ++ xs) ≡ false → h' q ≡ h q

abbrev gathered_one : Heap → (temp p : ℕ) → Heap
gathered_one h temp p = insert_to_list_tail (update h p (record (h p) { status = 3 })) temp p

one-IsGathered :
    (h : Heap) (temp : ℕ) (before : List ℕ) (p : ℕ)
    → IsList h temp before
    → has p (temp ∷ before) ≡ false
    → IsGathered h temp before (p ∷ []) (gathered_one h temp p)
unfolding update
one-IsGathered h temp before p is out =
    let h₁ : Heap = update h p (record (h p) { status = 3 }) in
    let same = IsList-links h h₁ temp before (λ q. ground arith) is in
    let r = insert_to_list_tail_lem h₁ temp p before same out in
    record {
      collected = r.0;
      payload = λ q. ground (arith, r.1.payload q);
      others = λ q off.
          let tail = Seg-last h₁ temp before temp same.ring in
          let ap_has = has-append q before (p ∷ []) in
          let ne = has-ne (h₁ temp).blink q (temp ∷ before) tail in
          ground (arith, r.1.same q, ne, ap_has, off);
    }

cons-IsGathered :
    (h h₁ h' : Heap) (temp : ℕ) (before : List ℕ) (p : ℕ) (xs : List ℕ)
    → IsGathered h temp before (p ∷ []) h₁
    → IsGathered h₁ temp (before ++ p ∷ []) xs h'
    → IsGathered h temp before (p ∷ xs) h'
cons-IsGathered h h₁ h' temp before p xs one rest =
    let joined : (before ++ p ∷ []) ++ xs ≡ before ++ p ∷ xs = append_assoc before (p ∷ []) xs in
    record {
      collected = rw joined at rest.collected;
      payload = λ q. ground (arith, one.payload q, rest.payload q);
      others = λ q off.
          let far = rest.others q (rw joined off) in
          let near =
            one.others q
              (ground (arith, off, has-append q before (p ∷ []), has-append q before (p ∷ xs))) in
          far ∙ near;
    }

collect-step :
    (temp p : ℕ) (xs : List ℕ) (s : System)
    → collect_modified temp (p ∷ xs) s
      ≡ collect_modified temp xs (record s { heap = gathered_one s.heap temp p })
unfolding collect_modified set_pfn_status
collect-step temp p xs s = refl

collect_nil : (temp : ℕ) (s : System) → collect_modified temp [] s ≡ s
unfolding collect_modified
collect_nil temp s = refl

pub collect_modified_lem :
    (temp : ℕ) (before xs : List ℕ) (s : System)
    → IsList s.heap temp before
    → distinct (temp ∷ before ++ xs) ≡ true
    → (h : Heap) × (collect_modified temp xs s ≡ record s { heap = h })
      × IsGathered s.heap temp before xs h
collect_modified_lem temp before [] s is d = (
  s.heap,
  collect_nil temp s,
  record { collected = rw (append-nil before) is; payload = λ q. refl; others = λ q off. refl },
)
collect_modified_lem temp before (p ∷ xs) s is d =
    let out : has p (temp ∷ before) ≡ false = ground (
      arith,
      d,
      has-append temp before (p ∷ xs),
      distinct-mid before p xs,
      has-append p before xs,
    ) in
    let joined : (before ++ p ∷ []) ++ xs ≡ before ++ p ∷ xs = append_assoc before (p ∷ []) xs in
    let one = one-IsGathered s.heap temp before p is out in
    let h₁ : Heap = gathered_one s.heap temp p in
    let (h, run, rest) =
      collect_modified_lem temp (before ++ p ∷ []) xs (record s { heap = h₁ }) one.collected
        (rw joined d) in
    (h, collect-step temp p xs s ∙ run, cons-IsGathered s.heap h₁ h temp before p xs one rest)
