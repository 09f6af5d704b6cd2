-- ===== src/Initializer/Dealt.antt =====
-- The whole loop of `initialize_PFN_data`.
use mathlib.Core.Path.{fun_ext}
use memory_manager.Base.{
  ℕ, ◌+◌, ◌%◌, ◌^◌, ◌<◌, ◌≤◌, ◌≡◌, ◌≢◌, refl, ap, ◌∙◌, true, false, arith, update, ◌==◌,
  if◌then◌else◌, List, [], ◌∷◌, ◌++◌, has, distinct, length, has-append, ℕ_discrete, update_self,
  update-ne,
}
use memory_manager.Pfn.{Heap, create_zeroed_pfn}
use memory_manager.PageList.{insert_to_list_tail, increment_list_size, change_list_size}
use memory_manager.System.{FreeLists}
use memory_manager.FreeLists.{change_free_lists_total_count}
use memory_manager.Initializer.{initialize_pfn_data}
use memory_manager.Initializer.Deal.{share, AreApart, deal_one}

snoc-append : (xs : List ℕ) (p : ℕ) (ys : List ℕ) → (xs ++ p ∷ []) ++ ys ≡ xs ++ p ∷ ys
snoc-append [] p ys = refl
snoc-append (x ∷ xs) p ys = ap (λ l. x ∷ l) (snoc-append xs p ys)

nil-append : (xs : List ℕ) → xs ++ [] ≡ xs
nil-append [] = refl
nil-append (x ∷ xs) = ap (λ l. x ∷ l) (nil-append xs)

share_here : (j k p : ℕ) (ps : List ℕ) → j ≡ k → share j k (p ∷ ps) ≡ p ∷ share j ((k + 1) % 16) ps
share_here j k p ps e = ground arith

share_there : (j k p : ℕ) (ps : List ℕ) → j ≢ k → share j k (p ∷ ps) ≡ share j ((k + 1) % 16) ps
share_there j k p ps ne = ground arith

-- What a list has after one more page, and what it has in the end.
share_step :
    (ls : ℕ → List ℕ) (j k p : ℕ) (ps : List ℕ)
    → update ls k (ls k ++ p ∷ []) j ++ share j ((k + 1) % 16) ps ≡ ls j ++ share j k (p ∷ ps)
share_step ls j k p ps = elim (ℕ_discrete j k) [
  | yes e ↦
      let now : update ls k (ls k ++ p ∷ []) j ≡ ls j ++ p ∷ [] =
        rw e (update_self ls k (ls k ++ p ∷ [])) in
      rw (now, share_here j k p ps e) (snoc-append (ls j) p (share j ((k + 1) % 16) ps))
  | no ne ↦ rw (update-ne ls k j (ls k ++ p ∷ []) ne, share_there j k p ps ne) refl
]

abbrev fed : FreeLists → ℕ → FreeLists
fed f k =
    change_free_lists_total_count
      (record f { list_array = update f.list_array k (increment_list_size (f.list_array k)) }) 1

fed-heads : (f : FreeLists) (k j : ℕ) → ((fed f k).list_array j).head ≡ (f.list_array j).head
unfolding change_free_lists_total_count increment_list_size update
fed-heads f k j = ground arith

fed-number : (f : FreeLists) (k : ℕ) → (fed f k).number_of_lists ≡ f.number_of_lists
unfolding change_free_lists_total_count
fed-number f k = refl

-- One round of the loop.
pfn_data-step :
    (p : ℕ) (ps : List ℕ) (k a : ℕ) (h : Heap) (f : FreeLists)
    → f.number_of_lists ≡ 16
    → (f.list_array k).head ≡ a
    → initialize_pfn_data (p ∷ ps) k h f
      ≡ initialize_pfn_data ps
          ((k + 1) % 16)
          (insert_to_list_tail (update h p (create_zeroed_pfn (h p))) a p)
          (fed f k)
unfolding initialize_pfn_data
pfn_data-step p ps k a h f num head =
    ap
      (λ m.
        initialize_pfn_data ps ((k + 1) % m)
          (insert_to_list_tail (update h p (create_zeroed_pfn (h p))) (f.list_array k).head p)
          (fed f k))
      num
    ∙ ap
        (λ b.
          initialize_pfn_data ps ((k + 1) % 16)
            (insert_to_list_tail (update h p (create_zeroed_pfn (h p))) b p) (fed f k))
        head

still_out :
    (heads : ℕ → ℕ) (ls : ℕ → List ℕ) (k p j q : ℕ)
    → has q (heads j ∷ ls j) ≡ false
    → q ≢ p
    → has q (heads j ∷ update ls k (ls k ++ p ∷ []) j) ≡ false
unfolding update
still_out heads ls k p j q out ne = ground (arith, out, has-append q (ls k) (p ∷ []))

-- After the loop each list has, behind the pages that it had, its share of the frames.
pub initialize_pfn_data-AreApart :
    (frames : List ℕ) (k n : ℕ) (heads : ℕ → ℕ) (h : Heap) (ls : ℕ → List ℕ) (f : FreeLists)
    → k < 16
    → 16 ≤ n
    → f.number_of_lists ≡ 16
    → ((j : ℕ) → j < 16 → (f.list_array j).head ≡ heads j)
    → AreApart n heads h ls
    → distinct frames ≡ true
    → ((j p : ℕ) → j < n → has p frames ≡ true → has p (heads j ∷ ls j) ≡ false)
    → AreApart n heads (initialize_pfn_data frames k h f).0 (λ j. ls j ++ share j k frames)
unfolding initialize_pfn_data
initialize_pfn_data-AreApart [] k n heads h ls f lt le num at before d out =
    let e : (λ j. ls j ++ []) ≡ ls = fun_ext (λ j. nil-append (ls j)) in rw e before
initialize_pfn_data-AreApart (p ∷ ps) k n heads h ls f lt le num at before d out =
    let kn : k < n = omega (arith, lt, le) in
    let run = pfn_data-step p ps k (heads k) h f num (at k lt) in
    let one = deal_one heads h ls k p kn before (λ j jn. out j p jn (ground arith)) in
    let grown : ℕ → List ℕ = update ls k (ls k ++ p ∷ []) in
    let e : ◌≡◌ {A = ℕ → List ℕ} (λ j. grown j ++ share j ((k + 1) % 16) ps)
        (λ j. ls j ++ share j k (p ∷ ps)) =
      fun_ext (λ j. share_step ls j k p ps) in
    let rest =
      initialize_pfn_data-AreApart ps ((k + 1) % 16) n heads
        (insert_to_list_tail (update h p (create_zeroed_pfn (h p))) (heads k) p) grown (fed f k)
        (omega arith) le (fed-number f k ∙ num) (λ j jl. fed-heads f k j ∙ at j jl) one
        (ground arith)
        (λ j q jn m. still_out heads ls k p j q (out j q jn (ground arith)) (ground arith)) in
    rw run (rw e at rest)

fed_size :
    (f : FreeLists) (k j : ℕ)
    → ((fed f k).list_array j).list_size
      ≡ (if j == k then ((f.list_array j).list_size + 1) % 2 ^ 64 else (f.list_array j).list_size)
unfolding change_free_lists_total_count increment_list_size change_list_size update
fed_size f k j = ground arith

-- The sizes and the count of free pages after the loop.
pub initialize_pfn_data-counts :
    (frames : List ℕ) (k : ℕ) (h : Heap) (f : FreeLists)
    → f.number_of_lists ≡ 16
    → f.page_count < 2 ^ 64
    → ((initialize_pfn_data frames k h f).1.page_count ≡ (f.page_count + length frames) % 2 ^ 64)
      × ((initialize_pfn_data frames k h f).1.number_of_lists ≡ 16)
unfolding initialize_pfn_data change_free_lists_total_count
initialize_pfn_data-counts [] k h f num small = (omega arith, num)
initialize_pfn_data-counts (p ∷ ps) k h f num small =
    let ih =
      initialize_pfn_data-counts ps ((k + 1) % f.number_of_lists)
        (insert_to_list_tail (update h p (create_zeroed_pfn (h p))) (f.list_array k).head p)
        (fed f k) num (omega arith) in
    (omega (arith, ih.0), ih.1)

pub initialize_pfn_data-sizes :
    (frames : List ℕ) (j k : ℕ) (h : Heap) (f : FreeLists)
    → f.number_of_lists ≡ 16
    → (f.list_array j).list_size < 2 ^ 64
    → ((initialize_pfn_data frames k h f).1.list_array j).list_size
        ≡ ((f.list_array j).list_size + length (share j k frames)) % 2 ^ 64
      × (((initialize_pfn_data frames k h f).1.list_array j).head ≡ (f.list_array j).head)
unfolding initialize_pfn_data change_free_lists_total_count increment_list_size update
initialize_pfn_data-sizes [] j k h f num small = (omega arith, refl)
initialize_pfn_data-sizes (p ∷ ps) j k h f num small =
    let run = pfn_data-step p ps k (f.list_array k).head h f num refl in
    let ih =
      initialize_pfn_data-sizes ps j ((k + 1) % 16)
        (insert_to_list_tail (update h p (create_zeroed_pfn (h p))) (f.list_array k).head p)
        (fed f k) num (ground (arith, fed_size f k j, small)) in
    rw run (
      ih.0 ∙ ground (arith, fed_size f k j, small, share_here j k p ps, share_there j k p ps),
      ih.1 ∙ fed-heads f k j,
    )
