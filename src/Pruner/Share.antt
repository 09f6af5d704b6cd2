-- ===== src/Pruner/Share.antt =====
-- One list's share of the pruner's batch.
use memory_manager.Base.{
  ℕ, ◌<◌, ◌≡◌, ◌≢◌, refl, sym, ap, ◌∙◌, true, false, arith, some, List, [], ◌∷◌, ◌++◌, has,
  distinct, length, has-ne, has-append, has-append_apart, distinct-append, apart_front,
}
use mathlib.Core.Path.{subst}
use mathlib.Core.List.{append_assoc}
use memory_manager.Pfn.{Pfn, Heap}
use memory_manager.PageList.{PageList, initialize_list_head}
use memory_manager.PageList.Ring.{IsList, IsList-unique, Seg-last}
use memory_manager.PageList.Walk.{along, along-same}
use memory_manager.PageList.Attempts.{done}
use memory_manager.PageList.Locked.{insert_list_to_tail_list}
use memory_manager.PageList.Tries.{found}
use memory_manager.PageList.Joins.{is_open}
use memory_manager.PageList.Publish.{IsCollected, IsJoined, insert_list_to_tail_list-IsJoined}
use memory_manager.Trimmer.Join.{empty_head, IsList-off}
use memory_manager.Pruner.{fill_temp}
use memory_manager.Pruner.Fill.{IsFilled, fill_temp_lem}

-- What one list's share leaves, of a batch whose rest is `ys`.
pub record IsShared (h : Heap) (list : PageList) (temp : ℕ) (pages xs ys : List ℕ) (g : Heap)
    (next : ℕ) : Type 0 where
  pub joined : IsList g list.head (pages ++ xs)
  pub behind : along g next (length ys) ≡ ys
  pub elsewhere : (q : ℕ) → has q (temp ∷ list.head ∷ pages ++ xs) ≡ false → g q ≡ h q

module _ (list : PageList) (temp x : ℕ) (xs ys pages : List ℕ) (h : Heap)
    (is : IsList h list.head pages)
    (d : distinct (temp ∷ list.head ∷ pages ++ ((x ∷ xs) ++ ys)) ≡ true)
    (opened : is_open list h ≡ true) where
  abbrev share : List ℕ
  share = x ∷ xs

  abbrev start : Heap
  start = initialize_list_head h temp

  temp_off : (has temp (list.head ∷ pages) ≡ false) × (has temp (share ++ ys) ≡ false)
  temp_off = ground (arith, d, has-append temp pages (share ++ ys))

  all_apart : distinct ((list.head ∷ pages) ++ (share ++ ys)) ≡ true
  all_apart = ground (arith, d)

  on_list : (q : ℕ) → has q (list.head ∷ pages) ≡ true → (q ≢ temp) × (has q (temp ∷ share) ≡ false)
  on_list q m =
      let ne : q ≢ temp = has-ne q temp (list.head ∷ pages) m temp_off.0 in
      let off = has-append_apart (list.head ∷ pages) (share ++ ys) q all_apart m in
      (ne, ground (arith, ne, off, has-append q share ys))

  module _ (h₁ : Heap) (next : ℕ) (f : IsFilled start temp [] share ys h₁ next) where
    same : (q : ℕ) → has q (temp ∷ share) ≡ false → h₁ q ≡ h q
    same q off = f.elsewhere q off ∙ (empty_head h temp).1 q (ground (arith, off))

    still-IsList : IsList h₁ list.head pages
    still-IsList = IsList-off h h₁ list.head pages (λ q m. same q (on_list q m).1) is

    still_open : is_open list h₁ ≡ true
    still_open =
        let tail = Seg-last h list.head pages list.head is.ring in
        let e = same list.head (on_list list.head (ground arith)).1 in
        let e' = same (h list.head).blink (on_list (h list.head).blink tail).1 in rw (e, e') opened

    collected : IsCollected list temp share h₁ h₁
    collected = record {
      pages = pages;
      is = still-IsList;
      from = f.filled;
      apart =
          let assoc : (temp ∷ list.head ∷ pages) ++ (share ++ ys)
              ≡ (temp ∷ list.head ∷ pages ++ share) ++ ys =
            sym (append_assoc (temp ∷ list.head ∷ pages) share ys) in
          (distinct-append (temp ∷ list.head ∷ pages ++ share) ys (sym (ap distinct assoc) ∙ d)).0;
      held = λ q m. refl;
    }

    joined-IsShared :
        (g : Heap)
        → IsJoined list temp pages share h₁ g
        → ((q : ℕ) → has q (list.head ∷ pages ++ share) ≡ false → g q ≡ h₁ q)
        → IsShared h list temp pages share ys g next
    joined-IsShared g j far = record {
      joined = j.is;
      behind =
          let assoc : (list.head ∷ pages) ++ (share ++ ys) ≡ (list.head ∷ pages ++ share) ++ ys =
            sym (append_assoc (list.head ∷ pages) share ys) in
          let apart : distinct ((list.head ∷ pages ++ share) ++ ys) ≡ true =
            sym (ap distinct assoc) ∙ all_apart in
          along-same h₁ g next (length ys) (λ q m.
            let on : has q ys ≡ true = sym (ap (has q) f.behind) ∙ m in
            ap (λ (r : Pfn). r.flink)
              (far q (apart_front (list.head ∷ pages ++ share) ys q apart on)))
          ∙ f.behind;
      elsewhere = λ q off.
          let both = has-append q pages share in
          far q (ground (arith, off)) ∙ same q (ground (arith, off, both));
    }

    join_share :
        (others : ℕ → Heap → Heap) (fuel : ℕ)
        → ((n : ℕ) (g : Heap) → others n g ≡ g)
        → 0 < fuel
        → (g : Heap) × (insert_list_to_tail_list others fuel list temp h₁ ≡ some (done g))
          × IsShared h list temp pages share ys g next
    join_share others fuel idle pos =
        let (j, g, before, le, run, at, keeps, far, joined) =
          insert_list_to_tail_list-IsJoined others 0 fuel list temp x xs h₁ h₁ collected
            (λ n f d. subst (IsCollected list temp share h₁) (sym (idle n f)) d) pos still_open in
        let now : j ≡ 0 = omega (arith, le) in
        let at' : IsList h₁ list.head before =
          subst (λ v. IsList (found others 0 v h₁) list.head before) now at in
        let far' =
          subst
            (λ v.
              (q : ℕ) → has q (list.head ∷ before ++ share) ≡ false → g q ≡ found others 0 v h₁ q)
            now far in
        let ours : before ≡ pages = IsList-unique h₁ list.head before pages at' still-IsList in
        (
          g,
          run,
          joined-IsShared g (subst (λ l. IsJoined list temp l share h₁ g) ours joined) (
              subst (λ l. (q : ℕ) → has q (list.head ∷ l ++ share) ≡ false → g q ≡ h₁ q) ours far'),
        )

  -- One round of the loop over the lists, where no other thread acts: the share is taken off the
  -- front of the batch and is at the end of the list.
  pub share_lem :
      (others : ℕ → Heap → Heap) (fuel current : ℕ)
      → ((n : ℕ) (g : Heap) → others n g ≡ g)
      → 0 < fuel
      → along h current (length (share ++ ys)) ≡ share ++ ys
      → (h₁ g : Heap) × (next : ℕ) × (fill_temp (length share) current temp start ≡ (h₁, next))
        × (insert_list_to_tail_list others fuel list temp h₁ ≡ some (done g))
        × IsShared h list temp pages share ys g next
  share_lem others fuel current idle pos walk =
      let head = empty_head h temp in
      let walk₀ : along start current (length (share ++ ys)) ≡ share ++ ys =
        along-same h start current (length (share ++ ys)) (λ q m.
          let on : has q (share ++ ys) ≡ true = sym (ap (has q) walk) ∙ m in
          ap (λ (r : Pfn). r.flink) (head.1 q (has-ne q temp (share ++ ys) on temp_off.1)))
        ∙ walk in
      let apart : distinct (temp ∷ [] ++ (share ++ ys)) ≡ true =
        ground (arith, temp_off, distinct-append (list.head ∷ pages) (share ++ ys), all_apart) in
      let (h₁, next, run, f) = fill_temp_lem share ys current temp [] start head.0 apart walk₀ in
      let (g, join, done_now) = join_share h₁ next f others fuel idle pos in
      (h₁, g, next, run, join, done_now)
