-- ===== src/PageList/Edit.antt =====
-- Insertion at the tail and removal of one page.
use memory_manager.Base.{
  ℕ, ◌≡◌, ◌≢◌, refl, true, false, List, [], ◌∷◌, ◌++◌, arith, ◌==◌, has, distinct, has-append,
  if◌then◌else◌, has-ne, distinct-mid, distinct-snoc, has-append_apart, ◌↔◌,
}
use memory_manager.Pfn.{Heap}
use memory_manager.PageList.{insert_to_list_tail, remove_page_from_list}
use memory_manager.PageList.Ring.{Seg, IsList, SameBut, Seg-split, Seg-frame, Seg-last, Seg-first}

module _ (h : Heap) (p : ℕ) where
  abbrev removed : Heap
  removed = (remove_page_from_list h p).0

  flink-removed :
      (q : ℕ) → (removed q).flink ≡ (if q == (h p).blink then (h p).flink else (h q).flink)
  unfolding remove_page_from_list
  flink-removed q = ground arith

  blink-removed :
      (q : ℕ) → (removed q).blink ≡ (if q == (h p).flink then (h p).blink else (h q).blink)
  unfolding remove_page_from_list
  blink-removed q = ground arith

  removed-payload :
      (q : ℕ) → removed q ≡ record (h q) { flink = (removed q).flink; blink = (removed q).blink }
  unfolding remove_page_from_list
  removed-payload q = ground arith

  removed-same : (q : ℕ) → has q ((h p).blink ∷ (h p).flink ∷ []) ≡ false → removed q ≡ h q
  unfolding remove_page_from_list
  removed-same q m = ground arith

  removed-flag : (remove_page_from_list h p).1 ≡ true → (h p).flink ≡ (h p).blink
  unfolding remove_page_from_list
  removed-flag e = ground arith

  flag-removed : (h p).flink ≡ (h p).blink → (remove_page_from_list h p).1 ≡ true
  unfolding remove_page_from_list
  flag-removed e = ground arith

  -- Taking `p` out between `a` and `z` joins the two segments around it.
  Seg-removed :
      (a : ℕ) (xs ys : List ℕ) (z : ℕ)
      → Seg h a xs p
      → Seg h p ys z
      → distinct (a ∷ xs ++ p ∷ ys) ≡ true
      → has z (xs ++ p ∷ ys) ≡ false
      → Seg removed a (xs ++ ys) z
  Seg-removed a [] [] z s t d n = ground (arith, flink-removed a, blink-removed z)
  Seg-removed a [] (y ∷ ys) z s t d n = (
    ground (arith, flink-removed a),
    ground (arith, blink-removed y),
    Seg-frame h removed y ys z (λ q m. ground (arith, flink-removed q, has-ne q a (y ∷ ys)))
        (λ q m. ground (arith, blink-removed q, has-ne q y (z ∷ ys))) t.2,
  )
  Seg-removed a (x ∷ xs) ys z s t d n = (
    ground (
      arith,
      flink-removed a,
      has-append a xs (p ∷ ys),
      Seg-last h x xs p s.2,
      has-ne (h p).blink a (x ∷ xs),
    ),
    ground (
      arith,
      blink-removed x,
      has-append x xs (p ∷ ys),
      Seg-first h p ys z t,
      has-ne (h p).flink x (z ∷ ys),
    ),
    Seg-removed x xs ys z s.2 t (ground arith) (ground arith),
  )

module _ (h : Heap) (head p : ℕ) where
  pub alone_of_same_links :
      (xs ys : List ℕ)
      → Seg h head xs p
      → Seg h p ys head
      → distinct (head ∷ xs ++ p ∷ ys) ≡ true
      → (h p).flink ≡ (h p).blink
      → xs ++ ys ≡ []
  alone_of_same_links [] [] s t d e = refl
  alone_of_same_links [] (y ∷ ys) s t d e = absurd (ground arith)
  alone_of_same_links (x ∷ xs) [] s t d e = absurd (
      ground (
        arith,
        has-append head xs (p ∷ []),
        Seg-last h x xs p s.2,
        has-ne (h p).blink head (x ∷ xs),
      ))
  alone_of_same_links (x ∷ xs) (y ∷ ys) s t d e =
      absurd
        (ground (arith, Seg-last h x xs p s.2, has-append_apart (x ∷ xs) (p ∷ y ∷ ys) (h p).blink))

  same_links_of_alone :
      (xs ys : List ℕ)
      → Seg h head xs p
      → Seg h p ys head
      → xs ++ ys ≡ []
      → (h p).flink ≡ (h p).blink
  same_links_of_alone [] [] s t e = ground arith
  same_links_of_alone [] (y ∷ ys) s t e = cc
  same_links_of_alone (x ∷ xs) ys s t e = cc

module _ (h : Heap) (head p : ℕ) (xs ys : List ℕ) (is : IsList h head (xs ++ p ∷ ys)) where
  parts : Seg h head xs p × Seg h p ys head
  parts = Seg-split h head xs p ys head is.ring

  -- `remove_page_from_list` takes the page out of the list that it is on, keeps the order of the
  -- others, writes the links of its two neighbours only, and returns TRUE just when the list is
  -- empty after it.
  pub remove_page_from_list_lem :
      IsList (remove_page_from_list h p).0 head (xs ++ ys)
      × SameBut ((h p).blink ∷ (h p).flink ∷ []) h (remove_page_from_list h p).0
      × (((remove_page_from_list h p).1 ≡ true) ↔ (xs ++ ys ≡ []))
  remove_page_from_list_lem = (
    record {
      ring = Seg-removed h p head xs ys head parts.0 parts.1 is.apart (ground (arith, is.apart));
      apart = ground (
        arith,
        is.apart,
        distinct-mid xs p ys,
        has-append head xs ys,
        has-append head xs (p ∷ ys),
      );
    },
    record { same = removed-same h p; payload = removed-payload h p },
    (
      λ e. alone_of_same_links h head p xs ys parts.0 parts.1 is.apart (removed-flag h p e),
      λ e. flag-removed h p (same_links_of_alone h head p xs ys parts.0 parts.1 e),
    ),
  )

module _ (h : Heap) (head p : ℕ) where
  abbrev inserted : Heap
  inserted = insert_to_list_tail h head p

  flink-inserted :
      (q : ℕ)
      → (h head).blink ≢ p
      → (inserted q).flink
        ≡ (if q == (h head).blink then p else if q == p then head else (h q).flink)
  unfolding insert_to_list_tail
  flink-inserted q ne = ground arith

  blink-inserted :
      (q : ℕ)
      → (inserted q).blink
        ≡ (if q == head then p else if q == p then (h head).blink else (h q).blink)
  unfolding insert_to_list_tail
  blink-inserted q = ground arith

  inserted-payload :
      (q : ℕ) → inserted q ≡ record (h q) { flink = (inserted q).flink; blink = (inserted q).blink }
  unfolding insert_to_list_tail
  inserted-payload q = ground arith

  inserted-same : (q : ℕ) → has q (p ∷ head ∷ (h head).blink ∷ []) ≡ false → inserted q ≡ h q
  unfolding insert_to_list_tail
  inserted-same q m = ground arith

  -- Behind the last page before the head.
  Seg-inserted :
      (a : ℕ) (xs : List ℕ)
      → Seg h a xs head
      → distinct (a ∷ xs) ≡ true
      → has head xs ≡ false
      → has p (head ∷ a ∷ xs) ≡ false
      → Seg inserted a (xs ++ p ∷ []) head
  Seg-inserted a [] s d n out =
      ground (arith, flink-inserted a, blink-inserted p, flink-inserted p, blink-inserted head)
  Seg-inserted a (x ∷ xs) s d n out = (
    ground (
      arith,
      flink-inserted a,
      Seg-last h x xs head s.2,
      has-ne (h head).blink a (x ∷ xs),
      has-ne (h head).blink p (x ∷ xs),
    ),
    ground (arith, blink-inserted x),
    Seg-inserted x xs s.2 (ground arith) (ground arith) (ground arith),
  )

  -- `insert_to_list_tail` puts a page that is not on the list at its end, and writes the links of
  -- the page, the head and the page that was last only.
  pub insert_to_list_tail_lem :
      (xs : List ℕ)
      → IsList h head xs
      → has p (head ∷ xs) ≡ false
      → IsList inserted head (xs ++ p ∷ []) × SameBut (p ∷ head ∷ (h head).blink ∷ []) h inserted
  insert_to_list_tail_lem xs is out = (
    record {
      ring = Seg-inserted head xs is.ring is.apart (ground (arith, is.apart)) (ground arith);
      apart = ground (arith, is.apart, distinct-snoc xs p, has-append head xs (p ∷ []));
    },
    record { same = inserted-same; payload = inserted-payload },
  )
