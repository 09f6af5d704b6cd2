-- ===== src/PageList/Cut.antt =====
-- Taking the front of a list off it, by two writes of links.
use memory_manager.Base.{
  ℕ, zero, suc, ◌≡◌, refl, ◌∙◌, ap, true, false, List, [], ◌∷◌, ◌++◌, arith, ◌==◌, if◌then◌else◌,
  has, distinct, take, drop, length, has-ne, has-append, distinct-append, take-append-drop,
}
use memory_manager.Pfn.{Heap}
use memory_manager.PageList.{set_flink, set_blink}
use memory_manager.PageList.Ring.{Seg-frame, IsList, Seg-split}
use memory_manager.PageList.Walk.{along, first_or, along-Seg, along-same, Keeps}

module _ (h : Heap) (head next : ℕ) where
  abbrev pub cut : Heap
  cut = set_blink (set_flink h head next) next head

  pub flink-cut : (q : ℕ) → (cut q).flink ≡ (if q == head then next else (h q).flink)
  unfolding set_flink set_blink
  flink-cut q = ground arith

  pub blink-cut : (q : ℕ) → (cut q).blink ≡ (if q == next then head else (h q).blink)
  unfolding set_flink set_blink
  blink-cut q = ground arith

  pub lock-cut : (q : ℕ) → (cut q).lock ≡ (h q).lock
  unfolding set_flink set_blink
  lock-cut q = ground arith

  pub cut-Keeps : Keeps h cut
  unfolding set_flink set_blink
  cut-Keeps q = ground arith

module _ (h : Heap) (head : ℕ) where
  cut-IsList :
      (front rest : List ℕ)
      → IsList h head (front ++ rest)
      → IsList (cut h head (first_or rest head)) head rest
  cut-IsList front [] is = record {
    ring = (ground (arith, flink-cut h head head head), ground (arith, blink-cut h head head head));
    apart = refl;
  }
  cut-IsList front (y ∷ ys) is =
      let (s, t) = Seg-split h head front y ys head is.ring in
      let d : (distinct (y ∷ ys) ≡ true) × (has head (y ∷ ys) ≡ false) =
        ground (arith, is.apart, distinct-append front (y ∷ ys), has-append head front (y ∷ ys)) in
      record {
        ring = (
          ground (arith, flink-cut h head y head),
          ground (arith, blink-cut h head y y),
          Seg-frame h (cut h head y) y ys head
              (λ q m. ground (arith, flink-cut h head y q, has-ne q head (y ∷ ys)))
              (λ q m. ground (arith, blink-cut h head y q, has-ne q y (head ∷ ys))) t,
        );
        apart = ground arith;
      }

  module _ (n : ℕ) (xs : List ℕ) (is : IsList h head xs) where
    pub cut-drop : IsList (cut h head (first_or (drop n xs) head)) head (drop n xs)
    cut-drop =
        cut-IsList (take n xs) (drop n xs)
          (let e : take n xs ++ drop n xs ≡ xs = take-append-drop n xs in rw e is)

    head_out : has head (take n xs) ≡ false
    head_out =
        let e : has head (take n xs ++ drop n xs) ≡ has head xs =
          ap (has head) (take-append-drop n xs) in
        ground (arith, is.apart, e, has-append head (take n xs) (drop n xs))

    pub cut-along :
        along (cut h head (first_or (drop n xs) head)) (h head).flink (length (take n xs))
        ≡ take n xs
    cut-along =
        let e = along-Seg h head xs head n is.ring in
        along-same h (cut h head (first_or (drop n xs) head)) (h head).flink (length (take n xs))
          (λ q m.
            let inside : has q (take n xs) ≡ true = rw e at m in
            ground (
              arith,
              flink-cut h head (first_or (drop n xs) head) q,
              has-ne q head (take n xs) inside head_out,
            ))
        ∙ e

first_or-has : (head n : ℕ) (xs : List ℕ) → has (first_or (drop n xs) head) (head ∷ xs) ≡ true
first_or-has head zero [] = ground arith
first_or-has head zero (x ∷ xs) = ground arith
first_or-has head (suc n) [] = ground arith
first_or-has head (suc n) (x ∷ xs) = ground (arith, first_or-has head n xs)

-- The cut writes no link of a record that is not on the list.
pub cut-elsewhere :
    (h : Heap) (head n : ℕ) (xs : List ℕ) (q : ℕ)
    → has q (head ∷ xs) ≡ false
    → ((cut h head (first_or (drop (suc n) xs) head) q).flink ≡ (h q).flink)
      × ((cut h head (first_or (drop (suc n) xs) head) q).blink ≡ (h q).blink)
cut-elsewhere h head n xs q m =
    let next : ℕ = first_or (drop (suc n) xs) head in
    let on = first_or-has head (suc n) xs in
    ground (arith, flink-cut h head next q, blink-cut h head next q, has-ne next q (head ∷ xs))
