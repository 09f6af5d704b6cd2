-- ===== src/PageList/Splice.antt =====
-- `insert_list_to_tail_list`: a whole list joined to the end of another.
use memory_manager.Base.{
  ℕ, ◌≡◌, true, false, List, [], ◌∷◌, ◌++◌, arith, ◌==◌, has, distinct, has-append, if◌then◌else◌,
  has-ne,
}
use memory_manager.Pfn.{Heap}
use memory_manager.PageList.{splice_to_tail}
use memory_manager.PageList.Ring.{Seg, IsList, SameBut, Seg-last}

module _ (h : Heap) (head origin : ℕ) where
  abbrev spliced : Heap
  spliced = splice_to_tail h head origin

  abbrev tail : ℕ
  tail = (h head).blink

  abbrev first : ℕ
  first = (h origin).flink

  abbrev last : ℕ
  last = (h origin).blink

  flink-spliced :
      (q : ℕ)
      → (spliced q).flink ≡ (if q == last then head else if q == tail then first else (h q).flink)
  unfolding splice_to_tail
  flink-spliced q = ground arith

  blink-spliced :
      (q : ℕ)
      → (spliced q).blink ≡ (if q == head then last else if q == first then tail else (h q).blink)
  unfolding splice_to_tail
  blink-spliced q = ground arith

  spliced-payload :
      (q : ℕ) → spliced q ≡ record (h q) { flink = (spliced q).flink; blink = (spliced q).blink }
  unfolding splice_to_tail
  spliced-payload q = ground arith

  spliced-same : (q : ℕ) → has q (head ∷ tail ∷ first ∷ last ∷ []) ≡ false → spliced q ≡ h q
  unfolding splice_to_tail
  spliced-same q m = ground arith

  -- The origin's pages lead on to the new head.
  Seg-carried :
      (b : ℕ) (ys : List ℕ)
      → Seg h b ys origin
      → distinct (b ∷ ys) ≡ true
      → has tail (b ∷ ys) ≡ false
      → has head (b ∷ ys) ≡ false
      → has first ys ≡ false
      → Seg spliced b ys head
  Seg-carried b [] s d t n f = ground (arith, flink-spliced b, blink-spliced head)
  Seg-carried b (y ∷ ys) s d t n f = (
    ground (arith, flink-spliced b, Seg-last h y ys origin s.2, has-ne last b (y ∷ ys)),
    ground (arith, blink-spliced y),
    Seg-carried y ys s.2 (ground arith) (ground arith) (ground arith) (ground arith),
  )

  Seg-spliced :
      (a : ℕ) (xs : List ℕ) (y : ℕ) (ys : List ℕ)
      → Seg h a xs head
      → Seg h origin (y ∷ ys) origin
      → distinct (a ∷ xs ++ y ∷ ys) ≡ true
      → has head (xs ++ y ∷ ys) ≡ false
      → Seg spliced a (xs ++ y ∷ ys) head
  Seg-spliced a [] y ys s t d n = (
    ground (arith, flink-spliced a, Seg-last h y ys origin t.2, has-ne last a (y ∷ ys)),
    ground (arith, blink-spliced y),
    Seg-carried y ys t.2 (ground arith) (ground arith) (ground arith) (ground arith),
  )
  Seg-spliced a (x ∷ xs) y ys s t d n = (
    ground (
      arith,
      flink-spliced a,
      has-append a xs (y ∷ ys),
      Seg-last h y ys origin t.2,
      has-ne last a (y ∷ ys),
      Seg-last h x xs head s.2,
      has-ne tail a (x ∷ xs),
    ),
    ground (arith, blink-spliced x, has-append x xs (y ∷ ys)),
    Seg-spliced x xs y ys s.2 t (ground arith) (ground arith),
  )

  -- Joining a list that is not empty to the tail of another that shares no page with it gives the
  -- pages of both in order, and writes the links of four records only.
  pub splice_to_tail_lem :
      (xs : List ℕ) (y : ℕ) (ys : List ℕ)
      → IsList h head xs
      → IsList h origin (y ∷ ys)
      → distinct (head ∷ xs ++ y ∷ ys) ≡ true
      → IsList spliced head (xs ++ y ∷ ys) × SameBut (head ∷ tail ∷ first ∷ last ∷ []) h spliced
  splice_to_tail_lem xs y ys is from d = (
    record { ring = Seg-spliced head xs y ys is.ring from.ring d (ground arith); apart = d },
    record { same = spliced-same; payload = spliced-payload },
  )
