-- ===== src/PageList/Ring.antt =====
-- What a page list stands for: the ring through a head and the pages of a list, in order.
use memory_manager.Base.{
  ℕ, ◌≡◌, refl, sym, ap, ◌∙◌, true, false, List, [], ◌∷◌, ◌++◌, arith, has, distinct,
}
use memory_manager.Pfn.{Heap}

-- From `a` forward through `xs` to `z`, and back.
abbrev pub Seg : Heap → ℕ → List ℕ → ℕ → Type 0
Seg h a [] z = ((h a).flink ≡ z) × ((h z).blink ≡ a)
Seg h a (x ∷ xs) z = ((h a).flink ≡ x) × ((h x).blink ≡ a) × Seg h x xs z

pub record IsList (h : Heap) (head : ℕ) (xs : List ℕ) : Type 0 where
  pub ring : Seg h head xs head
  pub apart : distinct (head ∷ xs) ≡ true

-- `g` differs from `h` at most at the addresses of `xs`, and there in the links alone.
pub record SameBut (xs : List ℕ) (h g : Heap) : Type 0 where
  pub same : (p : ℕ) → has p xs ≡ false → g p ≡ h p
  pub payload : (p : ℕ) → g p ≡ record (h p) { flink = (g p).flink; blink = (g p).blink }

pub Seg-append :
    (h : Heap) (a : ℕ) (xs : List ℕ) (y : ℕ) (ys : List ℕ) (z : ℕ)
    → Seg h a xs y
    → Seg h y ys z
    → Seg h a (xs ++ y ∷ ys) z
Seg-append h a [] y ys z s t = (s.0, s.1, t)
Seg-append h a (x ∷ xs) y ys z s t = (s.0, s.1, Seg-append h x xs y ys z s.2 t)

pub Seg-split :
    (h : Heap) (a : ℕ) (xs : List ℕ) (y : ℕ) (ys : List ℕ) (z : ℕ)
    → Seg h a (xs ++ y ∷ ys) z
    → Seg h a xs y × Seg h y ys z
Seg-split h a [] y ys z s = ((s.0, s.1), s.2)
Seg-split h a (x ∷ xs) y ys z s = let (l, r) = Seg-split h x xs y ys z s.2 in ((s.0, s.1, l), r)

-- A segment survives any change that spares the forward links of `a ∷ xs` and the backward links
-- of `z ∷ xs`.
pub Seg-frame :
    (h g : Heap) (a : ℕ) (xs : List ℕ) (z : ℕ)
    → ((p : ℕ) → has p (a ∷ xs) ≡ true → (g p).flink ≡ (h p).flink)
    → ((p : ℕ) → has p (z ∷ xs) ≡ true → (g p).blink ≡ (h p).blink)
    → Seg h a xs z
    → Seg g a xs z
Seg-frame h g a [] z f b s = ground (arith, f a, b z)
Seg-frame h g a (x ∷ xs) z f b s = (
  ground (arith, f a),
  ground (arith, b x),
  Seg-frame h g x xs z (λ p m. f p (ground arith)) (λ p m. b p (ground arith)) s.2,
)

-- The last page before `z`, and the first after `a`.
pub Seg-last :
    (h : Heap) (a : ℕ) (xs : List ℕ) (z : ℕ) → Seg h a xs z → has (h z).blink (a ∷ xs) ≡ true
Seg-last h a [] z s = ground arith
Seg-last h a (x ∷ xs) z s = ground (arith, Seg-last h x xs z s.2)

pub Seg-first :
    (h : Heap) (a : ℕ) (xs : List ℕ) (z : ℕ) → Seg h a xs z → has (h a).flink (z ∷ xs) ≡ true
Seg-first h a [] z s = ground arith
Seg-first h a (x ∷ xs) z s = ground arith

-- A segment leads through one list of pages.
Seg-unique :
    (h : Heap) (a : ℕ) (xs ys : List ℕ) (z : ℕ)
    → Seg h a xs z
    → Seg h a ys z
    → has z xs ≡ false
    → has z ys ≡ false
    → xs ≡ ys
Seg-unique h a [] [] z s t o p = refl
Seg-unique h a [] (y ∷ ys) z s t o p = absurd (ground (arith, s.0, t.0, p))
Seg-unique h a (x ∷ xs) [] z s t o p = absurd (ground (arith, s.0, t.0, o))
Seg-unique h a (x ∷ xs) (y ∷ ys) z s t o p =
    let e : y ≡ x = sym t.0 ∙ s.0 in
    let t' : Seg h x ys z = rw e at t.2 in
    ap (λ l. x ∷ l) (Seg-unique h x xs ys z s.2 t' (ground arith) (ground arith))
    ∙ ap (λ v. v ∷ ys) (sym e)

pub IsList-unique :
    (h : Heap) (head : ℕ) (xs ys : List ℕ) → IsList h head xs → IsList h head ys → xs ≡ ys
IsList-unique h head xs ys s t =
    Seg-unique h head xs ys head s.ring t.ring (ground (arith, s.apart)) (ground (arith, t.apart))
