-- ===== src/Initializer/Deal.antt =====
-- The lists that `initialize_PFN_data` deals the page frames to, among all lists of the program.
use memory_manager.Base.{
  ℕ, ◌+◌, ◌%◌, ◌<◌, ◌≡◌, ◌≢◌, ap, true, false, none, arith, update, ◌==◌, if◌then◌else◌, List, [],
  ◌∷◌, ◌++◌, has, has-append, has-ne, ℕ_discrete, ◌⊎◌, inl, inr, update_self, update-ne,
}
use memory_manager.Pfn.{Pfn, Heap, create_zeroed_pfn}
use memory_manager.PageList.{insert_to_list_tail}
use memory_manager.PageList.Ring.{IsList, SameBut, Seg-frame, Seg-last}
use memory_manager.PageList.Walk.{IsList-links}
use memory_manager.PageList.Edit.{insert_to_list_tail_lem}

-- The pages that list `j` of sixteen gets, in order, if the first page goes to list `k`.
abbrev pub share : (j k : ℕ) → List ℕ → List ℕ
share j k [] = []
share j k (p ∷ ps) = let rest = share j ((k + 1) % 16) ps in if k == j then p ∷ rest else rest

-- A record as `create_zeroed_pfn` leaves it.
abbrev pub IsFresh : Pfn → Type 0
IsFresh p = (p.lock ≡ 0) × (p.status ≡ 0) × (p.disk_index ≡ 0) × (p.pte ≡ none)

-- `n` lists, no two with an address in common, of fresh pages.
pub record AreApart (n : ℕ) (heads : ℕ → ℕ) (h : Heap) (ls : ℕ → List ℕ) : Type 0 where
  pub lists : (j : ℕ) → j < n → IsList h (heads j) (ls j)
  pub fresh : (j q : ℕ) → j < n → has q (ls j) ≡ true → IsFresh (h q)
  pub apart :
      (i j q : ℕ)
      → i < n
      → j < n
      → i ≢ j
      → has q (heads i ∷ ls i) ≡ true
      → has q (heads j ∷ ls j) ≡ false

-- A list that no write of `SameBut` hits.
pub IsList-apart :
    (h g : Heap) (head : ℕ) (xs written : List ℕ)
    → SameBut written h g
    → ((q : ℕ) → has q (head ∷ xs) ≡ true → has q written ≡ false)
    → IsList h head xs
    → IsList g head xs
IsList-apart h g head xs written same out is = record {
  ring =
      Seg-frame h g head xs head (λ q m. ap (λ c. c.flink) (same.same q (out q m)))
        (λ q m. ap (λ c. c.blink) (same.same q (out q m))) is.ring;
  apart = is.apart;
}

module _ {n : ℕ} (heads : ℕ → ℕ) (h : Heap) (ls : ℕ → List ℕ) (k p : ℕ) (lt : k < n)
    (before : AreApart n heads h ls) (new : (j : ℕ) → j < n → has p (heads j ∷ ls j) ≡ false) where
  abbrev zeroed : Heap
  zeroed = update h p (create_zeroed_pfn (h p))

  abbrev dealt : Heap
  dealt = insert_to_list_tail zeroed (heads k) p

  abbrev grown : ℕ → List ℕ
  grown = update ls k (ls k ++ p ∷ [])

  zeroed-links : (q : ℕ) → ((zeroed q).flink ≡ (h q).flink) × ((zeroed q).blink ≡ (h q).blink)
  unfolding update create_zeroed_pfn
  zeroed-links q = ground arith

  zeroed-IsList : (j : ℕ) → j < n → IsList zeroed (heads j) (ls j)
  zeroed-IsList j jn = IsList-links h zeroed (heads j) (ls j) zeroed-links (before.lists j jn)

  target :
      IsList dealt (heads k) (ls k ++ p ∷ [])
      × SameBut (p ∷ heads k ∷ (zeroed (heads k)).blink ∷ []) zeroed dealt
  target = insert_to_list_tail_lem zeroed (heads k) p (ls k) (zeroed-IsList k lt) (new k lt)

  -- The writes stay within the list that grows.
  written-apart :
      (j q : ℕ)
      → j < n
      → j ≢ k
      → has q (heads j ∷ ls j) ≡ true
      → has q (p ∷ heads k ∷ (zeroed (heads k)).blink ∷ []) ≡ false
  written-apart j q jn ne m =
      let last = Seg-last zeroed (heads k) (ls k) (heads k) (zeroed-IsList k lt).ring in
      let out = before.apart j k q jn lt ne m in
      ground (
        arith,
        new j jn,
        has-ne q p (heads j ∷ ls j),
        out,
        last,
        has-ne (zeroed (heads k)).blink q (heads k ∷ ls k),
      )

  grown-other : (j : ℕ) → j ≢ k → grown j ≡ ls j
  grown-other j ne = update-ne ls k j (ls k ++ p ∷ []) ne

  grown_at : grown k ≡ ls k ++ p ∷ []
  grown_at = update_self ls k (ls k ++ p ∷ [])

  grown-IsList : (j : ℕ) → j < n → IsList dealt (heads j) (grown j)
  grown-IsList j jn = elim (ℕ_discrete j k) [
    | yes e ↦ rw (e, grown_at) target.0
    | no ne ↦ rw (grown-other j ne) (
        IsList-apart zeroed dealt (heads j) (ls j) (p ∷ heads k ∷ (zeroed (heads k)).blink ∷ [])
          target.1 (λ q m. written-apart j q jn ne m) (zeroed-IsList j jn))
  ]

  -- Whatever is on a list that has grown was on it, or is the new page.
  grown-has : (j q : ℕ) → has q (grown j) ≡ true → (has q (ls j) ≡ true) ⊎ ((q ≡ p) × (j ≡ k))
  grown-has j q m = elim (ℕ_discrete j k) [
    | yes e ↦
        let m' : has q (ls k ++ p ∷ []) ≡ true = rw (e, grown_at) at m in
        elim (ℕ_discrete q p) [
          | yes f ↦ inr (f, e)
          | no ne ↦ inl (rw e (ground (arith, has-append q (ls k) (p ∷ []))))
        ]
    | no ne ↦ inl (rw (grown-other j ne) at m)
  ]

  zeroed-IsFresh : (q : ℕ) → IsFresh (h q) ⊎ (q ≡ p) → IsFresh (zeroed q)
  unfolding update create_zeroed_pfn
  zeroed-IsFresh q (inl f) = ground (arith, f)
  zeroed-IsFresh q (inr e) = ground arith

  dealt-IsFresh : (q : ℕ) → IsFresh (zeroed q) → IsFresh (dealt q)
  dealt-IsFresh q f = let e = target.1.payload q in rw e f

  grown-IsFresh : (j q : ℕ) → j < n → has q (grown j) ≡ true → IsFresh (dealt q)
  grown-IsFresh j q jn m = elim (grown-has j q m) [
    | inl old ↦ dealt-IsFresh q (zeroed-IsFresh q (inl (before.fresh j q jn old)))
    | inr new_page ↦ dealt-IsFresh q (zeroed-IsFresh q (inr new_page.0))
  ]

  member :
      (j q : ℕ)
      → has q (heads j ∷ grown j) ≡ true
      → (has q (heads j ∷ ls j) ≡ true) ⊎ ((q ≡ p) × (j ≡ k))
  member j q m = elim (ℕ_discrete q (heads j)) [
    | yes e ↦ inl (ground arith)
    | no ne ↦ elim (grown-has j q (ground arith)) [
      | inl old ↦ inl (ground arith)
      | inr new_page ↦ inr new_page
    ]
  ]

  grown-apart :
      (i j q : ℕ)
      → i < n
      → j < n
      → i ≢ j
      → has q (heads i ∷ grown i) ≡ true
      → has q (heads j ∷ grown j) ≡ false
  grown-apart i j q lti ltj ne m =
      ground (arith, member i q m, member j q, before.apart i j q lti ltj ne, new i lti, new j ltj)

  pub deal_one : AreApart n heads dealt grown
  deal_one = record { lists = grown-IsList; fresh = grown-IsFresh; apart = grown-apart }
