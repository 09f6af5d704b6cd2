-- ===== src/Initializer/Fill.antt =====
-- The loop that fills a thread's first cache.
use memory_manager.Base.{
  ℕ, zero, suc, ◌+◌, ◌<◌, ◌≡◌, refl, ap, ◌∙◌, true, arith, update, if◌then◌else◌, some, List, [],
  ◌∷◌, has, distinct, length, get_elem?, update_self, update-ne,
}
use memory_manager.Pfn.{Heap, unlock_pfn}
use memory_manager.Pfn.Lock.{with_lock, unlock_pfn-locked}
use memory_manager.PageList.Walk.{
  along, Keeps, with_lock-links, with_lock-Keeps, with_lock-lock, along-links,
}
use memory_manager.Initializer.{fill_first_cache}

-- The cache entries from `j` on hold the pages, in order.
abbrev pub Holds : (ℕ → ℕ) → ℕ → List ℕ → Type 0
Holds cache j xs = (i p : ℕ) → get_elem? xs i ≡ some p → cache (j + i) ≡ p

-- What the loop leaves: the pages unlocked and in the cache, nothing else changed.
pub record IsFilled (h : Heap) (cache : ℕ → ℕ) (j : ℕ) (xs : List ℕ) (h' : Heap) (cache' : ℕ → ℕ)
    : Type 0 where
  pub links : (q : ℕ) → ((h' q).flink ≡ (h q).flink) × ((h' q).blink ≡ (h q).blink)
  pub keeps : Keeps h h'
  pub locks : (q : ℕ) → (h' q).lock ≡ (if has q xs then 0 else (h q).lock)
  pub before : (i : ℕ) → i < j → cache' i ≡ cache i
  pub holds : Holds cache' j xs

fill-step :
    (n j p : ℕ) (h h' : Heap) (cache : ℕ → ℕ)
    → unlock_pfn h p ≡ some h'
    → fill_first_cache (suc n) j p h cache
      ≡ fill_first_cache n (j + 1) (h p).flink h' (update cache j p)
unfolding fill_first_cache
fill-step n j p h h' cache e = rw e refl

pub Holds-cons :
    (cache : ℕ → ℕ) (j x : ℕ) (xs : List ℕ)
    → cache j ≡ x
    → Holds cache (j + 1) xs
    → Holds cache j (x ∷ xs)
Holds-cons cache j x xs e rest zero p m =
    let here : j + 0 ≡ j = omega arith in
    let same : x ≡ p = ground (arith, m) in ap cache here ∙ e ∙ same
Holds-cons cache j x xs e rest (suc i) p m =
    let there : j + suc i ≡ j + 1 + i = omega arith in ap cache there ∙ rest i p m

pub fill_first_cache_lem :
    (xs : List ℕ) (j p : ℕ) (h : Heap) (cache : ℕ → ℕ)
    → along h p (length xs) ≡ xs
    → distinct xs ≡ true
    → ((q : ℕ) → has q xs ≡ true → (h q).lock ≡ 1)
    → (h' : Heap) × (cache' : ℕ → ℕ) × (fill_first_cache (length xs) j p h cache
        ≡ some (h', cache'))
      × IsFilled h cache j xs h' cache'
unfolding fill_first_cache
fill_first_cache_lem [] j p h cache e d held = (
  h,
  cache,
  refl,
  record {
    links = λ q. (refl, refl);
    keeps = λ q. ground arith;
    locks = λ q. refl;
    before = λ i lt. refl;
    holds = λ i q m. cc;
  },
)
fill_first_cache_lem (x ∷ xs) j p h cache e d held =
    let at : p ≡ x = ground (arith, e) in
    let h₁ : Heap = with_lock h p 0 in
    let tail : along h (h p).flink (length xs) ≡ xs = ground (arith, e) in
    let (h', cache', run, filled) =
      fill_first_cache_lem xs (j + 1) (h p).flink h₁ (update cache j p)
        (along-links h h₁ (h p).flink (length xs) (λ q. (with_lock-links h p 0 q).0) ∙ tail)
        (ground arith) (λ q m. ground (arith, with_lock-lock h p 0 q, held q)) in
    (
      h',
      cache',
      fill-step (length xs) j p h h₁ cache (unlock_pfn-locked h p (ground (arith, held p))) ∙ run,
      record {
        links = λ q. ground (arith, filled.links q, with_lock-links h p 0 q);
        keeps = λ q. ground (arith, filled.keeps q, with_lock-Keeps h p 0 q);
        locks = λ q. ground (arith, filled.locks q, with_lock-lock h p 0 q);
        before = λ i lt. ground (arith, filled.before i, update-ne cache j i p);
        holds =
            Holds-cons cache' j x xs (filled.before j (omega arith) ∙ update_self cache j p ∙ at)
              filled.holds;
      },
    )
