-- ===== src/FaultHandler/Standby.antt =====
-- A hard fault that takes its page from the standby list: the batch goes to the thread's cache.
use memory_manager.Base.{
  ℕ, suc, ◌+◌, ◌^◌, ◌<◌, ◌≤◌, ◌≡◌, ◌≢◌, refl, sym, ap, ◌∙◌, true, false, arith, update, some, none,
  List, [], ◌∷◌, has, distinct, length, has-ne, update_self, update-ne, ℕ_discrete,
}
use memory_manager.Pte.{Pte, map_pte_to_disk, validate_disk_slot}
use memory_manager.Pfn.{set_pfn_free, unlock_pfn}
use memory_manager.PageList.Walk.{along, along-links}
use memory_manager.System.{System, unlock_page}
use memory_manager.FaultHandler.{repurpose_pages}
use memory_manager.Initializer.Deal.{IsFresh}
use memory_manager.Initializer.Fill.{Holds, Holds-cons}

-- Each page is owned by an entry of its own, and its contents are in a slot of the page file.
pub record AreOwned (s : System) (owner : ℕ → ℕ) (xs : List ℕ) : Type 0 where
  pub owned : (q : ℕ) → has q xs ≡ true → (s.heap q).pte ≡ some (owner q)
  pub in_range : (q : ℕ) → has q xs ≡ true → (s.heap q).disk_index ≤ s.pf.max_disk_index
  pub apart : (q r : ℕ) → has q xs ≡ true → has r xs ≡ true → owner q ≡ owner r → q ≡ r

-- The entry once its page is taken away: on disk, in the slot.
abbrev pub evicted : Pte → (slot : ℕ) → Pte
evicted p slot = record p { valid = 0; status = 1; index = slot }

-- What the loop over a batch leaves: every entry names the slot of its former page, every page is
-- free, unlocked and in the cache, and nothing else has changed.
pub record AreRepurposed (s : System) (owner : ℕ → ℕ) (cache : ℕ → ℕ) (i : ℕ) (xs : List ℕ)
    (s' : System) (cache' : ℕ → ℕ) : Type 0 where
  pub entries :
      (q : ℕ)
      → has q xs ≡ true
      → s'.ptes (owner q) ≡ evicted (s.ptes (owner q)) (s.heap q).disk_index
  pub other_entries : (e : ℕ) → ((q : ℕ) → has q xs ≡ true → owner q ≢ e) → s'.ptes e ≡ s.ptes e
  pub emptied : (q : ℕ) → has q xs ≡ true → IsFresh (s'.heap q)
  pub other_pages : (q : ℕ) → has q xs ≡ false → s'.heap q ≡ s.heap q
  pub links :
      (q : ℕ) → ((s'.heap q).flink ≡ (s.heap q).flink) × ((s'.heap q).blink ≡ (s.heap q).blink)
  pub before : (j : ℕ) → j < i → cache' j ≡ cache j
  pub holds : Holds cache' i xs
  pub rest : s' ≡ record s { heap = s'.heap; ptes = s'.ptes }

module _ (s : System) (p e : ℕ) where
  -- Behind one round.
  abbrev repurposed : System
  repurposed = record s {
    ptes = update s.ptes e (evicted (s.ptes e) (s.heap p).disk_index);
    heap =
        update s.heap p
          (record (s.heap p) { lock = 0; status = 0; disk_index = 0; reserved = 0; pte = none });
  }

  repurpose-step :
      (left i : ℕ) (cache : ℕ → ℕ)
      → (s.heap p).pte ≡ some e
      → (s.heap p).disk_index ≤ s.pf.max_disk_index
      → s.pf.max_disk_index < 2 ^ 40
      → (s.heap p).lock ≡ 1
      → repurpose_pages (suc left) i p s cache
        ≡ repurpose_pages left (i + 1) (s.heap p).flink repurposed (update cache i p)
  unfolding repurpose_pages map_pte_to_disk validate_disk_slot unlock_page unlock_pfn set_pfn_free
      update
  repurpose-step left i cache own le small held = ground (arith, own, le, small, held)

  repurposed-links :
      (q : ℕ)
      → ((repurposed.heap q).flink ≡ (s.heap q).flink)
        × ((repurposed.heap q).blink ≡ (s.heap q).blink)
  unfolding update
  repurposed-links q = ground arith

  repurposed_other : (q : ℕ) → q ≢ p → repurposed.heap q ≡ s.heap q
  unfolding update
  repurposed_other q ne = ground arith

  repurposed-IsFresh : IsFresh (repurposed.heap p)
  unfolding update
  repurposed-IsFresh = ground arith

  still-AreOwned :
      (owner : ℕ → ℕ) (xs : List ℕ)
      → has p xs ≡ false
      → AreOwned s owner (p ∷ xs)
      → AreOwned repurposed owner xs
  still-AreOwned owner xs out own = record {
    owned = λ q m. rw (repurposed_other q (has-ne q p xs m out)) (own.owned q (ground (arith, m)));
    in_range =
        λ q m. rw (repurposed_other q (has-ne q p xs m out)) (own.in_range q (ground (arith, m)));
    apart = λ q r mq mr e. own.apart q r (ground (arith, mq)) (ground (arith, mr)) e;
  }

module _ (owner : ℕ → ℕ) (x : ℕ) (xs : List ℕ) (i : ℕ) (s : System) (cache : ℕ → ℕ) (s' : System)
    (cache' : ℕ → ℕ) (out : has x xs ≡ false) (own : AreOwned s owner (x ∷ xs))
    (r : AreRepurposed
      (repurposed s x (owner x))
      owner
      (update cache i x)
      (i + 1)
      xs
      s'
      cache') where
  abbrev now : System
  now = repurposed s x (owner x)

  owner-ne : (q : ℕ) → has q xs ≡ true → owner q ≢ owner x
  owner-ne q m e = has-ne q x xs m out (own.apart q x (ground (arith, m)) (ground arith) e)

  first_entry : s'.ptes (owner x) ≡ evicted (s.ptes (owner x)) (s.heap x).disk_index
  first_entry = r.other_entries (owner x) owner-ne ∙ update_self s.ptes (owner x) _

  later_entry :
      (q : ℕ)
      → has q xs ≡ true
      → s'.ptes (owner q) ≡ evicted (s.ptes (owner q)) (s.heap q).disk_index
  later_entry q m =
      let e : now.ptes (owner q) ≡ s.ptes (owner q) =
        update-ne s.ptes (owner x) (owner q) (evicted (s.ptes (owner x)) (s.heap x).disk_index)
          (owner-ne q m) in
      let h : now.heap q ≡ s.heap q = repurposed_other s x (owner x) q (has-ne q x xs m out) in
      r.entries q m
      ∙ ap (λ p. evicted p (now.heap q).disk_index) e
      ∙ ap (λ p. evicted (s.ptes (owner q)) p.disk_index) h

  first_emptied : IsFresh (s'.heap x)
  first_emptied = let e = r.other_pages x out in rw e (repurposed-IsFresh s x (owner x))

  one_more : AreRepurposed s owner cache i (x ∷ xs) s' cache'
  one_more = record {
    entries = λ q m. elim (ℕ_discrete q x) [
      | yes e ↦ rw e first_entry
      | no ne ↦ later_entry q (ground (arith, m))
    ];
    other_entries = λ e f.
        r.other_entries e (λ q m. f q (ground (arith, m)))
        ∙ update-ne s.ptes (owner x) e (evicted (s.ptes (owner x)) (s.heap x).disk_index)
            (λ h. f x (ground arith) (sym h));
    emptied = λ q m. elim (ℕ_discrete q x) [
      | yes e ↦ rw e first_emptied
      | no ne ↦ r.emptied q (ground (arith, m))
    ];
    other_pages = λ q m.
        r.other_pages q (ground (arith, m)) ∙ repurposed_other s x (owner x) q (ground (arith, m));
    links = λ q. (
      (r.links q).0 ∙ (repurposed-links s x (owner x) q).0,
      (r.links q).1 ∙ (repurposed-links s x (owner x) q).1,
    );
    before = λ j lt. r.before j (omega (arith, lt)) ∙ update-ne cache i j x (omega (arith, lt));
    holds = Holds-cons cache' i x xs (r.before i (omega arith) ∙ update_self cache i x) r.holds;
    rest = r.rest;
  }

repurpose_nil :
    (i pfn : ℕ) (s : System) (cache : ℕ → ℕ) → repurpose_pages 0 i pfn s cache ≡ some (s, cache)
unfolding repurpose_pages
repurpose_nil i pfn s cache = refl

pub repurpose_pages_lem :
    (owner : ℕ → ℕ) (xs : List ℕ) (i pfn : ℕ) (s : System) (cache : ℕ → ℕ)
    → along s.heap pfn (length xs) ≡ xs
    → distinct xs ≡ true
    → s.pf.max_disk_index < 2 ^ 40
    → AreOwned s owner xs
    → ((q : ℕ) → has q xs ≡ true → (s.heap q).lock ≡ 1)
    → (s' : System) × (cache' : ℕ → ℕ) × (repurpose_pages (length xs) i pfn s cache
        ≡ some (s', cache'))
      × AreRepurposed s owner cache i xs s' cache'
repurpose_pages_lem owner [] i pfn s cache e d small own held = (
  s,
  cache,
  repurpose_nil i pfn s cache,
  record {
    entries = λ q m. cc;
    other_entries = λ e out. refl;
    emptied = λ q m. cc;
    other_pages = λ q m. refl;
    links = λ q. (refl, refl);
    before = λ j lt. refl;
    holds = λ j p m. cc;
    rest = refl;
  },
)
repurpose_pages_lem owner (x ∷ xs) i pfn s cache e d small own held =
    let at : pfn ≡ x = ground (arith, e) in
    let out : has x xs ≡ false = ground (arith, d) in
    let s₁ : System = repurposed s x (owner x) in
    let tail : along s.heap (s.heap x).flink (length xs) ≡ xs =
      (let q = sym at in ground (arith, e)) in
    let (s', cache', run, r) =
      repurpose_pages_lem owner xs (i + 1) (s.heap x).flink s₁ (update cache i x)
        (along-links s.heap s₁.heap (s.heap x).flink (length xs)
            (λ q. (repurposed-links s x (owner x) q).0)
          ∙ tail)
        (ground (arith, d)) small (still-AreOwned s x (owner x) owner xs out own)
        (λ q m.
          rw (repurposed_other s x (owner x) q (has-ne q x xs m out))
            (held q (ground (arith, m)))) in
    let step =
      repurpose-step s x (owner x) (length xs) i cache (own.owned x (ground arith))
        (own.in_range x (ground arith)) small (held x (ground arith)) in
    (
      s',
      cache',
      ap (λ v. repurpose_pages (suc (length xs)) i v s cache) at ∙ step ∙ run,
      one_more owner x xs i s cache s' cache' out own r,
    )
