-- ===== src/Trimmer/Taken.antt =====
-- Which entries the trimmer's walk takes, and what it leaves of the others.
use memory_manager.Base.{
  ℕ, zero, suc, ◌+◌, ◌≡◌, ◌≢◌, ◌≤◌, ◌<◌, refl, sym, ap, ◌∙◌, true, false, none, some, arith, Bool,
  not, ◌&&◌, ◌==◌, Option, List, inl, inr, ◌⊎◌, [], ◌∷◌, ◌++◌, length, has, has-append, ℕ_discrete,
  if◌then◌else◌, update,
}
use memory_manager.Config.{max_trim_batch_size}
use memory_manager.Pte.{Pte, is_pte_valid, is_pte_accessed}
use memory_manager.Pfn.{Heap}
use memory_manager.Pfn.Lock.{with_lock}
use memory_manager.System.{System}

-- The entry behind an entry of `n`, the first one behind the last, and the one `j` further on.
abbrev pub advance : (n pte : ℕ) → ℕ
advance n pte = if pte + 1 == n then 0 else pte + 1

abbrev pub passed : (n pte j : ℕ) → ℕ
passed n pte zero = advance n pte
passed n pte (suc j) = passed n (advance n pte) j

-- The entry is valid, unlocked and was not accessed.
abbrev pub can_trim : Pte → Bool
can_trim p = is_pte_valid p && (not (is_pte_accessed p) && (p.lock == 0))

-- Nothing but the accessed bit has changed.
abbrev pub IsAged : Pte → Pte → Type 0
IsAged p p' = p' ≡ record p { accessed = p'.accessed }

-- A valid entry has gone to transition, unlocked, with its frame.
abbrev pub IsTrimmedEntry : Pte → Pte → Type 0
IsTrimmedEntry p p' =
    (is_pte_valid p ≡ true)
    × (p' ≡ record p { valid = 0; status = 0; lock = 0; accessed = p'.accessed })

-- What one step of the walk does at its entry: it leaves it but for the accessed bit, if it cannot be
-- trimmed, or takes its page.
pub record IsTaking (pte : ℕ) (s s' : System) (got : Option ℕ) : Type 0 where
  pub others : (i : ℕ) → i ≢ pte → s'.ptes i ≡ s.ptes i
  pub entry :
      ((got ≡ none)
        × (can_trim (s.ptes pte) ≡ false)
        × IsAged (s.ptes pte) (s'.ptes pte)
        × (s'.heap ≡ s.heap))
      ⊎ ((got ≡ some (s.ptes pte).index)
          × IsTrimmedEntry (s.ptes pte) (s'.ptes pte)
          × (s'.heap ≡ with_lock s.heap (s.ptes pte).index 1))

-- What a walk over the next `left` entries of `n` does, from a batch on: unless the batch gets full,
-- it has the page of each of these entries that could be trimmed. Each entry is as it was but for
-- its accessed bit, or trimmed with its page in the batch, and every page that is new in the batch
-- is that of an entry that was valid. Only the records of pages of the batch have changed.
pub record IsTaken (n left pte : ℕ) (s s' : System) (batch batch' : List ℕ) : Type 0 where
  pub complete :
      (max_trim_batch_size ≤ length batch')
      ⊎ ((j : ℕ)
          → j < left
          → can_trim (s.ptes (passed n pte j)) ≡ true
          → has (s.ptes (passed n pte j)).index batch' ≡ true)
  pub entries :
      (i : ℕ)
      → IsAged (s.ptes i) (s'.ptes i)
        ⊎ (IsTrimmedEntry (s.ptes i) (s'.ptes i) × (has (s.ptes i).index batch' ≡ true))
  pub sources :
      (q : ℕ)
      → has q batch' ≡ true
      → (has q batch ≡ true) ⊎ ((i : ℕ) × (is_pte_valid (s.ptes i) ≡ true) × ((s.ptes i).index ≡ q))
  pub grows : (q : ℕ) → has q batch ≡ true → has q batch' ≡ true
  pub spared : (q : ℕ) → has q batch' ≡ false → s'.heap q ≡ s.heap q

pub nothing-IsTaken :
    (n left pte : ℕ) (s : System) (batch : List ℕ)
    → (left ≡ 0) ⊎ (max_trim_batch_size ≤ length batch)
    → IsTaken n left pte s s batch batch
nothing-IsTaken n left pte s batch ended = record {
  complete = elim ended [
    | inl none_left ↦ inr (λ j lt. absurd (omega (arith, none_left, lt)))
    | inr full ↦ inl full
  ];
  entries = λ i. inl refl;
  sources = λ q m. inl m;
  grows = λ q m. m;
  spared = λ q out. refl;
}

IsAged-then :
    (p p' p'' : Pte) (b : Bool)
    → IsAged p p'
    → IsAged p' p'' ⊎ (IsTrimmedEntry p' p'' × (b ≡ true))
    → IsAged p p'' ⊎ (IsTrimmedEntry p p'' × (b ≡ true))
unfolding is_pte_valid
IsAged-then p p' p'' b a (inl a') = inl (ground (arith, a, a'))
IsAged-then p p' p'' b a (inr (t, m)) = inr ((ground (arith, a, t.0), ground (arith, a, t.1)), m)

IsTrimmedEntry-then :
    (p p' p'' : Pte) (b c : Bool)
    → IsTrimmedEntry p p'
    → b ≡ true
    → IsAged p' p'' ⊎ (IsTrimmedEntry p' p'' × (c ≡ true))
    → IsAged p p'' ⊎ (IsTrimmedEntry p p'' × (b ≡ true))
unfolding is_pte_valid
IsTrimmedEntry-then p p' p'' b c t m (inl a) = inr ((t.0, ground (arith, t.1, a)), m)
IsTrimmedEntry-then p p' p'' b c t m (inr (u, k)) = absurd (ground (arith, t.1, u.0))

same_index :
    (p p' : Pte)
    → IsAged p p'
    → is_pte_valid p' ≡ true
    → (is_pte_valid p ≡ true) × (p.index ≡ p'.index)
unfolding is_pte_valid
same_index p p' a v = ground (arith, a, v)

IsTrimmedEntry-invalid : (p p' : Pte) → IsTrimmedEntry p p' → is_pte_valid p' ≡ true → true ≡ false
unfolding is_pte_valid
IsTrimmedEntry-invalid p p' t v = ground (arith, t.1, v)

index_of : (p : Pte) (page : ℕ) → some page ≡ some p.index → page ≡ p.index
index_of p page e = ground arith

module _ (n left pte : ℕ) (s s₁ s' : System) (batch batch' : List ℕ) where
  abbrev here : ℕ
  here = advance n pte

  -- What the entries behind this one say of the batch, this one says too.
  complete_before :
      (batch₁ : List ℕ)
      → ((i : ℕ) → i ≢ here → s₁.ptes i ≡ s.ptes i)
      → (can_trim (s.ptes here) ≡ true → has (s.ptes here).index batch' ≡ true)
      → IsTaken n left here s₁ s' batch₁ batch'
      → (max_trim_batch_size ≤ length batch')
        ⊎ ((j : ℕ)
            → j < suc left
            → can_trim (s.ptes (passed n pte j)) ≡ true
            → has (s.ptes (passed n pte j)).index batch' ≡ true)
  complete_before batch₁ others this rest = elim rest.complete [
    | inl full ↦ inl full
    | inr all ↦ inr (each all)
  ]
    where
      each :
          ((j : ℕ)
            → j < left
            → can_trim (s₁.ptes (passed n here j)) ≡ true
            → has (s₁.ptes (passed n here j)).index batch' ≡ true)
          → (j : ℕ) → j < suc left
          → can_trim (s.ptes (passed n pte j)) ≡ true
          → has (s.ptes (passed n pte j)).index batch' ≡ true
      each all zero lt can = this can
      each all (suc j) lt can = elim (ℕ_discrete (passed n here j) here) [
        | yes e ↦ rw e (this (rw e at can))
        | no ne ↦
            let same = others (passed n here j) ne in
            rw same at (all j (omega (arith, lt)) (rw same can))
      ]

  pub skip-IsTaken :
      IsTaking here s s₁ none
      → IsTaken n left here s₁ s' batch batch'
      → IsTaken n (suc left) pte s s' batch batch'
  skip-IsTaken step rest = elim step.entry [
    | inr (got, _, _) ↦ absurd (ground (arith, got))
    | inl (got, cannot, a, heap) ↦
        let all : (i : ℕ) → IsAged (s.ptes i) (s₁.ptes i) =
          λ i. elim (ℕ_discrete i here) [ yes e ↦ rw e a | no ne ↦ rw (step.others i ne) refl ] in
        record {
          complete =
              complete_before batch step.others (λ can. absurd (ground (arith, cannot, can))) rest;
          entries = λ i.
              IsAged-then (s.ptes i) (s₁.ptes i) (s'.ptes i) (has (s.ptes i).index batch') (all i)
                (elim (rest.entries i) [
                  | inl a' ↦ inl a'
                  | inr (t, m) ↦
                      let (_, e) = same_index (s.ptes i) (s₁.ptes i) (all i) t.0 in
                      inr (t, ap (λ x. has x batch') e ∙ m)
                ]);
          sources = λ q m. elim (rest.sources q m) [
            | inl old ↦ inl old
            | inr (i, v, e) ↦
                let (v', e') = same_index (s.ptes i) (s₁.ptes i) (all i) v in inr (i, v', e' ∙ e)
          ];
          grows = rest.grows;
          spared = λ q out. rest.spared q out ∙ ap (λ (h : Heap). h q) heap;
        }
  ]

  pub take-IsTaken :
      (page : ℕ)
      → IsTaking here s s₁ (some page)
      → IsTaken n left here s₁ s' (batch ++ page ∷ []) batch'
      → IsTaken n (suc left) pte s s' batch batch'
  unfolding update
  take-IsTaken page step rest = elim step.entry [
    | inl (got, _, _, _) ↦ absurd (ground (arith, got))
    | inr (got, t, heap) ↦
        let at : page ≡ (s.ptes here).index = index_of (s.ptes here) page got in
        let on : has (s.ptes here).index batch' ≡ true =
          rw at at (rest.grows page (ground (arith, has-append page batch (page ∷ [])))) in
        record {
          complete = complete_before (batch ++ page ∷ []) step.others (λ can. on) rest;
          entries = λ i. elim (ℕ_discrete i here) [
            | yes e ↦ rw e (
                IsTrimmedEntry-then (s.ptes here) (s₁.ptes here) (s'.ptes here)
                  (has (s.ptes here).index batch') (has (s₁.ptes here).index batch') t on
                  (rest.entries here))
            | no ne ↦ let same = step.others i ne in rw same at (rest.entries i)
          ];
          sources = λ q m. elim (rest.sources q m) [
            | inl old ↦ elim (ℕ_discrete q page) [
              | yes e ↦ inr (here, t.0, sym at ∙ sym e)
              | no ne ↦ inl (ground (arith, old, ne, has-append q batch (page ∷ [])))
            ]
            | inr (i, v, e) ↦ elim (ℕ_discrete i here) [
              | yes same ↦ absurd (
                  ground
                    (arith, IsTrimmedEntry-invalid (s.ptes here) (s₁.ptes here) t (rw same at v)))
              | no ne ↦ let same = step.others i ne in inr (i, rw same at v, rw same at e)
            ]
          ];
          grows = λ q m. rest.grows q (ground (arith, m, has-append q batch (page ∷ [])));
          spared =
              λ q out. rest.spared q out ∙ ap (λ (h : Heap). h q) heap ∙ ground (arith, out, on);
        }
  ]
