-- ===== src/Trimmer/Visit.antt =====
-- One step of the trimmer's walk, in a region whose valid entries own their pages.
use mathlib.Core.Path.{fun_ext, subst}
use memory_manager.Base.{
  ℕ, ◌≡◌, ◌≢◌, ◌≤◌, ◌<◌, refl, ap, ◌∙◌, true, false, none, some, arith, update, Option, List,
  ℕ_discrete, Bool, Bool-cases, inl, inr, has, ◌⊎◌,
}
use memory_manager.Pte.{
  PageTable, is_pte_valid, is_pte_accessed, clear_accessed_bit, set_pte_to_transition,
  get_va_from_pte,
}
use memory_manager.Pfn.{Heap, get_pfn_from_pte, lock_pfn}
use memory_manager.Locks.{try_lock}
use memory_manager.Pfn.Lock.{with_lock}
use memory_manager.System.{System, write_pte, lock_page, try_lock_pte, unlock_pte}
use memory_manager.Trimmer.{visit_entry, trim_entry}
use memory_manager.Trimmer.Taken.{IsTaking}

-- The entry is valid, with a frame of the range, and the frame's record is unlocked, names the entry
-- as its owner and is off the list.
pub record IsMapped (off : List ℕ) (s : System) (i : ℕ) : Type 0 where
  pub state : (s.ptes i).status ≡ 0
  pub low : s.vm.min_frame_number ≤ (s.ptes i).index
  pub high : (s.ptes i).index ≤ s.vm.max_frame_number
  pub owner : (s.heap (s.ptes i).index).pte ≡ some i
  pub unlocked : (s.heap (s.ptes i).index).lock ≡ 0
  pub apart : has (s.ptes i).index off ≡ false

-- Every valid entry of the region is mapped.
abbrev pub IsRegion : (off : List ℕ) → System → Type 0
IsRegion off s = (i : ℕ) → i < s.vm.num_ptes → is_pte_valid (s.ptes i) ≡ true → IsMapped off s i

-- The page was trimmed: it is locked, and its owner's entry is in transition, with its frame.
pub record IsTrimmedPage (s : System) (q : ℕ) : Type 0 where
  pub owner : ℕ
  pub owned : (s.heap q).pte ≡ some owner
  pub locked : (s.heap q).lock ≡ 1
  pub invalid : (s.ptes owner).valid ≡ 0
  pub transition : (s.ptes owner).status ≡ 0
  pub frame : (s.ptes owner).index ≡ q

-- What a step changes.
pub record IsVisited (off : List ℕ) (s s' : System) (got : Option ℕ) : Type 0 where
  pub rest : s' ≡ record s { heap = s'.heap; ptes = s'.ptes }
  pub region : IsRegion off s'
  pub heap : (q : ℕ) → s'.heap q ≡ record (s.heap q) { lock = (s'.heap q).lock }
  pub locks : (q : ℕ) → (s.heap q).lock ≡ 1 → (s'.heap q).lock ≡ 1
  pub kept : (i : ℕ) → is_pte_valid (s.ptes i) ≡ false → s'.ptes i ≡ s.ptes i
  pub page :
      (q : ℕ) → got ≡ some q → IsTrimmedPage s' q × ((s.heap q).lock ≡ 0) × (has q off ≡ false)

try_lock-held : (l : ℕ) → l ≢ 0 → try_lock l ≡ (l, false)
unfolding try_lock
try_lock-held l held = ground arith

update_same : (t : PageTable) (i : ℕ) → update t i (t i) ≡ t
unfolding update
update_same t i = fun_ext (λ j. ground arith)

try_lock_pte-held : (s : System) (i : ℕ) → (s.ptes i).lock ≢ 0 → try_lock_pte s i ≡ (s, false)
unfolding try_lock_pte
try_lock_pte-held s i held =
    ap (λ (r : ℕ × Bool). (write_pte s i (record (s.ptes i) { lock = r.0 }), r.1))
      (try_lock-held (s.ptes i).lock held)
    ∙ ap (λ (p : PageTable). (record s { ptes = p }, false)) (update_same s.ptes i)

owners-ne : (h : Heap) (p q i j : ℕ) → (h p).pte ≡ some i → (h q).pte ≡ some j → i ≢ j → p ≢ q
owners-ne h p q i j e f ne eq = ground (arith, e, f, ne, eq)

some-injective : (p q : ℕ) → some p ≡ some q → p ≡ q
some-injective p q e = ground arith

module _ (off : List ℕ) (pte : ℕ) (s : System) (region : IsRegion off s)
    (lt : pte < s.vm.num_ptes) where
  abbrev cleared : System
  cleared = write_pte s pte (record (s.ptes pte) { accessed = 0 })

  abbrev trimmed : System
  trimmed = record s {
    ptes = update s.ptes pte (record (s.ptes pte) { valid = 0; status = 0; lock = 0 });
    heap = with_lock s.heap (s.ptes pte).index 1;
  }

  run-invalid : is_pte_valid (s.ptes pte) ≡ false → visit_entry pte s ≡ some (s, none)
  unfolding visit_entry
  run-invalid e = ground (arith, e)

  run-accessed :
      is_pte_valid (s.ptes pte) ≡ true
      → is_pte_accessed (s.ptes pte) ≡ true
      → visit_entry pte s ≡ some (cleared, none)
  unfolding visit_entry clear_accessed_bit is_pte_accessed
  run-accessed v a = ground (arith, v, a)

  run-locked :
      is_pte_valid (s.ptes pte) ≡ true
      → is_pte_accessed (s.ptes pte) ≡ false
      → (s.ptes pte).lock ≢ 0
      → visit_entry pte s ≡ some (s, none)
  unfolding visit_entry
  run-locked v a l = let tried = try_lock_pte-held s pte l in rw (v, a, tried) refl

  run-trimmed :
      is_pte_valid (s.ptes pte) ≡ true
      → is_pte_accessed (s.ptes pte) ≡ false
      → (s.ptes pte).lock ≡ 0
      → visit_entry pte s ≡ some (trimmed, some (s.ptes pte).index)
  unfolding visit_entry trim_entry try_lock_pte get_pfn_from_pte lock_page lock_pfn unlock_pte
      set_pte_to_transition get_va_from_pte update
  run-trimmed v a l =
      let m = region pte lt v in ground (arith, v, a, l, m.state, m.low, m.high, m.unlocked, lt)

  same-IsVisited : IsVisited off s s none
  same-IsVisited = record {
    rest = refl;
    region = region;
    heap = λ q. refl;
    locks = λ q e. e;
    kept = λ i e. refl;
    page = λ q e. absurd cc;
  }

  cleared-IsVisited : is_pte_valid (s.ptes pte) ≡ true → IsVisited off s cleared none
  unfolding update is_pte_valid
  cleared-IsVisited v = record {
    rest = refl;
    region = λ i small valid.
        let m = region i small (ground arith) in
        record {
          state = ground (arith, m.state);
          low = ground (arith, m.low);
          high = ground (arith, m.high);
          owner = ground (arith, m.owner);
          unlocked = ground (arith, m.unlocked);
          apart = ground (arith, m.apart);
        };
    heap = λ q. refl;
    locks = λ q e. e;
    kept = λ i e. ground (arith, e, v);
    page = λ q e. absurd cc;
  }

  trimmed_page :
      is_pte_valid (s.ptes pte) ≡ true
      → IsTrimmedPage trimmed (s.ptes pte).index
        × ((s.heap (s.ptes pte).index).lock ≡ 0)
        × (has (s.ptes pte).index off ≡ false)
  unfolding update
  trimmed_page v =
      let m = region pte lt v in
      (
        record {
          owner = pte;
          owned = ground (arith, m.owner);
          locked = ground arith;
          invalid = ground arith;
          transition = ground arith;
          frame = ground arith;
        },
        m.unlocked,
        m.apart,
      )

  trimmed-IsVisited :
      is_pte_valid (s.ptes pte) ≡ true → IsVisited off s trimmed (some (s.ptes pte).index)
  unfolding update is_pte_valid
  trimmed-IsVisited v = record {
    rest = refl;
    region = λ i small valid.
        let ne : i ≢ pte = ground arith in
        let m = region i small (ground arith) in
        let n = region pte lt v in
        let differ : (s.ptes i).index ≢ (s.ptes pte).index =
          λ e. owners-ne s.heap (s.ptes i).index (s.ptes pte).index i pte m.owner n.owner ne e in
        record {
          state = ground (arith, m.state, ne);
          low = ground (arith, m.low, ne);
          high = ground (arith, m.high, ne);
          owner = ground (arith, m.owner, ne, differ);
          unlocked = ground (arith, m.unlocked, ne, differ);
          apart = ground (arith, m.apart, ne);
        };
    heap = λ q. ground arith;
    locks = λ q e. ground arith;
    kept = λ i e. ground (arith, e, v);
    page = λ q e.
        subst (λ q. IsTrimmedPage trimmed q × ((s.heap q).lock ≡ 0) × (has q off ≡ false))
          (some-injective (s.ptes pte).index q e) (trimmed_page v);
  }

  kept-IsTaking :
      (is_pte_valid (s.ptes pte) ≡ false)
        ⊎ ((is_pte_valid (s.ptes pte) ≡ true)
            × ((is_pte_accessed (s.ptes pte) ≡ true) ⊎ ((s.ptes pte).lock ≢ 0)))
      → IsTaking pte s s none
  kept-IsTaking why = record {
    others = λ i ne. refl;
    entry = inl (refl, ground (arith, why), refl, refl);
  }

  cleared-IsTaking : is_pte_accessed (s.ptes pte) ≡ true → IsTaking pte s cleared none
  unfolding update
  cleared-IsTaking a = record {
    others = λ i ne. ground (arith, ne);
    entry = inl (refl, ground (arith, a), ground arith, refl);
  }

  trimmed-IsTaking :
      is_pte_valid (s.ptes pte) ≡ true → IsTaking pte s trimmed (some (s.ptes pte).index)
  unfolding update
  trimmed-IsTaking v = record {
    others = λ i ne. ground (arith, ne);
    entry = inr (refl, (v, ground arith), refl);
  }

  -- A step of the walk succeeds, whether the entry is invalid, accessed, locked or can be trimmed.
  pub visit_entry_lem :
      (s' : System) × (got : Option ℕ) × (visit_entry pte s ≡ some (s', got))
      × IsVisited off s s' got
      × IsTaking pte s s' got
  visit_entry_lem = elim (Bool-cases (is_pte_valid (s.ptes pte))) [
    | inr invalid ↦ (s, none, run-invalid invalid, same-IsVisited, kept-IsTaking (inl invalid))
    | inl valid ↦ elim (Bool-cases (is_pte_accessed (s.ptes pte))) [
      | inl accessed ↦ (
        cleared,
        none,
        run-accessed valid accessed,
        cleared-IsVisited valid,
        cleared-IsTaking accessed,
      )
      | inr idle ↦ elim (ℕ_discrete (s.ptes pte).lock 0) [
        | no held ↦ (
          s,
          none,
          run-locked valid idle held,
          same-IsVisited,
          kept-IsTaking (inr (valid, inr held)),
        )
        | yes free ↦ (
          trimmed,
          some (s.ptes pte).index,
          run-trimmed valid idle free,
          trimmed-IsVisited valid,
          trimmed-IsTaking valid,
        )
      ]
    ]
  ]
