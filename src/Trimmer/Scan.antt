-- ===== src/Trimmer/Scan.antt =====
-- The whole of the trimmer's walk, in a region whose valid entries own their pages.
use mathlib.Core.Path.{subst}
use mathlib.Core.List.{append_assoc}
use memory_manager.Base.{
  ℕ, zero, suc, ◌+◌, ◌≡◌, ◌≤◌, ◌<◌, refl, ap, ◌∙◌, true, false, none, some, arith, update, Option,
  List, dec_lt, inl, inr, ◌⊎◌, All, All-map, distinct-snoc, has-append, length-append, distinct, [],
  ◌∷◌, ◌++◌, length, has,
}
use memory_manager.Config.{Vm, max_trim_batch_size}
use memory_manager.Pte.{is_pte_valid}
use memory_manager.Pfn.{Pfn}
use memory_manager.System.{System}
use memory_manager.Trimmer.{visit_entry, trim_scan, next_pte}
use memory_manager.Trimmer.Walk.{
  next_pte-lt, trim_scan-stop, trim_scan-none, trim_scan-some, trim_scan-zero,
}
use memory_manager.Trimmer.Taken.{
  advance, IsTaking, IsTaken, nothing-IsTaken, skip-IsTaken, take-IsTaken,
}
use memory_manager.Trimmer.Visit.{IsRegion, IsTrimmedPage, IsVisited, visit_entry_lem}

-- Memory and the page table alone have changed, and memory in locks alone.
pub record HasOnlyLocked (s s' : System) : Type 0 where
  pub rest : s' ≡ record s { heap = s'.heap; ptes = s'.ptes }
  pub heap : (q : ℕ) → s'.heap q ≡ record (s.heap q) { lock = (s'.heap q).lock }

-- What a batch is during the walk: its pages are trimmed, all different, and off the list.
pub record IsBatch (off : List ℕ) (s : System) (batch : List ℕ) : Type 0 where
  pub pages : All (IsTrimmedPage s) batch
  pub apart : distinct (off ++ batch) ≡ true
  pub few : length batch ≤ max_trim_batch_size

lock_trans :
    (a b c : Pfn)
    → b ≡ record a { lock = b.lock }
    → c ≡ record b { lock = c.lock }
    → c ≡ record a { lock = c.lock }
lock_trans a b c d e = ground (arith, d, e)

HasOnlyLocked-step :
    (off : List ℕ) (s s₁ s' : System) (got : Option ℕ)
    → IsVisited off s s₁ got
    → HasOnlyLocked s₁ s'
    → HasOnlyLocked s s'
unfolding update
HasOnlyLocked-step off s s₁ s' got v r = record {
  rest = r.rest ∙ ap (λ (u : System). record u { heap = s'.heap; ptes = s'.ptes }) v.rest;
  heap = λ q. lock_trans (s.heap q) (s₁.heap q) (s'.heap q) (v.heap q) (r.heap q);
}

kept-IsTrimmedPage :
    (off : List ℕ) (s s₁ : System) (got : Option ℕ) (q : ℕ)
    → IsVisited off s s₁ got
    → IsTrimmedPage s q
    → IsTrimmedPage s₁ q
unfolding update is_pte_valid
kept-IsTrimmedPage off s s₁ got q v t =
    let same = v.kept t.owner (ground (arith, t.invalid)) in
    record {
      owner = t.owner;
      owned = ap (λ (r : Pfn). r.pte) (v.heap q) ∙ t.owned;
      locked = v.locks q t.locked;
      invalid = rw same t.invalid;
      transition = rw same t.transition;
      frame = rw same t.frame;
    }

unlocked-off :
    (s : System) (page : ℕ) (batch : List ℕ)
    → (s.heap page).lock ≡ 0
    → All (IsTrimmedPage s) batch
    → has page batch ≡ false
unlocked-off s page [] free a = refl
unlocked-off s page (x ∷ batch) free a =
    ground (arith, a.0.locked, unlocked-off s page batch free a.1)

All-snoc {ℓ κ} :
    {A : Type ℓ} (P : A → Type κ) (xs : List A) (x : A) → All P xs → P x → All P (xs ++ x ∷ [])
All-snoc P [] x a p = (p, tt)
All-snoc P (y ∷ xs) x a p = (a.0, All-snoc P xs x a.1 p)

snoc-IsBatch :
    (off : List ℕ) (s s₁ : System) (page : ℕ) (batch : List ℕ)
    → IsBatch off s batch
    → IsVisited off s s₁ (some page)
    → length batch < max_trim_batch_size
    → IsBatch off s₁ (batch ++ page ∷ [])
snoc-IsBatch off s s₁ page batch b v room =
    let (trimmed, free, out) = v.page page refl in
    let new : has page (off ++ batch) ≡ false =
      ground (arith, has-append page off batch, out, unlocked-off s page batch free b.pages) in
    record {
      pages =
          All-snoc (IsTrimmedPage s₁) batch page
            (All-map batch (λ q t. kept-IsTrimmedPage off s s₁ (some page) q v t) b.pages) trimmed;
      apart =
          rw (← append_assoc off batch (page ∷ [])) (distinct-snoc (off ++ batch) page b.apart new);
      few = omega (arith, length-append batch (page ∷ []));
    }

same-IsBatch :
    (off : List ℕ) (s s₁ : System) (batch : List ℕ)
    → IsBatch off s batch
    → IsVisited off s s₁ none
    → IsBatch off s₁ batch
same-IsBatch off s s₁ batch b v = record {
  pages = All-map batch (λ q t. kept-IsTrimmedPage off s s₁ none q v t) b.pages;
  apart = b.apart;
  few = b.few;
}

visit_entry-cases :
    (off : List ℕ) (pte : ℕ) (s : System)
    → IsRegion off s
    → pte < s.vm.num_ptes
    → ((s₁ : System) × (visit_entry pte s ≡ some (s₁, none))
        × IsVisited off s s₁ none
        × IsTaking pte s s₁ none)
      ⊎ ((s₁ : System) × (page : ℕ) × (visit_entry pte s ≡ some (s₁, some page))
          × IsVisited off s s₁ (some page)
          × IsTaking pte s s₁ (some page))
visit_entry-cases off pte s region lt =
    let (s₁, got, run, v, t) = visit_entry_lem off pte s region lt in by_page s₁ got run v t
  where
    by_page :
        (s₁ : System) (got : Option ℕ)
        → visit_entry pte s ≡ some (s₁, got)
        → IsVisited off s s₁ got
        → IsTaking pte s s₁ got
        → ((s₁ : System) × (visit_entry pte s ≡ some (s₁, none))
            × IsVisited off s s₁ none
            × IsTaking pte s s₁ none)
          ⊎ ((s₁ : System) × (page : ℕ) × (visit_entry pte s ≡ some (s₁, some page))
              × IsVisited off s s₁ (some page)
              × IsTaking pte s s₁ (some page))
    by_page s₁ none run v t = inl (s₁, run, v, t)
    by_page s₁ (some page) run v t = inr (s₁, page, run, v, t)

module _ (left pte : ℕ) (s s₁ s' : System) (batch batch' : List ℕ) (vm : s₁.vm ≡ s.vm) where
  skip-next :
      IsTaking (next_pte s pte) s s₁ none
      → IsTaken s₁.vm.num_ptes left (next_pte s pte) s₁ s' batch batch'
      → IsTaken s.vm.num_ptes (suc left) pte s s' batch batch'
  unfolding next_pte
  skip-next step rest = skip-IsTaken s.vm.num_ptes left pte s s₁ s' batch batch' step (
      subst (λ m. IsTaken m left (advance s.vm.num_ptes pte) s₁ s' batch batch')
        (ap (λ (r : Vm). r.num_ptes) vm) rest)

  take-next :
      (page : ℕ)
      → IsTaking (next_pte s pte) s s₁ (some page)
      → IsTaken s₁.vm.num_ptes left (next_pte s pte) s₁ s' (batch ++ page ∷ []) batch'
      → IsTaken s.vm.num_ptes (suc left) pte s s' batch batch'
  unfolding next_pte
  take-next page step rest = take-IsTaken s.vm.num_ptes left pte s s₁ s' batch batch' page step (
      subst (λ m. IsTaken m left (advance s.vm.num_ptes pte) s₁ s' (batch ++ page ∷ []) batch')
        (ap (λ (r : Vm). r.num_ptes) vm) rest)

-- The walk.
pub trim_scan_lem :
    (off : List ℕ) (left pte : ℕ) (batch : List ℕ) (s : System)
    → IsRegion off s
    → pte < s.vm.num_ptes
    → IsBatch off s batch
    → (s' : System) × (pte' : ℕ) × (batch' : List ℕ) × (trim_scan left pte batch s
        ≡ some (s', pte', batch'))
      × HasOnlyLocked s s'
      × IsRegion off s'
      × IsBatch off s' batch'
      × (length batch' ≤ length batch + left)
      × (pte' < s'.vm.num_ptes)
      × IsTaken s.vm.num_ptes left pte s s' batch batch'
trim_scan_lem off zero pte batch s region lt b = (
  s,
  pte,
  batch,
  trim_scan-zero pte batch s,
  record { rest = refl; heap = λ q. refl },
  region,
  b,
  omega arith,
  lt,
  nothing-IsTaken s.vm.num_ptes zero pte s batch (inl refl),
)
trim_scan_lem off (suc left) pte batch s region lt b =
    elim (dec_lt (length batch) max_trim_batch_size) [
      | no full ↦ (
        s,
        pte,
        batch,
        trim_scan-stop left pte batch s (omega arith),
        record { rest = refl; heap = λ q. refl },
        region,
        b,
        omega arith,
        lt,
        nothing-IsTaken s.vm.num_ptes (suc left) pte s batch (inr (omega (arith, full))),
      )
      | yes room ↦
          let next = next_pte-lt s pte lt in
          elim (visit_entry-cases off (next_pte s pte) s region next) [
            | inl (s₁, run, v, t) ↦
                let on : next_pte s pte < s₁.vm.num_ptes =
                  rw (ap (λ (r : System). r.vm) v.rest) next in
                let (s', pte', batch', more, only, region', b', few, lt', taken) =
                  trim_scan_lem off left (next_pte s pte) batch s₁ v.region on
                    (same-IsBatch off s s₁ batch b v) in
                (
                  s',
                  pte',
                  batch',
                  trim_scan-none left pte batch s room run ∙ more,
                  HasOnlyLocked-step off s s₁ s' none v only,
                  region',
                  b',
                  omega arith,
                  lt',
                  skip-next left pte s s₁ s' batch batch' (ap (λ (r : System). r.vm) v.rest) t
                      taken,
                )
            | inr (s₁, page, run, v, t) ↦
                let on : next_pte s pte < s₁.vm.num_ptes =
                  rw (ap (λ (r : System). r.vm) v.rest) next in
                let grown = length-append batch (page ∷ []) in
                let (s', pte', batch', more, only, region', b', few, lt', taken) =
                  trim_scan_lem off left (next_pte s pte) (batch ++ page ∷ []) s₁ v.region on
                    (snoc-IsBatch off s s₁ page batch b v room) in
                (
                  s',
                  pte',
                  batch',
                  trim_scan-some left pte batch s room run ∙ more,
                  HasOnlyLocked-step off s s₁ s' (some page) v only,
                  region',
                  b',
                  omega arith,
                  lt',
                  take-next left pte s s₁ s' batch batch' (ap (λ (r : System). r.vm) v.rest) page t
                      taken,
                )
          ]
    ]
