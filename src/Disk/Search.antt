-- ===== src/Disk/Search.antt =====
-- `set_and_add_slots_to_stack`: the cyclic search of the bitmap rows for free slots, and
-- `pop_and_clear_all_slots`.
use native.Mathlib.Nat.{mod-add-mod, mod-lt, mod-eq_of_lt, add-mod_right, add_assoc}
use memory_manager.Base.{
  ℕ, zero, suc, ◌+◌, ◌-◌, ◌*◌, ◌/◌, ◌%◌, ◌≤◌, ◌<◌, ◌≡◌, refl, List, [], ◌∷◌, arith, ap, ◌==◌, ltb,
  leb, get_or, length, if◌then◌else◌, some, inl, inr, Bool-cases, ==-eq, sym, dec_le, ◌∙◌, ◌⊎◌,
  ltb→lt,
}
use memory_manager.Disk.{
  PageFile, Row, clear_bits, row_at, is_row_full, search_rows, set_and_add_slots_to_stack,
}
use memory_manager.Disk.Bits.{
  total_clear, clear_bits-of_set, clear_bits-set_bits, get_or-full, AreRows-at,
}
use memory_manager.Disk.Slots.{IsValid, stack_size}
use memory_manager.Disk.Rows.{
  Taken, Taken-trans, Taken-refl, AllSet, push_slots_from_bitmap_row_lem,
}

abbrev IsFull : PageFile → ℕ → Type 0
IsFull pf r = AllSet (r * 64) 64 pf

IsFull-of_test : (pf : PageFile) (r : ℕ) → clear_bits (row_at pf r) ≡ 0 → IsFull pf r
IsFull-of_test pf r e s a b =
    let q : s / 64 ≡ r = omega arith in rw q (get_or-full (row_at pf r) (s % 64) e)

clear_of_full :
    {pf : PageFile}
    → IsValid pf
    → (r : ℕ) → r < pf.page_file_bitmap_rows
    → IsFull pf r
    → clear_bits (row_at pf r) ≡ 0
clear_of_full {pf} v r lt full = clear_bits-of_set (row_at pf r) (λ i below.
    let n = AreRows-at pf.page_file_bitmaps r v.width (omega (arith, v.rows)) in
    let q : (r * 64 + i) / 64 ≡ r = omega arith in
    let m : (r * 64 + i) % 64 ≡ i = omega arith in
    rw (q, m) at (full (r * 64 + i) (omega arith) (omega arith)))

total_clear-zero :
    (rows : List Row)
    → ((r : ℕ) → r < length rows → clear_bits (get_or rows r []) ≡ 0)
    → total_clear rows ≡ 0
total_clear-zero [] h = refl
total_clear-zero (x ∷ xs) h =
    omega (arith, h 0 (omega arith), total_clear-zero xs (λ r lt. h (suc r) (omega arith)))

row_bits :
    {pf : PageFile}
    → IsValid pf
    → (r : ℕ) → r < pf.page_file_bitmap_rows
    → clear_bits (row_at pf r) ≤ 64
row_bits {pf} v r lt = omega (
  arith,
  clear_bits-set_bits (row_at pf r),
  AreRows-at pf.page_file_bitmaps r v.width (omega (arith, v.rows)),
)

-- How far round a row lies behind another.
abbrev distance : (n start r : ℕ) → ℕ
distance n start r = if ltb start r then r - start else r + n - start

distance-row :
    (n start r : ℕ)
    → start < n
    → r < n
    → (1 ≤ distance n start r) × (distance n start r ≤ n) × ((start + distance n start r) % n ≡ r)
distance-row n start r a b =
    let wrap : (r + n) % n ≡ r = add-mod_right r n ∙ mod-eq_of_lt b in
    let below : r % n ≡ r = mod-eq_of_lt b in
    elim (Bool-cases (ltb start r)) [
      | inl e ↦
          let lt = ltb→lt start r e in
          let d : start + (r - start) ≡ r = omega arith in
          rw (e, d) (omega arith, omega arith, below)
      | inr e ↦
          let d : start + (r + n - start) ≡ r + n = omega arith in
          rw (e, d) (ground arith, ground arith, wrap)
    ]

resume :
    {pf pf' : PageFile} {n : ℕ}
    → Taken pf pf' n
    → (row : ℕ) → Taken pf (record pf' { last_checked_bitmap_row = row }) n
resume t row = record {
  valid = record {
    rows = t.valid.rows;
    width = t.valid.width;
    top = t.valid.top;
    small = t.valid.small;
    count = t.valid.count;
    zero_taken = t.valid.zero_taken;
    taken = t.valid.taken;
    apart = t.valid.apart;
    fits = t.valid.fits;
  };
  grown = t.grown;
  counted = t.counted;
  kept = t.kept;
  size = t.size;
  top = t.top;
}

-- Whether the search reached its target or found every row full.
pub record Found (pf pf' : PageFile) (target : ℕ) : Type 0 where
  pub taken : (n : ℕ) × Taken pf pf' n
  pub bounded : pf'.num_stashed_slots < target + 64
  pub resumes : pf'.last_checked_bitmap_row < pf'.page_file_bitmap_rows
  pub reached : (target ≤ pf'.num_stashed_slots) ⊎ (pf'.empty_disk_slots ≡ 0)

-- What one row adds to the search's outcome.
Found-later :
    {pf pf₁ pf₂ : PageFile} {target n : ℕ}
    → Taken pf pf₁ n
    → Found pf₁ pf₂ target
    → Found pf pf₂ target
Found-later {n} t f = record {
  taken = (n + f.taken.0, Taken-trans t f.taken.1);
  bounded = f.bounded;
  resumes = f.resumes;
  reached = f.reached;
}

module _ (target start n : ℕ) (small : target + 64 ≤ stack_size) (inside : start < n) where
  -- The rows from behind `start` on that have been looked at are full.
  abbrev Seen : ℕ → PageFile → Type 0
  Seen k pf = (j : ℕ) → 1 ≤ j → j ≤ k → IsFull pf ((start + j) % n)

  empty_of_Seen :
      {pf : PageFile}
      → IsValid pf
      → pf.page_file_bitmap_rows ≡ n
      → Seen n pf
      → pf.empty_disk_slots ≡ 0
  empty_of_Seen {pf} v rows seen = omega (
    arith,
    v.count,
    total_clear-zero pf.page_file_bitmaps (λ r lt.
        let (a, b, e) = distance-row n start r inside (omega (arith, v.rows)) in
        clear_of_full v r (omega (arith, v.rows)) (rw e at (seen (distance n start r) a b))),
  )

  next_row : (k row : ℕ) → row ≡ (start + k) % n → (row + 1) % n ≡ (start + (k + 1)) % n
  next_row k row e = rw e (mod-add-mod (start + k) n 1 ∙ ap (λ x. x % n) (add_assoc start k 1))

  Seen-step :
      (k next : ℕ) (pf : PageFile)
      → next ≡ (start + (k + 1)) % n
      → Seen k pf
      → IsFull pf next
      → Seen (k + 1) pf
  Seen-step k next pf e seen full j a b = elim (dec_le j k) [
    | yes old ↦ seen j a old
    | no new ↦ let q : j ≡ k + 1 = omega arith in rw (q, ← e) full
  ]

  Seen-Taken : (k : ℕ) (pf pf' : PageFile) {m : ℕ} → Taken pf pf' m → Seen k pf → Seen k pf'
  Seen-Taken k pf pf' t seen j a b s c d = t.kept s (seen j a b s c d)

  search_rows-Found :
      (rounds k row : ℕ) {pf : PageFile}
      → IsValid pf
      → pf.page_file_bitmap_rows ≡ n
      → row ≡ (start + k) % n
      → k + rounds ≡ n
      → pf.num_stashed_slots < target
      → Seen k pf
      → (pf' : PageFile) × (search_rows rounds row target pf ≡ some pf') × Found pf pf' target
  unfolding search_rows is_row_full
  search_rows-Found zero k row {pf} v rows e total low seen =
      let q : k ≡ n = omega arith in
      (
        record pf { last_checked_bitmap_row = row },
        refl,
        record {
          taken = (0, resume (Taken-refl v) row);
          bounded = omega arith;
          resumes = rw (e, rows) (mod-lt (start + k) (omega arith));
          reached = inr (empty_of_Seen v rows (rw q at seen));
        },
      )
  search_rows-Found (suc rounds) k row {pf} v rows e total low seen =
      let next : ℕ = (row + 1) % pf.page_file_bitmap_rows in
      let here : next ≡ (start + (k + 1)) % n = rw rows (next_row k row e) in
      let lt : next < pf.page_file_bitmap_rows = mod-lt (row + 1) (omega arith) in
      elim (Bool-cases (clear_bits (row_at pf next) == 0)) [
        | inl full ↦
            let seen' : Seen (k + 1) pf =
              Seen-step k next pf here seen (IsFull-of_test pf next (==-eq _ _ full)) in
            rw full (search_rows-Found rounds (k + 1) next v rows here (omega arith) low seen')
        | inr room ↦
            let (pf₁, done, t, all) = push_slots_from_bitmap_row_lem v next lt (omega arith) in
            let seen' : Seen (k + 1) pf₁ =
              Seen-step k next pf₁ here (Seen-Taken k pf pf₁ t seen) all in
            rw (room, done)
              (elim (Bool-cases (leb target pf₁.num_stashed_slots)) [
                | inl enough ↦ rw enough (
                  record pf₁ { last_checked_bitmap_row = next },
                  refl,
                  record {
                    taken = (_, resume t next);
                    bounded = omega (arith, t.grown, row_bits v next lt);
                    resumes = omega (arith, t.size);
                    reached = inl (ground arith);
                  },
                )
                | inr short ↦
                    let (pf₂, run, found) =
                      search_rows-Found rounds (k + 1) next t.valid (t.size ∙ rows) here
                        (omega arith) (ground arith) seen' in
                    rw short (pf₂, run, Found-later t found)
              ])
      ]

-- On a valid page file whose search goes on from one of its rows and whose stack holds fewer slots
-- than the target of at most 4096, the search
-- ends without a failed assertion. It takes free slots only and keeps the page file valid; the
-- stack stays within 63 slots of the target; it ends with the target reached or with no free slot
-- left in the page file; and the row to go on from is a row of the page file.
pub set_and_add_slots_to_stack_lem :
    (target : ℕ) {pf : PageFile}
    → IsValid pf
    → pf.last_checked_bitmap_row < pf.page_file_bitmap_rows
    → pf.num_stashed_slots < target
    → target ≤ 4096
    → (pf' : PageFile) × (set_and_add_slots_to_stack pf target ≡ some pf') × Found pf pf' target
unfolding set_and_add_slots_to_stack
set_and_add_slots_to_stack_lem target {pf} v inside low small =
    let start : ℕ = pf.last_checked_bitmap_row in
    let n : ℕ = pf.page_file_bitmap_rows in
    let e : start ≡ (start + 0) % n =
      let z : start + 0 ≡ start = omega arith in rw z (sym (mod-eq_of_lt inside)) in
    search_rows-Found target start n (omega arith) inside n 0 start v refl e (omega arith) low
      (λ j a b. absurd (omega arith))
