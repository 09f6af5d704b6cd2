-- ===== src/Disk/Rows.antt =====
-- `push_slots_from_bitmap_row`: every free slot of a row goes onto the stack.
use memory_manager.Base.{
  ℕ, zero, suc, ◌+◌, ◌-◌, ◌*◌, ◌/◌, ◌%◌, ◌^◌, ◌≤◌, ◌<◌, ◌≡◌, refl, true, false, [], ◌∷◌, arith, ap,
  ◌&&◌, ◌==◌, ltb, leb, length, All-map, has, if◌then◌else◌, length-set, some, inl, inr, Bool-cases,
  ==-eq, ◌∙◌, assert, ◌>>◌,
}
use memory_manager.Disk.{
  PageFile, clear_bits, set_bits, bit_at, row_at, write_row, push_slot, push_slots,
  push_slots_from_bitmap_row, is_row_empty, bitmap_row_full,
}
use memory_manager.Disk.Bits.{
  clear_bits-set_bits, total_clear-le, total_clear-set, get_or-set, AreRows-at, AreRows-set,
  get_or-clear, get_or-full,
}
use memory_manager.Disk.Slots.{IsValid, IsTaken-has, stashed, stack_size, push_slot-IsValid}
use memory_manager.Disk.Scan.{scan_row-Taken}
use memory_manager.Disk.Scan.{Shows}
pub use memory_manager.Disk.Scan.{Taken, Taken-refl, Taken-trans, AllSet}

-- The whole row at once.
module _ (pf : PageFile) (r : ℕ) where
  abbrev filled : PageFile
  filled = record (write_row pf r bitmap_row_full) { empty_disk_slots = pf.empty_disk_slots - 64 }

-- The count that is written after the pushes may be thought of as written before them.
push_slots-count :
    (n slot e : ℕ) (pf : PageFile)
    → record (push_slots n slot pf) { empty_disk_slots = e }
      ≡ push_slots n slot (record pf { empty_disk_slots = e })
unfolding push_slots push_slot
push_slots-count zero slot e pf = refl
push_slots-count (suc n) slot e pf = push_slots-count n (slot + 1) e (push_slot pf slot)

record Pushed (pf pf' : PageFile) (n : ℕ) : Type 0 where
  valid : IsValid pf'
  grown : pf'.num_stashed_slots ≡ pf.num_stashed_slots + n
  bitmaps : pf'.page_file_bitmaps ≡ pf.page_file_bitmaps
  rows : pf'.page_file_bitmap_rows ≡ pf.page_file_bitmap_rows
  top : pf'.max_disk_index ≡ pf.max_disk_index
  empty : pf'.empty_disk_slots ≡ pf.empty_disk_slots

-- Slots in use, none of them on the stack, pushed one after the other.
push_slots-Pushed :
    (n slot : ℕ) {pf : PageFile}
    → IsValid pf
    → AllSet slot n pf
    → ((s : ℕ) → slot ≤ s → s < slot + n → has s (0 ∷ stashed pf) ≡ false)
    → slot + n ≤ pf.max_disk_index + 1
    → pf.num_stashed_slots + n ≤ stack_size
    → Pushed pf (push_slots n slot pf) n
unfolding push_slots push_slot
push_slots-Pushed zero slot v used free le room = record {
  valid = v;
  grown = omega arith;
  bitmaps = refl;
  rows = refl;
  top = refl;
  empty = refl;
}
push_slots-Pushed (suc n) slot {pf} v used free le room =
    let (v', s, k) =
      push_slot-IsValid v slot (used slot (omega arith) (omega arith), omega arith)
        (free slot (omega arith) (omega arith)) (omega arith) in
    let r =
      push_slots-Pushed n (slot + 1) v' (λ q a b. used q (omega arith) (omega arith))
        (λ q a b. rw s (ground (arith, free q (omega arith) (omega arith)))) (omega arith)
        (omega arith) in
    record {
      valid = r.valid;
      grown = omega (arith, r.grown, k);
      bitmaps = r.bitmaps;
      rows = r.rows;
      top = r.top;
      empty = r.empty;
    }

module _ {pf : PageFile} (v : IsValid pf) (r : ℕ) (lt : r < pf.page_file_bitmap_rows) where
  row_length : length (row_at pf r) ≡ 64
  row_length = AreRows-at pf.page_file_bitmaps r v.width (omega (arith, v.rows))

  row_clear :
      set_bits (row_at pf r) ≡ 0 → (s : ℕ) → r * 64 ≤ s → s < r * 64 + 64 → bit_at pf s ≡ false
  row_clear empty s a b =
      let e : s / 64 ≡ r = omega arith in
      rw e (get_or-clear (row_at pf r) (s % 64) empty (omega (arith, row_length)))

  bit_at-filled : (s : ℕ) → bit_at (filled pf r) s ≡ (if s / 64 == r then true else bit_at pf s)
  bit_at-filled s = ground (
    arith,
    get_or-set pf.page_file_bitmaps r (s / 64) bitmap_row_full [] (omega (arith, v.rows)),
    get_or-full bitmap_row_full (s % 64) refl,
  )

  filled-IsValid : set_bits (row_at pf r) ≡ 0 → IsValid (filled pf r)
  filled-IsValid empty = record {
    rows = length-set pf.page_file_bitmaps r bitmap_row_full ∙ v.rows;
    width = AreRows-set pf.page_file_bitmaps r bitmap_row_full v.width refl;
    top = v.top;
    small = v.small;
    count = omega (
      arith,
      v.count,
      row_length,
      clear_bits-set_bits (row_at pf r),
      total_clear-set pf.page_file_bitmaps r bitmap_row_full (omega (arith, v.rows)),
    );
    zero_taken = ground (arith, bit_at-filled 0, v.zero_taken);
    taken = All-map (stashed pf) (λ s t. (ground (arith, bit_at-filled s), t.1)) v.taken;
    apart = v.apart;
    fits = v.fits;
  }

  count-ge : set_bits (row_at pf r) ≡ 0 → 64 ≤ pf.empty_disk_slots
  count-ge empty = omega (
    arith,
    v.count,
    row_length,
    clear_bits-set_bits (row_at pf r),
    total_clear-set pf.page_file_bitmaps r bitmap_row_full (omega (arith, v.rows)),
  )

  -- The branch of an empty row.
  fill-Taken :
      set_bits (row_at pf r) ≡ 0
      → pf.num_stashed_slots + 64 ≤ stack_size
      → Taken pf (push_slots 64 (r * 64) (filled pf r)) 64
        × AllSet (r * 64) 64 (push_slots 64 (r * 64) (filled pf r))
  fill-Taken empty room =
      let p =
        push_slots-Pushed 64 (r * 64) (filled-IsValid empty)
          (λ s a b. ground (arith, bit_at-filled s))
          (λ s a b.
            ground (arith, row_clear empty s, v.zero_taken, IsTaken-has pf s (stashed pf) v.taken))
          (omega (arith, v.top)) room in
      (
        record {
          valid = p.valid;
          grown = p.grown;
          counted = omega (arith, p.empty, count-ge empty);
          kept = λ s t. rw p.bitmaps (ground (arith, bit_at-filled s));
          size = p.rows;
          top = p.top;
        },
        λ s a b. rw p.bitmaps (ground (arith, bit_at-filled s)),
      )

  clear_all : set_bits (row_at pf r) ≡ 0 → clear_bits (row_at pf r) ≡ 64
  clear_all empty = omega (arith, row_length, clear_bits-set_bits (row_at pf r))

  Shows-row : Shows (row_at pf r) (r * 64) pf
  Shows-row s i e below =
      let q : s / 64 ≡ r = omega (arith, row_length) in
      let m : s % 64 ≡ i = omega (arith, row_length) in rw (q, m)

  fill_run :
      set_bits (row_at pf r) ≡ 0
      → (assert (
            leb ((pf.empty_disk_slots + 2 ^ 64 - 64) % 2 ^ 64) pf.max_disk_index
            && ltb ((pf.empty_disk_slots + 2 ^ 64 - 64) % 2 ^ 64) (2 ^ 63))
          >> some (record (push_slots 64 (r * 64) (write_row pf r bitmap_row_full)) {
            empty_disk_slots = (pf.empty_disk_slots + 2 ^ 64 - 64) % 2 ^ 64;
          }))
        ≡ some (push_slots 64 (r * 64) (filled pf r))
  fill_run empty =
      let bound = total_clear-le pf.page_file_bitmaps v.width in
      let e : (pf.empty_disk_slots + 2 ^ 64 - 64) % 2 ^ 64 ≡ pf.empty_disk_slots - 64 =
        omega (arith, v.count, v.top, v.small, v.rows, count-ge empty) in
      let low : leb (pf.empty_disk_slots - 64) pf.max_disk_index ≡ true =
        ground (arith, v.count, v.top, v.small, v.rows, count-ge empty) in
      let high : ltb (pf.empty_disk_slots - 64) (2 ^ 63) ≡ true =
        ground (arith, v.count, v.top, v.small, v.rows, count-ge empty) in
      rw (e, low, high)
        (ap some (
          push_slots-count 64 (r * 64) (pf.empty_disk_slots - 64) (write_row pf r bitmap_row_full)))

  -- `push_slots_from_bitmap_row` on any row of a valid page file, with room for 64 slots: no
  -- assertion fails, the row's clear bits are all set and their number is what the stack grows by
  -- and the counter of empty slots falls by, and the page file stays valid.
  pub push_slots_from_bitmap_row_lem :
      pf.num_stashed_slots + 64 ≤ stack_size
      → (pf' : PageFile) × (push_slots_from_bitmap_row pf r ≡ some pf')
        × Taken pf pf' (clear_bits (row_at pf r))
        × AllSet (r * 64) 64 pf'
  unfolding push_slots_from_bitmap_row is_row_empty
  push_slots_from_bitmap_row_lem room = elim (Bool-cases (set_bits (row_at pf r) == 0)) [
    | inl yes_empty ↦
        let empty : set_bits (row_at pf r) ≡ 0 = ==-eq _ _ yes_empty in
        let (t, all) = fill-Taken empty room in
        (
          push_slots 64 (r * 64) (filled pf r),
          rw yes_empty (fill_run empty),
          rw (clear_all empty) t,
          all,
        )
    | inr not_empty ↦
        let (pf', e, t, all) =
          scan_row-Taken (row_at pf r) (r * 64) v Shows-row (omega (arith, row_length, v.top))
            (omega (arith, row_length)) in
        (pf', rw not_empty e, t, rw row_length at all)
  ]
