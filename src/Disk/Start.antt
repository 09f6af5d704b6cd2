-- ===== src/Disk/Start.antt =====
-- `initialize_page_file_and_metadata`: the page file that every run starts with.
use memory_manager.Base.{
  ℕ, zero, suc, ◌+◌, ◌*◌, ◌/◌, ◌^◌, ◌≤◌, ◌<◌, ◌≡◌, refl, ap, true, false, arith, set, replicate,
  length-replicate,
}
use memory_manager.Disk.{Row, initialize_page_file}
use memory_manager.Disk.Bits.{AreRows, total_clear}
use memory_manager.Disk.Slots.{IsValid}

abbrev empty_row : Row
empty_row = replicate 64 false

abbrev first_row : Row
first_row = set empty_row 0 true

AreRows-rows : (k : ℕ) → AreRows (replicate k empty_row)
AreRows-rows zero = tt
AreRows-rows (suc k) = (refl, AreRows-rows k)

total_clear-rows : (k : ℕ) → total_clear (replicate k empty_row) ≡ k * 64
total_clear-rows zero = refl
total_clear-rows (suc k) = omega (arith, total_clear-rows k)

-- A page file of at least one and at most 2 ^ 34 bitmap rows starts out valid: slot 0 is in use,
-- the counter of free slots counts all others, the stack is empty, and the first search starts at a row.
pub initialize_page_file-IsValid :
    (k : ℕ)
    → 0 < k
    → k ≤ 2 ^ 34
    → IsValid (initialize_page_file (k * 64))
      × ((initialize_page_file (k * 64)).empty_disk_slots + 1 ≡ k * 64)
      × ((initialize_page_file (k * 64)).num_stashed_slots ≡ 0)
      × ((initialize_page_file (k * 64)).last_checked_bitmap_row
          < (initialize_page_file (k * 64)).page_file_bitmap_rows)
unfolding initialize_page_file
initialize_page_file-IsValid zero pos few = absurd (omega arith)
initialize_page_file-IsValid (suc k) pos few =
    let e : suc k * 64 / 64 ≡ suc k = omega arith in
    (
      record {
        rows = rw e (ap suc (length-replicate k empty_row));
        width = rw e (refl, AreRows-rows k);
        top = omega arith;
        small = omega arith;
        count = rw e (omega (arith, total_clear-rows k));
        zero_taken = rw e refl;
        taken = tt;
        apart = refl;
        fits = omega arith;
      },
      omega arith,
      refl,
      omega arith,
    )
