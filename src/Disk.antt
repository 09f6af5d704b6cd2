-- ===== src/Disk.antt =====
-- data_structures/disk.h and disk.c: the page file's bitmaps and the writer's stack of slots. A
-- bitmap row is the list of its 64 bits, lowest first, so that `| (1ULL << i)` sets entry i and
-- `& ~(1ULL << i)` clears it. The stack is an array and a count. LONG64 counters are kept as their
-- 64 bits. `none` is a failed ASSERT. The contents of the page file are a store by slot.
pub mod Bits
pub mod Slots
pub mod Scan
pub mod Rows
pub mod Search
pub mod Release
pub mod Start
use memory_manager.Base.{
  ℕ, zero, suc, ◌+◌, ◌-◌, ◌*◌, ◌/◌, ◌%◌, ◌^◌, Bool, true, false, not, ◌&&◌, List, [], ◌∷◌, Option,
  some, ◌==◌, ltb, leb, if◌then◌else◌, ◌>>=◌, ◌>>◌, assert, get_or, set, replicate, update,
}
use memory_manager.Config.{bits_per_bitmap_row}
use memory_manager.Pte.{validate_disk_slot}

abbrev pub Row : Type 0
Row = List Bool

pub record PageFile : Type 0 where
  pub page_file_bitmaps : List Row
  pub page_file_bitmap_rows : ℕ
  pub max_disk_index : ℕ
  pub empty_disk_slots : ℕ
  pub slot_stack : ℕ → ℕ
  pub last_checked_bitmap_row : ℕ
  pub num_stashed_slots : ℕ

abbrev pub bitmap_row_full : Row
bitmap_row_full = replicate bits_per_bitmap_row true

-- The number of zero bits.
abbrev pub clear_bits : Row → ℕ
clear_bits [] = 0
clear_bits (b ∷ bs) = (if b then 0 else 1) + clear_bits bs

abbrev pub set_bits : Row → ℕ
set_bits [] = 0
set_bits (b ∷ bs) = (if b then 1 else 0) + set_bits bs

-- `== BITMAP_ROW_EMPTY` and `== BITMAP_ROW_FULL`: no bit is set, no bit is clear.
unfoldable pub is_row_empty : Row → Bool
is_row_empty row = set_bits row == 0

unfoldable pub is_row_full : Row → Bool
is_row_full row = clear_bits row == 0

abbrev pub row_at : PageFile → ℕ → Row
row_at pf r = get_or pf.page_file_bitmaps r []

-- BITMAP_ROW and BITMAP_OFFSET
abbrev pub bit_at : PageFile → ℕ → Bool
bit_at pf slot = get_or (row_at pf (slot / bits_per_bitmap_row)) (slot % bits_per_bitmap_row) true

abbrev pub write_row : PageFile → ℕ → Row → PageFile
write_row pf r row = record pf { page_file_bitmaps = set pf.page_file_bitmaps r row }

abbrev pub write_bit : PageFile → ℕ → Bool → PageFile
write_bit pf slot b =
    write_row pf (slot / bits_per_bitmap_row)
      (set (row_at pf (slot / bits_per_bitmap_row)) (slot % bits_per_bitmap_row) b)

unfoldable pub set_disk_slot : PageFile → ℕ → Option PageFile
unfolding validate_disk_slot
set_disk_slot pf slot = do
  validate_disk_slot pf.max_disk_index slot
  assert (not (bit_at pf slot))
  some (record (write_bit pf slot true) {
    empty_disk_slots = (pf.empty_disk_slots + 2 ^ 64 - 1) % 2 ^ 64;
  })

unfoldable pub clear_disk_slot : PageFile → ℕ → Option PageFile
unfolding validate_disk_slot
clear_disk_slot pf slot = do
  validate_disk_slot pf.max_disk_index slot
  assert (bit_at pf slot)
  some (record (write_bit pf slot false) { empty_disk_slots = (pf.empty_disk_slots + 1) % 2 ^ 64 })

unfoldable pub push_slot : PageFile → ℕ → PageFile
unfolding update
push_slot pf slot = record pf {
  slot_stack = update pf.slot_stack pf.num_stashed_slots slot;
  num_stashed_slots = (pf.num_stashed_slots + 1) % 2 ^ 64;
}

-- The slot and the new state.
unfoldable pub pop_slot : PageFile → Option (ℕ × PageFile)
pop_slot pf = do
  assert (ltb 0 pf.num_stashed_slots)
  let n = (pf.num_stashed_slots + 2 ^ 64 - 1) % 2 ^ 64
  some (pf.slot_stack n, record pf { num_stashed_slots = n })

-- `count` slots from `slot` on, pushed one after the other.
unfoldable pub push_slots : ℕ → ℕ → PageFile → PageFile
push_slots zero slot pf = pf
push_slots (suc count) slot pf = push_slots count (slot + 1) (push_slot pf slot)

-- The loop over the bits of the snapshot.
unfoldable pub scan_row : Row → ℕ → PageFile → Option PageFile
scan_row [] slot pf = some pf
scan_row (true ∷ bs) slot pf = scan_row bs (slot + 1) pf
scan_row (false ∷ bs) slot pf = do
  pf' ← set_disk_slot pf slot
  scan_row bs (slot + 1) (push_slot pf' slot)

-- The assertion on the new count compares it with the number of pages, one more than the largest
-- index. The writer alone sets bits, so a row that was empty in the snapshot is empty at the exchange.
unfoldable pub push_slots_from_bitmap_row : PageFile → ℕ → Option PageFile
push_slots_from_bitmap_row pf r =
    let start = r * bits_per_bitmap_row in
    if not (is_row_empty (row_at pf r)) then scan_row (row_at pf r) start pf else do
      let pushed = push_slots bits_per_bitmap_row start (write_row pf r bitmap_row_full)
      let result = (pf.empty_disk_slots + 2 ^ 64 - 64) % 2 ^ 64
      assert (leb result pf.max_disk_index && ltb result (2 ^ 63))
      some (record pushed { empty_disk_slots = result })

-- The `for` loop, with the rounds left, from the row that was looked at last. A full row goes on
-- past the test of the target.
unfoldable pub search_rows : (rounds row target : ℕ) → PageFile → Option PageFile
search_rows zero row target pf = some (record pf { last_checked_bitmap_row = row })
search_rows (suc rounds) row target pf =
    let next = (row + 1) % pf.page_file_bitmap_rows in
    let skip = search_rows rounds next target pf in
    if is_row_full (row_at pf next)
    then skip
    else (push_slots_from_bitmap_row pf next >>= λ pf'.
        let more = search_rows rounds next target pf' in
        if leb target pf'.num_stashed_slots
        then some (record pf' { last_checked_bitmap_row = next })
        else more)

unfoldable pub set_and_add_slots_to_stack : PageFile → ℕ → Option PageFile
set_and_add_slots_to_stack pf target =
    search_rows pf.page_file_bitmap_rows pf.last_checked_bitmap_row target pf

-- `pop_and_clear_all_slots`, with the number of slots that the loop finds on the stack as fuel.
unfoldable pub pop_and_clear : ℕ → PageFile → Option PageFile
pop_and_clear zero pf = some pf
pop_and_clear (suc fuel) pf = elim (ltb 0 pf.num_stashed_slots) [
  | false ↦ some pf
  | true ↦ pop_slot pf >>= λ r. clear_disk_slot r.1 r.0 >>= λ pf'. pop_and_clear fuel pf'
]

unfoldable pub pop_and_clear_all_slots : PageFile → Option PageFile
pop_and_clear_all_slots pf = pop_and_clear pf.num_stashed_slots pf

-- `initialize_page_file_and_metadata`, for a number of pages that is a multiple of 64.
unfoldable pub initialize_page_file : (pages_in_page_file : ℕ) → PageFile
initialize_page_file pages = record {
  page_file_bitmaps =
      set (replicate (pages / bits_per_bitmap_row) (replicate bits_per_bitmap_row false)) 0
        (set (replicate bits_per_bitmap_row false) 0 true);
  page_file_bitmap_rows = pages / bits_per_bitmap_row;
  max_disk_index = pages - 1;
  empty_disk_slots = pages - 1;
  slot_stack = λ _. 0;
  last_checked_bitmap_row = 0;
  num_stashed_slots = 0;
}
