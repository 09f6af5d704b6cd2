-- ===== src/Disk/Slots.antt =====
-- The invariant of the page file's bookkeeping, and what setting, clearing, pushing and popping one
-- slot do to it.
use memory_manager.Base.{
  ℕ, suc, ◌+◌, ◌-◌, ◌*◌, ◌/◌, ◌%◌, ◌^◌, ◌≤◌, ◌<◌, ◌≡◌, refl, Bool, true, false, List, [], ◌∷◌,
  arith, ◌==◌, set, length, All, All-map, has, distinct, if◌then◌else◌, length-set, update_self,
  distinct-second, some,
}
use memory_manager.Config.{bits_per_bitmap_row}
use memory_manager.Disk.{
  PageFile, Row, bit_at, row_at, write_bit, set_disk_slot, clear_disk_slot, push_slot, pop_slot,
}
use memory_manager.Disk.Bits.{
  clear_bits-set, total_clear, total_clear-le, total_clear-set, get_or-set, AreRows, AreRows-at,
  AreRows-set, stash, stash-update, stash-pos,
}

-- The entries of `slot_stack`: MAX_WRITE_BATCH_SIZE * 2.
abbrev pub stack_size : ℕ
stack_size = 8192

-- A slot of the page file that is marked as in use.
abbrev pub IsTaken : PageFile → ℕ → Type 0
IsTaken pf s = (bit_at pf s ≡ true) × (s ≤ pf.max_disk_index)

abbrev pub stashed : PageFile → List ℕ
stashed pf = stash pf.num_stashed_slots pf.slot_stack

-- The bitmaps have the page file's size, whose slots fit the 40 bits of a disk index; the counter
-- of empty slots counts the clear bits; slot 0 is in use and not on the stack; the slots on the
-- stack are in use, no slot is on it twice, and it fits its array.
pub record IsValid (pf : PageFile) : Type 0 where
  pub rows : length pf.page_file_bitmaps ≡ pf.page_file_bitmap_rows
  pub width : AreRows pf.page_file_bitmaps
  pub top : pf.max_disk_index + 1 ≡ pf.page_file_bitmap_rows * 64
  pub small : pf.max_disk_index < 2 ^ 40
  pub count : pf.empty_disk_slots ≡ total_clear pf.page_file_bitmaps
  pub zero_taken : bit_at pf 0 ≡ true
  pub taken : All (IsTaken pf) (stashed pf)
  pub apart : distinct (0 ∷ stashed pf) ≡ true
  pub fits : pf.num_stashed_slots ≤ stack_size

module _ {pf : PageFile} (v : IsValid pf) (slot : ℕ) (le : slot ≤ pf.max_disk_index) where
  abbrev here : Row
  here = row_at pf (slot / bits_per_bitmap_row)

  row_lt : slot / bits_per_bitmap_row < length pf.page_file_bitmaps
  row_lt = omega (arith, v.rows, v.top)

  here-length : length here ≡ 64
  here-length = AreRows-at pf.page_file_bitmaps (slot / bits_per_bitmap_row) v.width row_lt

  -- A write of one bit changes that bit alone.
  pub bit_at-write_bit :
      (b : Bool) (s : ℕ) → bit_at (write_bit pf slot b) s ≡ (if s == slot then b else bit_at pf s)
  bit_at-write_bit b s = ground (
    arith,
    here-length,
    get_or-set pf.page_file_bitmaps (slot / 64) (s / 64) (set here (slot % 64) b) [] row_lt,
    get_or-set here (slot % 64) (s % 64) b true,
  )

  total_clear-write_bit :
      (b : Bool)
      → total_clear (write_bit pf slot b).page_file_bitmaps + (if bit_at pf slot then 0 else 1)
        ≡ total_clear pf.page_file_bitmaps + (if b then 0 else 1)
  total_clear-write_bit b = omega (
    arith,
    here-length,
    total_clear-set pf.page_file_bitmaps (slot / 64) (set here (slot % 64) b) row_lt,
    clear_bits-set here (slot % 64) b (omega (arith, here-length)),
  )

  width-write_bit : (b : Bool) → AreRows (write_bit pf slot b).page_file_bitmaps
  width-write_bit b =
      AreRows-set pf.page_file_bitmaps (slot / 64) (set here (slot % 64) b) v.width
        (omega (arith, here-length, length-set here (slot % 64) b))

abbrev pub set_result : PageFile → ℕ → PageFile
set_result pf slot = record (write_bit pf slot true) { empty_disk_slots = pf.empty_disk_slots - 1 }

abbrev pub clear_result : PageFile → ℕ → PageFile
clear_result pf slot = record (write_bit pf slot false) {
  empty_disk_slots = pf.empty_disk_slots + 1;
}

pub IsTaken-has :
    (pf : PageFile) (s : ℕ) (xs : List ℕ)
    → All (IsTaken pf) xs
    → bit_at pf s ≡ false
    → has s xs ≡ false
IsTaken-has pf s [] h e = refl
IsTaken-has pf s (x ∷ xs) h e = ground (arith, IsTaken-has pf s xs h.1 e)

All-IsTaken-clear :
    (pf pf' : PageFile) (slot : ℕ) (xs : List ℕ)
    → ((s : ℕ) → bit_at pf' s ≡ (if s == slot then false else bit_at pf s))
    → pf'.max_disk_index ≡ pf.max_disk_index
    → has slot xs ≡ false
    → All (IsTaken pf) xs
    → All (IsTaken pf') xs
All-IsTaken-clear pf pf' slot [] f e n h = tt
All-IsTaken-clear pf pf' slot (x ∷ xs) f e n h = (
  (ground (arith, f x), omega (arith, h.0.1)),
  All-IsTaken-clear pf pf' slot xs f e (ground arith) h.1,
)

module _ {pf : PageFile} (v : IsValid pf) (slot : ℕ) (le : slot ≤ pf.max_disk_index) where
  -- Setting a clear bit succeeds: it changes that bit and the count, and keeps the invariant.
  pub set_disk_slot_lem :
      bit_at pf slot ≡ false
      → (set_disk_slot pf slot ≡ some (set_result pf slot))
        × IsValid (set_result pf slot)
        × ((s : ℕ) → bit_at (set_result pf slot) s ≡ (if s == slot then true else bit_at pf s))
        × ((set_result pf slot).empty_disk_slots + 1 ≡ pf.empty_disk_slots)
  unfolding set_disk_slot
  set_disk_slot_lem clear =
      let total = total_clear-write_bit v slot le true in
      let bound = total_clear-le pf.page_file_bitmaps v.width in
      let bit = bit_at-write_bit v slot le true in
      (
        ground (arith, v.count, v.rows, v.top, v.small),
        record {
          rows = omega (
            arith,
            v.rows,
            length-set pf.page_file_bitmaps (slot / 64) (set (here v slot le) (slot % 64) true),
          );
          width = width-write_bit v slot le true;
          top = v.top;
          small = v.small;
          count = ground (arith, v.count);
          zero_taken = ground (arith, bit 0, v.zero_taken);
          taken = All-map (stashed pf) (λ s t. (ground (arith, bit s), t.1)) v.taken;
          apart = v.apart;
          fits = v.fits;
        },
        bit,
        ground (arith, v.count),
      )

  -- Clearing a set bit of a slot that is neither 0 nor on the stack.
  pub clear_disk_slot_lem :
      bit_at pf slot ≡ true
      → has slot (0 ∷ stashed pf) ≡ false
      → (clear_disk_slot pf slot ≡ some (clear_result pf slot))
        × IsValid (clear_result pf slot)
        × ((s : ℕ) → bit_at (clear_result pf slot) s ≡ (if s == slot then false else bit_at pf s))
        × ((clear_result pf slot).empty_disk_slots ≡ pf.empty_disk_slots + 1)
  unfolding clear_disk_slot
  clear_disk_slot_lem used free =
      let total = total_clear-write_bit v slot le false in
      let bound = total_clear-le pf.page_file_bitmaps v.width in
      let bit = bit_at-write_bit v slot le false in
      (
        ground (arith, v.count, v.rows, v.top, v.small),
        record {
          rows = omega (
            arith,
            v.rows,
            length-set pf.page_file_bitmaps (slot / 64) (set (here v slot le) (slot % 64) false),
          );
          width = width-write_bit v slot le false;
          top = v.top;
          small = v.small;
          count = ground (arith, v.count);
          zero_taken = ground (arith, bit 0, v.zero_taken);
          taken =
              All-IsTaken-clear pf (clear_result pf slot) slot (stashed pf) bit refl (ground arith)
                v.taken;
          apart = v.apart;
          fits = v.fits;
        },
        bit,
        refl,
      )

stashed-push_slot :
    (pf : PageFile) (slot : ℕ)
    → pf.num_stashed_slots < stack_size
    → stashed (push_slot pf slot) ≡ slot ∷ stashed pf
unfolding push_slot
stashed-push_slot pf slot room =
    let e : (pf.num_stashed_slots + 1) % 2 ^ 64 ≡ suc pf.num_stashed_slots = omega arith in
    rw (
      e,
      update_self pf.slot_stack pf.num_stashed_slots slot,
      stash-update pf.num_stashed_slots pf.num_stashed_slots pf.slot_stack slot (omega arith),
    )

-- A slot in use that is neither 0 nor on the stack, pushed where there is room.
pub push_slot-IsValid :
    {pf : PageFile}
    → IsValid pf
    → (slot : ℕ) → IsTaken pf slot
    → has slot (0 ∷ stashed pf) ≡ false
    → pf.num_stashed_slots < stack_size
    → IsValid (push_slot pf slot)
      × (stashed (push_slot pf slot) ≡ slot ∷ stashed pf)
      × ((push_slot pf slot).num_stashed_slots ≡ pf.num_stashed_slots + 1)
unfolding push_slot
push_slot-IsValid {pf} v slot t out room = (
  record {
    rows = v.rows;
    width = v.width;
    top = v.top;
    small = v.small;
    count = v.count;
    zero_taken = v.zero_taken;
    taken = rw (stashed-push_slot pf slot room) (t, v.taken);
    apart = rw (stashed-push_slot pf slot room) (distinct-second 0 slot (stashed pf) v.apart out);
    fits = omega arith;
  },
  stashed-push_slot pf slot room,
  omega arith,
)

abbrev pub pop_result : PageFile → PageFile
pop_result pf = record pf { num_stashed_slots = pf.num_stashed_slots - 1 }

abbrev pub top_slot : PageFile → ℕ
top_slot pf = pf.slot_stack (pf.num_stashed_slots - 1)

-- The slot on top leaves the stack and stays in use.
pub pop_slot_lem :
    {pf : PageFile}
    → IsValid pf
    → 0 < pf.num_stashed_slots
    → (pop_slot pf ≡ some (top_slot pf, pop_result pf))
      × IsValid (pop_result pf)
      × (stashed pf ≡ top_slot pf ∷ stashed (pop_result pf))
      × IsTaken pf (top_slot pf)
      × (has (top_slot pf) (0 ∷ stashed (pop_result pf)) ≡ false)
unfolding pop_slot
pop_slot_lem {pf} v pos =
    let e = stash-pos pf.num_stashed_slots pf.slot_stack pos in
    let d : distinct (0 ∷ top_slot pf ∷ stashed (pop_result pf)) ≡ true = rw e at v.apart in
    let t : All (IsTaken pf) (top_slot pf ∷ stashed (pop_result pf)) = rw e at v.taken in
    (
      ground (arith, v.fits),
      record {
        rows = v.rows;
        width = v.width;
        top = v.top;
        small = v.small;
        count = v.count;
        zero_taken = v.zero_taken;
        taken = t.1;
        apart = ground (arith, d);
        fits = omega (arith, v.fits);
      },
      e,
      t.0,
      ground (arith, d),
    )
