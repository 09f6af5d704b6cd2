-- ===== src/Writer/Slots.antt =====
-- The slots that the writer reserves for a batch.
use memory_manager.Base.{
  ℕ, ◌^◌, ◌≡◌, ◌≤◌, ◌<◌, some, arith, if◌then◌else◌, ltb, min, dec_lt, leb, ◌||◌,
}
use memory_manager.Config.{max_write_batch_size}
use memory_manager.Disk.{PageFile, set_and_add_slots_to_stack}
use memory_manager.Disk.Slots.{IsValid}
use memory_manager.Disk.Bits.{total_clear-le}
use memory_manager.Disk.Search.{set_and_add_slots_to_stack_lem}
use memory_manager.Writer.{reserve_slots}

-- Enough slots for a batch of `n` pages, in a valid page file whose next search starts at a row.
pub record IsReserved (pf : PageFile) (approx n : ℕ) : Type 0 where
  pub valid : IsValid pf
  pub enough : n ≤ pf.num_stashed_slots
  pub capacity : n ≤ max_write_batch_size
  pub wanted : n ≤ approx
  pub resumes : pf.last_checked_bitmap_row < pf.page_file_bitmap_rows

reserve-none :
    (pf : PageFile) (approx : ℕ) → pf.empty_disk_slots ≡ 0 → reserve_slots pf approx ≡ some (pf, 0)
unfolding reserve_slots
reserve-none pf approx e = ground arith

abbrev pub batch_size : PageFile → (approx : ℕ) → ℕ
batch_size pf approx =
    if ltb pf.num_stashed_slots 1 || leb (2 ^ 63) pf.num_stashed_slots
    then 0
    else min pf.num_stashed_slots (min max_write_batch_size approx)

pub reserve-stashed :
    (pf : PageFile) (approx : ℕ)
    → 0 < pf.empty_disk_slots
    → pf.empty_disk_slots < 2 ^ 63
    → min max_write_batch_size approx ≤ pf.num_stashed_slots
    → reserve_slots pf approx ≡ some (pf, batch_size pf approx)
unfolding reserve_slots
reserve-stashed pf approx pos small full = ground arith

reserve-search :
    (pf pf' : PageFile) (approx : ℕ)
    → 0 < pf.empty_disk_slots
    → pf.empty_disk_slots < 2 ^ 63
    → pf.num_stashed_slots < min max_write_batch_size approx
    → set_and_add_slots_to_stack pf (min max_write_batch_size approx) ≡ some pf'
    → reserve_slots pf approx ≡ some (pf', batch_size pf' approx)
unfolding reserve_slots
reserve-search pf pf' approx pos small low e = ground arith

-- On a valid page file whose search goes on from one of its rows, reserving slots for a batch ends
-- without a failed assertion, with the page file valid, and the number of pages that it allows is at
-- most the number of slots on the stack, the number of modified pages, and 4096.
pub reserve_slots_lem :
    {pf : PageFile} (approx : ℕ)
    → IsValid pf
    → pf.last_checked_bitmap_row < pf.page_file_bitmap_rows
    → (pf' : PageFile) × (n : ℕ) × (reserve_slots pf approx ≡ some (pf', n))
      × IsReserved pf' approx n
reserve_slots_lem {pf} approx v inside =
    let bound = total_clear-le pf.page_file_bitmaps v.width in
    let small : pf.empty_disk_slots < 2 ^ 63 = omega (arith, v.count, v.top, v.small, v.rows) in
    elim (dec_lt 0 pf.empty_disk_slots) [
      | no empty ↦ (
        pf,
        0,
        reserve-none pf approx (omega arith),
        record {
          valid = v;
          enough = omega arith;
          capacity = omega arith;
          wanted = omega arith;
          resumes = inside;
        },
      )
      | yes some_empty ↦ elim (dec_lt pf.num_stashed_slots (min max_write_batch_size approx)) [
        | no full ↦ (
          pf,
          batch_size pf approx,
          reserve-stashed pf approx some_empty small (omega arith),
          record {
            valid = v;
            enough = ground arith;
            capacity = ground arith;
            wanted = ground arith;
            resumes = inside;
          },
        )
        | yes low ↦
            let (pf', run, found) =
              set_and_add_slots_to_stack_lem (min max_write_batch_size approx) v inside low
                (omega arith) in
            (
              pf',
              batch_size pf' approx,
              reserve-search pf pf' approx some_empty small low run,
              record {
                valid = found.taken.1.valid;
                enough = ground arith;
                capacity = ground arith;
                wanted = ground arith;
                resumes = found.resumes;
              },
            )
      ]
    ]
