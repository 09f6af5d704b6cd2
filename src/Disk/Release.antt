-- ===== src/Disk/Release.antt =====
-- `pop_and_clear_all_slots`: the stack's slots go back to the page file.
use memory_manager.Base.{
  ℕ, zero, suc, ◌+◌, ◌<◌, ◌≡◌, refl, ◌∙◌, false, arith, has, if◌then◌else◌, some,
}
use memory_manager.Disk.{
  PageFile, bit_at, pop_and_clear, pop_and_clear_all_slots, pop_slot, clear_disk_slot,
}
use memory_manager.Disk.Slots.{
  IsValid, stashed, clear_disk_slot_lem, pop_slot_lem, clear_result, pop_result, top_slot,
}

pub record Released (pf pf' : PageFile) : Type 0 where
  pub valid : IsValid pf'
  pub none_left : pf'.num_stashed_slots ≡ 0
  pub counted : pf'.empty_disk_slots ≡ pf.empty_disk_slots + pf.num_stashed_slots
  pub bits : (s : ℕ) → bit_at pf' s ≡ (if has s (stashed pf) then false else bit_at pf s)

pop_and_clear-step :
    (fuel : ℕ) (pf : PageFile) {slot : ℕ} {pf₁ pf₂ : PageFile}
    → 0 < pf.num_stashed_slots
    → pop_slot pf ≡ some (slot, pf₁)
    → clear_disk_slot pf₁ slot ≡ some pf₂
    → pop_and_clear (suc fuel) pf ≡ pop_and_clear fuel pf₂
unfolding pop_and_clear
pop_and_clear-step fuel pf pos popped cleared = ground arith

pop_and_clear-Released :
    (fuel : ℕ) {pf : PageFile}
    → IsValid pf
    → pf.num_stashed_slots ≡ fuel
    → (pf' : PageFile) × (pop_and_clear fuel pf ≡ some pf') × Released pf pf'
unfolding pop_and_clear
pop_and_clear-Released zero {pf} v e =
    (pf, refl, record { valid = v; none_left = e; counted = omega arith; bits = λ s. rw e })
pop_and_clear-Released (suc fuel) {pf} v e =
    let (popped, v₁, stack, taken, out) = pop_slot_lem v (omega arith) in
    let (cleared, v₂, bits, count) = clear_disk_slot_lem v₁ (top_slot pf) taken.1 taken.0 out in
    let (pf', run, r) =
      pop_and_clear-Released fuel {pf = clear_result (pop_result pf) (top_slot pf)} v₂
        (omega arith) in
    (
      pf',
      pop_and_clear-step fuel pf (omega arith) popped cleared ∙ run,
      record {
        valid = r.valid;
        none_left = r.none_left;
        counted = omega (arith, r.counted);
        bits = λ s. rw stack (ground (arith, r.bits s, bits s));
      },
    )

-- On a valid page file the loop empties the stack without a failed assertion: the slots that were
-- on it are free, every other slot is as it was, and the counter of empty slots has grown by their
-- number.
pub pop_and_clear_all_slots_lem :
    {pf : PageFile}
    → IsValid pf
    → (pf' : PageFile) × (pop_and_clear_all_slots pf ≡ some pf') × Released pf pf'
unfolding pop_and_clear_all_slots
pop_and_clear_all_slots_lem {pf} v = pop_and_clear-Released pf.num_stashed_slots v refl
