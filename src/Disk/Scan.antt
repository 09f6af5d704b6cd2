-- ===== src/Disk/Scan.antt =====
-- `scan_row`: the loop that takes the clear bits of a snapshot of a row.
use memory_manager.Base.{
  ℕ, suc, ◌+◌, ◌≤◌, ◌<◌, ◌≡◌, refl, true, false, [], ◌∷◌, arith, ◌==◌, get_or, length,
  if◌then◌else◌, some, dec_lt, ◌∙◌,
}
use memory_manager.Disk.{PageFile, Row, clear_bits, bit_at, push_slot, scan_row}
use memory_manager.Disk.Slots.{
  IsValid, IsTaken-has, stashed, stack_size, set_result, set_disk_slot_lem, push_slot-IsValid,
}

-- `pf'` comes from `pf` by taking `n` slots onto the stack: no bit is cleared, the count of empty
-- slots falls by `n`, and the page file's size is the same.
pub record Taken (pf pf' : PageFile) (n : ℕ) : Type 0 where
  pub valid : IsValid pf'
  pub grown : pf'.num_stashed_slots ≡ pf.num_stashed_slots + n
  pub counted : pf'.empty_disk_slots + n ≡ pf.empty_disk_slots
  pub kept : (s : ℕ) → bit_at pf s ≡ true → bit_at pf' s ≡ true
  pub size : pf'.page_file_bitmap_rows ≡ pf.page_file_bitmap_rows
  pub top : pf'.max_disk_index ≡ pf.max_disk_index

-- One step of the scan: a clear bit is set and its slot pushed.
take_one :
    {pf : PageFile}
    → IsValid pf
    → (slot : ℕ) → slot ≤ pf.max_disk_index
    → bit_at pf slot ≡ false
    → pf.num_stashed_slots < stack_size
    → Taken pf (push_slot (set_result pf slot) slot) 1
      × ((s : ℕ)
          → bit_at (push_slot (set_result pf slot) slot) s
            ≡ (if s == slot then true else bit_at pf s))
unfolding push_slot
take_one {pf} v slot le clear room =
    let (done, valid, bits, count) = set_disk_slot_lem v slot le clear in
    let (valid', s, n) =
      push_slot-IsValid valid slot (ground (arith, bits slot), le)
        (ground (arith, IsTaken-has pf slot (stashed pf) v.taken, v.zero_taken)) room in
    (
      record {
        valid = valid';
        grown = n;
        counted = count;
        kept = λ s t. ground (arith, bits s);
        size = refl;
        top = refl;
      },
      bits,
    )

pub Taken-refl : {pf : PageFile} → IsValid pf → Taken pf pf 0
Taken-refl v = record {
  valid = v;
  grown = omega arith;
  counted = omega arith;
  kept = λ s t. t;
  size = refl;
  top = refl;
}

pub Taken-trans : {a b c : PageFile} {n m : ℕ} → Taken a b n → Taken b c m → Taken a c (n + m)
Taken-trans s t = record {
  valid = t.valid;
  grown = omega (arith, s.grown, t.grown);
  counted = omega (arith, s.counted, t.counted);
  kept = λ q e. t.kept q (s.kept q e);
  size = t.size ∙ s.size;
  top = t.top ∙ s.top;
}

-- The rest of the snapshot says what the bits from `slot` on are.
abbrev pub Shows : Row → ℕ → PageFile → Type 0
Shows bs slot pf = (s i : ℕ) → s ≡ slot + i → i < length bs → bit_at pf s ≡ get_or bs i true

abbrev pub AllSet : ℕ → ℕ → PageFile → Type 0
AllSet slot count pf = (s : ℕ) → slot ≤ s → s < slot + count → bit_at pf s ≡ true

pub scan_row-Taken :
    (bs : Row) (slot : ℕ) {pf : PageFile}
    → IsValid pf
    → Shows bs slot pf
    → slot + length bs ≤ pf.max_disk_index + 1
    → pf.num_stashed_slots + length bs ≤ stack_size
    → (pf' : PageFile) × (scan_row bs slot pf ≡ some pf')
      × Taken pf pf' (clear_bits bs)
      × AllSet slot (length bs) pf'
unfolding scan_row
scan_row-Taken [] slot {pf} v shows le room =
    (pf, refl, Taken-refl v, λ s a b. absurd (omega arith))
scan_row-Taken (true ∷ bs) slot {pf} v shows le room =
    let (pf', e, t, all) =
      scan_row-Taken bs (slot + 1) v (λ s i q lt. shows s (suc i) (omega arith) (omega arith))
        (omega arith) (omega arith) in
    (
      pf',
      e,
      Taken-trans (Taken-refl v) t,
      λ s a b. elim (dec_lt slot s) [
        | yes q ↦ all s (omega arith) (omega arith)
        | no q ↦ t.kept s (shows s 0 (omega arith) (omega arith))
      ],
    )
scan_row-Taken (false ∷ bs) slot {pf} v shows le room =
    let clear = shows slot 0 (omega arith) (omega arith) in
    let (one, bits) = take_one v slot (omega arith) clear (omega arith) in
    let (pf', e, t, all) =
      scan_row-Taken bs (slot + 1) {pf = push_slot (set_result pf slot) slot} one.valid
        (λ s i q lt. ground (arith, bits s, shows s (suc i) (omega arith) (omega arith)))
        (omega (arith, one.top)) (omega (arith, one.grown)) in
    (
      pf',
      rw (set_disk_slot_lem v slot (omega arith) clear).0 e,
      Taken-trans one t,
      λ s a b. elim (dec_lt slot s) [
        | yes q ↦ all s (omega arith) (omega arith)
        | no q ↦ t.kept s (ground (arith, bits s))
      ],
    )
