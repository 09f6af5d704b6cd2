-- ===== src/Pte/Format.antt =====
-- The formats of a page table entry, and the moves between them.
use memory_manager.Base.{ℕ, ◌+◌, ◌^◌, ◌≤◌, ◌<◌, ◌≡◌, ◌≢◌, true, some, Bool, arith, if◌then◌else◌}
use memory_manager.Pte.{
  Pte, is_pte_zeroed, is_pte_valid, is_pte_transition, is_pte_on_disk, set_pte_to_transition,
  set_pte_to_valid, map_pte_to_disk,
}
use memory_manager.Pte.Word.{IsPacked}

abbrev pub one : Bool → ℕ
one b = if b then 1 else 0

-- How many of the four formats an entry is in.
unfoldable pub formats : Pte → ℕ
formats p =
    one (is_pte_zeroed p)
    + one (is_pte_valid p)
    + one (is_pte_transition p)
    + one (is_pte_on_disk p)

-- No entry of any content is in two of the four formats (zeroed, valid, transition, disk) at once.
pub formats-le-one : (p : Pte) → formats p ≤ 1
unfolding formats is_pte_zeroed is_pte_valid is_pte_transition is_pte_on_disk
formats-le-one p = ground arith

-- What the fault handler, the trimmer and the writer rely on of every entry: it is in one format, a
-- valid entry has a frame and a clear status bit, and a disk entry has a slot other than 0.
pub record IsWellFormed (p : Pte) : Type 0 where
  pub packed : IsPacked p
  pub format : formats p ≡ 1
  pub framed : is_pte_valid p ≡ true → (p.index ≢ 0) × (p.status ≡ 0)
  pub slotted : is_pte_on_disk p ≡ true → p.index ≢ 0

module _ {p : Pte} (wf : IsWellFormed p) where
  -- Trimming a valid entry gives a well-formed transition entry that still names its frame.
  pub set_pte_to_transition_lem :
      is_pte_valid p ≡ true
      → IsWellFormed (set_pte_to_transition p)
        × (is_pte_transition (set_pte_to_transition p) ≡ true)
        × ((set_pte_to_transition p).index ≡ p.index)
        × ((set_pte_to_transition p).accessed ≡ p.accessed)
        × ((set_pte_to_transition p).lock ≡ p.lock)
  unfolding formats is_pte_zeroed is_pte_valid is_pte_transition is_pte_on_disk
      set_pte_to_transition
  set_pte_to_transition_lem h = ground (arith, wf.packed, wf.framed h)

  pub set_pte_to_valid_lem :
      (frame : ℕ)
      → frame ≢ 0
      → frame < 2 ^ 40
      → IsWellFormed (set_pte_to_valid p frame)
        × (is_pte_valid (set_pte_to_valid p frame) ≡ true)
        × ((set_pte_to_valid p frame).index ≡ frame)
        × ((set_pte_to_valid p frame).accessed ≡ p.accessed)
        × ((set_pte_to_valid p frame).lock ≡ p.lock)
  unfolding formats is_pte_zeroed is_pte_valid is_pte_transition is_pte_on_disk set_pte_to_valid
  set_pte_to_valid_lem frame ne lt = ground (arith, wf.packed)

abbrev pub on_disk_at : Pte → ℕ → Pte
on_disk_at p slot = record p { valid = 0; status = 1; index = slot }

module _ {p : Pte} (wf : IsWellFormed p) where
  -- Sending an entry to disk.
  pub map_pte_to_disk_lem :
      (max_disk_index slot : ℕ)
      → slot ≢ 0
      → slot ≤ max_disk_index
      → max_disk_index < 2 ^ 40
      → (map_pte_to_disk max_disk_index p slot ≡ some (on_disk_at p slot))
        × IsWellFormed (on_disk_at p slot)
        × (is_pte_on_disk (on_disk_at p slot) ≡ true)
  unfolding formats is_pte_zeroed is_pte_valid is_pte_transition is_pte_on_disk map_pte_to_disk
  map_pte_to_disk_lem max slot ne le lt = (ground arith, ground (arith, wf.packed), ground arith)
