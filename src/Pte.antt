-- ===== src/Pte.antt =====
-- data_structures/pte.h and pte.c: page table entries. The three bit-field structs of the union
-- name the same bits, so one record serves all: `index` is the 40 bits called frame_number in the
-- memory and transition formats and disk_index in the disk format. A bit-field keeps a value
-- modulo its width. The page table is a store of entries by their index from PTE_base; each entry
-- is copied, changed and written back by one 64-bit write that leaves its lock alone.
pub mod Word
pub mod Format
pub mod Address
pub mod Accessed
use memory_manager.Base.{
  ℕ, ◌+◌, ◌-◌, ◌*◌, ◌/◌, ◌%◌, ◌^◌, ◌≤◌, ◌<◌, Bool, ◌&&◌, not, Option, some, none, ◌==◌, leb, ltb,
  if◌then◌else◌, ◌>>=◌, ◌>>◌, assert, update,
}
use memory_manager.Config.{Vm, page_size}

pub record Pte : Type 0 where
  pub valid : ℕ
  pub status : ℕ
  pub readwrite : ℕ
  pub dirty : ℕ
  pub accessed : ℕ
  pub index : ℕ
  pub reserved : ℕ
  pub lock : ℕ

abbrev pub PageTable : Type 0
PageTable = ℕ → Pte

abbrev pub pte_invalid : ℕ
pte_invalid = 0

abbrev pub pte_valid : ℕ
pte_valid = 1

abbrev pub pte_in_transition : ℕ
pte_in_transition = 0

abbrev pub pte_on_disk : ℕ
pte_on_disk = 1

abbrev pub no_frame_assigned : ℕ
no_frame_assigned = 0

-- `zero_malloc` and `initialize_byte_lock`
abbrev pub zero_pte : Pte
zero_pte = record {
  valid = 0;
  status = 0;
  readwrite = 0;
  dirty = 0;
  accessed = 0;
  index = 0;
  reserved = 0;
  lock = 0;
}

-- The union's view of the entry as one 64-bit word, lowest bit first.
unfoldable pub entire_pte : Pte → ℕ
entire_pte p =
    p.valid
    + 2 * p.status
    + 4 * p.readwrite
    + 8 * p.dirty
    + 16 * p.accessed
    + 32 * p.index
    + 2 ^ 45 * p.reserved

-- The entry that a word written over it leaves.
unfoldable pub write_word : Pte → ℕ → Pte
write_word p w = record {
  valid = w % 2;
  status = w / 2 % 2;
  readwrite = w / 4 % 2;
  dirty = w / 8 % 2;
  accessed = w / 16 % 2;
  index = w / 32 % 2 ^ 40;
  reserved = w / 2 ^ 45 % 2 ^ 19;
  lock = p.lock;
}

unfoldable pub is_pte_zeroed : Pte → Bool
unfolding entire_pte
is_pte_zeroed p = entire_pte p == 0

unfoldable pub is_pte_valid : Pte → Bool
is_pte_valid p = p.valid == pte_valid

unfoldable pub is_pte_transition : Pte → Bool
is_pte_transition p =
    (p.valid == pte_invalid)
    && (p.status == pte_in_transition)
    && not (p.index == no_frame_assigned)

unfoldable pub is_pte_on_disk : Pte → Bool
is_pte_on_disk p = (p.valid == pte_invalid) && (p.status == pte_on_disk)

unfoldable pub is_pte_accessed : Pte → Bool
is_pte_accessed p = p.accessed == 1

unfoldable pub set_pte_to_transition : Pte → Pte
set_pte_to_transition p = record p { valid = pte_invalid; status = pte_in_transition }

unfoldable pub set_pte_to_valid : Pte → ℕ → Pte
set_pte_to_valid p frame_number = record p {
  valid = pte_valid;
  status = 0;
  index = frame_number % 2 ^ 40;
}

-- `validate_disk_slot` of data_structures/disk.c
unfoldable pub validate_disk_slot : (max_disk_index disk_slot : ℕ) → Option (Unit {0})
validate_disk_slot max_disk_index disk_slot = assert (leb disk_slot max_disk_index)

-- The frame number is cleared first, and the disk index then takes its bits.
unfoldable pub map_pte_to_disk : (max_disk_index : ℕ) → Pte → ℕ → Option Pte
unfolding validate_disk_slot
map_pte_to_disk max_disk_index p disk_index = do
  validate_disk_slot max_disk_index disk_index
  let cleared = record p { index = no_frame_assigned }
  some (record cleared { valid = pte_invalid; status = pte_on_disk; index = disk_index % 2 ^ 40 })

-- The sizes are those of `PULONG_PTR` arithmetic: the upper bound of the assertion scales the
-- size in bytes by the eight bytes of a pointer.
unfoldable pub get_pte_from_va : Vm → ℕ → Option ℕ
get_pte_from_va vm va = do
  assert
      (leb vm.application_va_base va && leb va (vm.application_va_base + 8 * vm.va_size_in_bytes))
  some ((va - vm.application_va_base) / page_size)

unfoldable pub get_va_from_pte : Vm → ℕ → Option ℕ
get_va_from_pte vm pte = do
  assert (leb pte vm.num_ptes)
  some (vm.application_va_base + pte * page_size)

-- `initialize_page_table`: the number of entries, and every entry zero with its lock free.
unfoldable pub initialize_page_table : Vm → Vm × PageTable
initialize_page_table vm = (record vm { num_ptes = vm.va_size_in_bytes / page_size }, λ _. zero_pte)

-- `InterlockedCompareExchange64` on an entry: the new entry.
unfoldable pub compare_exchange_pte : Pte → (exchange comparand : ℕ) → Pte
unfolding entire_pte write_word
compare_exchange_pte p exchange comparand =
    if entire_pte p == comparand then write_word p exchange else p

-- `set_accessed_bit`, run with no other thread between its read and its exchange. The source
-- passes the addresses of its two local copies, `&accessed` and `&snapshot`, cast to LONG64, as
-- the exchange and comparand values; where the compiler puts the two locals is a parameter.
unfoldable pub set_accessed_bit : (accessed_address snapshot_address : ℕ) → Pte → Pte
unfolding is_pte_valid is_pte_accessed compare_exchange_pte
set_accessed_bit accessed_address snapshot_address p =
    if not (is_pte_valid p)
    then p
    else if is_pte_accessed p
    then p
    else compare_exchange_pte p accessed_address snapshot_address

-- `_interlockedbittestandreset64` on bit 4, and the assertion on the bit that it returns.
unfoldable pub clear_accessed_bit : Pte → Option Pte
clear_accessed_bit p = do assert (p.accessed == 1); some (record p { accessed = 0 })
