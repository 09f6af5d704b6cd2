-- ===== src/Pfn.antt =====
-- data_structures/pfn.h and pfn.c: page frame records, in the build with DEBUG off. Memory is a
-- store of records by address. The record of frame f, `PFN_array + f`, has address f; the heads of
-- the page lists, which `initialize_page_list` allocates, have addresses above max_frame_number.
-- The fields lock, disk_index, status and reserved share one 64-bit word, and `create` and the
-- `set` functions write that word whole.
pub mod Word
pub mod Lock
use memory_manager.Base.{
  ℕ, ◌+◌, ◌*◌, ◌^◌, ◌%◌, Bool, ◌&&◌, Option, some, none, ◌==◌, leb, if◌then◌else◌, ◌>>=◌, ◌>>◌,
  assert, update,
}
use memory_manager.Config.{Vm}
use memory_manager.Pte.{Pte, pte_on_disk}
use memory_manager.Locks.{try_lock, unlock, unlocked, locked}

pub data Status : Type 0 where
  free active mid_trim modified mid_write standby : Status

-- PFN_FREE to PFN_STANDBY
abbrev pub status_code : Status → ℕ
status_code free = 0
status_code active = 1
status_code mid_trim = 2
status_code modified = 3
status_code mid_write = 4
status_code standby = 5

pub record Pfn : Type 0 where
  pub flink : ℕ
  pub blink : ℕ
  pub pte : Option ℕ  -- an index from PTE_base, or NULL
  pub lock : ℕ
  pub disk_index : ℕ
  pub status : ℕ
  pub reserved : ℕ

abbrev pub Heap : Type 0
Heap = ℕ → Pfn

abbrev pub no_disk_index : ℕ
no_disk_index = 0

-- The word of the union.
unfoldable pub raw_pfn_data : Pfn → ℕ
raw_pfn_data p = p.lock + 2 ^ 16 * p.disk_index + 2 ^ 56 * p.status + 2 ^ 59 * p.reserved

unfoldable pub has_status : Pfn → Status → Bool
has_status p s = p.status == status_code s

unfoldable pub create_zeroed_pfn : Pfn → Pfn
create_zeroed_pfn p = record p {
  lock = unlocked;
  status = status_code free;
  disk_index = no_disk_index;
  reserved = 0;
  pte = none;
}

unfoldable pub set_pfn_active : Pfn → ℕ → Pfn
set_pfn_active p pte = record p {
  status = status_code active;
  disk_index = no_disk_index;
  reserved = 0;
  pte = some pte;
}

unfoldable pub set_pfn_free : Pfn → Pfn
set_pfn_free p = record p {
  status = status_code free;
  disk_index = no_disk_index;
  reserved = 0;
  pte = none;
}

unfoldable pub set_pfn_standby : Pfn → ℕ → Pfn
set_pfn_standby p disk_index = record p {
  status = status_code standby;
  disk_index = disk_index % 2 ^ 40;
  reserved = 0;
}

unfoldable pub set_pfn_mid_trim : Pfn → Pfn
set_pfn_mid_trim p = record p { status = status_code mid_trim; reserved = 0 }

unfoldable pub set_pfn_mid_write : Pfn → Pfn
set_pfn_mid_write p = record p { status = status_code mid_write; reserved = 0 }

-- `SET_PFN_STATUS(pfn, PFN_MODIFIED)` of the trimmer, a write of the three bits alone
unfoldable pub set_pfn_status : Pfn → Status → Pfn
set_pfn_status p s = record p { status = status_code s }

unfoldable pub validate_pfn : Vm → ℕ → Option (Unit {0})
validate_pfn vm pfn = assert (leb pfn vm.max_frame_number)

unfoldable pub get_frame_from_pfn : Vm → ℕ → Option ℕ
unfolding validate_pfn
get_frame_from_pfn vm pfn = do validate_pfn vm pfn; some pfn

unfoldable pub get_pfn_from_frame : Vm → ℕ → Option ℕ
get_pfn_from_frame vm frame_number = do
  assert (leb vm.min_frame_number frame_number && leb frame_number vm.max_frame_number)
  some frame_number

-- The outer option is the assertion, the inner one the null pointer.
unfoldable pub get_pfn_from_pte : Vm → Pte → Option (Option ℕ)
unfolding get_pfn_from_frame
get_pfn_from_pte vm pte =
    if pte.status == pte_on_disk
    then some none
    else do pfn ← get_pfn_from_frame vm pte.index; some (some pfn)

-- `try_lock_pfn`, on the record at an address.
unfoldable pub try_lock_pfn : Heap → ℕ → Heap × Bool
unfolding try_lock
try_lock_pfn h p =
    let (s, done) = try_lock (h p).lock in (update h p (record (h p) { lock = s }), done)

-- `lock_pfn` for a thread that runs alone: it takes a free lock, and where the lock is held it
-- would wait for the other thread, which is `none`.
unfoldable pub lock_pfn : Heap → ℕ → Option Heap
unfolding try_lock_pfn
lock_pfn h p = let (h', done) = try_lock_pfn h p in if done then some h' else none

unfoldable pub unlock_pfn : Heap → ℕ → Option Heap
unfolding unlock
unlock_pfn h p = do s ← unlock (h p).lock; some (update h p (record (h p) { lock = s }))
