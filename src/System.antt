-- ===== src/System.antt =====
-- The global state that the threads of threads/ share: memory with the page frame records, the page
-- table, the page lists, the page file, the counters of utils/config.h and the events. A page's
-- 4096 bytes are one number. Virtual addresses are mapped by Windows, so the mapping itself is no
-- part of the state: a copy through a kernel address is a copy of the frame that the program has
-- just mapped there.
use memory_manager.Base.{ℕ, ◌+◌, ◌%◌, ◌^◌, Bool, Option, some, none, if◌then◌else◌, ◌>>=◌, update}
use memory_manager.Config.{Vm}
use memory_manager.Pte.{Pte, PageTable}
use memory_manager.Pfn.{Pfn, Heap, lock_pfn, unlock_pfn}
use memory_manager.PageList.{PageList}
use memory_manager.Disk.{PageFile}
use memory_manager.Locks.{try_lock, unlock}

abbrev pub Page : Type 0
Page = ℕ

-- The events that the modelled code sets or resets.
pub record Events : Type 0 where
  pub initiate_trimming : Bool
  pub initiate_writing : Bool
  pub standby_pages_ready : Bool

-- `stats`, less the floating point numbers and the times.
pub record Stats : Type 0 where
  pub n_available : ℕ
  pub n_hard : ℕ
  pub n_soft : ℕ
  pub hard_faults_missed : ℕ

-- `free_lists`; the bits of `free_list_locks` are a function of the index.
pub record FreeLists : Type 0 where
  pub number_of_lists : ℕ
  pub page_count : ℕ
  pub list_array : ℕ → PageList
  pub free_list_locks : ℕ → Bool

pub record System : Type 0 where
  pub vm : Vm
  pub heap : Heap
  pub ptes : PageTable
  pub modified_list : PageList
  pub standby_list : PageList
  pub free_lists : FreeLists
  pub pf : PageFile
  pub page_file : ℕ → Page  -- by slot
  pub frames : ℕ → Page  -- by frame number
  pub stats : Stats
  pub events : Events

-- `USER_THREAD_INFO`, less its random seed and the address of its kernel space.
pub record ThreadInfo : Type 0 where
  pub thread_id : ℕ
  pub kernel_va_index : ℕ
  pub free_page_cache : ℕ → ℕ
  pub free_page_count : ℕ

abbrev pub write_pfn : System → ℕ → Pfn → System
write_pfn s p v = record s { heap = update s.heap p v }

abbrev pub write_pte : System → ℕ → Pte → System
write_pte s i v = record s { ptes = update s.ptes i v }

-- `change_volatile_data(&stats.n_available, delta)` of utils/utils.c, a delta given as 64 bits.
unfoldable pub change_available_count : System → ℕ → System
change_available_count s delta = record s {
  stats = record (s.stats) { n_available = (s.stats.n_available + delta) % 2 ^ 64 };
}

-- `lock_pfn` and `unlock_pfn` on the shared memory.
unfoldable pub lock_page : System → ℕ → Option System
lock_page s p = lock_pfn s.heap p >>= λ h. some (record s { heap = h })

unfoldable pub unlock_page : System → ℕ → Option System
unlock_page s p = unlock_pfn s.heap p >>= λ h. some (record s { heap = h })

-- `try_lock_pte`, `lock_pte` of a thread that does not find the lock held, and `unlock_pte`.
unfoldable pub try_lock_pte : System → ℕ → System × Bool
unfolding try_lock
try_lock_pte s i =
    let (l, got) = try_lock (s.ptes i).lock in (write_pte s i (record (s.ptes i) { lock = l }), got)

unfoldable pub lock_pte : System → ℕ → Option System
unfolding try_lock_pte
lock_pte s i = let (s', got) = try_lock_pte s i in if got then some s' else none

unfoldable pub unlock_pte : System → ℕ → Option System
unfolding unlock
unlock_pte s i =
    unlock (s.ptes i).lock >>= λ l. some (write_pte s i (record (s.ptes i) { lock = l }))
