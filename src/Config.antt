-- ===== src/Config.antt =====
-- utils/config.h, utils/utils.h and threads/threads.h: the constants of the build and the part of
-- the global VM record that the modelled code reads. Addresses are byte addresses.
use memory_manager.Base.{ℕ}

abbrev pub page_size : ℕ
page_size = 4096

abbrev pub bytes_per_va : ℕ
bytes_per_va = 8

abbrev pub bits_per_bitmap_row : ℕ
bits_per_bitmap_row = 64

abbrev pub max_write_batch_size : ℕ
max_write_batch_size = 4096

abbrev pub max_trim_batch_size : ℕ
max_trim_batch_size = 2048

-- `MAX_TRIM_BATCH_SIZE * 4`
abbrev pub max_trim_attempts : ℕ
max_trim_attempts = 8192

abbrev pub max_hard_access_attempts : ℕ
max_hard_access_attempts = 30

abbrev pub free_page_cache_size : ℕ
free_page_cache_size = 64

abbrev pub max_wait_time_before_retry : ℕ
max_wait_time_before_retry = 64

-- `vm`, less its handles and the command line's values.
pub record Vm : Type 0 where
  pub va_size_in_bytes : ℕ
  pub va_size_in_pointers : ℕ
  pub application_va_base : ℕ
  pub num_ptes : ℕ
  pub max_frame_number : ℕ
  pub min_frame_number : ℕ
