-- ===== src/Pfn/Word.antt =====
-- The word of a page frame record fits 64 bits, and no two contents share a word.
use memory_manager.Base.{◌^◌, ◌<◌, ◌≡◌, arith}
use memory_manager.Pfn.{Pfn, raw_pfn_data}

-- Every bit-field holds a value of its width.
pub record IsPacked (p : Pfn) : Type 0 where
  pub lock_bits : p.lock < 2 ^ 16
  pub disk_index_bits : p.disk_index < 2 ^ 40
  pub status_bits : p.status < 2 ^ 3
  pub reserved_bits : p.reserved < 2 ^ 5

-- Two page frame records whose bit-fields hold values of their widths have the same 64-bit word
-- only if their lock, disk index, status and reserved bits are the same.
pub raw_pfn_data_injective :
    (p q : Pfn)
    → IsPacked p
    → IsPacked q
    → raw_pfn_data p ≡ raw_pfn_data q
    → (p.lock ≡ q.lock)
      × (p.disk_index ≡ q.disk_index)
      × (p.status ≡ q.status)
      × (p.reserved ≡ q.reserved)
unfolding raw_pfn_data
raw_pfn_data_injective p q hp hq e = omega arith
