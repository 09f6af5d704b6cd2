-- ===== src/Pte/Accessed.antt =====
-- The accessed bit.
use memory_manager.Base.{ℕ, ◌%◌, ◌≡◌, arith}
use memory_manager.Pte.{Pte, set_accessed_bit}

-- Where its local snapshot has an address that is a multiple of eight, `set_accessed_bit` changes
-- no entry: it compares a valid entry, which is odd, with that address, which is even.
pub set_accessed_bit-never :
    (accessed_address snapshot_address : ℕ) (p : Pte)
    → snapshot_address % 8 ≡ 0
    → set_accessed_bit accessed_address snapshot_address p ≡ p
unfolding set_accessed_bit
set_accessed_bit-never a s p aligned = ground arith
