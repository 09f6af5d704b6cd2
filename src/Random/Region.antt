-- ===== src/Random/Region.antt =====
-- The generated addresses are addresses of the region.
use memory_manager.Base.{ℕ, ◌+◌, ◌-◌, ◌/◌, ◌%◌, ◌<◌, ◌≤◌, ◌≡◌, some, arith}
use memory_manager.Config.{Vm, page_size, bytes_per_va}
use memory_manager.Pte.{get_pte_from_va}
use memory_manager.Pte.Address.{IsSized}
use memory_manager.Random.{xorshift64, get_arbitrary_va, get_next_va}

-- The address of an eight-byte cell of the region that lies in one page.
abbrev pub IsCell : Vm → ℕ → Type 0
IsCell vm va =
    (vm.application_va_base ≤ va)
    × (va + bytes_per_va ≤ vm.application_va_base + vm.va_size_in_bytes)
    × (va % bytes_per_va ≡ 0)
    × (va % page_size + bytes_per_va ≤ page_size)

mod_lt : (a n : ℕ) → 0 < n → a % n < n
mod_lt a n pos = grind arith

module _ {vm : Vm} (sized : IsSized vm) (some_pages : 0 < vm.num_ptes)
    (aligned : vm.application_va_base % page_size ≡ 0) where
  pub get_arbitrary_va-IsCell : (seed : ℕ) → IsCell vm (get_arbitrary_va vm seed).1
  unfolding get_arbitrary_va
  get_arbitrary_va-IsCell seed =
      let lt =
        mod_lt (xorshift64 seed).1 vm.va_size_in_pointers
          (omega (arith, sized.whole, sized.pointers)) in
      omega (arith, sized.whole, sized.pointers, lt)

  next-IsCell :
      (previous_va seed : ℕ) → IsCell vm previous_va → IsCell vm (get_next_va vm previous_va seed).1
  unfolding get_next_va
  next-IsCell previous_va seed cell =
      ground (arith, sized.whole, sized.pointers, get_arbitrary_va-IsCell (xorshift64 seed).0)

  cell_entry :
      (va : ℕ) → IsCell vm va → (pte : ℕ) × (get_pte_from_va vm va ≡ some pte) × (pte < vm.num_ptes)
  unfolding get_pte_from_va
  cell_entry va cell =
      ((va - vm.application_va_base) / page_size, ground arith, omega (arith, sized.whole))

  -- From a cell of a region whose base is a multiple of the page size, the next address is again
  -- a cell of the region, whatever the seed: an access to it does not straddle two pages, and it
  -- has an entry in the page table.
  pub get_next_va-IsCell :
      (previous_va seed : ℕ)
      → IsCell vm previous_va
      → IsCell vm (get_next_va vm previous_va seed).1
        × (pte : ℕ) × (get_pte_from_va vm (get_next_va vm previous_va seed).1 ≡ some pte)
        × (pte < vm.num_ptes)
  get_next_va-IsCell previous_va seed cell =
      let next = next-IsCell previous_va seed cell in
      let (pte, e, lt) = cell_entry (get_next_va vm previous_va seed).1 next in (next, pte, e, lt)
