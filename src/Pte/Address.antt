-- ===== src/Pte/Address.antt =====
-- The two translations between virtual addresses and page table entries.
use memory_manager.Base.{ℕ, ◌+◌, ◌*◌, ◌-◌, ◌/◌, ◌≤◌, ◌<◌, ◌≡◌, some, arith}
use memory_manager.Config.{Vm, page_size}
use memory_manager.Pte.{get_pte_from_va, get_va_from_pte}

-- The sizes that `initialize_user_VA_space` and `initialize_page_table` set: a whole number of
-- pages, an entry for each.
pub record IsSized (vm : Vm) : Type 0 where
  pub whole : vm.va_size_in_bytes ≡ vm.num_ptes * page_size
  pub pointers : vm.va_size_in_pointers * 8 ≡ vm.va_size_in_bytes

module _ {vm : Vm} (sized : IsSized vm) where
  -- In a region of a whole number of pages with an entry for each, every address has an entry of
  -- the table, and the entry's address is the start of the page that holds the address.
  pub get_va-get_pte :
      (va : ℕ)
      → vm.application_va_base ≤ va
      → va < vm.application_va_base + vm.va_size_in_bytes
      → (pte : ℕ) × (start : ℕ) × (get_pte_from_va vm va ≡ some pte)
        × (pte < vm.num_ptes)
        × (get_va_from_pte vm pte ≡ some start)
        × (start ≤ va)
        × (va < start + page_size)
  unfolding get_pte_from_va get_va_from_pte
  get_va-get_pte va above below =
      let pte : ℕ = (va - vm.application_va_base) / page_size in
      let small : pte < vm.num_ptes = omega (arith, sized.whole) in
      (
        pte,
        vm.application_va_base + pte * page_size,
        ground arith,
        small,
        ground arith,
        omega arith,
        omega arith,
      )

  -- In a region of a whole number of pages with an entry for each, every entry of the table has an
  -- address, and that address and every other one of its page translate back to the entry.
  pub get_pte-get_va :
      (pte offset : ℕ)
      → pte < vm.num_ptes
      → offset < page_size
      → (va : ℕ) × (get_va_from_pte vm pte ≡ some va)
        × (get_pte_from_va vm (va + offset) ≡ some pte)
  unfolding get_pte_from_va get_va_from_pte
  get_pte-get_va pte offset below inside =
      (vm.application_va_base + pte * page_size, ground arith, ground (arith, sized.whole))
