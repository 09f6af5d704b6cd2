-- ===== src/Tests/Words.antt =====
-- Runs on page table entries, addresses, page records and delays.
use memory_manager.Base.{ℕ, ◌+◌, ◌≤◌, ◌<◌, ◌≡◌, refl, some, arith}
use memory_manager.Config.{page_size}
use memory_manager.Pte.{Pte, zero_pte, set_accessed_bit, get_pte_from_va, get_va_from_pte}
use memory_manager.Pte.Format.{formats, formats-le-one}
use memory_manager.Pte.Address.{IsSized, get_va-get_pte, get_pte-get_va}
use memory_manager.Pte.Accessed.{set_accessed_bit-never}
use memory_manager.Pfn.{Pfn}
use memory_manager.Pfn.Word.{raw_pfn_data_injective}
use memory_manager.Pfn.Word as PfnWord
use memory_manager.Tests.{example_vm, linked}

formats-le-one_example : formats (record zero_pte { status = 1; index = 5 }) ≤ 1
formats-le-one_example = formats-le-one (record zero_pte { status = 1; index = 5 })

example_vm-IsSized : IsSized example_vm
example_vm-IsSized = record { whole = refl; pointers = refl }

get_va-get_pte_example :
    (pte : ℕ) × (start : ℕ) × (get_pte_from_va example_vm 70000 ≡ some pte)
    × (pte < 8)
    × (get_va_from_pte example_vm pte ≡ some start)
    × (start ≤ 70000)
    × (70000 < start + page_size)
get_va-get_pte_example = get_va-get_pte example_vm-IsSized 70000 (omega arith) (omega arith)

get_pte-get_va_example :
    (va : ℕ) × (get_va_from_pte example_vm 3 ≡ some va)
    × (get_pte_from_va example_vm (va + 100) ≡ some 3)
get_pte-get_va_example = get_pte-get_va example_vm-IsSized 3 100 (omega arith) (omega arith)

abbrev mapped_pte : Pte
mapped_pte = record zero_pte { valid = 1; index = 7 }

set_accessed_bit-never_example : set_accessed_bit 4096 4104 mapped_pte ≡ mapped_pte
set_accessed_bit-never_example = set_accessed_bit-never 4096 4104 mapped_pte (omega arith)

abbrev standby_pfn : Pfn
standby_pfn = record (linked 0 0) { status = 5; disk_index = 9 }

standby_pfn-IsPacked : PfnWord.IsPacked standby_pfn
standby_pfn-IsPacked = ground arith
