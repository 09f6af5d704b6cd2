-- ===== src/Simulator.antt =====
-- threads/simulator.c: the accesses of a simulated user thread, in the build with AGING and
-- USER_SIMULATION on and RUN_FOREVER off. The processor's part is a parameter: an access to an
-- address succeeds when the address is mapped, which is taken to be when it is in the region and its
-- entry is valid, and it
-- writes eight bytes of the mapped frame; otherwise the handler runs, and the access is retried.
pub mod Accesses
pub mod First
use memory_manager.Base.{
  ℕ, zero, suc, ◌-◌, ◌/◌, ◌%◌, Bool, true, false, Option, none, some, ◌>>=◌, if◌then◌else◌, update,
  ◌+◌, ◌||◌, ltb, leb,
}
use memory_manager.Config.{Vm, page_size}
use memory_manager.Pte.{is_pte_valid, get_pte_from_va, set_accessed_bit}
use memory_manager.System.{System, Page, ThreadInfo, write_pte}
use memory_manager.FaultHandler.{Outside, page_fault_handler}
use memory_manager.Random.{get_arbitrary_va, get_next_va}

-- What a page holds once eight bytes at an offset are overwritten, where the compiler puts the two
-- local variables of `set_accessed_bit`, and what happens outside the thread.
pub record Machine : Type 0 where
  pub store : Page → (offset value : ℕ) → Page
  pub accessed_address : ℕ
  pub snapshot_address : ℕ
  pub outside : Outside

-- `*arbitrary_va = (ULONG_PTR) arbitrary_va` on a mapped address.
unfoldable pub stamp : Machine → (pte va : ℕ) → System → System
stamp m pte va s = record s {
  frames =
      update s.frames (s.ptes pte).index
        (m.store (s.frames (s.ptes pte).index) ((va - s.vm.application_va_base) % page_size) va);
}

-- The entry that maps an address, if one does: the processor's view of the page table.
unfoldable pub mapping_entry : System → (va : ℕ) → Option ℕ
mapping_entry s va =
    if ltb va s.vm.application_va_base || leb (s.vm.application_va_base + s.vm.va_size_in_bytes) va
    then none
    else let pte = (va - s.vm.application_va_base) / page_size in
      if is_pte_valid (s.ptes pte) then some pte else none

-- The `do` loop around one access. FALSE is the call of `fatal_error`.
unfoldable pub access :
    (fuel : ℕ) → Machine → (va : ℕ) → System → ThreadInfo → Option (System × ThreadInfo × Bool)
access zero m va s t = none
access (suc fuel) m va s t = elim (mapping_entry s va) [
  | some mapped ↦
      let s₁ = stamp m mapped va s in
      get_pte_from_va s₁.vm va >>= λ pte. some (
        write_pte s₁ pte (set_accessed_bit m.accessed_address m.snapshot_address (s₁.ptes pte)),
        t,
        true,
      )
  | none ↦ page_fault_handler fuel m.outside va s t >>= λ r. elim r.2 [
    | true ↦ access fuel m va (m.outside.meanwhile r.0) r.1
    | false ↦ some (r.0, r.1, false)
  ]
]

-- The loop over the accesses, with those left and the last address. The source counts with an int,
-- which is not modelled.
unfoldable pub run_accesses :
    (left fuel : ℕ)
    → Machine
    → (va seed : ℕ) → System
    → ThreadInfo
    → Option (System × ThreadInfo × Bool)
run_accesses zero fuel m va seed s t = some (s, t, true)
run_accesses (suc left) fuel m va seed s t =
    let (seed', next) = get_next_va s.vm va seed in
    access fuel m next s t >>= λ r. elim r.2 [
      | true ↦ run_accesses left fuel m next seed' (m.outside.meanwhile r.0) r.1
      | false ↦ some r
    ]

unfoldable pub run_user_app_simulation :
    (iterations fuel : ℕ)
    → Machine
    → (seed : ℕ) → System
    → ThreadInfo
    → Option (System × ThreadInfo × Bool)
run_user_app_simulation iterations fuel m seed s t =
    let (seed', va) = get_arbitrary_va s.vm seed in run_accesses iterations fuel m va seed' s t
