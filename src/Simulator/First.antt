-- ===== src/Simulator/First.antt =====
-- The first access to a page, from the fault to the written bytes.
use memory_manager.Base.{
  ℕ, suc, ◌+◌, ◌-◌, ◌/◌, ◌%◌, ◌<◌, ◌≤◌, ◌≡◌, ◌∙◌, ap, true, false, some, none, arith, update,
}
use memory_manager.Config.{Vm, page_size}
use memory_manager.Pte.{is_pte_valid, is_pte_zeroed, get_pte_from_va, set_accessed_bit}
use memory_manager.Pte.Address.{IsSized}
use memory_manager.Pte.Accessed.{set_accessed_bit-never}
use memory_manager.System.{System, ThreadInfo, write_pte}
use memory_manager.FaultHandler.{page_fault_handler}
use memory_manager.FaultHandler.Access.{IsReady, entry_of, cached_page, page_fault_handler-zeroed}
use memory_manager.FaultHandler.Fixed.{page_fault_handler-vm}
use memory_manager.Simulator.{Machine, stamp, access, mapping_entry}

access-mapped :
    (n va pte : ℕ) (m : Machine) (s : System) (t : ThreadInfo)
    → get_pte_from_va s.vm va ≡ some pte
    → mapping_entry s va ≡ some pte
    → access (suc n) m va s t
      ≡ some (
        write_pte
            (stamp m pte va s)
            pte
            (set_accessed_bit m.accessed_address m.snapshot_address ((stamp m pte va s).ptes pte)),
        t,
        true,
      )
unfolding access stamp
access-mapped n va pte m s t e v = ground (arith, v, e)

access-faulted :
    (n va : ℕ) (m : Machine) (s s' : System) (t t' : ThreadInfo)
    → mapping_entry s va ≡ none
    → page_fault_handler n m.outside va s t ≡ some (s', t', true)
    → access (suc n) m va s t ≡ access n m va (m.outside.meanwhile s') t'
unfolding access
access-faulted n va m s s' t t' v f = ground (arith, v, f)

module _ (s : System) (va : ℕ) (above : s.vm.application_va_base ≤ va)
    (below : va < s.vm.application_va_base + s.vm.va_size_in_bytes) where
  mapping_entry-invalid : is_pte_valid (s.ptes (entry_of s va)) ≡ false → mapping_entry s va ≡ none
  unfolding mapping_entry
  mapping_entry-invalid v = ground (arith, above, below, v)

  mapping_entry-valid :
      is_pte_valid (s.ptes (entry_of s va)) ≡ true → mapping_entry s va ≡ some (entry_of s va)
  unfolding mapping_entry
  mapping_entry-valid v = ground (arith, above, below, v)

entry-lem :
    (vm : Vm) (va : ℕ)
    → IsSized vm
    → vm.application_va_base ≤ va
    → va < vm.application_va_base + vm.va_size_in_bytes
    → get_pte_from_va vm va ≡ some ((va - vm.application_va_base) / page_size)
unfolding get_pte_from_va
entry-lem vm va sized above below = ground arith

-- The first access to a page of the region, by a thread that is ready as `IsReady` says and is not
-- disturbed: one fault, and the access is retried and ends, with the page's frame from the cache
-- holding zeros but for the eight bytes that were written, and with the page's entry valid.
pub access-first :
    (n va : ℕ) (m : Machine) (s : System) (t : ThreadInfo)
    → IsSized s.vm
    → s.vm.application_va_base ≤ va
    → va < s.vm.application_va_base + s.vm.va_size_in_bytes
    → IsReady m.outside s t (entry_of s va)
    → is_pte_zeroed (s.ptes (entry_of s va)) ≡ true
    → m.snapshot_address % 8 ≡ 0
    → ((g : System) → m.outside.meanwhile g ≡ g)
    → (s' : System) × (t' : ThreadInfo) × (access (suc (suc (suc n))) m va s t
        ≡ some (s', t', true))
      × (s'.frames (cached_page t) ≡ m.store 0 ((va - s.vm.application_va_base) % page_size) va)
      × (is_pte_valid (s'.ptes (entry_of s va)) ≡ true)
      × ((s'.ptes (entry_of s va)).index ≡ cached_page t)
unfolding stamp update is_pte_valid is_pte_zeroed
access-first n va m s t sized above below ready zeroed aligned alone =
    let pte : ℕ = entry_of s va in
    let entry = entry-lem s.vm va sized above below in
    let (g, t', run, resolved, rest) =
      page_fault_handler-zeroed n m.outside va s t sized above below ready zeroed in
    let vm : g.vm ≡ s.vm =
      page_fault_handler-vm m.outside (λ h. ap (λ k. k.vm) (alone h)) (suc (suc n)) va s t run in
    let first =
      access-faulted (suc (suc n)) va m s g t t'
        (mapping_entry-invalid s va above below (ground (arith, zeroed))) run in
    let present : mapping_entry g va ≡ some pte =
      rw vm at (mapping_entry-valid g va (rw vm above) (rw vm below) (rw vm resolved.entry)) in
    let mapped = access-mapped (suc n) va pte m g t' (rw vm entry) present in
    let same = set_accessed_bit-never m.accessed_address m.snapshot_address (g.ptes pte) aligned in
    (
      write_pte (stamp m pte va g) pte (g.ptes pte),
      t',
      first ∙ rw (alone g) (rw same at mapped),
      ground (arith, resolved.frame_number, resolved.filled, vm),
      ground (arith, resolved.entry),
      ground (arith, resolved.frame_number),
    )
