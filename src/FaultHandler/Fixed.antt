-- ===== src/FaultHandler/Fixed.antt =====
-- The handler leaves the description of the region as it is.
use memory_manager.Base.{ℕ, zero, suc, ◌≡◌, Bool, some, arith, Option}
use memory_manager.System.{
  System, ThreadInfo, lock_page, lock_pte, try_lock_pte, unlock_page, unlock_pte,
  change_available_count,
}
use memory_manager.FreeLists.{
  acquire_free_page, try_get_free_pages, get_free_pages_loop, try_refill_cache_from_free_list,
  add_page_to_free_list, add_page_to_cache_or_free_list,
}
use memory_manager.FaultHandler.{
  Outside, resolve_soft_fault, resolve_hard_fault, finish_soft_fault, finish_hard_fault, handle,
  fill_frame, clear_slot, remove_modified, remove_standby, unlist_page, repurpose_pages,
  move_batch_from_standby_to_cache, find_page, return_page, use_page, give_up, page_fault_handler,
  signal_trimming_if_low, signal_writing_if_low,
}

unlock_page-vm : (s : System) (p : ℕ) {s' : System} → unlock_page s p ≡ some s' → s'.vm ≡ s.vm
unfolding unlock_page
unlock_page-vm s p e = ground arith

lock_page-vm : (s : System) (p : ℕ) {s' : System} → lock_page s p ≡ some s' → s'.vm ≡ s.vm
unfolding lock_page
lock_page-vm s p e = ground arith

unlock_pte-vm : (s : System) (i : ℕ) {s' : System} → unlock_pte s i ≡ some s' → s'.vm ≡ s.vm
unfolding unlock_pte
unlock_pte-vm s i e = ground arith

lock_pte-vm : (s : System) (i : ℕ) {s' : System} → lock_pte s i ≡ some s' → s'.vm ≡ s.vm
unfolding lock_pte try_lock_pte
lock_pte-vm s i e = ground arith

clear_slot-vm : (s : System) (i : ℕ) {s' : System} → clear_slot s i ≡ some s' → s'.vm ≡ s.vm
unfolding clear_slot
clear_slot-vm s i e = ground arith

remove_modified-vm :
    (o : Outside) (s : System) (p : ℕ) {s' : System}
    → remove_modified o s p ≡ some s'
    → s'.vm ≡ s.vm
unfolding remove_modified
remove_modified-vm o s p e = ground arith

remove_standby-vm :
    (o : Outside) (s : System) (p : ℕ) {s' : System} → remove_standby o s p ≡ some s' → s'.vm ≡ s.vm
unfolding remove_standby change_available_count
remove_standby-vm o s p e = ground arith

unlist_page-vm :
    (o : Outside) (s : System) (p : ℕ) {s' : System} → unlist_page o s p ≡ some s' → s'.vm ≡ s.vm
unfolding unlist_page signal_trimming_if_low signal_writing_if_low
unlist_page-vm o s p e = grind (arith, remove_modified-vm, remove_standby-vm, clear_slot-vm)

finish_soft_fault-vm :
    (s : System) (i p : ℕ) {s' : System} → finish_soft_fault s i p ≡ some s' → s'.vm ≡ s.vm
unfolding finish_soft_fault
finish_soft_fault-vm s i p e = grind (arith, unlock_page-vm, unlock_pte-vm)

fill_frame-vm : (i f : ℕ) (s : System) {s' : System} → fill_frame i f s ≡ some s' → s'.vm ≡ s.vm
unfolding fill_frame
fill_frame-vm i f s e = grind (arith, clear_slot-vm)

finish_hard_fault-vm :
    (i p f : ℕ) (s : System) (t : ThreadInfo) {r : System × ThreadInfo × Bool}
    → finish_hard_fault i p f s t ≡ some r
    → r.0.vm ≡ s.vm
unfolding finish_hard_fault
finish_hard_fault-vm i p f s t e = grind (arith, unlock_page-vm, unlock_pte-vm, fill_frame-vm)

try_refill-vm :
    (i : ℕ) (s : System) (t : ThreadInfo) {r : System × ThreadInfo × Bool}
    → try_refill_cache_from_free_list i s t ≡ some r
    → r.0.vm ≡ s.vm
unfolding try_refill_cache_from_free_list change_available_count
try_refill-vm i s t e = ground arith

get_free_pages_loop-vm :
    (n i : ℕ) (s : System) (t : ThreadInfo) {r : System × ThreadInfo × Bool}
    → get_free_pages_loop n i s t ≡ some r
    → r.0.vm ≡ s.vm
unfolding get_free_pages_loop
get_free_pages_loop-vm zero i s t e = ground arith
get_free_pages_loop-vm (suc n) i s t e = grind (arith, try_refill-vm, get_free_pages_loop-vm n)

acquire_free_page-vm :
    (s : System) (t : ThreadInfo) {r : System × ThreadInfo × Option ℕ}
    → acquire_free_page s t ≡ some r
    → r.0.vm ≡ s.vm
unfolding acquire_free_page try_get_free_pages
acquire_free_page-vm s t e = grind (arith, get_free_pages_loop-vm, lock_page-vm)

repurpose_pages-vm :
    (n i p : ℕ) (s : System) (c : ℕ → ℕ) {r : System × (ℕ → ℕ)}
    → repurpose_pages n i p s c ≡ some r
    → r.0.vm ≡ s.vm
unfolding repurpose_pages
repurpose_pages-vm zero i p s c e = ground arith
repurpose_pages-vm (suc n) i p s c e = grind (arith, unlock_page-vm, repurpose_pages-vm n)

move_batch-vm :
    (o : Outside) (s : System) (t : ThreadInfo) {r : System × ThreadInfo × Bool}
    → move_batch_from_standby_to_cache o s t ≡ some r
    → r.0.vm ≡ s.vm
unfolding move_batch_from_standby_to_cache signal_writing_if_low
move_batch-vm o s t e = grind (arith, repurpose_pages-vm)

find_page-vm :
    (n : ℕ) (o : Outside) (s : System) (t : ThreadInfo) {r : System × ThreadInfo × Option ℕ}
    → find_page n o s t ≡ some r
    → r.0.vm ≡ s.vm
unfolding find_page
find_page-vm zero o s t e = cc
find_page-vm (suc n) o s t e = grind (arith, acquire_free_page-vm, move_batch-vm, find_page-vm n)

add_page_to_free_list-vm :
    (n i p : ℕ) (s : System) {s' : System} → add_page_to_free_list n i p s ≡ some s' → s'.vm ≡ s.vm
unfolding add_page_to_free_list
add_page_to_free_list-vm zero i p s e = cc
add_page_to_free_list-vm (suc n) i p s e = grind (arith, add_page_to_free_list-vm n)

return_page-vm :
    (n p : ℕ) (s : System) (t : ThreadInfo) {r : System × ThreadInfo}
    → return_page n p s t ≡ some r
    → r.0.vm ≡ s.vm
unfolding return_page add_page_to_cache_or_free_list change_available_count
return_page-vm n p s t e = grind (arith, add_page_to_free_list-vm, unlock_page-vm)

use_page-vm :
    (n i p : ℕ) (s : System) (t : ThreadInfo) {r : System × ThreadInfo × Bool}
    → use_page n i p s t ≡ some r
    → r.0.vm ≡ s.vm
unfolding use_page try_lock_pte
use_page-vm n i p s t e = grind (arith, return_page-vm, unlock_pte-vm, finish_hard_fault-vm)

module _ (o : Outside) (fixed : (s : System) → (o.meanwhile s).vm ≡ s.vm) where
  resolve_soft_fault-vm :
      (i : ℕ) (s : System) {r : System × Bool} → resolve_soft_fault o i s ≡ some r → r.0.vm ≡ s.vm
  unfolding resolve_soft_fault
  resolve_soft_fault-vm i s e = grind (
    arith, lock_pte-vm, unlock_pte-vm, lock_page-vm, unlock_page-vm, unlist_page-vm,
    finish_soft_fault-vm, fixed,
  )

  resolve_hard_fault-vm :
      (n i : ℕ) (s : System) (t : ThreadInfo) {r : System × ThreadInfo × Bool}
      → resolve_hard_fault n o i s t ≡ some r
      → r.0.vm ≡ s.vm
  unfolding resolve_hard_fault give_up
  resolve_hard_fault-vm n i s t e = grind (arith, find_page-vm, use_page-vm, fixed)

  handle-vm :
      (n i : ℕ) (s : System) (t : ThreadInfo) {r : System × ThreadInfo × Bool}
      → handle n o i s t ≡ some r
      → r.0.vm ≡ s.vm
  unfolding handle
  handle-vm zero i s t e = cc
  handle-vm (suc n) i s t e =
      grind (arith, resolve_soft_fault-vm, resolve_hard_fault-vm, handle-vm n, fixed)

  pub page_fault_handler-vm :
      (n va : ℕ) (s : System) (t : ThreadInfo) {r : System × ThreadInfo × Bool}
      → page_fault_handler n o va s t ≡ some r
      → r.0.vm ≡ s.vm
  unfolding page_fault_handler
  page_fault_handler-vm n va s t e = grind (arith, handle-vm)
