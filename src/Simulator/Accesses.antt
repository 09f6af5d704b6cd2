-- ===== src/Simulator/Accesses.antt =====
-- A simulated thread never stops with `fatal_error`.
use memory_manager.Base.{
  ℕ, zero, suc, ◌%◌, ◌<◌, ◌≡◌, ◌⊎◌, inl, inr, refl, true, false, Bool, Option, none, some, arith,
}
use memory_manager.Config.{page_size}
use memory_manager.Pte.Address.{IsSized}
use memory_manager.System.{System, ThreadInfo}
use memory_manager.FaultHandler.{Outside, page_fault_handler}
use memory_manager.FaultHandler.Returns.{page_fault_handler-returns}
use memory_manager.FaultHandler.Fixed.{page_fault_handler-vm}
use memory_manager.Random.{get_arbitrary_va}
use memory_manager.Random.Region.{IsCell, get_arbitrary_va-IsCell, get_next_va-IsCell}
use memory_manager.Simulator.{Machine, stamp, access, run_accesses, run_user_app_simulation}

handler-true :
    (n va : ℕ) (o : Outside) (s : System) (t : ThreadInfo) {r : System × ThreadInfo × Bool}
    → IsSized s.vm
    → IsCell s.vm va
    → page_fault_handler n o va s t ≡ some r
    → r.2 ≡ true
handler-true n va o s t {r} sized cell e =
    grind (arith, page_fault_handler-returns n o va s t sized, cell)

module _ (m : Machine) (fixed : (s : System) → (m.outside.meanwhile s).vm ≡ s.vm) where
  access-true :
      (n va : ℕ) (s : System) (t : ThreadInfo) {r : System × ThreadInfo × Bool}
      → IsSized s.vm
      → IsCell s.vm va
      → access n m va s t ≡ some r
      → (r.2 ≡ true) × (r.0.vm ≡ s.vm)
  unfolding access stamp
  access-true zero va s t sized cell e = cc
  access-true (suc n) va s t sized cell e =
      grind (arith, handler-true, page_fault_handler-vm m.outside fixed, access-true n, fixed)

  run_accesses-true :
      (left n va seed : ℕ) (s : System) (t : ThreadInfo) {r : System × ThreadInfo × Bool}
      → IsSized s.vm
      → 0 < s.vm.num_ptes
      → s.vm.application_va_base % page_size ≡ 0
      → IsCell s.vm va
      → run_accesses left n m va seed s t ≡ some r
      → r.2 ≡ true
  unfolding run_accesses
  run_accesses-true zero n va seed s t sized pos aligned cell e = ground arith
  run_accesses-true (suc left) n va seed s t sized pos aligned cell e =
      let next = get_next_va-IsCell sized pos aligned va seed cell in
      grind (arith, next, access-true, run_accesses-true left n, fixed)

  never-false :
      (iterations n seed : ℕ) (s : System) (t : ThreadInfo)
      (r : Option (System × ThreadInfo × Bool))
      → IsSized s.vm
      → 0 < s.vm.num_ptes
      → s.vm.application_va_base % page_size ≡ 0
      → run_user_app_simulation iterations n m seed s t ≡ r
      → (run_user_app_simulation iterations n m seed s t ≡ none)
        ⊎ ((s' : System) × (t' : ThreadInfo) × (run_user_app_simulation iterations n m seed s t
              ≡ some (s', t', true)))
  unfolding run_user_app_simulation
  never-false iterations n seed s t none sized pos aligned e = inl e
  never-false iterations n seed s t (some (s', t', true)) sized pos aligned e = inr (s', t', e)
  never-false iterations n seed s t (some (s', t', false)) sized pos aligned e =
      let never : false ≡ true =
        run_accesses-true iterations n (get_arbitrary_va s.vm seed).1 (get_arbitrary_va s.vm seed).0
          s t sized pos aligned (get_arbitrary_va-IsCell sized pos aligned seed) e in
      absurd cc

  -- Whatever the seed, the number of accesses and the fuel, and whatever other threads do at the
  -- waits short of moving the region: a simulated thread never gets FALSE from the handler, which is
  -- for addresses outside the region, so that it does not end with `fatal_error`. Its run ends
  -- with TRUE, or does not end (it is out of fuel, or an assertion fails).
  pub run_user_app_simulation-true :
      (iterations n seed : ℕ) (s : System) (t : ThreadInfo)
      → IsSized s.vm
      → 0 < s.vm.num_ptes
      → s.vm.application_va_base % page_size ≡ 0
      → (run_user_app_simulation iterations n m seed s t ≡ none)
        ⊎ ((s' : System) × (t' : ThreadInfo) × (run_user_app_simulation iterations n m seed s t
              ≡ some (s', t', true)))
  run_user_app_simulation-true iterations n seed s t sized pos aligned =
      never-false iterations n seed s t (run_user_app_simulation iterations n m seed s t) sized pos
        aligned refl
