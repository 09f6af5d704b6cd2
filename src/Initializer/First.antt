-- ===== src/Initializer/First.antt =====
-- From the start of the program to the first fault.
use memory_manager.Base.{
  ℕ, zero, suc, ◌+◌, ◌-◌, ◌*◌, ◌%◌, take, ◌^◌, ◌<◌, ◌≤◌, ◌≡◌, refl, ap, ◌∙◌, true, arith, some,
  List, [], ◌∷◌, has, length, get_elem?,
}
use memory_manager.Pte.{is_pte_zeroed, initialize_page_table}
use memory_manager.Pte.Address.{IsSized}
use memory_manager.System.{System, ThreadInfo}
use memory_manager.FaultHandler.{Outside, page_fault_handler}
use memory_manager.FaultHandler.Access.{
  IsReady, cached_page, page_locked, entry_of, page_fault_handler-zeroed,
}
use memory_manager.FaultHandler.Hard.{IsResolved}
use memory_manager.Initializer.{
  Boot, set_max_frame_number, initialize_user_va_space, initialize_thread, initialize_threads,
  initialize_shared, initialize_statistics, initialize_system,
}
use memory_manager.Initializer.Deal.{share}
use memory_manager.Initializer.Fill.{Holds}
use memory_manager.Initializer.Start.{IsSound, initialize_shared-sizes}
use memory_manager.Initializer.Threads.{initialize_system_lem}

initialize_thread-same :
    (i : ℕ) (s : System) {r : System × ThreadInfo}
    → initialize_thread i s ≡ some r
    → (r.0.vm ≡ s.vm) × (r.0.ptes ≡ s.ptes)
unfolding initialize_thread
initialize_thread-same i s e = ground (arith, e)

initialize_threads-same :
    (left i : ℕ) (s : System) (ts : ℕ → ThreadInfo) {r : System × (ℕ → ThreadInfo)}
    → initialize_threads left i s ts ≡ some r
    → (r.0.vm ≡ s.vm) × (r.0.ptes ≡ s.ptes)
unfolding initialize_threads
initialize_threads-same zero i s ts e = ground (arith, e)
initialize_threads-same (suc left) i s ts e =
    grind (arith, e, initialize_thread-same, initialize_threads-same left)

initialize_system-same :
    (b : Boot) (num : ℕ) (ts : ℕ → ThreadInfo) {r : System × (ℕ → ThreadInfo)}
    → initialize_system b num ts ≡ some r
    → (r.0.vm ≡ (initialize_shared b).vm) × (r.0.ptes ≡ (initialize_shared b).ptes)
unfolding initialize_system initialize_statistics
initialize_system-same b num ts e =
    grind (arith, e, initialize_threads-same num 0 (initialize_shared b) ts)

last_elem :
    (x : ℕ) (xs : List ℕ)
    → (p : ℕ) × (get_elem? (x ∷ xs) (length xs) ≡ some p) × (has p (x ∷ xs) ≡ true)
last_elem x [] = (x, refl, ground arith)
last_elem x (y ∷ ys) = let (p, e, m) = last_elem y ys in (p, e, ground (arith, m))

-- The page at the end of a cache is one of its pages.
cached-has :
    (t : ThreadInfo) (xs : List ℕ)
    → t.free_page_count ≡ length xs
    → 0 < t.free_page_count
    → Holds t.free_page_cache 0 xs
    → has (cached_page t) xs ≡ true
cached-has t [] e pos holds = absurd (omega (arith, e, pos))
cached-has t (x ∷ xs) e pos holds =
    let (p, at, m) = last_elem x xs in
    let last : t.free_page_count - 1 ≡ 0 + length xs = omega (arith, e) in
    let page : cached_page t ≡ p = ap t.free_page_cache last ∙ holds (length xs) p at in
    ap (λ q. has q (x ∷ xs)) page ∙ m

-- The frames reach list `j` after `d` others.
share-pos :
    (j k d : ℕ) (ps : List ℕ)
    → k < 16
    → j ≡ (k + d) % 16
    → d < length ps
    → 0 < length (share j k ps)
share-pos j k d [] lt e short = absurd (omega (arith, short))
share-pos j k zero (p ∷ ps) lt e short =
    let here : k ≡ j = omega (arith, e, lt) in ground (arith, here)
share-pos j k (suc d) (p ∷ ps) lt e short =
    let ih =
      share-pos j ((k + 1) % 16) d ps (omega arith) (omega (arith, e)) (omega (arith, short)) in
    ground (arith, ih)

take-pos : (xs : List ℕ) → 0 < length xs → 0 < length (take 64 xs)
take-pos [] pos = absurd (omega (arith, pos))
take-pos (x ∷ xs) pos = omega arith

shared_base : (b : Boot) → (initialize_shared b).vm.application_va_base ≡ b.application_va_base
unfolding initialize_shared set_max_frame_number initialize_user_va_space initialize_page_table
shared_base b = refl

module _ (b : Boot) (sound : IsSound b) (num i : ℕ) (ts : ℕ → ThreadInfo) (o : Outside)
    (va fuel : ℕ) where
  -- The first sixteen user threads have a page each in their caches, if there are frames enough.
  -- Then, with frame numbers of 40 bits and nobody to disturb it, a thread's first fault after
  -- `initialize_system`, on any address of the region, returns TRUE with one of the frames in the
  -- thread's cache zeroed and mapped by the address's entry.
  pub first_fault :
      i < num
      → i < 16
      → i < length b.allocated_frame_numbers
      → b.application_va_base ≤ va
      → va < b.application_va_base + b.va_span * 4096
      → (initialize_shared b).vm.max_frame_number < 2 ^ 40
      → ((g : System) → o.meanwhile g ≡ g)
      → (s : System) × (ts' : ℕ → ThreadInfo) × (s' : System) × (t' : ThreadInfo)
        × (initialize_system b num ts ≡ some (s, ts'))
        × (page_fault_handler (suc (suc fuel)) o va s (ts' i) ≡ some (s', t', true))
        × IsResolved s s' (entry_of s va) (cached_page (ts' i)) 0
        × (has (cached_page (ts' i)) b.allocated_frame_numbers ≡ true)
  first_fault lt few enough above below bits alone =
      let (s, ts', ls, cs, run, served, available) = initialize_system_lem b sound num ts in
      let same = initialize_system-same b num ts run in
      let sizes = initialize_shared-sizes b sound in
      let (sized, entries, zeroed, bounds, pf) = sizes in
      let filled : 0 < length (cs i) = rw (served.first_share i lt few) (
        take-pos (share i 0 b.allocated_frame_numbers)
          (share-pos i 0 i b.allocated_frame_numbers (omega arith) (omega (arith, few)) enough)) in
      let pos : 0 < (ts' i).free_page_count = omega (arith, served.count i lt, filled) in
      let on = cached-has (ts' i) (cs i) (served.count i lt) pos (served.holds i lt) in
      let frame = served.cached_frame i (cached_page (ts' i)) lt on in
      let within = bounds (cached_page (ts' i)) frame in
      let base : s.vm.application_va_base ≡ b.application_va_base =
        ap (λ v. v.application_va_base) same.0 ∙ shared_base b in
      let number : s.vm.num_ptes ≡ b.va_span = ap (λ v. v.num_ptes) same.0 ∙ entries in
      let sized' : IsSized s.vm = let e = same.0 in rw e sized in
      let table : entry_of s va < s.vm.num_ptes = omega (arith, base, number, above, below) in
      let top : s.vm.max_frame_number ≡ (initialize_shared b).vm.max_frame_number =
        ap (λ v. v.max_frame_number) same.0 in
      let ready : IsReady o s (ts' i) (entry_of s va) = record {
        some_cached = pos;
        free_page = (served.fresh i (cached_page (ts' i)) lt on).0;
        free_entry = ap (λ p. (p (entry_of s va)).lock) same.1 ∙ (zeroed (entry_of s va)).1;
        frame = omega (arith, top, within);
        frame_bits = omega (arith, top, bits);
        kernel_space = omega (arith, served.kernel i lt);
        table = table;
        alone = alone (page_locked s (cached_page (ts' i)));
      } in
      let (s', t', handled, resolved, file) =
        page_fault_handler-zeroed fuel o va s (ts' i) sized' (omega (arith, base, above))
          (omega (arith, base, number, sized'.whole, below)) ready
          (ap (λ p. is_pte_zeroed (p (entry_of s va))) same.1 ∙ (zeroed (entry_of s va)).0) in
      (s, ts', s', t', run, handled, resolved, frame)
