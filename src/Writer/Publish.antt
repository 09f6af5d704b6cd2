-- ===== src/Writer/Publish.antt =====
-- The written pages join the standby list.
use mathlib.Core.Path.{subst}
use memory_manager.Base.{
  ℕ, ◌%◌, ◌≡◌, ◌<◌, ◌^◌, refl, sym, true, false, some, arith, List, distinct, ◌∷◌, ◌++◌, length,
  has,
}
use memory_manager.Pfn.{Heap}
use memory_manager.PageList.{change_list_size}
use memory_manager.PageList.Ring.{IsList, IsList-unique}
use memory_manager.PageList.Attempts.{done}
use memory_manager.PageList.Locked.{insert_list_to_tail_list}
use memory_manager.PageList.Tries.{found}
use memory_manager.PageList.Joins.{is_open}
use memory_manager.PageList.Publish.{IsCollected}
use memory_manager.System.{System, change_available_count}
use memory_manager.Trimmer.{unlock_batch}
use memory_manager.Trimmer.Join.{IsPublished, join-IsPublished}
use memory_manager.Writer.{Outside, publish_standby}

-- No other thread acts, and the modified list is not locked exclusively.
pub record IsQuiet (o : Outside) : Type 0 where
  pub shared : o.shared 0 ≡ true
  pub idle : (n : ℕ) (g : Heap) → o.others n g ≡ g
  pub undisturbed : (i : ℕ) (g : System) → o.meanwhile i g ≡ g

abbrev grown : System → (n : ℕ) → System
grown s n = record s { standby_list = change_list_size s.standby_list (n % 2 ^ 64) }

abbrev pub announced : System → (h : Heap) → (n : ℕ) → System
announced s h n =
    let s₁ = change_available_count (record (grown s n) { heap = h }) (n % 2 ^ 64) in
    record s₁ { events = record (s₁.events) { standby_pages_ready = true } }

publish-step :
    (o : Outside) (fuel temp n : ℕ) (s : System) (g h : Heap)
    → insert_list_to_tail_list o.others fuel s.standby_list temp s.heap ≡ some (done g)
    → unlock_batch n (g temp).flink (record (grown s n) { heap = g })
      ≡ some (record (grown s n) { heap = h })
    → publish_standby o fuel temp n s ≡ some (announced s h n)
unfolding publish_standby
publish-step o fuel temp n s g h e f = rw (e, f) refl

-- Where no other thread acts
pub publish_standby_lem :
    (o : Outside) (fuel temp page : ℕ) (pages stby : List ℕ) (s : System)
    → IsQuiet o
    → 0 < fuel
    → IsList s.heap s.standby_list.head stby
    → IsList s.heap temp (page ∷ pages)
    → distinct (temp ∷ s.standby_list.head ∷ stby ++ page ∷ pages) ≡ true
    → ((q : ℕ) → has q (page ∷ pages) ≡ true → (s.heap q).lock ≡ 1)
    → is_open s.standby_list s.heap ≡ true
    → (h : Heap) × (publish_standby o fuel temp (length (page ∷ pages)) s
        ≡ some (announced s h (length (page ∷ pages))))
      × ((q : ℕ) → has q (s.standby_list.head ∷ stby ++ page ∷ pages) ≡ false → h q ≡ s.heap q)
      × IsPublished s.standby_list stby (page ∷ pages) s.heap h
publish_standby_lem o fuel temp page pages stby s quiet pos is from apart held opened =
    let batch : List ℕ = page ∷ pages in
    let c : IsCollected s.standby_list temp batch s.heap s.heap = record {
      pages = stby;
      is = is;
      from = from;
      apart = apart;
      held = λ q m. refl;
    } in
    let (g, h, before, j, le, at, run, freed, far, done_now) =
      join-IsPublished o.others 0 fuel s.standby_list temp page pages s.heap
        (λ n f d. subst (IsCollected s.standby_list temp batch s.heap) (sym (quiet.idle n f)) d) pos
        held s.heap (grown s (length batch)) c opened in
    let now : j ≡ 0 = omega (arith, le) in
    let at' : IsList s.heap s.standby_list.head before =
      subst (λ v. IsList (found o.others 0 v s.heap) s.standby_list.head before) now at in
    let far' =
      subst
        (λ v.
          (q : ℕ)
          → has q (s.standby_list.head ∷ before ++ page ∷ pages) ≡ false
          → h q ≡ found o.others 0 v s.heap q)
        now far in
    let same : before ≡ stby = IsList-unique s.heap s.standby_list.head before stby at' is in
    (
      h,
      publish-step o fuel temp (length batch) s g h run freed,
      subst
          (λ l. (q : ℕ) → has q (s.standby_list.head ∷ l ++ page ∷ pages) ≡ false → h q ≡ s.heap q)
          same far',
      subst (λ l. IsPublished s.standby_list l batch s.heap h) same done_now,
    )
