-- ===== src/Writer/Run.antt =====
-- A whole run of the writer, undisturbed.
use mathlib.Core.Path.{subst}
use mathlib.Core.List.{append-nil}
use memory_manager.Base.{
  ℕ, suc, ◌+◌, ◌-◌, ◌%◌, ◌≡◌, ◌≤◌, ◌<◌, ◌^◌, refl, sym, ap, ◌∙◌, false, some, arith, List, All,
  All-map, take, drop, min, ◌==◌, ◌&&◌, if◌then◌else◌, [], ◌∷◌, ◌++◌, length, has, ltb, leb, Bool,
  Bool-cases, inl, inr,
}
use memory_manager.Config.{max_write_batch_size}
use memory_manager.Pfn.{Heap}
use memory_manager.PageList.{initialize_list_head, change_list_size}
use memory_manager.PageList.Ring.{IsList}
use memory_manager.Disk.{PageFile}
use memory_manager.Disk.Slots.{IsValid}
use memory_manager.System.{System, Page, change_available_count}
use memory_manager.Trimmer.Join.{IsPublished}
use memory_manager.Writer.{
  Outside, reserve_slots, gather_pages, write_batch, publish_standby, write_pages, batch_attempts,
}
use memory_manager.Disk.Bits.{total_clear-le}
use memory_manager.Writer.Slots.{reserve-stashed, batch_size, reserve_slots_lem}
use memory_manager.Writer.Gather.{IsTakenOff}
use memory_manager.Writer.Rounds.{Gathers, gather_pages_lem}
use memory_manager.Writer.Pages.{IsWritten}
use memory_manager.Writer.Publish.{IsQuiet, announced, publish_standby_lem}
use memory_manager.Writer.Staged.{IsWritable, gathered, gathered-IsStaged}
use memory_manager.Writer.Stage.{
  after-standby, after-open, IsStaged, IsOnStandby, with_temp, after, batch-IsWritten, after-held,
  published-modified, published-IsOnStandby,
}

-- What a run leaves.
pub record IsWriteRun (s s' : System) (stby batch rest : List ℕ) : Type 0 where
  pub standby : IsList s'.heap s.standby_list.head (stby ++ batch)
  pub modified : IsList s'.heap s.modified_list.head rest
  pub pages : All (IsOnStandby s s') batch
  pub valid : IsValid s'.pf
  pub size : s'.standby_list.list_size ≡ (s.standby_list.list_size + length batch) % 2 ^ 64
  pub available : s'.stats.n_available ≡ (s.stats.n_available + length batch) % 2 ^ 64
  pub same_entries : s'.ptes ≡ s.ptes

write-nothing :
    (o : Outside) (fuel temp n : ℕ) (s s' : System) (pf : PageFile)
    → reserve_slots s.pf s.modified_list.list_size ≡ some (pf, n)
    → gather_pages (n + batch_attempts) o n 0 [] (record s { pf = pf }) ≡ some (s', [])
    → write_pages o fuel temp s ≡ some (s', 0)
unfolding write_pages
write-nothing o fuel temp n s s' pf e f = rw (e, f) refl

write-batch :
    (o : Outside) (fuel temp n page : ℕ) (pages : List ℕ) (s g w s' : System) (pf : PageFile)
    → reserve_slots s.pf s.modified_list.list_size ≡ some (pf, n)
    → gather_pages (n + batch_attempts) o n 0 [] (record s { pf = pf }) ≡ some (g, page ∷ pages)
    → write_batch o temp 0 (page ∷ pages) (record g { heap = initialize_list_head g.heap temp })
      ≡ some (w, suc (length pages))
    → publish_standby o fuel temp (suc (length pages)) w ≡ some s'
    → write_pages o fuel temp s ≡ some (s', suc (length pages))
unfolding write_pages
write-batch o fuel temp n page pages s g w s' pf e f run p =
    let some_written : (suc (length pages) == 0) ≡ false = ground arith in
    rw (e, f, run, some_written, p) refl

module _ (o : Outside) (fuel temp : ℕ) (s : System) (stby mods : List ℕ) (quiet : IsQuiet o)
    (pos : 0 < fuel) (a : IsWritable s temp stby mods) where
  -- Behind the gathering, on a batch that is not empty.
  module _ (pf : PageFile) (h : Heap) (size page : ℕ) (pages rest : List ℕ)
      (owners : (q : ℕ) → (h q).pte ≡ (s.heap q).pte)
      (st : IsStaged (gathered s temp stby mods a pf h size) temp stby (page ∷ pages) rest) where
    abbrev batch : List ℕ
    batch = page ∷ pages

    abbrev staged : System
    staged = gathered s temp stby mods a pf h size

    abbrev behind : Heap → PageFile → (ℕ → Page) → System
    behind = after staged temp stby batch rest st

    published-IsWriteRun :
        (h₁ : Heap) (pf₁ : PageFile) (file : ℕ → Page) (h₂ : Heap)
        (w : IsWritten
          (with_temp staged temp stby batch rest st)
          (behind h₁ pf₁ file)
          temp
          []
          batch)
        → ((q : ℕ) → has q (s.standby_list.head ∷ stby ++ batch) ≡ false → h₂ q ≡ h₁ q)
        → IsPublished s.standby_list stby batch h₁ h₂
        → IsWriteRun s (announced (behind h₁ pf₁ file) h₂ (length batch)) stby batch rest
    unfolding change_list_size change_available_count
    published-IsWriteRun h₁ pf₁ file h₂ w far p = record {
      standby = p.is;
      modified = published-modified staged temp stby batch rest st h₁ pf₁ file w h₂ far p;
      pages =
          All-map batch
            (λ q on. record {
              state = on.state;
              unlocked = on.unlocked;
              owned = on.owned ∙ owners q;
              saved = on.saved;
            })
            (published-IsOnStandby staged temp stby batch rest st h₁ pf₁ file w h₂ far p);
      valid = w.valid;
      size = omega arith;
      available = omega arith;
      same_entries = refl;
    }

    batch_run :
        (s' : System)
        → write_batch o temp 0 batch (with_temp staged temp stby batch rest st)
          ≡ some (s', length batch)
        → IsWritten (with_temp staged temp stby batch rest st) s' temp [] batch
        → (w s'' : System) × (write_batch o temp 0 batch (with_temp staged temp stby batch rest st)
            ≡ some (w, length batch))
          × (publish_standby o fuel temp (length batch) w ≡ some s'')
          × IsWriteRun s s'' stby batch rest
    batch_run s' run iw =
        let w : IsWritten (with_temp staged temp stby batch rest st)
            (behind s'.heap s'.pf s'.page_file) temp [] batch =
          subst
            (λ (u : System). IsWritten (with_temp staged temp stby batch rest st) u temp [] batch)
            iw.rest iw in
        let u : System = behind s'.heap s'.pf s'.page_file in
        let (h₂, publish, far, p) =
          publish_standby_lem o fuel temp page pages stby u quiet pos
            (after-standby staged temp stby batch rest st s'.heap s'.pf s'.page_file w) w.collected
            st.apart (after-held staged temp stby batch rest st s'.heap s'.pf s'.page_file w)
            (after-open staged temp stby batch rest st s'.heap s'.pf s'.page_file w) in
        (
          u,
          announced u h₂ (length batch),
          run ∙ ap (λ (v : System). some (v, length batch)) iw.rest,
          publish,
          published-IsWriteRun s'.heap s'.pf s'.page_file h₂ w far p,
        )

  by_batch :
      (pf : PageFile) (n : ℕ) (h : Heap) (size : ℕ) (batch rest : List ℕ)
      → reserve_slots s.pf s.modified_list.list_size ≡ some (pf, n)
      → gather_pages (n + batch_attempts) o n 0 [] (record s { pf = pf })
        ≡ some (gathered s temp stby mods a pf h size, batch)
      → ((q : ℕ) → (h q).pte ≡ (s.heap q).pte)
      → IsStaged (gathered s temp stby mods a pf h size) temp stby batch rest
      → (s' : System) × (write_pages o fuel temp s ≡ some (s', length batch))
        × IsWriteRun s s' stby batch rest
  by_batch pf n h size [] rest reserve run owners st = (
    gathered s temp stby mods a pf h size,
    write-nothing o fuel temp n s (gathered s temp stby mods a pf h size) pf reserve run,
    record {
      standby = rw (append-nil stby) st.standby_pages;
      modified = st.modified;
      pages = tt;
      valid = st.valid;
      size = omega (arith, a.small);
      available = omega (arith, a.small_count);
      same_entries = refl;
    },
  )
  by_batch pf n h size (page ∷ pages) rest reserve run owners st =
      let (w, s'', run_batch, publish, done_now) =
        let (s', written, iw) =
          batch-IsWritten (gathered s temp stby mods a pf h size) temp stby (page ∷ pages) rest st o
            quiet in
        batch_run pf h size page pages rest owners st s' written iw in
      (
        s'',
        write-batch o fuel temp n page pages s (gathered s temp stby mods a pf h size) w s'' pf
            reserve run run_batch publish,
        done_now,
      )

  -- Slots on the stack for all pages of a batch.
  abbrev pub most : ℕ
  most = min max_write_batch_size s.modified_list.list_size

  abbrev pub has_slots : Bool
  has_slots = ltb 0 s.pf.empty_disk_slots && leb most s.pf.num_stashed_slots

  reserves-most :
      (pf : PageFile) (n : ℕ)
      → reserve_slots s.pf s.modified_list.list_size ≡ some (pf, n)
      → n ≡ (if has_slots then most else n)
  reserves-most pf n e = elim (Bool-cases has_slots) [
    | inr few ↦ rw few refl
    | inl enough ↦
        let bound = total_clear-le s.pf.page_file_bitmaps a.valid.width in
        let small : s.pf.empty_disk_slots < 2 ^ 63 =
          omega (arith, a.valid.count, a.valid.top, a.valid.small, a.valid.rows) in
        let all =
          reserve-stashed s.pf s.modified_list.list_size (ground (arith, enough)) small
            (ground (arith, enough)) in
        let same : some (pf, n) ≡ some (s.pf, batch_size s.pf s.modified_list.list_size) =
          sym e ∙ all in
        ground (arith, enough, same)
  ]

  -- Where no other thread acts, the two lists and the temporary list's head share no record, the
  -- modified pages are unlocked, and the page file is valid: a run of the writer returns. It has
  -- taken n pages off the front of the modified list, as far as there were that many, where n is at
  -- most 4096, and all that this and the list's size allow if the stack had slots for them already.
  -- These pages are standby and unlocked at the end of the standby list, in order behind its former
  -- pages, with their owners kept, and the slot that each names holds what its frame holds; the rest
  -- of the modified list is in order, the page file is valid, the size of the standby list and the
  -- available count have grown by the number of pages, and no entry has changed.
  pub write_pages_lem :
      (n : ℕ) × (s' : System) × (write_pages o fuel temp s ≡ some (s', length (take n mods)))
      × (n ≤ max_write_batch_size)
      × (n ≡ (if has_slots then most else n))
      × IsWriteRun s s' stby (take n mods) (drop n mods)
  write_pages_lem =
      let (pf, n, reserve, r) = reserve_slots_lem s.modified_list.list_size a.valid a.resumes in
      let s₁ : System = record s { pf = pf } in
      let none_yet : n - 0 ≡ n = omega arith in
      let (g, run, t) = subst (Gathers (n + 5) o n 0 [] s₁ mods) none_yet (
        gather_pages_lem (n + 5) o n 0 [] s₁ mods quiet.shared a.modified a.free_head a.free
          (omega arith) (omega arith)) in
      let run' = run ∙ ap (λ (u : System). some (u, take n mods)) t.same in
      let t' = subst (λ (u : System). IsTakenOff s₁ u mods (take n mods) (drop n mods)) t.same t in
      let (s', whole, done_now) =
        by_batch pf n g.heap g.modified_list.list_size (take n mods) (drop n mods) reserve run'
          t.owners
          (gathered-IsStaged s temp stby mods a pf n r g.heap g.modified_list.list_size t') in
      (n, s', whole, r.capacity, reserves-most pf n reserve, done_now)
