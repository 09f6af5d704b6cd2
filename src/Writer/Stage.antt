-- ===== src/Writer/Stage.antt =====
-- The part of `write_pages` behind the gathering of a batch, undisturbed.
use memory_manager.Base.{
  ℕ, ◌≡◌, ◌≢◌, ◌≤◌, ap, ◌∙◌, true, false, some, arith, List, distinct, All, All-with, All-has,
  has-append, has-append_apart, has-ne, distinct-append, ◌==◌, [], ◌∷◌, ◌++◌, length, has,
}
use memory_manager.Pfn.{Pfn, Heap, has_status, mid_write, standby}
use memory_manager.PageList.{initialize_list_head}
use memory_manager.PageList.Ring.{IsList, Seg-last}
use memory_manager.PageList.Joins.{is_open}
use memory_manager.Disk.{PageFile}
use memory_manager.Disk.Slots.{IsValid}
use memory_manager.System.{System, Page, change_available_count}
use memory_manager.Trimmer.Join.{IsPublished, empty_head, IsList-off}
use memory_manager.Writer.{Outside, write_batch}
use memory_manager.Writer.Pages.{IsWaiting, IsSaved, IsWritten, write_batch_lem}
use memory_manager.Writer.Publish.{IsQuiet, announced}

-- A page of a batch that was written.
pub record IsOnStandby (s s' : System) (p : ℕ) : Type 0 where
  pub state : has_status (s'.heap p) standby ≡ true
  pub unlocked : (s'.heap p).lock ≡ 0
  pub owned : (s'.heap p).pte ≡ (s.heap p).pte
  pub saved : s'.page_file (s'.heap p).disk_index ≡ s.frames p

-- A gathered batch, with the rest of the modified list and the standby list apart from it.
pub record IsStaged (s : System) (temp : ℕ) (stby batch rest : List ℕ) : Type 0 where
  pub modified : IsList s.heap s.modified_list.head rest
  pub standby_pages : IsList s.heap s.standby_list.head stby
  pub apart : distinct (temp ∷ s.standby_list.head ∷ stby ++ batch) ≡ true
  pub away :
      (q : ℕ)
      → has q (s.modified_list.head ∷ rest) ≡ true
      → has q (temp ∷ s.standby_list.head ∷ stby ++ batch) ≡ false
  pub waiting : All (IsWaiting s) batch
  pub valid : IsValid s.pf
  pub few : length batch ≤ s.pf.num_stashed_slots
  pub opened : is_open s.standby_list s.heap ≡ true

module _ (s : System) (temp : ℕ) (stby batch rest : List ℕ)
    (st : IsStaged s temp stby batch rest) where
  abbrev pub with_temp : System
  with_temp = record s { heap = initialize_list_head s.heap temp }

  batch_temp : (q : ℕ) → has q batch ≡ true → q ≢ temp
  batch_temp q m = has-ne q temp batch m (ground (arith, st.apart, has-append temp stby batch))

  temp-IsWaiting : All (IsWaiting with_temp) batch
  temp-IsWaiting =
      All-with batch
        (λ q m w.
          let same = (empty_head s.heap temp).1 q (batch_temp q m) in
          (
            ap (λ (r : Pfn). r.lock) same ∙ w.0,
            ap (λ (r : Pfn). has_status r mid_write) same ∙ w.1,
            w.2,
          ))
        st.waiting

  pub batch-IsWritten :
      (o : Outside)
      → IsQuiet o
      → (s' : System) × (write_batch o temp 0 batch with_temp ≡ some (s', length batch))
        × IsWritten with_temp s' temp [] batch
  batch-IsWritten o quiet =
      write_batch_lem o temp 0 [] batch with_temp quiet.undisturbed st.valid st.few
        (empty_head s.heap temp).0
        (ground (arith, st.apart, has-append temp stby batch, distinct-append stby batch))
        temp-IsWaiting

  module _ (h : Heap) (pf : PageFile) (file : ℕ → Page) where
    abbrev pub after : System
    after = record s { heap = h; pf = pf; page_file = file }

    module _ (w : IsWritten with_temp after temp [] batch) where
      after-same : (q : ℕ) → has q (temp ∷ batch) ≡ false → h q ≡ s.heap q
      after-same q off = w.elsewhere q off ∙ (empty_head s.heap temp).1 q (ground (arith, off))

      standby_off :
          (q : ℕ) → has q (s.standby_list.head ∷ stby) ≡ true → has q (temp ∷ batch) ≡ false
      standby_off q m =
          let both = has-append temp stby batch in
          let out : has temp (s.standby_list.head ∷ stby) ≡ false =
            ground (arith, st.apart, both) in
          let ne : q ≢ temp = has-ne q temp (s.standby_list.head ∷ stby) m out in
          let all : distinct (s.standby_list.head ∷ stby ++ batch) ≡ true =
            ground (arith, st.apart) in
          ground (arith, ne, has-append_apart (s.standby_list.head ∷ stby) batch q all m)

      pub after-standby : IsList h s.standby_list.head stby
      after-standby =
          IsList-off s.heap h s.standby_list.head stby (λ q m. after-same q (standby_off q m))
            st.standby_pages

      pub after-open : is_open s.standby_list h ≡ true
      after-open =
          let tail =
            Seg-last s.heap s.standby_list.head stby s.standby_list.head st.standby_pages.ring in
          let e = after-same s.standby_list.head (standby_off s.standby_list.head (ground arith)) in
          let f =
            after-same (s.heap s.standby_list.head).blink
              (standby_off (s.heap s.standby_list.head).blink tail) in
          rw (e, f) st.opened

      pub after-held : (q : ℕ) → has q batch ≡ true → (h q).lock ≡ 1
      after-held q m = (All-has (IsSaved with_temp after) batch q w.saved m).0

      modified_off :
          (q : ℕ)
          → has q (s.modified_list.head ∷ rest) ≡ true
          → (has q (s.standby_list.head ∷ stby ++ batch) ≡ false) × (has q (temp ∷ batch) ≡ false)
      modified_off q m = ground (arith, st.away q m, has-append q stby batch)

      module _ (h' : Heap)
          (far : (q : ℕ) → has q (s.standby_list.head ∷ stby ++ batch) ≡ false → h' q ≡ h q)
          (p : IsPublished s.standby_list stby batch h h') where
        pub published-modified : IsList h' s.modified_list.head rest
        published-modified =
            IsList-off s.heap h' s.modified_list.head rest
              (λ q m. far q (modified_off q m).0 ∙ after-same q (modified_off q m).1) st.modified

        pub published-IsOnStandby : All (IsOnStandby s (announced after h' (length batch))) batch
        unfolding has_status change_available_count
        published-IsOnStandby =
            All-with batch
              (λ q m saved.
                let (free, owner, slot, state) = p.pages q m in
                record {
                  state = ap (λ v. v == 5) state ∙ saved.1;
                  unlocked = free;
                  owned =
                      owner
                      ∙ w.owners q
                      ∙ ap (λ (r : Pfn). r.pte) ((empty_head s.heap temp).1 q (batch_temp q m));
                  saved = ap file slot ∙ saved.2;
                })
              w.saved
