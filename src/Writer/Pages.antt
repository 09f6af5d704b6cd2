-- ===== src/Writer/Pages.antt =====
-- The whole of a write batch that no other thread disturbs.
use mathlib.Core.List.{append_assoc, append-nil}
use memory_manager.Base.{
  ℕ, suc, ◌+◌, ◌≤◌, ◌<◌, ◌≡◌, ◌≢◌, ◌∙◌, ap, refl, true, false, some, arith, has, distinct, update,
  List, [], ◌∷◌, ◌++◌, length, All, has-append, has-ne, distinct-mid,
}
use memory_manager.Pfn.{has_status, standby, mid_write}
use memory_manager.PageList.{insert_to_list_tail}
use memory_manager.PageList.Ring.{IsList, Seg-last}
use memory_manager.Disk.Slots.{IsValid, stashed, top_slot, pop_slot_lem}
use memory_manager.System.{System}
use memory_manager.Writer.{Outside, write_batch, write_page}
use memory_manager.Writer.OnePage.{
  copied, became_standby, IsStored, write_page-standby, became_standby-IsStored,
}

-- A page of the batch before its turn, and after the batch.
abbrev pub IsWaiting : System → ℕ → Type 0
IsWaiting s p =
    ((s.heap p).lock ≡ 0) × (has_status (s.heap p) mid_write ≡ true) × (p ≤ s.vm.max_frame_number)

abbrev pub IsSaved : System → System → ℕ → Type 0
IsSaved s s' p =
    ((s'.heap p).lock ≡ 1)
    × (has_status (s'.heap p) standby ≡ true)
    × (s'.page_file (s'.heap p).disk_index ≡ s.frames p)

abbrev written : System → (temp p : ℕ) → System
written s temp p = became_standby (copied s p) temp p (top_slot s.pf)

written-page :
    (s : System) (temp p q : ℕ)
    → q ≢ p
    → (((written s temp p).heap q).lock ≡ (s.heap q).lock)
      × (((written s temp p).heap q).status ≡ (s.heap q).status)
      × (((written s temp p).heap q).disk_index ≡ (s.heap q).disk_index)
unfolding insert_to_list_tail update
written-page s temp p q ne = ground arith

written-slot :
    (s : System) (temp p x : ℕ) → x ≢ top_slot s.pf → (written s temp p).page_file x ≡ s.page_file x
unfolding update
written-slot s temp p x ne = ground arith

written-IsWaiting :
    (s : System) (temp p : ℕ) (pages : List ℕ)
    → has p pages ≡ false
    → All (IsWaiting s) pages
    → All (IsWaiting (written s temp p)) pages
unfolding has_status
written-IsWaiting s temp p [] out a = tt
written-IsWaiting s temp p (q ∷ pages) out a = (
  ground (arith, a.0, written-page s temp p q),
  written-IsWaiting s temp p pages (ground arith) a.1,
)

-- What a batch leaves.
pub record IsWritten (s s' : System) (temp : ℕ) (before pages : List ℕ) : Type 0 where
  pub collected : IsList s'.heap temp (before ++ pages)
  pub saved : All (IsSaved s s') pages
  pub valid : IsValid s'.pf
  pub other_pages :
      (q : ℕ)
      → has q pages ≡ false
      → ((s'.heap q).lock ≡ (s.heap q).lock)
        × ((s'.heap q).status ≡ (s.heap q).status)
        × ((s'.heap q).disk_index ≡ (s.heap q).disk_index)
  pub other_slots : (x : ℕ) → has x (stashed s.pf) ≡ false → s'.page_file x ≡ s.page_file x
  pub frames : s'.frames ≡ s.frames
  pub elsewhere : (q : ℕ) → has q (temp ∷ before ++ pages) ≡ false → s'.heap q ≡ s.heap q
  pub owners : (q : ℕ) → (s'.heap q).pte ≡ (s.heap q).pte
  pub rest : s' ≡ record s { heap = s'.heap; pf = s'.pf; page_file = s'.page_file }

written-elsewhere :
    (s : System) (temp p : ℕ) (before : List ℕ) (q : ℕ)
    → IsList s.heap temp before
    → has p (temp ∷ before) ≡ false
    → has q (temp ∷ before) ≡ false
    → q ≢ p
    → (written s temp p).heap q ≡ s.heap q
unfolding insert_to_list_tail update
written-elsewhere s temp p before q is apart off ne =
    let last = Seg-last s.heap temp before temp is.ring in
    let ne_last : (s.heap temp).blink ≢ q = has-ne (s.heap temp).blink q (temp ∷ before) last off in
    ground (arith, ne, ne_last, apart, off)

written-owners : (s : System) (temp p q : ℕ) → ((written s temp p).heap q).pte ≡ (s.heap q).pte
unfolding insert_to_list_tail update
written-owners s temp p q = ground arith

has-tail :
    (x d : ℕ) (ys zs : List ℕ) → zs ≡ d ∷ ys → has x zs ≡ false → (x ≢ d) × (has x ys ≡ false)
has-tail x d ys zs e out = let n : has x (d ∷ ys) ≡ false = rw e at out in ground (arith, n)

write_batch-step :
    (o : Outside) (temp i p : ℕ) (pages : List ℕ) (s s₁ : System) {s' : System} {n : ℕ}
    → write_page o temp i p s ≡ some (s₁, true)
    → write_batch o temp (i + 1) pages s₁ ≡ some (s', n)
    → write_batch o temp i (p ∷ pages) s ≡ some (s', suc n)
unfolding write_batch
write_batch-step o temp i p pages s s₁ e f = ground (arith, e, f)

-- The first page's write, and then the others'.
written-IsWritten :
    (temp p : ℕ) (before pages : List ℕ) (s s' : System)
    → IsStored s (written s temp p) temp p before
    → IsWritten (written s temp p) s' temp (before ++ p ∷ []) pages
    → has p pages ≡ false
    → IsList s.heap temp before
    → has p (temp ∷ before) ≡ false
    → stashed s.pf ≡ top_slot s.pf ∷ stashed (written s temp p).pf
    → IsWritten s s' temp before (p ∷ pages)
unfolding has_status
written-IsWritten temp p before pages s s' st w out' is out top =
    let s₁ : System = written s temp p in
    let joined : (before ++ p ∷ []) ++ pages ≡ before ++ p ∷ pages =
      append_assoc before (p ∷ []) pages in
    let same = w.other_pages p out' in
    record {
      collected = rw joined at w.collected;
      saved = (
        (
          same.0 ∙ st.held,
          ground (arith, same, st.state),
          ap s'.page_file same.2
              ∙ w.other_slots (s₁.heap p).disk_index (ground (arith, st.own))
              ∙ st.saved,
        ),
        w.saved,
      );
      valid = w.valid;
      other_pages = λ q out. ground (arith, w.other_pages q, written-page s temp p q);
      other_slots = λ x out.
          let (ne, rest) = has-tail x (top_slot s.pf) (stashed s₁.pf) (stashed s.pf) top out in
          w.other_slots x rest ∙ written-slot s temp p x ne;
      frames = w.frames;
      elsewhere = λ q off.
          let both = has-append q before (p ∷ pages) in
          let far : has q (temp ∷ (before ++ p ∷ []) ++ pages) ≡ false = rw joined off in
          w.elsewhere q far
          ∙ written-elsewhere s temp p before q is out (ground (arith, off, both))
              (ground (arith, off, both));
      owners = λ q. w.owners q ∙ written-owners s temp p q;
      rest = w.rest;
    }

-- Where no other thread acts while the batch is written, the pages are mid-write, unlocked and all
-- different, and the stack has a slot for each, the loop over the batch writes all of them: each is
-- standby, locked, on the temporary list in order, and the slot that its record names holds what
-- its frame holds; no other page's lock, state or slot, no page's owner, no record off the temporary
-- list and no slot off the stack has changed, and the page file is valid.
pub write_batch_lem :
    (o : Outside) (temp i : ℕ) (before pages : List ℕ) (s : System)
    → ((j : ℕ) (g : System) → o.meanwhile j g ≡ g)
    → IsValid s.pf
    → length pages ≤ s.pf.num_stashed_slots
    → IsList s.heap temp before
    → distinct (temp ∷ before ++ pages) ≡ true
    → All (IsWaiting s) pages
    → (s' : System) × (write_batch o temp i pages s ≡ some (s', length pages))
      × IsWritten s s' temp before pages
unfolding write_batch has_status
write_batch_lem o temp i before [] s alone v few is d a = (
  s,
  refl,
  record {
    collected = rw (append-nil before) is;
    saved = tt;
    valid = v;
    other_pages = λ q out. (refl, refl, refl);
    other_slots = λ x out. refl;
    frames = refl;
    elsewhere = λ q off. refl;
    owners = λ q. refl;
    rest = refl;
  },
)
write_batch_lem o temp i before (p ∷ pages) s alone v few is d a =
    let pos : 0 < s.pf.num_stashed_slots = omega arith in
    let s₁ : System = written s temp p in
    let out : has p (temp ∷ before) ≡ false = ground (
      arith,
      d,
      has-append temp before (p ∷ pages),
      distinct-mid before p pages,
      has-append p before pages,
    ) in
    let out' : has p pages ≡ false = ground (
      arith,
      d,
      has-append temp before (p ∷ pages),
      distinct-mid before p pages,
      has-append p before pages,
    ) in
    let run = write_page-standby o temp i p s v pos a.0.2 (alone i (copied s p)) a.0.0 a.0.1 in
    let st = became_standby-IsStored o temp i p s v pos a.0.2 before is out in
    let joined : (before ++ p ∷ []) ++ pages ≡ before ++ p ∷ pages =
      append_assoc before (p ∷ []) pages in
    let (s', more, w) =
      write_batch_lem o temp (i + 1) (before ++ p ∷ []) pages s₁ alone st.valid (omega (arith, few))
        st.collected (rw joined d) (written-IsWaiting s temp p pages out' a.1) in
    (
      s',
      write_batch-step o temp i p pages s s₁ {s' = s'} run more,
      written-IsWritten temp p before pages s s' st w out' is out (pop_slot_lem v pos).2,
    )
