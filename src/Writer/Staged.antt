-- ===== src/Writer/Staged.antt =====
-- The batch that the writer has gathered, undisturbed, and the lists that it is apart from.
use mathlib.Core.List.{append_assoc}
use memory_manager.Base.{
  ℕ, ◌≡◌, ◌≢◌, ◌≤◌, ◌<◌, ◌^◌, ◌∙◌, true, false, arith, List, distinct, All, All-of, has-take,
  All-has, has-append, has-append_apart, has-ne, distinct-mid, distinct-append, take-append-drop,
  take, drop, length-take, ◌∷◌, ◌++◌, has, Bool-cases, inl, inr,
}
use memory_manager.Pfn.{Heap, has_status}
use memory_manager.PageList.Ring.{IsList, Seg-frame}
use memory_manager.PageList.Walk.{AllFree}
use memory_manager.PageList.Joins.{is_open}
use memory_manager.Disk.{PageFile}
use memory_manager.Disk.Slots.{IsValid}
use memory_manager.System.{System}
use memory_manager.Writer.Slots.{IsReserved}
use memory_manager.Writer.Gather.{IsTakenOff}
use memory_manager.Writer.Pages.{IsWaiting}
use memory_manager.Writer.Stage.{IsStaged}

-- The two lists and the temporary list's head share no record, the modified pages are unlocked and
-- have frames of the range, the heads and the last standby page are unlocked, and the page file is
-- valid.
pub record IsWritable (s : System) (temp : ℕ) (stby mods : List ℕ) : Type 0 where
  pub modified : IsList s.heap s.modified_list.head mods
  pub standby : IsList s.heap s.standby_list.head stby
  pub apart : distinct ((temp ∷ s.standby_list.head ∷ stby) ++ s.modified_list.head ∷ mods) ≡ true
  pub free : AllFree s.heap mods
  pub free_head : (s.heap s.modified_list.head).lock ≡ 0
  pub opened : is_open s.standby_list s.heap ≡ true
  pub frames : All (λ p. p ≤ s.vm.max_frame_number) mods
  pub valid : IsValid s.pf
  pub resumes : s.pf.last_checked_bitmap_row < s.pf.page_file_bitmap_rows
  pub small : s.standby_list.list_size < 2 ^ 64
  pub small_count : s.stats.n_available < 2 ^ 64

-- What the lists' being apart gives for a batch from the front of the modified list.
apart_parts :
    (xs : List ℕ) (m : ℕ) (batch rest : List ℕ)
    → distinct (xs ++ m ∷ (batch ++ rest)) ≡ true
    → (distinct (xs ++ batch) ≡ true)
      × ((q : ℕ) → has q (m ∷ rest) ≡ true → has q (xs ++ batch) ≡ false)
apart_parts xs m batch rest d =
    let (all, out) = distinct-mid xs m (batch ++ rest) d in
    let all' : distinct ((xs ++ batch) ++ rest) ≡ true = rw (append_assoc xs batch rest) all in
    (
      (distinct-append (xs ++ batch) rest all').0,
      λ q on. elim (Bool-cases (has q (xs ++ batch))) [
        | inr off ↦ off
        | inl front ↦
            let behind = has-append_apart (xs ++ batch) rest q all' front in
            let m_off : has m (xs ++ batch) ≡ false = ground (
              arith,
              out,
              has-append m xs (batch ++ rest),
              has-append m batch rest,
              has-append m xs batch,
            ) in
            let ne : q ≢ m = has-ne q m (xs ++ batch) front m_off in
            absurd (ground (arith, on, behind, ne))
      ],
    )

-- A ring survives where the links of its records do.
pub IsList-spared :
    (h g : Heap) (head : ℕ) (xs : List ℕ)
    → ((q : ℕ)
        → has q (head ∷ xs) ≡ true
        → ((g q).flink ≡ (h q).flink) × ((g q).blink ≡ (h q).blink))
    → IsList h head xs
    → IsList g head xs
IsList-spared h g head xs same is = record {
  ring = Seg-frame h g head xs head (λ q m. (same q m).0) (λ q m. (same q m).1) is.ring;
  apart = is.apart;
}

module _ (s : System) (temp : ℕ) (stby mods : List ℕ) (a : IsWritable s temp stby mods) where
  -- The state behind the gathering.
  abbrev pub gathered : PageFile → Heap → (size : ℕ) → System
  gathered pf h size = record s {
    pf = pf;
    heap = h;
    modified_list = record (s.modified_list) { list_size = size };
  }

  module _ (pf : PageFile) (n : ℕ) (r : IsReserved pf s.modified_list.list_size n) (h : Heap)
      (size : ℕ)
      (t : IsTakenOff
        (record s { pf = pf })
        (gathered pf h size)
        mods
        (take n mods)
        (drop n mods)) where
    parted :
        (distinct (temp ∷ s.standby_list.head ∷ stby ++ take n mods) ≡ true)
        × ((q : ℕ)
            → has q (s.modified_list.head ∷ drop n mods) ≡ true
            → has q (temp ∷ s.standby_list.head ∷ stby ++ take n mods) ≡ false)
    parted =
        apart_parts (temp ∷ s.standby_list.head ∷ stby) s.modified_list.head (take n mods)
          (drop n mods) (rw (take-append-drop n mods) a.apart)

    kept_standby :
        (q : ℕ)
        → has q (s.standby_list.head ∷ stby) ≡ true
        → has q (s.modified_list.head ∷ mods) ≡ false
    kept_standby q m =
        has-append_apart (temp ∷ s.standby_list.head ∷ stby) (s.modified_list.head ∷ mods) q a.apart
          (ground (arith, m))

    pub gathered-IsStaged : IsStaged (gathered pf h size) temp stby (take n mods) (drop n mods)
    unfolding has_status
    gathered-IsStaged = record {
      modified = t.left;
      standby_pages =
          IsList-spared s.heap h s.standby_list.head stby (λ q m. t.links q (kept_standby q m))
            a.standby;
      apart = parted.0;
      away = parted.1;
      waiting = All-of (IsWaiting (gathered pf h size)) (take n mods) (λ q m.
          let on = has-take q n mods m in
          (
            t.locks q ∙ All-has (λ v. (s.heap v).lock ≡ 0) mods q a.free on,
            ground (arith, t.states q, m),
            All-has (λ v. v ≤ s.vm.max_frame_number) mods q a.frames on,
          ));
      valid = r.valid;
      few = omega (arith, r.enough, length-take n mods);
      opened =
          let at = t.links s.standby_list.head (kept_standby s.standby_list.head (ground arith)) in
          ground (
            arith,
            a.opened,
            at,
            t.locks s.standby_list.head,
            t.locks (s.heap s.standby_list.head).blink,
          );
    }
