-- ===== src/PageList/Publish.antt =====
-- A batch on a temporary list that joins the end of another list.
use memory_manager.Base.{
  ℕ, ◌≤◌, ◌<◌, ◌≡◌, ◌≢◌, refl, ap, ◌∙◌, true, false, some, arith, List, [], ◌∷◌, ◌++◌, has,
  distinct, length, take, has-append, has-ne,
}
use memory_manager.Pfn.{Pfn, Heap}
use memory_manager.PageList.{PageList, splice_to_tail}
use memory_manager.PageList.Ring.{IsList, SameBut, Seg-split, Seg-last}
use memory_manager.PageList.Walk.{along, along-Seg, Keeps}
use memory_manager.PageList.Splice.{splice_to_tail_lem}
use memory_manager.PageList.Attempts.{done}
use memory_manager.PageList.Locked.{insert_list_to_tail_list}
use memory_manager.PageList.Tries.{found, found-keeps}
use memory_manager.PageList.Joins.{is_open, insert_list_to_tail_list_lem}

-- The batch is on the temporary list, its records are the known ones but for the links, and it shares no
-- record with the list that it joins.
pub record IsCollected (list : PageList) (temp : ℕ) (batch : List ℕ) (known h : Heap) : Type 0 where
  pub pages : List ℕ
  pub is : IsList h list.head pages
  pub from : IsList h temp batch
  pub apart : distinct (temp ∷ list.head ∷ pages ++ batch) ≡ true
  pub held :
      (q : ℕ)
      → has q batch ≡ true
      → h q ≡ record (known q) { flink = (h q).flink; blink = (h q).blink }

-- The batch is at the end of the list, can be walked from the temporary list's head on, and its
-- records are the known ones still.
pub record IsJoined (list : PageList) (temp : ℕ) (pages batch : List ℕ) (known h : Heap)
    : Type 0 where
  pub is : IsList h list.head (pages ++ batch)
  pub walk : along h (h temp).flink (length batch) ≡ batch
  pub held :
      (q : ℕ)
      → has q batch ≡ true
      → h q ≡ record (known q) { flink = (h q).flink; blink = (h q).blink }

take-length : (xs : List ℕ) → take (length xs) xs ≡ xs
take-length [] = refl
take-length (x ∷ xs) = ap (λ l. x ∷ l) (take-length xs)

payload_trans :
    (a b c : Pfn)
    → b ≡ record a { flink = b.flink; blink = b.blink }
    → c ≡ record b { flink = c.flink; blink = c.blink }
    → c ≡ record a { flink = c.flink; blink = c.blink }
payload_trans a b c d e = ground (arith, d, e)

payload-Keeps :
    (a b : Pfn)
    → b ≡ record a { flink = b.flink; blink = b.blink }
    → (b.pte ≡ a.pte)
      × (b.disk_index ≡ a.disk_index)
      × (b.status ≡ a.status)
      × (b.reserved ≡ a.reserved)
payload-Keeps a b e = (
  ap (λ (r : Pfn). r.pte) e,
  ap (λ (r : Pfn). r.disk_index) e,
  ap (λ (r : Pfn). r.status) e,
  ap (λ (r : Pfn). r.reserved) e,
)

module _ (list : PageList) (temp x : ℕ) (xs : List ℕ) (known h : Heap)
    (c : IsCollected list temp (x ∷ xs) known h) where
  abbrev joined : Heap
  joined = splice_to_tail h list.head temp

  joined_lists :
      IsList joined list.head (c.pages ++ x ∷ xs)
      × SameBut (list.head ∷ (h list.head).blink ∷ (h temp).flink ∷ (h temp).blink ∷ []) h joined
  joined_lists =
      splice_to_tail_lem h list.head temp c.pages x xs c.is c.from (ground (arith, c.apart))

  ends_off :
      (q : ℕ)
      → has q (list.head ∷ c.pages ++ x ∷ xs) ≡ false
      → has q (list.head ∷ (h list.head).blink ∷ (h temp).flink ∷ (h temp).blink ∷ []) ≡ false
  ends_off q off =
      let last = Seg-last h x xs temp c.from.ring.2 in
      let tail = Seg-last h list.head c.pages list.head c.is.ring in
      let both = has-append q c.pages (x ∷ xs) in
      let out : has q (list.head ∷ c.pages) ≡ false = ground (arith, off, both) in
      let out' : has q (x ∷ xs) ≡ false = ground (arith, off, both) in
      let ne_tail : (h list.head).blink ≢ q =
        has-ne (h list.head).blink q (list.head ∷ c.pages) tail out in
      let ne_last : (h temp).blink ≢ q = has-ne (h temp).blink q (x ∷ xs) last out' in
      ground (arith, out, out', ne_tail, ne_last, c.from.ring.0)

  temp_off :
      has temp (list.head ∷ (h list.head).blink ∷ (h temp).flink ∷ (h temp).blink ∷ []) ≡ false
  temp_off = ends_off temp (ground (arith, c.apart))

  pub joined-elsewhere : (q : ℕ) → has q (list.head ∷ c.pages ++ x ∷ xs) ≡ false → joined q ≡ h q
  joined-elsewhere q off = joined_lists.1.same q (ends_off q off)

  pub joined-IsJoined : IsJoined list temp c.pages (x ∷ xs) known joined
  joined-IsJoined = record {
    is = joined_lists.0;
    walk =
        let at : (joined temp).flink ≡ x =
          ap (λ r. r.flink) (joined_lists.1.same temp temp_off) ∙ c.from.ring.0 in
        let (s, t) = Seg-split joined list.head c.pages x xs list.head joined_lists.0.ring in
        let walk = along-Seg joined x xs list.head (length xs) t in
        let all : take (length xs) xs ≡ xs = take-length xs in
        rw at (ap (λ l. x ∷ l) (rw all at walk));
    held = λ q m. payload_trans (known q) (h q) (joined q) (c.held q m) (joined_lists.1.payload q);
  }

-- While others act at the waits, short of breaking either list: joining the temporary list's batch
-- to another list returns once the head and the page before it are unlocked at one of its attempts,
-- with the batch behind the pages that this attempt found on the list.
pub insert_list_to_tail_list-IsJoined :
    (others : ℕ → Heap → Heap) (k fuel : ℕ) (list : PageList) (temp x : ℕ) (xs : List ℕ)
    (known h : Heap)
    → IsCollected list temp (x ∷ xs) known h
    → ((n : ℕ) (g : Heap)
        → IsCollected list temp (x ∷ xs) known g
        → IsCollected list temp (x ∷ xs) known (others n g))
    → k < fuel
    → is_open list (found others 0 k h) ≡ true
    → (j : ℕ) × (g : Heap) × (pages : List ℕ) × (j ≤ k)
      × (insert_list_to_tail_list others fuel list temp h ≡ some (done g))
      × IsList (found others 0 j h) list.head pages
      × Keeps (found others 0 j h) g
      × ((q : ℕ) → has q (list.head ∷ pages ++ x ∷ xs) ≡ false → g q ≡ found others 0 j h q)
      × IsJoined list temp pages (x ∷ xs) known g
insert_list_to_tail_list-IsJoined others k fuel list temp x xs known h c kept lt e =
    let (j, le, opened, run) = insert_list_to_tail_list_lem others k fuel list temp h lt e in
    let at = found-keeps (IsCollected list temp (x ∷ xs) known) others kept 0 j h c in
    let g : Heap = found others 0 j h in
    let lists = joined_lists list temp x xs known g at in
    (
      j,
      splice_to_tail g list.head temp,
      at.pages,
      le,
      run,
      at.is,
      λ q. payload-Keeps (g q) (splice_to_tail g list.head temp q) (lists.1.payload q),
      joined-elsewhere list temp x xs known g at,
      joined-IsJoined list temp x xs known g at,
    )
