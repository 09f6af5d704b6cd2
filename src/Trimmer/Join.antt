-- ===== src/Trimmer/Join.antt =====
-- A batch of locked pages on a temporary list joins another list and is unlocked: the last part of
-- `trim_pages` and of `write_pages`.
use memory_manager.Base.{
  ℕ, ◌≡◌, ◌≤◌, ◌<◌, ◌≢◌, refl, ap, ◌∙◌, true, false, some, arith, List, [], ◌∷◌, ◌++◌, has, length,
  has-append, distinct-append,
}
use memory_manager.Pfn.{Pfn, Heap}
use memory_manager.PageList.{PageList, initialize_list_head}
use memory_manager.PageList.Ring.{IsList, Seg-frame}
use memory_manager.PageList.Attempts.{done}
use memory_manager.PageList.Locked.{insert_list_to_tail_list}
use memory_manager.PageList.Tries.{found}
use memory_manager.PageList.Joins.{is_open}
use memory_manager.PageList.Walk.{IsList-links}
use memory_manager.PageList.Publish.{IsCollected, IsJoined, insert_list_to_tail_list-IsJoined}
use memory_manager.System.{System}
use memory_manager.Trimmer.{unlock_batch}
use memory_manager.Trimmer.Unlock.{AreUnlocked, unlock_batch_lem}

-- What others do at the waits spares the list, the batch and the temporary list, and both the head
-- and the page before it are unlocked at attempt `k`.
pub record IsServed (others : ℕ → Heap → Heap) (k : ℕ) (list : PageList) (temp : ℕ) (batch : List ℕ)
    (known : Heap) : Type 0 where
  pub spares :
      (n : ℕ) (g : Heap)
      → IsCollected list temp batch known g
      → IsCollected list temp batch known (others n g)
  pub opens :
      (g : Heap) → IsCollected list temp batch known g → is_open list (found others 0 k g) ≡ true

-- The batch is at the end of the list, in order, every page unlocked and as the known record says
-- in its owner, its slot and its state.
pub record IsPublished (list : PageList) (before batch : List ℕ) (known h : Heap) : Type 0 where
  pub is : IsList h list.head (before ++ batch)
  pub pages :
      (q : ℕ)
      → has q batch ≡ true
      → ((h q).lock ≡ 0)
        × ((h q).pte ≡ (known q).pte)
        × ((h q).disk_index ≡ (known q).disk_index)
        × ((h q).status ≡ (known q).status)

pub empty_head :
    (h : Heap) (temp : ℕ)
    → IsList (initialize_list_head h temp) temp []
      × ((q : ℕ) → q ≢ temp → initialize_list_head h temp q ≡ h q)
unfolding initialize_list_head
empty_head h temp = (record { ring = ground arith; apart = refl }, λ q ne. ground arith)

-- A ring on other addresses survives.
pub IsList-off :
    (h g : Heap) (head : ℕ) (xs : List ℕ)
    → ((q : ℕ) → has q (head ∷ xs) ≡ true → g q ≡ h q)
    → IsList h head xs
    → IsList g head xs
IsList-off h g head xs same is = record {
  ring =
      Seg-frame h g head xs head (λ q m. ap (λ r. r.flink) (same q m))
        (λ q m. ap (λ r. r.blink) (same q m)) is.ring;
  apart = is.apart;
}

-- Joining the batch of a temporary list to a list, and unlocking it.
module _ (others : ℕ → Heap → Heap) (k fuel : ℕ) (list : PageList) (temp x : ℕ) (xs : List ℕ)
    (known : Heap)
    (spares : (n : ℕ) (g : Heap)
      → IsCollected list temp (x ∷ xs) known g
      → IsCollected list temp (x ∷ xs) known (others n g))
    (lt : k < fuel) (held : (q : ℕ) → has q (x ∷ xs) ≡ true → (known q).lock ≡ 1) where
  unlocked-IsPublished :
      (before : List ℕ) (g h : Heap)
      → IsJoined list temp before (x ∷ xs) known g
      → AreUnlocked g (x ∷ xs) h
      → IsPublished list before (x ∷ xs) known h
  unlocked-IsPublished before g h j u = record {
    is = IsList-links g h list.head (before ++ x ∷ xs) u.links j.is;
    pages = λ q m.
        let (pte, slot, status, res) = u.keeps q in
        (
          ground (arith, u.locks q, m),
          pte ∙ ap (λ (r : Pfn). r.pte) (j.held q m),
          slot ∙ ap (λ (r : Pfn). r.disk_index) (j.held q m),
          status ∙ ap (λ (r : Pfn). r.status) (j.held q m),
        );
  }

  unlocked_elsewhere :
      (before : List ℕ) (g h f : Heap)
      → AreUnlocked g (x ∷ xs) h
      → ((q : ℕ) → has q (list.head ∷ before ++ x ∷ xs) ≡ false → g q ≡ f q)
      → (q : ℕ) → has q (list.head ∷ before ++ x ∷ xs) ≡ false
      → h q ≡ f q
  unlocked_elsewhere before g h f u far q off =
      let out : has q (x ∷ xs) ≡ false = ground (arith, off, has-append q before (x ∷ xs)) in
      ground (arith, u.links q, u.keeps q, u.locks q, out) ∙ far q off

  pub join-IsPublished :
      (h₀ : Heap) (r : System)
      → IsCollected list temp (x ∷ xs) known h₀
      → is_open list (found others 0 k h₀) ≡ true
      → (g h : Heap) × (before : List ℕ) × (j : ℕ) × (j ≤ k)
        × IsList (found others 0 j h₀) list.head before
        × (insert_list_to_tail_list others fuel list temp h₀ ≡ some (done g))
        × (unlock_batch (length (x ∷ xs)) (g temp).flink (record r { heap = g })
            ≡ some (record r { heap = h }))
        × ((q : ℕ) → has q (list.head ∷ before ++ x ∷ xs) ≡ false → h q ≡ found others 0 j h₀ q)
        × IsPublished list before (x ∷ xs) known h
  join-IsPublished h₀ r c opened =
      let (j, g, before, le, run, is, keeps, far, joined) =
        insert_list_to_tail_list-IsJoined others k fuel list temp x xs known h₀ c spares lt
          opened in
      let apart = (distinct-append (list.head ∷ before) (x ∷ xs) joined.is.apart).1 in
      let locked = λ (q : ℕ) (m : has q (x ∷ xs) ≡ true).
        ap (λ (r : Pfn). r.lock) (joined.held q m) ∙ held q m in
      let (h, freed, u) =
        unlock_batch_lem (x ∷ xs) (g temp).flink (record r { heap = g }) joined.walk apart locked in
      (
        g,
        h,
        before,
        j,
        le,
        is,
        run,
        freed,
        unlocked_elsewhere before g h (found others 0 j h₀) u far,
        unlocked-IsPublished before g h joined u,
      )
