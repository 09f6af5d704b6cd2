-- ===== src/Initializer/Counts.antt =====
-- How many pages are on the sixteen free lists while the threads' caches are filled.
use memory_manager.Base.{
  ℕ, zero, suc, ◌+◌, ◌%◌, ◌^◌, ◌<◌, ◌≤◌, ◌≡◌, ◌≢◌, update_self, update-ne, refl, sym, ap, ◌∙◌,
  arith, update, ◌==◌, ltb, if◌then◌else◌, List, [], ◌∷◌, length, take, drop, length-take,
  length-append, take-append-drop, ℕ_discrete,
}
use memory_manager.PageList.{neg64}
use memory_manager.Initializer.{Boot, initialize_shared}
use memory_manager.Initializer.Deal.{share}
use memory_manager.Initializer.Start.{IsSound, started-count}

-- The number of pages on the first `n` lists.
unfoldable pub listed_pages : (ls : ℕ → List ℕ) → (n : ℕ) → ℕ
listed_pages ls zero = 0
listed_pages ls (suc n) = listed_pages ls n + length (ls n)

listed_pages-grown :
    (f g : ℕ → List ℕ) (m k n : ℕ)
    → ((j : ℕ) → length (f j) ≡ length (g j) + (if k == j then m else 0))
    → listed_pages f n ≡ listed_pages g n + (if ltb k n then m else 0)
unfolding listed_pages
listed_pages-grown f g m k zero e = ground arith
listed_pages-grown f g m k (suc n) e = ground (arith, listed_pages-grown f g m k n e, e n)

taken_length : (xs : List ℕ) → length xs ≡ length (drop 64 xs) + length (take 64 xs)
taken_length xs =
    ap length (sym (take-append-drop 64 xs)) ∙ length-append (take 64 xs) (drop 64 xs) ∙ omega arith

added_here : (k a b c : ℕ) → a ≡ b + c → a ≡ b + (if k == k then c else 0)
added_here k a b c e = ground (arith, e)

added_elsewhere : (k j a c : ℕ) → j ≢ k → a ≡ a + (if k == j then c else 0)
added_elsewhere k j a c ne = ground (arith, ne)

dropped_length :
    (ls : ℕ → List ℕ) (k j : ℕ)
    → length (ls j)
      ≡ length (update ls k (drop 64 (ls k)) j) + (if k == j then length (take 64 (ls k)) else 0)
dropped_length ls k j = elim (ℕ_discrete j k) [
  | yes e ↦
      rw (e, update_self ls k (drop 64 (ls k)))
        (added_here k (length (ls k)) (length (drop 64 (ls k))) (length (take 64 (ls k)))
          (taken_length (ls k)))
  | no ne ↦
      rw (update-ne ls k j (drop 64 (ls k)) ne)
        (added_elsewhere k j (length (ls j)) (length (take 64 (ls k))) ne)
]

lowered :
    (k total rest t count count' : ℕ)
    → k < 16
    → total ≡ rest + (if ltb k 16 then t else 0)
    → t ≤ 64
    → count ≡ total % 2 ^ 64
    → count' ≡ (count + neg64 t) % 2 ^ 64
    → count' ≡ rest % 2 ^ 64
lowered k total rest t count count' lt sum few e e' =
    let sum' : total ≡ rest + t = ground (arith, lt, sum) in omega (arith, sum', few, e, e')

-- The count of free pages goes down by what a thread takes.
pub serve-free_count :
    (ls : ℕ → List ℕ) (k count count' : ℕ)
    → k < 16
    → count ≡ listed_pages ls 16 % 2 ^ 64
    → count' ≡ (count + neg64 (length (take 64 (ls k)))) % 2 ^ 64
    → count' ≡ listed_pages (update ls k (drop 64 (ls k))) 16 % 2 ^ 64
serve-free_count ls k count count' lt before e =
    let sum =
      listed_pages-grown ls (update ls k (drop 64 (ls k))) (length (take 64 (ls k))) k 16
        (dropped_length ls k) in
    lowered k (listed_pages ls 16) (listed_pages (update ls k (drop 64 (ls k))) 16)
      (length (take 64 (ls k))) count count' lt sum (omega (arith, length-take 64 (ls k))) before e

share-grown :
    (k p j : ℕ) (ps : List ℕ)
    → length (share j k (p ∷ ps)) ≡ length (share j ((k + 1) % 16) ps) + (if k == j then 1 else 0)
share-grown k p j ps = ground arith

listed_pages-share :
    (k : ℕ) (ps : List ℕ) → k < 16 → listed_pages (λ j. share j k ps) 16 ≡ length ps
unfolding listed_pages
listed_pages-share k [] lt = refl
listed_pages-share k (p ∷ ps) lt =
    let sum =
      listed_pages-grown (λ j. share j k (p ∷ ps)) (λ j. share j ((k + 1) % 16) ps) 1 k 16
        (λ j. share-grown k p j ps) in
    let rest = listed_pages-share ((k + 1) % 16) ps (omega arith) in sum ∙ ground (arith, rest, lt)

-- Before the first thread all frames are on the free lists.
pub first-free_count :
    (b : Boot)
    → IsSound b
    → (initialize_shared b).free_lists.page_count
      ≡ listed_pages (λ j. share j 0 b.allocated_frame_numbers) 16 % 2 ^ 64
first-free_count b sound =
    started-count b sound
    ∙ ap (λ n. n % 2 ^ 64) (sym (listed_pages-share 0 b.allocated_frame_numbers (omega arith)))
