-- ===== src/Pruner/Deal.antt =====
-- The pruner deals its batch to the free lists that are marked low.
use memory_manager.Base.{
  ℕ, ◌+◌, ◌≡◌, ◌≢◌, refl, true, false, arith, some, if◌then◌else◌, ◌==◌, List, [], ◌∷◌, ◌++◌, has,
  distinct, length, take, drop, is_nil, update,
}
use memory_manager.Pfn.{Heap}
use memory_manager.PageList.{initialize_list_head, change_list_size}
use memory_manager.PageList.Ring.{IsList}
use memory_manager.PageList.Attempts.{done}
use memory_manager.PageList.Locked.{insert_list_to_tail_list}
use memory_manager.PageList.Joins.{is_open}
use memory_manager.PageList.Walk.{along}
use memory_manager.System.{System}
use memory_manager.Pruner.{fill_temp, fill_lists}

-- The number of pages for the first of the lists still to fill.
abbrev pub share_size : (small extra : ℕ) → (rest : List ℕ) → ℕ
share_size small extra rest = if is_nil rest then small + extra else small

abbrev pub total : (small extra : ℕ) → List ℕ → ℕ
total small extra [] = 0
total small extra (j ∷ rest) = share_size small extra rest + total small extra rest

-- The share of the list with index `i`.
abbrev pub share_of : (small extra : ℕ) → List ℕ → (batch : List ℕ) → (i : ℕ) → List ℕ
share_of small extra [] batch i = []
share_of small extra (j ∷ rest) batch i =
    if i == j
    then take (share_size small extra rest) batch
    else share_of small extra rest (drop (share_size small extra rest) batch) i

-- The free lists to fill, each with its pages, the heads of the temporary lists and the batch share
-- no record; the lists' heads and last pages are unlocked; and the links lead along the batch.
pub record IsDealable (s : System) (temps : ℕ → ℕ) (pages : ℕ → List ℕ) (todo batch : List ℕ)
    (first : ℕ) : Type 0 where
  pub lists : (i : ℕ) → has i todo ≡ true → IsList s.heap (s.free_lists.list_array i).head (pages i)
  pub opened : (i : ℕ) → has i todo ≡ true → is_open (s.free_lists.list_array i) s.heap ≡ true
  pub apart :
      (i k : ℕ)
      → has i todo ≡ true
      → distinct (temps k ∷ (s.free_lists.list_array i).head ∷ pages i ++ batch) ≡ true
  pub separate :
      (i j q : ℕ)
      → has i todo ≡ true
      → has j todo ≡ true
      → i ≢ j
      → has q ((s.free_lists.list_array i).head ∷ pages i) ≡ true
      → has q ((s.free_lists.list_array j).head ∷ pages j) ≡ false
  pub different : distinct todo ≡ true
  pub walk : along s.heap first (length batch) ≡ batch

-- Each list has its share at its end, and no other record has changed.
pub record AreDealt (s s' : System) (temps : ℕ → ℕ) (pages : ℕ → List ℕ) (small extra : ℕ)
    (todo batch : List ℕ) : Type 0 where
  pub lists :
      (i : ℕ)
      → has i todo ≡ true
      → IsList s'.heap
          (s.free_lists.list_array i).head
          (pages i ++ share_of small extra todo batch i)
  pub elsewhere :
      (q : ℕ)
      → has q batch ≡ false
      → ((k : ℕ) → q ≢ temps k)
      → ((i : ℕ) → has i todo ≡ true → has q ((s.free_lists.list_array i).head ∷ pages i) ≡ false)
      → s'.heap q ≡ s.heap q
  pub rest : s' ≡ record s { heap = s'.heap; free_lists = s'.free_lists }

abbrev pub skipped : System → (temp : ℕ) → System
skipped s temp = record s { heap = initialize_list_head s.heap temp }

abbrev pub filled : System → (index n : ℕ) → Heap → System
filled s index n g = record s {
  heap = g;
  free_lists = record (s.free_lists) {
    list_array =
        update s.free_lists.list_array index (change_list_size (s.free_lists.list_array index) n);
  };
}

pub fill_nil :
    (others : ℕ → Heap → Heap) (fuel : ℕ) (temps : ℕ → ℕ) (small extra i first : ℕ) (s : System)
    → fill_lists others fuel temps small extra i first [] s ≡ some s
unfolding fill_lists
fill_nil others fuel temps small extra i first s = refl

pub fill-skip :
    (others : ℕ → Heap → Heap) (fuel : ℕ) (temps : ℕ → ℕ) (small extra i first index : ℕ)
    (rest : List ℕ) (s : System)
    → share_size small extra rest ≡ 0
    → fill_lists others fuel temps small extra i first (index ∷ rest) s
      ≡ fill_lists others fuel temps small extra (i + 1) first rest (skipped s (temps i))
unfolding fill_lists
fill-skip others fuel temps small extra i first index rest s e = ground (arith, e)

pub fill-one :
    (others : ℕ → Heap → Heap) (fuel : ℕ) (temps : ℕ → ℕ) (small extra i first index n : ℕ)
    (rest : List ℕ) (s : System) (h g : Heap) (next : ℕ)
    → share_size small extra rest ≡ n
    → n ≢ 0
    → fill_temp n first (temps i) (initialize_list_head s.heap (temps i)) ≡ (h, next)
    → insert_list_to_tail_list others fuel (s.free_lists.list_array index) (temps i) h
      ≡ some (done g)
    → fill_lists others fuel temps small extra i first (index ∷ rest) s
      ≡ fill_lists others fuel temps small extra (i + 1) next rest (filled s index n g)
unfolding fill_lists
fill-one others fuel temps small extra i first index n rest s h g next e pos run join =
    ground (arith, e, pos, run, join)
