-- ===== src/Tests/Prunes.antt =====
-- Runs of the pruner.
use memory_manager.Base.{
  ℕ, Bool, List, ◌+◌, ◌≤◌, ◌≡◌, refl, false, some, arith, [], ◌∷◌, ◌==◌, ◌||◌, ltb, if◌then◌else◌,
  length, take, drop,
}
use memory_manager.System.{System}
use memory_manager.PageList.Ring.{IsList}
use memory_manager.FaultHandler.Standby.{AreOwned}
use memory_manager.Pruner.{prune_pages}
use memory_manager.Pruner.Deal.{IsDealable}
use memory_manager.Pruner.Taken.{IsPruneRun}
use memory_manager.Pruner.Run.{prune_pages_lem}
use memory_manager.Pruner.Lost.{IsPruned, prune_pages-lost}
use memory_manager.Tests.{linked}
use memory_manager.Tests.Rescues.{standby_system, example_owner, pages-AreOwned, both-IsList, quiet}

-- The heads of the temporary lists.
abbrev temps : ℕ → ℕ
temps i = 2000 + i

abbrev none_low : ℕ → Bool
none_low i = false

prune_pages-lost_example :
    (n : ℕ) × (s' : System) × (prune_pages quiet 1 temps none_low standby_system
      ≡ some (s', none_low, 0))
    × (1 ≤ n)
    × (n ≤ 256)
    × IsPruned standby_system s' example_owner n (7 ∷ 9 ∷ [])
prune_pages-lost_example =
    prune_pages-lost quiet 1 temps none_low standby_system example_owner 7 (9 ∷ []) (λ i. refl) refl
      both-IsList refl (refl, (refl, tt)) (omega arith) pages-AreOwned

-- The first two free lists are empty and marked low.
abbrev low_system : System
low_system = record standby_system {
  heap = λ q.
      if q == 1003
      then linked 1003 1003
      else if q == 1004
      then linked 1004 1004
      else standby_system.heap q;
}

abbrev two_low : ℕ → Bool
two_low i = (i == 0) || (i == 1)

abbrev no_pages : ℕ → List ℕ
no_pages i = []

abbrev two_pages : List ℕ
two_pages = 7 ∷ 9 ∷ []

low-AreOwned : AreOwned low_system example_owner two_pages
low-AreOwned = record {
  owned = λ q m. ground arith;
  in_range = λ q m. ground arith;
  apart = λ q r mq mr e. ground arith;
}

low-IsList : IsList low_system.heap 1001 two_pages
low-IsList = record { ring = (refl, refl, (refl, refl, (refl, refl))); apart = refl }

low-IsDealable : IsDealable low_system temps no_pages (0 ∷ 1 ∷ []) (1001 ∷ 7 ∷ 9 ∷ []) 1001
low-IsDealable = record {
  lists = λ i m. record { ring = ground (arith, m); apart = refl };
  opened = λ i m. ground (arith, m);
  apart = λ i k m. ground (arith, m);
  separate = λ i j q mi mj ne on. ground (arith, mi, mj, ne, on);
  different = refl;
  walk = refl;
}

prune_pages_example :
    (n : ℕ) × (s' : System) × (low' : ℕ → Bool) × (prune_pages quiet 1 temps two_low low_system
      ≡ some (s', low', length (take n two_pages)))
    × (1 ≤ n)
    × (n ≤ 256)
    × ((j : ℕ) → low' j ≡ (if ltb j 16 then false else two_low j))
    × IsPruneRun low_system s' example_owner no_pages
        (0 ∷ 1 ∷ [])
        (take n two_pages)
        (drop n two_pages)
prune_pages_example =
    prune_pages_lem quiet 1 temps two_low low_system example_owner 7 (9 ∷ []) no_pages 0 (1 ∷ [])
      refl refl (λ n g. refl) (omega arith) low-IsList refl (refl, (refl, tt)) (omega arith)
      low-AreOwned low-IsDealable
