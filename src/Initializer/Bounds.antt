-- ===== src/Initializer/Bounds.antt =====
-- The bounds on the frame numbers.
use memory_manager.Base.{ℕ, ◌≤◌, ◌≡◌, true, max, min, List, [], ◌∷◌, has, arith}
use memory_manager.Initializer.{frame_bounds}

bounds-grow :
    (frames : List ℕ) (hi lo : ℕ)
    → (hi ≤ (frame_bounds frames hi lo).0) × ((frame_bounds frames hi lo).1 ≤ lo)
unfolding frame_bounds
bounds-grow [] hi lo = omega arith
bounds-grow (f ∷ fs) hi lo = let r = bounds-grow fs (max hi f) (min lo f) in omega (arith, r)

-- Every number is within the bounds.
pub frame_bounds_lem :
    (frames : List ℕ) (hi lo f : ℕ)
    → has f frames ≡ true
    → (f ≤ (frame_bounds frames hi lo).0) × ((frame_bounds frames hi lo).1 ≤ f)
unfolding frame_bounds
frame_bounds_lem [] hi lo f m = cc
frame_bounds_lem (g ∷ gs) hi lo f m =
    ground
      (arith, bounds-grow gs (max hi g) (min lo g), frame_bounds_lem gs (max hi g) (min lo g) f)
