-- ===== src/Base/Lists.antt =====
-- Lists measured and indexed by native numbers, under the library's names, with membership as a
-- test, and the lemmas on them that the components share.
use Prim.Native.Nat.{ℕ, zero, suc, ◌+◌, ◌<◌, min}
use mathlib.Core.Path.{◌≡◌, refl, ap, sym, subst}
use native.Mathlib.Decide.{ℕ_discrete}
use mathlib.Core.Logic.{◌≢◌, ◌⊎◌, inl, inr}
use mathlib.Core.Bool.{Bool, true, false, ◌&&◌, ◌||◌, not}
use mathlib.Core.List.{List, [], ◌∷◌, ◌++◌}
use mathlib.Core.Option.{Option, none, some}
use native.Mathlib.Omega.{arith}
use memory_manager.Base.Tests.{◌==◌, Bool-cases}

module _ {ℓ} {A : Type ℓ} where
  abbrev pub length : List A → ℕ
  length [] = 0
  length (x ∷ xs) = suc (length xs)

  abbrev pub get_elem? : List A → ℕ → Option A
  get_elem? [] i = none
  get_elem? (x ∷ xs) zero = some x
  get_elem? (x ∷ xs) (suc i) = get_elem? xs i

  abbrev pub get_or : List A → ℕ → A → A
  get_or [] i d = d
  get_or (x ∷ xs) zero d = x
  get_or (x ∷ xs) (suc i) d = get_or xs i d

  -- A write out of bounds changes nothing.
  abbrev pub set : List A → ℕ → A → List A
  set [] i v = []
  set (x ∷ xs) zero v = v ∷ xs
  set (x ∷ xs) (suc i) v = x ∷ set xs i v

  abbrev pub take : ℕ → List A → List A
  take zero xs = []
  take (suc n) [] = []
  take (suc n) (x ∷ xs) = x ∷ take n xs

  abbrev pub drop : ℕ → List A → List A
  drop zero xs = xs
  drop (suc n) [] = []
  drop (suc n) (x ∷ xs) = drop n xs

  abbrev pub replicate : ℕ → A → List A
  replicate zero a = []
  replicate (suc n) a = a ∷ replicate n a

  abbrev pub All {κ} : (A → Type κ) → List A → Type κ
  All P [] = Unit
  All P (x ∷ xs) = P x × All P xs

module _ {ℓ} {A : Type ℓ} where
  pub length-append : (xs ys : List A) → length (xs ++ ys) ≡ length xs + length ys
  length-append [] ys = omega arith
  length-append (x ∷ xs) ys = omega (arith, length-append xs ys)

  pub length-set : (xs : List A) (i : ℕ) (v : A) → length (set xs i v) ≡ length xs
  length-set [] i v = refl
  length-set (x ∷ xs) zero v = refl
  length-set (x ∷ xs) (suc i) v = ap suc (length-set xs i v)

  pub length-replicate : (n : ℕ) (a : A) → length (replicate n a) ≡ n
  length-replicate zero a = refl
  length-replicate (suc n) a = ap suc (length-replicate n a)

  pub length-take : (n : ℕ) (xs : List A) → length (take n xs) ≡ min n (length xs)
  length-take zero xs = omega arith
  length-take (suc n) [] = omega arith
  length-take (suc n) (x ∷ xs) = omega (arith, length-take n xs)

  pub take-append-drop : (n : ℕ) (xs : List A) → take n xs ++ drop n xs ≡ xs
  take-append-drop zero xs = refl
  take-append-drop (suc n) [] = refl
  take-append-drop (suc n) (x ∷ xs) = ap (λ l. x ∷ l) (take-append-drop n xs)

  pub get_or-set_self :
      (xs : List A) (i : ℕ) (v d : A) → i < length xs → get_or (set xs i v) i d ≡ v
  get_or-set_self [] i v d h = elim h [ ]
  get_or-set_self (x ∷ xs) zero v d h = refl
  get_or-set_self (x ∷ xs) (suc i) v d h = get_or-set_self xs i v d (omega arith)

  pub get_or-set_ne :
      (xs : List A) (i j : ℕ) (v d : A) → i ≢ j → get_or (set xs i v) j d ≡ get_or xs j d
  get_or-set_ne [] i j v d h = refl
  get_or-set_ne (x ∷ xs) zero zero v d h = absurd (h refl)
  get_or-set_ne (x ∷ xs) zero (suc j) v d h = refl
  get_or-set_ne (x ∷ xs) (suc i) zero v d h = refl
  get_or-set_ne (x ∷ xs) (suc i) (suc j) v d h = get_or-set_ne xs i j v d (λ e. h (ap suc e))

  -- A list is empty or has a last element.
  pub snoc-cases : (xs : List A) → (xs ≡ []) ⊎ ((ys : List A) × (y : A) × (xs ≡ ys ++ y ∷ []))
  snoc-cases [] = inl refl
  snoc-cases (x ∷ xs) = elim (snoc-cases xs) [
    | inl e ↦ inr ([], x, ap (λ l. x ∷ l) e)
    | inr (ys, y, e) ↦ inr (x ∷ ys, y, ap (λ l. x ∷ l) e)
  ]

-- Membership and distinctness of addresses, as tests.
abbrev pub is_nil : List ℕ → Bool
is_nil [] = true
is_nil (x ∷ xs) = false

abbrev pub has : ℕ → List ℕ → Bool
has a [] = false
has a (x ∷ xs) = (a == x) || has a xs

abbrev pub distinct : List ℕ → Bool
distinct [] = true
distinct (x ∷ xs) = not (has x xs) && distinct xs

pub has-append : (a : ℕ) (xs ys : List ℕ) → has a (xs ++ ys) ≡ (has a xs || has a ys)
has-append a [] ys = refl
has-append a (x ∷ xs) ys = ground (arith, has-append a xs ys)

pub distinct-append :
    (xs ys : List ℕ) → distinct (xs ++ ys) ≡ true → (distinct xs ≡ true) × (distinct ys ≡ true)
distinct-append [] ys h = (refl, h)
distinct-append (x ∷ xs) ys h = ground (arith, distinct-append xs ys, has-append x xs ys)

pub has-append_apart :
    (xs ys : List ℕ) (a : ℕ) → distinct (xs ++ ys) ≡ true → has a xs ≡ true → has a ys ≡ false
has-append_apart [] ys a h m = absurd (ground arith)
has-append_apart (x ∷ xs) ys a h m =
    ground (arith, has-append x xs ys, has-append_apart xs ys a, ==-to-eq a x)
  where
    ==-to-eq : (b c : ℕ) → (b == c) ≡ true → b ≡ c
    ==-to-eq b c e = ground arith

pub has-ne : (a b : ℕ) (xs : List ℕ) → has a xs ≡ true → has b xs ≡ false → a ≢ b
has-ne a b [] h k e = ground arith
has-ne a b (x ∷ xs) h k e = ground (arith, has-ne a b xs)

pub distinct-mid :
    (xs : List ℕ) (y : ℕ) (ys : List ℕ)
    → distinct (xs ++ y ∷ ys) ≡ true
    → (distinct (xs ++ ys) ≡ true) × (has y (xs ++ ys) ≡ false)
distinct-mid [] y ys h = ground arith
distinct-mid (x ∷ xs) y ys h =
    ground (arith, distinct-mid xs y ys, has-append x xs ys, has-append x xs (y ∷ ys))

pub distinct-snoc :
    (xs : List ℕ) (y : ℕ) → distinct xs ≡ true → has y xs ≡ false → distinct (xs ++ y ∷ []) ≡ true
distinct-snoc [] y h k = refl
distinct-snoc (x ∷ xs) y h k = ground (arith, distinct-snoc xs y, has-append x xs (y ∷ []))

pub All-map {ℓ κ κ'} :
    {A : Type ℓ} {P : A → Type κ} {Q : A → Type κ'} (xs : List A)
    → ((x : A) → P x → Q x)
    → All P xs
    → All Q xs
All-map [] f h = tt
All-map (x ∷ xs) f h = (f x h.0, All-map xs f h.1)

pub distinct-second :
    (a b : ℕ) (xs : List ℕ)
    → distinct (a ∷ xs) ≡ true
    → has b (a ∷ xs) ≡ false
    → distinct (a ∷ b ∷ xs) ≡ true
distinct-second a b xs d n = ground arith

pub All-with {κ κ'} :
    {P : ℕ → Type κ} {Q : ℕ → Type κ'} (xs : List ℕ)
    → ((x : ℕ) → has x xs ≡ true → P x → Q x)
    → All P xs
    → All Q xs
All-with [] f h = tt
All-with (x ∷ xs) f h =
    (f x (ground arith) h.0, All-with xs (λ y m p. f y (ground (arith, m)) p) h.1)

pub All-has {κ} : (P : ℕ → Type κ) (xs : List ℕ) (q : ℕ) → All P xs → has q xs ≡ true → P q
All-has P [] q a m = absurd (ground arith)
All-has P (x ∷ xs) q a m = elim (ℕ_discrete q x) [
  | yes e ↦ subst P (sym e) a.0
  | no ne ↦ All-has P xs q a.1 (ground (arith, m, ne))
]

pub All-of {κ} : (P : ℕ → Type κ) (xs : List ℕ) → ((q : ℕ) → has q xs ≡ true → P q) → All P xs
All-of P [] f = tt
All-of P (x ∷ xs) f = (f x (ground arith), All-of P xs (λ q m. f q (ground (arith, m))))

pub has-take : (q n : ℕ) (xs : List ℕ) → has q (take n xs) ≡ true → has q xs ≡ true
has-take q zero xs m = absurd (ground (arith, m))
has-take q (suc n) [] m = m
has-take q (suc n) (x ∷ xs) m = ground (arith, m, has-take q n xs)

pub apart_front :
    (xs ys : List ℕ) (a : ℕ) → distinct (xs ++ ys) ≡ true → has a ys ≡ true → has a xs ≡ false
apart_front xs ys a d m = elim (Bool-cases (has a xs)) [
  | inr off ↦ off
  | inl on ↦ absurd (ground (arith, has-append_apart xs ys a d on, m))
]

pub has-take_off : (q n : ℕ) (xs : List ℕ) → has q xs ≡ false → has q (take n xs) ≡ false
has-take_off q n xs off = ground (arith, off, has-take q n xs)
