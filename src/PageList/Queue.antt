-- ===== src/PageList/Queue.antt =====
-- A page list as a queue: what the routines on the links promise of any sequence of their calls.
use memory_manager.Base.{
  ℕ, ◌≡◌, refl, ap, ◌∙◌, true, false, Bool, not, arith, ◌==◌, if◌then◌else◌, ◌&&◌, List, [], ◌∷◌,
  ◌++◌, has, is_nil, ℕ_discrete,
}
use memory_manager.Pfn.{Heap}
use memory_manager.PageList.{
  PageList, insert_to_list_tail, remove_page_from_list, remove_from_head_of_list,
  is_page_list_empty,
}
use memory_manager.PageList.Ring.{IsList}
use memory_manager.PageList.Walk.{is_page_list_empty-IsList}
use memory_manager.PageList.Edit.{insert_to_list_tail_lem, remove_page_from_list_lem}

pub data Call : Type 0 where
  insert : (page : ℕ) → Call
  pop : Call
  unlink : (page : ℕ) → Call

-- What a call reports: the page that was popped, and whether `remove_page_from_list` returned TRUE.
pub data Report : Type 0 where
  done : Report
  popped : (page : ℕ) → Report
  unlinked : (emptied : Bool) → Report

abbrev pub without : ℕ → List ℕ → List ℕ
without p [] = []
without p (x ∷ xs) = if x == p then xs else x ∷ without p xs

-- The queue: its pages in order.
abbrev pub on_queue : Call → List ℕ → List ℕ × Report
on_queue (insert p) xs = (xs ++ p ∷ [], done)
on_queue pop [] = ([], done)
on_queue pop (x ∷ xs) = (xs, popped x)
on_queue (unlink p) xs = (without p xs, unlinked (is_nil (without p xs)))

-- Only a page that is not on the queue is inserted, only one that is on it is unlinked, and an
-- empty queue is not popped.
abbrev pub allowed : (head : ℕ) → Call → List ℕ → Bool
allowed head (insert p) xs = not (has p (head ∷ xs))
allowed head pop xs = not (is_nil xs)
allowed head (unlink p) xs = has p xs

-- The routines of the code.
abbrev pub on_heap : (head : ℕ) → Call → Heap → Heap × Report
on_heap head (insert p) h = (insert_to_list_tail h head p, done)
on_heap head pop h = let (h', page) = remove_from_head_of_list h head in (h', popped page)
on_heap head (unlink p) h = let (h', emptied) = remove_page_from_list h p in (h', unlinked emptied)

split :
    (p : ℕ) (zs : List ℕ)
    → has p zs ≡ true
    → (xs : List ℕ) × (ys : List ℕ) × (zs ≡ xs ++ p ∷ ys) × (without p zs ≡ xs ++ ys)
split p [] m = cc
split p (z ∷ zs) m = elim (ℕ_discrete z p) [
  | yes e ↦ ([], zs, ap (λ q. q ∷ zs) e, ground arith)
  | no ne ↦
      let (xs, ys, e, f) = split p zs (ground arith) in
      (z ∷ xs, ys, ap (λ l. z ∷ l) e, ground (arith, f))
]

pop-unlink :
    (h : Heap) (head x : ℕ) (xs : List ℕ)
    → IsList h head (x ∷ xs)
    → remove_from_head_of_list h head ≡ ((remove_page_from_list h x).0, x)
unfolding remove_from_head_of_list remove_page_from_list
pop-unlink h head x xs is = let e = is.ring.0 in let f = is.ring.1 in rw (e, f) refl

flag : (b : Bool) (xs : List ℕ) → (b ≡ true → xs ≡ []) → (xs ≡ [] → b ≡ true) → b ≡ is_nil xs
flag b [] f g = g refl
flag true (x ∷ xs) f g = let e = f refl in cc
flag false (x ∷ xs) f g = refl

one_call :
    (head : ℕ) (call : Call) (h : Heap) (xs : List ℕ)
    → IsList h head xs
    → allowed head call xs ≡ true
    → IsList (on_heap head call h).0 head (on_queue call xs).0
      × ((on_heap head call h).1 ≡ (on_queue call xs).1)
one_call head (insert p) h xs is ok =
    ((insert_to_list_tail_lem h head p xs is (ground (arith, ok))).0, refl)
one_call head pop h [] is ok = cc
one_call head pop h (x ∷ xs) is ok =
    let e = pop-unlink h head x xs is in
    rw e ((remove_page_from_list_lem h head x [] xs is).0, refl)
one_call head (unlink p) h zs is ok =
    let (xs, ys, e, f) = split p zs ok in
    let gone = remove_page_from_list_lem h head p xs ys (rw e at is) in
    rw f (
      gone.0,
      ap (λ b. unlinked b) (flag (remove_page_from_list h p).1 (xs ++ ys) gone.2.0 gone.2.1),
    )

abbrev pub all_on_queue : List Call → List ℕ → List ℕ × List Report
all_on_queue [] xs = (xs, [])
all_on_queue (call ∷ calls) xs =
    let (ys, report) = on_queue call xs in
    let (zs, reports) = all_on_queue calls ys in (zs, report ∷ reports)

abbrev pub all_allowed : (head : ℕ) → List Call → List ℕ → Bool
all_allowed head [] xs = true
all_allowed head (call ∷ calls) xs =
    allowed head call xs && all_allowed head calls (on_queue call xs).0

abbrev pub all_on_heap : (head : ℕ) → List Call → Heap → Heap × List Report
all_on_heap head [] h = (h, [])
all_on_heap head (call ∷ calls) h =
    let (h', report) = on_heap head call h in
    let (h'', reports) = all_on_heap head calls h' in (h'', report ∷ reports)

-- Through any sequence of insertions at the tail, removals from the front and removals of one page, none of them on
-- a page that is on the list already, or is not on it, or on an empty list, the links in memory implement a queue: they report
-- what the queue does, hold its pages in order, and pass for empty just when it is empty.
pub queue_refinement :
    (list : PageList) (calls : List Call) (h : Heap) (xs : List ℕ)
    → IsList h list.head xs
    → all_allowed list.head calls xs ≡ true
    → IsList (all_on_heap list.head calls h).0 list.head (all_on_queue calls xs).0
      × ((all_on_heap list.head calls h).1 ≡ (all_on_queue calls xs).1)
      × (is_page_list_empty (all_on_heap list.head calls h).0 list
          ≡ is_nil (all_on_queue calls xs).0)
queue_refinement list [] h xs is ok = (is, refl, is_page_list_empty-IsList h list xs is)
queue_refinement list (call ∷ calls) h xs is ok =
    let one = one_call list.head call h xs is (ground (arith, ok)) in
    let (rest, same, empty) =
      queue_refinement list calls (on_heap list.head call h).0 (on_queue call xs).0 one.0
        (ground (arith, ok)) in
    (
      rest,
      ap (λ r. r ∷ (all_on_heap list.head calls (on_heap list.head call h).0).1) one.1
          ∙ ap (λ l. (on_queue call xs).1 ∷ l) same,
      empty,
    )
