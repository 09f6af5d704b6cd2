-- ===== src/Writer/Rounds.antt =====
-- The rounds that gather a write batch, on a list that no other thread uses.
use mathlib.Core.Path.{subst}
use memory_manager.Base.{
  ℕ, zero, suc, ◌+◌, ◌-◌, ◌≡◌, ◌≤◌, ◌<◌, refl, sym, ap, ◌∙◌, true, false, some, arith, List, dec_lt,
  take, drop, ℕ_discrete, All-map, [], ◌∷◌, ◌++◌, length, has, length-append, length-take,
  has-append,
}
use mathlib.Core.List.{append_assoc, append-nil}
use memory_manager.Pfn.{Heap}
use memory_manager.PageList.Ring.{IsList}
use memory_manager.PageList.Walk.{AllFree}
use memory_manager.PageList.FirstTry.{
  remove_batch_from_list_head_lem, remove_batch_from_list_head-nil,
}
use memory_manager.System.{System}
use memory_manager.Writer.{Outside, gather_pages}
use memory_manager.Writer.Gather.{
  take-split, drop-split, IsTakenOff, gather-full, gather-miss, gather-last_miss, gather-step,
}
use memory_manager.Writer.OneRound.{behind, starts, starts_writing, behind-IsTakenOff}

has-drop : (q n : ℕ) (xs : List ℕ) → has q xs ≡ false → has q (drop n xs) ≡ false
has-drop q zero xs out = out
has-drop q (suc n) [] out = refl
has-drop q (suc n) (x ∷ xs) out = has-drop q n xs (ground (arith, out))

AllFree-drop : (h : Heap) (n : ℕ) (xs : List ℕ) → AllFree h xs → AllFree h (drop n xs)
AllFree-drop h zero xs a = a
AllFree-drop h (suc n) [] a = tt
AllFree-drop h (suc n) (x ∷ xs) a = AllFree-drop h n xs a.1

AllFree-take : (h : Heap) (n : ℕ) (xs : List ℕ) → AllFree h xs → AllFree h (take n xs)
AllFree-take h zero xs a = tt
AllFree-take h (suc n) [] a = tt
AllFree-take h (suc n) (x ∷ xs) a = (a.0, AllFree-take h n xs a.1)

IsTakenOff-head :
    {s s' : System} {xs taken rest : List ℕ}
    → IsTakenOff s s' xs taken rest
    → s'.modified_list.head ≡ s.modified_list.head
IsTakenOff-head t = ap (λ (u : System). u.modified_list.head) t.same

-- One round behind the other.
IsTakenOff-trans :
    (s s₁ s' : System) (xs t rest t' rest' : List ℕ)
    → IsTakenOff s s₁ xs t rest
    → ((q : ℕ) → has q xs ≡ false → has q rest ≡ false)
    → IsTakenOff s₁ s' rest t' rest'
    → IsTakenOff s s' xs (t ++ t') rest'
IsTakenOff-trans s s₁ s' xs t rest t' rest' one fewer two =
    let head = IsTakenOff-head one in
    record {
      left = rw head at two.left;
      locks = λ q. two.locks q ∙ one.locks q;
      states = λ q. ground (arith, two.states q, one.states q, has-append q t t');
      owners = λ q. two.owners q ∙ one.owners q;
      links = λ q off.
          let out : has q rest ≡ false = fewer q (ground (arith, off)) in
          let off' : has q (s₁.modified_list.head ∷ rest) ≡ false =
            ground (arith, off, out, head) in
          ground (arith, two.links q off', one.links q off);
      same =
          two.same
          ∙ ap
              (λ (u : System). record u {
                heap = s'.heap;
                modified_list = record (u.modified_list) { list_size = s'.modified_list.list_size };
              })
              one.same;
    }

nothing-IsTakenOff :
    (s : System) (xs : List ℕ) → IsList s.heap s.modified_list.head xs → IsTakenOff s s xs [] xs
nothing-IsTakenOff s xs is = record {
  left = is;
  locks = λ q. refl;
  states = λ q. refl;
  owners = λ q. refl;
  links = λ q off. (refl, refl);
  same = refl;
}

-- What the loop ends with, from a batch that wants `wanted` pages more.
abbrev pub Gathers :
    (fuel : ℕ)
    → Outside
    → (target misses : ℕ) → (pages : List ℕ) → System
    → (xs : List ℕ) → (wanted : ℕ) → Type 0
Gathers fuel o target misses pages s xs wanted =
    (s' : System) × (gather_pages fuel o target misses pages s ≡ some (s', pages ++ take wanted xs))
    × IsTakenOff s s' xs (take wanted xs) (drop wanted xs)

full-Gathers :
    (fuel : ℕ) (o : Outside) (target misses : ℕ) (pages : List ℕ) (s : System) (xs : List ℕ)
    → IsList s.heap s.modified_list.head xs
    → target ≤ length pages
    → Gathers fuel o target misses pages s xs (target - length pages)
full-Gathers fuel o target misses pages s xs is full =
    let none_wanted : target - length pages ≡ 0 = omega arith in
    subst (Gathers fuel o target misses pages s xs) (sym none_wanted) (
      s,
      gather-full fuel o target misses pages s full
          ∙ ap (λ l. some (s, l)) (sym (append-nil pages)),
      nothing-IsTakenOff s xs is,
    )

nil-Gathers :
    (fuel : ℕ) (o : Outside) (target misses : ℕ) (pages : List ℕ) (s : System) (wanted : ℕ)
    → IsList s.heap s.modified_list.head []
    → gather_pages fuel o target misses pages s ≡ some (s, pages)
    → Gathers fuel o target misses pages s [] wanted
nil-Gathers fuel o target misses pages s zero is run =
    (s, run ∙ ap (λ l. some (s, l)) (sym (append-nil pages)), nothing-IsTakenOff s [] is)
nil-Gathers fuel o target misses pages s (suc wanted) is run =
    (s, run ∙ ap (λ l. some (s, l)) (sym (append-nil pages)), nothing-IsTakenOff s [] is)

-- On an empty list the loop gives up after five misses.
gather-nil :
    (fuel : ℕ) (o : Outside) (target misses : ℕ) (pages : List ℕ) (s : System)
    → o.shared 0 ≡ true
    → IsList s.heap s.modified_list.head []
    → (s.heap s.modified_list.head).lock ≡ 0
    → misses < 5
    → target + 5 ≤ length pages + misses + fuel
    → gather_pages fuel o target misses pages s ≡ some (s, pages)
gather-nil zero o target misses pages s e is free few enough =
    gather-full zero o target misses pages s (omega arith)
gather-nil (suc fuel) o target misses pages s e is free few enough =
    elim (dec_lt (length pages) target) [
      | no full ↦ gather-full (suc fuel) o target misses pages s (omega arith)
      | yes room ↦
          let wanted : ℕ = target - length pages in
          let run =
            remove_batch_from_list_head-nil o.shared o.others s.modified_list wanted s.heap e is
              free in
          elim (ℕ_discrete (misses + 1) 5) [
            | yes last ↦ gather-last_miss fuel o target misses pages s _ room last run refl
            | no more ↦
                gather-miss fuel o target misses pages s _ room (omega arith) run refl
                ∙ gather-nil fuel o target (misses + 1) pages s e is free (omega arith)
                    (omega arith)
          ]
    ]

cons-Gathers :
    (fuel : ℕ) (o : Outside) (target misses n : ℕ) (pages : List ℕ) (s s₁ : System) (xs : List ℕ)
    → n ≤ target - length pages
    → gather_pages (suc fuel) o target misses pages s
      ≡ gather_pages fuel o target misses (pages ++ take n xs) s₁
    → IsTakenOff s s₁ xs (take n xs) (drop n xs)
    → Gathers fuel o target misses
        (pages ++ take n xs)
        s₁
        (drop n xs)
        (target - length (pages ++ take n xs))
    → Gathers (suc fuel) o target misses pages s xs (target - length pages)
cons-Gathers fuel o target misses n pages s s₁ xs le step one (s', more, two) =
    let wanted : ℕ = target - length pages in
    let grown = length-append pages (take n xs) in
    let e : target - length (pages ++ take n xs) ≡ wanted - length (take n xs) = omega arith in
    let taken : take wanted xs
        ≡ take n xs ++ take (target - length (pages ++ take n xs)) (drop n xs) =
      take-split n wanted xs le ∙ ap (λ v. take n xs ++ take v (drop n xs)) (sym e) in
    let rest : drop wanted xs ≡ drop (target - length (pages ++ take n xs)) (drop n xs) =
      drop-split n wanted xs le ∙ ap (λ v. drop v (drop n xs)) (sym e) in
    (
      s',
      step
          ∙ more
          ∙ ap (λ l. some (s', l))
              (append_assoc pages (take n xs)
                  (take (target - length (pages ++ take n xs)) (drop n xs))
                ∙ ap (λ l. pages ++ l) (sym taken)),
      rw (taken, rest)
          (IsTakenOff-trans s s₁ s' xs (take n xs) (drop n xs) _ _ one
            (λ q off. has-drop q n xs off) two),
    )

-- On a list of unlocked pages that no other thread uses, the loop that gathers a batch ends within
-- the pages that it wants and five rounds more: it takes the pages that are still wanted from the
-- front of the list, or all if there are fewer, in order.
pub gather_pages_lem :
    (fuel : ℕ) (o : Outside) (target misses : ℕ) (pages : List ℕ) (s : System) (xs : List ℕ)
    → o.shared 0 ≡ true
    → IsList s.heap s.modified_list.head xs
    → (s.heap s.modified_list.head).lock ≡ 0
    → AllFree s.heap xs
    → misses < 5
    → target + 5 ≤ length pages + misses + fuel
    → Gathers fuel o target misses pages s xs (target - length pages)
gather_pages_lem zero o target misses pages s xs e is free_head free few enough =
    full-Gathers zero o target misses pages s xs is (omega arith)
gather_pages_lem (suc fuel) o target misses pages s [] e is free_head free few enough =
    nil-Gathers (suc fuel) o target misses pages s (target - length pages) is
      (gather-nil (suc fuel) o target misses pages s e is free_head few enough)
gather_pages_lem (suc fuel) o target misses pages s (x ∷ ys) e is free_head free few enough =
    elim (dec_lt (length pages) target) [
      | no full ↦ full-Gathers (suc fuel) o target misses pages s (x ∷ ys) is (omega arith)
      | yes room ↦
          let xs : List ℕ = x ∷ ys in
          let wanted : ℕ = target - length pages in
          let (n, b, run, pos, le, ib) =
            remove_batch_from_list_head_lem o.shared o.others s.modified_list wanted s.heap xs e
              (omega arith) is free_head (AllFree-take s.heap 2 xs free) in
          let s₁ : System = behind s x ys is free n pos b ib in
          let one = behind-IsTakenOff s x ys is free n pos b ib in
          let head = IsTakenOff-head one in
          let first = starts s x ys is free n pos b ib in
          let step =
            gather-step fuel o target misses pages s s₁ b x (take n xs) room run first
              (starts_writing s x ys is free n pos b ib) in
          cons-Gathers fuel o target misses n pages s s₁ xs le step one (
            gather_pages_lem fuel o target misses (pages ++ take n xs) s₁ (drop n xs) e
              (rw head one.left) (rw head (one.locks s.modified_list.head ∙ free_head))
              (All-map (drop n xs) (λ q f. one.locks q ∙ f) (AllFree-drop s.heap n xs free)) few
              (omega (arith, enough, pos, length-append pages (take n xs), length-take n (x ∷ ys))))
    ]
