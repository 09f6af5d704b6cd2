-- ===== src/Initializer/Threads.antt =====
-- The loop of `initialize_threads`, and the whole of `initialize_system`.
use memory_manager.Base.{
  ◌^◌, ap, ℕ, zero, suc, ◌+◌, ◌%◌, ◌<◌, ◌≤◌, ◌≡◌, ◌≢◌, refl, sym, ◌∙◌, true, false, Bool, arith,
  update, ◌==◌, some, List, [], ◌∷◌, ◌++◌, has, distinct, length, take, drop, length-take,
  has-append_apart, take-append-drop, ℕ_discrete, update_self, update-ne,
}
use memory_manager.System.{System, ThreadInfo}
use memory_manager.Initializer.{
  Boot, initialize_threads, initialize_shared, initialize_statistics, initialize_system,
}
use memory_manager.Initializer.Deal.{share, IsFresh}
use memory_manager.Initializer.Start.{head_of, IsSound, started-AreListed}
use memory_manager.Initializer.Counts.{listed_pages, serve-free_count, first-free_count}
use memory_manager.Initializer.Fill.{Holds}
use memory_manager.Initializer.Caches.{
  AreListed, IsServed, initialize_thread_lem, still-IsFresh, not_now, or_mono, take-has,
  dropped-has,
}

-- The first `m` threads have their caches: thread `t` has the pages `cs t`, at most 64 and each
-- fresh and one of the frames; no page is in two caches, or in a cache and on a list. The first
-- sixteen threads take from lists that nobody took from before.
pub record AreServed (n : ℕ) (heads : ℕ → ℕ) (frames : List ℕ) (m : ℕ) (s : System)
    (ts : ℕ → ThreadInfo) (ls cs : ℕ → List ℕ) : Type 0 where
  pub listed : AreListed n heads s ls
  pub holds : (t : ℕ) → t < m → Holds (ts t).free_page_cache 0 (cs t)
  pub count : (t : ℕ) → t < m → (ts t).free_page_count ≡ length (cs t)
  pub few : (t : ℕ) → t < m → length (cs t) ≤ 64
  pub identity : (t : ℕ) → t < m → (ts t).thread_id ≡ t
  pub kernel : (t : ℕ) → t < m → (ts t).kernel_va_index ≡ 0
  pub fresh : (t q : ℕ) → t < m → has q (cs t) ≡ true → IsFresh (s.heap q)
  pub off : (t j q : ℕ) → t < m → j < n → has q (cs t) ≡ true → has q (heads j ∷ ls j) ≡ false
  pub apart : (t u q : ℕ) → t < m → u < m → t ≢ u → has q (cs t) ≡ true → has q (cs u) ≡ false
  pub cached_frame : (t q : ℕ) → t < m → has q (cs t) ≡ true → has q frames ≡ true
  pub first_share : (t : ℕ) → t < m → t < 16 → cs t ≡ take 64 (share t 0 frames)
  pub untouched : (j : ℕ) → m ≤ j → j < 16 → ls j ≡ share j 0 frames
  pub free_count : s.free_lists.page_count ≡ listed_pages ls 16 % 2 ^ 64
  pub listed_frame : (j q : ℕ) → j < n → has q (ls j) ≡ true → has q frames ≡ true

taken_off :
    (head q : ℕ) (xs : List ℕ)
    → distinct (head ∷ xs) ≡ true
    → has q (take 64 xs) ≡ true
    → has q (head ∷ drop 64 xs) ≡ false
taken_off head q xs d h =
    let split : take 64 xs ++ drop 64 xs ≡ xs = take-append-drop 64 xs in
    let d' : distinct (take 64 xs ++ drop 64 xs) ≡ true = rw split (ground (arith, d)) in
    let out : has q (drop 64 xs) ≡ false = has-append_apart (take 64 xs) (drop 64 xs) q d' h in
    let on : has q xs ≡ true = take-has 64 q xs h in ground (arith, out, on, d)

clash : {a b : Bool} → (a ≡ true → b ≡ false) → b ≡ true → a ≡ false
clash {a} {b} f e = ground (arith, f, e)

module _ {n m : ℕ} {heads : ℕ → ℕ} {frames : List ℕ} {s s' : System} {ts : ℕ → ThreadInfo}
    {ls cs : ℕ → List ℕ} {t : ThreadInfo} (k : ℕ) (lt : k < n) (chosen : k ≡ m % 16)
    (before : AreServed n heads frames m s ts ls cs) (one : IsServed n heads s s' ls k m t) where
  abbrev pages : List ℕ
  pages = take 64 (ls k)

  abbrev now : ℕ → List ℕ
  now = update cs m pages

  abbrev threads : ℕ → ThreadInfo
  threads = update ts m t

  abbrev left : ℕ → List ℕ
  left = update ls k (drop 64 (ls k))

  left-member : (j q : ℕ) → has q (heads j ∷ left j) ≡ true → has q (heads j ∷ ls j) ≡ true
  left-member j q m = or_mono (q == heads j) (dropped-has ls k j q) m

  -- What holds of the new thread and, of the others, held before, holds of all.
  each :
      (P : ℕ → ThreadInfo → List ℕ → Type 0)
      → P m t pages
      → ((u : ℕ) → u < m → P u (ts u) (cs u))
      → (u : ℕ) → u < m + 1
      → P u (threads u) (now u)
  each P new old u um = elim (ℕ_discrete u m) [
    | yes e ↦ rw (e, update_self ts m t, update_self cs m pages) new
    | no ne ↦ rw (update-ne ts m u t ne, update-ne cs m u pages ne) (old u (omega (arith, um, ne)))
  ]

  off_old : (u j q : ℕ) → u < m → j < n → has q (cs u) ≡ true → has q (heads j ∷ left j) ≡ false
  off_old u j q um jn h = not_now (left-member j q) (before.off u j q um jn h)

  off_new : (j q : ℕ) → j < n → has q pages ≡ true → has q (heads j ∷ left j) ≡ false
  off_new j q jn h = elim (ℕ_discrete j k) [
    | yes e ↦
        let d = (before.listed.lists.lists k lt).apart in
        rw (e, update_self ls k (drop 64 (ls k))) (taken_off (heads k) q (ls k) d h)
    | no ne ↦ not_now (left-member j q) (
        before.listed.lists.apart k j q lt jn (λ e. ne (sym e))
          (ground (arith, take-has 64 q (ls k) h)))
  ]

  -- No page of the new cache is in an old one.
  new_page : (u q : ℕ) → u < m → has q (cs u) ≡ true → has q pages ≡ false
  new_page u q um h = not_now (take-has 64 q (ls k)) (ground (arith, before.off u k q um lt h))

  IsFresh-old : (u q : ℕ) → u < m → has q (cs u) ≡ true → IsFresh (s'.heap q)
  IsFresh-old u q um h =
      still-IsFresh (s.heap q) (s'.heap q) (has q pages) (before.fresh u q um h) (one.keeps q)
        (one.locks q)

  IsFresh-new : (q : ℕ) → has q pages ≡ true → IsFresh (s'.heap q)
  IsFresh-new q h =
      still-IsFresh (s.heap q) (s'.heap q) (has q pages)
        (before.listed.lists.fresh k q lt (take-has 64 q (ls k) h)) (one.keeps q) (one.locks q)

  apart_all :
      (u v q : ℕ) → u < m + 1 → v < m + 1 → u ≢ v → has q (now u) ≡ true → has q (now v) ≡ false
  apart_all u v q um vm ne h = elim (ℕ_discrete u m) [
    | yes e ↦
        let other : v ≢ m = λ f. ne (e ∙ sym f) in
        let h' : has q pages ≡ true = rw (e, update_self cs m pages) at h in
        rw (update-ne cs m v pages other) (clash (new_page v q (omega (arith, vm, other))) h')
    | no e ↦
        let h' : has q (cs u) ≡ true = rw (update-ne cs m u pages e) at h in
        elim (ℕ_discrete v m) [
          | yes f ↦ rw (f, update_self cs m pages) (new_page u q (omega (arith, um, e)) h')
          | no f ↦
              rw (update-ne cs m v pages f)
                (before.apart u v q (omega (arith, um, e)) (omega (arith, vm, f)) ne h')
        ]
  ]

  share_now : m < 16 → pages ≡ take 64 (share m 0 frames)
  share_now ml =
      let same : k ≡ m = omega (arith, chosen, ml) in
      rw same (ap (take 64) (before.untouched m (omega arith) ml))

  pub serve_one : AreServed n heads frames (m + 1) s' threads left now
  serve_one = record {
    listed = one.listed;
    holds = each (λ u v c. Holds v.free_page_cache 0 c) one.holds before.holds;
    count = each (λ u v c. v.free_page_count ≡ length c) one.count before.count;
    few = each (λ u v c. length c ≤ 64) (omega (arith, length-take 64 (ls k))) before.few;
    identity = each (λ u v c. v.thread_id ≡ u) one.identity before.identity;
    kernel = each (λ u v c. v.kernel_va_index ≡ 0) one.kernel before.kernel;
    fresh = λ u q um.
        each (λ u v c. has q c ≡ true → IsFresh (s'.heap q)) (IsFresh-new q) (λ w. IsFresh-old w q)
          u um;
    off = λ u j q um jn.
        each (λ u v c. has q c ≡ true → has q (heads j ∷ left j) ≡ false) (off_new j q jn)
          (λ w wm. off_old w j q wm jn) u um;
    apart = apart_all;
    cached_frame = λ u q um.
        each (λ u v c. has q c ≡ true → has q frames ≡ true)
          (λ h. before.listed_frame k q lt (take-has 64 q (ls k) h)) (λ w. before.cached_frame w q)
          u um;
    first_share =
        each (λ u v c. u < 16 → c ≡ take 64 (share u 0 frames)) share_now before.first_share;
    free_count =
        serve-free_count ls k s.free_lists.page_count s'.free_lists.page_count
          (omega (arith, chosen)) before.free_count one.free_count;
    untouched = λ j le jl.
        let other : j ≢ k = omega (arith, chosen, le) in
        update-ne ls k j (drop 64 (ls k)) other ∙ before.untouched j (omega (arith, le)) jl;
    listed_frame = λ j q jn h. before.listed_frame j q jn (dropped-has ls k j q h);
  }

-- The loop, for any number of threads.
pub initialize_threads_lem :
    (left m n : ℕ) (heads : ℕ → ℕ) (frames : List ℕ) (s : System) (ts : ℕ → ThreadInfo)
    (ls cs : ℕ → List ℕ)
    → 16 ≤ n
    → AreServed n heads frames m s ts ls cs
    → (s' : System) × (ts' : ℕ → ThreadInfo) × (ls' : ℕ → List ℕ) × (cs' : ℕ → List ℕ)
      × (initialize_threads left m s ts ≡ some (s', ts'))
      × AreServed n heads frames (m + left) s' ts' ls' cs'
unfolding initialize_threads
initialize_threads_lem zero m n heads frames s ts ls cs le before =
    let e : m ≡ m + 0 = omega arith in (s, ts, ls, cs, refl, rw (← e) before)
initialize_threads_lem (suc left) m n heads frames s ts ls cs le before =
    let k : ℕ = m % 16 in
    let (s₁, t, run, one) = initialize_thread_lem n heads s ls m k le before.listed refl in
    let (s', ts', ls', cs', rest, after) =
      initialize_threads_lem left (m + 1) n heads frames s₁ (update ts m t)
        (update ls k (drop 64 (ls k))) (update cs m (take 64 (ls k))) le
        (serve_one k (omega (arith, le)) refl before one) in
    let e : m + 1 + left ≡ m + suc left = omega arith in
    (s', ts', ls', cs', rw run rest, rw e at after)

statistics-AreServed :
    (n m : ℕ) (heads : ℕ → ℕ) (frames : List ℕ) (s : System) (ts : ℕ → ThreadInfo)
    (ls cs : ℕ → List ℕ)
    → AreServed n heads frames m s ts ls cs
    → AreServed n heads frames m (initialize_statistics s) ts ls cs
unfolding initialize_statistics
statistics-AreServed n m heads frames s ts ls cs a = record {
  listed = record { lists = a.listed.lists; at = a.listed.at; number = a.listed.number };
  holds = a.holds;
  count = a.count;
  few = a.few;
  identity = a.identity;
  kernel = a.kernel;
  fresh = a.fresh;
  off = a.off;
  apart = a.apart;
  cached_frame = a.cached_frame;
  first_share = a.first_share;
  untouched = a.untouched;
  free_count = a.free_count;
  listed_frame = a.listed_frame;
}

share-has : (j k q : ℕ) (ps : List ℕ) → has q (share j k ps) ≡ true → has q ps ≡ true
share-has j k q [] m = cc
share-has j k q (p ∷ ps) m = ground (arith, share-has j ((k + 1) % 16) q ps)

module _ (b : Boot) (sound : IsSound b) where
  first-AreServed :
      (ts : ℕ → ThreadInfo)
      → AreServed 19
          (head_of b)
          b.allocated_frame_numbers
          0
          (initialize_shared b)
          ts
          (λ j. share j 0 b.allocated_frame_numbers)
          (λ _. [])
  first-AreServed ts = record {
    listed = started-AreListed b sound;
    holds = λ t lt. absurd (omega arith);
    count = λ t lt. absurd (omega arith);
    few = λ t lt. absurd (omega arith);
    identity = λ t lt. absurd (omega arith);
    kernel = λ t lt. absurd (omega arith);
    fresh = λ t q lt. absurd (omega arith);
    off = λ t j q lt. absurd (omega arith);
    apart = λ t u q lt. absurd (omega arith);
    cached_frame = λ t q lt. absurd (omega arith);
    first_share = λ t lt. absurd (omega arith);
    untouched = λ j le lt. refl;
    free_count = first-free_count b sound;
    listed_frame = λ j q lt m. share-has j 0 q b.allocated_frame_numbers m;
  }

  system-run :
      (num : ℕ) (ts ts' : ℕ → ThreadInfo) (s : System)
      → initialize_threads num 0 (initialize_shared b) ts ≡ some (s, ts')
      → initialize_system b num ts ≡ some (initialize_statistics s, ts')
  unfolding initialize_system
  system-run num ts ts' s e = rw e refl

  -- For any number of user threads, `initialize_system` returns. Each thread has its number and a
  -- cache of at most 64 pages; these are frames that Windows gave, fresh and unlocked; no page is in two caches, or
  -- in a cache and on a list; every list is a ring of what is left, fresh frames for a free list;
  -- and the count of available pages is the number of pages on the sixteen free lists, in
  -- 64 bits.
  pub initialize_system_lem :
      (num_user_threads : ℕ) (ts : ℕ → ThreadInfo)
      → (s : System) × (ts' : ℕ → ThreadInfo) × (ls : ℕ → List ℕ) × (cs : ℕ → List ℕ)
        × (initialize_system b num_user_threads ts ≡ some (s, ts'))
        × AreServed 19 (head_of b) b.allocated_frame_numbers num_user_threads s ts' ls cs
        × (s.stats.n_available ≡ listed_pages ls 16 % 2 ^ 64)
  unfolding initialize_statistics
  initialize_system_lem num ts =
      let frames : List ℕ = b.allocated_frame_numbers in
      let (s, ts', ls, cs, run, served) =
        initialize_threads_lem num 0 19 (head_of b) frames (initialize_shared b) ts
          (λ j. share j 0 frames) (λ _. []) (omega arith) (first-AreServed ts) in
      let all : AreServed 19 (head_of b) frames num s ts' ls cs =
        (let e : 0 + num ≡ num = omega arith in rw e at served) in
      (
        initialize_statistics s,
        ts',
        ls,
        cs,
        system-run num ts ts' s run,
        statistics-AreServed 19 num (head_of b) frames s ts' ls cs all,
        all.free_count,
      )
