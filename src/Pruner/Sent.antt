-- ===== src/Pruner/Sent.antt =====
-- The pruner's loop over its batch.
use mathlib.Core.Path.{fun_ext}
use memory_manager.Base.{
  ℕ, suc, ◌^◌, ◌<◌, ◌≤◌, ◌≡◌, ◌≢◌, refl, sym, ap, ◌∙◌, true, false, arith, update, some,
  if◌then◌else◌, List, [], ◌∷◌, has, distinct, length, has-ne, update_self, update-ne, ℕ_discrete,
}
use memory_manager.Pte.{map_pte_to_disk, validate_disk_slot}
use memory_manager.Pfn.{Heap, unlock_pfn}
use memory_manager.Pfn.Lock.{with_lock}
use memory_manager.PageList.Walk.{along, along-links, with_lock-links}
use memory_manager.System.{System, unlock_page}
use memory_manager.FaultHandler.Standby.{AreOwned, evicted}
use memory_manager.Pruner.{send_to_disk}

abbrev pub released : List ℕ → Heap → Heap
released xs h q = if has q xs then record (h q) { lock = 0 } else h q

-- Every entry names the slot of its page, the pages are unlocked, and nothing else has changed.
pub record AreSent (s : System) (owner : ℕ → ℕ) (xs : List ℕ) (s' : System) : Type 0 where
  pub entries :
      (q : ℕ)
      → has q xs ≡ true
      → s'.ptes (owner q) ≡ evicted (s.ptes (owner q)) (s.heap q).disk_index
  pub other_entries : (e : ℕ) → ((q : ℕ) → has q xs ≡ true → owner q ≢ e) → s'.ptes e ≡ s.ptes e
  pub rest : s' ≡ record s { heap = released xs s.heap; ptes = s'.ptes }

abbrev sent : System → (p e : ℕ) → System
sent s p e = record s {
  ptes = update s.ptes e (evicted (s.ptes e) (s.heap p).disk_index);
  heap = with_lock s.heap p 0;
}

send-step :
    (s : System) (p e left : ℕ)
    → (s.heap p).pte ≡ some e
    → (s.heap p).disk_index ≤ s.pf.max_disk_index
    → s.pf.max_disk_index < 2 ^ 40
    → (s.heap p).lock ≡ 1
    → send_to_disk (suc left) p s ≡ send_to_disk left (s.heap p).flink (sent s p e)
unfolding send_to_disk map_pte_to_disk validate_disk_slot unlock_page unlock_pfn update
send-step s p e left own le small held = ground (arith, own, le, small, held)

send_nil : (p : ℕ) (s : System) → send_to_disk 0 p s ≡ some s
unfolding send_to_disk
send_nil p s = refl

with_lock-other : (h : Heap) (p l q : ℕ) → q ≢ p → with_lock h p l q ≡ h q
unfolding update
with_lock-other h p l q ne = ground arith

released-cons :
    (p : ℕ) (xs : List ℕ) (h : Heap)
    → has p xs ≡ false
    → released xs (with_lock h p 0) ≡ released (p ∷ xs) h
unfolding update
released-cons p xs h out = fun_ext (λ q. ground (arith, out))

still-AreOwned :
    (s : System) (owner : ℕ → ℕ) (x : ℕ) (xs : List ℕ)
    → has x xs ≡ false
    → AreOwned s owner (x ∷ xs)
    → AreOwned (sent s x (owner x)) owner xs
still-AreOwned s owner x xs out own = record {
  owned = λ q m.
      rw (with_lock-other s.heap x 0 q (has-ne q x xs m out)) (own.owned q (ground (arith, m)));
  in_range = λ q m.
      rw (with_lock-other s.heap x 0 q (has-ne q x xs m out)) (own.in_range q (ground (arith, m)));
  apart = λ q r mq mr e. own.apart q r (ground (arith, mq)) (ground (arith, mr)) e;
}

one_more :
    (s s' : System) (owner : ℕ → ℕ) (x : ℕ) (xs : List ℕ)
    → has x xs ≡ false
    → AreOwned s owner (x ∷ xs)
    → AreSent (sent s x (owner x)) owner xs s'
    → AreSent s owner (x ∷ xs) s'
one_more s s' owner x xs out own r =
    let owner-ne = λ (q : ℕ) (m : has q xs ≡ true) (e : owner q ≡ owner x).
      has-ne q x xs m out (own.apart q x (ground (arith, m)) (ground arith) e) in
    let slot = (s.heap x).disk_index in
    record {
      entries = λ q m. elim (ℕ_discrete q x) [
        | yes e ↦ rw e (
            r.other_entries (owner x) owner-ne
            ∙ update_self s.ptes (owner x) (evicted (s.ptes (owner x)) slot))
        | no ne ↦
            let on : has q xs ≡ true = ground (arith, m, ne) in
            r.entries q on
            ∙ ap (λ p. evicted p (with_lock s.heap x 0 q).disk_index)
                (update-ne s.ptes (owner x) (owner q) (evicted (s.ptes (owner x)) slot)
                  (owner-ne q on))
            ∙ ap (λ p. evicted (s.ptes (owner q)) p.disk_index) (with_lock-other s.heap x 0 q ne)
      ];
      other_entries = λ e f.
          r.other_entries e (λ q m. f q (ground (arith, m)))
          ∙ update-ne s.ptes (owner x) e (evicted (s.ptes (owner x)) slot)
              (λ h. f x (ground arith) (sym h));
      rest =
          r.rest
          ∙ ap (λ (h : Heap). record s { heap = h; ptes = s'.ptes })
              (released-cons x xs s.heap out);
    }

pub send_to_disk_lem :
    (owner : ℕ → ℕ) (xs : List ℕ) (pfn : ℕ) (s : System)
    → along s.heap pfn (length xs) ≡ xs
    → distinct xs ≡ true
    → s.pf.max_disk_index < 2 ^ 40
    → AreOwned s owner xs
    → ((q : ℕ) → has q xs ≡ true → (s.heap q).lock ≡ 1)
    → (s' : System) × (send_to_disk (length xs) pfn s ≡ some s') × AreSent s owner xs s'
send_to_disk_lem owner [] pfn s e d small own held = (
  s,
  send_nil pfn s,
  record { entries = λ q m. absurd (ground (arith, m)); other_entries = λ e f. refl; rest = refl },
)
send_to_disk_lem owner (x ∷ xs) pfn s e d small own held =
    let at : pfn ≡ x = ground (arith, e) in
    let out : has x xs ≡ false = ground (arith, d) in
    let s₁ : System = sent s x (owner x) in
    let tail : along s.heap (s.heap x).flink (length xs) ≡ xs =
      (let q = sym at in ground (arith, e)) in
    let (s', run, r) =
      send_to_disk_lem owner xs (s.heap x).flink s₁
        (along-links s.heap s₁.heap (s.heap x).flink (length xs)
            (λ q. (with_lock-links s.heap x 0 q).0)
          ∙ tail)
        (ground (arith, d)) small (still-AreOwned s owner x xs out own)
        (λ q m.
          rw (with_lock-other s.heap x 0 q (has-ne q x xs m out)) (held q (ground (arith, m)))) in
    let step =
      send-step s x (owner x) (length xs) (own.owned x (ground arith))
        (own.in_range x (ground arith)) small (held x (ground arith)) in
    (
      s',
      ap (λ v. send_to_disk (suc (length xs)) v s) at ∙ step ∙ run,
      one_more s s' owner x xs out own r,
    )
