-- ===== src/Pte/Word.antt =====
-- The bit-field layout of a page table entry: fields and word determine one another.
use memory_manager.Base.{ℕ, ◌^◌, ◌<◌, ◌≡◌, arith}
use memory_manager.Pte.{Pte, entire_pte, write_word}

-- Every bit-field holds a value of its width.
pub record IsPacked (p : Pte) : Type 0 where
  pub valid_bit : p.valid < 2
  pub status_bit : p.status < 2
  pub readwrite_bit : p.readwrite < 2
  pub dirty_bit : p.dirty < 2
  pub accessed_bit : p.accessed < 2
  pub index_bits : p.index < 2 ^ 40
  pub reserved_bits : p.reserved < 2 ^ 19

pub entire_pte-lt : (p : Pte) → IsPacked p → entire_pte p < 2 ^ 64
unfolding entire_pte
entire_pte-lt p h = omega arith

pub write_word-IsPacked : (p : Pte) (w : ℕ) → IsPacked (write_word p w)
unfolding write_word
write_word-IsPacked p w = omega arith

pub entire_pte-write_word : (p : Pte) (w : ℕ) → w < 2 ^ 64 → entire_pte (write_word p w) ≡ w
unfolding entire_pte write_word
entire_pte-write_word p w h = omega arith

-- Writing the word of an entry whose bit-fields hold values of their widths over any entry gives
-- the first with the lock of the second, and an entry over which a 64-bit word was written has that
-- word.
pub word_roundtrip :
    (p q : Pte) (w : ℕ)
    → IsPacked p
    → w < 2 ^ 64
    → (write_word q (entire_pte p) ≡ record p { lock = q.lock }) × (entire_pte (write_word q w) ≡ w)
unfolding entire_pte write_word
word_roundtrip p q w h lt = (ground arith, entire_pte-write_word q w lt)
