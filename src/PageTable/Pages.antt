-- ===== src/PageTable/Pages.antt =====
-- Writes to one page of page tables and what the other pages keep.
use cxkernel.Base.{ℕ, ◌+◌, ◌*◌, ◌/◌, ◌^◌, ◌<◌, ◌≡◌, ◌≢◌, arith, ◌∙◌}
use cxkernel.Text.{Memory, memset}
use cxkernel.Text.Copy.{memset_lem}
use cxkernel.PageTable.{read64, write64, entry_at, entry_of}
use cxkernel.PageTable.Words.{write_word-outside, word-same, read64-write64, read64-zero}
use cxkernel.PageTable.Entries.{entry_of-lt}

-- The bytes of a page are the same in both memories.
abbrev pub Same : Memory → Memory → ℕ → Type 0
Same m m' p = (a : ℕ) → a / 4096 ≡ p → m' a ≡ m a

pub read64-Same :
    (m m' : Memory) (p i : ℕ)
    → i < 512
    → Same m m' p
    → read64 m' (entry_at (p * 4096) i) ≡ read64 m (entry_at (p * 4096) i)
unfolding read64 write64
read64-Same m m' p i h s =
    word-same 8 m m' (entry_at (p * 4096) i)
      (λ j lt. s (p * 4096 + 8 * i + j) (omega (arith, h, lt)))

-- A write of an entry changes its page only.
pub write64-Same :
    (m : Memory) (b i v p : ℕ) → i < 512 → b ≢ p → Same m (write64 m (entry_at (b * 4096) i) v) p
unfolding read64 write64
write64-Same m b i v p h ne a e =
    write_word-outside 8 m (entry_at (b * 4096) i) v a (ground (arith, e, h))

memset-Same : (m : Memory) (f p : ℕ) → f ≢ p → Same m (memset m (f * 4096) 0 4096) p
memset-Same m f p ne a e = let l = memset_lem m (f * 4096) 0 4096 a in ground (arith, l)

-- The memory after a fresh page `f` has been cleared and entered in a table in page `b`.
abbrev pub linked : Memory → ℕ → ℕ → ℕ → ℕ → Memory
linked m b i f flags =
    write64 (memset m (f * 4096) 0 4096) (entry_at (b * 4096) i) (entry_of (f * 4096) flags)

module _ (m : Memory) (b i f flags : ℕ) (index : i < 512) (small : f < 2 ^ 20)
    (bits : flags < 2 ^ 11) (ne : b ≢ f) where
  pub linked-entry :
      read64 (linked m b i f flags) (entry_at (b * 4096) i) ≡ entry_of (f * 4096) flags
  linked-entry =
      read64-write64 (memset m (f * 4096) 0 4096) (entry_at (b * 4096) i)
        (entry_of (f * 4096) flags) (entry_of-lt f flags small bits)

  pub linked-Same : (p : ℕ) → b ≢ p → f ≢ p → Same m (linked m b i f flags) p
  linked-Same p nb nf a e =
      write64-Same (memset m (f * 4096) 0 4096) b i (entry_of (f * 4096) flags) p index nb a e
      ∙ memset-Same m f p nf a e

  pub linked-zero : (j : ℕ) → j < 512 → read64 (linked m b i f flags) (entry_at (f * 4096) j) ≡ 0
  linked-zero j lt = read64-zero (linked m b i f flags) (entry_at (f * 4096) j) λ k small_k.
      let a = f * 4096 + 8 * j + k in
      write64-Same (memset m (f * 4096) 0 4096) b i (entry_of (f * 4096) flags) f index ne a
        (omega (arith, lt, small_k))
      ∙ (let l = memset_lem m (f * 4096) 0 4096 a in ground (arith, l))
