-- ===== src/Boot/MemoryMap.antt =====
-- The entries of the memory map in loader/x86-64-multiboot2/multiboot2.cc.
use cxkernel.Base.{ℕ, zero, suc, ◌+◌, ◌*◌, ◌<◌, ◌≡◌, ◌≢◌, arith, refl, ◌∙◌, ap, some, List, [], ◌∷◌}
use cxkernel.Text.{Memory, word}
use cxkernel.Loader.{Entry}
use cxkernel.Boot.{entry_at, next_entry, entries, mmap_list}

-- entries at a distance, `n` of them
abbrev pub table : Memory → ℕ → ℕ → ℕ → List Entry
table m stride p zero = []
table m stride p (suc n) = entry_at m p ∷ table m stride (p + stride) n

entries-last : (fuel : ℕ) (m : Memory) (mmap : ℕ) → entries (suc fuel) m mmap 0 ≡ some []
unfolding entries
entries-last fuel m mmap = refl

entries-step :
    (fuel : ℕ) (m : Memory) (mmap p : ℕ) (es : List Entry)
    → p ≢ 0
    → entries fuel m mmap (next_entry m mmap p) ≡ some es
    → entries (suc fuel) m mmap p ≡ some (entry_at m p ∷ es)
unfolding entries
entries-step fuel m mmap p es ne e = ground (arith, ne, e)

next_entry-last :
    (m : Memory) (mmap p stride : ℕ)
    → word 4 m (mmap + 8) ≡ stride
    → mmap + word 4 m (mmap + 4) ≡ p + stride
    → next_entry m mmap p ≡ 0
unfolding next_entry
next_entry-last m mmap p stride e end = ground (arith, e, end)

next_entry-more :
    (m : Memory) (mmap p stride : ℕ)
    → word 4 m (mmap + 8) ≡ stride
    → p + stride < mmap + word 4 m (mmap + 4)
    → next_entry m mmap p ≡ p + stride
unfolding next_entry
next_entry-more m mmap p stride e more = ground (arith, e, more)

suc_times : (n k : ℕ) → suc n * k ≡ k + n * k
suc_times n k = omega arith

entries-table :
    (n fuel : ℕ) (m : Memory) (mmap p stride : ℕ)
    → n + 1 < fuel
    → p ≢ 0
    → stride ≢ 0
    → word 4 m (mmap + 8) ≡ stride
    → mmap + word 4 m (mmap + 4) ≡ p + suc n * stride
    → entries fuel m mmap p ≡ some (table m stride p (suc n))
entries-table n zero m mmap p stride enough ne some_stride e end = absurd (omega (arith, enough))
entries-table n (suc zero) m mmap p stride enough ne some_stride e end =
    absurd (omega (arith, enough))
entries-table zero (suc (suc fuel)) m mmap p stride enough ne some_stride e end =
    entries-step (suc fuel) m mmap p [] ne (
      ap (entries (suc fuel) m mmap)
        (next_entry-last m mmap p stride e (let s = suc_times 0 stride in omega (arith, end, s)))
      ∙ entries-last fuel m mmap)
entries-table (suc n) (suc (suc fuel)) m mmap p stride enough ne some_stride e end =
    let s = suc_times (suc n) stride in
    let t = suc_times n stride in
    entries-step (suc fuel) m mmap p (table m stride (p + stride) (suc n)) ne (
      ap (entries (suc fuel) m mmap)
        (next_entry-more m mmap p stride e (omega (arith, end, s, t, some_stride)))
      ∙ entries-table n (suc fuel) m mmap (p + stride) stride (omega (arith, enough))
          (λ z. omega (arith, z, ne)) some_stride e (omega (arith, end, s)))

-- A memory map whose size is that of its header and one or more entries of a size that is not 0 is
-- gone through entry by entry, and the loop ends after the last one, with fuel above the number
-- of entries.
mmap_list-table :
    (n fuel : ℕ) (m : Memory) (mmap : ℕ)
    → n + 1 < fuel
    → word 4 m (mmap + 8) ≢ 0
    → word 4 m (mmap + 4) ≡ 16 + suc n * word 4 m (mmap + 8)
    → mmap_list fuel m mmap ≡ some (table m (word 4 m (mmap + 8)) (mmap + 16) (suc n))
unfolding mmap_list
mmap_list-table n fuel m mmap enough some_stride size =
    entries-table n fuel m mmap (mmap + 16) (word 4 m (mmap + 8)) enough (λ e. omega (arith, e))
      some_stride refl (omega (arith, size))
