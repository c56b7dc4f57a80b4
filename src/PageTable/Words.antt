-- ===== src/PageTable/Words.antt =====
-- Words in a memory of bytes: what a write leaves for a read.
use cxkernel.Base.{ℕ, zero, suc, ◌+◌, ◌/◌, ◌%◌, ◌^◌, ◌≤◌, ◌<◌, ◌≡◌, ◌⊎◌, arith, refl, subst}
use native.Mathlib.Nat.{pow-suc, pow-zero, div-lt_iff_lt-mul}
use cxkernel.Text.{Memory, poke, word}
use cxkernel.PageTable.{write_word, read64, write64}

pub write_word-outside :
    (n : ℕ) (m : Memory) (a v b : ℕ) → (b < a) ⊎ (a + n ≤ b) → write_word n m a v b ≡ m b
unfolding write_word
write_word-outside zero m a v b h = refl
write_word-outside (suc n) m a v b h =
    let ih = write_word-outside n m (a + 1) (v / 256) b in ground (arith, ih)

-- Memories that agree on the bytes of a word have the same word.
pub word-same :
    (n : ℕ) (m m' : Memory) (a : ℕ)
    → ((i : ℕ) → i < n → m' (a + i) ≡ m (a + i))
    → word n m' a ≡ word n m a
word-same zero m m' a h = refl
word-same (suc n) m m' a h =
    let low : m' a ≡ m a = subst (λ x. m' x ≡ m x) (omega arith) (h 0 (omega arith)) in
    let high =
      word-same n m m' (a + 1)
        (λ i lt. subst (λ x. m' x ≡ m x) (omega arith) (h (i + 1) (omega (arith, lt)))) in
    omega (arith, low, high)

word-write_word : (n : ℕ) (m : Memory) (a v : ℕ) → v < 256 ^ n → word n (write_word n m a v) a ≡ v
unfolding write_word
word-write_word zero m a v h =
    let e : v < 1 = subst (λ x. v < x) (pow-zero 256) h in omega (arith, e)
word-write_word (suc n) m a v h =
    let rest = write_word n m (a + 1) (v / 256) in
    let same = word-same n rest (poke rest a (v % 256)) (a + 1) (λ i lt. ground (arith, lt)) in
    let q = (div-lt_iff_lt-mul (omega arith)).1 (subst (λ x. v < x) (pow-suc 256 n) h) in
    let ih = word-write_word n m (a + 1) (v / 256) q in ground (arith, same, ih)

-- An entry that was written is read back, and no other word that begins a multiple of 8 away changes.
pub read64-write64 : (m : Memory) (a v : ℕ) → v < 2 ^ 64 → read64 (write64 m a v) a ≡ v
unfolding read64 write64
read64-write64 m a v h = word-write_word 8 m a v h

pub read64-apart :
    (m : Memory) (a v b : ℕ) → (b + 8 ≤ a) ⊎ (a + 8 ≤ b) → read64 (write64 m a v) b ≡ read64 m b
unfolding read64 write64
read64-apart m a v b h =
    word-same 8 m (write64 m a v) b
      (λ i lt. write_word-outside 8 m a v (b + i) (ground (arith, h, lt)))

word-zero : (n : ℕ) (m : Memory) (a : ℕ) → ((i : ℕ) → i < n → m (a + i) ≡ 0) → word n m a ≡ 0
word-zero zero m a h = refl
word-zero (suc n) m a h =
    let low : m a ≡ 0 = subst (λ x. m x ≡ 0) (omega arith) (h 0 (omega arith)) in
    let high =
      word-zero n m (a + 1)
        (λ i lt. subst (λ x. m x ≡ 0) (omega arith) (h (i + 1) (omega (arith, lt)))) in
    omega (arith, low, high)

pub read64-zero : (m : Memory) (a : ℕ) → ((i : ℕ) → i < 8 → m (a + i) ≡ 0) → read64 m a ≡ 0
unfolding read64 write64
read64-zero m a h = word-zero 8 m a h
