-- ===== src/Text/Length.antt =====
-- `strlen` of lib/ebl/string.cc finds the terminator.
use cxkernel.Base.{ℕ, zero, suc, ◌+◌, ◌-◌, ◌≤◌, ◌<◌, ◌≡◌, ◌≢◌, none, some, arith}
use native.Mathlib.Decide.{dec_lt}
use cxkernel.Text.{Memory, zero_byte, word_loop, strlen_from, strlen}
use cxkernel.Text.Zero.{has_zero-word}

-- The string at `str` has `n` characters before its terminator.
pub record IsString (m : Memory) (str n : ℕ) : Type 0 where
  pub bytes : (a : ℕ) → m a < 256
  pub chars : (i : ℕ) → i < n → m (str + i) ≢ 0
  pub ends : m (str + n) ≡ 0

-- The chain of tests finds the first zero byte of the word, if there is one.
zero_byte-none : (m : Memory) (p : ℕ) → ((i : ℕ) → i < 8 → m (p + i) ≢ 0) → zero_byte m p ≡ none
unfolding zero_byte
zero_byte-none m p h = ground (arith, h 0, h 1, h 2, h 3, h 4, h 5, h 6, h 7)

zero_byte-some :
    (m : Memory) (p j : ℕ)
    → j < 8
    → ((i : ℕ) → i < j → m (p + i) ≢ 0)
    → m (p + j) ≡ 0
    → zero_byte m p ≡ some j
unfolding zero_byte
zero_byte-some m p j lt h z = ground (arith, h 0, h 1, h 2, h 3, h 4, h 5, h 6, h 7)

module _ (m : Memory) (str n : ℕ) (s : IsString m str n) where
  char-ne : (k i : ℕ) → k + i < n → m (str + k + i) ≢ 0
  char-ne k i h e = s.chars (k + i) h (ground arith)

  end-eq : (k j : ℕ) → k + j ≡ n → m (str + k + j) ≡ 0
  end-eq k j e = let z = s.ends in ground arith

  word_loop-length : (fuel k : ℕ) → k ≤ n → n < k + fuel → word_loop fuel m str (str + k) ≡ some n
  unfolding word_loop
  word_loop-length zero k le h = absurd (omega arith)
  word_loop-length (suc fuel) k le h = elim (dec_lt (n - k) 8) [
    | yes near ↦
        rw
          (
            has_zero-word m s.bytes (str + k) (n - k) near (end-eq k (n - k) (omega arith)),
            zero_byte-some m (str + k) (n - k) near (λ i lt. char-ne k i (omega arith))
                (end-eq k (n - k) (omega arith)),
          )
          (ground arith)
    | no far ↦
        let none' = zero_byte-none m (str + k) (λ i lt. char-ne k i (omega arith)) in
        let ih = word_loop-length fuel (k + 8) (omega arith) (omega arith) in
        ground (arith, none', ih)
  ]

  strlen_from-length :
      (fuel k : ℕ) → k ≤ n → n + 1 < k + fuel → strlen_from fuel m str (str + k) ≡ some n
  unfolding strlen_from
  strlen_from-length zero k le h = absurd (omega arith)
  strlen_from-length (suc fuel) k le h = elim (dec_lt k n) [
    | yes inside ↦
        let c = s.chars k inside in
        let words = word_loop-length fuel k le (omega arith) in
        let ih = strlen_from-length fuel (k + 1) (omega arith) (omega arith) in
        ground (arith, words, ih)
    | no last ↦
        let z = s.ends in
        let words = word_loop-length fuel k le (omega arith) in ground (arith, words)
  ]

  -- `strlen` of a string with `n` characters before its terminator, in a memory of bytes, ends and
  -- returns `n`, at any alignment, with fuel above `n + 1`.
  pub strlen_lem : (fuel : ℕ) → n + 1 < fuel → strlen fuel m str ≡ some n
  unfolding strlen
  strlen_lem fuel h =
      let run = strlen_from-length fuel 0 (omega arith) (omega arith) in ground (arith, run)
