-- ===== src/Text/Zero.antt =====
-- The test for a zero byte in a word, of `strlen` in lib/ebl/string.cc.
use cxkernel.Base.{
  ℕ, zero, suc, ◌+◌, ◌-◌, ◌*◌, ◌^◌, ◌<◌, ◌≡◌, refl, true, arith, bit_and, ltb, if◌then◌else◌,
}
use native.Mathlib.Decide.{dec_lt}
use cxkernel.Bits.{sub64, bit_and-split, bit_and-le}
use cxkernel.Text.{Memory, word, lomagic, has_zero}

-- 256 ^ n, and the magic numbers for words of n bytes
abbrev modulus : ℕ → ℕ
modulus zero = 1
modulus (suc n) = 256 * modulus n

abbrev low : ℕ → ℕ
low zero = 0
low (suc n) = 256 * low n + 1

abbrev high : ℕ → ℕ
high zero = 0
high (suc n) = 256 * high n + 128

-- the difference modulo 256 ^ n
abbrev less_low : ℕ → ℕ → ℕ
less_low n w = if ltb w (low n) then w + modulus n - low n else w - low n

abbrev seen : ℕ → ℕ → ℕ
seen n w = bit_and (bit_and (less_low n w) (modulus n - 1 - w)) (high n)

low-lt : (n : ℕ) → low n < modulus n
low-lt zero = omega arith
low-lt (suc n) = omega (arith, low-lt n)

-- The low byte of the three words, and the rest.
seen-suc :
    (n w b q r : ℕ)
    → w < modulus n
    → b < 256
    → r < 256
    → less_low (suc n) (b + 256 * w) ≡ q * 256 + r
    → seen (suc n) (b + 256 * w)
      ≡ bit_and (bit_and q (modulus n - 1 - w)) (high n) * 256 + bit_and (bit_and r (255 - b)) 128
seen-suc n w b q r hw hb hr e =
    let e' : 256 * modulus n - 1 - (b + 256 * w) ≡ (modulus n - 1 - w) * 256 + (255 - b) =
      omega arith in
    let e'' : 256 * high n + 128 ≡ high n * 256 + 128 = omega arith in
    let small : bit_and r (255 - b) < 256 = omega (arith, bit_and-le r (255 - b)) in
    rw
      (
        e,
        e',
        e'',
        bit_and-split 8 q (modulus n - 1 - w) r (255 - b) hr (omega arith),
        bit_and-split 8 (bit_and q (modulus n - 1 - w)) (high n) (bit_and r (255 - b)) 128 small
            (omega arith),
      )
      refl

abbrev borrowed : ℕ → ℕ → ℕ
borrowed n w = if ltb (low n) w then w - low n - 1 else w + modulus n - low n - 1

-- The difference by its low byte, when that byte is 0 and when it is not.
borrow : (n w : ℕ) → w < modulus n → less_low (suc n) (0 + 256 * w) ≡ borrowed n w * 256 + 255
borrow n w h = let l = low-lt n in ground arith

no_borrow :
    (n w b : ℕ)
    → 0 < b
    → b < 256
    → w < modulus n
    → less_low (suc n) (b + 256 * w) ≡ less_low n w * 256 + (b - 1)
no_borrow n w b pos small h = let l = low-lt n in ground arith

seen-eight : (w : ℕ) → w < 2 ^ 64 → 0 < seen 8 w → has_zero w ≡ true
unfolding has_zero
seen-eight w h pos = let e : sub64 w lomagic ≡ less_low 8 w = ground arith in rw e (ground arith)

module _ (m : Memory) (bytes : (a : ℕ) → m a < 256) where
  pub word-lt : (n p : ℕ) → word n m p < modulus n
  word-lt zero p = omega arith
  word-lt (suc n) p = omega (arith, word-lt n (p + 1), bytes p)

  -- A zero byte is seen: the bytes below the lowest one are not, so nothing is borrowed from it.
  zero-seen : (n p j : ℕ) → j < n → m (p + j) ≡ 0 → 0 < seen n (word n m p)
  zero-seen zero p j h z = elim h [ ]
  zero-seen (suc n) p zero h z =
      let e : m p ≡ 0 = ground arith in
      let w = word n m (p + 1) in
      let step =
        seen-suc n w 0 (borrowed n w) 255 (word-lt n (p + 1)) (omega arith) (omega arith)
          (borrow n w (word-lt n (p + 1))) in
      rw e (omega (arith, step))
  zero-seen (suc n) p (suc j) h z = elim (dec_lt 0 (m p)) [
    | no q ↦
        let e : m p ≡ 0 = omega arith in
        let w = word n m (p + 1) in
        let step =
          seen-suc n w 0 (borrowed n w) 255 (word-lt n (p + 1)) (omega arith) (omega arith)
            (borrow n w (word-lt n (p + 1))) in
        rw e (omega (arith, step))
    | yes q ↦
        let w = word n m (p + 1) in
        let step =
          seen-suc n w (m p) (less_low n w) (m p - 1) (word-lt n (p + 1)) (bytes p)
            (omega (arith, bytes p)) (no_borrow n w (m p) q (bytes p) (word-lt n (p + 1))) in
        let ih = zero-seen n (p + 1) j (omega arith) (ground arith) in omega (arith, step, ih)
  ]

  -- In a memory of bytes, the test of a word of eight is true if one of them is zero.
  pub has_zero-word : (p j : ℕ) → j < 8 → m (p + j) ≡ 0 → has_zero (word 8 m p) ≡ true
  has_zero-word p j h z = seen-eight (word 8 m p) (word-lt 8 p) (zero-seen 8 p j h z)
