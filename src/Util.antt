-- ===== src/Util.antt =====
-- lib/ebl/util.h: `min`, `max` and the alignment of uint64_t values; the page alignment of
-- core/include/arch/interface.h.
use cxkernel.Base.{
  ℕ, zero, suc, ◌+◌, ◌-◌, ◌*◌, ◌/◌, ◌%◌, ◌^◌, ◌≤◌, ◌<◌, ◌≡◌, arith, bit_and, ap, ltb, if◌then◌else◌,
}
use native.Mathlib.Nat.{pow-suc, one-le-pow, mod-lt, div-add-mod', div-lt_iff_lt-mul, mul-mod_left}
use native.Mathlib.Nat.{lt_of_mul-lt-mul_right, mul-le-mul_right}
use native.Mathlib.Decide.{dec_lt}
use cxkernel.Bits.{u64, sub64, not64, bit_and-high}

abbrev pub page_size : ℕ
page_size = 4096

unfoldable pub max : ℕ → ℕ → ℕ
max a b = if ltb a b then b else a

unfoldable pub min : ℕ → ℕ → ℕ
min a b = if ltb a b then a else b

unfoldable pub align_down : ℕ → ℕ → ℕ
align_down val align = bit_and val (not64 (sub64 align 1))

unfoldable pub align_up : ℕ → ℕ → ℕ
align_up val align = bit_and (sub64 (u64 (val + align)) 1) (not64 (sub64 align 1))

unfoldable pub page_align_down : ℕ → ℕ
unfolding align_down
page_align_down addr = align_down addr page_size

unfoldable pub page_align_up : ℕ → ℕ
unfolding align_up
page_align_up addr = align_up addr page_size

pow_add : (k j w : ℕ) → k + j ≡ w → 2 ^ w ≡ 2 ^ k * 2 ^ j
pow_add zero j w e = let e' : j ≡ w = omega arith in rw e' (omega arith)
pow_add (suc k) j zero e = absurd (omega arith)
pow_add (suc k) j (suc w) e =
    omega (arith, pow-suc 2 w, pow_add k j w (omega arith), ap (λ (t : ℕ). t * 2 ^ j) (pow-suc 2 k))

-- the mask of `align - 1`, complemented
mask : (k : ℕ) → k ≤ 63 → not64 (sub64 (2 ^ k) 1) ≡ (2 ^ (64 - k) - 1) * 2 ^ k
mask k h =
    let e : 2 ^ (64 - k) ≡ suc (2 ^ (64 - k) - 1) = omega (arith, one-le-pow (64 - k) 2) in
    omega (
      arith,
      pow_add k (64 - k) 64 (omega arith),
      ap (λ (t : ℕ). t * 2 ^ k) e,
      one-le-pow k 2,
      one-le-pow (64 - k) 2,
    )

quotient-lt : (k val : ℕ) → k ≤ 63 → val < 2 ^ 64 → val / 2 ^ k < 2 ^ (64 - k)
quotient-lt k val h lt =
    (div-lt_iff_lt-mul (one-le-pow k 2 (omega arith))).1
      (omega (arith, pow_add k (64 - k) 64 (omega arith)))

-- Rounding down to a power of two, as arithmetic.
pub align_down-div :
    (k val : ℕ) → k ≤ 63 → val < 2 ^ 64 → align_down val (2 ^ k) ≡ val / 2 ^ k * 2 ^ k
unfolding align_down
align_down-div k val h lt = rw (mask k h) (bit_and-high k (64 - k) val (quotient-lt k val h lt))

-- Rounding up, where it does not wrap.
pub align_up-div :
    (k val : ℕ)
    → k ≤ 63
    → val + 2 ^ k ≤ 2 ^ 64
    → align_up val (2 ^ k) ≡ (val + 2 ^ k - 1) / 2 ^ k * 2 ^ k
unfolding align_up
align_up-div k val h le =
    let e : sub64 (u64 (val + 2 ^ k)) 1 ≡ val + 2 ^ k - 1 = omega (arith, one-le-pow k 2) in
    rw (mask k h, e)
      (bit_and-high k (64 - k) (val + 2 ^ k - 1)
        (quotient-lt k (val + 2 ^ k - 1) h (omega (arith, one-le-pow k 2))))

-- `r` is the least multiple of `align` from `val` on.
pub record IsAlignedUp (val align r : ℕ) : Type 0 where
  pub multiple : r % align ≡ 0
  pub above : val ≤ r
  pub near : r < val + align
  pub least : (b : ℕ) → b % align ≡ 0 → val ≤ b → r ≤ b

least_multiple : (a n r b : ℕ) → 0 < a → r < n + a → r % a ≡ 0 → b % a ≡ 0 → n ≤ b → r ≤ b
least_multiple a n r b pos near rm bm le = elim (dec_lt b r) [
  | no q ↦ omega arith
  | yes q ↦
      let below : b / a < r / a =
        lt_of_mul-lt-mul_right a (omega (arith, div-add-mod' b a, div-add-mod' r a)) in
      absurd (omega (arith, div-add-mod' b a, div-add-mod' r a, mul-le-mul_right a below))
]

-- `align_up` of a value that has room above it is the least multiple of the alignment, a power of
-- two, that is not below the value.
pub align_up-IsAlignedUp :
    (k val : ℕ) → k ≤ 63 → val + 2 ^ k ≤ 2 ^ 64 → IsAlignedUp val (2 ^ k) (align_up val (2 ^ k))
align_up-IsAlignedUp k val h le = record {
  multiple = rw (align_up-div k val h le) (mul-mod_left _ (2 ^ k));
  above = omega (arith, align_up-div k val h le, div-add-mod' (val + 2 ^ k - 1) (2 ^ k), rest);
  near = omega (arith, align_up-div k val h le, div-add-mod' (val + 2 ^ k - 1) (2 ^ k), pos);
  least = λ b m v.
      least_multiple (2 ^ k) val (align_up val (2 ^ k)) b pos
        (omega (arith, align_up-div k val h le, div-add-mod' (val + 2 ^ k - 1) (2 ^ k), pos))
        (rw (align_up-div k val h le) (mul-mod_left _ (2 ^ k))) m v;
}
  where
    pos : 0 < 2 ^ k
    pos = one-le-pow k 2 (omega arith)

    rest : (val + 2 ^ k - 1) % 2 ^ k < 2 ^ k
    rest = mod-lt (val + 2 ^ k - 1) pos
