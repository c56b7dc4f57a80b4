-- ===== src/Bits.antt =====
-- Words as native numbers: the casts, and `&`, `|`, `~` as arithmetic, at every width.
mod Step
use Step.{bit_or_lowest, bit_and_lowest}
use Prim.Native.Nat.{bit_and-bitwise}
use native.Mathlib.Nat.{pow-suc, one-le-pow, mod-eq_of_lt}
use cxkernel.Base.{
  ℕ, zero, suc, ◌+◌, ◌-◌, ◌*◌, ◌/◌, ◌%◌, ◌^◌, ◌≤◌, ◌<◌, ◌≡◌, refl, arith, bit_and, bit_or, ap,
}

abbrev pub u8 : ℕ → ℕ
u8 n = n % 2 ^ 8

abbrev pub u16 : ℕ → ℕ
u16 n = n % 2 ^ 16

abbrev pub u32 : ℕ → ℕ
u32 n = n % 2 ^ 32

abbrev pub u64 : ℕ → ℕ
u64 n = n % 2 ^ 64

-- a - b in uint64_t, for a and b below 2 ^ 64
abbrev pub sub64 : ℕ → ℕ → ℕ
sub64 a b = u64 (a + 2 ^ 64 - b)

-- `~` on uint64_t
abbrev pub not64 : ℕ → ℕ
not64 a = 2 ^ 64 - 1 - a

zero-masks : (bound a : ℕ) → a ≤ bound → (bit_and a 0 ≡ 0) × (bit_or a 0 ≡ a)
zero-masks bound zero le = (refl, refl)
zero-masks zero (suc a) le = absurd (omega arith)
zero-masks (suc bound) (suc a) le =
    let half = zero-masks bound (suc a / 2) (omega arith) in
    (
      omega (arith, half.0, bit_and_lowest (suc a) 0),
      omega (arith, half.1, bit_or_lowest (suc a) 0),
    )

pub bit_and-zero : (a : ℕ) → bit_and a 0 ≡ 0
bit_and-zero a = (zero-masks a a (omega arith)).0

pub bit_or-zero : (a : ℕ) → bit_or a 0 ≡ a
bit_or-zero a = (zero-masks a a (omega arith)).1

one_pow : (q : ℕ) → q ≡ q * 2 ^ 0 + 0
one_pow q = omega arith

twice_pow : (q k : ℕ) → q * 2 ^ suc k ≡ 2 * (q * 2 ^ k)
twice_pow q k = omega (arith, ap (λ (t : ℕ). q * t) (pow-suc 2 k))

-- `|` of two disjoint fields is their sum.
pub bit_or-add : (k q r : ℕ) → r < 2 ^ k → bit_or (q * 2 ^ k) r ≡ q * 2 ^ k + r
bit_or-add zero q r h = ground (arith, bit_or-zero q)
bit_or-add (suc k) q r h =
    ground (arith, bit_or_lowest (q * 2 ^ suc k) r, twice_pow q k, bit_or-add k q (r / 2))

-- Digits below the lowest of the mask are cut off.
pub bit_and-shift :
    (k q m r : ℕ) → r < 2 ^ k → bit_and (q * 2 ^ k + r) (m * 2 ^ k) ≡ bit_and q m * 2 ^ k
bit_and-shift zero q m r h =
    let e : r ≡ 0 = omega arith in rw e (ground (arith, ap (λ (t : ℕ). bit_and t m) (one_pow q)))
bit_and-shift (suc k) q m r h = ground (
  arith,
  bit_and_lowest (q * 2 ^ suc k + r) (m * 2 ^ suc k),
  twice_pow q k,
  twice_pow m k,
  twice_pow (bit_and q m) k,
  bit_and-shift k q m (r / 2),
)

low_digits : (k q r : ℕ) → r < 2 ^ k → bit_and (q * 2 ^ k + r) (2 ^ k - 1) ≡ r
low_digits zero q r h = rw bit_and-zero (omega arith)
low_digits (suc k) q r h = ground (
  arith,
  bit_and_lowest (q * 2 ^ suc k + r) (2 ^ suc k - 1),
  twice_pow q k,
  pow-suc 2 k,
  one-le-pow k 2,
  low_digits k q (r / 2),
)

-- `&` with the k low bits is the remainder.
pub bit_and-mask : (k a : ℕ) → bit_and a (2 ^ k - 1) ≡ a % 2 ^ k
bit_and-mask k a = ground (arith, one-le-pow k 2, low_digits k (a / 2 ^ k) (a % 2 ^ k))

-- `&` with all but the k low bits of a word of k + j bits rounds down.
pub bit_and-high :
    (k j a : ℕ) → a / 2 ^ k < 2 ^ j → bit_and a ((2 ^ j - 1) * 2 ^ k) ≡ a / 2 ^ k * 2 ^ k
bit_and-high k j a h = ground (
  arith,
  one-le-pow k 2,
  bit_and-shift k (a / 2 ^ k) (2 ^ j - 1) (a % 2 ^ k),
  bit_and-mask j (a / 2 ^ k),
  mod-eq_of_lt h,
)

-- `&` works on high and low digits apart.
pub bit_and-split :
    (k q q' r r' : ℕ)
    → r < 2 ^ k
    → r' < 2 ^ k
    → bit_and (q * 2 ^ k + r) (q' * 2 ^ k + r') ≡ bit_and q q' * 2 ^ k + bit_and r r'
bit_and-split zero q q' r r' h h' =
    let e : r ≡ 0 = omega arith in
    let e' : r' ≡ 0 = omega arith in
    rw (e, e', ← one_pow q, ← one_pow q') (omega (arith, bit_and-zero 0))
bit_and-split (suc k) q q' r r' h h' = ground (
  arith,
  bit_and_lowest (q * 2 ^ suc k + r) (q' * 2 ^ suc k + r'),
  bit_and_lowest r r',
  twice_pow q k,
  twice_pow q' k,
  twice_pow (bit_and q q') k,
  bit_and-split k q q' (r / 2) (r' / 2),
)

below_left : (bound a b : ℕ) → a ≤ bound → bit_and a b ≤ a
below_left bound zero b le = omega (arith, bit_and-bitwise 0 b)
below_left zero (suc a) b le = absurd (omega arith)
below_left (suc bound) (suc a) b le =
    let half = below_left bound (suc a / 2) (b / 2) (omega arith) in
    omega (arith, half, bit_and_lowest (suc a) b)

pub bit_and-le : (a b : ℕ) → bit_and a b ≤ a
bit_and-le a b = below_left a a b (omega arith)

-- `|` works on high and low digits apart, and stays within its digits.
pub bit_or-split :
    (k q q' r r' : ℕ)
    → r < 2 ^ k
    → r' < 2 ^ k
    → bit_or (q * 2 ^ k + r) (q' * 2 ^ k + r') ≡ bit_or q q' * 2 ^ k + bit_or r r'
bit_or-split zero q q' r r' h h' =
    let e : r ≡ 0 = omega arith in
    let e' : r' ≡ 0 = omega arith in
    rw (e, e', ← one_pow q, ← one_pow q') (omega (arith, bit_or-zero 0))
bit_or-split (suc k) q q' r r' h h' = ground (
  arith,
  bit_or_lowest (q * 2 ^ suc k + r) (q' * 2 ^ suc k + r'),
  bit_or_lowest r r',
  twice_pow q k,
  twice_pow q' k,
  twice_pow (bit_or q q') k,
  bit_or-split k q q' (r / 2) (r' / 2),
)

pub bit_or-lt : (k a b : ℕ) → a < 2 ^ k → b < 2 ^ k → bit_or a b < 2 ^ k
bit_or-lt zero a b h h' =
    let e : a ≡ 0 = omega arith in
    let e' : b ≡ 0 = omega arith in rw (e, e') (omega (arith, bit_or-zero 0))
bit_or-lt (suc k) a b h h' =
    ground (arith, bit_or_lowest a b, pow-suc 2 k, bit_or-lt k (a / 2) (b / 2))

-- `|` with an odd number is odd.
pub bit_or-odd : (b : ℕ) → bit_or 1 b % 2 ≡ 1
bit_or-odd b = ground (arith, bit_or_lowest 1 b)
