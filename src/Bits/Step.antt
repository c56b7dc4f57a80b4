-- ===== src/Bits/Step.antt =====
-- The native `bit_and` and `bit_or` by their lowest digit.
use Prim.Native.Nat.{min, max, digits, bitwise, bit_and-bitwise, bit_or-bitwise}
use cxkernel.Base.{ℕ, zero, suc, ◌+◌, ◌*◌, ◌/◌, ◌%◌, ◌≤◌, ◌≡◌, refl, arith, bit_and, bit_or}

-- Any fuel from the first number on gives the result of `bitwise`, which takes that number.
module _ (z : ℕ → ℕ) (f : ℕ → ℕ → ℕ) where
  fuelled : (bound m a b : ℕ) → m ≤ bound → a ≤ m → digits z f m a b ≡ bitwise z f a b
  fuelled bound zero zero b small le = refl
  fuelled bound (suc m) zero b small le = refl
  fuelled bound zero (suc a) b small le = absurd (omega arith)
  fuelled zero (suc m) (suc a) b small le = absurd (omega arith)
  fuelled (suc bound) (suc m) (suc a) b small le =
      let half = fuelled bound m (suc a / 2) (b / 2) (omega arith) (omega arith) in
      let own = fuelled bound a (suc a / 2) (b / 2) (omega arith) (omega arith) in
      omega (arith, half, own)

  lowest :
      (a b : ℕ)
      → bitwise z f (suc a / 2) (b / 2) * 2 + f (suc a % 2) (b % 2) ≡ bitwise z f (suc a) b
  lowest a b =
      let own = fuelled a a (suc a / 2) (b / 2) (omega arith) (omega arith) in omega (arith, own)

pub bit_and_lowest : (m n : ℕ) → bit_and m n ≡ min (m % 2) (n % 2) + 2 * bit_and (m / 2) (n / 2)
bit_and_lowest zero n = simp bit_and-bitwise (omega arith)
bit_and_lowest (suc m) n =
    simp bit_and-bitwise (let own = lowest (λ y. 0) min m n in omega (arith, own))

pub bit_or_lowest : (m n : ℕ) → bit_or m n ≡ max (m % 2) (n % 2) + 2 * bit_or (m / 2) (n / 2)
bit_or_lowest zero n = simp bit_or-bitwise (omega arith)
bit_or_lowest (suc m) n =
    simp bit_or-bitwise (let own = lowest (λ y. y) max m n in omega (arith, own))
