-- ===== src/RefPtr/Slots.antt =====
-- How many variables of type `RefPtr` point to an object, as variables change.
use cxkernel.Base.{
  ℕ, zero, suc, ◌+◌, ◌≤◌, ◌<◌, ◌≡◌, arith, List, [], ◌∷◌, ◌==◌, if◌then◌else◌, length, refl,
}
use cxkernel.RefPtr.{get, put}

-- 1 when it is that pointer
abbrev pub one : ℕ → ℕ → ℕ
one a p = if a == p then 1 else 0

abbrev pub occurrences : ℕ → List ℕ → ℕ
occurrences p [] = 0
occurrences p (x ∷ xs) = one x p + occurrences p xs

pub occurrences-put :
    (p : ℕ) (xs : List ℕ) (i v : ℕ)
    → i < length xs
    → occurrences p (put xs i v) + one (get xs i) p ≡ occurrences p xs + one v p
occurrences-put p [] i v h = absurd (omega (arith, h))
occurrences-put p (x ∷ xs) zero v h = omega arith
occurrences-put p (x ∷ xs) (suc i) v h =
    let ih = occurrences-put p xs i v (omega (arith, h)) in omega (arith, ih)

pub occurrences_le : (p : ℕ) (xs : List ℕ) → occurrences p xs ≤ length xs
occurrences_le p [] = omega arith
occurrences_le p (x ∷ xs) = let ih = occurrences_le p xs in ground (arith, ih)

pub length-put : (xs : List ℕ) (i v : ℕ) → length (put xs i v) ≡ length xs
length-put [] i v = refl
length-put (x ∷ xs) zero v = refl
length-put (x ∷ xs) (suc i) v = let ih = length-put xs i v in omega (arith, ih)

pub get-put : (xs : List ℕ) (i j : ℕ) → j < length xs → get (put xs i (get xs j)) j ≡ get xs j
get-put [] i j h = absurd (omega (arith, h))
get-put (x ∷ xs) zero zero h = refl
get-put (x ∷ xs) zero (suc j) h = refl
get-put (x ∷ xs) (suc i) zero h = refl
get-put (x ∷ xs) (suc i) (suc j) h = get-put xs i j (omega (arith, h))
