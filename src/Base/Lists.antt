-- ===== src/Base/Lists.antt =====
-- Lists measured by native numbers, and predicates on lists by recursion.
use Prim.Native.Nat.{ℕ, zero, suc, ◌+◌}
use mathlib.Core.Path.{◌≡◌, sym}
use mathlib.Core.Logic.{◌≢◌}
use mathlib.Core.Option.{Option, none, some}
use mathlib.Core.List.{List, [], ◌∷◌, ◌++◌}
use native.Mathlib.Omega.{arith}

module _ {ℓ} {A : Type ℓ} where
  abbrev pub length : List A → ℕ
  length [] = 0
  length (x ∷ xs) = suc (length xs)

  abbrev pub get_elem? : List A → ℕ → Option A
  get_elem? [] i = none
  get_elem? (x ∷ xs) zero = some x
  get_elem? (x ∷ xs) (suc i) = get_elem? xs i

  abbrev pub take : ℕ → List A → List A
  take zero xs = []
  take (suc n) [] = []
  take (suc n) (x ∷ xs) = x ∷ take n xs

  abbrev pub drop : ℕ → List A → List A
  drop zero xs = xs
  drop (suc n) [] = []
  drop (suc n) (x ∷ xs) = drop n xs

  pub length-append : (xs ys : List A) → length (xs ++ ys) ≡ length xs + length ys
  length-append [] ys = omega arith
  length-append (x ∷ xs) ys = omega (arith, length-append xs ys)

-- A predicate holds of each element.
abbrev pub All {ℓ κ} : {A : Type ℓ} → (A → Type κ) → List A → Type κ
All P [] = Unit
All P (x ∷ xs) = P x × All P xs

module _ {ℓ κ} {A : Type ℓ} (P : A → Type κ) where
  pub All-append : (xs ys : List A) → All P xs → All P ys → All P (xs ++ ys)
  All-append [] ys hx hy = hy
  All-append (x ∷ xs) ys hx hy = (hx.0, All-append xs ys hx.1 hy)

  pub All-left : (xs ys : List A) → All P (xs ++ ys) → All P xs
  All-left [] ys h = tt
  All-left (x ∷ xs) ys h = (h.0, All-left xs ys h.1)

  pub All-right : (xs ys : List A) → All P (xs ++ ys) → All P ys
  All-right [] ys h = h
  All-right (x ∷ xs) ys h = All-right xs ys h.1

  -- without one element
  pub All-drop : (y : A) (xs ys : List A) → All P (xs ++ y ∷ ys) → All P (xs ++ ys)
  All-drop y [] ys h = h.1
  All-drop y (x ∷ xs) ys h = (h.0, All-drop y xs ys h.1)

-- `a` is none of the numbers, and the numbers are distinct.
abbrev pub NotIn : ℕ → List ℕ → Type 0
NotIn a xs = All (λ x. a ≢ x) xs

abbrev pub Distinct : List ℕ → Type 0
Distinct [] = Unit
Distinct (x ∷ xs) = NotIn x xs × Distinct xs

pub Distinct-left : (xs ys : List ℕ) → Distinct (xs ++ ys) → Distinct xs
Distinct-left [] ys h = tt
Distinct-left (x ∷ xs) ys h = (All-left (λ y. x ≢ y) xs ys h.0, Distinct-left xs ys h.1)

pub Distinct-right : (xs ys : List ℕ) → Distinct (xs ++ ys) → Distinct ys
Distinct-right [] ys h = h
Distinct-right (x ∷ xs) ys h = Distinct-right xs ys h.1

pub Distinct-drop : (y : ℕ) (xs ys : List ℕ) → Distinct (xs ++ y ∷ ys) → Distinct (xs ++ ys)
Distinct-drop y [] ys h = h.1
Distinct-drop y (x ∷ xs) ys h = (All-drop (λ v. x ≢ v) y xs ys h.0, Distinct-drop y xs ys h.1)

pub Distinct-apart : (y : ℕ) (xs ys : List ℕ) → Distinct (xs ++ y ∷ ys) → NotIn y xs
Distinct-apart y [] ys h = tt
Distinct-apart y (x ∷ xs) ys h =
    (λ e. (All-right (λ v. x ≢ v) xs (y ∷ ys) h.0).0 (sym e), Distinct-apart y xs ys h.1)

pub Distinct-snoc : (n : ℕ) (xs : List ℕ) → NotIn n xs → Distinct xs → Distinct (xs ++ n ∷ [])
Distinct-snoc n [] out d = (tt, tt)
Distinct-snoc n (x ∷ xs) out d = (
  All-append (λ v. x ≢ v) xs (n ∷ []) d.0 ((λ e. out.0 (sym e)), tt),
  Distinct-snoc n xs out.1 d.1,
)
