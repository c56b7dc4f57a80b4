-- ===== src/LinkedList/Pop.antt =====
-- `remove_unsafe`, `pop_front` and `pop_back` of lib/ebl/linked_list.h.
use cxkernel.Base.{
  ◌≡◌, ◌≢◌, refl, List, [], ◌∷◌, ◌++◌, arith, NotIn, All-left, All-right, All-append, sym, ◌∙◌,
  some, none, ne→==, Distinct-drop, Distinct-apart, Distinct-snoc, All-drop,
}
use mathlib.Core.Path.{subst}
use mathlib.Core.List.{append-nil}
use cxkernel.LinkedList.{Ptr, null, Links, unlink, remove_unsafe, pop_front, pop_back, ◌>>=◌}
use cxkernel.LinkedList.Chain.{
  Chain, Chain-left, Chain-right, Chain-append, Chain-removed, removed, last_of-ne, prev-last,
  next-first, first-ne,
}
use cxkernel.LinkedList.Ring.{IsRing, SameOutside, Returns, returns, unlink-removed}

-- The links after the removal of `y` from the ring of `x`, the nodes `xs`, `y` and `ys`.
module _ (s : Links) (x y : Ptr) (xs ys : List Ptr) (h : IsRing s x (x ∷ xs ++ y ∷ ys)) where
  abbrev gone : Links
  gone = removed s y

  before-y : Chain s x xs y
  before-y = Chain-left s x y x xs ys h.3

  behind-y : Chain s y ys x
  behind-y = Chain-right s x y x xs ys h.3

  x-ne-y : x ≢ y
  x-ne-y = (All-right (λ v. x ≢ v) xs (y ∷ ys) h.2.0).0

  null-ne : (null ≢ y) × NotIn null ys
  null-ne = All-right (λ v. null ≢ v) xs (y ∷ ys) h.1.1

  prev-null : null ≢ s.prev y
  prev-null e =
      last_of-ne null x xs h.1.0 (All-left (λ v. null ≢ v) xs (y ∷ ys) h.1.1)
        (e ∙ prev-last s x y xs before-y)

  prev-y : y ≢ s.prev y
  prev-y e =
      last_of-ne y x xs (λ e'. x-ne-y (sym e')) (Distinct-apart y xs ys h.2.1)
        (e ∙ prev-last s x y xs before-y)

  unlink-gone : unlink y s ≡ some (tt, gone)
  unlink-gone =
      unlink-removed s y (λ e. null-ne.0 (sym e)) (λ e. prev-null (sym e))
        (λ e. first-ne null x ys h.1.0 null-ne.1 (sym e ∙ next-first s y x ys behind-y))
        (λ e. prev-y (sym e))

  gone-IsRing : IsRing gone x (x ∷ xs ++ ys)
  gone-IsRing = (
    refl,
    (h.1.0, All-drop (λ v. null ≢ v) y xs ys h.1.1),
    (All-drop (λ v. x ≢ v) y xs ys h.2.0, Distinct-drop y xs ys h.2.1),
    Chain-removed s y x x xs ys (λ e. x-ne-y (sym e)) (λ e. x-ne-y (sym e)) h.2.1 h.2.0 h.2.0
        before-y behind-y,
  )

  gone-SameOutside : SameOutside (x ∷ xs ++ y ∷ ys) s gone
  gone-SameOutside u o =
      let rest = All-right (λ v. u ≢ v) xs (y ∷ ys) o.1 in
      let far : u ≢ s.next y = λ e. first-ne u x ys o.0 rest.1 (e ∙ next-first s y x ys behind-y) in
      let far' : u ≢ s.prev y = λ e.
        last_of-ne u x xs o.0 (All-left (λ v. u ≢ v) xs (y ∷ ys) o.1)
          (e ∙ prev-last s x y xs before-y) in
      let out = rest.0 in (ground arith, ground arith)

-- The ring of `y` seen from its second node.
rotated :
    (s : Links) (y z : Ptr) (zs : List Ptr)
    → IsRing s y (y ∷ z ∷ zs)
    → IsRing s z (z ∷ zs ++ y ∷ [])
rotated s y z zs h = (
  refl,
  (h.1.1.0, All-append (λ v. null ≢ v) zs (y ∷ []) h.1.1.1 (h.1.0, tt)),
  Distinct-snoc y (z ∷ zs) h.2.0 h.2.1,
  Chain-append s z y z zs [] h.3.2 (h.3.0, h.3.1),
)

-- after the first of several nodes has been unlinked
module _ (s : Links) (y z : Ptr) (zs : List Ptr) (h : IsRing s y (y ∷ z ∷ zs)) where
  unlink-first : unlink y s ≡ some (tt, removed s y)
  unlink-first = unlink-gone s z y zs [] (rotated s y z zs h)

  first-IsRing : IsRing (removed s y) z (z ∷ zs)
  first-IsRing =
      subst (λ v. IsRing (removed s y) z (z ∷ v)) (append-nil zs)
        (gone-IsRing s z y zs [] (rotated s y z zs h))

  first-SameOutside : SameOutside (y ∷ z ∷ zs) s (removed s y)
  first-SameOutside u o =
      gone-SameOutside s z y zs [] (rotated s y z zs h) u
        (o.1.0, All-append (λ v. u ≢ v) zs (y ∷ []) o.1.1 (o.0, tt))

-- one run of `pop_front`, for each length of the list
pop_front-one :
    (s : Links) (x : Ptr) → x ≢ null → s.next x ≡ x → pop_front x s ≡ some ((x, null), s)
unfolding pop_front
pop_front-one s x a e = ground arith

pop_front-more :
    (s t : Links) (x z : Ptr)
    → x ≢ null
    → s.next x ≡ z
    → x ≢ z
    → unlink x s ≡ some (tt, t)
    → pop_front x s ≡ some ((x, z), t)
unfolding pop_front remove_unsafe
pop_front-more s t x z a e ne u = ground arith

abbrev pub Popped : Links → Ptr → List Ptr → Ptr × Ptr → Links → Type 0
Popped s x xs (n, r) t = (n ≡ x) × IsRing t r xs × SameOutside (x ∷ xs) s t

pop_front-cons :
    (s : Links) (x : Ptr) (xs : List Ptr)
    → IsRing s x (x ∷ xs)
    → Returns (Popped s x xs) (pop_front x s)
pop_front-cons s x [] h =
    rw (pop_front-one s x (λ e. h.1.0 (sym e)) h.3.0) (returns (refl, refl, λ u o. (refl, refl)))
pop_front-cons s x (z ∷ zs) h =
    rw
      (pop_front-more s (removed s x) x z (λ e. h.1.0 (sym e)) h.3.0 h.2.0.0
        (unlink-first s x z zs h))
      (returns (refl, first-IsRing s x z zs h, first-SameOutside s x z zs h))

-- `pop_front` of a non-empty list returns the first node and leaves the rest, whatever the
-- length, and changes the links of no node outside the list.
pub pop_front-IsRing :
    (s : Links) (root x : Ptr) (xs : List Ptr)
    → IsRing s root (x ∷ xs)
    → Returns (Popped s x xs) (pop_front root s)
pop_front-IsRing s root x xs h = let p = h.0 in rw p (pop_front-cons s x xs (refl, h.1, h.2, h.3))

-- On an empty list it returns null and changes nothing.
pub pop_front-nil :
    (s : Links) (root : Ptr) → IsRing s root [] → pop_front root s ≡ some ((null, null), s)
unfolding pop_front
pop_front-nil s root h = rw h

-- `remove` of a node of the list that is not the only one: the rest, in order, is left.
pub remove-IsRing :
    (s : Links) (x y : Ptr) (xs ys : List Ptr)
    → IsRing s x (x ∷ xs ++ y ∷ ys)
    → Returns
        (λ r t. IsRing t r (x ∷ xs ++ ys) × SameOutside (x ∷ xs ++ y ∷ ys) s t)
        (remove_unsafe x y s)
unfolding remove_unsafe
remove-IsRing s x y xs ys h =
    rw
      (
        ne→== y null (λ e. (null-ne s x y xs ys h).0 (sym e)),
        ne→== y x (λ e. x-ne-y s x y xs ys h (sym e)),
        unlink-gone s x y xs ys h,
      )
      (returns (gone-IsRing s x y xs ys h, gone-SameOutside s x y xs ys h))

remove-root :
    (s t : Links) (x z : Ptr)
    → x ≢ null
    → s.next x ≡ z
    → unlink x s ≡ some (tt, t)
    → remove_unsafe x x s ≡ some (z, t)
unfolding remove_unsafe
remove-root s t x z a e u = ground arith

-- `remove` of the first of several nodes: the second becomes the root.
pub remove_first-IsRing :
    (s : Links) (x z : Ptr) (zs : List Ptr)
    → IsRing s x (x ∷ z ∷ zs)
    → Returns (λ r t. IsRing t r (z ∷ zs) × SameOutside (x ∷ z ∷ zs) s t) (remove_unsafe x x s)
remove_first-IsRing s x z zs h =
    rw (remove-root s (removed s x) x z (λ e. h.1.0 (sym e)) h.3.0 (unlink-first s x z zs h))
      (returns (first-IsRing s x z zs h, first-SameOutside s x z zs h))

-- `remove` of the only node leaves the root on it with null links, so that the next `pop_front`
-- dereferences null.
remove_only-pop_front :
    (s : Links) (x : Ptr) → IsRing s x (x ∷ []) → (remove_unsafe x x >>= pop_front) s ≡ none
unfolding remove_unsafe pop_front unlink
remove_only-pop_front s x h = ground arith

pop_back-one : (s : Links) (x : Ptr) → x ≢ null → s.prev x ≡ x → pop_back x s ≡ some ((x, null), s)
unfolding pop_back
pop_back-one s x a e = ground arith

pop_back-more :
    (s t : Links) (x y : Ptr)
    → x ≢ null
    → y ≢ null
    → s.prev x ≡ y
    → x ≢ y
    → unlink y s ≡ some (tt, t)
    → pop_back x s ≡ some ((y, x), t)
unfolding pop_back remove_unsafe
pop_back-more s t x y a b e ne u = ground arith

-- `pop_back` of a non-empty list returns the last node and leaves the others.
pub pop_back-IsRing :
    (s : Links) (root x : Ptr) → IsRing s root (x ∷ []) → Returns (Popped s x []) (pop_back root s)
pop_back-IsRing s root x h =
    let p = h.0 in
    rw (p, pop_back-one s x (λ e. h.1.0 (sym e)) h.3.1) (returns (refl, refl, λ u o. (refl, refl)))

-- `pop_back` of a list of two nodes or more returns the last node and leaves the others, and changes
-- the links of no node outside the list.
pub pop_back_more-IsRing :
    (s : Links) (root x y : Ptr) (xs : List Ptr)
    → IsRing s root (x ∷ xs ++ y ∷ [])
    → Returns
        (λ (n, r) t. (n ≡ y) × IsRing t r (x ∷ xs) × SameOutside (x ∷ xs ++ y ∷ []) s t)
        (pop_back root s)
pop_back_more-IsRing s root x y xs h =
    let p = h.0 in
    let h' : IsRing s x (x ∷ xs ++ y ∷ []) = (refl, h.1, h.2, h.3) in
    rw
      (
        p,
        pop_back-more s (removed s y) x y (λ e. h.1.0 (sym e))
            (λ e. (null-ne s x y xs [] h').0 (sym e)) (behind-y s x y xs [] h').1
            (x-ne-y s x y xs [] h') (unlink-gone s x y xs [] h'),
      )
      (returns (
        refl,
        subst (λ v. IsRing (removed s y) x (x ∷ v)) (append-nil xs) (gone-IsRing s x y xs [] h'),
        gone-SameOutside s x y xs [] h',
      ))
