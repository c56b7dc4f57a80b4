-- ===== src/LinkedList/Visit.antt =====
-- Iteration over a list: `begin`, `end`, `operator++` and `size` of lib/ebl/linked_list.h.
use cxkernel.Base.{
  ℕ, zero, suc, ◌+◌, ◌<◌, ◌≡◌, ◌≢◌, Bool, true, false, List, [], ◌∷◌, arith, NotIn, length, sym,
  some, ◌==◌, ne→==, Bool-cases, Option-cases, inl, inr, Option, none,
}
use cxkernel.LinkedList.{Ptr, null, Links, Iterator, begin, end, iter_eq, visit, size_loop, size}
use cxkernel.LinkedList.Chain.{Chain}
use cxkernel.LinkedList.Ring.{IsRing}

-- An iterator at `y` that has not reached the end of the list of `root`.
abbrev IsInside : Ptr → Ptr → Bool → Type 0
IsInside root y true = y ≢ root
IsInside root y false = Unit

at : Ptr → Bool → Iterator
at y f = record { node = y; flag = f }

module _ (s : Links) (root : Ptr) (live : root ≢ null) where
  not_end : (y : Ptr) (f : Bool) → IsInside root y f → iter_eq (at y f) (end root) ≡ false
  unfolding at
  not_end y true i = ground arith
  not_end y false i = ground arith

  visit-step :
      (fuel : ℕ) (y z : Ptr) (f : Bool) (l : List Ptr)
      → y ≢ null
      → IsInside root y f
      → s.next y ≡ z
      → visit fuel root (at z true) s ≡ some (l, s)
      → visit (suc fuel) root (at y f) s ≡ some (y ∷ l, s)
  unfolding visit at
  visit-step fuel y z f l a i e rest = rw (not_end y f i, ne→== y null a, e, rest)

  visit-end : (fuel : ℕ) → visit (suc fuel) root (at root true) s ≡ some ([], s)
  unfolding visit at
  visit-end fuel = ground arith

  visit-Chain :
      (fuel : ℕ) (y : Ptr) (f : Bool) (ys : List Ptr)
      → NotIn null (y ∷ ys)
      → IsInside root y f
      → NotIn root ys
      → Chain s y ys root
      → length ys + 1 < fuel
      → visit fuel root (at y f) s ≡ some (y ∷ ys, s)
  visit-Chain zero y f ys live' i out c h = absurd (omega arith)
  visit-Chain (suc zero) y f ys live' i out c h = absurd (omega arith)
  visit-Chain (suc (suc fuel)) y f [] live' i out c h =
      visit-step (suc fuel) y root f [] (λ e. live'.0 (sym e)) i c.0 (visit-end fuel)
  visit-Chain (suc (suc fuel)) y f (z ∷ ys) live' i out c h =
      visit-step (suc fuel) y z f (z ∷ ys) (λ e. live'.0 (sym e)) i c.0
        (visit-Chain (suc fuel) z true ys live'.1 (λ e. out.0 (sym e)) out.1 c.2 (omega arith))

-- A loop over a list visits its nodes in order and ends, with fuel for one more round than
-- there are nodes.
visit-IsRing :
    (s : Links) (fuel : ℕ) (root : Ptr) (xs : List Ptr)
    → IsRing s root xs
    → length xs < fuel
    → visit fuel root (begin root) s ≡ some (xs, s)
unfolding visit at
visit-IsRing s zero root xs h lt = absurd (omega arith)
visit-IsRing s (suc fuel) root [] h lt = rw h
visit-IsRing s (suc fuel) root (x ∷ xs) h lt =
    let p = h.0 in
    rw p (visit-Chain s x (λ e. h.1.0 (sym e)) (suc fuel) x false xs h.1 tt h.2.0 h.3 (omega arith))

-- `size` counts the nodes that a loop visits.
size_loop-visit :
    (s t : Links) (fuel : ℕ) (root : Ptr) (it : Iterator) (count : ℕ) (l : List Ptr)
    → visit fuel root it s ≡ some (l, t)
    → size_loop fuel root it count s ≡ some (count + length l, t)
unfolding visit size_loop at
size_loop-visit s t zero root it count l h = cc
size_loop-visit s t (suc fuel) root it count l h = elim (Bool-cases (iter_eq it (end root))) [
  | inl e ↦
      let h' : ◌≡◌ {A = Option (List Ptr × Links)} (some ([], s)) (some (l, t)) = rw e at h in
      rw e (ground arith)
  | inr e ↦ elim (Bool-cases (it.node == null)) [
    | inl n ↦ let h' : ◌≡◌ {A = Option (List Ptr × Links)} none (some (l, t)) = rw (e, n) at h in cc
    | inr n ↦
        rw (e, n)
          (elim (Option-cases (visit fuel root (at (s.next it.node) true) s)) [
            | inl q ↦
                let h' : ◌≡◌ {A = Option (List Ptr × Links)} none (some (l, t)) =
                  rw (e, n, q) at h in
                cc
            | inr (r, q) ↦
                let h' : some (it.node ∷ r.0, r.1) ≡ some (l, t) = rw (e, n, q) at h in
                ground (
                  arith,
                  size_loop-visit s r.1 fuel root (at (s.next it.node) true) (count + 1) r.0 q,
                )
          ])
  ]
]

-- `size` of a list is its length; with more fuel than nodes the loop ends.
pub size-length :
    (s : Links) (fuel : ℕ) (root : Ptr) (xs : List Ptr)
    → IsRing s root xs
    → length xs < fuel
    → size fuel root s ≡ some (length xs, s)
unfolding size
size-length s fuel root xs h lt =
    ground
      (arith, size_loop-visit s s fuel root (begin root) 0 xs (visit-IsRing s fuel root xs h lt))
