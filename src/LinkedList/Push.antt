-- ===== src/LinkedList/Push.antt =====
-- `push_front`, `push_back` and `insert_before` of lib/ebl/linked_list.h.
use cxkernel.Base.{
  ◌≡◌, ◌≢◌, refl, List, [], ◌∷◌, ◌++◌, arith, NotIn, All-append, Distinct-snoc, sym, some, ne→==,
}
use cxkernel.LinkedList.{
  Ptr, null, Links, insert_before_unsafe, singleton, push_front, push_back, update,
}
use cxkernel.LinkedList.Chain.{Chain, Chain-left, Chain-right, Chain-inserted, inserted}
use cxkernel.LinkedList.Ring.{
  IsRing, SameOutside, Returns, returns, insert_before_unsafe-inserted, prev-ne_null, prev-ne,
}

-- the links after `n` has been put before the root `x`: the same ring, seen from `x` or from `n`
module _ (s : Links) (x n : Ptr) (xs : List Ptr) (new : n ≢ null) (out : NotIn n (x ∷ xs))
    (h : IsRing s x (x ∷ xs)) where
  abbrev after : Links
  after = inserted s x n

  insert-after : insert_before_unsafe x n s ≡ some (tt, after)
  insert-after =
      insert_before_unsafe-inserted s x n (λ e. h.1.0 (sym e)) new (λ e. out.0 (sym e))
        (prev-ne_null s x xs h.1 h.3)

  after-Chain : Chain after x (xs ++ n ∷ []) x
  after-Chain = Chain-inserted s x n out.0 x xs out.0 out.1 h.2.0 h.2.0 h.2.1 h.3

  after-SameOutside : SameOutside (n ∷ x ∷ xs) s after
  after-SameOutside u o = let far = prev-ne s x u xs o.1 h.3 in (ground arith, ground arith)

  after-front : IsRing after n (n ∷ x ∷ xs)
  after-front = (
    refl,
    ((λ e. new (sym e)), h.1),
    (out, h.2),
    (
      (Chain-right after x n x xs [] after-Chain).0,
      (Chain-right after x n x xs [] after-Chain).1,
      Chain-left after x n x xs [] after-Chain,
    ),
  )

  after-back : IsRing after x (x ∷ xs ++ n ∷ [])
  after-back = (
    refl,
    (h.1.0, All-append (λ v. null ≢ v) xs (n ∷ []) h.1.1 ((λ e. new (sym e)), tt)),
    Distinct-snoc n (x ∷ xs) out h.2,
    after-Chain,
  )

abbrev alone : Links → Ptr → Links
alone s n = record { next = update s.next n n; prev = update s.prev n n }

singleton-alone : (s : Links) (n : Ptr) → n ≢ null → singleton n s ≡ some (n, alone s n)
unfolding singleton
singleton-alone s n new = ground arith

singleton-IsRing :
    (s : Links) (n : Ptr)
    → n ≢ null
    → Returns (λ r t. IsRing t r (n ∷ []) × SameOutside (n ∷ []) s t) (singleton n s)
singleton-IsRing s n new = rw (singleton-alone s n new) (
    returns (
      (refl, ((λ e. new (sym e)), tt), (tt, tt), (ground arith, ground arith)),
      λ u o. (ground arith, ground arith),
    ))

push_front-cons :
    (s : Links) (x n : Ptr) (xs : List Ptr)
    → n ≢ null
    → NotIn n (x ∷ xs)
    → IsRing s x (x ∷ xs)
    → Returns (λ r t. IsRing t r (n ∷ x ∷ xs) × SameOutside (n ∷ x ∷ xs) s t) (push_front x n s)
unfolding push_front
push_front-cons s x n xs new out h =
    rw (ne→== x null (λ e. h.1.0 (sym e)), insert-after s x n xs new out h)
      (returns (after-front s x n xs new out h, after-SameOutside s x n xs new out h))

push_back-cons :
    (s : Links) (x n : Ptr) (xs : List Ptr)
    → n ≢ null
    → NotIn n (x ∷ xs)
    → IsRing s x (x ∷ xs)
    → Returns
        (λ r t. IsRing t r (x ∷ xs ++ n ∷ []) × SameOutside (n ∷ x ∷ xs) s t)
        (push_back x n s)
unfolding push_back
push_back-cons s x n xs new out h =
    rw (ne→== x null (λ e. h.1.0 (sym e)), insert-after s x n xs new out h)
      (returns (after-back s x n xs new out h, after-SameOutside s x n xs new out h))

-- `push_front` of a new node puts it first, and changes the links of no node outside the list.
pub push_front-IsRing :
    (s : Links) (root n : Ptr) (xs : List Ptr)
    → n ≢ null
    → NotIn n xs
    → IsRing s root xs
    → Returns (λ r t. IsRing t r (n ∷ xs) × SameOutside (n ∷ xs) s t) (push_front root n s)
unfolding push_front
push_front-IsRing s root n [] new out h = rw h (singleton-IsRing s n new)
push_front-IsRing s root n (x ∷ xs) new out h =
    let p = h.0 in rw p (push_front-cons s x n xs new out (refl, h.1, h.2, h.3))

-- `push_back` of a new node puts it last, and changes the links of no node outside the list.
pub push_back-IsRing :
    (s : Links) (root n : Ptr) (xs : List Ptr)
    → n ≢ null
    → NotIn n xs
    → IsRing s root xs
    → Returns (λ r t. IsRing t r (xs ++ n ∷ []) × SameOutside (n ∷ xs) s t) (push_back root n s)
unfolding push_back
push_back-IsRing s root n [] new out h = rw h (singleton-IsRing s n new)
push_back-IsRing s root n (x ∷ xs) new out h =
    let p = h.0 in rw p (push_back-cons s x n xs new out (refl, h.1, h.2, h.3))
