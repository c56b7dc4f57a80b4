-- ===== src/LinkedList/Two.antt =====
-- Two lists of lib/ebl/linked_list.h over the same nodes' links, and a node that goes from one to
-- the other.
use cxkernel.Base.{◌≡◌, ◌≢◌, List, [], ◌∷◌, ◌++◌, NotIn, All, All-append, sym}
use cxkernel.LinkedList.{Ptr, null, Links, push_front, push_back, pop_front}
use cxkernel.LinkedList.Chain.{Chain-frame, Same}
use cxkernel.LinkedList.Ring
use cxkernel.LinkedList.Ring.{IsRing, SameOutside, Returns, returns}
use cxkernel.LinkedList.Push.{push_front-IsRing, push_back-IsRing}
use cxkernel.LinkedList.Pop.{pop_front-IsRing}

-- No node is in both lists.
abbrev pub Apart : List Ptr → List Ptr → Type 0
Apart xs ys = All (λ x. NotIn x ys) xs

pub Apart-nil : (xs : List Ptr) → Apart xs []
Apart-nil [] = tt
Apart-nil (x ∷ xs) = (tt, Apart-nil xs)

pub Apart-cons : (n : Ptr) (xs ys : List Ptr) → NotIn n xs → Apart xs ys → Apart xs (n ∷ ys)
Apart-cons n [] ys out h = tt
Apart-cons n (x ∷ xs) ys out h = (((λ e. out.0 (sym e)), h.0), Apart-cons n xs ys out.1 h.1)

pub Apart-sym : (xs ys : List Ptr) → Apart xs ys → Apart ys xs
Apart-sym [] ys h = Apart-nil ys
Apart-sym (x ∷ xs) ys h = Apart-cons x ys xs h.0 (Apart-sym xs ys h.1)

Apart-snoc : (n : Ptr) (xs ys : List Ptr) → NotIn n xs → Apart xs ys → Apart xs (ys ++ n ∷ [])
Apart-snoc n [] ys out h = tt
Apart-snoc n (x ∷ xs) ys out h = (
  All-append (λ v. x ≢ v) ys (n ∷ []) h.0 ((λ e. out.0 (sym e)), tt),
  Apart-snoc n xs ys out.1 h.1,
)

Same-outside : (s t : Links) (xs ys : List Ptr) → SameOutside ys s t → Apart xs ys → Same s t xs
Same-outside s t [] ys same h = tt
Same-outside s t (x ∷ xs) ys same h = (same x h.0, Same-outside s t xs ys same h.1)

-- A list survives a change of other nodes' links.
pub IsRing-frame :
    (s t : Links) (root : Ptr) (xs ys : List Ptr)
    → SameOutside ys s t
    → Apart xs ys
    → IsRing s root xs
    → IsRing t root xs
IsRing-frame s t root [] ys same h r = r
IsRing-frame s t root (x ∷ xs) ys same h r = (
  r.0,
  r.1,
  r.2,
  Chain-frame s t x x xs r.3 (same x h.0).0 (Same-outside s t xs ys same h.1) (same x h.0).1,
)

-- `a` and `b` head two lists with no node in common.
pub record IsPair (s : Links) (a : Ptr) (xs : List Ptr) (b : Ptr) (ys : List Ptr) : Type 0 where
  pub left : IsRing s a xs
  pub right : IsRing s b ys
  pub apart : Apart xs ys

module _ (s : Links) (a b x : Ptr) (xs ys : List Ptr) (h : IsPair s a (x ∷ xs) b ys) where
  -- the state after the node has left the first list
  pub record IsBetween (n : Ptr) (a' : Ptr) (t : Links) : Type 0 where
    pub node : n ≡ x
    pub rest : IsRing t a' xs
    pub other : IsRing t b ys
    pub new : (x ≢ null) × NotIn x ys × NotIn x xs × Apart xs ys

  pub pop-IsBetween : Returns (λ (n, a') t. IsBetween n a' t) (pop_front a s)
  pop-IsBetween = Ring.mono (pop_front-IsRing s a x xs h.left) λ (n, a') t p. record {
    node = p.0;
    rest = p.1;
    other = IsRing-frame s t b ys (x ∷ xs) p.2 (Apart-sym (x ∷ xs) ys h.apart) h.right;
    new = ((λ e. h.left.1.0 (sym e)), h.apart.0, h.left.2.0, h.apart.1);
  }

  -- a new first node of the second list
  pub push_front-IsPair :
      (n a' : Ptr) (t : Links)
      → IsBetween n a' t
      → Returns (λ b' u. IsPair u a' xs b' (x ∷ ys)) (push_front b n t)
  push_front-IsPair n a' t m =
      let e = m.node in
      rw e (
        Ring.mono (push_front-IsRing t b x ys m.new.0 m.new.1 m.other) λ b' u p.
          let off = Apart-cons x xs ys m.new.2 m.new.3 in
          record {
            left = IsRing-frame t u a' xs (x ∷ ys) p.1 off m.rest;
            right = p.0;
            apart = off;
          })

  -- a new last node of the second list
  pub push_back-IsPair :
      (n a' : Ptr) (t : Links)
      → IsBetween n a' t
      → Returns (λ b' u. IsPair u a' xs b' (ys ++ x ∷ [])) (push_back b n t)
  push_back-IsPair n a' t m =
      let e = m.node in
      rw e (
        Ring.mono (push_back-IsRing t b x ys m.new.0 m.new.1 m.other) λ b' u p.
          let off = Apart-cons x xs ys m.new.2 m.new.3 in
          record {
            left = IsRing-frame t u a' xs (x ∷ ys) p.1 off m.rest;
            right = p.0;
            apart = Apart-snoc x xs ys m.new.2 m.new.3;
          })

pub IsPair-sym :
    (s : Links) (a b : Ptr) (xs ys : List Ptr) → IsPair s a xs b ys → IsPair s b ys a xs
IsPair-sym s a b xs ys h = record {
  left = h.right;
  right = h.left;
  apart = Apart-sym xs ys h.apart;
}
