-- ===== src/LinkedList/Ring.antt =====
-- What a list object of lib/ebl/linked_list.h stands for, and runs that return with a
-- postcondition.
use cxkernel.Base.{◌≡◌, ◌≢◌, List, [], ◌∷◌, arith, NotIn, Distinct, ◌∙◌, sym, Option, some}
use cxkernel.LinkedList.{Ptr, null, Links, Cmd, and_then, insert_before_unsafe, unlink}
use cxkernel.LinkedList.Chain.{Chain, prev-last, last_of-ne, inserted, removed}

-- `root` heads the circular list of the distinct non-null nodes `xs`.
abbrev pub IsRing : Links → Ptr → List Ptr → Type 0
IsRing s root [] = root ≡ null
IsRing s root (x ∷ xs) = (root ≡ x) × NotIn null (x ∷ xs) × Distinct (x ∷ xs) × Chain s x xs x

-- The stores differ at most at the nodes `xs`.
abbrev pub SameOutside : List Ptr → Links → Links → Type 0
SameOutside xs s t = (u : Ptr) → NotIn u xs → (t.next u ≡ s.next u) × (t.prev u ≡ s.prev u)

-- The run dereferences no null pointer, and its result and final store meet `P`.
pub data Returns {A : Type 0} (P : A → Links → Type 0) : Option (A × Links) → Type 0 where
  returns : {a : A} {s : Links} → P a s → Returns P (some (a, s))

module _ {A : Type 0} {P : A → Links → Type 0} where
  pub bind :
      {B : Type 0} {Q : B → Links → Type 0} {r : Option (A × Links)} {k : A → Cmd B}
      → Returns P r
      → ((a : A) (s : Links) → P a s → Returns Q (k a s))
      → Returns Q (and_then r k)
  bind (returns p) next = next _ _ p

  pub mono :
      {Q : A → Links → Type 0} {r : Option (A × Links)}
      → Returns P r
      → ((a : A) (s : Links) → P a s → Q a s)
      → Returns Q r
  mono (returns p) weaken = returns (weaken _ _ p)

pub insert_before_unsafe-inserted :
    (s : Links) (node new_node : Ptr)
    → node ≢ null
    → new_node ≢ null
    → node ≢ new_node
    → s.prev node ≢ null
    → insert_before_unsafe node new_node s ≡ some (tt, inserted s node new_node)
unfolding insert_before_unsafe
insert_before_unsafe-inserted s node new_node a b c d = ground arith

pub unlink-removed :
    (s : Links) (y : Ptr)
    → y ≢ null
    → s.prev y ≢ null
    → s.next y ≢ null
    → s.prev y ≢ y
    → unlink y s ≡ some (tt, removed s y)
unfolding unlink
unlink-removed s y a b c d = ground arith

module _ (s : Links) (x : Ptr) where
  pub prev-ne_null : (xs : List Ptr) → NotIn null (x ∷ xs) → Chain s x xs x → s.prev x ≢ null
  prev-ne_null xs out c e = last_of-ne null x xs out.0 out.1 (sym e ∙ prev-last s x x xs c)

  -- A node outside a ring is not next to a node of it.
  pub prev-ne : (u : Ptr) (xs : List Ptr) → NotIn u (x ∷ xs) → Chain s x xs x → u ≢ s.prev x
  prev-ne u xs out c e = last_of-ne u x xs out.0 out.1 (e ∙ prev-last s x x xs c)
