-- ===== src/VmRegion/Destroy/Tests.antt =====
-- A root region 1 with the children 2 and 3, of which 3 has a child 4; and one whose only child is 3.
use cxkernel.Base.{◌≡◌, ◌==◌, if◌then◌else◌, true, refl, arith, [], ◌∷◌, All}
use cxkernel.Status.{ok}
use cxkernel.LinkedList.{Ptr, null}
use cxkernel.LinkedList.Ring.{IsRing}
use cxkernel.VmRegion.Destroy.{Regions, done, null_read, destroy}
use cxkernel.VmRegion.Destroy.Forest.{Forest, nil, cons, nodes, Released, IsGone}
use cxkernel.VmRegion.Destroy.Parent.{IsBelow, later, destroy_child, destroy_only-fault}

abbrev swap23 : Ptr → Ptr
swap23 p = if p == 2 then 3 else if p == 3 then 2 else p

abbrev family : Regions
family = record {
  links = record { next = swap23; prev = swap23 };
  root = λ p. if p == 1 then 2 else if p == 3 then 4 else 0;
  parent = λ p. if p == 4 then 3 else 1;
  refs = record { slots = []; ref_count = λ p. 1; live = λ p. true };
}

abbrev single : Regions
single = record {
  links = record { next = λ p. p; prev = λ p. p };
  root = λ p. if p == 1 then 3 else if p == 3 then 4 else 0;
  parent = λ p. if p == 4 then 3 else 1;
  refs = record { slots = []; ref_count = λ p. 1; live = λ p. true };
}

abbrev leaf : Forest
leaf = cons 4 nil nil

family-IsBelow : IsBelow family 3 1 leaf
family-IsBelow = record {
  ring = (refl, ground arith, ground arith, ground arith);
  holds = (refl, tt, tt);
  distinct = ground arith;
  counts = omega arith;
  own = omega arith;
  up = refl;
  some_this = omega arith;
  some_parent = omega arith;
  apart = ground arith;
}

single-IsBelow : IsBelow single 3 1 leaf
single-IsBelow = record {
  ring = (refl, ground arith, ground arith, ground arith);
  holds = (refl, tt, tt);
  distinct = ground arith;
  counts = omega arith;
  own = omega arith;
  up = refl;
  some_this = omega arith;
  some_parent = omega arith;
  apart = ground arith;
}

child_example :
    (t : Regions) × (destroy 4 3 family ≡ done ok t)
    × IsRing t.links (t.root 1) (2 ∷ [])
    × (t.root 3 ≡ null)
    × Released family t 3
    × All (IsGone family t) (nodes leaf)
child_example =
    destroy_child family 3 1 leaf 3 (2 ∷ 3 ∷ []) (2 ∷ []) family-IsBelow (omega arith)
      (later [] [] refl (refl, ground arith, ground arith, ground arith)) (ground arith)

only_example : (t : Regions) × (destroy 4 3 single ≡ done ok t) × (destroy 9 1 t ≡ null_read)
only_example =
    destroy_only-fault single 3 1 leaf 3 7 single-IsBelow (omega arith)
      (refl, ground arith, ground arith, ground arith)
