-- ===== src/LinkedList/Tests.antt =====
-- Runs of the list operations of lib/ebl/linked_list.h on small lists.
use cxkernel.Base.{[], ◌∷◌, arith}
use cxkernel.LinkedList.{push_front}
use cxkernel.LinkedList.Samples.{three, three-IsRing}
use cxkernel.LinkedList.Ring.{IsRing, Returns, SameOutside}
use cxkernel.LinkedList.Push.{push_front-IsRing}

push_front_example :
    Returns
      (λ r t. IsRing t r (4 ∷ 1 ∷ 2 ∷ 3 ∷ []) × SameOutside (4 ∷ 1 ∷ 2 ∷ 3 ∷ []) three t)
      (push_front 1 4 three)
push_front_example =
    push_front-IsRing three 1 4 (1 ∷ 2 ∷ 3 ∷ []) (ground arith)
      (ground arith, (ground arith, (ground arith, tt))) three-IsRing
