-- ===== src/LinkedList/Samples.antt =====
-- Small lists for the tests of lib/ebl/linked_list.h and of its clients.
use cxkernel.Base.{refl, [], ◌∷◌, arith, ◌+◌, ◌-◌, ◌==◌, if◌then◌else◌}
use cxkernel.LinkedList.{Links}
use cxkernel.LinkedList.Ring.{IsRing}

-- nodes 1, 2 and 3 in a circle
abbrev pub three : Links
three = record { next = λ p. if p == 3 then 1 else p + 1; prev = λ p. if p == 1 then 3 else p - 1 }

-- node 1 alone
abbrev pub one : Links
one = record { next = λ p. p; prev = λ p. p }

pub three-IsRing : IsRing three 1 (1 ∷ 2 ∷ 3 ∷ [])
three-IsRing = (
  refl,
  (ground arith, (ground arith, (ground arith, tt))),
  ((ground arith, (ground arith, tt)), ((ground arith, tt), (tt, tt))),
  (refl, refl, (refl, refl, (refl, refl))),
)

pub one-IsRing : IsRing one 1 (1 ∷ [])
one-IsRing = (refl, (ground arith, tt), (tt, tt), (refl, refl))
