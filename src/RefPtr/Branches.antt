-- ===== src/RefPtr/Branches.antt =====
-- The branches of the operations of lib/ebl/memory.h.
use cxkernel.Base.{ℕ, ◌≡◌, ◌≢◌, arith, true, refl}
use cxkernel.RefPtr.{
  Refs, get, put, at, add_ref, release, adopt, destroy, assign, from_raw, copy_assign, drop_ref,
  adopt_ref, construct, make_ref,
}

pub from_raw_null : (i p : ℕ) (s : Refs) → p ≡ 0 → from_raw i p s ≡ assign i p s
unfolding from_raw
from_raw_null i p s z = ground (arith, z)

pub from_raw_some : (i p : ℕ) (s : Refs) → p ≢ 0 → from_raw i p s ≡ assign i p (add_ref p s)
unfolding from_raw add_ref
from_raw_some i p s ne = ground (arith, ne)

pub add_ref_slots : (p : ℕ) (s : Refs) → (add_ref p s).slots ≡ s.slots
unfolding add_ref
add_ref_slots p s = refl

pub made_null : (i p : ℕ) (s : Refs) → p ≡ 0 → (make_ref i p s).1 ≡ s
unfolding make_ref
made_null i p s z = ground (arith, z)

pub made_some :
    (i p : ℕ) (s : Refs)
    → p ≢ 0
    → (make_ref i p s).1 ≡ record {
      slots = put s.slots i p;
      ref_count = at (at s.ref_count p 0) p 1;
      live = at s.live p true;
    }
unfolding make_ref adopt_ref adopt construct
made_some i p s ne = ground (arith, ne)

pub copy_assign_null :
    (i j : ℕ) (s : Refs)
    → get s.slots j ≡ 0
    → copy_assign i j s ≡ destroy (get s.slots i) (assign i (get s.slots j) s)
unfolding copy_assign
copy_assign_null i j s z = ground (arith, z)

pub copy_assign_some :
    (i j : ℕ) (s : Refs)
    → get s.slots j ≢ 0
    → copy_assign i j s
      ≡ destroy (get s.slots i) (assign i (get s.slots j) (add_ref (get s.slots j) s))
unfolding copy_assign add_ref
copy_assign_some i j s ne = ground (arith, ne)

pub drop_ref-assign : (i : ℕ) (s : Refs) → drop_ref i s ≡ destroy (get s.slots i) (assign i 0 s)
unfolding drop_ref destroy release
drop_ref-assign i s = ground arith
