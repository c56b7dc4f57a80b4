-- ===== src/VmRegion/Tests.antt =====
-- Runs of core/vmregion.cc: a root region of 256 pages with one child.
use cxkernel.VmRegion.Roots.{roots, init_aspace-allocate}
use cxkernel.Base.{
  ◌≡◌, ◌+◌, ◌≤◌, ◌<◌, refl, none, some, [], ◌∷◌, arith, ◌%◌, ◌==◌, if◌then◌else◌, inr,
}
use cxkernel.VmRegion.{
  Store, allocated, alignment, allocate_vmr_compact, foreach_hole, first_fit, capability, type_of,
}
use cxkernel.BitField
use cxkernel.Util.{max, align_up}
use cxkernel.VmRegion.Allocate.{
  IsReady, IsAllowed, IsPlaced, run, allocated-IsPlaced, allocate_complete,
}

-- region 1 with the child 2 at 0x1000
abbrev regions : Store
regions p =
    if p == 1
    then record { base = 0; size = 0x100000; flags = 15; parent = none; children = 2 ∷ [] }
    else record { base = 0x1000; size = 0x1000; flags = 15; parent = some 1; children = [] }

ready : IsReady regions 1 0x2000 12 0x100000
ready = record {
  at_zero = refl;
  extent = refl;
  shift = omega arith;
  room = omega arith;
  laid = (omega arith, omega arith);
  distinct = (tt, tt);
}

allowed : IsAllowed regions 1 0x2000 15
unfolding capability type_of BitField.get
allowed = record { subset = refl; is_region = refl; pages = refl }

allocated_run : (run (some 3) regions 1 0x2000 12 15).0 ≡ allocated 3
unfolding allocate_vmr_compact foreach_hole first_fit alignment capability type_of BitField.get max
    align_up
allocated_run = refl

aligned_4 : 0x4000 % alignment 12 ≡ 0
unfolding alignment max
aligned_4 = refl

allocated_example :
    IsPlaced regions (run (some 3) regions 1 0x2000 12 15).1 1 3 0x2000 (alignment 12) 0x100000
allocated_example =
    allocated-IsPlaced (some 3) regions 1 0x2000 12 15 0x100000 ready 3 (ground arith)
      (ground arith, tt) (ground arith, tt) allocated_run

complete_example : (run (some 3) regions 1 0x2000 12 15).0 ≡ allocated 3
complete_example =
    allocate_complete (some 3) regions 1 0x2000 12 15 0x100000 ready 3 0x4000 allowed refl
      (omega arith) aligned_4 (omega arith) (inr (omega arith), tt)

-- Two pages from each root of an address space at 1 and 2.
roots_example :
    let s = roots 1 2 0x9000 regions in
    let u = run (some 3) s 1 0x2000 12 15 in
    let k = run (some 3) s 2 0x2000 12 15 in
    (u.0 ≡ allocated 3)
    × ((u.1 3).base ≡ (s 1).base)
    × ((u.1 3).base + (u.1 3).size ≤ (s 1).base + (s 1).size)
    × (k.0 ≡ allocated 3)
    × ((k.1 3).base ≡ 0)
    × ((k.1 3).base + (k.1 3).size < (s 2).base)
    × ((k.1 3).parent ≡ some 2)
roots_example =
    init_aspace-allocate regions 1 2 3 0x9000 0x2000 12 15 (ground arith) (ground arith)
      (ground arith) (omega arith) (omega arith) (omega arith) refl (allowed.is_region)
