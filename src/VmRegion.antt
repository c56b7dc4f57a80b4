-- ===== src/VmRegion.antt =====
-- core/include/core/vmregion.h and core/vmregion.cc: regions of virtual memory and the first-fit
-- allocation of a child region. Regions are records at addresses, the list of children is the
-- sequence of their addresses that the intrusive list stands for.
pub mod Search
pub mod Allocate
pub mod Roots
pub mod Destroy
mod Tests
use cxkernel.Base.{
  ℕ, zero, suc, ◌+◌, ◌-◌, ◌*◌, ◌%◌, ◌^◌, Bool, true, false, not, ◌||◌, Option, none, some, List, [],
  ◌∷◌, ◌++◌, ◌==◌, ltb, leb, if◌then◌else◌, bit_and,
}
use cxkernel.Bits.{u32, u64, sub64}
use cxkernel.Util.{page_size, max, align_up}
use cxkernel.BitField
use cxkernel.LinkedList.{Ptr}
use cxkernel.Status.{
  E, ok, not_implemented, invalid_argument, out_of_memory, permission_denied, allocation_failed,
}

-- the fields of the byte `VmRegionFlags`
unfoldable pub capability : ℕ → ℕ
capability flags = BitField.get 0 4 flags

unfoldable pub type_of : ℕ → ℕ
type_of flags = BitField.get 4 1 flags

-- `VmRegionType`
abbrev pub region : ℕ
region = 0

abbrev pub mapping : ℕ
mapping = 1

pub record VmRegion : Type 0 where
  pub base : ℕ
  pub size : ℕ
  pub flags : ℕ
  pub parent : Option Ptr
  pub children : List Ptr

abbrev pub Store : Type 0
Store = Ptr → VmRegion

abbrev pub write : Store → Ptr → VmRegion → Store
write m p r q = if q == p then r else m q

-- `func` is given the child above the hole, the hole's base and size, and the captured state; it
-- says whether to go on.
module _ {S : Type 0} (func : Option Ptr → ℕ → ℕ → S → S × Bool) (m : Store) (this : Ptr) where
  unfoldable pub foreach_hole : List Ptr → ℕ → S → S
  foreach_hole [] offset s =
      let base = (m this).base in
      let size = (m this).size in
      if ltb (u64 (base + offset)) (u64 (base + size))
      then (func none offset (sub64 (sub64 (u64 (base + size)) base) offset) s).0
      else s
  foreach_hole (c ∷ cs) offset s =
      let base = (m this).base in
      let r : S × Bool =
        if ltb (u64 (base + offset)) (m c).base
        then func (some c) offset (sub64 (sub64 (m c).base base) offset) s
        else (s, true) in
      elim (r.1) [ true ↦ foreach_hole cs (u64 ((m c).base + (m c).size)) r.0 | false ↦ r.0 ]

-- what `allocate_vmr_compact` has found
pub record Hole : Type 0 where
  pub base : ℕ
  pub size : ℕ
  pub child : Option Ptr

-- the function that it hands to `foreach_hole`
unfoldable pub first_fit : ℕ → ℕ → Option Ptr → ℕ → ℕ → Option Hole → Option Hole × Bool
first_fit align size x hole_base hole_size found =
    let aligned_base = align_up hole_base align in
    if ltb (u64 (hole_base + hole_size)) (u64 (aligned_base + size))
    then (found, true)
    else (some (record { base = aligned_base; size = size; child = x }), false)

unfoldable pub insert_before : Ptr → Ptr → List Ptr → List Ptr
insert_before inspt node [] = []
insert_before inspt node (x ∷ xs) =
    if x == inspt then node ∷ x ∷ xs else x ∷ insert_before inspt node xs

-- `panic` is a failed assertion.
pub data Outcome : Type 0 where
  panic : Outcome
  failed : E → Outcome
  allocated : Ptr → Outcome

-- `align_pow2` is below 32, as the shift of an `unsigned` wants.
unfoldable pub alignment : ℕ → ℕ
alignment align_pow2 = max (2 ^ align_pow2) page_size

-- the children of the parent, with the new region put before the child above its hole
abbrev pub with_child : Option Ptr → Ptr → List Ptr → List Ptr
with_child none new cs = cs ++ new ∷ []
with_child (some c) new cs = insert_before c new cs

unfoldable pub new_flags : ℕ → ℕ
new_flags flags =
    BitField.assign 8 5 1
      (BitField.assign 8 0 4 (BitField.assign 8 4 1 0 region) (capability flags)) 0

-- the store with the new region, as `MakeRefPtr` and the insertion leave it
unfoldable pub attach : Store → Ptr → Hole → ℕ → Ptr → Store
attach m this h flags new =
    let m' =
      write m new (record {
        base = h.base;
        size = h.size;
        flags = flags;
        parent = some this;
        children = [];
      }) in
    write m' this (record (m' this) { children = with_child h.child new (m' this).children })

-- `fresh` is the memory that `MakeRefPtr` gets for the new region, if it gets any.
unfoldable pub allocate_vmr_compact : Option Ptr → Ptr → ℕ → ℕ → ℕ → Store → Outcome × Store
unfolding foreach_hole first_fit alignment
allocate_vmr_compact fresh this size align_pow2 flags m =
    if not (bit_and (capability flags) (capability (m this).flags) == capability flags)
    then (failed permission_denied, m)
    else if not (type_of flags == region)
    then (failed invalid_argument, m)
    else if not (size % page_size == 0)
    then (panic, m)
    else elim (foreach_hole (first_fit (alignment align_pow2) size) m this (m this).children 0
        none) [
          | none ↦ (failed allocation_failed, m)
          | some h ↦ elim fresh [
            | none ↦ (failed out_of_memory, m)
            | some new ↦ (allocated new, attach m this h (new_flags flags) new)
          ]
        ]

-- The operations that are not implemented.
unfoldable pub allocate_vmr_sparse : ℕ → ℕ → ℕ → E
allocate_vmr_sparse size align_pow2 flags = not_implemented

unfoldable pub map_pages : ℕ → ℕ → ℕ → Ptr → ℕ → ℕ → E
map_pages offset size flags object vmo_offset mmu_flags = not_implemented

unfoldable pub protect : ℕ → ℕ → ℕ → E
protect addr size flags = not_implemented

unfoldable pub find_child_above : Store → Ptr → List Ptr → ℕ → Option Ptr
find_child_above m this [] offset = none
find_child_above m this (c ∷ cs) offset =
    if leb (u64 ((m this).base + offset)) (m c).base
    then some c
    else find_child_above m this cs offset

unfoldable pub does_overlap_child : Store → Ptr → ℕ → ℕ → Bool
unfolding find_child_above
does_overlap_child m this offset size = elim (find_child_above m this (m this).children offset) [
  | none ↦ false
  | some c ↦ leb (m c).base (u64 (u64 ((m this).base + offset) + size))
]
