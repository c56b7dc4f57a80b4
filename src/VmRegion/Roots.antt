-- ===== src/VmRegion/Roots.antt =====
-- `AddressSpace` of core/include/core/vm.h and `arch::init_aspace` of arch/x86-64/thread.cc: the two
-- root regions of an address space, and the first allocations from them.
use native.Mathlib.Nat.{pow-le-pow_right, zero-mod}
use cxkernel.Base.{
  ℕ, ◌+◌, ◌%◌, ◌^◌, ◌≤◌, ◌<◌, ◌≡◌, ◌≢◌, refl, arith, none, some, Option, ap, sym, ◌/◌, ◌∙◌, [],
  bit_and,
}
use cxkernel.Bits.{bit_and-mask}
use cxkernel.BitField
use cxkernel.LinkedList.{Ptr}
use cxkernel.Mutex
use cxkernel.Mutex.{Mutex}
use cxkernel.Util.{page_size, align_up, align_up-IsAlignedUp}
use cxkernel.VmRegion.{
  Store, VmRegion, Hole, write, region, capability, type_of, allocated, alignment, new_flags,
  foreach_hole, first_fit,
}
use cxkernel.VmRegion.Allocate.{run, found, allocate-found, alignment-pow, attach-new}

pub record AddressSpace : Type 0 where
  pub user_root : Ptr
  pub kernel_root : Ptr
  pub pml4 : ℕ
  pub lock : Mutex

-- `VmRegion(base, size, flags, aspace)`
unfoldable pub construct : ℕ → ℕ → ℕ → VmRegion
construct base size flags = record {
  base = base;
  size = size;
  flags = flags;
  parent = none;
  children = [];
}

-- the flags of a root, from `{}` on
unfoldable pub root_flags : ℕ
root_flags = BitField.assign 8 5 1 (BitField.assign 8 4 1 (BitField.assign 8 0 4 0 0b1111) region) 1

-- `AddressSpace()`, with its two regions at `user` and `kernel`; `backend_` is not set.
unfoldable pub address_space : Ptr → Ptr → ℕ → Store → AddressSpace × Store
unfolding construct root_flags
address_space user kernel pml4 m = (
  record { user_root = user; kernel_root = kernel; pml4 = pml4; lock = Mutex.new },
  write (write m user (construct 0 0 root_flags)) kernel (construct 0 0 root_flags),
)

-- `init_aspace`, with what `read_cr3` gives
unfoldable pub init_aspace : ℕ → AddressSpace → Store → AddressSpace × Store
init_aspace cr3 a m =
    let m1 = write m a.user_root (record (m a.user_root) { base = 0; size = 0x00007FFFFFFFFFFF }) in
    (
      record a { pml4 = cr3 },
      write m1 a.kernel_root
          (record (m1 a.kernel_root) { base = 0xFFFF800000000000; size = 0x00007FFFFFFFFFFF }),
    )

align_up-zero : (k : ℕ) → k ≤ 31 → align_up 0 (2 ^ k) ≡ 0
align_up-zero k h =
    let p : 2 ^ k ≤ 2 ^ 31 = pow-le-pow_right (omega arith) h in
    let up = align_up-IsAlignedUp k 0 (omega arith) (omega arith) in
    omega (arith, up.least 0 (zero-mod (2 ^ k)) (omega arith))

-- The only hole of a region without children begins at 0, whatever the region's base is.
found_first :
    (fresh : Option Ptr) (m : Store) (this : Ptr) (size align_pow2 flags : ℕ)
    → (m this).children ≡ []
    → (m this).base + (m this).size < 2 ^ 64
    → align_pow2 ≤ 31
    → 0 < size
    → size ≤ (m this).size
    → found fresh m this size align_pow2 flags
      ≡ some (record { base = 0; size = size; child = none })
unfolding foreach_hole first_fit
found_first fresh m this size align_pow2 flags leaf room small pos le =
    let (k, k-le, e) = alignment-pow align_pow2 small in
    let z : align_up 0 (alignment align_pow2) ≡ 0 = rw e (align_up-zero k k-le) in
    rw leaf (ground (arith, z))

capability-root :
    (flags : ℕ) → bit_and (capability flags) (capability root_flags) ≡ capability flags
unfolding capability BitField.get root_flags BitField.assign
capability-root flags =
    rw (bit_and-mask 4 (flags / 2 ^ 0), bit_and-mask 4 (flags / 2 ^ 0 % 2 ^ 4)) (omega arith)

-- a root of an address space, with a fresh place for its first child
module _ (m : Store) (this new : Ptr) (size align_pow2 flags limit : ℕ) (ne : new ≢ this)
    (leaf : (m this).children ≡ []) (allowed : (m this).flags ≡ root_flags)
    (extent : (m this).size ≡ limit) (room : (m this).base + limit < 2 ^ 64)
    (small : align_pow2 ≤ 31) (pos : 0 < size) (le : size ≤ limit) (pages : size % page_size ≡ 0)
    (kind : type_of flags ≡ region) where
  first_allocation :
      ((run (some new) m this size align_pow2 flags).0 ≡ allocated new)
      × (((run (some new) m this size align_pow2 flags).1 new).base ≡ 0)
      × (((run (some new) m this size align_pow2 flags).1 new).size ≡ size)
      × (((run (some new) m this size align_pow2 flags).1 new).parent ≡ some this)
  first_allocation =
      let h : Hole = record { base = 0; size = size; child = none } in
      let got =
        allocate-found (some new) m this size align_pow2 flags h new
          (record { subset = rw allowed (capability-root flags); is_region = kind; pages = pages })
          (found_first (some new) m this size align_pow2 flags leaf (omega arith) small pos
            (omega arith))
          refl in
      let at = (attach-new m this new h (new_flags flags) ne).0 in
      rw got (
        refl,
        ap (λ (r : VmRegion). r.base) at,
        ap (λ (r : VmRegion). r.size) at,
        ap (λ (r : VmRegion). r.parent) at,
      )

-- the regions of an address space that has just been set up
abbrev pub roots : Ptr → Ptr → ℕ → Store → Store
roots user kernel cr3 m =
    let made = address_space user kernel 0 m in (init_aspace cr3 made.0 made.1).1

-- In an address space whose two roots have been constructed and set up by `init_aspace`, a first
-- request for a region of at most 2^47 - 1 bytes, a positive multiple of the page size, with an
-- alignment that can be shifted, succeeds in either root when there is memory for the
-- region. In the user's root the region lies at 0, within the root. In the kernel's it lies at 0 too: all of it
-- is below the root, whose base is 0xFFFF800000000000.
pub init_aspace-allocate :
    (m : Store) (user kernel new : Ptr) (cr3 size align_pow2 flags : ℕ)
    → user ≢ kernel
    → new ≢ user
    → new ≢ kernel
    → align_pow2 ≤ 31
    → 0 < size
    → size ≤ 0x00007FFFFFFFFFFF
    → size % page_size ≡ 0
    → type_of flags ≡ region
    → let s = roots user kernel cr3 m in
      let u = run (some new) s user size align_pow2 flags in
      let k = run (some new) s kernel size align_pow2 flags in
      (u.0 ≡ allocated new)
      × ((u.1 new).base ≡ (s user).base)
      × ((u.1 new).base + (u.1 new).size ≤ (s user).base + (s user).size)
      × (k.0 ≡ allocated new)
      × ((k.1 new).base ≡ 0)
      × ((k.1 new).base + (k.1 new).size < (s kernel).base)
      × ((k.1 new).parent ≡ some kernel)
unfolding address_space init_aspace
init_aspace-allocate m user kernel new cr3 size align_pow2 flags apart nu nk small pos le pages
      kind =
    let s = roots user kernel cr3 m in
    let limit : ℕ = 0x00007FFFFFFFFFFF in
    let u =
      first_allocation s user new size align_pow2 flags limit nu (ground arith) (ground arith)
        (ground arith) (ground arith) small pos le pages kind in
    let k =
      first_allocation s kernel new size align_pow2 flags limit nk (ground arith) (ground arith)
        (ground arith) (ground arith) small pos le pages kind in
    let ub : (s user).base ≡ 0 = ground arith in
    let us : (s user).size ≡ limit = ground arith in
    let kb : (s kernel).base ≡ 0xFFFF800000000000 = ground arith in
    (u.0, u.1 ∙ sym ub, omega (arith, u.1, u.2, ub, us), k.0, k.1, omega (arith, k.1, k.2, kb), k.3)
