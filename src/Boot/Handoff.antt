-- ===== src/Boot/Handoff.antt =====
-- The state that loader/x86-64-multiboot2/main.cc hands over and the checks of core/main.cc on it.
use cxkernel.Base.{
  ℕ, ◌+◌, ◌^◌, ◌<◌, ◌≡◌, ◌≢◌, arith, refl, Bool, true, ◌&&◌, List, [], ◌∷◌, map, All, length, ◌==◌,
  some,
}
use cxkernel.Bits.{u64, sub64}
use cxkernel.LinkedList.{Ptr, Links, Cmd, pure, ◌>>=◌, size}
use cxkernel.LinkedList.Ring.{IsRing}
use cxkernel.LinkedList.Visit.{size-length}
use cxkernel.Boot.{
  kernel_base, kernel_limit, kernel_stack_base, kernel_stack_limit, kernel_pfndb_base,
  kernel_slab_base,
}
use cxkernel.Boot.Shift.{shift, shift_array, seen, IsPage, shift-IsRing}

pub record ArchState : Type 0 where
  pub base : ℕ
  pub limit : ℕ
  pub stack_base : ℕ
  pub stack_limit : ℕ
  pub pfndb_base : ℕ
  pub slab_base : ℕ

pub record LoaderState : Type 0 where
  pub magic_start : ℕ
  pub kernel_elf : ℕ
  pub pfndb_rsrvlist : Ptr
  pub pfndb_freelist : Ptr
  pub total_phys_pgs : ℕ
  pub pfndb_arr : Ptr
  pub arch_state : ArchState
  pub magic_end : ℕ

abbrev pub pfndb_offset : Ptr → ℕ
pfndb_offset pfndb_arr = sub64 kernel_pfndb_base pfndb_arr

-- The last steps of the loader: the links of all pages, and the state with the shifted lists.
unfoldable pub hand_over : ℕ → ℕ → Ptr → ℕ → Ptr → Ptr → Links → LoaderState × Links
hand_over sizeof_page mod_start pfndb_arr total free rsrv s =
    let offset = pfndb_offset pfndb_arr in
    let arch : ArchState = record {
      base = kernel_base;
      limit = kernel_limit;
      stack_base = kernel_stack_base;
      stack_limit = kernel_stack_limit;
      pfndb_base = kernel_pfndb_base;
      slab_base = kernel_slab_base;
    } in
    (
      record {
        magic_start = 0xCAFEB0BA;
        kernel_elf = mod_start;
        pfndb_rsrvlist = shift offset rsrv;
        pfndb_freelist = shift offset free;
        total_phys_pgs = total;
        pfndb_arr = pfndb_arr;
        arch_state = arch;
        magic_end = 0xBADBEEEF;
      },
      shift_array offset sizeof_page pfndb_arr total s,
    )

-- The two assertions of `kernel_entry`; the result is whether both hold.
unfoldable pub check_state : ℕ → LoaderState → Cmd Bool
check_state fuel state = do
  x ← size fuel state.pfndb_freelist
  y ← size fuel state.pfndb_rsrvlist
  pure (
      (state.magic_start == 0xCAFEB0BA && state.magic_end == 0xBADBEEEF)
      && u64 (x + y) == state.total_phys_pgs)

length-map : (f : Ptr → Ptr) (xs : List Ptr) → length (map f xs) ≡ length xs
length-map f [] = refl
length-map f (x ∷ xs) = let ih = length-map f xs in omega (arith, ih)

-- When the two lists are made of pages of the database, together as many as there are, and no page's
-- address in the kernel's mapping wraps, the kernel's assertions on what the loader hands over hold,
-- read through that mapping, with fuel above the number of pages.
pub hand_over-check :
    (sizeof_page mod_start total fuel : ℕ) (pfndb_arr free rsrv : Ptr) (s : Links)
    (fs rs : List Ptr)
    → sizeof_page ≢ 0
    → All (IsPage sizeof_page pfndb_arr total (pfndb_offset pfndb_arr)) fs
    → All (IsPage sizeof_page pfndb_arr total (pfndb_offset pfndb_arr)) rs
    → IsRing s free fs
    → IsRing s rsrv rs
    → length fs + length rs ≡ total
    → total < 2 ^ 64
    → total < fuel
    → let r = hand_over sizeof_page mod_start pfndb_arr total free rsrv s in
      check_state fuel r.0 (seen (pfndb_offset pfndb_arr) r.1)
      ≡ some (true, seen (pfndb_offset pfndb_arr) r.1)
unfolding hand_over check_state
hand_over-check sizeof_page mod_start total fuel pfndb_arr free rsrv s fs rs some_size pf pr hf hr
      sum small enough =
    let offset = pfndb_offset pfndb_arr in
    let t = seen offset (shift_array offset sizeof_page pfndb_arr total s) in
    let ring_f = shift-IsRing offset sizeof_page pfndb_arr total s free fs some_size pf hf in
    let ring_r = shift-IsRing offset sizeof_page pfndb_arr total s rsrv rs some_size pr hr in
    let nf = length-map (λ p. p + offset) fs in
    let nr = length-map (λ p. p + offset) rs in
    let x =
      size-length t fuel (shift offset free) (map (λ p. p + offset) fs) ring_f
        (omega (arith, nf, sum, enough)) in
    let y =
      size-length t fuel (shift offset rsrv) (map (λ p. p + offset) rs) ring_r
        (omega (arith, nr, sum, enough)) in
    ground (arith, x, y, nf, nr, sum, small)
