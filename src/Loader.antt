-- ===== src/Loader.antt =====
-- loader/x86-64-multiboot2/mem.cc: the reserved ranges, the search for a run of pages, the early
-- allocator over the memory map, and the page database's lists. The two intrusive lists are the
-- sequences of their pages, by number.
pub mod Run
pub mod Lists
mod Tests
use cxkernel.Base.{
  ℕ, zero, suc, ◌+◌, ◌-◌, ◌*◌, ◌/◌, ◌%◌, ◌^◌, Bool, true, false, ◌&&◌, ◌||◌, Option, none, some,
  List, [], ◌∷◌, ◌++◌, ◌==◌, ltb, leb, if◌then◌else◌,
}
use cxkernel.Bits.{u32, u64, sub64}
use cxkernel.Util.{page_size, page_align_up, page_align_down, max}
use cxkernel.Text.{Memory, memset}

pub record Range : Type 0 where
  pub begin : ℕ
  pub end : ℕ

-- `is_in`: the parameter is a uint32_t
unfoldable pub is_in : ℕ → Range → Bool
is_in ptr r = leb r.begin (u32 ptr) && ltb (u32 ptr) r.end

unfoldable pub is_page_reserved : List Range → ℕ → Bool
is_page_reserved [] page = false
is_page_reserved (r ∷ rs) page =
    (is_in (u64 (page * page_size)) r || is_in (u64 ((page + 1) * page_size)) r)
    || is_page_reserved rs page

-- The inner loop of `search_run`: whether `pages` pages from `i` on are free.
unfoldable pub has_run : List Range → ℕ → ℕ → Bool
has_run rs i zero = true
has_run rs i (suc pages) =
    let rest = has_run rs (i + 1) pages in if is_page_reserved rs i then false else rest

-- The outer loop, with `count` places left to try.
unfoldable pub search_from : List Range → ℕ → ℕ → ℕ → Option ℕ
search_from rs pages ptr zero = none
search_from rs pages ptr (suc count) = elim (has_run rs ptr pages) [
  | true ↦ some (ptr * page_size)
  | false ↦ search_from rs pages (ptr + 1) count
]

unfoldable pub search_run : List Range → ℕ → ℕ → ℕ → Option ℕ
search_run rs pages base limit =
    search_from rs pages (base / page_size) (sub64 (limit / page_size) pages - base / page_size)

-- `multiboot_memory_map_t`; type 1 is available memory
pub record Entry : Type 0 where
  pub addr : ℕ
  pub len : ℕ
  pub type : ℕ

abbrev pub available : Entry → Bool
available e = e.type == 1

-- `early_pmm_alloc_cts` with the entries from `mmap_it` on: the address and the entries it leaves,
-- or `none` for a failed assertion.
unfoldable pub early_pmm_alloc_cts : List Range → ℕ → ℕ → List Entry → Option (ℕ × List Entry)
early_pmm_alloc_cts rs pages zero mmap = none
early_pmm_alloc_cts rs pages (suc slimit) [] = none
early_pmm_alloc_cts rs pages (suc slimit) (e ∷ mmap) = elim (available e) [
  | false ↦ early_pmm_alloc_cts rs pages (suc slimit) mmap
  | true ↦
      elim (search_run rs pages (page_align_up e.addr) (page_align_down (u64 (e.addr + e.len)))) [
        | some result ↦ some (result, e ∷ mmap)
        | none ↦ early_pmm_alloc_cts rs pages slimit mmap
      ]
]

-- the loop for the largest physical address
unfoldable pub largest_phys_addr : ℕ → List Entry → ℕ
unfolding max
largest_phys_addr n [] = n
largest_phys_addr n (e ∷ mmap) =
    if available e
    then largest_phys_addr (max n (u64 (e.addr + e.len))) mmap
    else largest_phys_addr n mmap

-- The pages of `pfndb_freelist` and of `pfndb_rsrvlist`.
pub record Database : Type 0 where
  pub freelist : List ℕ
  pub rsrvlist : List ℕ

-- the loop that fills the two lists, from page `i` on
unfoldable pub init_lists : List Range → ℕ → ℕ → Database → Database
init_lists rs i zero db = db
init_lists rs i (suc left) db =
    if is_page_reserved rs i
    then init_lists rs (i + 1) left (record db { rsrvlist = db.rsrvlist ++ i ∷ [] })
    else init_lists rs (i + 1) left (record db { freelist = db.freelist ++ i ∷ [] })

pub record Bootstrapped : Type 0 where
  pub memory : Memory
  pub ranges : List Range
  pub pfndb : ℕ
  pub total : ℕ
  pub database : Database

-- `sizeof(core::Page)`, the range of the loader and of the null page, the loaded image's range and
-- the map's own range come as arguments.
unfoldable pub bootstrap_pmm : ℕ → Range → Range → ℕ → ℕ → Memory → List Entry → Option Bootstrapped
bootstrap_pmm sizeof_page loader res mmap_addr mmap_size m mmap =
    let null : Range = record { begin = 0; end = page_size - 1 } in
    let map_range : Range = record { begin = mmap_addr; end = u64 (mmap_addr + mmap_size - 1) } in
    let total = page_align_down (largest_phys_addr 0 mmap) / page_size in
    let bytes = u64 (total * sizeof_page) in
    elim (early_pmm_alloc_cts (null ∷ loader ∷ map_range ∷ res ∷ [])
      (page_align_up bytes / page_size) 10 mmap) [
        | none ↦ none
        | some r ↦
            let kept : Range = record { begin = r.0; end = u64 (r.0 + bytes) } in
            let ranges = null ∷ loader ∷ kept ∷ res ∷ [] in
            some (record {
              memory = memset m r.0 0 bytes;
              ranges = ranges;
              pfndb = r.0;
              total = total;
              database = init_lists ranges 0 total (record { freelist = []; rsrvlist = [] });
            })
      ]

-- `pmm_alloc_page`: `none` is the failed assertion on an empty free list.
unfoldable pub pmm_alloc_page : Memory → Database → Option (ℕ × Memory × Database)
pmm_alloc_page m db = elim (db.freelist) [
  | [] ↦ none
  | i ∷ free ↦ some (
    i * page_size,
    memset m (i * page_size) 0 page_size,
    record { freelist = free; rsrvlist = db.rsrvlist ++ i ∷ [] },
  )
]
