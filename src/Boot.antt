-- ===== src/Boot.antt =====
-- The start of the kernel by loader/x86-64-multiboot2: the tag list and the memory map of
-- multiboot2.cc and loader.h, and the parts of main.cc that look for the kernel and map it.
pub mod Tags
pub mod MemoryMap
pub mod Shift
pub mod Handoff
pub mod Samples
mod Tests
use cxkernel.Base.{
  ℕ, zero, suc, ◌+◌, ◌-◌, ◌*◌, ◌/◌, ◌%◌, ◌^◌, Bool, true, false, not, ◌&&◌, ◌||◌, Option, none,
  some, List, [], ◌∷◌, ◌==◌, ltb, leb, if◌then◌else◌, bit_and,
}
use cxkernel.Bits.{u16, u32, u64, sub64}
use cxkernel.Util.{page_size, page_align_up, max}
use cxkernel.Text.{Memory, word, strcmp, memcpy}
use cxkernel.Loader.{Entry, Database, pmm_alloc_page}
use cxkernel.Paging.{pml4e_index, virt_from_index}
use cxkernel.PageTable.{map_page}
use cxkernel.Elf.{Context64, Phdr, phdr, get_header, is_equal}

-- the fields of `multiboot_tag`
abbrev pub tag_type : Memory → ℕ → ℕ
tag_type m tag = word 4 m tag

abbrev pub tag_size : Memory → ℕ → ℕ
tag_size m tag = word 4 m (tag + 4)

-- The tag after this one, `(tag->size + 0b111) & ~0b111` bytes on.
abbrev pub next_tag : Memory → ℕ → ℕ
next_tag m tag = tag + bit_and (u32 (tag_size m tag + 7)) (2 ^ 32 - 1 - 7)

-- `multiboot_tag_list::iterator::operator++`; 0 is null.
unfoldable pub advance : Memory → ℕ → ℕ
advance m tag = let next = next_tag m tag in if tag_type m next == 0 then 0 else next

-- What `operator*` does: it returns a tag or null, it reads through the null pointer that `++`
-- left, or the fuel is not enough.
pub data Deref : Type 0 where
  returned : ℕ → Deref
  null_read out_of_fuel : Deref

unfoldable pub deref : ℕ → Memory → ℕ → ℕ → Deref
deref zero m type tag = out_of_fuel
deref (suc fuel) m type tag =
    let rest = deref fuel m type (advance m tag) in
    if tag == 0
    then null_read
    else if tag_type m tag == type
    then returned tag
    else if tag_type m tag == 0
    then returned 0
    else rest

-- `begin`
abbrev pub begin : ℕ → ℕ
begin addr = addr + 8

-- The loop for the module of that name, from an iterator on; `none` is undefined or out of fuel.
unfoldable pub find_module : ℕ → Memory → ℕ → ℕ → Option ℕ
find_module zero m name tag = none
find_module (suc fuel) m name tag = elim (tag == 0) [
  | true ↦ some 0
  | false ↦ elim (deref fuel m 3 tag) [
    | returned found ↦
        let rest = find_module fuel m name (advance m found) in
        let compared : Option ℕ = elim (strcmp fuel m (found + 16) name) [
          | none ↦ none
          | some d ↦ if is_equal d then some found else rest
        ] in
        if found == 0 then none else compared
    | null_read ↦ none
    | out_of_fuel ↦ none
  ]
]

-- The loop for the memory map, which ends at the first tag.
unfoldable pub find_mmap : ℕ → Memory → ℕ → Deref
find_mmap fuel m addr = deref fuel m 6 (begin addr)

-- `multiboot_mmap_list::iterator::operator++`, for the map at `mmap`
unfoldable pub next_entry : Memory → ℕ → ℕ → ℕ
next_entry m mmap entry =
    let next = entry + word 4 m (mmap + 8) in
    if leb (mmap + word 4 m (mmap + 4)) next then 0 else next

-- an entry in memory
unfoldable pub entry_at : Memory → ℕ → Entry
entry_at m p = record { addr = word 8 m p; len = word 8 m (p + 8); type = word 4 m (p + 16) }

-- The entries that the loops over `multiboot_mmap_list` go through.
unfoldable pub entries : ℕ → Memory → ℕ → ℕ → Option (List Entry)
entries zero m mmap entry = none
entries (suc fuel) m mmap entry =
    let rest : Option (List Entry) = elim (entries fuel m mmap (next_entry m mmap entry)) [
      | none ↦ none
      | some es ↦ some (entry_at m entry ∷ es)
    ] in
    if entry == 0 then some [] else rest

unfoldable pub mmap_list : ℕ → Memory → ℕ → Option (List Entry)
mmap_list fuel m mmap = entries fuel m mmap (mmap + 16)

-- the constants of the address space
abbrev pub kernel_pml4_idx : ℕ
kernel_pml4_idx = pml4e_index 0xFFFF800000000000

abbrev pub kernel_base : ℕ
kernel_base = virt_from_index kernel_pml4_idx 0 0 0

abbrev pub kernel_limit : ℕ
kernel_limit = virt_from_index (u16 (kernel_pml4_idx + 1)) 0 0 0

abbrev pub kernel_stack_limit : ℕ
kernel_stack_limit = sub64 kernel_limit page_size

abbrev pub kernel_stack_base : ℕ
kernel_stack_base = sub64 (u64 (kernel_stack_limit + page_size)) 8

abbrev pub kernel_pfndb_base : ℕ
kernel_pfndb_base = virt_from_index (u16 (kernel_pml4_idx + 2)) 0 0 0

abbrev pub kernel_slab_base : ℕ
kernel_slab_base = virt_from_index (u16 (kernel_pml4_idx + 3)) 0 0 0

-- `page_flags` with `writable` alone
abbrev pub writable : ℕ
writable = 2

-- Pages one after the other, `left` of them: the loops of `map_page(p + i, v + i, flags)`.
unfoldable pub map_each : ℕ → ℕ → ℕ → ℕ → Memory → Database → Option (Memory × Database)
map_each pml4 p v zero m db = some (m, db)
map_each pml4 p v (suc left) m db = elim (map_page m db pml4 p v writable) [
  | none ↦ none
  | some r ↦ map_each pml4 (u64 (p + page_size)) (u64 (v + page_size)) left r.0 r.1
]

-- the number of rounds of `for(i = 0; i < n; i += page_size)`
abbrev pub rounds : ℕ → ℕ
rounds n = (n + (page_size - 1)) / page_size

unfoldable pub identity_map : ℕ → Memory → Database → Option (Memory × Database)
identity_map pml4 m db = map_each pml4 0 0 (rounds 0x200000) m db

-- The loop that gives a segment new pages, from offset `i` on, and fills those below `size`.
unfoldable pub fill_each : ℕ → ℕ → ℕ → ℕ → ℕ → ℕ → Memory → Database → Option (Memory × Database)
fill_each pml4 p v size i zero m db = some (m, db)
fill_each pml4 p v size i (suc left) m db = elim (pmm_alloc_page m db) [
  | none ↦ none
  | some r ↦ elim (map_page r.1 r.2 pml4 r.0 (u64 (v + i)) writable) [
    | none ↦ none
    | some r' ↦
        let m' = if ltb i size then memcpy r'.0 r.0 (u32 (u32 p + i)) page_size else r'.0 in
        fill_each pml4 p v size (i + page_size) left m' r'.1
  ]
]

-- One program header; `none` is a failed assertion or no memory.
unfoldable pub load_segment : ℕ → ℕ → Phdr → Memory → Database → Option (Memory × Database)
load_segment pml4 image ph m db =
    let p = u64 (image + ph.p_offset) in
    if not (ph.p_type == 1)
    then some (m, db)
    else if not (ph.p_align == page_size)
    then none
    else if not (leb kernel_base ph.p_vaddr)
    then none
    else if not (ltb (u64 (ph.p_vaddr + ph.p_memsz)) kernel_limit)
    then none
    else if not (ph.p_filesz == ph.p_memsz)
    then fill_each pml4 p ph.p_vaddr (u32 (max ph.p_filesz ph.p_memsz)) 0
        (rounds (page_align_up ph.p_memsz)) m db
    else map_each pml4 p ph.p_vaddr (rounds ph.p_memsz) m db

unfoldable pub load_segments : ℕ → ℕ → List ℕ → Memory → Database → Option (Memory × Database)
load_segments pml4 image [] m db = some (m, db)
load_segments pml4 image (ph ∷ phs) m db = elim (load_segment pml4 image (phdr m ph) m db) [
  | none ↦ none
  | some r ↦ load_segments pml4 image phs r.0 r.1
]

unfoldable pub map_stack : ℕ → Memory → Database → Option (Memory × Database)
map_stack pml4 m db = elim (pmm_alloc_page m db) [
  | none ↦ none
  | some r ↦ map_page r.1 r.2 pml4 r.0 kernel_stack_limit writable
]

-- The pages of the page database.
unfoldable pub map_pfndb : ℕ → ℕ → ℕ → Memory → Database → Option (Memory × Database)
map_pfndb pml4 pfndb_arr pfndb_sz_pgs m db =
    map_each pml4 pfndb_arr kernel_pfndb_base pfndb_sz_pgs m db
