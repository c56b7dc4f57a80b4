-- ===== src/PageTable.antt =====
-- The page tables: entries of arch/x86-64/types.h in a memory of bytes, the walk that the processor
-- does, and `map_page` and `setup_paging` of loader/x86-64-multiboot2/mem.cc.
pub mod Words
pub mod Entries
pub mod Pages
pub mod Path
pub mod Descend
pub mod Map
pub mod Setup
pub mod Fields
mod Tests
use cxkernel.Base.{
  ℕ, zero, suc, ◌+◌, ◌-◌, ◌*◌, ◌/◌, ◌%◌, ◌^◌, Bool, true, false, not, ◌&&◌, Option, none, some,
  List, [], ◌∷◌, ◌==◌, if◌then◌else◌, bit_and, bit_or,
}
use cxkernel.Util.{page_size}
use cxkernel.Text.{Memory, poke, word, memset}
use cxkernel.Loader.{Database, pmm_alloc_page}
use cxkernel.Paging.{pml4e_index, pdpte_index, pde_index, pte_index}

-- an entry of eight bytes, read and written
unfoldable pub read64 : Memory → ℕ → ℕ
read64 m a = word 8 m a

unfoldable pub write_word : ℕ → Memory → ℕ → ℕ → Memory
write_word zero m a v = m
write_word (suc n) m a v = poke (write_word n m (a + 1) (v / 256)) a (v % 256)

unfoldable pub write64 : Memory → ℕ → ℕ → Memory
write64 m a v = write_word 8 m a v

-- the fields `present` and `addr` of `generic_page_entry_raw`
abbrev pub present : ℕ → Bool
present e = e % 2 == 1

abbrev pub addr : ℕ → ℕ
addr e = e / 2 ^ 12 % 2 ^ 40

abbrev pub entry_at : ℕ → ℕ → ℕ
entry_at table i = table + 8 * i

-- The processor's way through the tables: from the table in page `p` by the indices to a page.
unfoldable pub walk : Memory → ℕ → List ℕ → Option ℕ
walk m p [] = some p
walk m p (i ∷ is) =
    let e = read64 m (entry_at (p * page_size) i) in
    let next = walk m (addr e) is in if present e then next else none

-- What the code writes for a page or table at `page`.
abbrev pub entry_of : ℕ → ℕ → ℕ
entry_of page flags = bit_or (bit_or page 1) flags

-- `data & 0xFFFFF800`, the table that an entry points to
abbrev pub table_of : ℕ → ℕ
table_of e = bit_and e 0xFFFFF800

-- `if(!e->f.present) e->data = pmm_alloc_page() | 1 | flags.data`; `none` is out of memory.
unfoldable pub ensure : Memory → Database → ℕ → ℕ → Option (Memory × Database)
ensure m db a flags = if present (read64 m a) then some (m, db) else elim (pmm_alloc_page m db) [
  | none ↦ none
  | some r ↦ some (write64 r.1 a (entry_of r.0 flags), r.2)
]

-- The levels above the last, one after the other; at the end stands the last table's address.
unfoldable pub descend : Memory → Database → ℕ → List ℕ → ℕ → Option (Memory × Database × ℕ)
descend m db table [] flags = some (m, db, table)
descend m db table (i ∷ is) flags = elim (ensure m db (entry_at table i) flags) [
  | none ↦ none
  | some r ↦ descend r.0 r.1 (table_of (read64 r.0 (entry_at table i))) is flags
]

-- `map_page`; `none` is a failed assertion.
unfoldable pub map_page : Memory → Database → ℕ → ℕ → ℕ → ℕ → Option (Memory × Database)
map_page m db pml4 phys virt flags =
    if not (phys % page_size == 0)
    then none
    else if not (virt % page_size == 0)
    then none
    else elim (descend m db pml4 (pml4e_index virt ∷ pdpte_index virt ∷ pde_index virt ∷ [])
        flags) [
          | none ↦ none
          | some r ↦
              let a = entry_at r.2 (pte_index virt) in
              if present (read64 r.0 a)
              then some (r.0, r.1)
              else some (write64 r.0 a (entry_of phys flags), r.1)
        ]

-- `setup_paging`: the top table, with the entry 511 that points to itself.
unfoldable pub setup_paging : Memory → Database → Option (ℕ × Memory × Database)
setup_paging m db = elim (pmm_alloc_page m db) [
  | none ↦ none
  | some r ↦
      let pml4 = r.0 in
      let cleared = memset r.1 pml4 0 page_size in
      some (pml4, write64 cleared (entry_at pml4 511) (bit_or pml4 3), r.2)
]
