-- ===== src/PageTable/Tests.antt =====
-- A page mapped from an empty top table, and an entry, for loader/x86-64-multiboot2/mem.cc.
use cxkernel.Base.{◌==◌, ◌+◌, ◌%◌, ◌/◌, ◌^◌, ◌≡◌, ◌⊎◌, ◌<◌, arith, none, some, [], ◌∷◌, ◌*◌}
use cxkernel.Text.{Memory}
use cxkernel.Loader.{Database}
use cxkernel.PageTable.{map_page, read64, present, addr, table_of}
use cxkernel.PageTable.Fields.{PageEntry, IsPacked, data_of, fields_of, table_of-data_of}
use cxkernel.PageTable.Path.{IsFresh, IsPath}
use cxkernel.PageTable.Map.{Mapped, map_page-Mapped, tables}

abbrev zeros : Memory
zeros a = 0

abbrev pages : Database
pages = record { freelist = 6 ∷ 7 ∷ 8 ∷ []; rsrvlist = [] }

pages-IsFresh : IsFresh pages.freelist []
pages-IsFresh = (
  (
    ((λ e. ground (arith, e)), ((λ e. ground (arith, e)), tt)),
    (((λ e. ground (arith, e)), tt), (tt, tt)),
  ),
  ((omega arith, tt), ((omega arith, tt), ((omega arith, tt), tt))),
)

top-IsPath : IsPath zeros pages.freelist [] 5 (tables 0x400000)
unfolding read64
top-IsPath = (
  tt,
  ((λ e. ground (arith, e)), ((λ e. ground (arith, e)), ((λ e. ground (arith, e)), tt))),
  λ e. absurd (ground (arith, e)),
)

Mapped_example :
    ((map_page zeros pages (5 * 4096) (9 * 4096) 0x400000 2 ≡ none) × (3 < 3))
    ⊎ ((m' : Memory) × (db' : Database) × (map_page zeros pages (5 * 4096) (9 * 4096) 0x400000 2
          ≡ some (m', db'))
        × Mapped zeros m' 5 9 0x400000)
Mapped_example =
    map_page-Mapped zeros pages 5 9 0x400000 2 (omega arith) (omega arith) (omega arith)
      pages-IsFresh top-IsPath

-- an entry for page 9 with bit 11 set
abbrev entry : PageEntry
entry = record {
  present_bit = 1;
  writable = 1;
  user = 0;
  write_through = 0;
  cache_disable = 0;
  accessed = 0;
  dirty = 0;
  pat = 0;
  global = 0;
  ignored0 = 4;
  address = 9;
  ignored1 = 0;
  protection_key = 0;
  execute_disable = 1;
}

entry-IsPacked : IsPacked entry
entry-IsPacked = record {
  present_bit = omega arith;
  writable = omega arith;
  user = omega arith;
  write_through = omega arith;
  cache_disable = omega arith;
  accessed = omega arith;
  dirty = omega arith;
  pat = omega arith;
  global = omega arith;
  ignored0 = omega arith;
  address = omega arith;
  ignored1 = omega arith;
  protection_key = omega arith;
  execute_disable = omega arith;
}

fields_example :
    (data_of entry < 2 ^ 64)
    × (fields_of (data_of entry) ≡ entry)
    × (present (data_of entry) ≡ (entry.present_bit == 1))
    × (addr (data_of entry) ≡ entry.address)
    × (table_of (data_of entry) ≡ entry.address % 2 ^ 20 * 2 ^ 12 + entry.ignored0 / 4 * 2 ^ 11)
fields_example = table_of-data_of entry entry-IsPacked
