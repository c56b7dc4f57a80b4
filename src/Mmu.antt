-- ===== src/Mmu.antt =====
-- arch/x86-64/mmu.cc: the kernel maps pages through the page tables that its top table maps into the
-- address space. An access to a virtual address is one to the physical address that the
-- processor's walk finds; the page lists are those of core/pmm.cc.
pub mod Recursive
mod Tests
use cxkernel.Base.{
  ℕ, zero, suc, ◌+◌, ◌-◌, ◌*◌, ◌/◌, ◌%◌, Bool, true, false, not, Option, none, some, List, [], ◌∷◌,
  ◌++◌, ◌==◌, if◌then◌else◌,
}
use cxkernel.Bits.{u64}
use cxkernel.Util.{page_size}
use cxkernel.Text.{Memory}
use cxkernel.Status.{E, ok, is_ok}
use cxkernel.LinkedList.{Links, Ptr, push_back}
use cxkernel.Pmm.{Answer, alloc_phys_page_single, free_phys_pages}
use cxkernel.Paging.{virt_from_index, pml4e_index, pdpte_index, pde_index, pte_index}
use cxkernel.PageTable.{read64, write64, present, entry_at, entry_of, walk}
use cxkernel.PageTable.Map.{indices}

-- Physical memory with the top table's page, the page lists, and the tables taken while mapping.
pub record Mmu : Type 0 where
  pub memory : Memory
  pub root : ℕ
  pub links : Links
  pub free : Ptr
  pub pt_pages : Ptr

-- An offset into the page that a walk finds.
abbrev pub into : Option ℕ → ℕ → Option ℕ
into none o = none
into (some page) o = some (page * page_size + o)

-- The physical address of a virtual one; `none` is a page fault.
unfoldable pub translate : Memory → ℕ → ℕ → Option ℕ
translate m root virt = into (walk m root (indices virt)) (virt % page_size)

-- the virtual addresses of the four tables
unfoldable pub pml4_at : ℕ → ℕ
pml4_at virt = virt_from_index 511 511 511 511

unfoldable pub pdpt_at : ℕ → ℕ
pdpt_at virt = virt_from_index 511 511 511 (pml4e_index virt)

unfoldable pub pd_at : ℕ → ℕ
pd_at virt = virt_from_index 511 511 (pdpte_index virt) (pml4e_index virt)

unfoldable pub pt_at : ℕ → ℕ
pt_at virt = virt_from_index 511 (pde_index virt) (pdpte_index virt) (pml4e_index virt)

-- What a mapping comes to; a fault has no state after it.
pub data Mapping : Type 0 where
  done : Mmu → Mapping
  failed : E → Mmu → Mapping
  fault : Mapping

abbrev pub then_map : Mapping → (Mmu → Mapping) → Mapping
then_map (done s) k = k s
then_map (failed e s) k = failed e s
then_map fault k = fault

module _ (sizeof_page pfndb_arr : ℕ) where
  -- `Page::paddr`
  unfoldable pub paddr : Ptr → ℕ
  paddr page = (page - pfndb_arr) / sizeof_page * page_size

  -- The table entry at a physical address gets a page when it is not present.
  unfoldable pub fill_entry : ℕ → ℕ → Mmu → Mapping
  fill_entry a flags s = elim (alloc_phys_page_single s.free s.links) [
    | none ↦ fault
    | some r ↦
        let taken = record s { links = r.1; free = r.0.free } in
        if not (is_ok r.0.status)
        then failed r.0.status taken
        else elim (push_back s.pt_pages r.0.pages r.1) [
          | none ↦ fault
          | some r' ↦ done (record taken {
            links = r'.1;
            pt_pages = r'.0;
            memory = write64 s.memory a (entry_of (paddr r.0.pages) flags);
          })
        ]
  ]

  -- `if(!e->f.present) { ... }`, for the entry at a virtual address
  unfoldable pub ensure_entry : ℕ → ℕ → Mmu → Mapping
  ensure_entry e flags s = elim (translate s.memory s.root e) [
    | none ↦ fault
    | some a ↦ if present (read64 s.memory a) then done s else fill_entry a flags s
  ]

  unfoldable pub write_entry : ℕ → ℕ → ℕ → Mmu → Mapping
  write_entry e phys flags s = elim (translate s.memory s.root e) [
    | none ↦ fault
    | some a ↦ done (record s { memory = write64 s.memory a (entry_of phys flags) })
  ]

  -- `fault` is also a failed assertion.
  unfoldable pub map_single_page : ℕ → ℕ → ℕ → Mmu → Mapping
  map_single_page phys virt flags s =
      if not (phys % page_size == 0)
      then fault
      else if not (virt % page_size == 0)
      then fault
      else then_map (ensure_entry (entry_at (pml4_at virt) (pml4e_index virt)) flags s) (λ s1.
        then_map (ensure_entry (entry_at (pdpt_at virt) (pdpte_index virt)) flags s1) (λ s2.
          then_map (ensure_entry (entry_at (pd_at virt) (pde_index virt)) flags s2)
            (λ s3. write_entry (entry_at (pt_at virt) (pte_index virt)) phys flags s3)))

  -- The loop of `map_pages` over the pages of the list, in order.
  unfoldable pub map_loop : ℕ → List Ptr → ℕ → ℕ → Mmu → Mapping
  map_loop fuel [] virt flags s = done s
  map_loop fuel (page ∷ pages) virt flags s = elim (map_single_page (paddr page) virt flags s) [
    | done s' ↦ map_loop fuel pages (u64 (virt + page_size)) flags s'
    | failed e s' ↦ elim (free_phys_pages fuel s'.free s'.pt_pages s'.links) [
      | none ↦ fault
      | some r ↦ failed e (record s' { links = r.1; free = r.0.free; pt_pages = r.0.pages })
    ]
    | fault ↦ fault
  ]

  unfoldable pub map_pages : ℕ → List Ptr → ℕ → ℕ → Mmu → Mapping
  map_pages fuel pages virt flags s = map_loop fuel pages virt flags (record s { pt_pages = 0 })
