-- ===== src/Mmu/Tests.antt =====
-- A top table in page 5 whose last entry leads back to it, for arch/x86-64/mmu.cc.
use cxkernel.Base.{◌≡◌, arith, refl, some, [], ◌∷◌, ◌==◌, if◌then◌else◌, ◌+◌, ◌*◌}
use cxkernel.Text.{Memory}
use cxkernel.Paging.{pml4e_index, pdpte_index, pde_index}
use cxkernel.PageTable.{read64, walk, entry_at}
use cxkernel.PageTable.Entries.{IsEntry}
use cxkernel.Mmu.{into, translate, pml4_at, pdpt_at, pd_at, pt_at}
use cxkernel.Mmu.Recursive.{translate-tables}

abbrev top : Memory
top a = if a == 24568 then 3 else if a == 24569 then 80 else 0

top-IsEntry : IsEntry (read64 top (entry_at (5 * 4096) 511)) 5
unfolding read64
top-IsEntry = record { set = refl; table = refl; address = refl }

tables_example :
    (translate top 5 (entry_at (pml4_at 0x400000) 7) ≡ some (5 * 4096 + 8 * 7))
    × (translate top 5 (entry_at (pdpt_at 0x400000) 7)
        ≡ into (walk top 5 (pml4e_index 0x400000 ∷ [])) (8 * 7))
    × (translate top 5 (entry_at (pd_at 0x400000) 7)
        ≡ into (walk top 5 (pdpte_index 0x400000 ∷ pml4e_index 0x400000 ∷ [])) (8 * 7))
    × (translate top 5 (entry_at (pt_at 0x400000) 7)
        ≡ into
            (walk top 5 (pde_index 0x400000 ∷ pdpte_index 0x400000 ∷ pml4e_index 0x400000 ∷ []))
            (8 * 7))
tables_example = translate-tables top 5 0x400000 7 top-IsEntry (omega arith)
