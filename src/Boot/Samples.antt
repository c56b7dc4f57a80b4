-- ===== src/Boot/Samples.antt =====
-- A page database, for the runs of what the loader hands over.
use cxkernel.Base.{All, arith, refl, [], ◌∷◌}
use cxkernel.Paging.{virt_from_index, pml4e_index, canonicalize}
use cxkernel.Boot.Shift.{IsPage}
use cxkernel.Boot.Handoff.{pfndb_offset}

-- A database of three pages of one byte each at 1, all of them free.
pub pages-IsPage : All (IsPage 1 1 3 (pfndb_offset 1)) (1 ∷ 2 ∷ 3 ∷ [])
unfolding virt_from_index pml4e_index canonicalize
pages-IsPage = (
  (0, omega arith, refl, (λ e. ground (arith, e)), omega arith),
  (
    (1, omega arith, refl, (λ e. ground (arith, e)), omega arith),
    ((2, omega arith, refl, (λ e. ground (arith, e)), omega arith), tt),
  ),
)
