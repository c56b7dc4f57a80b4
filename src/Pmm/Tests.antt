-- ===== src/Pmm/Tests.antt =====
-- Runs of core/pmm.cc on a free list of three pages.
use cxkernel.Base.{refl, [], ◌∷◌, arith}
use cxkernel.Status.{ok, out_of_memory}
use cxkernel.LinkedList.Ring.{Returns}
use cxkernel.LinkedList.Samples.{three, three-IsRing}
use cxkernel.Pmm.{alloc_phys_pages, free_phys_pages}
use cxkernel.Pmm.Alloc.{
  Holds, alloc_phys_pages-enough, alloc_phys_pages-short, free_phys_pages-append,
}

alloc_enough_example : Returns (Holds ok (3 ∷ []) (2 ∷ 1 ∷ [])) (alloc_phys_pages 2 1 0 three)
alloc_enough_example =
    alloc_phys_pages-enough three 2 1 0 (1 ∷ 2 ∷ 3 ∷ []) three-IsRing (omega arith)

alloc_short_example :
    Returns (Holds out_of_memory (1 ∷ 2 ∷ 3 ∷ []) []) (alloc_phys_pages 4 1 0 three)
alloc_short_example = alloc_phys_pages-short three 4 1 0 (1 ∷ 2 ∷ 3 ∷ []) three-IsRing (omega arith)

free_example : Returns (Holds ok (1 ∷ 2 ∷ 3 ∷ []) []) (free_phys_pages 4 0 1 three)
free_example =
    free_phys_pages-append three 4 0 1 [] (1 ∷ 2 ∷ 3 ∷ [])
      (record { left = refl; right = three-IsRing; apart = tt }) (omega arith)
