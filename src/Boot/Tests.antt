-- ===== src/Boot/Tests.antt =====
-- A tag list, for loader/x86-64-multiboot2/multiboot2.cc.
use cxkernel.Base.{arith, refl, [], ◌∷◌, ◌==◌, if◌then◌else◌}
use cxkernel.Text.{Memory}
use cxkernel.Boot.{deref}
use cxkernel.Boot.Tags.{IsTags, Searched, deref-Searched}

-- A tag of type 1 and size 9 at 8, one of type 3 and size 16 at 24, and the end tag at 40.
abbrev tag_list : Memory
tag_list a =
    if a == 8 then 1 else if a == 12 then 9 else if a == 24 then 3 else if a == 28 then 16 else 0

tag_list-IsTags : IsTags tag_list 8 (1 ∷ 3 ∷ [])
tag_list-IsTags = (
  (λ e. ground (arith, e)),
  refl,
  (λ e. ground (arith, e)),
  ((λ e. ground (arith, e)), refl, (λ e. ground (arith, e)), ((λ e. ground (arith, e)), refl)),
)

Searched_example : Searched tag_list 3 8 (1 ∷ 3 ∷ []) (deref 5 tag_list 3 8)
Searched_example =
    deref-Searched (1 ∷ 3 ∷ []) 5 tag_list 3 8 (omega arith) (λ e. ground (arith, e))
      tag_list-IsTags
