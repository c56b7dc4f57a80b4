-- ===== src/Mmu/Recursive.antt =====
-- Which tables the virtual addresses of arch/x86-64/mmu.cc reach.
use cxkernel.Base.{ℕ, ◌+◌, ◌*◌, ◌%◌, ◌<◌, ◌≡◌, arith, refl, ◌∙◌, ap, some, List, [], ◌∷◌}
use cxkernel.Text.{Memory}
use cxkernel.Paging.{
  virt_from_index, pml4e_index, pdpte_index, pde_index, index-virt_from_index, index-lt,
  index-offset,
}
use cxkernel.PageTable.{read64, walk, entry_at}
use cxkernel.PageTable.Entries.{IsEntry}
use cxkernel.PageTable.Path.{walk-entry}
use cxkernel.Mmu.{into, translate, pml4_at, pdpt_at, pd_at, pt_at}

module _ (m : Memory) (root : ℕ) (self : IsEntry (read64 m (entry_at (root * 4096) 511)) root) where
  -- The last entry of the top table leads back to it.
  again : (is : List ℕ) → walk m root (511 ∷ is) ≡ walk m root is
  again is = walk-entry m root 511 root is (read64 m (entry_at (root * 4096) 511)) refl self

  translate-into :
      (a b c d i : ℕ)
      → i < 512
      → translate m root (virt_from_index a b c d + 8 * i)
        ≡ into (walk m root (a % 512 ∷ b % 512 ∷ c % 512 ∷ d % 512 ∷ [])) (8 * i)
  unfolding translate
  translate-into a b c d i lt =
      let v = virt_from_index a b c d in
      let at = index-virt_from_index a b c d in
      let off = index-offset v (8 * i) at.4 (omega (arith, lt)) in
      rw (off.0, off.1, off.2, off.3, off.4, at.0, at.1, at.2, at.3) refl

  -- an entry of each of the four tables
  pml4-into :
      (virt i : ℕ)
      → i < 512
      → translate m root (entry_at (pml4_at virt) i) ≡ into (some root) (8 * i)
  unfolding pml4_at walk
  pml4-into virt i lt =
      translate-into 511 511 511 511 i lt
      ∙ ap (λ o. into o (8 * i))
          (again (511 ∷ 511 ∷ 511 ∷ []) ∙ again (511 ∷ 511 ∷ []) ∙ again (511 ∷ []) ∙ again [])

  pdpt-into :
      (virt i : ℕ)
      → i < 512
      → translate m root (entry_at (pdpt_at virt) i)
        ≡ into (walk m root (pml4e_index virt ∷ [])) (8 * i)
  unfolding pdpt_at
  pdpt-into virt i lt =
      let ix = index-lt virt in
      let a : pml4e_index virt % 512 ≡ pml4e_index virt = omega (arith, ix) in
      translate-into 511 511 511 (pml4e_index virt) i lt
      ∙ ap (λ o. into o (8 * i))
          (again (511 ∷ 511 ∷ pml4e_index virt % 512 ∷ [])
            ∙ again (511 ∷ pml4e_index virt % 512 ∷ [])
            ∙ again (pml4e_index virt % 512 ∷ [])
            ∙ ap (λ x. walk m root (x ∷ [])) a)

  pd-into :
      (virt i : ℕ)
      → i < 512
      → translate m root (entry_at (pd_at virt) i)
        ≡ into (walk m root (pdpte_index virt ∷ pml4e_index virt ∷ [])) (8 * i)
  unfolding pd_at
  pd-into virt i lt =
      let ix = index-lt virt in
      let a : pml4e_index virt % 512 ≡ pml4e_index virt = omega (arith, ix) in
      let b : pdpte_index virt % 512 ≡ pdpte_index virt = omega (arith, ix) in
      translate-into 511 511 (pdpte_index virt) (pml4e_index virt) i lt
      ∙ ap (λ o. into o (8 * i))
          (again (511 ∷ pdpte_index virt % 512 ∷ pml4e_index virt % 512 ∷ [])
            ∙ again (pdpte_index virt % 512 ∷ pml4e_index virt % 512 ∷ [])
            ∙ ap (λ x. walk m root (x ∷ pml4e_index virt % 512 ∷ [])) b
            ∙ ap (λ x. walk m root (pdpte_index virt ∷ x ∷ [])) a)

  pt-into :
      (virt i : ℕ)
      → i < 512
      → translate m root (entry_at (pt_at virt) i)
        ≡ into (walk m root (pde_index virt ∷ pdpte_index virt ∷ pml4e_index virt ∷ [])) (8 * i)
  unfolding pt_at
  pt-into virt i lt =
      let ix = index-lt virt in
      let a : pml4e_index virt % 512 ≡ pml4e_index virt = omega (arith, ix) in
      let b : pdpte_index virt % 512 ≡ pdpte_index virt = omega (arith, ix) in
      let c : pde_index virt % 512 ≡ pde_index virt = omega (arith, ix) in
      translate-into 511 (pde_index virt) (pdpte_index virt) (pml4e_index virt) i lt
      ∙ ap (λ o. into o (8 * i))
          (again (pde_index virt % 512 ∷ pdpte_index virt % 512 ∷ pml4e_index virt % 512 ∷ [])
            ∙ ap (λ x. walk m root (x ∷ pdpte_index virt % 512 ∷ pml4e_index virt % 512 ∷ [])) c
            ∙ ap (λ x. walk m root (pde_index virt ∷ x ∷ pml4e_index virt % 512 ∷ [])) b
            ∙ ap (λ x. walk m root (pde_index virt ∷ pdpte_index virt ∷ x ∷ [])) a)

-- Where the last entry of the top table leads back to that table, the pointers of `map_single_page`
-- reach, entry by entry, the top table, the table of the first index, and then the tables that a walk
-- by the indices in the reverse order finds: second and first, and third, second and first. An
-- access faults exactly where that walk finds nothing.
pub translate-tables :
    (m : Memory) (root virt i : ℕ)
    → IsEntry (read64 m (entry_at (root * 4096) 511)) root
    → i < 512
    → (translate m root (entry_at (pml4_at virt) i) ≡ some (root * 4096 + 8 * i))
      × (translate m root (entry_at (pdpt_at virt) i)
          ≡ into (walk m root (pml4e_index virt ∷ [])) (8 * i))
      × (translate m root (entry_at (pd_at virt) i)
          ≡ into (walk m root (pdpte_index virt ∷ pml4e_index virt ∷ [])) (8 * i))
      × (translate m root (entry_at (pt_at virt) i)
          ≡ into (walk m root (pde_index virt ∷ pdpte_index virt ∷ pml4e_index virt ∷ [])) (8 * i))
translate-tables m root virt i self lt = (
  pml4-into m root self virt i lt,
  pdpt-into m root self virt i lt,
  pd-into m root self virt i lt,
  pt-into m root self virt i lt,
)
