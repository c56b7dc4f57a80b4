-- ===== src/PageTable/Setup.antt =====
-- The top table that `setup_paging` of loader/x86-64-multiboot2/mem.cc makes.
use cxkernel.Base.{
  ℕ, ◌+◌, ◌*◌, ◌^◌, ◌<◌, ◌≡◌, inl, arith, sym, subst, ◌∙◌, some, List, [], ◌∷◌, ◌++◌, bit_or,
}
use cxkernel.Bits.{bit_or-add, bit_and-high}
use cxkernel.Text.{Memory, memset}
use cxkernel.Text.Copy.{memset_lem}
use cxkernel.Loader.{Database, pmm_alloc_page}
use cxkernel.PageTable.{read64, write64, entry_at, setup_paging}
use cxkernel.PageTable.Words.{read64-write64, read64-apart, read64-zero}
use cxkernel.PageTable.Entries.{IsEntry}

self-sum : (p : ℕ) → bit_or (p * 4096) 3 ≡ p * 4096 + 3
self-sum p = bit_or-add 12 p 3 (omega arith)

self-IsEntry : (p : ℕ) → p < 2 ^ 20 → IsEntry (p * 4096 + 3) p
self-IsEntry p small =
    let high = bit_and-high 11 21 (p * 4096 + 3) (omega (arith, small)) in
    record { set = ground arith; table = omega (arith, high); address = omega (arith, small) }

-- the memory that is left, when page `f` is taken
abbrev after : Memory → ℕ → Memory
after m f =
    write64 (memset (memset m (f * 4096) 0 4096) (f * 4096) 0 4096) (entry_at (f * 4096) 511)
      (bit_or (f * 4096) 3)

setup_paging-after :
    (m : Memory) (db : Database) (f : ℕ) (free : List ℕ)
    → db.freelist ≡ f ∷ free
    → setup_paging m db
      ≡ some (f * 4096, after m f, record { freelist = free; rsrvlist = db.rsrvlist ++ f ∷ [] })
unfolding setup_paging pmm_alloc_page
setup_paging-after m db f free e = ground (arith, e)

-- When a page below 4 GiB is free, `setup_paging` takes the first one as the top table: its last entry
-- is one for the table itself and every other entry is 0, and the page moves to the end of the
-- reserved list.
setup_paging-IsEntry :
    (m : Memory) (db : Database) (f : ℕ) (free : List ℕ)
    → db.freelist ≡ f ∷ free
    → f < 2 ^ 20
    → (m' : Memory) × (setup_paging m db
        ≡ some (f * 4096, m', record { freelist = free; rsrvlist = db.rsrvlist ++ f ∷ [] }))
      × IsEntry (read64 m' (entry_at (f * 4096) 511)) f
      × ((i : ℕ) → i < 511 → read64 m' (entry_at (f * 4096) i) ≡ 0)
setup_paging-IsEntry m db f free e small =
    let cleared = memset (memset m (f * 4096) 0 4096) (f * 4096) 0 4096 in
    let sum = self-sum f in
    let written =
      read64-write64 cleared (entry_at (f * 4096) 511) (bit_or (f * 4096) 3)
        (omega (arith, sum, small)) in
    (
      after m f,
      setup_paging-after m db f free e,
      subst (λ x. IsEntry x f) (sym (written ∙ sum)) (self-IsEntry f small),
      λ i lt.
          read64-apart cleared (entry_at (f * 4096) 511) (bit_or (f * 4096) 3)
            (entry_at (f * 4096) i) (inl (omega (arith, lt)))
          ∙ read64-zero cleared (entry_at (f * 4096) i) (λ k less.
            let l =
              memset_lem (memset m (f * 4096) 0 4096) (f * 4096) 0 4096 (f * 4096 + 8 * i + k) in
            ground (arith, l, lt, less)),
    )
