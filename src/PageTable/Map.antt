-- ===== src/PageTable/Map.antt =====
-- What `map_page` of loader/x86-64-multiboot2/mem.cc makes the processor's walk find.
use cxkernel.Base.{
  ℕ, ◌*◌, ◌%◌, ◌^◌, ◌<◌, ◌≡◌, ◌≢◌, ◌⊎◌, inl, inr, arith, refl, sym, ◌∙◌, ap, subst, true, false,
  none, some, List, [], ◌∷◌, ◌++◌, length, Bool-cases, if◌then◌else◌,
}
use cxkernel.Text.{Memory}
use cxkernel.Loader.{Database}
use cxkernel.Paging.{pml4e_index, pdpte_index, pde_index, pte_index, index-lt}
use cxkernel.PageTable.{read64, write64, entry_at, entry_of, present, addr, walk, descend, map_page}
use cxkernel.PageTable.Words.{read64-write64}
use cxkernel.PageTable.Entries.{entry_of-IsEntry, entry_of-lt}
use cxkernel.PageTable.Pages.{Same, read64-Same, write64-Same}
use cxkernel.PageTable.Path.{Origin, IsFresh, IsPath, walk-entry, walk-nil}
use cxkernel.PageTable.Descend.{descend-Descended}

-- A walk in two parts.
walk-++ :
    (m : Memory) (p b : ℕ) (is rest : List ℕ)
    → walk m p is ≡ some b
    → walk m p (is ++ rest) ≡ walk m b rest
unfolding walk
walk-++ m p b [] rest e = let same : p ≡ b = ground (arith, e) in ap (λ x. walk m x rest) same
walk-++ m p b (i ∷ is) rest e =
    let ih = walk-++ m (addr (read64 m (entry_at (p * 4096) i))) b is rest in ground (arith, e, ih)

-- the tables that lead to the entry of a virtual address, and all four indices
abbrev pub tables : ℕ → List ℕ
tables virt = pml4e_index virt ∷ pdpte_index virt ∷ pde_index virt ∷ []

abbrev pub indices : ℕ → List ℕ
indices virt = tables virt ++ pte_index virt ∷ []

-- After a success the page is found at the virtual address, unless one was there before, which stays.
abbrev pub Mapped : Memory → Memory → ℕ → ℕ → ℕ → Type 0
Mapped m m' p frame virt =
    (walk m p (indices virt) ≡ none → walk m' p (indices virt) ≡ some frame)
    × ((q : ℕ) → walk m p (indices virt) ≡ some q → walk m' p (indices virt) ≡ some q)

-- the last table's entry written when it is empty
abbrev pub finish : Memory → ℕ → ℕ → ℕ → ℕ → Memory
finish m b i frame flags =
    let a = entry_at (b * 4096) i in
    if present (read64 m a) then m else write64 m a (entry_of (frame * 4096) flags)

map_page-descend :
    (m : Memory) (db : Database) (p frame virt flags : ℕ) (m' : Memory) (db' : Database) (b : ℕ)
    → virt % 4096 ≡ 0
    → descend m db (p * 4096) (tables virt) flags ≡ some (m', db', b * 4096)
    → map_page m db (p * 4096) (frame * 4096) virt flags
      ≡ some (finish m' b (pte_index virt) frame flags, db')
unfolding map_page
map_page-descend m db p frame virt flags m' db' b h e = ground (arith, h, e)

map_page-none :
    (m : Memory) (db : Database) (p frame virt flags : ℕ)
    → descend m db (p * 4096) (tables virt) flags ≡ none
    → map_page m db (p * 4096) (frame * 4096) virt flags ≡ none
unfolding map_page
map_page-none m db p frame virt flags e = ground (arith, e)

module _ (m m' : Memory) (p b frame virt flags : ℕ) where
  -- the last entry, and the walk to it
  abbrev last : Memory → ℕ
  last m = read64 m (entry_at (b * 4096) (pte_index virt))

  index : pte_index virt < 512
  index = (index-lt virt).3

  old-walk :
      walk m p (tables virt) ≡ some b
      → Same m m' b
      → (last m' ≡ last m) × (walk m p (indices virt) ≡ walk m b (pte_index virt ∷ []))
  old-walk w same = (
    read64-Same m m' b (pte_index virt) index same,
    walk-++ m p b (tables virt) (pte_index virt ∷ []) w,
  )

  one-walk :
      (m : Memory)
      → walk m b (pte_index virt ∷ []) ≡ (if present (last m) then some (addr (last m)) else none)
  unfolding walk
  one-walk m = refl

  present-Mapped :
      present (last m') ≡ true
      → walk m' p (tables virt) ≡ some b
      → Origin m m' p (tables virt) b
      → Mapped m m' p frame virt
  present-Mapped on w (inl old) =
      let o = old-walk old.0 old.1 in
      let s = walk-++ m' p b (tables virt) (pte_index virt ∷ []) w in
      let one = one-walk m in
      let one' = one-walk m' in
      (λ e. ground (arith, o, s, one, one', on, e), λ q e. ground (arith, o, s, one, one', on, e))
  present-Mapped on w (inr new) =
      let z = new.0 (pte_index virt) index in absurd (ground (arith, z, on))

  absent-Mapped :
      (m'' : Memory)
      → present (last m') ≡ false
      → walk m'' p (indices virt) ≡ some frame
      → Origin m m' p (tables virt) b
      → Mapped m m'' p frame virt
  absent-Mapped m'' off w (inl old) =
      let o = old-walk old.0 old.1 in
      let one = one-walk m in (λ e. w, λ q e. ground (arith, o, one, off, e))
  absent-Mapped m'' off w (inr new) =
      let n = new.1 (pte_index virt ∷ []) in (λ e. w, λ q e. ground (arith, n, e))

  written-walk :
      frame < 2 ^ 20
      → flags < 2 ^ 11
      → ((m'' : Memory) → ((p : ℕ) → b ≢ p → Same m' m'' p) → walk m'' p (tables virt) ≡ some b)
      → walk
          (write64 m' (entry_at (b * 4096) (pte_index virt)) (entry_of (frame * 4096) flags))
          p
          (indices virt)
        ≡ some frame
  written-walk small bits found =
      let m'' = write64 m' (entry_at (b * 4096) (pte_index virt)) (entry_of (frame * 4096) flags) in
      let w =
        found m''
          (λ p ne. write64-Same m' b (pte_index virt) (entry_of (frame * 4096) flags) p index ne) in
      walk-++ m'' p b (tables virt) (pte_index virt ∷ []) w
      ∙ walk-entry m'' b (pte_index virt) frame [] (entry_of (frame * 4096) flags)
          (read64-write64 m' (entry_at (b * 4096) (pte_index virt)) (entry_of (frame * 4096) flags)
            (entry_of-lt frame flags small bits))
          (entry_of-IsEntry frame flags small bits)
      ∙ walk-nil m'' frame

  finish-Mapped :
      frame < 2 ^ 20
      → flags < 2 ^ 11
      → ((m'' : Memory) → ((p : ℕ) → b ≢ p → Same m' m'' p) → walk m'' p (tables virt) ≡ some b)
      → Origin m m' p (tables virt) b
      → Mapped m (finish m' b (pte_index virt) frame flags) p frame virt
  finish-Mapped small bits found o =
      let written =
        write64 m' (entry_at (b * 4096) (pte_index virt)) (entry_of (frame * 4096) flags) in
      elim (Bool-cases (present (last m'))) [
        | inl on ↦
            let same : finish m' b (pte_index virt) frame flags ≡ m' =
              ap (λ c. if c then m' else written) on in
            subst (λ x. Mapped m x p frame virt) (sym same)
              (present-Mapped on (found m' (λ p ne a h. refl)) o)
        | inr off ↦
            let same : finish m' b (pte_index virt) frame flags ≡ written =
              ap (λ c. if c then m' else written) off in
            subst (λ x. Mapped m x p frame virt) (sym same)
              (absent-Mapped written off (written-walk small bits found) o)
      ]

-- With a path of distinct tables that holds no free page and distinct free pages below 4 GiB,
-- `map_page` of a page below 4 GiB fails only when fewer than three pages are free. Otherwise it
-- returns, and in the memory it leaves the processor finds the page at the virtual address, unless
-- a page was mapped there before, which is then still found.
pub map_page-Mapped :
    (m : Memory) (db : Database) (p frame virt flags : ℕ)
    → frame < 2 ^ 20
    → virt % 4096 ≡ 0
    → flags < 2 ^ 11
    → IsFresh db.freelist []
    → IsPath m db.freelist [] p (tables virt)
    → ((map_page m db (p * 4096) (frame * 4096) virt flags ≡ none) × (length db.freelist < 3))
      ⊎ ((m' : Memory) × (db' : Database) × (map_page m db (p * 4096) (frame * 4096) virt flags
            ≡ some (m', db'))
          × Mapped m m' p frame virt)
map_page-Mapped m db p frame virt flags small page bits fresh path =
    let ix = index-lt virt in
    elim (descend-Descended m db [] p (tables virt) flags bits (ix.0, (ix.1, (ix.2, tt))) fresh
      path) [
        | inl r ↦ inl (map_page-none m db p frame virt flags r.0, r.1)
        | inr (m', db', b, e, r) ↦ inr (
          finish m' b (pte_index virt) frame flags,
          db',
          map_page-descend m db p frame virt flags m' db' b page e,
          finish-Mapped m m' p b frame virt flags small bits r.found r.origin,
        )
      ]
