-- ===== src/PageTable/Descend.antt =====
-- The levels above the last in `map_page` of loader/x86-64-multiboot2/mem.cc.
use cxkernel.Base.{
  ℕ, ◌*◌, ◌^◌, ◌<◌, ◌≡◌, inl, inr, arith, refl, sym, ◌∙◌, subst, false, none, List, [], ◌∷◌, ◌++◌,
  NotIn, All, Bool-cases, List-cases,
}
use cxkernel.Text.{Memory}
use cxkernel.Loader.{Database, pmm_alloc_page}
use cxkernel.PageTable.{read64, entry_at, present, ensure, descend}
use cxkernel.PageTable.Entries.{IsEntry, entry_of-IsEntry}
use cxkernel.PageTable.Pages.{linked, linked-entry, linked-Same, linked-zero}
use cxkernel.PageTable.Path.{
  NotIn-ne, IsFresh, IsPath, IsIndices, Descended, cleared-IsPath, walk-absent, walk-nil,
  cleared-Origin, step-Reached, present-Origin,
}

descend-present :
    (m : Memory) (db : Database) (b i q : ℕ) (is : List ℕ) (flags : ℕ)
    → IsEntry (read64 m (entry_at (b * 4096) i)) q
    → descend m db (b * 4096) (i ∷ is) flags ≡ descend m db (q * 4096) is flags
unfolding descend ensure
descend-present m db b i q is flags h =
    let set = h.set in let table = h.table in ground (arith, set, table)

descend-absent :
    (m : Memory) (db : Database) (b i f : ℕ) (free is : List ℕ) (flags : ℕ)
    → present (read64 m (entry_at (b * 4096) i)) ≡ false
    → db.freelist ≡ f ∷ free
    → IsEntry (read64 (linked m b i f flags) (entry_at (b * 4096) i)) f
    → descend m db (b * 4096) (i ∷ is) flags
      ≡ descend
          (linked m b i f flags)
          (record { freelist = free; rsrvlist = db.rsrvlist ++ f ∷ [] })
          (f * 4096)
          is
          flags
unfolding descend ensure pmm_alloc_page
descend-absent m db b i f free is flags off e h =
    let table = h.table in ground (arith, off, e, table)

descend-none :
    (m : Memory) (db : Database) (b i : ℕ) (is : List ℕ) (flags : ℕ)
    → present (read64 m (entry_at (b * 4096) i)) ≡ false
    → db.freelist ≡ []
    → descend m db (b * 4096) (i ∷ is) flags ≡ none
unfolding descend ensure pmm_alloc_page
descend-none m db b i is flags off e = ground (arith, off, e)

-- Freshness for the pages that are left, on a path that has grown.
IsFresh-path :
    (b : ℕ) (free seen : List ℕ) → NotIn b free → IsFresh free seen → IsFresh free (b ∷ seen)
IsFresh-path b free seen out h = (h.0, grown free out h.1)
  where
    grown :
        (fs : List ℕ)
        → NotIn b fs
        → All (λ f. (f < 2 ^ 20) × NotIn f seen) fs
        → All (λ f. (f < 2 ^ 20) × NotIn f (b ∷ seen)) fs
    grown [] o a = tt
    grown (f ∷ fs) o a = ((a.0.0, ((λ e. o.0 (sym e)), a.0.1)), grown fs o.1 a.1)

-- One level by an entry that is there: as the levels below it.
present-Descended :
    (m : Memory) (db : Database) (seen : List ℕ) (b i q : ℕ) (is : List ℕ) (flags : ℕ)
    → i < 512
    → NotIn b seen
    → IsEntry (read64 m (entry_at (b * 4096) i)) q
    → Descended m db (b ∷ seen) q is flags
    → Descended m db seen b (i ∷ is) flags
present-Descended m db seen b i q is flags ix out entry (inl (e, short)) =
    inl (descend-present m db b i q is flags entry ∙ e, omega (arith, short))
present-Descended m db seen b i q is flags ix out entry (inr (m', db', b', e, r)) = inr (
  m',
  db',
  b',
  descend-present m db b i q is flags entry ∙ e,
  step-Reached m m seen b i q is m' db' b' ix out entry (λ p j a h. refl) r
      (present-Origin m m' b i q is b' entry r.origin),
)

-- One level by a new table.
absent-Descended :
    (m : Memory) (db : Database) (seen : List ℕ) (b i f : ℕ) (free is : List ℕ) (flags : ℕ)
    → flags < 2 ^ 11
    → IsIndices (i ∷ is)
    → NotIn b seen
    → NotIn b (f ∷ free)
    → IsFresh (f ∷ free) seen
    → present (read64 m (entry_at (b * 4096) i)) ≡ false
    → db.freelist ≡ f ∷ free
    → Descended
        (linked m b i f flags)
        (record { freelist = free; rsrvlist = db.rsrvlist ++ f ∷ [] })
        (b ∷ seen)
        f
        is
        flags
    → Descended m db seen b (i ∷ is) flags
absent-Descended m db seen b i f free is flags small ix out apart fresh off e below =
    let entry : IsEntry (read64 (linked m b i f flags) (entry_at (b * 4096) i)) f =
      subst (λ x. IsEntry x f) (sym (linked-entry m b i f flags ix.0 fresh.1.0.0 small apart.0))
        (entry_of-IsEntry f flags fresh.1.0.0 small) in
    let run = descend-absent m db b i f free is flags off e entry in
    elim below [
      | inl r ↦ let n = r.1 in inl (run ∙ r.0, ground (arith, e, n))
      | inr r ↦ inr (
        r.0,
        r.1,
        r.2,
        run ∙ r.3,
        step-Reached m (linked m b i f flags) seen b i f is r.0 r.1 r.2 ix.0 out entry
            (λ p j.
              linked-Same m b i f flags ix.0 fresh.1.0.0 small apart.0 p (NotIn-ne b p seen out j)
                (NotIn-ne f p seen fresh.1.0.1 j))
            r.4
            (inr (
              cleared-Origin (linked m b i f flags) r.0 f is r.2
                  (linked-zero m b i f flags ix.0 fresh.1.0.0 small apart.0) ix.1 r.4.origin,
              λ rest. walk-absent m b i (is ++ rest) off,
            )),
      )
    ]

pub descend-Descended :
    (m : Memory) (db : Database) (seen : List ℕ) (b : ℕ) (is : List ℕ) (flags : ℕ)
    → flags < 2 ^ 11
    → IsIndices is
    → IsFresh db.freelist seen
    → IsPath m db.freelist seen b is
    → Descended m db seen b is flags
unfolding descend
descend-Descended m db seen b [] flags small ix fresh path = inr (
  m,
  db,
  b,
  refl,
  record {
    origin = inl (walk-nil m b, λ a h. refl);
    apart = path.0;
    taken = path.1;
    kept = λ p j a h. refl;
    found = λ m'' agree. walk-nil m'' b;
  },
)
descend-Descended m db seen b (i ∷ is) flags small ix fresh path =
    elim (Bool-cases (present (read64 m (entry_at (b * 4096) i)))) [
      | inl set ↦
          let q = path.2 set in
          present-Descended m db seen b i q.0 is flags ix.0 path.0 q.1 (
            descend-Descended m db (b ∷ seen) q.0 is flags small ix.1
              (IsFresh-path b db.freelist seen path.1 fresh) q.2)
      | inr off ↦ elim (List-cases db.freelist) [
        | inl e ↦ inl (descend-none m db b i is flags off e, ground (arith, e))
        | inr (f, free, e) ↦
            let fresh' = subst (λ x. IsFresh x seen) e fresh in
            let apart = subst (NotIn b) e path.1 in
            absent-Descended m db seen b i f free is flags small ix path.0 apart fresh' off e (
              descend-Descended (linked m b i f flags)
                (record { freelist = free; rsrvlist = db.rsrvlist ++ f ∷ [] }) (b ∷ seen) f is flags
                small ix.1 (IsFresh-path b free seen apart.1 (fresh'.0.1, fresh'.1.1))
                (cleared-IsPath (linked m b i f flags) free (b ∷ seen) f is
                  ((λ e'. apart.0 (sym e')), fresh'.1.0.1) fresh'.0.0
                  (linked-zero m b i f flags ix.0 fresh'.1.0.0 small apart.0) ix.1))
      ]
    ]
