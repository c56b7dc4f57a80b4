-- ===== src/PageTable/Path.antt =====
-- Paths through the page tables of loader/x86-64-multiboot2/mem.cc and what keeps them.
use cxkernel.Base.{
  ℕ, ◌*◌, ◌^◌, ◌<◌, ◌≡◌, ◌≢◌, ◌⊎◌, inl, inr, arith, refl, sym, ◌∙◌, subst, true, false, none, some,
  List, [], ◌∷◌, ◌++◌, NotIn, All, Distinct, length,
}
use cxkernel.Text.{Memory}
use cxkernel.Loader.{Database}
use cxkernel.PageTable.{read64, entry_at, present, walk, descend}
use cxkernel.PageTable.Entries.{IsEntry}
use cxkernel.PageTable.Pages.{Same, read64-Same}

-- The page is one of those.
abbrev pub In : ℕ → List ℕ → Type 0
In p [] = ⊥
In p (x ∷ xs) = (p ≡ x) ⊎ In p xs

pub NotIn-ne : (b p : ℕ) (xs : List ℕ) → NotIn b xs → In p xs → b ≢ p
NotIn-ne b p [] out i = elim i [ ]
NotIn-ne b p (x ∷ xs) out (inl e) = λ e'. out.0 (e' ∙ e)
NotIn-ne b p (x ∷ xs) out (inr i) = NotIn-ne b p xs out.1 i

-- The free pages are distinct, below 4 GiB, and apart from the tables of the path.
abbrev pub IsFresh : List ℕ → List ℕ → Type 0
IsFresh free seen = Distinct free × All (λ f. (f < 2 ^ 20) × NotIn f seen) free

-- The tables that the indices lead through are all different, none is free, and both readings of
-- an entry's address agree.
abbrev pub IsPath : Memory → List ℕ → List ℕ → ℕ → List ℕ → Type 0
IsPath m free seen b [] = NotIn b seen × NotIn b free
IsPath m free seen b (i ∷ is) =
    NotIn b seen
    × NotIn b free
    × (present (read64 m (entry_at (b * 4096) i)) ≡ true
        → (q : ℕ) × IsEntry (read64 m (entry_at (b * 4096) i)) q × IsPath m free (b ∷ seen) q is)

abbrev pub IsIndices : List ℕ → Type 0
IsIndices is = All (λ i. i < 512) is

-- The last table was there before, unchanged, or it is a new and empty one where the path broke off.
abbrev pub Origin : Memory → Memory → ℕ → List ℕ → ℕ → Type 0
Origin m m' b is b' =
    ((walk m b is ≡ some b') × Same m m' b')
    ⊎ (((j : ℕ) → j < 512 → read64 m' (entry_at (b' * 4096) j) ≡ 0)
        × ((rest : List ℕ) → walk m b (is ++ rest) ≡ none))

-- The table at the end: where it is, that the tables before it are as they were, and that the
-- processor finds it in every memory that differs from the one left in that table's page alone.
pub record Reached (m : Memory) (seen : List ℕ) (b : ℕ) (is : List ℕ) (m' : Memory) (db' : Database)
    (b' : ℕ) : Type 0 where
  pub apart : NotIn b' seen
  pub taken : NotIn b' db'.freelist
  pub kept : (p : ℕ) → In p seen → Same m m' p
  pub found : (m'' : Memory) → ((p : ℕ) → b' ≢ p → Same m' m'' p) → walk m'' b is ≡ some b'
  pub origin : Origin m m' b is b'

-- Out of memory with fewer free pages than levels, or the last table.
abbrev pub Descended : Memory → Database → List ℕ → ℕ → List ℕ → ℕ → Type 0
Descended m db seen b is flags =
    ((descend m db (b * 4096) is flags ≡ none) × (length db.freelist < length is))
    ⊎ ((m' : Memory) × (db' : Database) × (b' : ℕ) × (descend m db (b * 4096) is flags
          ≡ some (m', db', b' * 4096))
        × Reached m seen b is m' db' b')

-- A cleared page leads nowhere.
pub cleared-IsPath :
    (m : Memory) (free seen : List ℕ) (f : ℕ) (is : List ℕ)
    → NotIn f seen
    → NotIn f free
    → ((j : ℕ) → j < 512 → read64 m (entry_at (f * 4096) j) ≡ 0)
    → IsIndices is
    → IsPath m free seen f is
cleared-IsPath m free seen f [] out fresh z h = (out, fresh)
cleared-IsPath m free seen f (i ∷ is) out fresh z h =
    (out, fresh, λ e. let e0 = z i h.0 in absurd (ground (arith, e, e0)))

-- The processor follows an entry.
pub walk-entry :
    (m : Memory) (b i q : ℕ) (is : List ℕ) (e : ℕ)
    → read64 m (entry_at (b * 4096) i) ≡ e
    → IsEntry e q
    → walk m b (i ∷ is) ≡ walk m q is
unfolding walk
walk-entry m b i q is e same h =
    let set = h.set in let address = h.address in ground (arith, same, set, address)

pub walk-absent :
    (m : Memory) (b i : ℕ) (is : List ℕ)
    → present (read64 m (entry_at (b * 4096) i)) ≡ false
    → walk m b (i ∷ is) ≡ none
unfolding walk
walk-absent m b i is off = ground (arith, off)

pub walk-nil : (m : Memory) (b : ℕ) → walk m b [] ≡ some b
unfolding walk
walk-nil m b = refl

-- From a cleared table the last one is empty.
pub cleared-Origin :
    (m m' : Memory) (f : ℕ) (is : List ℕ) (b' : ℕ)
    → ((j : ℕ) → j < 512 → read64 m (entry_at (f * 4096) j) ≡ 0)
    → IsIndices is
    → Origin m m' f is b'
    → (j : ℕ) → j < 512
    → read64 m' (entry_at (b' * 4096) j) ≡ 0
cleared-Origin m m' f is b' z ix (inr new) j lt = new.0 j lt
cleared-Origin m m' f [] b' z ix (inl old) j lt =
    let e = sym (walk-nil m f) ∙ old.0 in
    let same : b' ≡ f = ground (arith, e) in
    subst (λ x. read64 m' (entry_at (x * 4096) j) ≡ 0) (sym same)
      (read64-Same m m' f j lt (subst (Same m m') same old.1) ∙ z j lt)
cleared-Origin m m' f (i ∷ is) b' z ix (inl old) j lt =
    let e0 = z i ix.0 in
    let off = walk-absent m f i is (ground (arith, e0)) in
    let e = sym off ∙ old.0 in absurd (ground (arith, e))

-- One level further, by an entry that is there.
pub step-Reached :
    (m m1 : Memory) (seen : List ℕ) (b i q : ℕ) (is : List ℕ) (m' : Memory) (db' : Database)
    (b' : ℕ)
    → i < 512
    → NotIn b seen
    → IsEntry (read64 m1 (entry_at (b * 4096) i)) q
    → ((p : ℕ) → In p seen → Same m m1 p)
    → Reached m1 (b ∷ seen) q is m' db' b'
    → Origin m m' b (i ∷ is) b'
    → Reached m seen b (i ∷ is) m' db' b'
step-Reached m m1 seen b i q is m' db' b' lt out e same r o = record {
  origin = o;
  apart = r.apart.1;
  taken = r.taken;
  kept = λ p j a h. r.kept p (inr j) a h ∙ same p j a h;
  found = λ m'' agree.
      let ne : b' ≢ b = r.apart.0 in
      let e1 = read64-Same m' m'' b i lt (agree b ne) in
      let e2 = read64-Same m1 m' b i lt (r.kept b (inl refl)) in
      let next = r.found m'' agree in
      walk-entry m'' b i q is (read64 m1 (entry_at (b * 4096) i)) (e1 ∙ e2) e ∙ next;
}

-- By an entry that is there the origin is as below.
pub present-Origin :
    (m m' : Memory) (b i q : ℕ) (is : List ℕ) (b' : ℕ)
    → IsEntry (read64 m (entry_at (b * 4096) i)) q
    → Origin m m' q is b'
    → Origin m m' b (i ∷ is) b'
present-Origin m m' b i q is b' e (inl old) =
    inl (walk-entry m b i q is (read64 m (entry_at (b * 4096) i)) refl e ∙ old.0, old.1)
present-Origin m m' b i q is b' e (inr new) = inr (
  new.0,
  λ rest. walk-entry m b i q (is ++ rest) (read64 m (entry_at (b * 4096) i)) refl e ∙ new.1 rest,
)
