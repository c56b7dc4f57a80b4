-- ===== src/VmRegion/Allocate.antt =====
-- What `allocate_vmr_compact` of core/vmregion.cc promises, for a region whose base is 0, as the
-- root of the user's address space is.
use native.Mathlib.Nat.{pow-le-pow_right}
use cxkernel.Base.{
  ℕ, ◌+◌, ◌%◌, ◌^◌, ◌≤◌, ◌<◌, ◌≡◌, ◌≢◌, Option, none, some, List, [], ◌∷◌, ◌++◌, inl, inr, arith,
  All, NotIn, Distinct, ltb, Bool-cases, Option-cases, bit_and, sym, ap, ◌∙◌,
}
use mathlib.Core.Path.{subst}
use cxkernel.Util.{page_size, max}
use cxkernel.LinkedList.{Ptr}
use cxkernel.Status.{E}
use cxkernel.VmRegion.{
  Store, VmRegion, Hole, Outcome, failed, allocated, foreach_hole, first_fit, alignment, attach,
  with_child, capability, type_of, region, new_flags, allocate_vmr_compact,
}
use cxkernel.VmRegion.Search.{
  IsLaid, IsClear, foreach_hole-search, search, search_complete, search-fits, search-IsLaid,
  search-split, IsLaid-IsClear,
}

-- The alignment is a power of two, of at least a page.
pub alignment-pow : (a : ℕ) → a ≤ 31 → (k : ℕ) × (k ≤ 31) × (alignment a ≡ 2 ^ k)
unfolding alignment max
alignment-pow a h = elim (Bool-cases (ltb (2 ^ a) page_size)) [
  | inl e ↦ (12, omega arith, rw e)
  | inr e ↦ (a, h, rw e)
]

-- A region at 0 with the ordered children that the operations below work on, and room in 64 bits
-- for the arithmetic.
pub record IsReady (m : Store) (this : Ptr) (size align_pow2 limit : ℕ) : Type 0 where
  pub at_zero : (m this).base ≡ 0
  pub extent : (m this).size ≡ limit
  pub shift : align_pow2 ≤ 31
  pub room : limit + 2 ^ 31 + size < 2 ^ 64
  pub laid : IsLaid m 0 limit (m this).children
  pub distinct : Distinct (m this).children

-- The request passes the checks before the search.
pub record IsAllowed (m : Store) (this : Ptr) (size flags : ℕ) : Type 0 where
  pub subset : bit_and (capability flags) (capability (m this).flags) ≡ capability flags
  pub is_region : type_of flags ≡ region
  pub pages : size % page_size ≡ 0

attach-other :
    (m : Store) (this new : Ptr) (h : Hole) (f : ℕ) (q : Ptr)
    → new ≢ q
    → this ≢ q
    → attach m this h f new q ≡ m q
unfolding attach
attach-other m this new h f q a b = ground arith

attach-same :
    (m : Store) (this new : Ptr) (h : Hole) (f : ℕ) (cs : List Ptr)
    → NotIn new cs
    → NotIn this cs
    → All (λ c. attach m this h f new c ≡ m c) cs
attach-same m this new h f [] a b = tt
attach-same m this new h f (c ∷ cs) a b =
    (attach-other m this new h f c a.0 b.0, attach-same m this new h f cs a.1 b.1)

pub attach-new :
    (m : Store) (this new : Ptr) (h : Hole) (f : ℕ)
    → new ≢ this
    → (attach m this h f new new
        ≡ record { base = h.base; size = h.size; flags = f; parent = some this; children = [] })
      × (attach m this h f new this
          ≡ record (m this) { children = with_child h.child new (m this).children })
unfolding attach
attach-new m this new h f ne = (ground arith, ground arith)

-- The new region `n` and its place: it is in the list of the children, between those that were there,
-- lies within the parent, and meets no other child.
pub record IsPlaced (m m' : Store) (this n : Ptr) (size align limit : ℕ) : Type 0 where
  pub laid : IsLaid m' 0 limit (m' this).children
  pub aligned : (m' n).base % align ≡ 0
  pub size_eq : (m' n).size ≡ size
  pub owner : (m' n).parent ≡ some this
  pub inside : (m' n).base + (m' n).size ≤ limit
  pub apart : IsClear m' (m' n).base (m' n).size (m this).children
  pub inserted :
      (before : List Ptr) × (after : List Ptr) × ((m this).children ≡ before ++ after)
      × ((m' this).children ≡ before ++ n ∷ after)
  pub others : (q : Ptr) → n ≢ q → this ≢ q → m' q ≡ m q

module _ (fresh : Option Ptr) (m : Store) (this : Ptr) (size align_pow2 flags : ℕ) where
  abbrev pub run : Outcome × Store
  run = allocate_vmr_compact fresh this size align_pow2 flags m

  abbrev pub found : Option Hole
  found = foreach_hole (first_fit (alignment align_pow2) size) m this (m this).children 0 none

  -- Where `allocate_vmr_compact` returns an error, no region has changed.
  allocate_failed-unchanged : (e : E) → run.0 ≡ failed e → run.1 ≡ m
  unfolding allocate_vmr_compact
  allocate_failed-unchanged e h = ground arith

  pub allocate-found :
      (h : Hole) (new : Ptr)
      → IsAllowed m this size flags
      → found ≡ some h
      → fresh ≡ some new
      → run ≡ (allocated new, attach m this h (new_flags flags) new)
  unfolding allocate_vmr_compact
  allocate-found h new ok e f = ground arith

  -- what a successful run has done
  record IsAttached (n : Ptr) : Type 0 where
    hole : Hole
    got : found ≡ some hole
    stored : run.1 ≡ attach m this hole (new_flags flags) n

  allocated-IsAttached : (n : Ptr) → run.0 ≡ allocated n → IsAttached n
  unfolding allocate_vmr_compact
  allocated-IsAttached n h = elim (Option-cases found) [
    | inl e ↦ absurd (ground arith)
    | inr (x, e) ↦ record { hole = x; got = e; stored = ground arith }
  ]

  module _ (limit : ℕ) (ready : IsReady m this size align_pow2 limit) where
    k : ℕ
    k = (alignment-pow align_pow2 ready.shift).0

    k-le : k ≤ 31
    unfolding k
    k-le = (alignment-pow align_pow2 ready.shift).1

    align-eq : alignment align_pow2 ≡ 2 ^ k
    unfolding k
    align-eq = (alignment-pow align_pow2 ready.shift).2

    room : limit + 2 ^ k + size < 2 ^ 64
    room =
        let p : 2 ^ k ≤ 2 ^ 31 = pow-le-pow_right (omega arith) k-le in omega (arith, ready.room, p)

    abbrev searched : Option Hole
    searched = search m k size limit k-le room (m this).children 0

    found-searched : found ≡ searched
    found-searched = rw align-eq (
        foreach_hole-search m k size limit k-le room this (m this).children 0 ready.at_zero
          ready.extent ready.laid)

    -- In a region at 0 with ordered children and room for the arithmetic, a child that
    -- `allocate_vmr_compact` allocates at fresh memory is aligned and has the size asked for, is
    -- inserted into the list of the parent's children, which stays in order and loses none, and lies
    -- within its parent without meeting any other child; no region but these two changes.
    pub allocated-IsPlaced :
        (n : Ptr)
        → n ≢ this
        → NotIn n (m this).children
        → NotIn this (m this).children
        → run.0 ≡ allocated n
        → IsPlaced m run.1 this n size (alignment align_pow2) limit
    allocated-IsPlaced n ne out out' h =
        let got : searched ≡ some (at h).hole = sym found-searched ∙ (at h).got in
        let f = new_flags flags in
        let x = (at h).hole in
        let fits = search-fits m k size limit k-le room (m this).children 0 x ready.laid got in
        let placed = attach-new m this n x f ne in
        let laid =
          search-IsLaid m k size limit k-le room (attach m this x f n) n (m this).children 0 x
            (attach-same m this n x f (m this).children out out')
            (ap (λ (r : VmRegion). r.base) placed.0) (ap (λ (r : VmRegion). r.size) placed.0)
            ready.distinct ready.laid got in
        let kids = ap (λ (r : VmRegion). r.children) placed.1 in
        let (before, after, whole, put) =
          search-split m k size limit k-le room n (m this).children 0 x ready.distinct got in
        let (_, inside, clear) =
          IsLaid-IsClear (attach m this x f n) n 0 limit before after
            (subst (IsLaid (attach m this x f n) 0 limit) put laid) in
        rw ((at h).stored) (record {
          laid = rw kids laid;
          inside = inside;
          apart = subst (IsClear (attach m this x f n) _ _) (sym whole) clear;
          aligned = rw (align-eq, placed.0) (fits.0);
          size_eq = rw (placed.0) (fits.1);
          owner = ap (λ (r : VmRegion). r.parent) placed.0;
          inserted = (before, after, whole, kids ∙ put);
          others = λ q a b. attach-other m this n x f q a b;
        })
      where
        at : run.0 ≡ allocated n → IsAttached n
        at = allocated-IsAttached n

    -- In a region at 0 with ordered children and room for the arithmetic, a request that passes the
    -- checks succeeds whenever some aligned range of its size, which is not 0, within the region
    -- meets no child, and memory for the new region is there.
    pub allocate_complete :
        (new b : ℕ)
        → IsAllowed m this size flags
        → fresh ≡ some new
        → 0 < size
        → b % alignment align_pow2 ≡ 0
        → b + size ≤ limit
        → IsClear m b size (m this).children
        → run.0 ≡ allocated new
    allocate_complete new b ok f pos ba top clear = elim (Option-cases searched) [
      | inl e ↦ absurd (
          search_complete m k size limit k-le room (m this).children 0 b ready.laid e pos
            (subst (λ v. b % v ≡ 0) align-eq ba) (omega arith) top clear)
      | inr (h, e) ↦
          ap (λ (r : Outcome × Store). r.0) (allocate-found h new ok (found-searched ∙ e) f)
    ]
