-- ===== src/VmRegion/Search.antt =====
-- The search of core/vmregion.cc for a hole, in a region whose base is 0.
use cxkernel.Base.{
  ℕ, ◌+◌, ◌%◌, ◌^◌, ◌≤◌, ◌<◌, ◌≡◌, ◌≢◌, refl, Option, none, some, List, [], ◌∷◌, ◌⊎◌, inl, inr,
  arith, All, NotIn, Distinct, ltb, if◌then◌else◌, ◌++◌, ap, ◌∙◌,
}
use cxkernel.Bits.{u64}
use cxkernel.Util.{align_up, IsAlignedUp, align_up-IsAlignedUp}
use cxkernel.LinkedList.{Ptr}
use cxkernel.VmRegion.{Store, Hole, foreach_hole, first_fit, insert_before, with_child}

-- The children lie in order between `offset` and `limit` and do not overlap.
abbrev pub IsLaid : Store → ℕ → ℕ → List Ptr → Type 0
IsLaid m offset limit [] = offset ≤ limit
IsLaid m offset limit (c ∷ cs) = (offset ≤ (m c).base) × IsLaid m ((m c).base + (m c).size) limit cs

-- A range that meets no child.
abbrev pub IsClear : Store → ℕ → ℕ → List Ptr → Type 0
IsClear m b size cs = All (λ c. (b + size ≤ (m c).base) ⊎ ((m c).base + (m c).size ≤ b)) cs

pub offset-le :
    (m : Store) (offset limit : ℕ) (cs : List Ptr) → IsLaid m offset limit cs → offset ≤ limit
offset-le m offset limit [] h = h
offset-le m offset limit (c ∷ cs) h =
    omega (arith, h.0, offset-le m ((m c).base + (m c).size) limit cs h.1)

pub with_child-here :
    (c new : Ptr) (cs : List Ptr) → with_child (some c) new (c ∷ cs) ≡ new ∷ c ∷ cs
unfolding insert_before
with_child-here c new cs = ground arith

pub with_child-later :
    (x : Option Ptr) (c new : Ptr) (cs : List Ptr)
    → x ≢ some c
    → with_child x new (c ∷ cs) ≡ c ∷ with_child x new cs
unfolding insert_before
with_child-later none c new cs ne = refl
with_child-later (some d) c new cs ne = ground arith

IsLaid-same :
    (m m' : Store) (offset limit : ℕ) (cs : List Ptr)
    → All (λ c. m' c ≡ m c) cs
    → IsLaid m offset limit cs
    → IsLaid m' offset limit cs
IsLaid-same m m' offset limit [] same h = h
IsLaid-same m m' offset limit (c ∷ cs) same h =
    rw (same.0) (h.0, IsLaid-same m m' ((m c).base + (m c).size) limit cs same.1 h.1)

module _ (m : Store) (k size limit : ℕ) (small : k ≤ 31)
    (room : limit + 2 ^ k + size < 2 ^ 64) where
  abbrev align : ℕ
  align = 2 ^ k

  try : Option Ptr → ℕ → ℕ → Option Hole
  try x offset top =
      if ltb top (align_up offset align + size)
      then none
      else some (record { base = align_up offset align; size = size; child = x })

  -- the search without the wrap of 64 bits
  pub search : List Ptr → ℕ → Option Hole
  search [] offset = if ltb offset limit then try none offset limit else none
  search (c ∷ cs) offset =
      let rest = search cs ((m c).base + (m c).size) in
      if ltb offset (m c).base
      then elim (try (some c) offset (m c).base) [ none ↦ rest | some h ↦ some h ]
      else rest

  up : (offset : ℕ) → offset ≤ limit → IsAlignedUp offset align (align_up offset align)
  up offset h = align_up-IsAlignedUp k offset (omega arith) (omega arith)

  -- In a region at 0 that leaves room in 64 bits the loop of `foreach_hole` is that search.
  pub foreach_hole-search :
      (this : Ptr) (cs : List Ptr) (offset : ℕ)
      → (m this).base ≡ 0
      → (m this).size ≡ limit
      → IsLaid m offset limit cs
      → foreach_hole (first_fit align size) m this cs offset none ≡ search cs offset
  unfolding foreach_hole first_fit search try
  foreach_hole-search this [] offset b z h = let near = (up offset h).near in ground arith
  foreach_hole-search this (c ∷ cs) offset b z h =
      let l = offset-le m ((m c).base + (m c).size) limit cs h.1 in
      let le : offset ≤ limit = omega arith in
      let near = (up offset le).near in
      let ih = foreach_hole-search this cs ((m c).base + (m c).size) b z h.1 in
      let e : u64 ((m c).base + (m c).size) ≡ (m c).base + (m c).size = omega arith in
      ground (arith, ih)

  -- A hole is found wherever an aligned range of the size is free.
  pub search_complete :
      (cs : List Ptr) (offset b : ℕ)
      → IsLaid m offset limit cs
      → search cs offset ≡ none
      → 0 < size
      → b % align ≡ 0
      → offset ≤ b
      → b + size ≤ limit
      → ¬ IsClear m b size cs
  unfolding search try
  search_complete [] offset b h none' pos ba le top clear =
      let least = (up offset h).least b ba le in ground arith
  search_complete (c ∷ cs) offset b h none' pos ba le top clear =
      let l = offset-le m ((m c).base + (m c).size) limit cs h.1 in
      let least = (up offset (omega arith)).least b ba le in
      elim (clear.0) [
        | inl below ↦ ground arith
        | inr above ↦
            search_complete cs ((m c).base + (m c).size) b h.1 (ground arith) pos ba above top
              clear.1
      ]

  -- What is found is aligned, of the size, at or above the offset, and before a child of the list.
  pub search-fits :
      (cs : List Ptr) (offset : ℕ) (h : Hole)
      → IsLaid m offset limit cs
      → search cs offset ≡ some h
      → (h.base % align ≡ 0) × (h.size ≡ size) × (offset ≤ h.base)
  unfolding search try
  search-fits [] offset h laid e =
      let fits = up offset laid in ground (arith, fits.multiple, fits.above)
  search-fits (c ∷ cs) offset h laid e =
      let l = offset-le m ((m c).base + (m c).size) limit cs laid.1 in
      let fits = up offset (omega arith) in
      let ih = search-fits cs ((m c).base + (m c).size) h laid.1 in
      ground (arith, fits.multiple, fits.above, ih)

  child-ne :
      (c : Ptr) (cs : List Ptr) (offset : ℕ) (h : Hole)
      → NotIn c cs
      → search cs offset ≡ some h
      → h.child ≢ some c
  unfolding search try
  child-ne c [] offset h out e = ground arith
  child-ne c (d ∷ cs) offset h out e =
      let ih = child-ne c cs ((m d).base + (m d).size) h out.1 in ground (arith, ih)

  -- Where the search succeeds at or behind the first child.
  search-cons :
      (c : Ptr) (cs : List Ptr) (offset : ℕ) (h : Hole)
      → search (c ∷ cs) offset ≡ some h
      → ((h.child ≡ some c) × (h.base + h.size ≤ (m c).base))
        ⊎ (search cs ((m c).base + (m c).size) ≡ some h)
  unfolding search try
  search-cons c cs offset h e = ground arith

  -- The new region keeps the children in order and apart.
  pub search-IsLaid :
      (m' : Store) (new : Ptr) (cs : List Ptr) (offset : ℕ) (h : Hole)
      → All (λ c. m' c ≡ m c) cs
      → (m' new).base ≡ h.base
      → (m' new).size ≡ h.size
      → Distinct cs
      → IsLaid m offset limit cs
      → search cs offset ≡ some h
      → IsLaid m' offset limit (with_child h.child new cs)
  unfolding search try
  search-IsLaid m' new [] offset h same eb es d laid e =
      let fits = search-fits [] offset h laid e in
      let last : h.child ≡ none = ground arith in rw last (ground (arith, fits))
  search-IsLaid m' new (c ∷ cs) offset h same eb es d laid e =
      let fits = search-fits (c ∷ cs) offset h laid e in
      elim (search-cons c cs offset h e) [
        | inl (here, below) ↦
            rw (here, with_child-here c new cs, same.0)
              (
                omega (arith, fits.2),
                (omega arith, IsLaid-same m m' ((m c).base + (m c).size) limit cs same.1 laid.1),
              )
        | inr later ↦
            rw
              (
                with_child-later h.child c new cs
                    (child-ne c cs ((m c).base + (m c).size) h d.0 later),
                same.0,
              )
              (
                laid.0,
                search-IsLaid m' new cs ((m c).base + (m c).size) h same.1 eb es d.1 laid.1 later,
              )
      ]

  -- The new region stands between two parts of the list of children.
  pub search-split :
      (new : Ptr) (cs : List Ptr) (offset : ℕ) (h : Hole)
      → Distinct cs
      → search cs offset ≡ some h
      → (before : List Ptr) × (after : List Ptr) × (cs ≡ before ++ after)
        × (with_child h.child new cs ≡ before ++ new ∷ after)
  unfolding search try
  search-split new [] offset h d e =
      let last : h.child ≡ none = ground arith in ([], [], refl, rw last refl)
  search-split new (c ∷ cs) offset h d e = elim (search-cons c cs offset h e) [
    | inl (here, below) ↦ ([], c ∷ cs, refl, rw here (with_child-here c new cs))
    | inr later ↦
        let (before, after, whole, put) =
          search-split new cs ((m c).base + (m c).size) h d.1 later in
        (
          c ∷ before,
          after,
          ap (λ (ds : List Ptr). c ∷ ds) whole,
          with_child-later h.child c new cs (child-ne c cs ((m c).base + (m c).size) h d.0 later)
              ∙ ap (λ (ds : List Ptr). c ∷ ds) put,
        )
  ]

-- In an ordered list what stands behind is above, and what stands before is below.
above-laid :
    (m : Store) (offset limit b size : ℕ) (cs : List Ptr)
    → IsLaid m offset limit cs
    → b + size ≤ offset
    → IsClear m b size cs
above-laid m offset limit b size [] laid le = tt
above-laid m offset limit b size (c ∷ cs) laid le = (
  inl (omega (arith, laid.0)),
  above-laid m ((m c).base + (m c).size) limit b size cs laid.1 (omega (arith, laid.0)),
)

-- A region in an ordered list lies within the range of the list, and meets no other region of it.
pub IsLaid-IsClear :
    (m : Store) (new : Ptr) (offset limit : ℕ) (before after : List Ptr)
    → IsLaid m offset limit (before ++ new ∷ after)
    → (offset ≤ (m new).base)
      × ((m new).base + (m new).size ≤ limit)
      × IsClear m (m new).base (m new).size (before ++ after)
IsLaid-IsClear m new offset limit [] after laid = (
  laid.0,
  offset-le m ((m new).base + (m new).size) limit after laid.1,
  above-laid m ((m new).base + (m new).size) limit (m new).base (m new).size after laid.1
      (omega arith),
)
IsLaid-IsClear m new offset limit (c ∷ before) after laid =
    let (lo, hi, clear) =
      IsLaid-IsClear m new ((m c).base + (m c).size) limit before after laid.1 in
    (omega (arith, lo, laid.0), hi, (inr lo, clear))
