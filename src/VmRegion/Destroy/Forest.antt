-- ===== src/VmRegion/Destroy/Forest.antt =====
-- The regions below a region of core/vmregion.cc, and what a state of the lists holds of them.
use cxkernel.Base.{
  ℕ, ◌+◌, ◌^◌, ◌≤◌, ◌<◌, ◌≡◌, ◌≢◌, arith, List, [], ◌∷◌, ◌++◌, All, All-append, All-left, All-right,
  NotIn, Distinct, Distinct-right, ◌==◌, if◌then◌else◌, false, ◌∙◌, ap,
}
use cxkernel.LinkedList.{Ptr, null}
use cxkernel.LinkedList.Ring.{IsRing, SameOutside}
use cxkernel.LinkedList.Two.{Apart, Apart-cons, IsRing-frame}
use cxkernel.VmRegion.Destroy.{Regions}

-- A region with the regions below it, and the siblings behind it.
pub data Forest : Type 0 where
  nil : Forest
  cons : Ptr → Forest → Forest → Forest

abbrev pub roots : Forest → List Ptr
roots nil = []
roots (cons p kids rest) = p ∷ roots rest

abbrev pub nodes : Forest → List Ptr
nodes nil = []
nodes (cons p kids rest) = p ∷ nodes kids ++ nodes rest

-- Each region's list of children is that of the forest.
abbrev pub Holds : Regions → Forest → Type 0
Holds s nil = Unit
Holds s (cons p kids rest) = IsRing s.links (s.root p) (roots kids) × Holds s kids × Holds s rest

pub All-roots : (P : Ptr → Type 0) (f : Forest) → All P (nodes f) → All P (roots f)
All-roots P nil h = tt
All-roots P (cons p kids rest) h =
    (h.0, All-roots P rest (All-right P (nodes kids) (nodes rest) h.1))

pub All-zip :
    {P Q R : Ptr → Type 0} (xs : List Ptr)
    → All P xs
    → All Q xs
    → ((x : Ptr) → P x → Q x → R x)
    → All R xs
All-zip [] p q f = tt
All-zip (x ∷ xs) p q f = (f x p.0 q.0, All-zip xs p.1 q.1 f)

pub All-both : (P Q : Ptr → Type 0) (xs : List Ptr) → All P xs → All Q xs → All (λ x. P x × Q x) xs
All-both P Q [] p q = tt
All-both P Q (x ∷ xs) p q = ((p.0, q.0), All-both P Q xs p.1 q.1)

pub Distinct-Apart : (xs ys : List Ptr) → Distinct (xs ++ ys) → Apart xs ys
Distinct-Apart [] ys d = tt
Distinct-Apart (x ∷ xs) ys d = (All-right (λ y. x ≢ y) xs ys d.0, Distinct-Apart xs ys d.1)

-- the regions below the first generation
abbrev pub inner : Forest → List Ptr
inner nil = []
inner (cons p kids rest) = nodes kids ++ inner rest

pub All-inner : (P : Ptr → Type 0) (f : Forest) → All P (nodes f) → All P (inner f)
All-inner P nil h = tt
All-inner P (cons p kids rest) h =
    All-append P (nodes kids) (inner rest) (All-left P (nodes kids) (nodes rest) h.1)
      (All-inner P rest (All-right P (nodes kids) (nodes rest) h.1))

Apart-roots : (xs : List Ptr) (f : Forest) → Apart xs (nodes f) → Apart xs (roots f)
Apart-roots xs f h = All-zip xs h h (λ q a b. All-roots (λ y. q ≢ y) f a)

pub below-Apart :
    (x : Ptr) (sub rest : Forest)
    → NotIn x (nodes sub ++ nodes rest)
    → Distinct (nodes sub ++ nodes rest)
    → Apart (nodes sub) (x ∷ roots rest)
below-Apart x sub rest out d =
    Apart-cons x (nodes sub) (roots rest) (All-left (λ y. x ≢ y) (nodes sub) (nodes rest) out)
      (Apart-roots (nodes sub) rest (Distinct-Apart (nodes sub) (nodes rest) d))

pub inner-Apart : (f : Forest) → Distinct (nodes f) → Apart (inner f) (roots f)
inner-Apart nil d = tt
inner-Apart (cons p kids rest) d =
    All-append (λ q. NotIn q (p ∷ roots rest)) (nodes kids) (inner rest)
      (below-Apart p kids rest d.0 d.1)
      (Apart-cons p (inner rest) (roots rest)
        (All-inner (λ y. p ≢ y) rest (All-right (λ y. p ≢ y) (nodes kids) (nodes rest) d.0))
        (inner-Apart rest (Distinct-right (nodes kids) (nodes rest) d.1)))

-- The regions below survive a change of the links of other regions, and of the first generation.
pub Holds-frame :
    (s t : Regions) (ys : List Ptr) (f : Forest)
    → SameOutside ys s.links t.links
    → All (λ q. t.root q ≡ s.root q) (nodes f)
    → Apart (inner f) ys
    → Holds s f
    → Holds t f
Holds-frame s t ys nil same eq apart h = tt
Holds-frame s t ys (cons p kids rest) same eq apart h =
    let kids-apart = All-left (λ x. NotIn x ys) (nodes kids) (inner rest) apart in
    let at-p = eq.0 in
    (
      rw at-p (
          IsRing-frame s.links t.links (s.root p) (roots kids) ys same
            (All-roots (λ x. NotIn x ys) kids kids-apart) h.0),
      Holds-frame s t ys kids same
          (All-left (λ q. t.root q ≡ s.root q) (nodes kids) (nodes rest) eq.1)
          (All-inner (λ x. NotIn x ys) kids kids-apart) h.1,
      Holds-frame s t ys rest same
          (All-right (λ q. t.root q ≡ s.root q) (nodes kids) (nodes rest) eq.1)
          (All-right (λ x. NotIn x ys) (nodes kids) (inner rest) apart) h.2,
    )

-- The count is that of one reference or more, in 32 bits.
abbrev pub IsCounted : Regions → Ptr → Type 0
IsCounted s q = (1 ≤ s.refs.ref_count q) × (s.refs.ref_count q < 2 ^ 32)

abbrev pub SameCount : Regions → Regions → Ptr → Type 0
SameCount s t q = (t.refs.ref_count q ≡ s.refs.ref_count q) × (t.refs.live q ≡ s.refs.live q)

pub IsCounted-same : (s t : Regions) (q : Ptr) → SameCount s t q → IsCounted s q → IsCounted t q
IsCounted-same s t q same c = let e = same.0 in (omega arith, omega arith)

-- One reference less; the region goes with the last.
abbrev pub Released : Regions → Regions → Ptr → Type 0
Released s t q =
    (t.refs.ref_count q + 1 ≡ s.refs.ref_count q)
    × (t.refs.live q ≡ (if s.refs.ref_count q == 1 then false else s.refs.live q))

-- a region that has been destroyed: no children, no parent, and the reference of its parent's list given back
pub record IsGone (s t : Regions) (q : Ptr) : Type 0 where
  pub childless : t.root q ≡ null
  pub orphan : t.parent q ≡ null
  pub released : Released s t q

pub record IsSame (s t : Regions) (q : Ptr) : Type 0 where
  pub next : t.links.next q ≡ s.links.next q
  pub prev : t.links.prev q ≡ s.links.prev q
  pub parent : t.parent q ≡ s.parent q
  pub count : SameCount s t q

pub IsSame-trans : {s t u : Regions} {q : Ptr} → IsSame s t q → IsSame t u q → IsSame s u q
IsSame-trans a b = record {
  next = b.next ∙ a.next;
  prev = b.prev ∙ a.prev;
  parent = b.parent ∙ a.parent;
  count = (b.count.0 ∙ a.count.0, b.count.1 ∙ a.count.1);
}

pub IsGone-before : {s t u : Regions} {q : Ptr} → SameCount s t q → IsGone t u q → IsGone s u q
IsGone-before {s} {t} {u} {q} same g = record {
  childless = g.childless;
  orphan = g.orphan;
  released = (g.released.0 ∙ same.0, g.released.1 ∙ ground (arith, same));
}

pub IsGone-after :
    {s t u : Regions} {q : Ptr} → IsGone s t q → u.root q ≡ t.root q → IsSame t u q → IsGone s u q
IsGone-after {s} {t} {u} {q} g root same = record {
  childless = root ∙ g.childless;
  orphan = same.parent ∙ g.orphan;
  released = (ap (λ (n : ℕ). n + 1) same.count.0 ∙ g.released.0, same.count.1 ∙ g.released.1);
}

-- What the loop over the children of `this` leaves, the regions below being `ns`.
pub record IsDestroyed (s t : Regions) (this : Ptr) (ns : List Ptr) : Type 0 where
  pub empty : t.root this ≡ null
  pub roots : (q : Ptr) → q ≢ this → NotIn q ns → t.root q ≡ s.root q
  pub others : (q : Ptr) → NotIn q ns → IsSame s t q
  pub gone : All (IsGone s t) ns
