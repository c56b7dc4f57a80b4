-- ===== src/VmRegion/Destroy/Loop.antt =====
-- The loop of `VmRegion::destroy` over the children of a region, whatever is below them.
use cxkernel.Base.{
  ℕ, zero, suc, ◌*◌, ◌<◌, ◌≡◌, ◌≢◌, arith, refl, List, ◌∷◌, All, All-append, All-left, All-right,
  NotIn, Distinct, Distinct-left, Distinct-right, ◌∙◌, sym, length, length-append,
}
use cxkernel.Status.{ok}
use cxkernel.LinkedList.{Ptr, null, Links}
use cxkernel.LinkedList.Ring.{IsRing, SameOutside}
use cxkernel.LinkedList.Two.{Apart, Apart-sym, Apart-cons, IsRing-frame}
use cxkernel.VmRegion.Destroy.{Regions, done, destroy_loop}
use cxkernel.VmRegion.Destroy.Round.{
  popped, dropped, IsPopped, pop_child-IsPopped, popped-SameCount, popped-IsSame, dropped-Released,
  dropped-IsSame, destroy-orphan, loop-nil, loop-cons,
}
use cxkernel.VmRegion.Destroy.Forest.{
  Forest, nil, cons, roots, nodes, Holds, Holds-frame, All-roots, All-zip, All-both, Distinct-Apart,
  inner, All-inner, inner-Apart, below-Apart, IsCounted, IsCounted-same, SameCount, IsGone, IsSame,
  IsSame-trans, IsGone-before, IsGone-after, IsDestroyed,
}

-- the first child with the regions below it, once the loop has destroyed them
module _ (s : Regions) (this x : Ptr) (sub rest : Forest) (root : Ptr) (links : Links)
    (p : IsPopped s this x (roots rest) root links) (h : Holds s (cons x sub rest))
    (d : Distinct (this ∷ nodes (cons x sub rest)))
    (counts : All (IsCounted s) (nodes (cons x sub rest))) where
  abbrev s1 : Regions
  s1 = popped s this x root links

  abbrev below : List Ptr
  below = nodes sub

  abbrev behind : List Ptr
  behind = nodes rest

  apart : Apart below behind
  apart = Distinct-Apart below behind d.1.1

  this-x : this ≢ x
  this-x = d.0.0

  this-below : NotIn this below
  this-below = All-left (λ y. this ≢ y) below behind d.0.1

  this-behind : NotIn this behind
  this-behind = All-right (λ y. this ≢ y) below behind d.0.1

  x-below : NotIn x below
  x-below = All-left (λ y. x ≢ y) below behind d.1.0

  x-behind : NotIn x behind
  x-behind = All-right (λ y. x ≢ y) below behind d.1.0

  -- no region below the child is its parent's child
  below-off : Apart below (x ∷ roots rest)
  below-off = below-Apart x sub rest d.1.0 d.1.1

  s1-root : (q : Ptr) → this ≢ q → s1.root q ≡ s.root q
  s1-root q ne = ground arith

  s1-IsRing : IsRing s1.links (s1.root x) (roots sub)
  s1-IsRing = rw (s1-root x this-x) (
      IsRing-frame s.links links (s.root x) (roots sub) (x ∷ roots rest) p.outside
        (All-roots (λ q. NotIn q (x ∷ roots rest)) sub below-off) h.0)

  s1-Holds : Holds s1 sub
  s1-Holds =
      Holds-frame s s1 (x ∷ roots rest) sub p.outside
        (All-zip below this-below this-below (λ q ne e. s1-root q ne))
        (All-inner (λ q. NotIn q (x ∷ roots rest)) sub below-off) h.1

  s1-rest : Holds s1 rest
  s1-rest =
      Holds-frame s s1 (x ∷ roots rest) rest p.outside
        (All-zip behind this-behind this-behind (λ q ne e. s1-root q ne))
        (Apart-cons x (inner rest) (roots rest) (All-inner (λ y. x ≢ y) rest x-behind)
          (inner-Apart rest (Distinct-right below behind d.1.1)))
        h.2

  s1-counts : All (IsCounted s1) below
  s1-counts =
      All-zip below (All-left (IsCounted s) below behind counts.1)
        (All-left (IsCounted s) below behind counts.1)
        (λ q c e.
          IsCounted-same s s1 q (popped-SameCount s this x (roots rest) root links q counts.0) c)

  s1-IsSame : (q : Ptr) → NotIn q (x ∷ nodes rest) → IsSame s s1 q
  s1-IsSame q out =
      popped-IsSame s this x (roots rest) root links q counts.0 p.outside
        (out.0, All-roots (λ y. q ≢ y) rest out.1)

  module _ (s2 : Regions) (g : IsDestroyed s1 s2 x below) where
    abbrev s3 : Regions
    s3 = dropped s2 x

    outside : SameOutside below s1.links s2.links
    outside q out = ((g.others q out).next, (g.others q out).prev)

    s3-IsRing : IsRing s3.links (s3.root this) (roots rest)
    s3-IsRing =
        let e : s2.root this ≡ root = g.roots this this-x this-below ∙ ground arith in
        rw e (
          IsRing-frame links s2.links root (roots rest) below outside
            (All-roots (λ q. NotIn q below) rest (Apart-sym below behind apart)) p.rest)

    s3-Holds : Holds s3 rest
    s3-Holds =
        Holds-frame s1 s3 below rest outside
          (All-zip behind (Apart-sym below behind apart) x-behind
            (λ q out ne. g.roots q (λ e. ne (sym e)) out))
          (All-inner (λ q. NotIn q below) rest (Apart-sym below behind apart)) s1-rest

    orphaned : s2.parent x ≡ null
    orphaned = (g.others x x-below).parent ∙ ground arith

    to-s2 : SameCount s s2 x
    to-s2 =
        let a = popped-SameCount s this x (roots rest) root links x counts.0 in
        let b = (g.others x x-below).count in (b.0 ∙ a.0, b.1 ∙ a.1)

    s3-gone : IsGone s s3 x
    s3-gone = IsGone-before {t = s2} to-s2 (record {
      childless = g.empty;
      orphan = orphaned;
      released = dropped-Released s2 x p.some_child (IsCounted-same s s2 x to-s2 counts.0);
    })

    to-s3 : (q : Ptr) → x ≢ q → NotIn q below → IsSame s1 s3 q
    to-s3 q ne out =
        IsSame-trans (g.others q out) (dropped-IsSame s2 x p.some_child q (λ e. ne (sym e)))

    behind-SameCount : (q : Ptr) → x ≢ q → NotIn q below → SameCount s s3 q
    behind-SameCount q ne out =
        let a = popped-SameCount s this x (roots rest) root links q counts.0 in
        let b = (to-s3 q ne out).count in (b.0 ∙ a.0, b.1 ∙ a.1)

    behind-off : All (λ q. (x ≢ q) × NotIn q below) behind
    behind-off =
        All-both (λ q. x ≢ q) (λ q. NotIn q below) behind x-behind (Apart-sym below behind apart)

    s3-counts : All (IsCounted s3) behind
    s3-counts =
        All-zip behind behind-off (All-right (IsCounted s) below behind counts.1)
          (λ q o c. IsCounted-same s s3 q (behind-SameCount q o.0 o.1) c)

    module _ (t : Regions) (g' : IsDestroyed s3 t this behind) where
      below-gone :
          (q : Ptr) → IsGone s1 s2 q → (this ≢ q) × ((x ≢ q) × NotIn q behind) → IsGone s t q
      below-gone q gone off =
          IsGone-after
            (IsGone-after
              (IsGone-before (popped-SameCount s this x (roots rest) root links q counts.0) gone)
              refl (dropped-IsSame s2 x p.some_child q (λ e. off.1.0 (sym e))))
            (g'.roots q (λ e. off.0 (sym e)) off.1.1) (g'.others q off.1.1)

      cons-IsDestroyed : IsDestroyed s t this (nodes (cons x sub rest))
      cons-IsDestroyed = record {
        empty = g'.empty;
        roots = λ q ne out.
            g'.roots q ne (All-right (λ y. q ≢ y) below behind out.1)
            ∙ g.roots q out.0 (All-left (λ y. q ≢ y) below behind out.1)
            ∙ s1-root q (λ e. ne (sym e));
        others = λ q out.
            let right = All-right (λ y. q ≢ y) below behind out.1 in
            IsSame-trans (s1-IsSame q (out.0, right)) (
              IsSame-trans (to-s3 q (λ e. out.0 (sym e)) (All-left (λ y. q ≢ y) below behind out.1))
                (g'.others q right));
        gone = (
          IsGone-after s3-gone (g'.roots x (λ e. this-x (sym e)) x-behind) (g'.others x x-behind),
          All-append (IsGone s t) below behind
              (All-zip below g.gone
                (All-both (λ q. this ≢ q) (λ q. (x ≢ q) × NotIn q behind) below this-below
                  (All-both (λ q. x ≢ q) (λ q. NotIn q behind) below x-below apart))
                below-gone)
              (All-zip behind g'.gone behind-off
                (λ q gone off. IsGone-before (behind-SameCount q off.0 off.1) gone)),
        );
      }

-- The loop ends, with fuel above twice the number of the regions below: it reports no error, and all
-- of them are destroyed.
pub loop-IsDestroyed :
    (f : Forest) (fuel : ℕ) (this : Ptr) (s : Regions)
    → IsRing s.links (s.root this) (roots f)
    → Holds s f
    → Distinct (this ∷ nodes f)
    → All (IsCounted s) (nodes f)
    → 2 * length (nodes f) < fuel
    → (t : Regions) × (destroy_loop fuel this ok s ≡ done ok t) × IsDestroyed s t this (nodes f)
loop-IsDestroyed f zero this s ring h d c room = absurd (omega arith)
loop-IsDestroyed nil (suc fuel) this s ring h d c room = (
  s,
  loop-nil fuel this s ring,
  record {
    empty = ring;
    roots = λ q ne out. refl;
    others = λ q out. record { next = refl; prev = refl; parent = refl; count = (refl, refl) };
    gone = tt;
  },
)
loop-IsDestroyed (cons x sub rest) (suc zero) this s ring h d c room = absurd (omega arith)
loop-IsDestroyed (cons x sub rest) (suc (suc fuel)) this s ring h d c room =
    let (root, links, p) = pop_child-IsPopped s this x (roots rest) ring in
    let len = length-append (nodes sub) (nodes rest) in
    let small : 2 * length (nodes sub) < fuel = omega (arith, room, len) in
    let small' : 2 * length (nodes rest) < suc fuel = omega (arith, room, len) in
    let (s2, run, g) =
      loop-IsDestroyed sub fuel x (s1 s this x sub rest root links p h d c)
        (s1-IsRing s this x sub rest root links p h d c)
        (s1-Holds s this x sub rest root links p h d c)
        (x-below s this x sub rest root links p h d c, Distinct-left (nodes sub) (nodes rest) d.1.1)
        (s1-counts s this x sub rest root links p h d c) small in
    let (t, run', g') =
      loop-IsDestroyed rest (suc fuel) this (s3 s this x sub rest root links p h d c s2 g)
        (s3-IsRing s this x sub rest root links p h d c s2 g)
        (s3-Holds s this x sub rest root links p h d c s2 g)
        (
          this-behind s this x sub rest root links p h d c,
          Distinct-right (nodes sub) (nodes rest) d.1.1,
        )
        (s3-counts s this x sub rest root links p h d c s2 g) small' in
    (
      t,
      loop-cons (suc fuel) this x s (s1 s this x sub rest root links p h d c) s2
            (λ e. p.some_child (sym ring.0 ∙ e)) p.run
            (destroy-orphan fuel x (s1 s this x sub rest root links p h d c) s2 run
              (orphaned s this x sub rest root links p h d c s2 g))
          ∙ run',
      cons-IsDestroyed s this x sub rest root links p h d c s2 g t g',
    )
