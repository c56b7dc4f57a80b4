-- ===== src/VmRegion/Destroy/Parent.antt =====
-- What `VmRegion::destroy` leaves of a region and of its parent's list.
use cxkernel.Base.{
  ℕ, suc, ◌*◌, ◌<◌, ◌≡◌, ◌≢◌, arith, refl, List, [], ◌∷◌, ◌++◌, All, NotIn, Distinct, ◌∙◌, sym,
  length, some,
}
use cxkernel.Status.{ok}
use cxkernel.LinkedList.{Ptr, null, Links, remove_unsafe}
use cxkernel.LinkedList.Ring.{IsRing, SameOutside}
use cxkernel.LinkedList.Pop.{remove-IsRing, remove_first-IsRing}
use cxkernel.LinkedList.Two.{Apart, Apart-sym, IsRing-frame}
use cxkernel.VmRegion.Destroy.{Regions, done, null_read, destroy, destroy_loop}
use cxkernel.VmRegion.Destroy.Loop.{loop-IsDestroyed}
use cxkernel.VmRegion.Destroy.Forest.{
  Forest, roots, nodes, Holds, All-zip, All-both, IsCounted, IsCounted-same, Released, IsGone,
  IsGone-after, IsDestroyed,
}
use cxkernel.VmRegion.Destroy.Detach.{
  removed, unlinked, removed-Released, removed-SameCount, detach-removed, destroy-fault, result,
  remove_only,
}

-- The child stands in the list of the region `p`, not alone; the last index is the list without it.
pub data Place (s : Regions) (this p : Ptr) : List Ptr → List Ptr → Type 0 where
  first :
      {z : Ptr} {zs cs : List Ptr}
      → cs ≡ this ∷ z ∷ zs
      → IsRing s.links (s.root p) (this ∷ z ∷ zs)
      → Place s this p cs (z ∷ zs)
  later :
      {x : Ptr} (xs ys : List Ptr) {cs : List Ptr}
      → cs ≡ x ∷ xs ++ this ∷ ys
      → IsRing s.links (s.root p) (x ∷ xs ++ this ∷ ys)
      → Place s this p cs (x ∷ xs ++ ys)

-- A region `this` with the forest `f` below it, whose parent is `p`, another region.
pub record IsBelow (s : Regions) (this p : Ptr) (f : Forest) : Type 0 where
  pub ring : IsRing s.links (s.root this) (roots f)
  pub holds : Holds s f
  pub distinct : Distinct (this ∷ nodes f)
  pub counts : All (IsCounted s) (nodes f)
  pub own : IsCounted s this
  pub up : s.parent this ≡ p
  pub some_this : this ≢ null
  pub some_parent : p ≢ null
  pub apart : NotIn p (this ∷ nodes f)

module _ (s : Regions) (this p : Ptr) (f : Forest) (fuel : ℕ) (h : IsBelow s this p f)
    (room : 2 * length (nodes f) < fuel) where
  -- after the loop
  looped :
      (t : Regions) × (destroy_loop fuel this ok s ≡ done ok t) × IsDestroyed s t this (nodes f)
  looped = loop-IsDestroyed f fuel this s h.ring h.holds h.distinct h.counts room

  abbrev s1 : Regions
  s1 = looped.0

  up-s1 : s1.parent this ≡ p
  up-s1 = (looped.2.others this h.distinct.0).parent ∙ h.up

  root-s1 : s1.root p ≡ s.root p
  root-s1 = looped.2.roots p h.apart.0 h.apart.1

  outside-s1 : SameOutside (nodes f) s.links s1.links
  outside-s1 q out = ((looped.2.others q out).next, (looped.2.others q out).prev)

  IsRing-s1 :
      (cs : List Ptr)
      → Apart cs (nodes f)
      → IsRing s.links (s.root p) cs
      → IsRing s1.links (s1.root p) cs
  IsRing-s1 cs apart r =
      rw root-s1 (IsRing-frame s.links s1.links (s.root p) cs (nodes f) outside-s1 apart r)

  module _ (root : Ptr) (links : Links)
      (run : remove_unsafe (s1.root p) this s1.links ≡ some (root, links)) where
    abbrev t : Regions
    t = removed s1 this p root links

    destroy-removed : destroy (suc fuel) this s ≡ done ok t
    unfolding destroy
    destroy-removed =
        let run' = detach-removed s1 this p root links up-s1 h.some_parent run in
        rw (looped.1, run')

    Released-this : Released s t this
    Released-this =
        let same = (looped.2.others this h.distinct.0).count in
        let counted = IsCounted-same s s1 this same h.own in
        let r = removed-Released s1 this p root links h.some_this counted in
        (r.0 ∙ same.0, r.1 ∙ ground (arith, same))

    gone-one :
        (cs : List Ptr)
        → SameOutside cs s1.links links
        → (q : Ptr) → IsGone s s1 q
        → p ≢ q
        → this ≢ q
        → NotIn q cs
        → IsGone s t q
    gone-one cs same q gone a b out = IsGone-after gone (ground arith) (record {
      next = (same q out).0;
      prev = (same q out).1;
      parent = refl;
      count = removed-SameCount s1 this p root links q (λ e. b (sym e));
    })

    gone-below :
        (cs : List Ptr)
        → Apart cs (nodes f)
        → SameOutside cs s1.links links
        → All (IsGone s t) (nodes f)
    gone-below cs apart same =
        All-zip (nodes f) (All-both (IsGone s s1) (λ q. p ≢ q) (nodes f) looped.2.gone h.apart.1)
          (All-both (λ q. this ≢ q) (λ q. NotIn q cs) (nodes f) h.distinct.0
            (Apart-sym cs (nodes f) apart))
          (λ q a b. gone-one cs same q a.0 a.1 b.0 b.1)

    childless-this : t.root this ≡ null
    childless-this = let e = looped.2.empty in let ne = h.apart.0 in ground (arith, e, ne)

    IsRing-t : (cs : List Ptr) → IsRing links root cs → IsRing t.links (t.root p) cs
    IsRing-t cs r = let e : t.root p ≡ root = ground arith in rw e r

Place-removed :
    (s u : Regions) (this p : Ptr) (cs cs' : List Ptr)
    → Place s this p cs cs'
    → ((ds : List Ptr) → ds ≡ cs → IsRing s.links (s.root p) ds → IsRing u.links (u.root p) ds)
    → (root : Ptr) × (links : Links) × (remove_unsafe (u.root p) this u.links ≡ some (root, links))
      × (IsRing links root cs' × SameOutside cs u.links links)
Place-removed s u this p cs cs' (first {z} {zs} e r) moved =
    let r' = moved (this ∷ z ∷ zs) (sym e) r in
    let at = r'.0 in
    rw (at, e) (result (remove_first-IsRing u.links this z zs (refl, r'.1, r'.2, r'.3)))
Place-removed s u this p cs cs' (later {x} xs ys e r) moved =
    let r' = moved (x ∷ xs ++ this ∷ ys) (sym e) r in
    let at = r'.0 in
    rw (at, e) (result (remove-IsRing u.links x this xs ys (refl, r'.1, r'.2, r'.3)))

-- A region whose parent has other children besides is destroyed, whatever tree of regions is below
-- it, with fuel above twice their number by two: no error is reported, the parent's list is as before without the
-- region, the region has no children left and one reference less, and all below it have no
-- children, no parent and one reference less. What has lost its last reference is deleted.
pub destroy_child :
    (s : Regions) (this p : Ptr) (f : Forest) (fuel : ℕ) (cs cs' : List Ptr)
    → IsBelow s this p f
    → 2 * length (nodes f) < fuel
    → Place s this p cs cs'
    → Apart cs (nodes f)
    → (t : Regions) × (destroy (suc fuel) this s ≡ done ok t)
      × IsRing t.links (t.root p) cs'
      × (t.root this ≡ null)
      × Released s t this
      × All (IsGone s t) (nodes f)
destroy_child s this p f fuel cs cs' h room place apart =
    let (root, links, run, (ring, same)) =
      Place-removed s (s1 s this p f fuel h room) this p cs cs' place
        (λ ds e r. IsRing-s1 s this p f fuel h room ds (rw e apart) r) in
    (
      t s this p f fuel h room root links run,
      destroy-removed s this p f fuel h room root links run,
      IsRing-t s this p f fuel h room root links run cs' ring,
      childless-this s this p f fuel h room root links run,
      Released-this s this p f fuel h room root links run,
      gone-below s this p f fuel h room root links run cs apart same,
    )

-- A region that is its parent's only child is destroyed too, without an error, with fuel above twice the
-- number of the regions below it by two. But `destroy` of the parent then dereferences null: with fuel
-- of two or more it ends in that, not for want of fuel.
pub destroy_only-fault :
    (s : Regions) (this p : Ptr) (f : Forest) (fuel fuel' : ℕ)
    → IsBelow s this p f
    → 2 * length (nodes f) < fuel
    → IsRing s.links (s.root p) (this ∷ [])
    → (t : Regions) × (destroy (suc fuel) this s ≡ done ok t)
      × (destroy (suc (suc fuel')) p t ≡ null_read)
destroy_only-fault s this p f fuel fuel' h room ring =
    let after = s1 s this p f fuel h room in
    let only =
      remove_only after.links (after.root p) this
        (IsRing-s1 s this p f fuel h room (this ∷ []) (h.distinct.0, tt) ring) in
    let links = unlinked after.links this in
    let u = t s this p f fuel h room this links only.0 in
    (
      u,
      destroy-removed s this p f fuel h room this links only.0,
      destroy-fault fuel' p this u (ground arith) h.some_this only.1,
    )
