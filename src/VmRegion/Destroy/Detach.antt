-- ===== src/VmRegion/Destroy/Detach.antt =====
-- The removal of a region from its parent's list by `VmRegion::destroy`.
use cxkernel.Base.{ℕ, suc, ◌≡◌, ◌≢◌, arith, refl, [], ◌∷◌, ne→==, subst, Option, some, none}
use cxkernel.Status.{ok}
use cxkernel.LinkedList.{Ptr, null, Links, pop_front, remove_unsafe, unlink, update}
use cxkernel.LinkedList.Ring.{IsRing, Returns, returns}
use cxkernel.RefPtr.{add_ref, release, destroy as drop_last, at}
use cxkernel.VmRegion.Destroy.{Regions, null_read, pop_child, detach, destroy, destroy_loop}
use cxkernel.VmRegion.Destroy.Forest.{IsCounted, SameCount, Released}

-- the state once the parent's list is without the region
abbrev pub removed : Regions → Ptr → Ptr → Ptr → Links → Regions
removed s this p root links = record s {
  links = links;
  root = at s.root p root;
  refs = drop_last this (release this (add_ref this s.refs)).1;
}

module _ (s : Regions) (this p root : Ptr) (links : Links) where
  pub removed-Released :
      this ≢ null → IsCounted s this → Released s (removed s this p root links) this
  unfolding drop_last release add_ref
  removed-Released ne c = (ground arith, ground arith)

  pub removed-SameCount : (q : Ptr) → q ≢ this → SameCount s (removed s this p root links) q
  unfolding drop_last release add_ref
  removed-SameCount q ne = (ground arith, ground arith)

loop-fault :
    (fuel : ℕ) (p x : Ptr) (s : Regions)
    → s.root p ≡ x
    → x ≢ null
    → pop_front x s.links ≡ none
    → destroy_loop (suc fuel) p ok s ≡ null_read
unfolding destroy_loop pop_child
loop-fault fuel p x s at ne e = rw (destroy_loop, at, ne→== x null ne, pop_child, at, e)

pub detach-removed :
    (s : Regions) (this p root : Ptr) (links : Links)
    → s.parent this ≡ p
    → p ≢ null
    → remove_unsafe (s.root p) this s.links ≡ some (root, links)
    → detach this s ≡ some (removed s this p root links)
unfolding detach
detach-removed s this p root links up =
    subst
      (λ v.
        v ≢ null
        → remove_unsafe (s.root v) this s.links ≡ some (root, links)
        → detach this s ≡ some (removed s this v root links))
      up (own s this root links)
  where
    own :
        (s : Regions) (this root : Ptr) (links : Links)
        → s.parent this ≢ null
        → remove_unsafe (s.root (s.parent this)) this s.links ≡ some (root, links)
        → detach this s ≡ some (removed s this (s.parent this) root links)
    own s this root links ne run = rw (detach, ne→== _ null ne, run)

pub destroy-fault :
    (fuel : ℕ) (p x : Ptr) (s : Regions)
    → s.root p ≡ x
    → x ≢ null
    → pop_front x s.links ≡ none
    → destroy (suc (suc fuel)) p s ≡ null_read
unfolding destroy
destroy-fault fuel p x s at ne e = rw (destroy, loop-fault fuel p x s at ne e)

-- what a run that returns has given
pub result :
    {P : Ptr → Links → Type 0} {r : Option (Ptr × Links)}
    → Returns P r
    → (a : Ptr) × (links : Links) × (r ≡ some (a, links)) × P a links
result (returns {a} {s} h) = (a, s, refl, h)

-- the links that `remove_unsafe` of an only node leaves
abbrev pub unlinked : Links → Ptr → Links
unlinked s x = record {
  next = update (update s.next x x) x null;
  prev = update (update s.prev x x) x null;
}

pub remove_only :
    (s : Links) (root x : Ptr)
    → IsRing s root (x ∷ [])
    → (remove_unsafe root x s ≡ some (x, unlinked s x)) × (pop_front x (unlinked s x) ≡ none)
unfolding remove_unsafe unlink pop_front
remove_only s root x h = let e = h.0 in rw e (ground arith, ground arith)
