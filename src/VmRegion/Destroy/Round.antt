-- ===== src/VmRegion/Destroy/Round.antt =====
-- One round of the loop of `VmRegion::destroy`: the first child is taken, and its pointer goes.
use cxkernel.Base.{ℕ, suc, ◌≡◌, ◌≢◌, arith, refl, List, ◌∷◌, NotIn, ne→==, sym, Option, some}
use cxkernel.Status.{E, ok}
use cxkernel.LinkedList.{Ptr, null, Links, pop_front}
use cxkernel.LinkedList.Ring.{IsRing, SameOutside, Returns, returns}
use cxkernel.LinkedList.Pop.{pop_front-IsRing}
use cxkernel.RefPtr.{add_ref, release, destroy as drop_last, at}
use cxkernel.VmRegion.Destroy.{Regions, done, pop_child, detach, destroy, destroy_loop}
use cxkernel.VmRegion.Destroy.Forest.{IsCounted, SameCount, Released, IsSame}

-- the state after the first child has been taken
abbrev pub popped : Regions → Ptr → Ptr → Ptr → Links → Regions
popped s this x root links = record {
  links = links;
  root = at s.root this root;
  parent = at s.parent x null;
  refs = add_ref x (release x s.refs).1;
}

-- the state after the child's pointer is gone
abbrev pub dropped : Regions → Ptr → Regions
dropped s x = record s { refs = drop_last x s.refs }

module _ (s : Regions) (this x : Ptr) (xs : List Ptr) where
  pub record IsPopped (root : Ptr) (links : Links) : Type 0 where
    pub some_child : x ≢ null
    pub run : pop_child this s ≡ some (x, popped s this x root links)
    pub rest : IsRing links root xs
    pub outside : SameOutside (x ∷ xs) s.links links

  pop-found :
      {r : Option ((Ptr × Ptr) × Links)}
      → pop_front (s.root this) s.links ≡ r
      → x ≢ null
      → Returns (λ (n, root) t. (n ≡ x) × IsRing t root xs × SameOutside (x ∷ xs) s.links t) r
      → (root : Ptr) × (links : Links) × IsPopped root links
  unfolding pop_child
  pop-found e ne (returns {a = (n, root)} {s = links} p) =
      let n-eq = p.0 in
      (
        root,
        links,
        record {
          some_child = ne;
          run = rw (pop_child, e, n-eq, ne→== x null ne);
          rest = p.1;
          outside = p.2;
        },
      )

  pub pop_child-IsPopped :
      IsRing s.links (s.root this) (x ∷ xs) → (root : Ptr) × (links : Links) × IsPopped root links
  pop_child-IsPopped h =
      pop-found refl (λ e. h.1.0 (sym e)) (pop_front-IsRing s.links (s.root this) x xs h)

  pub popped-SameCount :
      (root : Ptr) (links : Links) (q : Ptr)
      → IsCounted s x
      → SameCount s (popped s this x root links) q
  unfolding add_ref release
  popped-SameCount root links q c = (ground arith, refl)

  pub popped-IsSame :
      (root : Ptr) (links : Links) (q : Ptr)
      → IsCounted s x
      → SameOutside (x ∷ xs) s.links links
      → NotIn q (x ∷ xs)
      → IsSame s (popped s this x root links) q
  popped-IsSame root links q c same out = record {
    next = (same q out).0;
    prev = (same q out).1;
    parent = ground (arith, out.0);
    count = popped-SameCount root links q c;
  }

module _ (s : Regions) (x : Ptr) (ne : x ≢ null) where
  pub dropped-Released : IsCounted s x → Released s (dropped s x) x
  unfolding drop_last release
  dropped-Released c = (ground arith, ground arith)

  pub dropped-IsSame : (q : Ptr) → q ≢ x → IsSame s (dropped s x) q
  unfolding drop_last release
  dropped-IsSame q apart = record {
    next = refl;
    prev = refl;
    parent = refl;
    count = (ground arith, ground arith);
  }

pub destroy-orphan :
    (fuel : ℕ) (x : Ptr) (s t : Regions) {e : E}
    → destroy_loop fuel x ok s ≡ done e t
    → t.parent x ≡ null
    → destroy (suc fuel) x s ≡ done e t
unfolding destroy detach
destroy-orphan fuel x s t run top = rw run (rw top)

pub loop-nil :
    (fuel : ℕ) (this : Ptr) (s : Regions)
    → s.root this ≡ null
    → destroy_loop (suc fuel) this ok s ≡ done ok s
unfolding destroy_loop
loop-nil fuel this s e = rw (destroy_loop, e)

pub loop-cons :
    (fuel : ℕ) (this x : Ptr) (s s1 s2 : Regions)
    → s.root this ≢ null
    → pop_child this s ≡ some (x, s1)
    → destroy fuel x s1 ≡ done ok s2
    → destroy_loop (suc fuel) this ok s ≡ destroy_loop fuel this ok (dropped s2 x)
unfolding destroy_loop
loop-cons fuel this x s s1 s2 ne pop run = rw (destroy_loop, ne→== _ null ne, pop, run)
