-- ===== src/Pmm/Alloc.antt =====
-- What the allocator of core/pmm.cc does to the free list.
use cxkernel.Base.{
  ℕ, zero, suc, ◌+◌, ◌≤◌, ◌<◌, ◌≡◌, ◌≢◌, refl, List, [], ◌∷◌, ◌++◌, arith, length, take, drop,
  NotIn, sym, ◌∙◌, ne→==, ap, ◌==◌,
}
use mathlib.Core.List.{append-nil, append_assoc, reverse, reverse_aux}
use cxkernel.LinkedList.{Ptr, null, Links, ◌>>=◌}
use cxkernel.LinkedList.Ring
use cxkernel.LinkedList.Ring.{IsRing, SameOutside, Returns, returns}
use cxkernel.LinkedList.Push.{push_back-IsRing}
use cxkernel.LinkedList.Pop.{pop_front-IsRing, pop_front-nil}
use cxkernel.LinkedList.Two.{
  IsPair, pop-IsBetween, push_front-IsPair, push_back-IsPair, IsPair-sym, Apart-nil,
}
use cxkernel.Status.{E, ok, out_of_memory}
use cxkernel.Pmm.{
  Answer, alloc_phys_page_single, give_back, alloc_loop, alloc_phys_pages, free_loop,
  free_phys_pages, free_phys_page_single,
}

-- The status, and what the two lists hold.
abbrev pub Holds : E → List Ptr → List Ptr → Answer → Links → Type 0
Holds e fs ps a t = (a.status ≡ e) × IsPair t a.free fs a.pages ps

abbrev pub Single : List Ptr → Answer → Links → Type 0
Single [] a t = (a.status ≡ out_of_memory) × (a.pages ≡ null) × (a.free ≡ null)
Single (x ∷ fs) a t = (a.status ≡ ok) × (a.pages ≡ x) × IsRing t a.free fs × NotIn x fs

root-ne_null : (s : Links) (r x : Ptr) (xs : List Ptr) → IsRing s r (x ∷ xs) → r ≢ null
root-ne_null s r x xs h e = h.1.0 (sym e ∙ h.0)

give_back-Holds :
    (s : Links) (fuel : ℕ) (free pages : Ptr) (fs ps : List Ptr)
    → IsPair s pages ps free fs
    → length ps < fuel
    → Returns (Holds out_of_memory (reverse_aux ps fs) []) (give_back fuel free pages s)
unfolding give_back
give_back-Holds s zero free pages fs ps h lt = absurd (omega arith)
give_back-Holds s (suc fuel) free pages fs [] h lt =
    let e = h.left in rw (ap (λ v. v == null) e) (returns (refl, IsPair-sym s pages free [] fs h))
give_back-Holds s (suc fuel) free pages fs (p ∷ ps) h lt =
    rw (ne→== pages null (root-ne_null s pages p ps h.left)) (
      Ring.bind (pop-IsBetween s pages free p ps fs h) λ (n, pages') t m.
        Ring.bind (push_front-IsPair s pages free p ps fs h n pages' t m)
          λ free' u q. give_back-Holds u fuel free' pages' (p ∷ fs) ps q (omega arith))

-- The loop of `alloc_phys_pages`, when the free list is long enough and when it is not.
alloc_loop-enough :
    (s : Links) (fuel left : ℕ) (free pages : Ptr) (fs ps : List Ptr)
    → IsPair s free fs pages ps
    → left ≤ length fs
    → Returns
        (Holds ok (drop left fs) (reverse_aux (take left fs) ps))
        (alloc_loop fuel left free pages s)
unfolding alloc_loop
alloc_loop-enough s fuel zero free pages fs ps h le = returns (refl, h)
alloc_loop-enough s fuel (suc left) free pages [] ps h le = absurd (omega arith)
alloc_loop-enough s fuel (suc left) free pages (x ∷ fs) ps h le =
    Ring.bind (pop-IsBetween s free pages x fs ps h) λ (n, free') t m.
      rw (ne→== n null (λ e. m.new.0 (sym m.node ∙ e))) (
        Ring.bind (push_front-IsPair s free pages x fs ps h n free' t m)
          λ pages' u q. alloc_loop-enough u fuel left free' pages' fs (x ∷ ps) q (omega arith))

alloc_loop-short :
    (s : Links) (fuel left : ℕ) (free pages : Ptr) (fs ps : List Ptr)
    → IsPair s free fs pages ps
    → length fs < left
    → length fs + length ps < fuel
    → Returns (Holds out_of_memory (reverse_aux ps fs) []) (alloc_loop fuel left free pages s)
unfolding alloc_loop
alloc_loop-short s fuel zero free pages fs ps h lt room = absurd (omega arith)
alloc_loop-short s fuel (suc left) free pages [] ps h lt room = rw (pop_front-nil s free h.left) (
    give_back-Holds s fuel null pages [] ps
      (record { left = h.right; right = refl; apart = Apart-nil ps }) (omega arith))
alloc_loop-short s fuel (suc left) free pages (x ∷ fs) ps h lt room =
    Ring.bind (pop-IsBetween s free pages x fs ps h) λ (n, free') t m.
      rw (ne→== n null (λ e. m.new.0 (sym m.node ∙ e))) (
        Ring.bind (push_front-IsPair s free pages x fs ps h n free' t m) λ pages' u q.
          alloc_loop-short u fuel left free' pages' fs (x ∷ ps) q (omega arith) (omega arith))

with_empty : (s : Links) (free : Ptr) (fs : List Ptr) → IsRing s free fs → IsPair s free fs null []
with_empty s free fs h = record { left = h; right = refl; apart = Apart-nil fs }

-- When the free list has `count` pages, `alloc_phys_pages` succeeds: the caller's list holds the
-- first `count` of them, last taken first, the free list keeps the rest, and no page is in both.
pub alloc_phys_pages-enough :
    (s : Links) (count : ℕ) (free pages : Ptr) (fs : List Ptr)
    → IsRing s free fs
    → count ≤ length fs
    → Returns
        (Holds ok (drop count fs) (reverse (take count fs)))
        (alloc_phys_pages count free pages s)
unfolding alloc_phys_pages
alloc_phys_pages-enough s count free pages fs h le =
    alloc_loop-enough s (count + 1) count free null fs [] (with_empty s free fs h) le

-- When the free list has fewer than `count` pages, `alloc_phys_pages` reports `out_of_memory`, the caller's list is empty, and
-- the free list holds the same pages in the same order as before.
pub alloc_phys_pages-short :
    (s : Links) (count : ℕ) (free pages : Ptr) (fs : List Ptr)
    → IsRing s free fs
    → length fs < count
    → Returns (Holds out_of_memory fs []) (alloc_phys_pages count free pages s)
unfolding alloc_phys_pages
alloc_phys_pages-short s count free pages fs h lt =
    alloc_loop-short s (count + 1) count free null fs [] (with_empty s free fs h) lt (omega arith)

free_loop-Holds :
    (s : Links) (fuel : ℕ) (free pages : Ptr) (fs ps : List Ptr)
    → IsPair s pages ps free fs
    → length ps < fuel
    → Returns (Holds ok (fs ++ ps) []) (free_loop fuel free pages s)
unfolding free_loop
free_loop-Holds s zero free pages fs ps h lt = absurd (omega arith)
free_loop-Holds s (suc fuel) free pages fs [] h lt =
    let e = h.left in
    rw (ap (λ v. v == null) e, append-nil fs) (returns (refl, IsPair-sym s pages free [] fs h))
free_loop-Holds s (suc fuel) free pages fs (p ∷ ps) h lt =
    rw (ne→== pages null (root-ne_null s pages p ps h.left), ← append_assoc fs (p ∷ []) ps)
      (Ring.bind (pop-IsBetween s pages free p ps fs h) λ (n, pages') t m.
        Ring.bind (push_back-IsPair s pages free p ps fs h n pages' t m)
          λ free' u q. free_loop-Holds u fuel free' pages' (fs ++ p ∷ []) ps q (omega arith))

-- On two lists without a common page, `free_phys_pages` ends, with fuel above the number of the
-- caller's pages, empties the caller's list and puts its pages, in order, behind those of the free
-- list.
pub free_phys_pages-append :
    (s : Links) (fuel : ℕ) (free pages : Ptr) (fs ps : List Ptr)
    → IsPair s free fs pages ps
    → length ps < fuel
    → Returns (Holds ok (fs ++ ps) []) (free_phys_pages fuel free pages s)
unfolding free_phys_pages
free_phys_pages-append s fuel free pages fs ps h lt =
    free_loop-Holds s fuel free pages fs ps (IsPair-sym s free pages fs ps h) lt

-- `alloc_phys_page_single` takes the first page of the free list and leaves the others, and
-- reports `out_of_memory` when there is none.
pub alloc_phys_page_single-Holds :
    (s : Links) (free : Ptr) (fs : List Ptr)
    → IsRing s free fs
    → Returns (Single fs) (alloc_phys_page_single free s)
unfolding alloc_phys_page_single
alloc_phys_page_single-Holds s free [] h = rw (pop_front-nil s free h) (returns (refl, refl, refl))
alloc_phys_page_single-Holds s free (x ∷ fs) h =
    Ring.bind (pop_front-IsRing s free x fs h) λ (n, free') t p.
      let e = p.0 in rw (e, ne→== x null (λ e'. h.1.0 (sym e'))) (returns (refl, refl, p.1, h.2.0))

-- A page that was just allocated and is freed again goes to the end of the free list.
alloc-free_single :
    (s : Links) (free x : Ptr) (fs : List Ptr)
    → IsRing s free (x ∷ fs)
    → Returns
        (λ r t. IsRing t r (fs ++ x ∷ []))
        ((alloc_phys_page_single free >>= λ a. free_phys_page_single a.free a.pages) s)
unfolding free_phys_page_single
alloc-free_single s free x fs h =
    Ring.bind (alloc_phys_page_single-Holds s free (x ∷ fs) h) λ a t p.
      let e = p.1 in
      rw (e, ne→== x null (λ e'. h.1.0 (sym e')))
        (Ring.mono (push_back-IsRing t a.free x fs (λ e'. h.1.0 (sym e')) p.3 p.2) λ r u q. q.0)
