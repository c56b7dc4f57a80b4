-- ===== src/RefPtr/Clear.antt =====
-- The destructor of `IntrusiveList<RefPtr<T>>` in lib/ebl/linked_list.h.
use cxkernel.Base.{
  ℕ, zero, suc, ◌+◌, ◌<◌, ◌^◌, ◌≡◌, ◌≢◌, arith, List, [], ◌∷◌, ◌==◌, length, ltb, refl, sym, ap,
  ◌∙◌, ne→==,
}
use cxkernel.LinkedList.{Ptr, null, Links}
use cxkernel.LinkedList.Ring.{IsRing, Returns, returns, bind, mono}
use cxkernel.LinkedList.Pop.{pop_front-IsRing}
use cxkernel.RefPtr.{Refs, add_ref, release, destroy}
use cxkernel.RefPtr.Slots.{occurrences, occurrences_le}
use cxkernel.RefPtr.Counts.{IsSound, destroy_slots, destroy_count, destroy_live}
use cxkernel.RefPtr.Lists.{clear_refs}

-- The nodes of a list are references beside those of the variables: every object's count is the
-- number of both, and it exists exactly when that is not zero.
pub record Listed (xs : List ℕ) (s : Refs) : Type 0 where
  pub size : length s.slots + length xs < 2 ^ 31
  pub counted : (p : ℕ) → p ≢ 0 → s.ref_count p ≡ occurrences p s.slots + occurrences p xs
  pub exists : (p : ℕ) → p ≢ 0 → s.live p ≡ ltb 0 (occurrences p s.slots + occurrences p xs)

destroy-Listed :
    (x : ℕ) (xs : List ℕ) (s : Refs) → x ≢ 0 → Listed (x ∷ xs) s → Listed xs (destroy x s)
destroy-Listed x xs s nx h = record {
  size = let z = h.size in let n = ap length (destroy_slots x s) in omega (arith, z, n);
  counted = λ p ne.
      let d = destroy_count x s p in
      let o = ap (occurrences p) (destroy_slots x s) in
      let c = h.counted p ne in
      let l = occurrences_le p s.slots in
      let k = occurrences_le p xs in
      let z = h.size in
      let same : p ≡ x → s.ref_count p ≡ s.ref_count x = ap s.ref_count in
      ground (arith, d, o, c, l, k, z, same, nx);
  exists = λ p ne.
      let d = destroy_live x s p in
      let o = ap (occurrences p) (destroy_slots x s) in
      let c = h.counted p ne in
      let e = h.exists p ne in
      let same : p ≡ x → s.ref_count p ≡ s.ref_count x = ap s.ref_count in
      ground (arith, d, o, c, e, same, nx);
}

-- What `pop_front` does to the counts and the temporary takes back: nothing.
popped-Listed :
    (x : ℕ) (xs : List ℕ) (s : Refs)
    → x ≢ 0
    → Listed (x ∷ xs) s
    → Listed (x ∷ xs) (add_ref x (release x s).1)
unfolding add_ref release
popped-Listed x xs s nx h = record {
  size = h.size;
  counted = λ p ne.
      let c = h.counted p ne in
      let l = occurrences_le p s.slots in
      let k = occurrences_le p xs in
      let z = h.size in
      let same : p ≡ x → s.ref_count p ≡ s.ref_count x = ap s.ref_count in
      ground (arith, c, l, k, z, same);
  exists = h.exists;
}

released_slots : (x : ℕ) (s : Refs) → (add_ref x (release x s).1).slots ≡ s.slots
unfolding add_ref release
released_slots x s = refl

-- With fuel above its length, the destructor of a list whose nodes and the variables account for
-- every count returns, and leaves the counts to the variables alone: exactly the objects that no
-- variable points to are deleted.
pub clear_refs-IsSound :
    (xs : List Ptr) (fuel : ℕ) (s : Links) (root : Ptr) (refs : Refs)
    → length xs < fuel
    → IsRing s root xs
    → Listed xs refs
    → Returns (λ refs' t. IsSound refs' × (refs'.slots ≡ refs.slots)) (clear_refs fuel root refs s)
unfolding clear_refs
clear_refs-IsSound xs zero s root refs enough ring h = absurd (omega (arith, enough))
clear_refs-IsSound [] (suc fuel) s root refs enough ring h =
    let sound : IsSound refs = record {
      size = let z = h.size in omega (arith, z);
      counted = λ p ne. let c = h.counted p ne in ground (arith, c);
      exists = λ p ne. let e = h.exists p ne in ground (arith, e);
    } in
    rw (ap (λ v. v == null) ring) (returns (sound, refl))
clear_refs-IsSound (x ∷ xs) (suc fuel) s root refs enough ring h =
    let nx : x ≢ 0 = λ e. ring.1.0 (sym e) in
    rw (ne→== root null (λ e. nx (sym ring.0 ∙ e))) (
      bind (pop_front-IsRing s root x xs ring) λ (n, r) t m.
        let e = m.0 in
        let next = destroy x (add_ref x (release x refs).1) in
        let slots = destroy_slots x (add_ref x (release x refs).1) ∙ released_slots x refs in
        rw (e, ne→== x null nx)
          (mono
            (clear_refs-IsSound xs fuel t r next (omega (arith, enough)) m.1 (
              destroy-Listed x xs (add_ref x (release x refs).1) nx (popped-Listed x xs refs nx h)))
            (λ refs' u q. (q.0, q.1 ∙ slots))))
