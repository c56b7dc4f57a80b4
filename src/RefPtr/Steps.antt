-- ===== src/RefPtr/Steps.antt =====
-- Programs on the variables of type `RefPtr` of lib/ebl/memory.h.
use cxkernel.Base.{
  ℕ, zero, suc, ◌+◌, ◌<◌, ◌≡◌, ◌≢◌, ◌⊎◌, inl, inr, arith, List, [], ◌∷◌, ◌==◌, length, true, false,
  refl, sym, ap, subst, Bool-cases, ==→eq, ==→ne,
}
use cxkernel.RefPtr.{
  Refs, get, put, add_ref, assign, from_raw, copy, move, copy_assign, move_assign, drop_ref, swap,
  make_ref,
}
use cxkernel.RefPtr.Slots.{one, occurrences, occurrences-put, length-put, get-put}
use cxkernel.RefPtr.Counts.{Held, IsSound, destroy-IsSound, assign-Held, add_ref-Held}
use cxkernel.RefPtr.Branches.{
  from_raw_null, from_raw_some, add_ref_slots, made_null, made_some, copy_assign_null,
  copy_assign_some, drop_ref-assign,
}

-- the operations on variables, by position
pub data Op : Type 0 where
  raw copying moving copy_assigning move_assigning swapping making : ℕ → ℕ → Op
  dropping : ℕ → Op

unfoldable pub run : Op → Refs → Refs
run (raw i p) s = from_raw i p s
run (copying i j) s = copy i j s
run (moving i j) s = move i j s
run (copy_assigning i j) s = copy_assign i j s
run (move_assigning i j) s = move_assign i j s
run (swapping i j) s = swap i j s
run (making i p) s = (make_ref i p s).1
run (dropping i) s = drop_ref i s

-- A constructor runs on a variable that holds nothing; a raw pointer is null or to an object that
-- exists; and `kmem::alloc` gives null or a pointer that is not in use.
abbrev pub IsAllowed : Op → Refs → Type 0
IsAllowed (raw i p) s = (i < length s.slots) × (get s.slots i ≡ 0) × ((p ≡ 0) ⊎ (s.live p ≡ true))
IsAllowed (copying i j) s = (i < length s.slots) × (get s.slots i ≡ 0)
IsAllowed (moving i j) s = (i < length s.slots) × (j < length s.slots) × (get s.slots i ≡ 0)
IsAllowed (copy_assigning i j) s = i < length s.slots
IsAllowed (move_assigning i j) s = (i < length s.slots) × (j < length s.slots)
IsAllowed (swapping i j) s = (i < length s.slots) × (j < length s.slots)
IsAllowed (making i p) s = (i < length s.slots) × (get s.slots i ≡ 0) × (s.live p ≡ false)
IsAllowed (dropping i) s = i < length s.slots

-- What a variable points to exists.
get-occurrences : (xs : List ℕ) (j : ℕ) → get xs j ≢ 0 → 0 < occurrences (get xs j) xs
get-occurrences [] j ne = absurd (omega (arith, ne))
get-occurrences (x ∷ xs) zero ne = ground arith
get-occurrences (x ∷ xs) (suc j) ne = let ih = get-occurrences xs j ne in omega (arith, ih)

module _ (s : Refs) (h : IsSound s) where
  get_live : (j : ℕ) → get s.slots j ≢ 0 → s.live (get s.slots j) ≡ true
  get_live j ne =
      let x = h.exists (get s.slots j) ne in
      let o = get-occurrences s.slots j ne in ground (arith, x, o)

  null-IsSound :
      (i p : ℕ) → i < length s.slots → get s.slots i ≡ 0 → p ≡ 0 → IsSound (from_raw i p s)
  null-IsSound i p lt e z =
      subst IsSound (sym (from_raw_null i p s z))
        (assign-Held i p 0 s lt e (subst (λ x. Held x s) (sym z) h))

  raw-IsSound :
      (i p : ℕ)
      → i < length s.slots
      → get s.slots i ≡ 0
      → (p ≡ 0) ⊎ (s.live p ≡ true)
      → IsSound (from_raw i p s)
  raw-IsSound i p lt e (inl z) = null-IsSound i p lt e z
  raw-IsSound i p lt e (inr on) =
      let slots = add_ref_slots p s in
      let lt' = subst (λ xs. i < length xs) (sym slots) lt in
      let e' = subst (λ xs. get xs i ≡ 0) (sym slots) e in
      elim (Bool-cases (p == 0)) [
        | inl z ↦ null-IsSound i p lt e (==→eq p 0 z)
        | inr ne ↦
            subst IsSound (sym (from_raw_some i p s (==→ne p 0 ne)))
              (assign-Held i p 0 (add_ref p s) lt' e' (add_ref-Held p s on h))
      ]

  copy-IsSound : (i j : ℕ) → i < length s.slots → get s.slots i ≡ 0 → IsSound (copy i j s)
  unfolding copy
  copy-IsSound i j lt e =
      raw-IsSound i (get s.slots j) lt e (elim (Bool-cases (get s.slots j == 0)) [
        | inl z ↦ inl (==→eq (get s.slots j) 0 z)
        | inr ne ↦ inr (get_live j (==→ne (get s.slots j) 0 ne))
      ])

  copy_assign-IsSound : (i j : ℕ) → i < length s.slots → IsSound (copy_assign i j s)
  copy_assign-IsSound i j lt =
      let slots = add_ref_slots (get s.slots j) s in
      let lt' = subst (λ xs. i < length xs) (sym slots) lt in
      let e' = ap (λ xs. get xs i) slots in
      elim (Bool-cases (get s.slots j == 0)) [
        | inl z ↦
            let z' = ==→eq (get s.slots j) 0 z in
            subst IsSound (sym (copy_assign_null i j s z')) (
              destroy-IsSound (get s.slots i) (assign i (get s.slots j) s) (
                assign-Held i (get s.slots j) (get s.slots i) s lt refl
                  (subst (λ x. Held x s) (sym z') h)))
        | inr ne ↦
            let ne' = ==→ne (get s.slots j) 0 ne in
            subst IsSound (sym (copy_assign_some i j s ne')) (
              destroy-IsSound (get s.slots i) (assign i (get s.slots j) (add_ref (get s.slots j) s))
                (assign-Held i (get s.slots j) (get s.slots i) (add_ref (get s.slots j) s) lt' e'
                  (add_ref-Held (get s.slots j) s (get_live j ne') h)))
      ]

  move_assign-IsSound :
      (i j : ℕ) → i < length s.slots → j < length s.slots → IsSound (move_assign i j s)
  unfolding move_assign
  move_assign-IsSound i j lt lt' =
      let taken : Held (get s.slots j) (assign j 0 s) =
        assign-Held j 0 (get s.slots j) s lt' refl h in
      let n = length-put s.slots j 0 in
      destroy-IsSound (get (assign j 0 s).slots i) (assign i (get s.slots j) (assign j 0 s)) (
        assign-Held i (get s.slots j) (get (assign j 0 s).slots i) (assign j 0 s)
          (omega (arith, lt, n)) refl taken)

  swap-occurrences :
      (i j v p : ℕ)
      → i < length s.slots
      → j < length s.slots
      → occurrences p (put (put s.slots i (get s.slots j)) j v) + one (get s.slots i) p
        ≡ occurrences p s.slots + one v p
  swap-occurrences i j v p lt lt' =
      let n = length-put s.slots i (get s.slots j) in
      let o1 = occurrences-put p s.slots i (get s.slots j) lt in
      let o2 = occurrences-put p (put s.slots i (get s.slots j)) j v (omega (arith, lt', n)) in
      let g = ap (λ x. one x p) (get-put s.slots i j lt') in omega (arith, o1, o2, g)

  two-IsSound :
      (i j v : ℕ)
      → i < length s.slots
      → j < length s.slots
      → get s.slots i ≡ v
      → IsSound (assign j v (assign i (get s.slots j) s))
  two-IsSound i j v lt lt' e = record {
    size =
        let n = length-put s.slots i (get s.slots j) in
        let n' = length-put (put s.slots i (get s.slots j)) j v in
        let z = h.size in omega (arith, n, n', z);
    counted = λ p ne.
        let c = h.counted p ne in
        let o = swap-occurrences i j v p lt lt' in
        let g = ap (λ x. one x p) e in omega (arith, c, o, g);
    exists = λ p ne.
        let c = h.exists p ne in
        let o = swap-occurrences i j v p lt lt' in
        let g = ap (λ x. one x p) e in ground (arith, c, o, g);
  }

  make-IsSound :
      (i p : ℕ)
      → i < length s.slots
      → get s.slots i ≡ 0
      → s.live p ≡ false
      → IsSound ((make_ref i p s).1)
  make-IsSound i p lt e off = elim (Bool-cases (p == 0)) [
    | inl z ↦ subst IsSound (sym (made_null i p s (==→eq p 0 z))) h
    | inr ne ↦ subst IsSound (sym (made_some i p s (==→ne p 0 ne))) record {
      size = let n = length-put s.slots i p in let z = h.size in omega (arith, n, z);
      counted = λ q nq.
          let c = h.counted q nq in
          let x = h.exists q nq in
          let o = occurrences-put q s.slots i p lt in
          let same : q ≡ p → s.live q ≡ s.live p = ap s.live in
          ground (arith, c, x, o, e, off, same);
      exists = λ q nq.
          let x = h.exists q nq in
          let o = occurrences-put q s.slots i p lt in ground (arith, x, o, e);
    }
  ]

  drop-IsSound : (i : ℕ) → i < length s.slots → IsSound (drop_ref i s)
  drop-IsSound i lt =
      subst IsSound (sym (drop_ref-assign i s)) (
        destroy-IsSound (get s.slots i) (assign i 0 s)
          (assign-Held i 0 (get s.slots i) s lt refl h))

  run-IsSound : (o : Op) → IsAllowed o s → IsSound (run o s)
  unfolding run move swap
  run-IsSound (raw i p) a = raw-IsSound i p a.0 a.1 a.2
  run-IsSound (copying i j) a = copy-IsSound i j a.0 a.1
  run-IsSound (moving i j) a = two-IsSound i j 0 a.0 a.1 a.2
  run-IsSound (copy_assigning i j) a = copy_assign-IsSound i j a
  run-IsSound (move_assigning i j) a = move_assign-IsSound i j a.0 a.1
  run-IsSound (swapping i j) a = two-IsSound i j (get s.slots i) a.0 a.1 refl
  run-IsSound (making i p) a = make-IsSound i p a.0 a.1 a.2
  run-IsSound (dropping i) a = drop-IsSound i a

-- the states that programs reach
pub data Reaches : Refs → Refs → Type 0 where
  start : (s : Refs) → Reaches s s
  next : (s t : Refs) (o : Op) → Reaches s t → IsAllowed o t → Reaches s (run o t)

-- From a sound state every sequence of allowed operations leads to a sound state: the count of each
-- object is the number of variables that point to it, and an object exists exactly when a variable
-- points to it, so none is deleted while it is used and none is left that no variable reaches.
pub Reaches-IsSound : (s t : Refs) → Reaches s t → IsSound s → IsSound t
Reaches-IsSound s t (start s') h = h
Reaches-IsSound s t (next s' u o r a) h = run-IsSound u (Reaches-IsSound s u r h) o a
