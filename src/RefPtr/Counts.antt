-- ===== src/RefPtr/Counts.antt =====
-- The counts of lib/ebl/memory.h agree with the references.
use cxkernel.Base.{
  ℕ, ◌+◌, ◌<◌, ◌^◌, ◌≡◌, ◌≢◌, arith, ◌==◌, if◌then◌else◌, length, ltb, true, false, sym, ap, subst,
  ◌-◌,
}
use cxkernel.Bits.{u32}
use cxkernel.RefPtr.{Refs, get, at, add_ref, release, destroy, assign}
use cxkernel.RefPtr.Slots.{one, occurrences, occurrences-put, occurrences_le, length-put}

-- One reference to `e` beside those of the variables, none when `e` is null: every object's count
-- is the number of its references, and it exists exactly when that is not zero.
pub record Held (e : ℕ) (s : Refs) : Type 0 where
  pub size : length s.slots < 2 ^ 31
  pub counted : (p : ℕ) → p ≢ 0 → s.ref_count p ≡ occurrences p s.slots + one e p
  pub exists : (p : ℕ) → p ≢ 0 → s.live p ≡ ltb 0 (occurrences p s.slots + one e p)

abbrev pub IsSound : Refs → Type 0
IsSound s = Held 0 s

pub destroy_slots : (e : ℕ) (s : Refs) → (destroy e s).slots ≡ s.slots
unfolding destroy release
destroy_slots e s = ground arith

pub destroy_count :
    (e : ℕ) (s : Refs) (p : ℕ)
    → (destroy e s).ref_count p
      ≡ (if e == 0 then s.ref_count p else at s.ref_count e (u32 (s.ref_count e + 2 ^ 32 - 1)) p)
unfolding destroy release
destroy_count e s p = ground arith

pub destroy_live :
    (e : ℕ) (s : Refs) (p : ℕ)
    → (destroy e s).live p
      ≡ (if e == 0 then s.live p else if s.ref_count e == 1 then at s.live e false p else s.live p)
unfolding destroy release
destroy_live e s p = ground arith

pub destroy-IsSound : (e : ℕ) (s : Refs) → Held e s → IsSound (destroy e s)
destroy-IsSound e s h = record {
  size = subst (λ xs. length xs < 2 ^ 31) (sym (destroy_slots e s)) h.size;
  counted = λ p ne.
      let d = destroy_count e s p in
      let o = ap (occurrences p) (destroy_slots e s) in
      let c = h.counted p ne in
      let l = occurrences_le p s.slots in
      let z = h.size in
      let same : p ≡ e → s.ref_count p ≡ s.ref_count e = ap s.ref_count in
      ground (arith, d, o, c, l, z, same);
  exists = λ p ne.
      let d = destroy_live e s p in
      let o = ap (occurrences p) (destroy_slots e s) in
      let c = h.counted p ne in
      let x = h.exists p ne in
      let same : p ≡ e → s.ref_count p ≡ s.ref_count e = ap s.ref_count in
      ground (arith, d, o, c, x, same);
}

pub assign-Held :
    (i a b : ℕ) (s : Refs)
    → i < length s.slots
    → get s.slots i ≡ b
    → Held a s
    → Held b (assign i a s)
assign-Held i a b s lt e h = record {
  size = let n = length-put s.slots i a in let z = h.size in omega (arith, n, z);
  counted = λ p ne.
      let c = h.counted p ne in let o = occurrences-put p s.slots i a lt in ground (arith, c, o, e);
  exists = λ p ne.
      let c = h.exists p ne in let o = occurrences-put p s.slots i a lt in ground (arith, c, o, e);
}

pub add_ref-Held : (p : ℕ) (s : Refs) → s.live p ≡ true → IsSound s → Held p (add_ref p s)
unfolding add_ref
add_ref-Held p s on h = record {
  size = h.size;
  counted = λ q ne.
      let c = h.counted q ne in
      let l = occurrences_le q s.slots in
      let z = h.size in
      let same : q ≡ p → s.ref_count q ≡ s.ref_count p = ap s.ref_count in
      ground (arith, c, l, z, same);
  exists = λ q ne.
      let c = h.exists q ne in
      let same : q ≡ p → s.live q ≡ s.live p = ap s.live in ground (arith, c, on, same);
}
