-- ===== src/Stdio/Width.antt =====
-- How much `num` of lib/ebl/stdio.cc writes, and that what it counts is what it writes.
use cxkernel.Base.{
  ℕ, zero, suc, ◌+◌, ◌^◌, ◌≤◌, ◌<◌, ◌≡◌, refl, List, [], ◌∷◌, length, arith, subst, ◌∙◌,
  length-append,
}
use native.Mathlib.Nat.{pow-le-pow_left}
use cxkernel.Stdio.{Out, Flags, f, pad, put_digits, magnitude}

-- The writing added `n` characters, and counted them.
pub record Adds (n : ℕ) (o o' : Out) : Type 0 where
  pub counted : o'.written ≡ o.written + n
  pub added : length o'.text ≡ length o.text + n
  pub same_stores : o'.stores ≡ o.stores

pub none-Adds : (o : Out) → Adds 0 o o
none-Adds o = record { counted = omega arith; added = omega arith; same_stores = refl }

pub then-Adds : {m n : ℕ} {a b c : Out} → Adds m a b → Adds n b c → Adds (m + n) a c
then-Adds x y = record {
  counted = omega (arith, x.counted, y.counted);
  added = omega (arith, x.added, y.added);
  same_stores = y.same_stores ∙ x.same_stores;
}

pub f-Adds : (c : ℕ) (o : Out) → Adds 1 o (f c o)
unfolding f
f-Adds c o = record { counted = refl; added = length-append o.text (c ∷ []); same_stores = refl }

pub pad-Adds : (w c : ℕ) (o : Out) → Adds w o (pad w c o)
unfolding pad
pad-Adds zero c o = none-Adds o
pad-Adds (suc w) c o =
    subst (λ x. Adds x o (pad (suc w) c o)) (omega arith)
      (then-Adds (f-Adds c o) (pad-Adds w c (f c o)))

pub put_digits-Adds : (cs : List ℕ) (o : Out) → Adds (length cs) o (put_digits cs o)
unfolding put_digits
put_digits-Adds [] o = none-Adds o
put_digits-Adds (c ∷ cs) o =
    subst (λ x. Adds x o (put_digits cs (f c o))) (omega arith)
      (then-Adds (f-Adds c o) (put_digits-Adds cs (f c o)))

pub magnitude-room :
    (n base : ℕ) (flags : Flags) → n < 2 ^ 64 → 8 ≤ base → magnitude n flags < base ^ 22
unfolding magnitude
magnitude-room n base flags h lo =
    let room : 8 ^ 22 ≤ base ^ 22 = pow-le-pow_left lo 22 in ground (arith, room)
