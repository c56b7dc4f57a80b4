-- ===== src/Stdio/Digits.antt =====
-- The base conversion of `num` in lib/ebl/stdio.cc: it stays inside its buffer, and its digits
-- read back as the number.
use cxkernel.Base.{
  ℕ, zero, suc, ◌+◌, ◌-◌, ◌*◌, ◌/◌, ◌%◌, ◌^◌, ◌≤◌, ◌<◌, ◌≡◌, Bool, some, List, [], ◌∷◌, ◌==◌, ltb,
  if◌then◌else◌, length, arith, ap, ◌∙◌, subst, Bool-cases, inl, inr,
}
use native.Mathlib.Nat.{div-lt_iff_lt-mul, mul_comm, pow-succ', pow-zero, mod-lt, div-add-mod'}
use cxkernel.Stdio.{convert_base, base_str}

-- The value of a digit, whichever of the two digit strings it is from.
unfoldable pub digit_value : ℕ → ℕ
digit_value c = if ltb c 58 then c - 48 else if ltb c 71 then c - 55 else c - 87

-- The number that digits stand for, the least significant one first.
unfoldable pub value : ℕ → List ℕ → ℕ
unfolding digit_value
value base [] = 0
value base (c ∷ cs) = digit_value c + base * value base cs

digit_value-base_str : (small : Bool) (d : ℕ) → d < 16 → digit_value (base_str small d) ≡ d
unfolding digit_value base_str
digit_value-base_str small d h = ground arith

quotient-less : (base v m : ℕ) → 2 ≤ base → v < base * m → v / base < m
quotient-less base v m h k =
    (div-lt_iff_lt-mul (omega (arith, h))).1 (subst (λ x. v < x) (mul_comm base m) k)

remainder-less : (base v : ℕ) → 2 ≤ base → base ≤ 16 → v % base < 16
remainder-less base v h k = let r = mod-lt v {m = base} (omega (arith, h)) in omega (arith, r, k)

pub convert_base-room :
    (room : ℕ) (small : Bool) (base v : ℕ)
    → 2 ≤ base
    → base ≤ 16
    → v < base ^ room
    → (ds : List ℕ) × (convert_base room small base v ≡ some ds)
      × (value base ds ≡ v)
      × (length ds ≤ room)
unfolding convert_base value
convert_base-room zero small base v lo hi h =
    let e : v < 1 = subst (λ x. v < x) (pow-zero base) h in
    ([], ground (arith, e), ground (arith, e), ground (arith, e))
convert_base-room (suc room) small base v lo hi h = elim (Bool-cases (v == 0)) [
  | inl z ↦ ([], ground arith, ground arith, ground arith)
  | inr z ↦
      let q = quotient-less base v (base ^ room) lo (subst (λ x. v < x) (pow-succ' base room) h) in
      let ih = convert_base-room room small base (v / base) lo hi q in
      let d = digit_value-base_str small (v % base) (remainder-less base v lo hi) in
      (
        base_str small (v % base) ∷ ih.0,
        let e = ih.1 in ground (arith, e),
        let x = ih.2 in
            let y = div-add-mod' v base in
            let k : base * value base ih.0 ≡ v / base * base =
              ap (λ x. base * x) x ∙ mul_comm base (v / base) in
            omega (arith, d, k, y),
        let n = ih.3 in omega (arith, n),
      )
]
