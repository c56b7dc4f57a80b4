-- ===== src/Stdio/Print/Plain.antt =====
-- Theorems on `ssprintf` of lib/ebl/stdio.cc.
use cxkernel.Base.{
  ℕ, zero, suc, ◌+◌, ◌-◌, ◌*◌, ◌≤◌, ◌<◌, ◌≡◌, ◌≢◌, true, none, some, List, [], ◌∷◌, ◌==◌, length,
  arith, refl, Option-cases, Bool-cases, List-cases, ◌⊎◌, inl, inr, All,
}
use cxkernel.Stdio.{Out, Flags, f, put_digits}
use cxkernel.Stdio.Format.{
  Arg, Spec, Cursor, parse_spec, parse_flags, parse_num, parse_width, parse_dot, parse_percision,
  parse_length, skip_l, no_flags,
}
use cxkernel.Stdio.Print.{
  ssprintf, convert, returned, out_of_fuel, wrote, refused, undefined, Converted,
}

parse_num-rest :
    (n : ℕ) (cs : List ℕ) (r : ℕ × List ℕ) → parse_num n cs ≡ some r → length r.1 ≤ length cs
unfolding parse_num
parse_num-rest n [] r e = ground arith
parse_num-rest n (c ∷ cs) r e =
    let ih = parse_num-rest (n * 10 + c - 48) cs r in ground (arith, ih, e)

parse_flags-rest : (flags : Flags) (cs : List ℕ) → length ((parse_flags flags cs).1) ≤ length cs
unfolding parse_flags
parse_flags-rest flags [] = omega arith
parse_flags-rest flags (c ∷ cs) =
    let a = parse_flags-rest (record flags { zeropad = true }) cs in
    let b = parse_flags-rest (record flags { splus = true }) cs in
    let d = parse_flags-rest (record flags { fplus = true }) cs in
    let e = parse_flags-rest (record flags { prefix = true }) cs in
    let g = parse_flags-rest (record flags { left = true }) cs in ground (arith, a, b, d, e, g)

parse_width-rest :
    (s : Spec) (fmt : List ℕ) (args : List Arg) (k : Cursor)
    → parse_width s fmt args ≡ some k
    → length k.fmt ≤ length fmt
unfolding parse_width
parse_width-rest s [] args k e = ground arith
parse_width-rest s (c ∷ cs) args k e = elim (Option-cases (parse_num 0 (c ∷ cs))) [
  | inl none' ↦ ground (arith, e)
  | inr (r, got) ↦ let n = parse_num-rest 0 (c ∷ cs) r got in ground (arith, n, e)
]

parse_dot-rest :
    (s : Spec) (fmt : List ℕ) (args : List Arg) (k : Cursor)
    → parse_dot s fmt args ≡ some k
    → length k.fmt ≤ length fmt
unfolding parse_dot
parse_dot-rest s [] args k e = ground arith
parse_dot-rest s (c ∷ cs) args k e = elim (Option-cases (parse_num 0 (c ∷ cs))) [
  | inl none' ↦ ground (arith, e)
  | inr (r, got) ↦ let n = parse_num-rest 0 (c ∷ cs) r got in ground (arith, n, e)
]

parse_percision-rest :
    (s : Spec) (fmt : List ℕ) (args : List Arg) (k : Cursor)
    → parse_percision s fmt args ≡ some k
    → length k.fmt ≤ length fmt
unfolding parse_percision
parse_percision-rest s [] args k e = ground arith
parse_percision-rest s (c ∷ cs) args k e =
    let n = parse_dot-rest s cs args k in ground (arith, n, e)

parse_length-rest : (s : Spec) (fmt : List ℕ) → length ((parse_length s fmt).1) ≤ length fmt
unfolding parse_length skip_l
parse_length-rest s [] = omega arith
parse_length-rest s (c ∷ []) = ground arith
parse_length-rest s (c ∷ d ∷ cs) = ground arith

parse_spec-rest :
    (fmt : List ℕ) (args : List Arg) (k : Cursor)
    → parse_spec fmt args ≡ some k
    → length k.fmt ≤ length fmt
unfolding parse_spec
parse_spec-rest fmt args k e =
    let r = parse_flags no_flags fmt in
    let s : Spec = record { flags = r.0; width = none; percision = 0; length = 0 } in
    let n = parse_flags-rest no_flags fmt in
    elim (Option-cases (parse_width s r.1 args)) [
      | inl e1 ↦ ground arith
      | inr k1 ↦
          let n1 = parse_width-rest s r.1 args k1.0 k1.1 in
          elim (Option-cases (parse_percision k1.0.spec k1.0.fmt k1.0.args)) [
            | inl e2 ↦ ground arith
            | inr k2 ↦
                let n2 = parse_percision-rest k1.0.spec k1.0.fmt k1.0.args k2.0 k2.1 in
                let n3 = parse_length-rest k2.0.spec k2.0.fmt in ground arith
          ]
    ]

Converted-cases :
    (r : Converted)
    → ((o : Out) × (args : List Arg) × (r ≡ wrote o args)) ⊎ ((r ≡ refused) ⊎ (r ≡ undefined))
Converted-cases (wrote o args) = inl (o, args, refl)
Converted-cases refused = inr (inl refl)
Converted-cases undefined = inr (inr refl)

-- With fuel above the length of the format the loop of `ssprintf` ends: it does not run out of
-- fuel, whatever the format and the arguments are.
pub ssprintf-ends :
    (fuel : ℕ) (fmt : List ℕ) (args : List Arg) (o : Out)
    → length fmt < fuel
    → ssprintf fuel fmt args o ≢ out_of_fuel
unfolding ssprintf
ssprintf-ends zero fmt args o h = elim h [ ]
ssprintf-ends (suc fuel) [] args o h = λ e. ground arith
ssprintf-ends (suc fuel) (c ∷ cs) args o h = elim (Bool-cases (c == 37)) [
  | inr b ↦ let ih = ssprintf-ends fuel cs args (f c o) (omega (arith, h)) in λ z. ground (arith, z)
  | inl b ↦ elim (Option-cases (parse_spec cs args)) [
    | inl e ↦ λ z. ground (arith, z)
    | inr k ↦ elim (List-cases k.0.fmt) [
      | inl e ↦ let p = k.1 in λ z. ground (arith, z)
      | inr t ↦
          let p = k.1 in
          let q = t.2 in
          let n = parse_spec-rest cs args k.0 p in
          elim (Converted-cases (convert t.0 k.0.spec k.0.args o)) [
            | inl w ↦
                let x = w.2 in
                let ih = ssprintf-ends fuel t.1 w.1 w.0 (ground (arith, n, h, q)) in
                λ z. ground (arith, z)
            | inr g ↦ elim g [ inl g' ↦ λ z. ground (arith, z) | inr g' ↦ λ z. ground (arith, z) ]
          ]
    ]
  ]
]

-- With fuel above its length, a format without a percent sign is written as it stands.
pub ssprintf-plain :
    (fuel : ℕ) (fmt : List ℕ) (args : List Arg) (o : Out)
    → length fmt < fuel
    → All (λ c. c ≢ 37) fmt
    → ssprintf fuel fmt args o ≡ returned (put_digits fmt o)
unfolding ssprintf put_digits
ssprintf-plain zero fmt args o h p = elim h [ ]
ssprintf-plain (suc fuel) [] args o h p = refl
ssprintf-plain (suc fuel) (c ∷ cs) args o h p =
    let ih = ssprintf-plain fuel cs args (f c o) (omega (arith, h)) p.1 in ground arith
