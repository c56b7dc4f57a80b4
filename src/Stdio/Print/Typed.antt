-- ===== src/Stdio/Print/Typed.antt =====
-- Formats of `ssprintf` whose conversions find the arguments that they take.
use cxkernel.Base.{
  ℕ, zero, suc, ◌^◌, ◌≤◌, ◌<◌, ◌≡◌, Bool, true, false, none, some, List, [], ◌∷◌, ◌==◌, arith, refl,
  Option, Option-cases, Bool-cases, List-cases, ◌≢◌, inl, inr, if◌then◌else◌, subst, All,
}
use cxkernel.Stdio.{Out, Flags, f, num, layout, magnitude, overflows}
use cxkernel.Stdio.Digits.{convert_base-room}
use cxkernel.Stdio.Width.{magnitude-room}
use cxkernel.Stdio.Format.{Arg, word, text, Spec, parse_spec, va_word}
use cxkernel.Stdio.Print.{
  ssprintf, convert, returned, wrote, undefined, Converted, print_num, print_word, print_pointer,
  print_string, print_text, print_char, width_or_0, takes_word, unsigned_value, signed_value,
}
use cxkernel.Stdio.Print.Taken.{
  take_text, take_word, take_int, is_int, takes, IsWord, takes-IsWord, parse_spec-IsWord,
  parse_spec-unsigned,
}

-- Every conversion of the format is known and finds its argument, a signed one no least long long, and
-- no width or precision overflows.
unfoldable pub fits : ℕ → List ℕ → List Arg → Bool
unfolding takes
fits zero fmt args = false
fits (suc fuel) [] args = true
fits (suc fuel) (c ∷ cs) args = elim (c == 37) [
  | false ↦ fits fuel cs args
  | true ↦ elim (parse_spec cs args) [
    | none ↦ false
    | some k ↦ elim (k.fmt) [
      | [] ↦ false
      | t ∷ rest ↦ elim (takes t k.args) [ none ↦ false | some args' ↦ fits fuel rest args' ]
    ]
  ]
]

num-some :
    (o : Out) (n base : ℕ) (flags : Flags) (width percision : ℕ)
    → n < 2 ^ 64
    → overflows n flags ≡ false
    → 8 ≤ base
    → base ≤ 16
    → (o' : Out) × (num o n base flags width percision ≡ some o')
unfolding num
num-some o n base flags width percision small defined lo hi =
    let c =
      convert_base-room 22 flags.small base (magnitude n flags) (omega (arith, lo)) hi
        (magnitude-room n base flags small lo) in
    let e = c.1 in
    (layout (if n == 0 then 48 ∷ [] else c.0) n base flags width percision o, rw (num, defined, e))

-- a conversion that writes
abbrev Wrote : Converted → List Arg → Type 0
Wrote r args = (o' : Out) × (r ≡ wrote o' args)

print_num-Wrote :
    (s : Spec) (flags : Flags) (base n : ℕ) (width : Option ℕ) (args : List Arg) (o : Out)
    → n < 2 ^ 64
    → overflows n flags ≡ false
    → 8 ≤ base
    → base ≤ 16
    → Wrote (print_num s flags base n width args o) args
unfolding print_num
print_num-Wrote s flags base n width args o small defined lo hi =
    let r = num-some o n base flags (width_or_0 width) s.percision small defined lo hi in
    let e = r.1 in (r.0, rw (print_num, e))

if-Wrote :
    (b : Bool) (x y : Converted) (args : List Arg)
    → Wrote x args
    → Wrote y args
    → Wrote (if b then x else y) args
if-Wrote true x y args p q = p
if-Wrote false x y args p q = q

-- where the first branch needs its condition
when-Wrote :
    (b : Bool) (x y : Converted) (args : List Arg)
    → (b ≡ true → Wrote x args)
    → Wrote y args
    → Wrote (if b then x else y) args
when-Wrote true x y args p q = p refl
when-Wrote false x y args p q = q

-- Only signed conversions can overflow, and only that of the least long long.
unsigned-defined : (n : ℕ) (flags : Flags) → flags.signed ≡ false → overflows n flags ≡ false
unsigned-defined n flags h = ground (arith, h)

signed-defined :
    (len n : ℕ) (flags : Flags) → n ≢ 2 ^ 63 → overflows (signed_value len n) flags ≡ false
signed-defined len n flags ne = ground (arith, ne)

unsigned_value-lt : (len n : ℕ) → n < 2 ^ 64 → unsigned_value len n < 2 ^ 64
unsigned_value-lt len n h = ground arith

signed_value-lt : (len n : ℕ) → n < 2 ^ 64 → signed_value len n < 2 ^ 64
signed_value-lt len n h = ground arith

print_pointer-Wrote :
    (s : Spec) (n : ℕ) (args : List Arg) (o : Out)
    → n < 2 ^ 64
    → s.flags.signed ≡ false
    → Wrote (print_pointer s n args o) args
unfolding print_pointer
print_pointer-Wrote s n args o small unsigned = elim (Option-cases s.width) [
  | inl e ↦
      rw (print_pointer, e)
        (print_num-Wrote s (record s.flags { zeropad = true }) 16 n (some 8) args o small
          (unsigned-defined n (record s.flags { zeropad = true }) unsigned) (omega arith)
          (omega arith))
  | inr (w, e) ↦
      rw (print_pointer, e)
        (print_num-Wrote s s.flags 16 n (some w) args o small (unsigned-defined n s.flags unsigned)
          (omega arith) (omega arith))
]

print_word-Wrote :
    (c : ℕ) (s : Spec) (n : ℕ) (args : List Arg) (o : Out)
    → n < 2 ^ 64
    → s.flags.signed ≡ false
    → (is_int c ≡ true → n ≢ 2 ^ 63)
    → Wrote (print_word c s n args o) args
unfolding print_word
print_word-Wrote c s n args o small unsigned least =
    let v = unsigned_value s.length n in
    let v' = signed_value s.length n in
    let lt = unsigned_value-lt s.length n small in
    let lt' = signed_value-lt s.length n small in
    let defined = unsigned-defined v s.flags unsigned in
    let defined' = unsigned-defined v (record s.flags { small = true }) unsigned in
    let lower = record s.flags { small = true } in
    let signed = record s.flags { signed = true } in
    if-Wrote (c == 99) _ _ args (print_char s n o, refl)
      (if-Wrote (c == 120) _ _ args
        (print_num-Wrote s lower 16 v s.width args o lt defined' (omega arith) (omega arith))
        (if-Wrote (c == 88) _ _ args
          (print_num-Wrote s s.flags 16 v s.width args o lt defined (omega arith) (omega arith))
          (if-Wrote (c == 111) _ _ args
            (print_num-Wrote s s.flags 8 v s.width args o lt defined (omega arith) (omega arith))
            (if-Wrote (c == 117) _ _ args
              (print_num-Wrote s s.flags 10 v s.width args o lt defined (omega arith) (omega arith))
              (if-Wrote (c == 112) _ _ args (print_pointer-Wrote s n args o small unsigned) (
                when-Wrote (is_int c) _ _ args
                  (λ i.
                    print_num-Wrote s signed 10 v' s.width args o lt'
                      (signed-defined s.length n signed (least i)) (omega arith) (omega arith))
                  (record o { stores = (n, o.written) ∷ o.stores }, refl)))))))

text-Wrote :
    (s : Spec) (args args' : List Arg) (o : Out)
    → take_text args ≡ some args'
    → Wrote (print_string s args o) args'
text-Wrote s [] args' o e = absurd (ground arith)
text-Wrote s (word n ∷ args) args' o e = absurd (ground arith)
text-Wrote s (text cs ∷ args) args' o e = (print_text s cs o, ground arith)

abbrev converted : ℕ → Spec → List Arg → Out → Converted
converted c s args o = elim (va_word args) [ none ↦ undefined | some r ↦ print_word c s r.0 r.1 o ]

word-Wrote :
    (c : ℕ) (s : Spec) (args args' : List Arg) (o : Out)
    → All IsWord args
    → s.flags.signed ≡ false
    → is_int c ≡ false
    → take_word args ≡ some args'
    → Wrote (converted c s args o) args'
word-Wrote c s [] args' o words u i e = absurd (ground arith)
word-Wrote c s (text cs ∷ args) args' o words u i e = absurd (ground arith)
word-Wrote c s (word n ∷ args) args' o words u i e =
    let same : args ≡ args' = ground arith in
    subst (λ v. Wrote (print_word c s n args o) v) same
      (print_word-Wrote c s n args o words.0 u (λ t. absurd (ground (arith, t, i))))

int-Wrote :
    (c : ℕ) (s : Spec) (args args' : List Arg) (o : Out)
    → All IsWord args
    → s.flags.signed ≡ false
    → take_int args ≡ some args'
    → Wrote (converted c s args o) args'
int-Wrote c s [] args' o words u e = absurd (ground arith)
int-Wrote c s (text cs ∷ args) args' o words u e = absurd (ground arith)
int-Wrote c s (word n ∷ args) args' o words u e =
    let same : args ≡ args' = ground arith in
    let least : n ≢ 2 ^ 63 = λ z. ground (arith, z) in
    subst (λ v. Wrote (print_word c s n args o) v) same
      (print_word-Wrote c s n args o words.0 u (λ _. least))

convert-Wrote :
    (c : ℕ) (s : Spec) (args args' : List Arg) (o : Out)
    → All IsWord args
    → s.flags.signed ≡ false
    → takes c args ≡ some args'
    → Wrote (convert c s args o) args'
unfolding convert takes
convert-Wrote c s args args' o words u e = elim (Bool-cases (c == 115)) [
  | inl b ↦
      let e' : take_text args ≡ some args' = ground arith in
      rw (convert, b) (text-Wrote s args args' o e')
  | inr b ↦ elim (Bool-cases (is_int c)) [
    | inl i ↦
        let e' : take_int args ≡ some args' = ground arith in
        let w : takes_word c ≡ true = ground (arith, i) in
        rw (convert, b, w) (int-Wrote c s args args' o words u e')
    | inr i ↦ elim (Bool-cases (takes_word c)) [
      | inl w ↦
          let e' : take_word args ≡ some args' = ground arith in
          rw (convert, b, w) (word-Wrote c s args args' o words u i e')
      | inr w ↦ (f 37 o, ground arith)
    ]
  ]
]

pub ssprintf_typed :
    (g fuel : ℕ) (fmt : List ℕ) (args : List Arg) (o : Out)
    → fits g fmt args ≡ true
    → g ≤ fuel
    → All IsWord args
    → (o' : Out) × (ssprintf fuel fmt args o ≡ returned o')
unfolding ssprintf fits
ssprintf_typed zero fuel fmt args o ok le words = cc
ssprintf_typed (suc g) zero fmt args o ok le words = absurd (omega arith)
ssprintf_typed (suc g) (suc fuel) [] args o ok le words = (o, refl)
ssprintf_typed (suc g) (suc fuel) (c ∷ cs) args o ok le words = elim (Bool-cases (c == 37)) [
  | inr b ↦
      let ih = ssprintf_typed g fuel cs args (f c o) (ground arith) (omega arith) words in
      rw (ssprintf, b) ih
  | inl b ↦ elim (Option-cases (parse_spec cs args)) [
    | inl e ↦ absurd (ground arith)
    | inr (k, e) ↦ elim (List-cases k.fmt) [
      | inl n ↦ absurd (ground arith)
      | inr (t, rest, n) ↦ elim (Option-cases (takes t k.args)) [
        | inl x ↦ absurd (ground arith)
        | inr (args', x) ↦
            let kept = parse_spec-IsWord cs args k words e in
            let (o1, w) =
              convert-Wrote t k.spec k.args args' o kept (parse_spec-unsigned cs args k e) x in
            let ih =
              ssprintf_typed g fuel rest args' o1 (ground arith) (omega arith)
                (takes-IsWord t k.args args' kept x) in
            rw (ssprintf, b, e, n, w) ih
      ]
    ]
  ]
]
