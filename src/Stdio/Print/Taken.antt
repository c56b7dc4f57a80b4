-- ===== src/Stdio/Print/Taken.antt =====
-- The arguments that the conversions of `ssprintf` in lib/ebl/stdio.cc take.
use cxkernel.Base.{
  ℕ, ◌^◌, ◌<◌, ◌≡◌, none, some, List, [], ◌∷◌, ◌==◌, arith, Option, Option-cases, Bool-cases, inl,
  inr, if◌then◌else◌, subst, All, Bool, ◌||◌, refl, true, false,
}
use cxkernel.Stdio.Format.{
  Arg, word, text, Spec, Cursor, parse_spec, parse_flags, parse_width, parse_dot, parse_percision,
  no_flags, va_word, parse_num, parse_length,
}
use cxkernel.Stdio.{Flags}
use cxkernel.Stdio.Print.{takes_word}

-- what a conversion of the type takes from the arguments; `none` where it does not fit
abbrev pub take_text : List Arg → Option (List Arg)
take_text [] = none
take_text (word n ∷ args) = none
take_text (text cs ∷ args) = some args

abbrev pub take_word : List Arg → Option (List Arg)
take_word [] = none
take_word (word n ∷ args) = some args
take_word (text cs ∷ args) = none

-- a word whose opposite does not overflow
abbrev pub take_int : List Arg → Option (List Arg)
take_int [] = none
take_int (word n ∷ args) = if n == 2 ^ 63 then none else some args
take_int (text cs ∷ args) = none

-- the types of signed conversions
abbrev pub is_int : ℕ → Bool
is_int c = (c == 105) || (c == 100)

unfoldable pub takes : ℕ → List Arg → Option (List Arg)
takes c args =
    if c == 115
    then take_text args
    else if is_int c
    then take_int args
    else if takes_word c
    then take_word args
    else if c == 37
    then some args
    else none

-- an argument of 64 bits, or a text
abbrev pub IsWord : Arg → Type 0
IsWord (word n) = n < 2 ^ 64
IsWord (text cs) = Unit

take_text-IsWord :
    (args args' : List Arg) → All IsWord args → take_text args ≡ some args' → All IsWord args'
take_text-IsWord [] args' words e = absurd (ground arith)
take_text-IsWord (word n ∷ args) args' words e = absurd (ground arith)
take_text-IsWord (text cs ∷ args) args' words e = subst (All IsWord) (ground arith) words.1

take_word-IsWord :
    (args args' : List Arg) → All IsWord args → take_word args ≡ some args' → All IsWord args'
take_word-IsWord [] args' words e = absurd (ground arith)
take_word-IsWord (text cs ∷ args) args' words e = absurd (ground arith)
take_word-IsWord (word n ∷ args) args' words e = subst (All IsWord) (ground arith) words.1

take_int-IsWord :
    (args args' : List Arg) → All IsWord args → take_int args ≡ some args' → All IsWord args'
take_int-IsWord [] args' words e = absurd (ground arith)
take_int-IsWord (text cs ∷ args) args' words e = absurd (ground arith)
take_int-IsWord (word n ∷ args) args' words e =
    let same : args ≡ args' = ground arith in subst (All IsWord) same words.1

-- what is left of the arguments are words and texts too
pub takes-IsWord :
    (c : ℕ) (args args' : List Arg) → All IsWord args → takes c args ≡ some args' → All IsWord args'
unfolding takes
takes-IsWord c args args' words e = elim (Bool-cases (c == 115)) [
  | inl b ↦ take_text-IsWord args args' words (ground arith)
  | inr b ↦ elim (Bool-cases (is_int c)) [
    | inl i ↦ take_int-IsWord args args' words (ground arith)
    | inr i ↦ elim (Bool-cases (takes_word c)) [
      | inl w ↦ take_word-IsWord args args' words (ground arith)
      | inr w ↦ let same : args ≡ args' = ground arith in subst (All IsWord) same words
    ]
  ]
]

va_word-IsWord :
    (args : List Arg) (r : ℕ × List Arg) → All IsWord args → va_word args ≡ some r → All IsWord r.1
va_word-IsWord [] r words e = absurd (ground arith)
va_word-IsWord (text cs ∷ args) r words e = absurd (ground arith)
va_word-IsWord (word n ∷ args) r words e =
    let same : args ≡ r.1 = ground arith in subst (All IsWord) same words.1

parse_width-IsWord :
    (s : Spec) (fmt : List ℕ) (args : List Arg) (k : Cursor)
    → All IsWord args
    → parse_width s fmt args ≡ some k
    → All IsWord k.args
unfolding parse_width
parse_width-IsWord s [] args k words e =
    let same : args ≡ k.args = ground arith in subst (All IsWord) same words
parse_width-IsWord s (c ∷ cs) args k words e = elim (Bool-cases (c == 42)) [
  | inr b ↦ elim (Option-cases (parse_num 0 (c ∷ cs))) [
    | inl n ↦ let same : args ≡ k.args = ground arith in subst (All IsWord) same words
    | inr (r, n) ↦ let same : args ≡ k.args = ground arith in subst (All IsWord) same words
  ]
  | inl b ↦ elim (Option-cases (va_word args)) [
    | inl v ↦ absurd (ground arith)
    | inr (r, v) ↦
        let same : r.1 ≡ k.args = ground arith in
        subst (All IsWord) same (va_word-IsWord args r words v)
  ]
]

parse_dot-IsWord :
    (s : Spec) (fmt : List ℕ) (args : List Arg) (k : Cursor)
    → All IsWord args
    → parse_dot s fmt args ≡ some k
    → All IsWord k.args
unfolding parse_dot
parse_dot-IsWord s [] args k words e =
    let same : args ≡ k.args = ground arith in subst (All IsWord) same words
parse_dot-IsWord s (c ∷ cs) args k words e = elim (Bool-cases (c == 42)) [
  | inr b ↦ elim (Option-cases (parse_num 0 (c ∷ cs))) [
    | inl n ↦ let same : args ≡ k.args = ground arith in subst (All IsWord) same words
    | inr (r, n) ↦ let same : args ≡ k.args = ground arith in subst (All IsWord) same words
  ]
  | inl b ↦ elim (Option-cases (va_word args)) [
    | inl v ↦ absurd (ground arith)
    | inr (r, v) ↦
        let same : r.1 ≡ k.args = ground arith in
        subst (All IsWord) same (va_word-IsWord args r words v)
  ]
]

parse_percision-IsWord :
    (s : Spec) (fmt : List ℕ) (args : List Arg) (k : Cursor)
    → All IsWord args
    → parse_percision s fmt args ≡ some k
    → All IsWord k.args
unfolding parse_percision
parse_percision-IsWord s [] args k words e =
    let same : args ≡ k.args = ground arith in subst (All IsWord) same words
parse_percision-IsWord s (c ∷ cs) args k words e = elim (Bool-cases (c == 46)) [
  | inl b ↦ parse_dot-IsWord s cs args k words (ground arith)
  | inr b ↦ let same : args ≡ k.args = ground arith in subst (All IsWord) same words
]

pub parse_spec-IsWord :
    (fmt : List ℕ) (args : List Arg) (k : Cursor)
    → All IsWord args
    → parse_spec fmt args ≡ some k
    → All IsWord k.args
unfolding parse_spec
parse_spec-IsWord fmt args k words e =
    let r = parse_flags no_flags fmt in
    let s : Spec = record { flags = r.0; width = none; percision = 0; length = 0 } in
    elim (Option-cases (parse_width s r.1 args)) [
      | inl e1 ↦ absurd (ground arith)
      | inr (k1, e1) ↦
          let words1 = parse_width-IsWord s r.1 args k1 words e1 in
          elim (Option-cases (parse_percision k1.spec k1.fmt k1.args)) [
            | inl e2 ↦ absurd (ground arith)
            | inr (k2, e2) ↦
                let same : k2.args ≡ k.args = ground arith in
                subst (All IsWord) same (parse_percision-IsWord k1.spec k1.fmt k1.args k2 words1 e2)
          ]
    ]

-- The parser does not set the flag SIGNED.
parse_flags-unsigned :
    (flags : Flags) (cs : List ℕ) → flags.signed ≡ false → (parse_flags flags cs).0.signed ≡ false
unfolding parse_flags
parse_flags-unsigned flags [] h = h
parse_flags-unsigned flags (c ∷ cs) h =
    let a = parse_flags-unsigned (record flags { zeropad = true }) cs h in
    let b = parse_flags-unsigned (record flags { splus = true }) cs h in
    let d = parse_flags-unsigned (record flags { fplus = true }) cs h in
    let e = parse_flags-unsigned (record flags { prefix = true }) cs h in
    let g = parse_flags-unsigned (record flags { left = true }) cs h in
    ground (arith, a, b, d, e, g, h)

parse_width-signed :
    (s : Spec) (fmt : List ℕ) (args : List Arg) (k : Cursor)
    → parse_width s fmt args ≡ some k
    → k.spec.flags.signed ≡ s.flags.signed
unfolding parse_width
parse_width-signed s [] args k e = ground arith
parse_width-signed s (c ∷ cs) args k e = ground (arith, e)

parse_dot-signed :
    (s : Spec) (fmt : List ℕ) (args : List Arg) (k : Cursor)
    → parse_dot s fmt args ≡ some k
    → k.spec.flags.signed ≡ s.flags.signed
unfolding parse_dot
parse_dot-signed s [] args k e = ground arith
parse_dot-signed s (c ∷ cs) args k e = ground (arith, e)

parse_percision-signed :
    (s : Spec) (fmt : List ℕ) (args : List Arg) (k : Cursor)
    → parse_percision s fmt args ≡ some k
    → k.spec.flags.signed ≡ s.flags.signed
unfolding parse_percision
parse_percision-signed s [] args k e = ground arith
parse_percision-signed s (c ∷ cs) args k e =
    let d = parse_dot-signed s cs args k in ground (arith, d, e)

parse_length-signed :
    (s : Spec) (fmt : List ℕ) → (parse_length s fmt).0.flags.signed ≡ s.flags.signed
unfolding parse_length
parse_length-signed s [] = refl
parse_length-signed s (c ∷ cs) = ground arith

pub parse_spec-unsigned :
    (fmt : List ℕ) (args : List Arg) (k : Cursor)
    → parse_spec fmt args ≡ some k
    → k.spec.flags.signed ≡ false
unfolding parse_spec
parse_spec-unsigned fmt args k e =
    let r = parse_flags no_flags fmt in
    let s : Spec = record { flags = r.0; width = none; percision = 0; length = 0 } in
    let u = parse_flags-unsigned no_flags fmt refl in
    elim (Option-cases (parse_width s r.1 args)) [
      | inl e1 ↦ absurd (ground arith)
      | inr (k1, e1) ↦
          let u1 = parse_width-signed s r.1 args k1 e1 in
          elim (Option-cases (parse_percision k1.spec k1.fmt k1.args)) [
            | inl e2 ↦ absurd (ground arith)
            | inr (k2, e2) ↦
                let u2 = parse_percision-signed k1.spec k1.fmt k1.args k2 e2 in
                let u3 = parse_length-signed k2.spec k2.fmt in ground (arith, u, u1, u2, u3)
          ]
    ]
