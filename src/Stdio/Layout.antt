-- ===== src/Stdio/Layout.antt =====
-- What characters `num` of lib/ebl/stdio.cc writes around its digits, and in which order.
use cxkernel.Base.{
  ℕ, zero, suc, ◌+◌, ◌-◌, ◌≡◌, refl, Bool, true, false, not, ◌&&◌, List, [], ◌∷◌, ◌++◌, ◌==◌,
  if◌then◌else◌, length, ap, ◌∙◌, sym, reverse,
}
use mathlib.Core.List.{append_assoc, append-nil}
use cxkernel.Stdio.{
  Out, Flags, f, pad, put_digits, prefix_width, sign_width, sign, put_sign, put_prefix, layout,
}

-- `w` times the character
unfoldable pub copies : ℕ → ℕ → List ℕ
copies zero c = []
copies (suc w) c = c ∷ copies w c

abbrev pub sign_text : ℕ → Flags → List ℕ
sign_text n flags = if sign n flags == 0 then [] else sign n flags ∷ []

abbrev pub prefix_text : ℕ → Flags → List ℕ
prefix_text base flags =
    if flags.prefix && (base == 16)
    then 48 ∷ (if flags.small then 120 else 88) ∷ []
    else if flags.prefix && (base == 8)
    then 48 ∷ []
    else []

-- The printed number: spaces up to the width, the sign, the prefix, the zeros of the precision, zeros
-- up to the width, the digits from the most significant one on, and spaces up to the width.
abbrev pub num_text : List ℕ → ℕ → ℕ → Flags → ℕ → ℕ → List ℕ
num_text str n base flags width percision =
    let w = width - (length str + (prefix_width base flags + sign_width n flags)) in
    (if not flags.zeropad && not flags.left then copies w 32 else [])
    ++ (sign_text n flags
        ++ (prefix_text base flags
            ++ (copies percision 48
                ++ ((if flags.zeropad then copies w 48 else [])
                    ++ (reverse str
                        ++ (if not flags.zeropad && flags.left then copies w 32 else []))))))

-- The text of `o'` is that of `o` and then `cs`.
pub record Appends (cs : List ℕ) (o o' : Out) : Type 0 where
  pub text : o'.text ≡ o.text ++ cs

prepend : {cs ds : List ℕ} {a b c : Out} → Appends cs a b → Appends ds b c → Appends (cs ++ ds) a c
prepend {cs} {ds} {a} {b} {c} x y = record {
  text = y.text ∙ ap (λ t. t ++ ds) x.text ∙ append_assoc a.text cs ds;
}

f-Appends : (c : ℕ) (o : Out) → Appends (c ∷ []) o (f c o)
unfolding f
f-Appends c o = record { text = refl }

none-Appends : (o : Out) → Appends [] o o
none-Appends o = record { text = sym (append-nil o.text) }

pad-Appends : (w c : ℕ) (o : Out) → Appends (copies w c) o (pad w c o)
unfolding pad copies
pad-Appends zero c o = none-Appends o
pad-Appends (suc w) c o = prepend (f-Appends c o) (pad-Appends w c (f c o))

put_digits-Appends : (cs : List ℕ) (o : Out) → Appends cs o (put_digits cs o)
unfolding put_digits
put_digits-Appends [] o = none-Appends o
put_digits-Appends (c ∷ cs) o = prepend (f-Appends c o) (put_digits-Appends cs (f c o))

if-Appends :
    (b : Bool) {cs ds : List ℕ} {o p q : Out}
    → Appends cs o p
    → Appends ds o q
    → Appends (if b then cs else ds) o (if b then p else q)
if-Appends true x y = x
if-Appends false x y = y

put_prefix-Appends :
    (base : ℕ) (flags : Flags) (o : Out)
    → Appends (prefix_text base flags) o (put_prefix base flags o)
unfolding put_prefix
put_prefix-Appends base flags o =
    let x = if flags.small then 120 else 88 in
    if-Appends (flags.prefix && (base == 16)) (prepend (f-Appends 48 o) (f-Appends x (f 48 o)))
      (if-Appends (flags.prefix && (base == 8)) (f-Appends 48 o) (none-Appends o))

pub layout-Appends :
    (str : List ℕ) (n base : ℕ) (flags : Flags) (width percision : ℕ) (o : Out)
    → Appends
        (num_text str n base flags width percision)
        o
        (layout str n base flags width percision o)
unfolding layout put_sign
layout-Appends str n base flags width percision o =
    let w = width - (length str + (prefix_width base flags + sign_width n flags)) in
    let one = not flags.zeropad && not flags.left in
    let two = not flags.zeropad && flags.left in
    let s = sign n flags in
    let o1 = if one then pad w 32 o else o in
    let o2 = put_sign s o1 in
    let o3 = put_prefix base flags o2 in
    let o4 = pad percision 48 o3 in
    let o5 = if flags.zeropad then pad w 48 o4 else o4 in
    let o6 = put_digits (reverse str) o5 in
    let o7 = if two then pad w 32 o6 else o6 in
    let a1 = if-Appends one (pad-Appends w 32 o) (none-Appends o) in
    let a2 = if-Appends (s == 0) (none-Appends o1) (f-Appends s o1) in
    let a5 = if-Appends flags.zeropad (pad-Appends w 48 o4) (none-Appends o4) in
    let a7 = if-Appends two (pad-Appends w 32 o6) (none-Appends o6) in
    prepend a1 (
      prepend a2 (
        prepend (put_prefix-Appends base flags o2) (
          prepend (pad-Appends percision 48 o3)
            (prepend a5 (prepend (put_digits-Appends (reverse str) o5) a7)))))
