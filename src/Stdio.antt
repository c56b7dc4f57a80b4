-- ===== src/Stdio.antt =====
-- lib/ebl/stdio.cc, the printing of one number: `f`, `num` and the loops in it. The characters that
-- the callback is given are kept in order.
pub mod Digits
pub mod Layout
pub mod Width
pub mod Format
pub mod Print
pub mod Streams
mod Tests
use cxkernel.Base.{
  ℕ, zero, suc, ◌+◌, ◌-◌, ◌*◌, ◌/◌, ◌%◌, ◌^◌, Bool, true, false, not, ◌&&◌, ◌||◌, Option, none,
  some, List, [], ◌∷◌, ◌++◌, ◌==◌, ltb, leb, if◌then◌else◌, length, reverse,
}

-- What has been written: the characters, their number, which the code counts in an int and which is
-- that int below 2^31, and the stores of `%n`.
pub record Out : Type 0 where
  pub text : List ℕ
  pub written : ℕ
  pub stores : List (ℕ × ℕ)

-- the flag bits of a conversion
pub record Flags : Type 0 where
  pub signed : Bool
  pub zeropad : Bool
  pub fplus : Bool
  pub splus : Bool
  pub prefix : Bool
  pub small : Bool
  pub left : Bool

-- `written += f(g, c, buf)`
unfoldable pub f : ℕ → Out → Out
f c o = record o { text = o.text ++ c ∷ []; written = o.written + 1 }

-- `while(w-- > 0) written += f(g, c, buf)`
unfoldable pub pad : ℕ → ℕ → Out → Out
pad zero c o = o
pad (suc w) c o = pad w c (f c o)

-- The loop over the digits, which are given in the order of writing.
unfoldable pub put_digits : List ℕ → Out → Out
put_digits [] o = o
put_digits (c ∷ cs) o = put_digits cs (f c o)

-- An entry of `base_str`.
unfoldable pub base_str : Bool → ℕ → ℕ
base_str small d = if ltb d 10 then 48 + d else if small then 87 + d else 55 + d

-- The base conversion into the first `room` places of `str`; `none` is a digit past them.
unfoldable pub convert_base : ℕ → Bool → ℕ → ℕ → Option (List ℕ)
convert_base zero small base divide = if divide == 0 then some [] else none
convert_base (suc room) small base divide =
    let rest = convert_base room small base (divide / base) in
    if divide == 0
    then some []
    else elim rest [ none ↦ none | some ds ↦ some (base_str small (divide % base) ∷ ds) ]

abbrev pub negative : ℕ → Bool
negative n = leb (2 ^ 63) n

-- the absolute value that is converted, where `-num` does not overflow
unfoldable pub magnitude : ℕ → Flags → ℕ
magnitude n flags = if negative n && flags.signed then 2 ^ 64 - n else n

-- the characters of the prefix and of the sign that the width counts
unfoldable pub prefix_width : ℕ → Flags → ℕ
prefix_width base flags =
    if flags.prefix && (base == 16) then 2 else if flags.prefix && (base == 8) then 1 else 0

unfoldable pub sign_width : ℕ → Flags → ℕ
sign_width n flags =
    if ((flags.signed && negative n) || (flags.signed && flags.fplus))
      || (flags.signed && flags.splus)
    then 1
    else 0

-- the sign that is written, 0 for none
unfoldable pub sign : ℕ → Flags → ℕ
sign n flags =
    if not (negative n) && flags.splus
    then 32
    else if not (negative n) && flags.fplus
    then 43
    else if negative n && flags.signed
    then 45
    else 0

unfoldable pub put_sign : ℕ → Out → Out
put_sign s o = if s == 0 then o else f s o

unfoldable pub put_prefix : ℕ → Flags → Out → Out
put_prefix base flags o =
    if flags.prefix && (base == 16)
    then f (if flags.small then 120 else 88) (f 48 o)
    else if flags.prefix && (base == 8)
    then f 48 o
    else o

-- what is written once the digits are known
unfoldable pub layout : List ℕ → ℕ → ℕ → Flags → ℕ → ℕ → Out → Out
layout str n base flags width percision o =
    let w = width - (length str + (prefix_width base flags + sign_width n flags)) in
    let spaced = if not flags.zeropad && not flags.left then pad w 32 o else o in
    let signed = put_prefix base flags (put_sign (sign n flags) spaced) in
    let zeros = pad percision 48 signed in
    let padded = if flags.zeropad then pad w 48 zeros else zeros in
    let written = put_digits (reverse str) padded in
    if not flags.zeropad && flags.left then pad w 32 written else written

-- the least long long, whose opposite overflows
abbrev pub overflows : ℕ → Flags → Bool
overflows n flags = flags.signed && n == 2 ^ 63

-- `num`; `none` is undefined: `-num` overflows, or a digit is past the buffer. A width or a precision
-- of -1 is the same as 0 here.
unfoldable pub num : Out → ℕ → ℕ → Flags → ℕ → ℕ → Option Out
num o n base flags width percision =
    if overflows n flags
    then none
    else elim (convert_base 22 flags.small base (magnitude n flags)) [
      | none ↦ none
      | some ds ↦ some (layout (if n == 0 then 48 ∷ [] else ds) n base flags width percision o)
    ]
