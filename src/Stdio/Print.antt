-- ===== src/Stdio/Print.antt =====
-- lib/ebl/stdio.cc, the conversions and the loop of `ssprintf`.
pub mod Plain
pub mod Taken
pub mod Typed
use cxkernel.Base.{
  ℕ, zero, suc, ◌+◌, ◌-◌, ◌*◌, ◌%◌, ◌^◌, Bool, true, false, not, ◌&&◌, ◌||◌, Option, none, some,
  List, [], ◌∷◌, ◌++◌, ◌==◌, ltb, leb, if◌then◌else◌, length,
}
use cxkernel.Stdio.{Out, Flags, f, pad, put_digits, num}
use cxkernel.Stdio.Format.{Arg, word, text, Spec, Cursor, va_word, parse_spec}

-- A conversion writes and takes its arguments, is refused (-1), or its behaviour is undefined.
pub data Converted : Type 0 where
  wrote : Out → List Arg → Converted
  refused undefined : Converted

-- a width, with 0 for the -1 of no width
abbrev pub width_or_0 : Option ℕ → ℕ
width_or_0 none = 0
width_or_0 (some w) = w

-- `case 's'`, with the characters written by the loop that also writes digits
unfoldable pub print_text : Spec → List ℕ → Out → Out
print_text s cs o =
    let w = width_or_0 s.width - length cs in
    if s.flags.left then pad w 32 (put_digits cs o) else put_digits cs (pad w 32 o)

-- `case 'c'`
unfoldable pub print_char : Spec → ℕ → Out → Out
print_char s n o =
    let w = width_or_0 s.width - 1 in
    if s.flags.left then pad w 32 (f (n % 2 ^ 8) o) else f (n % 2 ^ 8) (pad w 32 o)

-- the value of an unsigned conversion
abbrev pub unsigned_value : ℕ → ℕ → ℕ
unsigned_value len n = if len == 108 then n else if len == 104 then n % 2 ^ 16 else n % 2 ^ 32

-- the 64-bit pattern of a signed conversion's value
abbrev pub signed_value : ℕ → ℕ → ℕ
signed_value len n =
    if len == 104
    then (if leb (2 ^ 15) (n % 2 ^ 16) then n % 2 ^ 16 + 2 ^ 64 - 2 ^ 16 else n % 2 ^ 16)
    else n

-- the call of `num`
unfoldable pub print_num : Spec → Flags → ℕ → ℕ → Option ℕ → List Arg → Out → Converted
print_num s flags base n width args o = elim (num o n base flags (width_or_0 width) s.percision) [
  | none ↦ undefined
  | some o' ↦ wrote o' args
]

-- `case 'p'`
unfoldable pub print_pointer : Spec → ℕ → List Arg → Out → Converted
print_pointer s n args o = elim (s.width) [
  | none ↦ print_num s (record s.flags { zeropad = true }) 16 n (some 8) args o
  | some w ↦ print_num s s.flags 16 n (some w) args o
]

-- the cases that take a word
unfoldable pub print_word : ℕ → Spec → ℕ → List Arg → Out → Converted
print_word c s n args o =
    let v = unsigned_value s.length n in
    if c == 99
    then wrote (print_char s n o) args
    else if c == 120
    then print_num s (record s.flags { small = true }) 16 v s.width args o
    else if c == 88
    then print_num s s.flags 16 v s.width args o
    else if c == 111
    then print_num s s.flags 8 v s.width args o
    else if c == 117
    then print_num s s.flags 10 v s.width args o
    else if c == 112
    then print_pointer s n args o
    else if (c == 105) || (c == 100)
    then print_num s (record s.flags { signed = true }) 10 (signed_value s.length n) s.width args o
    else wrote (record o { stores = (n, o.written) ∷ o.stores }) args

abbrev pub takes_word : ℕ → Bool
takes_word c =
    ((c == 99)
      || (c == 120)
      || (c == 88)
      || (c == 111)
      || (c == 117)
      || (c == 112)
      || (c == 105)
      || (c == 100)
      || (c == 110))

abbrev pub print_string : Spec → List Arg → Out → Converted
print_string s [] o = undefined
print_string s (word n ∷ args) o = undefined
print_string s (text cs ∷ args) o = wrote (print_text s cs o) args

-- the switch on the type
unfoldable pub convert : ℕ → Spec → List Arg → Out → Converted
convert c s args o =
    if c == 115
    then print_string s args o
    else if takes_word c
    then elim (va_word args) [ none ↦ undefined | some r ↦ print_word c s r.0 r.1 o ]
    else if c == 37
    then wrote (f 37 o) args
    else refused

-- `ssprintf`: what is left when it returns, what was written before the -1 of an unknown type, undefined behaviour, or
-- fuel that was not enough.
pub data Printed : Type 0 where
  returned : Out → Printed
  failed : Out → Printed
  stuck out_of_fuel : Printed

unfoldable pub ssprintf : ℕ → List ℕ → List Arg → Out → Printed
ssprintf zero fmt args o = out_of_fuel
ssprintf (suc fuel) [] args o = returned o
ssprintf (suc fuel) (c ∷ cs) args o = elim (c == 37) [
  | false ↦ ssprintf fuel cs args (f c o)
  | true ↦ elim (parse_spec cs args) [
    | none ↦ stuck
    | some k ↦ elim (k.fmt) [
      | [] ↦ failed o
      | t ∷ rest ↦ elim (convert t k.spec k.args o) [
        | wrote o' args' ↦ ssprintf fuel rest args' o'
        | refused ↦ failed o
        | undefined ↦ stuck
      ]
    ]
  ]
]
