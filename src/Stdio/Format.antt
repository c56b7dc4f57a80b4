-- ===== src/Stdio/Format.antt =====
-- lib/ebl/stdio.cc, `is_digit`, `parse_num` and `ssprintf`. A format is the characters before its
-- terminator, a variable argument is a machine word or the characters of a string, and an int is
-- read from the low 32 bits of its word.
use cxkernel.Base.{
  ℕ, ◌+◌, ◌-◌, ◌*◌, ◌%◌, ◌^◌, Bool, true, false, ◌&&◌, ◌||◌, Option, none, some, List, [], ◌∷◌,
  ◌==◌, ltb, leb, if◌then◌else◌,
}
use cxkernel.Stdio.{Flags}

pub data Arg : Type 0 where
  word : ℕ → Arg
  text : List ℕ → Arg

-- `is_digit`
abbrev pub is_digit : ℕ → Bool
is_digit c = leb 48 c && leb c 57

-- `parse_num`: the number so far, and what follows its digits; `none` is an int that overflows.
unfoldable pub parse_num : ℕ → List ℕ → Option (ℕ × List ℕ)
parse_num n [] = some (n, [])
parse_num n (c ∷ cs) =
    let rest = parse_num (n * 10 + c - 48) cs in
    if is_digit c then (if ltb (n * 10 + c) (2 ^ 31) then rest else none) else some (n, c ∷ cs)

-- The flags of one conversion (the code's `repeat` label).
unfoldable pub parse_flags : Flags → List ℕ → Flags × List ℕ
parse_flags flags [] = (flags, [])
parse_flags flags (c ∷ cs) =
    if c == 48
    then parse_flags (record flags { zeropad = true }) cs
    else if c == 32
    then parse_flags (record flags { splus = true }) cs
    else if c == 43
    then parse_flags (record flags { fplus = true }) cs
    else if c == 35
    then parse_flags (record flags { prefix = true }) cs
    else if c == 45
    then parse_flags (record flags { left = true }) cs
    else (flags, c ∷ cs)

-- One conversion: its flags, its width (`none` is the -1 that stands for no width), its
-- precision (0 also where the code has -1), its length letter (0 for none).
pub record Spec : Type 0 where
  pub flags : Flags
  pub width : Option ℕ
  pub percision : ℕ
  pub length : ℕ

abbrev pub no_flags : Flags
no_flags = record {
  signed = false;
  zeropad = false;
  fplus = false;
  splus = false;
  prefix = false;
  small = false;
  left = false;
}

-- where the parser stands: the conversion so far, the rest of the format, the arguments left
pub record Cursor : Type 0 where
  pub spec : Spec
  pub fmt : List ℕ
  pub args : List Arg

-- `va_arg` of a word; reading a string as a word, or past the last argument, is undefined.
abbrev pub va_word : List Arg → Option (ℕ × List Arg)
va_word [] = none
va_word (word n ∷ args) = some (n, args)
va_word (text cs ∷ args) = none

-- The least int, whose opposite overflows.
abbrev pub least_int : ℕ → Bool
least_int n = n % 2 ^ 32 == 2 ^ 31

-- The value of an int: its absolute value and whether it is negative.
abbrev pub int_negative : ℕ → Bool
int_negative n = leb (2 ^ 31) (n % 2 ^ 32)

abbrev pub int_magnitude : ℕ → ℕ
int_magnitude n = if int_negative n then 2 ^ 32 - n % 2 ^ 32 else n % 2 ^ 32

abbrev pub star_width : Spec → ℕ → Spec
star_width s n = record s {
  width = some (int_magnitude n);
  flags = record s.flags { left = int_negative n || s.flags.left };
}

-- From here on `none` is undefined behaviour: an argument that is missing or a string, or an int that
-- overflows.
unfoldable pub parse_width : Spec → List ℕ → List Arg → Option Cursor
parse_width s [] args = some (record { spec = s; fmt = []; args = args })
parse_width s (c ∷ cs) args =
    if c == 42
    then elim (va_word args) [
      | none ↦ none
      | some r ↦
          if least_int r.0
          then none
          else some (record { spec = star_width s r.0; fmt = cs; args = r.1 })
    ]
    else if is_digit c
    then elim (parse_num 0 (c ∷ cs)) [
      | none ↦ none
      | some r ↦ some (record { spec = record s { width = some r.0 }; fmt = r.1; args = args })
    ]
    else some (record { spec = s; fmt = c ∷ cs; args = args })

-- what follows the dot
unfoldable pub parse_dot : Spec → List ℕ → List Arg → Option Cursor
parse_dot s [] args = some (record { spec = s; fmt = []; args = args })
parse_dot s (c ∷ cs) args =
    if c == 42
    then elim (va_word args) [
      | none ↦ none
      | some r ↦ some (record {
        spec = record s { percision = if int_negative r.0 then 0 else int_magnitude r.0 };
        fmt = cs;
        args = r.1;
      })
    ]
    else if is_digit c
    then elim (parse_num 0 (c ∷ cs)) [
      | none ↦ none
      | some r ↦ some (record { spec = record s { percision = r.0 }; fmt = r.1; args = args })
    ]
    else some (record { spec = s; fmt = c ∷ cs; args = args })

unfoldable pub parse_percision : Spec → List ℕ → List Arg → Option Cursor
parse_percision s [] args = some (record { spec = s; fmt = []; args = args })
parse_percision s (c ∷ cs) args =
    if c == 46 then parse_dot s cs args else some (record { spec = s; fmt = c ∷ cs; args = args })

-- the length letter, and a second l after it
unfoldable pub skip_l : List ℕ → List ℕ
skip_l [] = []
skip_l (c ∷ cs) = if c == 108 then cs else c ∷ cs

unfoldable pub parse_length : Spec → List ℕ → Spec × List ℕ
parse_length s [] = (s, [])
parse_length s (c ∷ cs) =
    if ((c == 104) || (c == 108)) || (c == 76)
    then (record s { length = c }, skip_l cs)
    else (s, c ∷ cs)

-- All that stands between the percent sign and the type.
unfoldable pub parse_spec : List ℕ → List Arg → Option Cursor
parse_spec fmt args =
    let r = parse_flags no_flags fmt in
    elim (parse_width (record { flags = r.0; width = none; percision = 0; length = 0 }) r.1 args) [
      | none ↦ none
      | some k ↦ elim (parse_percision k.spec k.fmt k.args) [
        | none ↦ none
        | some k' ↦
            let l = parse_length k'.spec k'.fmt in
            some (record { spec = l.0; fmt = l.1; args = k'.args })
      ]
    ]
