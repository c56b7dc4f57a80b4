-- ===== src/Text/Tests.antt =====
-- Runs of lib/ebl/string.cc on a memory with the string "ab" at 16.
use cxkernel.Base.{◌≡◌, ◌<◌, refl, some, arith, ℕ, ◌+◌, ◌==◌, if◌then◌else◌, inr}
use cxkernel.Text.{Memory, memmove, strcpy, strstr}
use cxkernel.Text.Search.{IsAnswer, strstr-IsAnswer}
use cxkernel.Text.Copy.{IsCopy, memmove-IsCopy}
use cxkernel.Text.Length.{IsString}
use cxkernel.Text.Compare.{strcpy-no_terminator}

abbrev bytes : Memory
bytes p =
    if p == 16
    then 97
    else if p == 17
    then 98
    else if p == 32
    then 97
    else if p == 33
    then 98
    else 0

bytes-lt : (a : ℕ) → bytes a < 256
bytes-lt a = ground arith

first : IsString bytes 16 2
first = record { bytes = bytes-lt; chars = λ i h. ground arith; ends = refl }

-- "b", the end of the first string
tail : IsString bytes 17 1
tail = record { bytes = bytes-lt; chars = λ i h. ground arith; ends = refl }

memmove_example : IsCopy bytes 17 16 3 (memmove bytes 17 16 3)
memmove_example = memmove-IsCopy bytes 17 16 3

strcpy_example :
    (m' : Memory) × (strcpy 4 bytes 48 16 ≡ some m')
    × IsCopy bytes 48 16 2 m'
    × (m' (48 + 2) ≡ bytes (48 + 2))
strcpy_example = strcpy-no_terminator bytes 48 16 2 4 first (omega arith) (inr (omega arith))

strstr_example : (r : ℕ) × (strstr 4 bytes 16 17 ≡ some r) × IsAnswer bytes 16 2 17 1 r
strstr_example =
    strstr-IsAnswer bytes 16 17 2 1 4 first tail (omega arith) (omega arith) (omega arith)
