-- ===== src/Text.antt =====
-- lib/ebl/string.cc: memory and string functions over a memory of bytes.
pub mod Copy
pub mod Zero
pub mod Length
pub mod Compare
pub mod Search
mod Tests
use cxkernel.Base.{
  ℕ, zero, suc, ◌+◌, ◌-◌, ◌*◌, ◌/◌, ◌%◌, ◌^◌, Bool, true, false, not, ◌&&◌, ◌||◌, ℤ, pos, negsuc,
  sub_ℕ, Option, none, some, ◌==◌, ltb, if◌then◌else◌, bit_and,
}
use cxkernel.Bits.{u8, u64, sub64, not64}

-- the byte at each address
abbrev pub Memory : Type 0
Memory = ℕ → ℕ

abbrev pub poke : Memory → ℕ → ℕ → Memory
poke m p v q = if q == p then v else m q

-- `while(len--) *d++ = *s++`
unfoldable pub copy_up : Memory → ℕ → ℕ → ℕ → Memory
copy_up m d s zero = m
copy_up m d s (suc len) = copy_up (poke m d (m s)) (d + 1) (s + 1) len

-- `while(len--) *lastd-- = *lasts--`
unfoldable pub copy_down : Memory → ℕ → ℕ → ℕ → Memory
copy_down m lastd lasts zero = m
copy_down m lastd lasts (suc len) = copy_down (poke m lastd (m lasts)) (lastd - 1) (lasts - 1) len

unfoldable pub memcpy : Memory → ℕ → ℕ → ℕ → Memory
unfolding copy_up
memcpy m dest src len = copy_up m dest src len

unfoldable pub memmove : Memory → ℕ → ℕ → ℕ → Memory
unfolding copy_up copy_down
memmove m dest src len =
    if ltb dest src
    then copy_up m dest src len
    else copy_down m (dest + (len - 1)) (src + (len - 1)) len

unfoldable pub memset : Memory → ℕ → ℕ → ℕ → Memory
memset m dest c zero = m
memset m dest c (suc len) = memset (poke m dest (u8 c)) (dest + 1) c len

-- the little-endian word of `n` bytes
abbrev pub word : ℕ → Memory → ℕ → ℕ
word zero m p = 0
word (suc n) m p = m p + 256 * word n m (p + 1)

abbrev pub himagic : ℕ
himagic = 0x8080808080808080

abbrev pub lomagic : ℕ
lomagic = 0x0101010101010101

-- `((longword - lomagic) & ~longword & himagic) != 0`
unfoldable pub has_zero : ℕ → Bool
has_zero longword = not (bit_and (bit_and (sub64 longword lomagic) (not64 longword)) himagic == 0)

-- the first of the eight bytes at `cp` that is 0
unfoldable pub zero_byte : Memory → ℕ → Option ℕ
zero_byte m cp =
    if m cp == 0
    then some 0
    else if m (cp + 1) == 0
    then some 1
    else if m (cp + 2) == 0
    then some 2
    else if m (cp + 3) == 0
    then some 3
    else if m (cp + 4) == 0
    then some 4
    else if m (cp + 5) == 0
    then some 5
    else if m (cp + 6) == 0
    then some 6
    else if m (cp + 7) == 0
    then some 7
    else none

-- the loop over words; `none` if the fuel runs out
unfoldable pub word_loop : ℕ → Memory → ℕ → ℕ → Option ℕ
word_loop zero m str ptr = none
word_loop (suc fuel) m str ptr =
    let next = word_loop fuel m str (ptr + 8) in
    if has_zero (word 8 m ptr)
    then elim (zero_byte m ptr) [ some i ↦ some (ptr - str + i) | none ↦ next ]
    else next

-- the loop up to an aligned address, and the words behind it
unfoldable pub strlen_from : ℕ → Memory → ℕ → ℕ → Option ℕ
unfolding word_loop
strlen_from zero m str ptr = none
strlen_from (suc fuel) m str ptr =
    let next = strlen_from fuel m str (ptr + 1) in
    if ptr % 8 == 0 then word_loop fuel m str ptr else if m ptr == 0 then some (ptr - str) else next

unfoldable pub strlen : ℕ → Memory → ℕ → Option ℕ
unfolding strlen_from
strlen fuel m str = strlen_from fuel m str str

-- The results of the comparisons are `int`s, differences of unsigned bytes.
unfoldable pub memcmp : Memory → ℕ → ℕ → ℕ → ℤ
memcmp m p1 p2 zero = pos 0
memcmp m p1 p2 (suc len) =
    let rest = memcmp m (p1 + 1) (p2 + 1) len in
    if not (m p1 == m p2) then sub_ℕ (m p1) (m p2) else rest

-- `none` if the fuel runs out
unfoldable pub strcmp : ℕ → Memory → ℕ → ℕ → Option ℤ
strcmp zero m str1 str2 = none
strcmp (suc fuel) m str1 str2 =
    let rest = strcmp fuel m (str1 + 1) (str2 + 1) in
    if not (m str1 == 0) && m str1 == m str2 then rest else some (sub_ℕ (m str1) (m str2))

unfoldable pub strncmp : Memory → ℕ → ℕ → ℕ → ℤ
strncmp m s1 s2 zero = pos 0
strncmp m s1 s2 (suc n) =
    let rest = strncmp m (s1 + 1) (s2 + 1) n in
    if not (m s1 == m s2) then sub_ℕ (m s1) (m s2) else if m s1 == 0 then pos 0 else rest

-- `some 0` is the null pointer; `none` if the fuel runs out
unfoldable pub strchr : ℕ → Memory → ℕ → ℕ → Option ℕ
strchr zero m s c = none
strchr (suc fuel) m s c =
    let rest = strchr fuel m (s + 1) c in
    if m s == u8 c then some s else if m s == 0 then some 0 else rest

abbrev pub is_zero : ℤ → Bool
is_zero (pos zero) = true
is_zero (pos (suc n)) = false
is_zero (negsuc n) = false

-- The loop of `strstr` from `p` on, with the length of `s2`; the first fuel is for its turns.
unfoldable pub strstr_loop : ℕ → ℕ → Memory → ℕ → ℕ → ℕ → Option ℕ
unfolding strchr strncmp
strstr_loop zero inner m p s2 len = none
strstr_loop (suc fuel) inner m p s2 len = elim (strchr inner m p (m s2)) [
  | none ↦ none
  | some q ↦
      let rest = strstr_loop fuel inner m (q + 1) s2 len in
      if q == 0 then some 0 else if is_zero (strncmp m q s2 len) then some q else rest
]

unfoldable pub strstr : ℕ → Memory → ℕ → ℕ → Option ℕ
unfolding strlen strstr_loop
strstr fuel m s1 s2 = elim (strlen fuel m s2) [
  | none ↦ none
  | some len ↦ strstr_loop fuel fuel m s1 s2 len
]

unfoldable pub strcpy : ℕ → Memory → ℕ → ℕ → Option Memory
unfolding strlen memcpy
strcpy fuel m dest src = elim (strlen fuel m src) [
  | none ↦ none
  | some n ↦ some (memcpy m dest src n)
]

unfoldable pub strcat : ℕ → Memory → ℕ → ℕ → Option Memory
unfolding strcpy
strcat fuel m dest src = elim (strlen fuel m dest) [
  | none ↦ none
  | some n ↦ strcpy fuel m (dest + n) src
]
