-- ===== src/BitField.antt =====
-- lib/ebl/bit.h: a field of `bits` bits at `index` in a word of `width` bits.
use cxkernel.Base.{ℕ, ◌-◌, ◌*◌, ◌/◌, ◌%◌, ◌^◌, Bool, not, ◌==◌, bit_and, bit_or}

-- `(1u << Bits) - 1u`
unfoldable pub mask : ℕ → ℕ
mask bits = 2 ^ bits - 1

-- the assignment operator: the word with the field replaced by the low bits of `value`
unfoldable pub assign : (width index bits : ℕ) → ℕ → ℕ → ℕ
unfolding mask
assign width index bits word value =
    bit_or (bit_and word (2 ^ width - 1 - mask bits * 2 ^ index))
      (bit_and value (mask bits) * 2 ^ index % 2 ^ width)

-- `operator T`
unfoldable pub get : (index bits : ℕ) → ℕ → ℕ
unfolding mask
get index bits word = bit_and (word / 2 ^ index) (mask bits)

-- `operator bool`
unfoldable pub is_set : (index bits : ℕ) → ℕ → Bool
unfolding mask
is_set index bits word = not (bit_and word (mask bits * 2 ^ index) == 0)
