-- ===== src/Text/Copy.antt =====
-- What `memcpy`, `memmove` and `memset` of lib/ebl/string.cc leave at each address.
use cxkernel.Base.{
  ℕ, zero, suc, ◌+◌, ◌-◌, ◌≤◌, ◌<◌, ◌≡◌, refl, ◌⊎◌, inl, inr, arith, ◌&&◌, leb, ltb, if◌then◌else◌,
  Bool-cases, tests,
}
use cxkernel.Bits.{u8}
use native.Mathlib.Decide.{dec_lt}
use cxkernel.Text.{Memory, poke, copy_up, copy_down, memcpy, memmove, memset}

-- `m'` is `m` with the `len` bytes from `src` written from `dest` on.
abbrev pub IsCopy : Memory → ℕ → ℕ → ℕ → Memory → Type 0
IsCopy m dest src len m' =
    ((i : ℕ) → i < len → m' (dest + i) ≡ m (src + i))
    × ((a : ℕ) → (a < dest) ⊎ (dest + len ≤ a) → m' a ≡ m a)

copy_up-outside : (m : Memory) (d s len a : ℕ) → (a < d) ⊎ (d + len ≤ a) → copy_up m d s len a ≡ m a
unfolding copy_up
copy_up-outside m d s zero a h = refl
copy_up-outside m d s (suc len) a h =
    let ih = copy_up-outside (poke m d (m s)) (d + 1) (s + 1) len a in ground (arith, ih)

copy_up-inside :
    (m : Memory) (d s len i : ℕ)
    → (d ≤ s) ⊎ (s + len ≤ d)
    → i < len
    → copy_up m d s len (d + i) ≡ m (s + i)
unfolding copy_up
copy_up-inside m d s zero i apart h = elim h [ ]
copy_up-inside m d s (suc len) zero apart h =
    ground (arith, copy_up-outside (poke m d (m s)) (d + 1) (s + 1) len (d + 0))
copy_up-inside m d s (suc len) (suc i) apart h =
    ground (arith, copy_up-inside (poke m d (m s)) (d + 1) (s + 1) len i)

-- The pointers of the downward loop stand at the last bytes, if any are left.
abbrev AtLast : ℕ → ℕ → ℕ → ℕ → ℕ → Type 0
AtLast ld ls d s len = (len ≡ 0) ⊎ ((ld + 1 ≡ d + len) × (ls + 1 ≡ s + len))

AtLast-pred : (ld ls d s len : ℕ) → AtLast ld ls d s (suc len) → AtLast (ld - 1) (ls - 1) d s len
AtLast-pred ld ls d s zero h = inl refl
AtLast-pred ld ls d s (suc len) h = inr (omega arith, omega arith)

copy_down-outside :
    (m : Memory) (ld ls d s len a : ℕ)
    → AtLast ld ls d s len
    → (a < d) ⊎ (d + len ≤ a)
    → copy_down m ld ls len a ≡ m a
unfolding copy_down
copy_down-outside m ld ls d s zero a at h = refl
copy_down-outside m ld ls d s (suc len) a at h =
    let ih =
      copy_down-outside (poke m ld (m ls)) (ld - 1) (ls - 1) d s len a
        (AtLast-pred ld ls d s len at) (omega arith) in
    ground (arith, ih)

copy_down-inside :
    (m : Memory) (ld ls d s len i : ℕ)
    → AtLast ld ls d s len
    → s ≤ d
    → i < len
    → copy_down m ld ls len (d + i) ≡ m (s + i)
unfolding copy_down
copy_down-inside m ld ls d s zero i at le h = elim h [ ]
copy_down-inside m ld ls d s (suc len) i at le h =
    let m' = poke m ld (m ls) in
    let at' = AtLast-pred ld ls d s len at in
    elim (dec_lt i len) [
      | yes q ↦
          let ih = copy_down-inside m' (ld - 1) (ls - 1) d s len i at' le q in ground (arith, ih)
      | no q ↦
          let out = copy_down-outside m' (ld - 1) (ls - 1) d s len (d + i) at' (omega arith) in
          ground (arith, out)
    ]

from_last : (d s len : ℕ) → AtLast (d + (len - 1)) (s + (len - 1)) d s len
from_last d s zero = inl refl
from_last d s (suc len) = inr (omega arith, omega arith)

-- `memcpy` copies, if the source does not begin before the destination and reach into it.
pub memcpy-IsCopy :
    (m : Memory) (dest src len : ℕ)
    → (dest ≤ src) ⊎ (src + len ≤ dest)
    → IsCopy m dest src len (memcpy m dest src len)
unfolding memcpy
memcpy-IsCopy m dest src len apart =
    (λ i h. copy_up-inside m dest src len i apart h, λ a h. copy_up-outside m dest src len a h)

-- `memmove` copies also between ranges that overlap in any way, and writes nowhere else.
pub memmove-IsCopy :
    (m : Memory) (dest src len : ℕ) → IsCopy m dest src len (memmove m dest src len)
unfolding memmove
memmove-IsCopy m dest src len = elim (Bool-cases (ltb dest src)) [
  | inl up ↦ rw up (
    λ i h. copy_up-inside m dest src len i (inl (omega tests)) h,
    λ a h. copy_up-outside m dest src len a h,
  )
  | inr down ↦ rw down (
    λ i h.
        copy_down-inside m (dest + (len - 1)) (src + (len - 1)) dest src len i
          (from_last dest src len) (omega tests) h,
    λ a h.
        copy_down-outside m (dest + (len - 1)) (src + (len - 1)) dest src len a
          (from_last dest src len) h,
  )
]

-- `memset` fills exactly the range, with the low byte of its argument.
pub memset_lem :
    (m : Memory) (dest c len a : ℕ)
    → memset m dest c len a ≡ (if leb dest a && ltb a (dest + len) then u8 c else m a)
unfolding memset
memset_lem m dest c zero a = ground arith
memset_lem m dest c (suc len) a = ground (arith, memset_lem (poke m dest (u8 c)) (dest + 1) c len a)
