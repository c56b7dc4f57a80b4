-- ===== src/PageTable/Entries.antt =====
-- What `map_page` of loader/x86-64-multiboot2/mem.cc writes into an entry, and what is read from it.
use cxkernel.Base.{ℕ, ◌+◌, ◌*◌, ◌^◌, ◌<◌, ◌≡◌, ap, subst, arith, true, bit_or}
use cxkernel.Bits.{bit_or-add, bit_or-split, bit_or-lt, bit_or-odd, bit_or-zero, bit_and-high}
use cxkernel.PageTable.{entry_of, table_of, present, addr}

-- An entry for page `p` with flags below bit 11: the page's address and eleven bits, the lowest set.
pub entry_of-sum :
    (p flags : ℕ) → flags < 2 ^ 11 → entry_of (p * 4096) flags ≡ p * 4096 + bit_or 1 flags
entry_of-sum p flags h =
    let one = bit_or-add 12 p 1 (omega arith) in
    let flat : 0 * 2 ^ 12 + flags ≡ flags = omega arith in
    let both =
      subst (λ x. bit_or (p * 4096 + 1) x ≡ bit_or p 0 * 4096 + bit_or 1 flags) flat
        (bit_or-split 12 p 0 1 flags (omega arith) (omega (arith, h))) in
    let start : entry_of (p * 4096) flags ≡ bit_or (p * 4096 + 1) flags =
      ap (λ x. bit_or x flags) one in
    omega (arith, start, both, bit_or-zero p)

-- The entry is present, and below 4 GiB both readings of its address are the page.
pub record IsEntry (e p : ℕ) : Type 0 where
  pub set : present e ≡ true
  pub table : table_of e ≡ p * 4096
  pub address : addr e ≡ p

pub entry_of-IsEntry :
    (p flags : ℕ) → p < 2 ^ 20 → flags < 2 ^ 11 → IsEntry (entry_of (p * 4096) flags) p
entry_of-IsEntry p flags small h =
    let e = entry_of-sum p flags h in
    let lt = bit_or-lt 11 1 flags (omega arith) h in
    let odd = bit_or-odd flags in
    let high = bit_and-high 11 21 (entry_of (p * 4096) flags) (omega (arith, e, lt)) in
    record {
      set = ground (arith, e, odd);
      table = omega (arith, e, lt, high);
      address = omega (arith, e, lt);
    }

pub entry_of-lt : (p flags : ℕ) → p < 2 ^ 20 → flags < 2 ^ 11 → entry_of (p * 4096) flags < 2 ^ 64
entry_of-lt p flags small h =
    let e = entry_of-sum p flags h in
    let lt = bit_or-lt 11 1 flags (omega arith) h in omega (arith, e, lt)
