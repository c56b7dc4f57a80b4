-- ===== src/Paging.antt =====
-- arch/x86-64/types.h: descriptors and the arithmetic of virtual addresses.
use cxkernel.Base.{
  ℕ, ◌+◌, ◌-◌, ◌*◌, ◌/◌, ◌%◌, ◌^◌, ◌<◌, ◌≡◌, arith, ap, ◌∙◌, ltb, ◌⊎◌, ◌≤◌, if◌then◌else◌, bit_and,
  bit_or,
}
use cxkernel.Bits.{u16, u64, bit_or-add, bit_and-mask}

-- `((int64_t)addr << 16) >> 16`, the right shift being arithmetic
unfoldable pub canonicalize : ℕ → ℕ
canonicalize addr =
    let shifted = u64 (addr * 2 ^ 16) in
    if ltb shifted (2 ^ 63) then shifted / 2 ^ 16 else shifted / 2 ^ 16 + (2 ^ 64 - 2 ^ 48)

unfoldable pub virt_from_index : ℕ → ℕ → ℕ → ℕ → ℕ
unfolding canonicalize
virt_from_index pml4e_index pdpte_index pde_index pte_index = canonicalize (
    bit_or
      (bit_or
        (bit_or (u64 (bit_and pml4e_index 0x1FF * 2 ^ 39))
          (u64 (bit_and pdpte_index 0x1FF * 2 ^ 30)))
        (u64 (bit_and pde_index 0x1FF * 2 ^ 21)))
      (u64 (bit_and pte_index 0x1FF * 2 ^ 12)))

unfoldable pub pml4e_index : ℕ → ℕ
pml4e_index addr = u16 (bit_and (addr / 2 ^ 39) 0x1FF)

unfoldable pub pdpte_index : ℕ → ℕ
pdpte_index addr = u16 (bit_and (addr / 2 ^ 30) 0x1FF)

unfoldable pub pde_index : ℕ → ℕ
pde_index addr = u16 (bit_and (addr / 2 ^ 21) 0x1FF)

unfoldable pub pte_index : ℕ → ℕ
pte_index addr = u16 (bit_and (addr / 2 ^ 12) 0x1FF)

-- the low nine bits
nine : (a : ℕ) → bit_and a 0x1FF ≡ a % 512
nine a = bit_and-mask 9 a

-- the four indices as one number
abbrev packed : ℕ → ℕ → ℕ → ℕ → ℕ
packed a b c d = ((a % 512 * 512 + b % 512) * 512 + c % 512) * 512 + d % 512

virt_from_index-packed :
    (a b c d : ℕ) → virt_from_index a b c d ≡ canonicalize (packed a b c d * 2 ^ 12)
unfolding virt_from_index
virt_from_index-packed a b c d =
    let e1 = bit_or-add 39 (a % 512) (b % 512 * 2 ^ 30) (omega arith) in
    let e2 = bit_or-add 30 (a % 512 * 512 + b % 512) (c % 512 * 2 ^ 21) (omega arith) in
    let e3 =
      bit_or-add 21 ((a % 512 * 512 + b % 512) * 512 + c % 512) (d % 512 * 2 ^ 12) (omega arith) in
    rw (nine a, nine b, nine c, nine d) (ap canonicalize (ground (arith, e1, e2, e3)))

-- Bits 47 to 63 are equal.
abbrev pub IsCanonical : ℕ → Type 0
IsCanonical addr = (addr < 2 ^ 47) ⊎ ((2 ^ 64 - 2 ^ 47 ≤ addr) × (addr < 2 ^ 64))

-- `canonicalize` gives a canonical address with the same low 48 bits, and leaves canonical ones.
pub canonicalize-IsCanonical :
    (addr : ℕ)
    → IsCanonical (canonicalize addr)
      × (canonicalize addr % 2 ^ 48 ≡ addr % 2 ^ 48)
      × (IsCanonical addr → canonicalize addr ≡ addr)
unfolding canonicalize
canonicalize-IsCanonical addr = (ground arith, ground arith, λ h. ground arith)

-- The indices of an address made of indices are those indices, and its page offset is 0.
pub index-virt_from_index :
    (a b c d : ℕ)
    → (pml4e_index (virt_from_index a b c d) ≡ a % 512)
      × (pdpte_index (virt_from_index a b c d) ≡ b % 512)
      × (pde_index (virt_from_index a b c d) ≡ c % 512)
      × (pte_index (virt_from_index a b c d) ≡ d % 512)
      × (virt_from_index a b c d % 4096 ≡ 0)
unfolding pml4e_index pdpte_index pde_index pte_index
index-virt_from_index a b c d =
    let low = (canonicalize-IsCanonical (packed a b c d * 2 ^ 12)).1 in
    rw (virt_from_index-packed a b c d, nine, nine, nine, nine)
      (
        omega (arith, low),
        omega (arith, low),
        omega (arith, low),
        omega (arith, low),
        omega (arith, low),
      )

canonicalize-low : (v : ℕ) → IsCanonical v → canonicalize (v % 2 ^ 48) ≡ v
unfolding canonicalize
canonicalize-low v h = ground arith

-- A canonical address at a page boundary is made of its own indices.
pub virt_from_index-index :
    (v : ℕ)
    → IsCanonical v
    → v % 4096 ≡ 0
    → virt_from_index (pml4e_index v) (pdpte_index v) (pde_index v) (pte_index v) ≡ v
unfolding pml4e_index pdpte_index pde_index pte_index
virt_from_index-index v h p =
    rw (nine, nine, nine, nine, virt_from_index-packed)
      (ap canonicalize (omega (arith, p)) ∙ canonicalize-low v h)

-- Every index is below the number of entries of a table.
pub index-lt :
    (v : ℕ)
    → (pml4e_index v < 512) × (pdpte_index v < 512) × (pde_index v < 512) × (pte_index v < 512)
unfolding pml4e_index pdpte_index pde_index pte_index
index-lt v = rw (nine, nine, nine, nine) (omega arith, omega arith, omega arith, omega arith)

-- An offset into a page leaves the indices as they are.
pub index-offset :
    (v o : ℕ)
    → v % 4096 ≡ 0
    → o < 4096
    → (pml4e_index (v + o) ≡ pml4e_index v)
      × (pdpte_index (v + o) ≡ pdpte_index v)
      × (pde_index (v + o) ≡ pde_index v)
      × (pte_index (v + o) ≡ pte_index v)
      × ((v + o) % 4096 ≡ o)
unfolding pml4e_index pdpte_index pde_index pte_index
index-offset v o page lt = (
  ap (λ x. u16 (bit_and x 0x1FF)) (omega (arith, page, lt)),
  ap (λ x. u16 (bit_and x 0x1FF)) (omega (arith, page, lt)),
  ap (λ x. u16 (bit_and x 0x1FF)) (omega (arith, page, lt)),
  ap (λ x. u16 (bit_and x 0x1FF)) (omega (arith, page, lt)),
  omega (arith, page, lt),
)

-- `gdt_entry`, the fields that its constructor sets
pub record GdtEntry : Type 0 where
  pub limit_low : ℕ
  pub base_low : ℕ
  pub base_middle : ℕ
  pub seg_type : ℕ
  pub desc_type : ℕ
  pub desc_priv : ℕ
  pub present : ℕ
  pub limit_high : ℕ
  pub available : ℕ
  pub long_mode : ℕ
  pub op_size : ℕ
  pub granularity : ℕ
  pub base_high : ℕ

pub gdt_entry : ℕ → ℕ → ℕ → GdtEntry
gdt_entry base limit type = record {
  limit_low = bit_and limit 0xFFFF;
  base_low = bit_and base 0xFFFF;
  base_middle = bit_and (base / 2 ^ 16) 0xFF;
  seg_type = bit_and type 0xF;
  desc_type = 1;
  desc_priv = 0;
  present = 1;
  limit_high = bit_and (limit / 2 ^ 16) 0xF;
  available = 0;
  long_mode = 1;
  op_size = 0;
  granularity = 0;
  base_high = bit_and (base / 2 ^ 24) 0xFF;
}

-- the base and the limit that the processor puts together from the fields
abbrev pub gdt_base : GdtEntry → ℕ
gdt_base e = e.base_high * 2 ^ 24 + e.base_middle * 2 ^ 16 + e.base_low

abbrev pub gdt_limit : GdtEntry → ℕ
gdt_limit e = e.limit_high * 2 ^ 16 + e.limit_low

-- The fields of a descriptor hold the whole base, if that is below 2^32, the low 20 bits of the
-- limit and the low 4 bits of the type.
pub gdt_entry_fields :
    (base limit type : ℕ)
    → base < 2 ^ 32
    → (gdt_base (gdt_entry base limit type) ≡ base)
      × (gdt_limit (gdt_entry base limit type) ≡ limit % 2 ^ 20)
      × ((gdt_entry base limit type).seg_type ≡ type % 16)
unfolding gdt_entry
gdt_entry_fields base limit type h =
    rw
      (
        bit_and-mask 16 base,
        bit_and-mask 8 (base / 2 ^ 16),
        bit_and-mask 8 (base / 2 ^ 24),
        bit_and-mask 16 limit,
        bit_and-mask 4 (limit / 2 ^ 16),
        bit_and-mask 4 type,
      )
      (omega arith)

-- `idt_entry`
pub record IdtEntry : Type 0 where
  pub offset_low : ℕ
  pub selector : ℕ
  pub ist : ℕ
  pub reserved0 : ℕ
  pub type : ℕ
  pub zero_bit : ℕ
  pub dpl : ℕ
  pub present : ℕ
  pub offset_mid : ℕ
  pub offset_high : ℕ
  pub reserved1 : ℕ

unfoldable pub idt_entry : ℕ → ℕ → IdtEntry
idt_entry isr_fn type = record {
  offset_low = bit_and isr_fn 0xFFFF;
  selector = 0x08;
  ist = 0;
  reserved0 = 0;
  type = bit_and type 0xF;
  zero_bit = 0;
  dpl = 0;
  present = 1;
  offset_mid = bit_and (isr_fn / 2 ^ 16) 0xFFFF;
  offset_high = bit_and (isr_fn / 2 ^ 32) 0xFFFFFFFF;
  reserved1 = 0;
}

abbrev pub idt_offset : IdtEntry → ℕ
idt_offset e = e.offset_high * 2 ^ 32 + e.offset_mid * 2 ^ 16 + e.offset_low

-- The gate holds the whole address of the handler, if that is below 2^64.
pub idt_entry_offset :
    (isr_fn type : ℕ) → isr_fn < 2 ^ 64 → idt_offset (idt_entry isr_fn type) ≡ isr_fn
unfolding idt_entry
idt_entry_offset isr_fn type h =
    rw
      (bit_and-mask 16 isr_fn, bit_and-mask 16 (isr_fn / 2 ^ 16), bit_and-mask 32 (isr_fn / 2 ^ 32))
      (omega arith)
