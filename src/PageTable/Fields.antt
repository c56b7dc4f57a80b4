-- ===== src/PageTable/Fields.antt =====
-- The fields of a page table entry, `generic_page_entry_raw` of arch/x86-64/types.h, and its union with
-- the word `data`.
use cxkernel.Base.{ℕ, ◌+◌, ◌*◌, ◌-◌, ◌/◌, ◌%◌, ◌^◌, ◌<◌, ◌≡◌, arith, ◌==◌, ap, ◌∙◌}
use cxkernel.Bits.{bit_and-mask, bit_and-shift}
use cxkernel.PageTable.{present, addr, table_of}

pub record PageEntry : Type 0 where
  pub present_bit : ℕ
  pub writable : ℕ
  pub user : ℕ
  pub write_through : ℕ
  pub cache_disable : ℕ
  pub accessed : ℕ
  pub dirty : ℕ
  pub pat : ℕ
  pub global : ℕ
  pub ignored0 : ℕ
  pub address : ℕ
  pub ignored1 : ℕ
  pub protection_key : ℕ
  pub execute_disable : ℕ

-- each field within its width
pub record IsPacked (e : PageEntry) : Type 0 where
  pub present_bit : e.present_bit < 2
  pub writable : e.writable < 2
  pub user : e.user < 2
  pub write_through : e.write_through < 2
  pub cache_disable : e.cache_disable < 2
  pub accessed : e.accessed < 2
  pub dirty : e.dirty < 2
  pub pat : e.pat < 2
  pub global : e.global < 2
  pub ignored0 : e.ignored0 < 2 ^ 3
  pub address : e.address < 2 ^ 40
  pub ignored1 : e.ignored1 < 2 ^ 7
  pub protection_key : e.protection_key < 2 ^ 4
  pub execute_disable : e.execute_disable < 2

-- `data` of the union whose `f` is given, the first field lowest
unfoldable pub data_of : PageEntry → ℕ
data_of e =
    e.present_bit
    + 2
      * (e.writable
          + 2
            * (e.user
                + 2
                  * (e.write_through
                      + 2
                        * (e.cache_disable
                            + 2
                              * (e.accessed
                                  + 2
                                    * (e.dirty
                                        + 2
                                          * (e.pat
                                              + 2
                                                * (e.global
                                                    + 2
                                                      * (e.ignored0
                                                          + 2 ^ 3
                                                            * (e.address
                                                            + 2 ^ 40
                                                            * (e.ignored1
                                                            + 2 ^ 7
                                                            * (e.protection_key
                                                            + 2 ^ 4 * e.execute_disable))))))))))))

-- `f` of the union whose `data` is given
unfoldable pub fields_of : ℕ → PageEntry
fields_of d = record {
  present_bit = d % 2;
  writable = d / 2 ^ 1 % 2;
  user = d / 2 ^ 2 % 2;
  write_through = d / 2 ^ 3 % 2;
  cache_disable = d / 2 ^ 4 % 2;
  accessed = d / 2 ^ 5 % 2;
  dirty = d / 2 ^ 6 % 2;
  pat = d / 2 ^ 7 % 2;
  global = d / 2 ^ 8 % 2;
  ignored0 = d / 2 ^ 9 % 2 ^ 3;
  address = d / 2 ^ 12 % 2 ^ 40;
  ignored1 = d / 2 ^ 52 % 2 ^ 7;
  protection_key = d / 2 ^ 59 % 2 ^ 4;
  execute_disable = d / 2 ^ 63 % 2;
}

data_of-fields_of : (d : ℕ) → d < 2 ^ 64 → data_of (fields_of d) ≡ d
unfolding data_of fields_of
data_of-fields_of d h = omega arith

fields_of-data_of : (e : PageEntry) → IsPacked e → fields_of (data_of e) ≡ e
unfolding data_of fields_of
fields_of-data_of e h = λ i. record {
  present_bit = f_present_bit i;
  writable = f_writable i;
  user = f_user i;
  write_through = f_write_through i;
  cache_disable = f_cache_disable i;
  accessed = f_accessed i;
  dirty = f_dirty i;
  pat = f_pat i;
  global = f_global i;
  ignored0 = f_ignored0 i;
  address = f_address i;
  ignored1 = f_ignored1 i;
  protection_key = f_protection_key i;
  execute_disable = f_execute_disable i;
}
  where
    f_present_bit : (fields_of (data_of e)).present_bit ≡ e.present_bit
    f_present_bit = omega arith

    f_writable : (fields_of (data_of e)).writable ≡ e.writable
    f_writable = omega arith

    f_user : (fields_of (data_of e)).user ≡ e.user
    f_user = omega arith

    f_write_through : (fields_of (data_of e)).write_through ≡ e.write_through
    f_write_through = omega arith

    f_cache_disable : (fields_of (data_of e)).cache_disable ≡ e.cache_disable
    f_cache_disable = omega arith

    f_accessed : (fields_of (data_of e)).accessed ≡ e.accessed
    f_accessed = omega arith

    f_dirty : (fields_of (data_of e)).dirty ≡ e.dirty
    f_dirty = omega arith

    f_pat : (fields_of (data_of e)).pat ≡ e.pat
    f_pat = omega arith

    f_global : (fields_of (data_of e)).global ≡ e.global
    f_global = omega arith

    f_ignored0 : (fields_of (data_of e)).ignored0 ≡ e.ignored0
    f_ignored0 = omega arith

    f_address : (fields_of (data_of e)).address ≡ e.address
    f_address = omega arith

    f_ignored1 : (fields_of (data_of e)).ignored1 ≡ e.ignored1
    f_ignored1 = omega arith

    f_protection_key : (fields_of (data_of e)).protection_key ≡ e.protection_key
    f_protection_key = omega arith

    f_execute_disable : (fields_of (data_of e)).execute_disable ≡ e.execute_disable
    f_execute_disable = omega arith

table_of-fields : (d : ℕ) → table_of d ≡ d / 2 ^ 11 % 2 ^ 21 * 2 ^ 11
table_of-fields d =
    ground
      (arith, bit_and-shift 11 (d / 2 ^ 11) (2 ^ 21 - 1) (d % 2 ^ 11), bit_and-mask 21 (d / 2 ^ 11))

-- An entry whose fields are within their widths is a word of 64 bits that has these fields again; the
-- code's tests and masks read it as follows: it is present when its bit is 1, `addr` is its field, and
-- the mask 0xFFFFF800 gives the table's address below 4 GiB, with bit 11, the highest of `ignored0`,
-- in it.
pub table_of-data_of :
    (e : PageEntry)
    → IsPacked e
    → (data_of e < 2 ^ 64)
      × (fields_of (data_of e) ≡ e)
      × (present (data_of e) ≡ (e.present_bit == 1))
      × (addr (data_of e) ≡ e.address)
      × (table_of (data_of e) ≡ e.address % 2 ^ 20 * 2 ^ 12 + e.ignored0 / 4 * 2 ^ 11)
table_of-data_of e h =
    let low_bit : data_of e % 2 ≡ e.present_bit = unfold data_of in omega arith in
    let low : data_of e / 2 ^ 11 % 2 ^ 21 ≡ e.address % 2 ^ 20 * 2 + e.ignored0 / 4 =
      unfold data_of in omega arith in
    (
      unfold data_of in omega arith,
      fields_of-data_of e h,
      ap (λ (v : ℕ). v == 1) low_bit,
      unfold data_of in omega arith,
      table_of-fields (data_of e) ∙ omega (arith, low),
    )
