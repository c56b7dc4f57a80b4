-- ===== src/Text/Compare.antt =====
-- The comparisons and `strcpy` of lib/ebl/string.cc.
use cxkernel.Base.{
  ℕ, zero, suc, ◌+◌, ◌≤◌, ◌<◌, ◌≡◌, ◌≢◌, refl, ◌↔◌, ◌⊎◌, inr, some, ℤ, pos, sub_ℕ, sub_ℕ-zero,
  sub_ℕ_self, arith, ap, sym, ◌∙◌,
}
use native.Mathlib.Decide.{dec_lt, ℕ_discrete}
use cxkernel.Text.{Memory, memcmp, strcmp, memcpy, strcpy}
use cxkernel.Text.Copy.{IsCopy, memcpy-IsCopy}
use cxkernel.Text.Length.{IsString, strlen_lem}

memcmp-zero :
    (m : Memory) (p q len : ℕ)
    → memcmp m p q len ≡ pos 0
    → (i : ℕ) → i < len
    → m (p + i) ≡ m (q + i)
unfolding memcmp
memcmp-zero m p q zero h i lt = elim lt [ ]
memcmp-zero m p q (suc len) h zero lt = ground (arith, sub_ℕ-zero (m p) (m q))
memcmp-zero m p q (suc len) h (suc i) lt =
    let ih = memcmp-zero m (p + 1) (q + 1) len in
    ground
      (arith, sub_ℕ-zero (m p) (m q), ih (ground (arith, sub_ℕ-zero (m p) (m q))) i (omega arith))

memcmp-same :
    (m : Memory) (p q len : ℕ)
    → ((i : ℕ) → i < len → m (p + i) ≡ m (q + i))
    → memcmp m p q len ≡ pos 0
unfolding memcmp
memcmp-same m p q zero h = refl
memcmp-same m p q (suc len) h =
    let ih =
      memcmp-same m (p + 1) (q + 1) len (λ i lt. let e = h (i + 1) (omega arith) in ground arith) in
    ground (arith, h 0, ih)

-- `memcmp` is 0 exactly when the two ranges hold the same bytes.
pub memcmp_iff :
    (m : Memory) (p q len : ℕ)
    → (memcmp m p q len ≡ pos 0) ↔ ((i : ℕ) → i < len → m (p + i) ≡ m (q + i))
memcmp_iff m p q len = (memcmp-zero m p q len, memcmp-same m p q len)

-- The strings hold the same characters.
abbrev pub SameChars : Memory → ℕ → ℕ → ℕ → ℕ → Type 0
SameChars m a n b k = (n ≡ k) × ((i : ℕ) → i < n → m (a + i) ≡ m (b + i))

module _ (m : Memory) (a b n k : ℕ) (s : IsString m a n) (t : IsString m b k) where
  ne_end : (i : ℕ) → i ≤ k → m (b + i) ≢ 0 → i < k
  ne_end i le ne = elim (dec_lt i k) [
    | yes p ↦ p
    | no p ↦ let e : i ≡ k = omega arith in absurd (ne (ap (λ v. m (b + v)) e ∙ t.ends))
  ]

  at_end : (i : ℕ) → i ≤ k → m (b + i) ≡ 0 → i ≡ k
  at_end i le z = elim (dec_lt i k) [ yes p ↦ absurd (t.chars i p z) | no p ↦ omega arith ]

  extend :
      (i : ℕ)
      → ((j : ℕ) → j < i → m (a + j) ≡ m (b + j))
      → m (a + i) ≡ m (b + i)
      → (j : ℕ) → j < i + 1
      → m (a + j) ≡ m (b + j)
  extend i same e j lt = elim (dec_lt j i) [
    | yes p ↦ same j p
    | no p ↦ let e' : j ≡ i = omega arith in rw e' e
  ]

  -- `strcmp` from index `i` on, the strings being equal before it.
  strcmp-from :
      (fuel i : ℕ)
      → i ≤ n
      → i ≤ k
      → ((j : ℕ) → j < i → m (a + j) ≡ m (b + j))
      → n < i + fuel
      → (r : ℤ) × (strcmp fuel m (a + i) (b + i) ≡ some r) × ((r ≡ pos 0) ↔ SameChars m a n b k)
  unfolding strcmp
  strcmp-from zero i le le' same h = absurd (omega arith)
  strcmp-from (suc fuel) i le le' same h = elim (dec_lt i n) [
    | yes p ↦ elim (ℕ_discrete (m (a + i)) (m (b + i))) [
      | yes e ↦
          let c = s.chars i p in
          let z = t.ends in
          let lt : i < k = ne_end i le' (λ q. c (e ∙ q)) in
          let same' : (j : ℕ) → j < i + 1 → m (a + j) ≡ m (b + j) = extend i same e in
          let ih = strcmp-from fuel (i + 1) (omega arith) (omega arith) same' (omega arith) in
          (ih.0, ground (arith, ih.1), ih.2)
      | no d ↦ (
        sub_ℕ (m (a + i)) (m (b + i)),
        ground arith,
        (λ r. absurd (d (sub_ℕ-zero _ _ r)), λ q. absurd (d (q.1 i p))),
      )
    ]
    | no last ↦
        let i-n : i ≡ n = omega arith in
        let z : m (a + i) ≡ 0 = let z' = s.ends in ground arith in
        (
          sub_ℕ (m (a + i)) (m (b + i)),
          ground arith,
          (
            λ r.
                let e : m (b + i) ≡ 0 = sym (sub_ℕ-zero _ _ r) ∙ z in
                (sym i-n ∙ at_end i le' e, λ j lt. same j (omega arith)),
            λ q. let z'' = t.ends in ground (arith, q.0, sub_ℕ_self (m (a + i))),
          ),
        )
  ]

  -- For two strings in a memory of bytes, `strcmp` ends with fuel above the number of the first one's
  -- characters, and returns 0 exactly when the strings have the same characters.
  pub strcmp_iff :
      (fuel : ℕ)
      → n < fuel
      → (r : ℤ) × (strcmp fuel m a b ≡ some r) × ((r ≡ pos 0) ↔ SameChars m a n b k)
  unfolding strcmp
  strcmp_iff fuel h =
      let run =
        strcmp-from fuel 0 (omega arith) (omega arith) (λ j lt. elim lt [ ]) (omega arith) in
      (run.0, ground (arith, run.1), run.2)

-- `strcpy` of a string to a place that does not begin inside the source ends, with fuel above the
-- length plus one; it copies the characters and leaves the byte behind them as it was: the
-- terminator is not written.
pub strcpy-no_terminator :
    (m : Memory) (dest src n fuel : ℕ)
    → IsString m src n
    → n + 1 < fuel
    → (dest ≤ src) ⊎ (src + n ≤ dest)
    → (m' : Memory) × (strcpy fuel m dest src ≡ some m')
      × IsCopy m dest src n m'
      × (m' (dest + n) ≡ m (dest + n))
unfolding strcpy
strcpy-no_terminator m dest src n fuel s h apart =
    let copied = memcpy-IsCopy m dest src n apart in
    (
      memcpy m dest src n,
      rw (strlen_lem m src n s fuel h, strcpy),
      copied,
      copied.1 (dest + n) (inr (omega arith)),
    )
