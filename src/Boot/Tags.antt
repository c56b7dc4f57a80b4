-- ===== src/Boot/Tags.antt =====
-- The search for a tag in loader/x86-64-multiboot2/multiboot2.cc.
use cxkernel.Base.{
  ℕ, zero, suc, ◌+◌, ◌<◌, ◌≡◌, ◌≢◌, ◌⊎◌, inl, inr, arith, refl, sym, subst, ◌∙◌, ap, List, [], ◌∷◌,
  if◌then◌else◌, Bool-cases, ◌==◌, ==→eq, ==→ne, length, All, List-cases,
}
use cxkernel.Text.{Memory}
use cxkernel.Boot.{tag_type, next_tag, advance, Deref, returned, null_read, deref}

-- The tags of these types from an address that is not null on, and the end tag after them.
abbrev pub IsTags : Memory → ℕ → List ℕ → Type 0
IsTags m tag [] = (tag ≢ 0) × (tag_type m tag ≡ 0)
IsTags m tag (t ∷ ts) = (tag ≢ 0) × (tag_type m tag ≡ t) × (t ≢ 0) × IsTags m (next_tag m tag) ts

-- the address of the tag at an index
abbrev pub nth_tag : Memory → ℕ → ℕ → ℕ
nth_tag m tag zero = tag
nth_tag m tag (suc i) = nth_tag m (next_tag m tag) i

-- The first tag of the type; the null pointer read where there are tags and none is of the type;
-- and null from the end tag.
abbrev pub Searched : Memory → ℕ → ℕ → List ℕ → Deref → Type 0
Searched m type tag ts answer =
    ((i : ℕ) × (i < length ts)
      × (answer ≡ returned (nth_tag m tag i))
      × (tag_type m (nth_tag m tag i) ≡ type)
      × ((j : ℕ) → j < i → tag_type m (nth_tag m tag j) ≢ type))
    ⊎ ((answer ≡ (if length ts == 0 then returned 0 else null_read)) × All (λ t. t ≢ type) ts)

deref-here :
    (fuel : ℕ) (m : Memory) (type tag : ℕ)
    → tag ≢ 0
    → tag_type m tag ≡ type
    → deref (suc fuel) m type tag ≡ returned tag
unfolding deref
deref-here fuel m type tag ne e = ground (arith, ne, e)

deref-end :
    (fuel : ℕ) (m : Memory) (type tag : ℕ)
    → tag ≢ 0
    → type ≢ 0
    → tag_type m tag ≡ 0
    → deref (suc fuel) m type tag ≡ returned 0
unfolding deref
deref-end fuel m type tag ne real e = ground (arith, ne, real, e)

deref-null : (fuel : ℕ) (m : Memory) (type : ℕ) → deref (suc fuel) m type 0 ≡ null_read
unfolding deref
deref-null fuel m type = refl

deref-next :
    (fuel : ℕ) (m : Memory) (type tag : ℕ)
    → tag ≢ 0
    → tag_type m tag ≢ type
    → tag_type m tag ≢ 0
    → deref (suc fuel) m type tag ≡ deref fuel m type (advance m tag)
unfolding deref
deref-next fuel m type tag ne other real = ground (arith, ne, other, real)

advance-end : (m : Memory) (tag : ℕ) → tag_type m (next_tag m tag) ≡ 0 → advance m tag ≡ 0
unfolding advance
advance-end m tag e = ground (arith, e)

advance-tag :
    (m : Memory) (tag : ℕ) → tag_type m (next_tag m tag) ≢ 0 → advance m tag ≡ next_tag m tag
unfolding advance
advance-tag m tag ne = ground (arith, ne)

-- After a tag of another type.
next-Searched :
    (m : Memory) (type tag t : ℕ) (ts : List ℕ) (answer : Deref)
    → tag_type m tag ≢ type
    → t ≢ type
    → length ts ≢ 0
    → Searched m type (next_tag m tag) ts answer
    → Searched m type tag (t ∷ ts) answer
next-Searched m type tag t ts answer other ne more (inl (i, lt, e, same, first)) =
    inl (suc i, omega (arith, lt), e, same, before)
  where
    before : (j : ℕ) → j < suc i → tag_type m (nth_tag m tag j) ≢ type
    before zero small = other
    before (suc j) small = first j (omega (arith, small))
next-Searched m type tag t ts answer other ne more (inr (e, none_of)) =
    let null : answer ≡ null_read = ground (arith, e, more) in
    inr (null ∙ ground arith, (ne, none_of))

-- In a list of tags with an end tag the search of `operator*` ends, with fuel above the number of
-- tags by two: it returns the first tag of the type when there is one; when there are tags and none
-- is of that type it reads through a null pointer; and it returns null only from the end tag itself.
pub deref-Searched :
    (ts : List ℕ) (fuel : ℕ) (m : Memory) (type tag : ℕ)
    → length ts + 1 < fuel
    → type ≢ 0
    → IsTags m tag ts
    → Searched m type tag ts (deref fuel m type tag)
deref-Searched ts zero m type tag enough real h = absurd (omega (arith, enough))
deref-Searched ts (suc zero) m type tag enough real h = absurd (omega (arith, enough))
deref-Searched [] (suc (suc fuel)) m type tag enough real h =
    inr (deref-end (suc fuel) m type tag h.0 real h.1, tt)
deref-Searched (t ∷ ts) (suc (suc fuel)) m type tag enough real h = elim (Bool-cases (t == type)) [
  | inl e ↦
      let same : tag_type m tag ≡ type = h.1 ∙ ==→eq t type e in
      inl (
        0,
        omega arith,
        deref-here (suc fuel) m type tag h.0 same,
        same,
        λ j lt. absurd (omega (arith, lt)),
      )
  | inr e ↦
      let ne = ==→ne t type e in
      let other : tag_type m tag ≢ type = λ s. ne (sym h.1 ∙ s) in
      let step = deref-next (suc fuel) m type tag h.0 other (λ s. h.2 (sym h.1 ∙ s)) in
      elim (List-cases ts) [
        | inl nil ↦
            let last = subst (IsTags m (next_tag m tag)) nil h.3 in
            let run =
              step
              ∙ ap (deref (suc fuel) m type) (advance-end m tag last.1)
              ∙ deref-null fuel m type in
            inr (run ∙ ground arith, (ne, subst (All (λ t. t ≢ type)) (sym nil) tt))
        | inr (u, us, cons) ↦
            let rest = subst (IsTags m (next_tag m tag)) cons h.3 in
            let run =
              step
              ∙ ap (deref (suc fuel) m type) (advance-tag m tag (λ z. rest.2 (sym rest.1 ∙ z))) in
            subst (Searched m type tag (t ∷ ts)) (sym run) (
              next-Searched m type tag t ts (deref (suc fuel) m type (next_tag m tag)) other ne
                (ground (arith, cons))
                (deref-Searched ts (suc fuel) m type (next_tag m tag) (omega (arith, enough)) real
                  h.3))
      ]
]
