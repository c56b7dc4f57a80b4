-- ===== src/Elf/Sections.antt =====
-- The look-up of a section by name in lib/elf/elf64_parser.cc.
use cxkernel.Base.{
  ℕ, zero, suc, ◌+◌, ◌*◌, ◌<◌, ◌≡◌, ◌≢◌, ◌⊎◌, inl, inr, arith, refl, sym, ◌∙◌, subst, ap, true,
  Option, some, ℤ, pos, negsuc, if◌then◌else◌, Bool-cases,
}
use cxkernel.Text.{Memory, strcmp}
use cxkernel.Elf.{Context64, ehdr, shdr, read_section64, is_equal, section_loop, find_section}

-- The section whose header is at `p` has a name, and its comparison ends.
abbrev pub Compared : ℕ → Memory → ℕ → ℕ → ℕ → Type 0
Compared fuel m sh_str name p =
    (d : ℤ) × (strcmp fuel m (sh_str + (shdr m p).sh_name) name ≡ some d)

-- Whether the section at `p` has the name.
abbrev pub IsNamed : ℕ → Memory → ℕ → ℕ → ℕ → Type 0
IsNamed fuel m sh_str name p = strcmp fuel m (sh_str + (shdr m p).sh_name) name ≡ some (pos 0)

is_equal-zero : (d : ℤ) → is_equal d ≡ true → d ≡ pos 0
is_equal-zero (pos n) e = let z : n ≡ 0 = ground (arith, e) in ap pos z
is_equal-zero (negsuc n) e = ground (arith, e)

-- The first section of the name, by its index from `p` on, or none.
abbrev pub Found : ℕ → Memory → ℕ → ℕ → ℕ → ℕ → Option ℕ → Type 0
Found fuel m sh_str name p n answer =
    ((i : ℕ) × (i < n)
      × (answer ≡ some (p + 64 * i))
      × IsNamed fuel m sh_str name (p + 64 * i)
      × ((j : ℕ) → j < i → ¬ IsNamed fuel m sh_str name (p + 64 * j)))
    ⊎ ((answer ≡ some 0) × ((j : ℕ) → j < n → ¬ IsNamed fuel m sh_str name (p + 64 * j)))

section_loop-next :
    (fuel : ℕ) (m : Memory) (dot_null sh_str name p n : ℕ) (d : ℤ)
    → m name ≢ 0
    → strcmp fuel m (sh_str + (shdr m p).sh_name) name ≡ some d
    → section_loop fuel m dot_null sh_str name p (suc n)
      ≡ (if is_equal d then some p else section_loop fuel m dot_null sh_str name (p + 64) n)
unfolding section_loop
section_loop-next fuel m dot_null sh_str name p n d ne e = ground (arith, ne, e)

pos-some : (a b : ℤ) → some a ≡ some b → is_equal a ≡ is_equal b
pos-some a b e = ground (arith, e)

module _ (fuel : ℕ) (m : Memory) (sh_str name p : ℕ) where
  -- the indices from the next section on
  abbrev Named : ℕ → Type 0
  Named q = IsNamed fuel m sh_str name q

  here : Named p → Named (p + 64 * 0)
  here h = subst Named (omega arith) h

  there : (j : ℕ) → Named (p + 64 * suc j) → Named (p + 64 + 64 * j)
  there j h = subst Named (omega arith) h

  -- Not this one, and none after it below an index.
  split :
      (¬ Named p)
      → (j : ℕ) → ((k : ℕ) → j ≡ suc k → ¬ Named (p + 64 + 64 * k))
      → ¬ Named (p + 64 * j)
  split other zero later h = other (subst Named (omega arith) h)
  split other (suc k) later h = later k refl (there k h)

  next-Found :
      (n : ℕ) (answer : Option ℕ)
      → (¬ Named p)
      → Found fuel m sh_str name (p + 64) n answer
      → Found fuel m sh_str name p (suc n) answer
  next-Found n answer other (inl (i, lt, e, named, first)) = inl (
    suc i,
    omega (arith, lt),
    e ∙ ap some (omega arith),
    subst Named (omega arith) named,
    λ j small. split other j (λ k e. first k (omega (arith, e, small))),
  )
  next-Found n answer other (inr (e, none_named)) =
      inr (e, λ j small. split other j (λ k e. none_named k (omega (arith, e, small))))

section_loop-Found :
    (fuel : ℕ) (m : Memory) (dot_null sh_str name p n : ℕ)
    → m name ≢ 0
    → ((j : ℕ) → j < n → Compared fuel m sh_str name (p + 64 * j))
    → Found fuel m sh_str name p n (section_loop fuel m dot_null sh_str name p n)
unfolding section_loop
section_loop-Found fuel m dot_null sh_str name p zero ne all =
    inr (refl, λ j lt. absurd (omega (arith, lt)))
section_loop-Found fuel m dot_null sh_str name p (suc n) ne all =
    let c : Compared fuel m sh_str name p =
      subst (Compared fuel m sh_str name) (omega arith) (all 0 (omega arith)) in
    let run = section_loop-next fuel m dot_null sh_str name p n c.0 ne c.1 in
    elim (Bool-cases (is_equal c.0)) [
      | inl same ↦
          let z = is_equal-zero c.0 same in
          inl (
            0,
            omega arith,
            run
                ∙ ap
                    (λ b. if b then some p else section_loop fuel m dot_null sh_str name (p + 64) n)
                    same
                ∙ ap some (omega arith),
            here fuel m sh_str name p (c.1 ∙ ap some z),
            λ j small. absurd (omega (arith, small)),
          )
      | inr differs ↦
          let rest = section_loop-Found fuel m dot_null sh_str name (p + 64) n ne (λ j lt.
            subst (Compared fuel m sh_str name) (omega arith) (all (suc j) (omega (arith, lt)))) in
          let e =
            run
            ∙ ap (λ b. if b then some p else section_loop fuel m dot_null sh_str name (p + 64) n)
                differs in
          subst (Found fuel m sh_str name p (suc n)) (sym e) (
            next-Found fuel m sh_str name p n (section_loop fuel m dot_null sh_str name (p + 64) n)
              (λ h. let f = pos-some c.0 (pos 0) (sym c.1 ∙ h) in ground (arith, f, differs)) rest)
    ]

-- When the name looked for is not empty and each section's name can be compared with it,
-- `find_section` returns the header of the first section of that name, or null when there is none.
pub find_section-Found :
    (fuel : ℕ) (m : Memory) (dot_null : ℕ) (c : Context64) (name : ℕ)
    → m name ≢ 0
    → ((j : ℕ)
        → j < (ehdr m c.img).e_shnum
        → Compared fuel m
            (read_section64 m c.img c.shdrs (ehdr m c.img).e_shstrndx)
            name
            (c.shdrs + 64 * j))
    → Found fuel m
        (read_section64 m c.img c.shdrs (ehdr m c.img).e_shstrndx)
        name
        c.shdrs
        (ehdr m c.img).e_shnum
        (find_section fuel m dot_null c name)
unfolding find_section
find_section-Found fuel m dot_null c name ne all =
    section_loop-Found fuel m dot_null (read_section64 m c.img c.shdrs (ehdr m c.img).e_shstrndx)
      name c.shdrs (ehdr m c.img).e_shnum ne all
