-- ===== src/Symbols/Nearest.antt =====
-- What the symbol look-up of lib/elf/elf64_parser.cc finds.
use cxkernel.Base.{
  ℕ, ◌≡◌, ◌≤◌, ◌⊎◌, inl, inr, Bool, true, false, Option, none, some, List, [], ◌∷◌, if◌then◌else◌,
  arith, refl, All, subst, sym,
}
use cxkernel.Symbols.{
  Sym, better, symbol_addr_loop, get_symbol_addr, symbol_name_loop, get_symbol_name,
}

-- `v` is an upper bound of the values up to `addr`.
abbrev pub IsAbove : List Sym → ℕ → ℕ → Type 0
IsAbove tab addr v = All (λ s. s.st_value ≤ addr → s.st_value ≤ v) tab

-- The loop with one entry more, by what the test of that entry gives.
if-IsAbove :
    (c : Bool) (tab : List Sym) (addr x y : ℕ)
    → (c ≡ true → IsAbove tab addr x)
    → (c ≡ false → IsAbove tab addr y)
    → IsAbove tab addr (if c then x else y)
if-IsAbove true tab addr x y f g = f refl
if-IsAbove false tab addr x y f g = g refl

loop-least : (tab : List Sym) (val addr : ℕ) → val ≤ symbol_addr_loop tab val addr
unfolding symbol_addr_loop
loop-least [] val addr = omega arith
loop-least (s ∷ tab) val addr =
    let a = loop-least tab s.st_value addr in
    let b = loop-least tab val addr in ground (arith, a, b)

loop-IsAbove : (tab : List Sym) (val addr : ℕ) → IsAbove tab addr (symbol_addr_loop tab val addr)
unfolding symbol_addr_loop
loop-IsAbove [] val addr = tt
loop-IsAbove (s ∷ tab) val addr =
    let a = loop-least tab s.st_value addr in
    let b = loop-least tab val addr in
    if-IsAbove (better s val addr) (s ∷ tab) addr (symbol_addr_loop tab s.st_value addr)
      (symbol_addr_loop tab val addr) (λ c. ((λ le. a), loop-IsAbove tab s.st_value addr))
      (λ c. ((λ le. ground (arith, b)), loop-IsAbove tab val addr))

-- The entry is in the table.
abbrev pub In : Sym → List Sym → Type 0
In s [] = ⊥
In s (x ∷ tab) = (s ≡ x) ⊎ In s tab

-- An entry of the table that both loops end with, or what they began with.
abbrev Found : List Sym → ℕ → Option Sym → ℕ → Option Sym → ℕ → Type 0
Found tab addr sym val sym' val' =
    ((s : Sym) × In s tab × (s.st_value ≤ addr) × (sym' ≡ some s) × (val' ≡ s.st_value))
    ⊎ ((sym' ≡ sym) × (val' ≡ val))

if-Found :
    (c : Bool) (tab : List Sym) (addr : ℕ) (sym : Option Sym) (val : ℕ) (p q : Option Sym) (x y : ℕ)
    → (c ≡ true → Found tab addr sym val p x)
    → (c ≡ false → Found tab addr sym val q y)
    → Found tab addr sym val (if c then p else q) (if c then x else y)
if-Found true tab addr sym val p q x y f g = f refl
if-Found false tab addr sym val p q x y f g = g refl

loops-Found :
    (tab : List Sym) (sym : Option Sym) (val addr : ℕ)
    → Found tab addr sym val (symbol_name_loop tab sym val addr) (symbol_addr_loop tab val addr)
unfolding symbol_addr_loop symbol_name_loop
loops-Found [] sym val addr = inr (refl, refl)
loops-Found (s ∷ tab) sym val addr =
    if-Found (better s val addr) (s ∷ tab) addr sym val
      (symbol_name_loop tab (some s) s.st_value addr) (symbol_name_loop tab sym val addr)
      (symbol_addr_loop tab s.st_value addr) (symbol_addr_loop tab val addr)
      (λ c. elim (loops-Found tab (some s) s.st_value addr) [
        | inl r ↦ inl (r.0, inr r.1, r.2, r.3, r.4)
        | inr r ↦ inl (s, inl refl, ground arith, r.0, r.1)
      ])
      (λ c. elim (loops-Found tab sym val addr) [
        | inl r ↦ inl (r.0, inr r.1, r.2, r.3, r.4)
        | inr r ↦ inr (r.0, r.1)
      ])

-- `get_symbol_name` and `get_symbol_addr` agree on an entry of the table whose value is not past
-- the address and is the greatest such value; or they find none and 0, and then no entry has a
-- value other than 0 that is not past the address.
pub get_symbol-nearest :
    (tab : List Sym) (addr : ℕ)
    → ((s : Sym) × In s tab
        × (s.st_value ≤ addr)
        × (get_symbol_name tab addr ≡ some s.st_name)
        × (get_symbol_addr tab addr ≡ s.st_value)
        × IsAbove tab addr s.st_value)
      ⊎ ((get_symbol_name tab addr ≡ none) × (get_symbol_addr tab addr ≡ 0) × IsAbove tab addr 0)
unfolding get_symbol_name get_symbol_addr
get_symbol-nearest tab addr =
    let above = loop-IsAbove tab 0 addr in
    elim (loops-Found tab none 0 addr) [
      | inl r ↦
          let e = r.3 in
          inl (r.0, r.1, r.2, ground (arith, e), r.4, subst (IsAbove tab addr) r.4 above)
      | inr r ↦ let e = r.0 in inr (ground (arith, e), r.1, subst (IsAbove tab addr) r.1 above)
    ]
